-- ===== src/Proposer/Timeouts.antt =====
-- The timeout iterators of paxos/proposer.c, and the form of the loops over them in
-- evpaxos/evproposer.c. `step` is what `timeout_iterator_prepare` and `timeout_iterator_accept` have in
-- common, over the table of one phase; `out` is what they make of an instance. Times are in seconds.
-- `Timeouts/Renewal.antt` holds the proofs.
pub mod Renewal
use mathlib.Core.List.{append_assoc}
use libpaxos.Prelude.{
  ℕ, zero, suc, ◌+◌, ◌-◌, ◌<◌, ◌≤◌, ◌≡◌, refl, Bool, true, false, not, ◌&&◌, Option, none, some,
  List, [], ◌∷◌, ◌++◌, arith, length, length-append, drop, ◌==◌, leb, if◌then◌else◌, Bool-cases,
  Option-cases, inl, inr, ap, sym, subst, ◌∙◌, ◌>>=◌, some->>=,
}
use mathlib.Core.Option.{some-injective}
use libpaxos.Types.{Prepare, Accept, prepare_of}
use libpaxos.Quorum
use libpaxos.Khash.{Khash, Fresh, Distinct, replaced}
use libpaxos.Proposer.Instances.{Instance, instance_has_timedout, instance_to_accept}
use libpaxos.Proposer.{Proposer}

-- The walk over the buckets from the `k`-th on: the first instance that has no quorum and has timed out,
-- with its key, and where the iterator stands.
unfoldable pub next_timedout : ℕ → ℕ → List (ℕ × Instance) → ℕ → Option (ℕ × Instance) × ℕ
next_timedout timeout now [] k = (none, k)
next_timedout timeout now ((key, inst) ∷ es) k =
    let rest = next_timedout timeout now es (k + 1) in
    if Quorum.reached inst.quorum
    then rest
    else if instance_has_timedout timeout inst now
    then (some (key, inst), k)
    else rest

module _ (kh : Khash Instance) {A : Type 0} (out : Instance → Option A) where
  -- What follows the walk.
  abbrev pub found_timedout :
      ℕ → kh.Table → Option (ℕ × Instance) × ℕ → Option (Option A × (ℕ × kh.Table))
  found_timedout now t (none, k) = some (none, (k, t))
  found_timedout now t (some (key, inst), k) = do
    a ← out inst
    some (some a, (k, kh.write t key (record inst { created_at = now })))

  -- The next message, the bucket that the iterator stands at, and the table.
  unfoldable pub step : ℕ → ℕ → ℕ × kh.Table → Option (Option A × (ℕ × kh.Table))
  unfolding next_timedout
  step timeout now (k, t) =
      found_timedout now t (next_timedout timeout now (drop k (kh.entries t)) k)

abbrev pub more : {A S : Type 0} → A → Option (List A × S) → Option (List A × S)
more m none = none
more m (some (ms, s)) = some (m ∷ ms, s)

abbrev pub after_round : {A S : Type 0} → Option A → S → Option (List A × S) → Option (List A × S)
after_round none s rest = some ([], s)
after_round (some m) s rest = more m rest

module _ {A S : Type 0} (next : S → Option (Option A × S)) where
  -- A loop `while (next(...))`, of at most `fuel` rounds; `none` is a fault, or fuel that has run out.
  unfoldable pub drain : ℕ → S → Option (List A × S)
  drain zero s = none
  drain (suc fuel) s = do (a, s') ← next s; after_round a s' (drain fuel s')

-- `struct timeout_iterator` but for the proposer that it points to.
pub record TimeoutIterator : Type 0 where
  pub pi : ℕ
  pub ai : ℕ
  pub timeout : ℕ

unfoldable pub proposer_timeout_iterator : ℕ → TimeoutIterator
proposer_timeout_iterator now = record { pi = 0; ai = 0; timeout = now }

abbrev pub to_prepare : Instance → Option Prepare
to_prepare inst = some (prepare_of inst.iid inst.ballot)

module _ (kh : Khash Instance) where
  unfoldable pub timeout_iterator_prepare :
      ℕ → TimeoutIterator × Proposer kh → Option (Option Prepare × (TimeoutIterator × Proposer kh))
  unfolding step
  timeout_iterator_prepare timeout (iter, p) = do
    (a, (k, t)) ← step kh to_prepare timeout iter.timeout (iter.pi, p.prepare_instances)
    some (a, (record iter { pi = k }, record p { prepare_instances = t }))

  unfoldable pub timeout_iterator_accept :
      ℕ → TimeoutIterator × Proposer kh → Option (Option Accept × (TimeoutIterator × Proposer kh))
  unfolding step
  timeout_iterator_accept timeout (iter, p) = do
    (a, (k, t)) ← step kh instance_to_accept timeout iter.timeout (iter.ai, p.accept_instances)
    some (a, (record iter { ai = k }, record p { accept_instances = t }))

abbrev pub lifted : {X S T : Type 0} → (T → S) → Option (X × T) → Option (X × S)
lifted f none = none
lifted f (some (x, t)) = some (x, f t)

module _ {A S T : Type 0} (next : S → Option (Option A × S)) (next' : T → Option (Option A × T))
    (f : T → S) where
  more-lifted : (m : A) (o : Option (List A × T)) → more m (lifted f o) ≡ lifted f (more m o)
  more-lifted m none = refl
  more-lifted m (some x) = refl

  -- A loop on a part of the state.
  pub drain_part :
      ((t : T) → next (f t) ≡ lifted f (next' t))
      → (fuel : ℕ) (t : T) → drain next fuel (f t) ≡ lifted f (drain next' fuel t)
  unfolding drain
  drain_part h zero t = refl
  drain_part h (suc fuel) t = elim (Option-cases (next' t)) [
    | inl e ↦ rw (h t, e, drain) refl
    | inr ((none, t'), e) ↦ rw (h t, e, drain) refl
    | inr ((some m, t'), e) ↦
        rw (h t, e, drain)
          (ap (more m) (drain_part h fuel t') ∙ more-lifted m (drain next' fuel t'))
  ]
