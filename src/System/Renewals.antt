-- ===== src/System/Renewals.antt =====
-- The timers of a proposer: they send old messages again.
use mathlib.Core.List.{Memᴰ}
use mathlib.Core.Option.{some-injective}
use libpaxos.Prelude.{
  ℕ, zero, suc, drop, ◌+◌, ◌≡◌, refl, inl, inr, Option, none, some, List, [], ◌∷◌, ◌∙◌, ap, sym,
  subst, Bool-cases, some->>=,
}
use libpaxos.Types.{Prepare, Accept}
use libpaxos.Quorum
use libpaxos.Quorum.{Quorum}
use libpaxos.Khash.{Khash}
use libpaxos.Storage.{StorageApi}
use libpaxos.Proposer.Instances.{Instance, instance_to_accept, instance_has_timedout}
use libpaxos.Proposer.{Proposer}
use libpaxos.Proposer.Timeouts.{TimeoutIterator, timeout_iterator_prepare, timeout_iterator_accept}
use libpaxos.System.{System}
use libpaxos.Proposer.Timeouts.{next_timedout, found_timedout, step, to_prepare}
use libpaxos.System.Proposers.{Proposing}
use libpaxos.System.Turns.{write_accept-Proposing, same-Asking}
use libpaxos.System.Returns.{write_prepare-Proposing}

module _ (api : StorageApi) (kh : Khash Instance) where
  -- The walk of an iterator finds an entry of the list.
  next_timedout-Mem :
      (timeout now k : ℕ) (es : List (ℕ × Instance)) (x : ℕ × Instance)
      → (next_timedout timeout now es k).0 ≡ some x
      → Memᴰ x es
  unfolding next_timedout
  next_timedout-Mem timeout now k [] x = λ e. cc
  next_timedout-Mem timeout now k ((key, inst) ∷ es) x =
      elim (Bool-cases (Quorum.reached inst.quorum)) [
        | inl done ↦ rw done (λ e. Memᴰ.tail (next_timedout-Mem timeout now (k + 1) es x e))
        | inr more ↦ rw more (elim (Bool-cases (instance_has_timedout timeout inst now)) [
          | inl due ↦ rw due (λ e. Memᴰ.head (sym (some-injective _ x e)))
          | inr not_due ↦ rw not_due (λ e. Memᴰ.tail (next_timedout-Mem timeout now (k + 1) es x e))
        ])
      ]

  drop-Mem : (k : ℕ) (es : List (ℕ × Instance)) (x : ℕ × Instance) → Memᴰ x (drop k es) → Memᴰ x es
  drop-Mem zero es x i = i
  drop-Mem (suc k) [] x i = i
  drop-Mem (suc k) (e ∷ es) x i = Memᴰ.tail (drop-Mem k es x i)

  -- What a step of an iterator finds and leaves: nothing and the table, or the message of an entry and the
  -- table with a new time in it.
  data Timed {A : Type 0} (out : Instance → Option A) (t : kh.Table)
      : Option A → kh.Table → Type 0 where
    same : Timed out t none t
    renewed :
        (k now : ℕ) (inst : Instance) (a : A)
        → kh.get t k ≡ some inst
        → out inst ≡ some a
        → Timed out t (some a) (kh.write t k (record inst { created_at = now }))

  step-Timed :
      {A : Type 0} (out : Instance → Option A) (timeout now k : ℕ) (t : kh.Table) (a : Option A)
      (k' : ℕ) (t' : kh.Table)
      → step kh out timeout now (k, t) ≡ some (a, (k', t'))
      → Timed out t a t'
  unfolding step
  step-Timed out timeout now k t a k' t' e =
      go (next_timedout timeout now (drop k (kh.entries t)) k) refl e
    where
      go :
          (x : Option (ℕ × Instance) × ℕ)
          → next_timedout timeout now (drop k (kh.entries t)) k ≡ x
          → found_timedout kh out now t x ≡ some (a, (k', t'))
          → Timed out t a t'
      go (none, j) z f = let is = some-injective _ _ f in subst (λ r. Timed out t r.0 r.1.1) is same
      go (some (key, inst), j) z f =
          let (b, made, g) = some->>= (out inst) _ _ f in
          subst (λ r. Timed out t r.0 r.1.1) (some-injective _ _ g)
            (renewed key now inst b
              (kh.mem-entries t key inst (
                drop-Mem k (kh.entries t) _
                  (next_timedout-Mem timeout now k (drop k (kh.entries t)) _ (ap (λ r. r.0) z))))
              made)

  Timed-prepares :
      (n id : ℕ) (s : System api) (p : Proposer kh) (t : kh.Table) (a : Option Prepare)
      → Proposing api kh n id s p
      → Timed to_prepare p.prepare_instances a t
      → Proposing api kh n id s (record p { prepare_instances = t })
  Timed-prepares n id s p t a h same = record {
    id_is = h.id_is;
    acceptors = h.acceptors;
    prepares = h.prepares;
    accepts = h.accepts;
    closed = h.closed;
  }
  Timed-prepares n id s p t o h (renewed k now inst m e made) =
      let a = h.prepares k inst e in
      write_prepare-Proposing api kh n id k s p inst _ h e (record {
        standing = record {
          key = a.standing.key;
          positive = a.standing.positive;
          known = a.standing.known;
          owned = a.standing.owned;
          clears = a.standing.clears;
        };
        gathered = a.gathered;
        unasked = a.unasked;
      })

  Timed-accepts :
      (n id : ℕ) (s : System api) (p : Proposer kh) (t : kh.Table) (a : Option Accept)
      → Proposing api kh n id s p
      → Timed instance_to_accept p.accept_instances a t
      → Proposing api kh n id s (record p { accept_instances = t })
  Timed-accepts n id s p t a h same = record {
    id_is = h.id_is;
    acceptors = h.acceptors;
    prepares = h.prepares;
    accepts = h.accepts;
    closed = h.closed;
  }
  Timed-accepts n id s p t o h (renewed k now inst m e made) =
      write_accept-Proposing api kh n id k s p inst _ h e (
        same-Asking api kh n id p.next_prepare_iid k s inst inst.quorum now refl
          (h.accepts k inst e))

  pub prepares_again-Proposing :
      (n id timeout : ℕ) (s : System api) (p p' : Proposer kh) (iter iter' : TimeoutIterator)
      (out : Option Prepare)
      → Proposing api kh n id s p
      → timeout_iterator_prepare kh timeout (iter, p) ≡ some (out, (iter', p'))
      → Proposing api kh n id s p'
  unfolding timeout_iterator_prepare
  prepares_again-Proposing n id timeout s p p' iter iter' out h e =
      let ((a, (k, t)), f, g) =
        some->>= (step kh to_prepare timeout iter.timeout (iter.pi, p.prepare_instances)) _ _ e in
      subst (Proposing api kh n id s) (ap (λ r. r.1.1) (some-injective _ _ g)) (
        Timed-prepares n id s p t a h
          (step-Timed to_prepare timeout iter.timeout iter.pi p.prepare_instances a k t f))

  pub asks_again-Proposing :
      (n id timeout : ℕ) (s : System api) (p p' : Proposer kh) (iter iter' : TimeoutIterator)
      (out : Option Accept)
      → Proposing api kh n id s p
      → timeout_iterator_accept kh timeout (iter, p) ≡ some (out, (iter', p'))
      → Proposing api kh n id s p'
  unfolding timeout_iterator_accept
  asks_again-Proposing n id timeout s p p' iter iter' out h e =
      let ((a, (k, t)), f, g) =
        some->>= (step kh instance_to_accept timeout iter.timeout (iter.ai, p.accept_instances)) _ _
          e in
      subst (Proposing api kh n id s) (ap (λ r. r.1.1) (some-injective _ _ g)) (
        Timed-accepts n id s p t a h
          (step-Timed instance_to_accept timeout iter.timeout iter.ai p.accept_instances a k t f))

  -- An accept that the timer sends again was requested before.
  asks_again-Mem :
      (n id timeout : ℕ) (s : System api) (p p' : Proposer kh) (iter iter' : TimeoutIterator)
      (acc : Accept)
      → Proposing api kh n id s p
      → timeout_iterator_accept kh timeout (iter, p) ≡ some (some acc, (iter', p'))
      → Memᴰ acc s.requests
  unfolding timeout_iterator_accept
  asks_again-Mem n id timeout s p p' iter iter' acc h e =
      let ((a, (k, t)), f, g) =
        some->>= (step kh instance_to_accept timeout iter.timeout (iter.ai, p.accept_instances)) _ _
          e in
      known a t (ap (λ r. r.0) (some-injective _ _ g))
        (step-Timed instance_to_accept timeout iter.timeout iter.ai p.accept_instances a k t f)
    where
      known :
          (a : Option Accept) (t : kh.Table)
          → a ≡ some acc
          → Timed instance_to_accept p.accept_instances a t
          → Memᴰ acc s.requests
      known a t z same = cc
      known a t z (renewed k now inst b get made) = (h.accepts k inst get).asked acc (made ∙ z)
