-- ===== src/Evpaxos/Proposers/Timers.antt =====
-- `evproposer_check_timeouts`: what it sends again, and that it ends.
use mathlib.Core.List.{Memᴰ}
use libpaxos.Prelude.{
  ℕ, ◌+◌, ◌<◌, ◌≡◌, refl, ◌⊎◌, inl, inr, Option, none, some, List, [], ◌∷◌, ◌++◌, map, arith, ap,
  sym, subst, ◌∙◌, ◌>>=◌, if◌then◌else◌, Bool-cases,
}
use libpaxos.Types.{Prepare, Accept, Message, prepare, accept}
use libpaxos.Khash.{Khash}
use libpaxos.Proposer.Instances.{Instance, instance_to_accept}
use libpaxos.Proposer.{Proposer}
use libpaxos.Proposer.Orderly.{Each, Apart-sym, Sound, Sound-quorum, Orderly}
use libpaxos.Proposer.Timeouts.{
  step, drain, lifted, drain_part, TimeoutIterator, proposer_timeout_iterator, to_prepare,
  timeout_iterator_prepare, timeout_iterator_accept,
}
use libpaxos.Proposer.Timeouts.Renewal.{due, renewed, outs, drain-entries}
use libpaxos.Evpaxos.Proposers.{Evproposer, evproposer_check_timeouts}

outs_lem :
    {A : Type 0} (out : Instance → Option A) (timeout now : ℕ) (es : List (ℕ × Instance))
    → ((k : ℕ) (v : Instance) → Memᴰ (k, v) es → (a : A) × (out v ≡ some a))
    → (ms : List A) × (outs out timeout now es ≡ some ms)
outs_lem out timeout now [] h = ([], refl)
outs_lem out timeout now ((k, inst) ∷ es) h =
    let (ms, e) = outs_lem out timeout now es (λ j v m. h j v (Memᴰ.tail m)) in
    let (a, f) = h k inst (Memᴰ.head refl) in
    elim (Bool-cases (due timeout now inst)) [
      | inl d ↦ (a ∷ ms, rw (d, f, e) refl)
      | inr d ↦ (ms, rw d e)
    ]

-- An entry as it was, or with the new time.
renewed-mem :
    (timeout now : ℕ) (es : List (ℕ × Instance)) (k : ℕ) (v : Instance)
    → Memᴰ (k, v) (renewed timeout now es)
    → (w : Instance) × Memᴰ (k, w) es × ((v ≡ w) ⊎ (v ≡ record w { created_at = now }))
renewed-mem timeout now [] k v m = elim m [ ]
renewed-mem timeout now ((j, inst) ∷ es) k v (Memᴰ.head e) = (
  inst,
  Memᴰ.head (ap (λ (x : ℕ × Instance). (x.0, inst)) e),
  elim (Bool-cases (due timeout now inst)) [
    | inl d ↦ inr (
        ap (λ (x : ℕ × Instance). x.1) e
        ∙ ap (λ b. if b then record inst { created_at = now } else inst) d)
    | inr d ↦ inl (
        ap (λ (x : ℕ × Instance). x.1) e
        ∙ ap (λ b. if b then record inst { created_at = now } else inst) d)
  ],
)
renewed-mem timeout now ((j, inst) ∷ es) k v (Memᴰ.tail m) =
    let (w, i, c) = renewed-mem timeout now es k v m in (w, Memᴰ.tail i, c)

module _ (kh : Khash Instance) where
  -- One loop, from the first bucket on.
  loop_lem :
      {A : Type 0} (out : Instance → Option A) (timeout now : ℕ) (t : kh.Table)
      → 0 < timeout
      → ((k : ℕ) (v : Instance) → kh.get t k ≡ some v → (a : A) × (out v ≡ some a))
      → (ms : List A) × (k : ℕ) × (t' : kh.Table) × (drain
            (step kh out timeout now)
            (kh.size t + 1)
            (0, t)
          ≡ some (ms, (k, t')))
        × (outs out timeout now (kh.entries t) ≡ some ms)
        × (kh.entries t' ≡ renewed timeout now (kh.entries t))
  loop_lem out timeout now t pos h =
      let (ms, e) =
        outs_lem out timeout now (kh.entries t) (λ k v m. h k v (kh.mem-entries t k v m)) in
      let (k, t', f, g) =
        drain-entries kh out timeout now (kh.entries t) [] (kh.size t + 1) t ms pos refl
          (omega (arith, kh.size-entries t)) e in
      (ms, k, t', f, e, g)

  -- The entries of a table that the loop has gone over.
  Each-renewed :
      (P : ℕ → Instance → Type 0) (timeout now : ℕ) (t t' : kh.Table)
      → ((k : ℕ) (v : Instance) → P k v → P k (record v { created_at = now }))
      → kh.entries t' ≡ renewed timeout now (kh.entries t)
      → Each P (kh.get t)
      → Each P (kh.get t')
  Each-renewed P timeout now t t' keeps e h k v f =
      let (w, m, c) =
        renewed-mem timeout now (kh.entries t) k v
          (subst (Memᴰ (k, v)) e (kh.entries-mem t' k v f)) in
      let pw = h k w (kh.mem-entries t k w m) in
      elim c [
        | inl same ↦ subst (P k) (sym same) pw
        | inr changed ↦ subst (P k) (sym changed) (keeps k w pw)
      ]

  -- What the loop over phase 1 changes.
  abbrev at_prepares : TimeoutIterator → Proposer kh → ℕ × kh.Table → TimeoutIterator × Proposer kh
  at_prepares iter p (k, t) = (record iter { pi = k }, record p { prepare_instances = t })

  prepare_part :
      (timeout fuel : ℕ) (iter : TimeoutIterator) (p : Proposer kh)
      → drain (timeout_iterator_prepare kh timeout) fuel (iter, p)
        ≡ lifted
            (at_prepares iter p)
            (drain (step kh to_prepare timeout iter.timeout) fuel (iter.pi, p.prepare_instances))
  unfolding timeout_iterator_prepare
  prepare_part timeout fuel iter p =
      drain_part (timeout_iterator_prepare kh timeout) (step kh to_prepare timeout iter.timeout)
        (at_prepares iter p) (λ (k, t). part (step kh to_prepare timeout iter.timeout (k, t))) fuel
        (iter.pi, p.prepare_instances)
    where
      part :
          (o : Option (Option Prepare × (ℕ × kh.Table)))
          → ◌≡◌ {A = Option (Option Prepare × (TimeoutIterator × Proposer kh))}
              (o >>= λ (a, (k, t)).
                some (a, (record iter { pi = k }, record p { prepare_instances = t })))
              (lifted (at_prepares iter p) o)
      part none = refl
      part (some x) = refl

  -- What the loop over phase 2 changes.
  abbrev at_accepts : TimeoutIterator → Proposer kh → ℕ × kh.Table → TimeoutIterator × Proposer kh
  at_accepts iter p (k, t) = (record iter { ai = k }, record p { accept_instances = t })

  accept_part :
      (timeout fuel : ℕ) (iter : TimeoutIterator) (p : Proposer kh)
      → drain (timeout_iterator_accept kh timeout) fuel (iter, p)
        ≡ lifted (at_accepts iter p) (
            drain
              (step kh instance_to_accept timeout iter.timeout)
              fuel
              (iter.ai, p.accept_instances))
  unfolding timeout_iterator_accept
  accept_part timeout fuel iter p =
      drain_part (timeout_iterator_accept kh timeout)
        (step kh instance_to_accept timeout iter.timeout) (at_accepts iter p)
        (λ (k, t). part (step kh instance_to_accept timeout iter.timeout (k, t))) fuel
        (iter.ai, p.accept_instances)
    where
      part :
          (o : Option (Option Accept × (ℕ × kh.Table)))
          → ◌≡◌ {A = Option (Option Accept × (TimeoutIterator × Proposer kh))}
              (o >>= λ (a, (k, t)).
                some (a, (record iter { ai = k }, record p { accept_instances = t })))
              (lifted (at_accepts iter p) o)
      part none = refl
      part (some x) = refl

  -- What the timer sends for the two tables, and what it leaves in them.
  pub record Renewed (timeout now : ℕ) (p : Evproposer kh) (r : List Message × Evproposer kh)
      : Type 0 where
    pub prs : List Prepare
    pub ars : List Accept
    pub phase1 : outs to_prepare timeout now (kh.entries p.state.prepare_instances) ≡ some prs
    pub phase2 :
        outs instance_to_accept timeout now (kh.entries p.state.accept_instances) ≡ some ars
    pub sent : r.0 ≡ map prepare prs ++ map accept ars
    pub prepares :
        kh.entries r.1.state.prepare_instances
        ≡ renewed timeout now (kh.entries p.state.prepare_instances)
    pub accepts :
        kh.entries r.1.state.accept_instances
        ≡ renewed timeout now (kh.entries p.state.accept_instances)
    pub orderly : Orderly kh r.1.state

  Sound-renewed :
      (n limit now k : ℕ) (v : Instance)
      → Sound n limit k v
      → Sound n limit k (record v { created_at = now })
  Sound-renewed n limit now k v s = Sound-quorum n limit k v _ s refl s.valid refl

  renewed-Orderly :
      (timeout now : ℕ) (p : Proposer kh) (t t' : kh.Table)
      → kh.entries t ≡ renewed timeout now (kh.entries p.prepare_instances)
      → kh.entries t' ≡ renewed timeout now (kh.entries p.accept_instances)
      → Orderly kh p
      → Orderly kh (record p { prepare_instances = t; accept_instances = t' })
  renewed-Orderly timeout now p t t' e f o = record {
    prepares =
        Each-renewed _ timeout now p.prepare_instances t
          (Sound-renewed p.acceptors p.next_prepare_iid now) e o.prepares;
    accepts =
        Each-renewed _ timeout now p.accept_instances t'
          (Sound-renewed p.acceptors p.next_prepare_iid now) f o.accepts;
    apart = Apart-sym (kh.get t') (kh.get t) (
        Each-renewed (λ k v. kh.get t k ≡ none) timeout now p.accept_instances t' (λ k v h. h) f
          (Apart-sym (kh.get t) (kh.get p.accept_instances) (
            Each-renewed (λ k v. kh.get p.accept_instances k ≡ none) timeout now p.prepare_instances
              t (λ k v h. h) e o.apart)));
    proposable =
        Each-renewed _ timeout now p.accept_instances t' (λ k v w. unfold instance_to_accept in w) f
          o.proposable;
  }

  -- With a timeout above 0, in an orderly proposer, both loops of `evproposer_check_timeouts` end. A prepare
  -- goes out for each instance in phase 1, and an accept for each one in phase 2, that has no quorum
  -- and has timed out, in the order of the tables and for no other; these instances are as new, the
  -- others are as they were, and the proposer stays orderly.
  pub check_timeouts-Renewed :
      (timeout now : ℕ) (p : Evproposer kh)
      → 0 < timeout
      → Orderly kh p.state
      → (r : List Message × Evproposer kh) × (evproposer_check_timeouts kh timeout p now ≡ some r)
        × Renewed timeout now p r
  unfolding evproposer_check_timeouts proposer_timeout_iterator
  check_timeouts-Renewed timeout now p pos o =
      let (prs, k, t, e1, e2, e3) =
        loop_lem to_prepare timeout now p.state.prepare_instances pos (λ i v f. (_, refl)) in
      let (ars, k', t', f1, f2, f3) =
        loop_lem instance_to_accept timeout now p.state.accept_instances pos
          (λ i v f. o.proposable i v f) in
      let iter : TimeoutIterator = record { pi = 0; ai = 0; timeout = now } in
      let p1 : Proposer kh = record p.state { prepare_instances = t } in
      let first =
        prepare_part timeout (kh.size p.state.prepare_instances + 1) iter p.state
        ∙ ap (lifted (at_prepares iter p.state)) e1 in
      let second =
        accept_part timeout (kh.size p.state.accept_instances + 1) (record iter { pi = k }) p1
        ∙ ap (lifted (at_accepts (record iter { pi = k }) p1)) f1 in
      (
        (
          map prepare prs ++ map accept ars,
          record p { state = record p1 { accept_instances = t' } },
        ),
        rw (first, evproposer_check_timeouts) (rw second refl),
        record {
          prs = prs;
          ars = ars;
          phase1 = e2;
          phase2 = f2;
          sent = refl;
          prepares = e3;
          accepts = f3;
          orderly = renewed-Orderly timeout now p.state t t' e3 f3 o;
        },
      )
