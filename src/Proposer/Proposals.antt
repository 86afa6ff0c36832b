-- ===== src/Proposer/Proposals.antt =====
-- Phase 2: what `proposer_accept` proposes, and for which instance.
use mathlib.Core.Option.{some-injective}
use libpaxos.Prelude.{
  ℕ, ◌≤◌, ◌≡◌, refl, inl, inr, Bool, true, false, not, ◌&&◌, Option, none, some, u16, if◌then◌else◌,
  ap, sym, subst, ◌∙◌, ◌>>=◌, some->>=, update,
}
use libpaxos.Types.{Value, Accept}
use libpaxos.Quorum
use libpaxos.Carray.{Carray, carray_pop_front}
use libpaxos.Khash.{Khash}
use libpaxos.Proposer.Instances.{Instance, instance_to_accept, is_set}
use libpaxos.Proposer.{
  Proposer, put_absent, smallest, proposer_move_instance, take_value, propose_instance,
  proposer_accept,
}
use libpaxos.Proposer.Least.{smallest-Least}

module _ (kh : Khash Instance) where
  -- The first of two values that is there.
  abbrev pub first_of : Option Value → Option Value → Option Value
  first_of none o = o
  first_of (some v) o = some v

  pub taken :
      (inst : Instance) (values : Carray Value)
      → (take_value kh inst values).0
        ≡ record inst { value = first_of inst.value (carray_pop_front values).0 }
  unfolding take_value
  taken inst values = go inst.value
    where
      go :
          (o : Option Value)
          → (if◌then◌else◌ {A = Instance × Carray Value}
              (is_set o)
              (record inst { value = o }, values)
              (record inst { value = (carray_pop_front values).0 }, (carray_pop_front values).1)).0
            ≡ record inst { value = first_of o (carray_pop_front values).0 }
      go none = refl
      go (some v) = refl

  to_accept :
      (inst : Instance) (acc : Accept)
      → instance_to_accept inst ≡ some acc
      → (acc.iid ≡ inst.iid)
        × (acc.ballot ≡ u16 inst.ballot)
        × (some acc.value ≡ first_of inst.promised_value inst.value)
  unfolding instance_to_accept
  to_accept inst acc e =
      let (v, f, g) =
        some->>= (if is_set inst.promised_value then inst.promised_value else inst.value) _ acc e in
      let h = some-injective _ acc g in
      (
        sym (ap (λ (a : Accept). a.iid) h),
        sym (ap (λ (a : Accept). a.ballot) h),
        ap (λ (a : Accept). some a.value) (sym h) ∙ sym f ∙ chosen inst.promised_value,
      )
    where
      chosen : (o : Option Value) → (if is_set o then o else inst.value) ≡ first_of o inst.value
      chosen none = refl
      chosen (some v) = refl

  pub put_absent-some :
      (t t' : kh.Table) (k : ℕ) (inst : Instance)
      → put_absent kh t k inst ≡ some t'
      → (kh.get t k ≡ none) × (kh.get t' ≡ update (kh.get t) k (some inst))
  unfolding put_absent
  put_absent-some t t' k inst e = go (kh.get t k) refl (kh.room t k) e
    where
      go :
          (o : Option Instance)
          → kh.get t k ≡ o
          → (b : Bool)
          → elim o [
            | none ↦ if◌then◌else◌ {A = Option kh.Table} b (some (kh.put t k inst)) none
            | some old ↦ none
          ]
            ≡ some t'
          → (kh.get t k ≡ none) × (kh.get t' ≡ update (kh.get t) k (some inst))
      go (some x) z b f = absurd (cc f)
      go none z false f = absurd (cc f)
      go none z true f = (
        z,
        subst (λ u. kh.get u ≡ update (kh.get t) k (some inst))
            (some-injective (kh.put t k inst) t' f) (kh.get-put t k inst),
      )

  pub moved :
      (f t f' t' : kh.Table) (inst inst' : Instance)
      → proposer_move_instance kh f t inst ≡ some (f', t', inst')
      → (inst' ≡ record inst { quorum = Quorum.clear inst.quorum })
        × (kh.get f' ≡ update (kh.get f) inst.iid none)
        × (kh.get t' ≡ update (kh.get t) inst.iid (some inst'))
  unfolding proposer_move_instance put_absent
  moved f t f' t' inst inst' e =
      let (x, at, e1) = some->>= (kh.get f inst.iid) _ _ e in
      let (t'', put, e2) =
        some->>= (put_absent kh t inst.iid (record inst { quorum = Quorum.clear inst.quorum })) _ _
          e1 in
      let h = some-injective _ _ e2 in
      let (room, g) = put_absent-some t t'' inst.iid _ put in
      (
        sym (ap (λ r. r.2) h),
        ap (λ (r : kh.Table × kh.Table × Instance). kh.get r.0) (sym h) ∙ kh.get-del f inst.iid,
        ap (λ (r : kh.Table × kh.Table × Instance). kh.get r.1) (sym h)
            ∙ g
            ∙ ap (λ r. update (kh.get t) inst.iid (some r.2)) h,
      )

  -- The instance that waits for accepted messages then.
  abbrev pub sent_instance : Proposer kh → Instance → Instance
  sent_instance p inst = record inst {
    value = first_of inst.value (carray_pop_front p.values).0;
    quorum = Quorum.clear inst.quorum;
  }

  -- What `proposer_accept` proposes: the least instance that waits, which must have its quorum, with the
  -- value that the promises report, or else its own, or else the oldest client value.
  pub record Proposed (p : Proposer kh) (acc : Accept) (p' : Proposer kh) : Type 0 where
    pub inst : Instance
    pub key : ℕ
    pub waits : kh.get p.prepare_instances key ≡ some inst
    pub least : (k : ℕ) (x : Instance) → kh.get p.prepare_instances k ≡ some x → inst.iid ≤ x.iid
    pub quorum : Quorum.reached inst.quorum ≡ true
    pub iid : acc.iid ≡ inst.iid
    pub ballot : acc.ballot ≡ u16 inst.ballot
    pub value :
        some acc.value
        ≡ first_of inst.promised_value (first_of inst.value (carray_pop_front p.values).0)
    pub gone : kh.get p'.prepare_instances ≡ update (kh.get p.prepare_instances) inst.iid none
    pub kept :
        kh.get p'.accept_instances
        ≡ update (kh.get p.accept_instances) inst.iid (some (sent_instance p inst))
    pub asks : instance_to_accept (sent_instance p inst) ≡ some acc
    pub others : p' ≡ record p {
      values = (take_value kh inst p.values).1;
      prepare_instances = p'.prepare_instances;
      accept_instances = p'.accept_instances;
    }

  propose_instance-Proposed :
      (p p' : Proposer kh) (acc : Accept) (inst : Instance) (key : ℕ)
      → kh.get p.prepare_instances key ≡ some inst
      → ((k : ℕ) (x : Instance) → kh.get p.prepare_instances k ≡ some x → inst.iid ≤ x.iid)
      → Quorum.reached inst.quorum ≡ true
      → propose_instance kh p inst ≡ some (some acc, p')
      → Proposed p acc p'
  unfolding propose_instance
  propose_instance-Proposed p p' acc inst key waits least quorum e =
      go (not (is_set inst'.value) && not (is_set inst'.promised_value)) e
    where
      inst' : Instance
      inst' = (take_value kh inst p.values).0

      after : kh.Table → kh.Table → Proposer kh
      after prepares accepts = record p {
        values = (take_value kh inst p.values).1;
        prepare_instances = prepares;
        accept_instances = accepts;
      }

      chain : Option (Option Accept × Proposer kh)
      chain = proposer_move_instance kh p.prepare_instances p.accept_instances inst' >>= λ m.
          instance_to_accept m.2 >>= λ out. some (some out, after m.0 m.1)

      go :
          (b : Bool)
          → (if◌then◌else◌ {A = Option (Option Accept × Proposer kh)} b
              (some (none, record p { values = (take_value kh inst p.values).1 }))
              chain)
            ≡ some (some acc, p')
          → Proposed p acc p'
      go true f = absurd (cc (ap (λ (r : Option Accept × Proposer kh). r.0) (some-injective _ _ f)))
      go false f =
          let (m, e1, f1) =
            some->>= (proposer_move_instance kh p.prepare_instances p.accept_instances inst') _ _
              f in
          let (out, e2, f2) = some->>= (instance_to_accept m.2) _ _ f1 in
          let h = some-injective _ _ f2 in
          let (same, gone, kept) =
            moved p.prepare_instances p.accept_instances m.0 m.1 inst' m.2 e1 in
          let full =
            same
            ∙ ap (λ (i : Instance). record i { quorum = Quorum.clear i.quorum })
                (taken inst p.values) in
          let (a, b, c) = to_accept m.2 out e2 in
          let is_out : out ≡ acc =
            some-injective out acc (ap (λ (r : Option Accept × Proposer kh). r.0) h) in
          let key' : inst'.iid ≡ inst.iid = ap (λ (i : Instance). i.iid) (taken inst p.values) in
          subst (λ (x : Accept). Proposed p x p') is_out
            (subst (Proposed p out) (ap (λ (r : Option Accept × Proposer kh). r.1) h) (record {
              inst = inst;
              key = key;
              waits = waits;
              least = least;
              quorum = quorum;
              iid = a ∙ ap (λ (i : Instance). i.iid) full;
              ballot = b ∙ ap (λ (i : Instance). u16 i.ballot) full;
              value = c ∙ ap (λ (i : Instance). first_of i.promised_value i.value) full;
              gone = gone ∙ ap (λ k. update (kh.get p.prepare_instances) k none) key';
              kept =
                  kept
                  ∙ ap (λ k. update (kh.get p.accept_instances) k (some m.2)) key'
                  ∙ ap (λ x. update (kh.get p.accept_instances) inst.iid (some x)) full;
              asks = ap instance_to_accept (sym full) ∙ e2;
              others = refl;
            }))

  -- Whenever `proposer_accept` sends an accept, the instance has a quorum of promises and no instance that
  -- waits for promises comes before it; the value is the one that the promises report, if there is
  -- one, or else the instance's own, or else the oldest one in the queue; and the instance has
  -- moved, with a cleared quorum, to those that wait for accepted messages. Nothing else changes.
  pub proposer_accept-Proposed :
      (p p' : Proposer kh) (acc : Accept)
      → proposer_accept kh p ≡ some (some acc, p')
      → Proposed p acc p'
  unfolding proposer_accept
  proposer_accept-Proposed p p' acc e =
      go (smallest kh (kh.entries p.prepare_instances) none) refl e
    where
      chosen :
          (inst : Instance)
          → smallest kh (kh.entries p.prepare_instances) none ≡ some inst
          → (b : Bool) → Quorum.reached inst.quorum ≡ b
          → (if b then propose_instance kh p inst else some (none, p)) ≡ some (some acc, p')
          → Proposed p acc p'
      chosen inst s false q f =
          absurd (cc (ap (λ (r : Option Accept × Proposer kh). r.0) (some-injective _ _ f)))
      chosen inst s true q f =
          let l = smallest-Least kh (kh.entries p.prepare_instances) none inst s in
          (elim l.from [
            | inl z ↦ absurd (cc z)
            | inr (k, i) ↦
                propose_instance-Proposed p p' acc inst k
                  (kh.mem-entries p.prepare_instances k inst i)
                  (λ j x g. l.below j x (kh.entries-mem p.prepare_instances j x g)) q f
          ])

      go :
          (o : Option Instance)
          → smallest kh (kh.entries p.prepare_instances) none ≡ o
          → ◌≡◌ {A = Option (Option Accept × Proposer kh)}
              (elim o [
                | none ↦ some (none, p)
                | some inst ↦
                    if Quorum.reached inst.quorum
                    then propose_instance kh p inst
                    else some (none, p)
              ])
              (some (some acc, p'))
          → Proposed p acc p'
      go none s f =
          absurd (cc (ap (λ (r : Option Accept × Proposer kh). r.0) (some-injective _ _ f)))
      go (some inst) s f = chosen inst s (Quorum.reached inst.quorum) refl f
