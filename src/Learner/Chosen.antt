-- ===== src/Learner/Chosen.antt =====
-- `learner_receive_chosen` puts a chosen value into the slots of the acceptors 1 and 2.
use libpaxos.Prelude.{
  ℕ, zero, suc, ◌+◌, ◌≡◌, refl, ◌↔◌, true, false, Option, none, some, ◌∷◌, arith, ltb, replicate,
  Bool-cases, ap, sym, subst, ◌∙◌, update-eq, ◌≢◌, inl, inr,
}
use libpaxos.Types.{Accepted}
use libpaxos.Khash.{Khash}
use libpaxos.Learner.Gaps.{Gap}
use libpaxos.Learner.Instances.{
  Instance, instance_new, count_quorum, count_agreeing, instance_update, instance_has_quorum,
}
use libpaxos.Learner.Votes.{
  IsValid, Checked, instance_has_quorum-Checked, instance_update-IsValid, instance_new-IsValid,
}
use libpaxos.Learner.{
  Learner, deliver, learner_deliver_next, learner_create_instance, close_instance,
  learner_receive_chosen,
}

count_agreeing-nones :
    (ballot m i count : ℕ) (idx : Option ℕ)
    → count_agreeing ballot (replicate m none) i count idx ≡ (count, idx)
unfolding count_agreeing
count_agreeing-nones ballot zero i count idx = refl
count_agreeing-nones ballot (suc m) i count idx = count_agreeing-nones ballot m (i + 1) count idx

-- The new instance after the two updates.
abbrev chosen_instance : ℕ → Accepted → Instance
chosen_instance n ack =
    instance_update (instance_update (instance_new n) (record ack { aid = 1 }) n)
      (record ack { aid = 2 }) n

-- The two updates where there are at least three acceptors.
module _ (m : ℕ) (ack : Accepted) where
  abbrev one_slot : Instance
  one_slot = record {
    iid = ack.iid;
    last_update_ballot = ack.ballot;
    acks = none ∷ some (record ack { aid = 1 }) ∷ none ∷ replicate m none;
    final_value = none;
  }

  abbrev two_slots : Instance
  two_slots = record {
    iid = ack.iid;
    last_update_ballot = ack.ballot;
    acks = none ∷ some (record ack { aid = 1 }) ∷ some (record ack { aid = 2 }) ∷ replicate m none;
    final_value = none;
  }

  first_update :
      instance_update
        (instance_new (suc (suc (suc m))))
        (record ack { aid = 1 })
        (suc (suc (suc m)))
      ≡ one_slot
  unfolding instance_update instance_new
  first_update = ground (arith, count_agreeing-nones ack.ballot m 3 0 none)

  second_update : instance_update one_slot (record ack { aid = 2 }) (suc (suc (suc m))) ≡ two_slots
  unfolding instance_update
  second_update = ground (arith, count_agreeing-nones ack.ballot m 3 1 (some 1))

  two_slots-closed :
      ((instance_has_quorum two_slots (suc (suc (suc m)))).0 ≡ true) ↔ (suc (suc (suc m)) ≡ 3)
  unfolding instance_has_quorum
  two_slots-closed = ground (arith, count_agreeing-nones ack.ballot m 3 2 (some 2))

pub chosen_instance-closed :
    (n : ℕ) (ack : Accepted) → ((instance_has_quorum (chosen_instance n ack) n).0 ≡ true) ↔ (n ≡ 3)
unfolding instance_has_quorum instance_update instance_new count_agreeing
chosen_instance-closed zero ack = ground arith
chosen_instance-closed (suc zero) ack = ground arith
chosen_instance-closed (suc (suc zero)) ack = ground arith
chosen_instance-closed (suc (suc (suc m))) ack =
    subst (λ x. ((instance_has_quorum x (suc (suc (suc m)))).0 ≡ true) ↔ (suc (suc (suc m)) ≡ 3))
      (sym (
        ap (λ x. instance_update x (record ack { aid = 2 }) (suc (suc (suc m))))
          (first_update m ack)
        ∙ second_update m ack))
      (two_slots-closed m ack)

-- Any message will do.
abbrev AnyAck : Accepted → Type 0
AnyAck a = Unit {0}

chosen_instance-IsValid :
    (n : ℕ) (ack : Accepted)
    → IsValid AnyAck n ack.iid (chosen_instance n ack) × ((chosen_instance n ack).iid ≡ ack.iid)
unfolding instance_new
chosen_instance-IsValid n ack =
    let (v, name) =
      instance_update-IsValid AnyAck n ack.iid (instance_new n) (record ack { aid = 1 }) refl tt
        (inl refl) (instance_new-IsValid AnyAck n ack.iid) in
    instance_update-IsValid AnyAck n ack.iid _ (record ack { aid = 2 }) refl tt (inr name) v

-- A closed instance stays as it is.
has_quorum-closed :
    (n : ℕ) (inst : Instance) (v : Accepted)
    → inst.final_value ≡ some v
    → instance_has_quorum inst n ≡ (true, inst)
unfolding instance_has_quorum count_quorum
has_quorum-closed n inst v f = ap (count_quorum inst n) f

module _ (kh : Khash Instance) (kg : Khash Gap) where
  deliver-closed :
      (l : Learner kh kg) (inst : Instance) (v : Accepted)
      → inst.final_value ≡ some v
      → (deliver kh kg l inst).0 ≡ some v
  unfolding deliver
  deliver-closed l inst v f = rw (has_quorum-closed l.acceptors inst v f) f

  deliver-open :
      (l : Learner kh kg) (inst : Instance)
      → (instance_has_quorum inst l.acceptors).0 ≡ false
      → (deliver kh kg l inst).0 ≡ none
  unfolding deliver
  deliver-open l inst q = rw q refl

  -- What a delivery hands out right after `close_instance` of the current instance.
  deliver-close :
      (l : Learner kh kg) (inst old : Instance)
      → kh.get l.instances l.current_iid ≡ some old
      → Checked AnyAck l.acceptors l.current_iid inst (instance_has_quorum inst l.acceptors)
      → (((learner_deliver_next kh kg (close_instance kh kg l l.current_iid inst)).0 ≢ none)
          ↔ ((instance_has_quorum inst l.acceptors).0 ≡ true))
  unfolding learner_deliver_next close_instance
  deliver-close l inst old at c =
      rw
        (
          ap (λ m. m l.current_iid)
                (kh.get-write l.instances l.current_iid (instance_has_quorum inst l.acceptors).1 old
                  at)
              ∙ update-eq (kh.get l.instances) l.current_iid l.current_iid _ refl,
          learner_deliver_next,
        )
        (elim (Bool-cases (instance_has_quorum inst l.acceptors).0) [
          | inl q ↦ (
            λ _. q,
            λ _ z.
                let (v, f) = c.closed q in
                cc (
                  deliver-closed (close_instance kh kg l l.current_iid inst)
                    (instance_has_quorum inst l.acceptors).1 v f),
          )
          | inr q ↦ (
            λ ne. absurd (
                ne (
                  deliver-open (close_instance kh kg l l.current_iid inst)
                    (instance_has_quorum inst l.acceptors).1
                    (ap (λ (x : Instance). (instance_has_quorum x l.acceptors).0) (c.still_open q).0
                      ∙ q))),
            λ p. cc,
          )
        ])

  -- A chosen message for the instance that comes next: with memory for its table entry it is taken, and the
  -- learner can then deliver the instance exactly if there are three acceptors.
  pub receive_chosen-delivers :
      (l : Learner kh kg) (ack : Accepted)
      → ack.iid ≡ l.current_iid
      → kh.room l.instances ack.iid ≡ true
      → (l' : Learner kh kg) × (learner_receive_chosen kh kg l ack ≡ some l')
        × (((learner_deliver_next kh kg l').0 ≢ none) ↔ (l.acceptors ≡ 3))
  unfolding learner_receive_chosen learner_create_instance
  receive_chosen-delivers l ack e room =
      let (v, name) = chosen_instance-IsValid l.acceptors ack in
      let made : Learner kh kg = record l {
        instances = kh.put l.instances ack.iid (instance_new l.acceptors);
      } in
      let at : kh.get made.instances ack.iid ≡ some (instance_new l.acceptors) =
        ap (λ m. m ack.iid) (kh.get-put l.instances ack.iid _)
        ∙ update-eq (kh.get l.instances) ack.iid ack.iid _ refl in
      let f =
        subst
          (λ k.
            kh.get made.instances k ≡ some (instance_new l.acceptors)
            → Checked AnyAck l.acceptors k (chosen_instance l.acceptors ack)
                (instance_has_quorum (chosen_instance l.acceptors ack) l.acceptors)
            → (((learner_deliver_next kh kg
                    (close_instance kh kg made k (chosen_instance l.acceptors ack))).0
                  ≢ none)
                ↔ ((instance_has_quorum (chosen_instance l.acceptors ack) l.acceptors).0 ≡ true)))
          (sym e) (deliver-close made (chosen_instance l.acceptors ack) (instance_new l.acceptors))
          at
          (instance_has_quorum-Checked AnyAck l.acceptors ack.iid (chosen_instance l.acceptors ack)
            v) in
      let closes = chosen_instance-closed l.acceptors ack in
      let test : ltb ack.iid l.current_iid ≡ false = ground arith in
      (
        close_instance kh kg made ack.iid (chosen_instance l.acceptors ack),
        rw (test, room, learner_receive_chosen, learner_create_instance) refl,
        (λ a. closes.0 (f.0 a), λ b. f.1 (closes.1 b)),
      )
