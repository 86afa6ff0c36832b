-- ===== src/Learner/Delivery.antt =====
-- What `learner_receive_accepted` and `learner_deliver_next` do to the table of instances.
use libpaxos.Prelude.{
  ℕ, ◌+◌, ◌≡◌, ◌≢◌, refl, ◌⊎◌, inl, inr, false, Option, none, some, ◌∙◌, arith, ltb, ◌==◌, u32,
  if◌then◌else◌, update, update-eq, update-ne, Bool-cases, Option-cases, Ensures, Ensures-some,
  Ensures->>=, ap, subst, sym,
}
use mathlib.Core.Option.{some-injective}
use libpaxos.Types.{Accepted}
use libpaxos.Khash.{Khash}
use libpaxos.Learner.Instances.{Instance, instance_new, instance_update, instance_has_quorum}
use libpaxos.Learner.Gaps.{Gap}
use libpaxos.Learner.Votes.{
  Backed, IsValid, Checked, instance_has_quorum-Checked, instance_update-IsValid,
  instance_new-IsValid,
}
use libpaxos.Learner.{
  Learner, start_at, receive_started, learner_create_instance, learner_get_instance_or_create,
  close_instance, learner_receive_accepted, deliver, learner_deliver_next,
}

module _ (kh : Khash Instance) (kg : Khash Gap) (P : Accepted → Type 0) where
  -- Every instance in the table is valid, and named after its key.
  abbrev pub InstancesValid : ℕ → (ℕ → Option Instance) → Type 0
  InstancesValid n m =
      (key : ℕ) (inst : Instance) → m key ≡ some inst → IsValid P n key inst × (inst.iid ≡ key)

  abbrev pub LearnerValid : Learner kh kg → Type 0
  LearnerValid l = InstancesValid l.acceptors (kh.get l.instances)

  -- The same of every instance but one.
  abbrev OthersValid : ℕ → (ℕ → Option Instance) → ℕ → Type 0
  OthersValid n m k =
      (key : ℕ) (inst : Instance)
      → k ≢ key
      → m key ≡ some inst
      → IsValid P n key inst × (inst.iid ≡ key)

  update-InstancesValid :
      (n : ℕ) (m : ℕ → Option Instance) (k : ℕ) (inst : Instance)
      → IsValid P n k inst
      → inst.iid ≡ k
      → OthersValid n m k
      → InstancesValid n (update m k (some inst))
  update-InstancesValid n m k inst v name h key x e = elim (Bool-cases (k == key)) [
    | inl same ↦
        let pk : k ≡ key = ground arith in
        let ix : inst ≡ x = some-injective inst x (sym (update-eq m k key (some inst) pk) ∙ e) in
        subst (λ y. IsValid P n key y × (y.iid ≡ key)) ix
          (subst (λ j. IsValid P n j inst × (inst.iid ≡ j)) pk (v, name))
    | inr other ↦
        let ne : k ≢ key = λ p. ground arith in
        h key x ne (sym (update-ne m k key (some inst) ne) ∙ e)
  ]

  close_instance-Valid :
      (l : Learner kh kg) (key : ℕ) (inst old : Instance)
      → kh.get l.instances key ≡ some old
      → IsValid P l.acceptors key inst
      → inst.iid ≡ key
      → OthersValid l.acceptors (kh.get l.instances) key
      → LearnerValid (close_instance kh kg l key inst)
  unfolding close_instance
  close_instance-Valid l key inst old at v name h =
      let c = instance_has_quorum-Checked P l.acceptors key inst v in
      subst (InstancesValid l.acceptors) (sym (kh.get-write l.instances key _ old at))
        (update-InstancesValid l.acceptors _ key _ c.valid (c.iid ∙ name) h)

  -- What `learner_get_instance_or_create` hands out.
  record Got (l : Learner kh kg) (iid : ℕ) (inst : Instance) (l' : Learner kh kg) : Type 0 where
    at : kh.get l'.instances iid ≡ some inst
    valid : IsValid P l.acceptors iid inst
    named : (inst.iid ≡ 0) ⊎ (inst.iid ≡ iid)
    others : OthersValid l'.acceptors (kh.get l'.instances) iid
    acceptors : l'.acceptors ≡ l.acceptors
    current_iid : l'.current_iid ≡ l.current_iid
    late_start : l'.late_start ≡ l.late_start

  create-Got :
      (l : Learner kh kg) (iid : ℕ)
      → LearnerValid l
      → Ensures (λ r. Got l iid r.0 r.1) (learner_create_instance kh kg l iid)
  unfolding learner_create_instance instance_new
  create-Got l iid h = elim (Bool-cases (kh.room l.instances iid)) [
    | inr no_room ↦ rw (no_room, learner_create_instance) tt
    | inl room ↦
        rw (room, learner_create_instance)
          (record {
            at =
                ap (λ m. m iid) (kh.get-put l.instances iid _)
                ∙ update-eq (kh.get l.instances) iid iid _ refl;
            valid = instance_new-IsValid P l.acceptors iid;
            named = inl refl;
            others = λ key x ne f. h key x (
                sym (update-ne (kh.get l.instances) iid key _ ne)
                ∙ sym (ap (λ m. m key) (kh.get-put l.instances iid _))
                ∙ f);
            acceptors = refl;
            current_iid = refl;
            late_start = refl;
          })
  ]

  get_or_create-Got :
      (l : Learner kh kg) (iid : ℕ)
      → LearnerValid l
      → Ensures (λ r. Got l iid r.0 r.1) (learner_get_instance_or_create kh kg l iid)
  unfolding learner_get_instance_or_create
  get_or_create-Got l iid h = elim (Option-cases (kh.get l.instances iid)) [
    | inl z ↦ rw (z, learner_get_instance_or_create) (create-Got l iid h)
    | inr (x, z) ↦
        rw (z, learner_get_instance_or_create)
          (record {
            at = z;
            valid = (h iid x z).0;
            named = inr (h iid x z).1;
            others = λ key y _ f. h key y f;
            acceptors = refl;
            current_iid = refl;
            late_start = refl;
          })
  ]

  -- What a received message keeps.
  pub record Received (l l' : Learner kh kg) : Type 0 where
    pub valid : LearnerValid l'
    pub acceptors : l'.acceptors ≡ l.acceptors
    pub current_iid : l'.current_iid ≡ l.current_iid
    pub late_start : l'.late_start ≡ l.late_start

  pub receive_started-Received :
      (l : Learner kh kg) (ack : Accepted)
      → P ack
      → LearnerValid l
      → Ensures (Received l) (receive_started kh kg l ack)
  unfolding receive_started
  receive_started-Received l ack p h = elim (Bool-cases (ltb ack.iid l.current_iid)) [
    | inl old ↦
        rw (old, receive_started)
          (record { valid = h; acceptors = refl; current_iid = refl; late_start = refl })
    | inr new ↦
        rw (new, receive_started)
          (Ensures->>= (λ r. Got l ack.iid r.0 r.1) (Received l)
            (learner_get_instance_or_create kh kg l ack.iid) _ (get_or_create-Got l ack.iid h)
            (λ r g. received r.0 r.1 g))
  ]
    where
      received :
          (inst : Instance) (l' : Learner kh kg)
          → Got l ack.iid inst l'
          → Received l (close_instance kh kg l' ack.iid (instance_update inst ack l.acceptors))
      received inst l' g =
          let (v, name) =
            instance_update-IsValid P l.acceptors ack.iid inst ack refl p g.named g.valid in
          record {
            valid =
                close_instance-Valid l' ack.iid (instance_update inst ack l.acceptors) inst g.at
                  (subst (λ n. IsValid P n ack.iid (instance_update inst ack l.acceptors))
                    (sym g.acceptors) v)
                  name g.others;
            acceptors = unfold close_instance in g.acceptors;
            current_iid = unfold close_instance in g.current_iid;
            late_start = unfold close_instance in g.late_start;
          }

  start_at-Valid :
      (l : Learner kh kg) (iid : ℕ) → LearnerValid l → LearnerValid (start_at kh kg l iid)
  unfolding start_at
  start_at-Valid l iid h = elim (Bool-cases l.late_start) [
    | inl e ↦
        subst
          (λ b. LearnerValid (if b then record l { late_start = false; current_iid = iid } else l))
          (sym e) h
    | inr e ↦
        subst
          (λ b. LearnerValid (if b then record l { late_start = false; current_iid = iid } else l))
          (sym e) h
  ]

  -- A message that a valid learner takes keeps every instance in the table valid: its slots hold messages that were
  -- received, each in its acceptor's slot and for that instance.
  pub receive_accepted-Valid :
      (l l' : Learner kh kg) (ack : Accepted)
      → P ack
      → LearnerValid l
      → learner_receive_accepted kh kg l ack ≡ some l'
      → LearnerValid l'
  unfolding learner_receive_accepted
  receive_accepted-Valid l l' ack p h e =
      (Ensures-some (Received (start_at kh kg l ack.iid)) _ l'
        (receive_started-Received (start_at kh kg l ack.iid) ack p (start_at-Valid l ack.iid h))
        e).valid

  -- The outcome of a delivery.
  pub record Delivered (l : Learner kh kg) (r : Option Accepted × Learner kh kg) : Type 0 where
    pub valid : LearnerValid r.1
    pub acceptors : r.1.acceptors ≡ l.acceptors
    pub late_start : r.1.late_start ≡ l.late_start
    pub nothing : r.0 ≡ none → r.1.current_iid ≡ l.current_iid
    pub something :
        (out : Accepted)
        → r.0 ≡ some out
        → Backed P l.acceptors out
          × (out.iid ≡ l.current_iid)
          × (r.1.current_iid ≡ u32 (l.current_iid + 1))
          × (kh.get r.1.instances l.current_iid ≡ none)
    pub smaller :
        (out : Accepted) → r.0 ≡ some out → kh.size r.1.instances + 1 ≡ kh.size l.instances

  del-Valid :
      (n : ℕ) (t : kh.Table) (k : ℕ)
      → InstancesValid n (kh.get t)
      → InstancesValid n (kh.get (kh.del t k))
  del-Valid n t k h key x e = elim (Bool-cases (k == key)) [
    | inl same ↦
        absurd (ground (arith, ap (λ m. m key) (kh.get-del t k), update-eq (kh.get t) k key none))
    | inr other ↦ h key x (
        sym (update-ne (kh.get t) k key none (λ p. ground arith))
        ∙ sym (ap (λ m. m key) (kh.get-del t k))
        ∙ e)
  ]

  deliver-Delivered :
      (l : Learner kh kg) (inst : Instance)
      → kh.get l.instances l.current_iid ≡ some inst
      → LearnerValid l
      → Delivered l (deliver kh kg l inst)
  unfolding deliver
  deliver-Delivered l inst at h = elim (Bool-cases (instance_has_quorum inst l.acceptors).0) [
    | inl q ↦ rw q (
        let (v, f) = c.closed q in
        record {
          valid = del-Valid l.acceptors l.instances _ h;
          acceptors = refl;
          late_start = refl;
          nothing = λ e. cc;
          something = λ out e.
              let (bk, key) = c.valid.final out e in
              (
                bk,
                key,
                refl,
                ap (λ m. m l.current_iid) (kh.get-del l.instances _)
                    ∙ update-eq (kh.get l.instances) _ l.current_iid none
                        (c.iid ∙ (h l.current_iid inst at).1),
              );
          smaller = λ out e.
              kh.size-del l.instances _ inst
                (ap (kh.get l.instances) (c.iid ∙ (h l.current_iid inst at).1) ∙ at);
        })
    | inr q ↦ rw q (record {
      valid =
          subst (InstancesValid l.acceptors)
            (sym (kh.get-write l.instances l.current_iid _ inst at))
            (update-InstancesValid l.acceptors _ l.current_iid _ c.valid
              (c.iid ∙ (h l.current_iid inst at).1) (λ key x _ e. h key x e));
      acceptors = refl;
      late_start = refl;
      nothing = λ _. refl;
      something = λ out e. cc;
      smaller = λ out e. cc;
    })
  ]
    where
      c : Checked P l.acceptors l.current_iid inst (instance_has_quorum inst l.acceptors)
      c = instance_has_quorum-Checked P l.acceptors l.current_iid inst (h l.current_iid inst at).0

  -- For a valid learner, `learner_deliver_next` hands out the instance that comes next, if at all: a message that was
  -- received, for that instance, under a ballot that more than half of the acceptors accepted. Then
  -- the instance is gone and the next one is awaited; the learner stays valid either way.
  pub deliver_next-Delivered :
      (l : Learner kh kg) → LearnerValid l → Delivered l (learner_deliver_next kh kg l)
  unfolding learner_deliver_next
  deliver_next-Delivered l h = elim (Option-cases (kh.get l.instances l.current_iid)) [
    | inl z ↦
        rw (z, learner_deliver_next)
          (record {
            valid = h;
            acceptors = refl;
            late_start = refl;
            nothing = λ _. refl;
            something = λ out e. cc;
            smaller = λ out e. cc;
          })
    | inr (inst, z) ↦ rw (z, learner_deliver_next) (deliver-Delivered l inst z h)
  ]
