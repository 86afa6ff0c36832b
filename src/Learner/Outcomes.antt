-- ===== src/Learner/Outcomes.antt =====
-- The outcome of `learner_receive_accepted` of paxos/learner.c, with the table of instances after it.
use libpaxos.Prelude.{
  ℕ, ◌≡◌, ◌≢◌, refl, ◌<◌, ◌≤◌, ◌⊎◌, inl, inr, true, false, Option, none, some, ◌∙◌, arith, ltb,
  replicate, if◌then◌else◌, update-eq, update-ne, Bool-cases, Option-cases, ap, subst,
}
use libpaxos.Types.{Accepted}
use libpaxos.Khash.{Khash}
use libpaxos.Learner.Instances.{
  Instance, instance_new, instance_update, instance_has_quorum, first_message,
}
use libpaxos.Learner.Gaps.{Gap}
use libpaxos.Learner.Votes.{IsValid, first_message-IsValid, instance_new-IsValid}
use libpaxos.Learner.{
  Learner, start_at, receive_started, learner_create_instance, learner_get_instance_or_create,
  close_instance, learner_receive_accepted,
}
use libpaxos.Learner.Delivery.{LearnerValid, receive_accepted-Valid}
use libpaxos.Learner.Runs.{started}
use libpaxos.Learner.Updates.{Updated, Updated-iid, Flagged, instance_update-Updated}

-- The instance that a message meets: the one in the table, or a new one that it names.
abbrev pub met : ℕ → Accepted → Option Instance → Instance
met n ack none = record {
  iid = ack.iid;
  last_update_ballot = ack.ballot;
  acks = replicate n none;
  final_value = none;
}
met n ack (some inst) = inst

module _ (kh : Khash Instance) (kg : Khash Gap) where
  -- The learner after a message for an instance that is not behind it. `after` is the instance then.
  pub record Taken (l : Learner kh kg) (ack : Accepted) (l' : Learner kh kg) : Type 0 where
    pub after : Instance
    pub updated : Updated l.acceptors ack (met l.acceptors ack (kh.get l.instances ack.iid)) after
    pub at : kh.get l'.instances ack.iid ≡ some after
    pub others : (j : ℕ) → ack.iid ≢ j → kh.get l'.instances j ≡ kh.get l.instances j
    pub gaps : l'.gaps ≡ l.gaps
    pub acceptors : l'.acceptors ≡ l.acceptors
    pub late_start : l'.late_start ≡ false
    pub current_iid : l'.current_iid ≡ (if l.late_start then ack.iid else l.current_iid)
    pub closed :
        (v : Accepted)
        → after.final_value ≡ some v
        → l'.highest_iid_closed
          ≡ (if ltb l.highest_iid_closed ack.iid then ack.iid else l.highest_iid_closed)
    pub still_open : after.final_value ≡ none → l'.highest_iid_closed ≡ l.highest_iid_closed

  pub data Outcome (l : Learner kh kg) (ack : Accepted) (l' : Learner kh kg) : Type 0 where
    delivered_before : l.late_start ≡ false → ack.iid < l.current_iid → l' ≡ l → Outcome l ack l'
    taken : (l.late_start ≡ true) ⊎ (l.current_iid ≤ ack.iid) → Taken l ack l' → Outcome l ack l'

module _ (kh : Khash Instance) (kg : Khash Gap) (P : Accepted → Type 0) where
  -- `close_instance`, over a table that has the instance, and the rest of it from `l`.
  close_instance-Taken :
      (l m : Learner kh kg) (ack : Accepted) (inst old : Instance)
      → kh.get m.instances ack.iid ≡ some old
      → ((j : ℕ) → ack.iid ≢ j → kh.get m.instances j ≡ kh.get l.instances j)
      → m.gaps ≡ l.gaps
      → m.acceptors ≡ l.acceptors
      → m.late_start ≡ false
      → m.current_iid ≡ (if l.late_start then ack.iid else l.current_iid)
      → m.highest_iid_closed ≡ l.highest_iid_closed
      → (instance_has_quorum inst m.acceptors).1.iid ≡ ack.iid
      → let r = instance_has_quorum inst m.acceptors in
        Updated l.acceptors ack (met l.acceptors ack (kh.get l.instances ack.iid)) r.1
          × Flagged r.0 r.1
        → Taken kh kg l ack (close_instance kh kg m ack.iid inst)
  unfolding close_instance
  close_instance-Taken l m ack inst old at others gaps acc late cur high name (up, flag) = record {
    after = (instance_has_quorum inst m.acceptors).1;
    updated = up;
    at =
        ap (λ f. f ack.iid) (kh.get-write m.instances ack.iid _ old at)
        ∙ update-eq (kh.get m.instances) ack.iid ack.iid _ refl;
    others = λ j ne.
        ap (λ f. f j) (kh.get-write m.instances ack.iid _ old at)
        ∙ update-ne (kh.get m.instances) ack.iid j _ ne
        ∙ others j ne;
    gaps = gaps;
    acceptors = acc;
    late_start = late;
    current_iid = cur;
    closed =
        λ v e. elim flag [ inl (f, _, _) ↦ rw (f, name, high) refl | inr (f, o) ↦ absurd (cc) ];
    still_open = λ e. elim flag [ inl (f, v, o) ↦ absurd (cc) | inr (f, o) ↦ rw f high ];
  }

  -- What the learner hands to `instance_update` becomes the instance that the message meets.
  update_met :
      (l : Learner kh kg) (ack : Accepted) (inst : Instance)
      → P ack
      → IsValid P l.acceptors ack.iid inst
      → first_message inst ack ≡ met l.acceptors ack (kh.get l.instances ack.iid)
      → (met l.acceptors ack (kh.get l.instances ack.iid)).iid ≡ ack.iid
      → let r = instance_has_quorum (instance_update inst ack l.acceptors) l.acceptors in
        (Updated l.acceptors ack (met l.acceptors ack (kh.get l.instances ack.iid)) r.1
          × Flagged r.0 r.1)
        × (r.1.iid ≡ ack.iid)
  update_met l ack inst p v first name =
      let r = instance_has_quorum (instance_update inst ack l.acceptors) l.acceptors in
      let up =
        subst (λ x. Updated l.acceptors ack x r.1 × Flagged r.0 r.1) first
          (instance_update-Updated P l.acceptors ack.iid inst ack refl p
            (first_message-IsValid P l.acceptors ack.iid inst ack v)) in
      (up, Updated-iid l.acceptors ack _ _ up.0 ∙ name)

  receive_started-Taken :
      (l : Learner kh kg) (ack : Accepted)
      → P ack
      → LearnerValid kh kg P l
      → 0 < ack.iid
      → kh.room l.instances ack.iid ≡ true
      → l.late_start ≡ false
      → l.current_iid ≤ ack.iid
      → (l' : Learner kh kg) × (receive_started kh kg l ack ≡ some l') × Taken kh kg l ack l'
  unfolding receive_started learner_get_instance_or_create learner_create_instance
  receive_started-Taken l ack p h pos room late le =
      let new : ltb ack.iid l.current_iid ≡ false = ground arith in
      let cur : l.current_iid ≡ (if l.late_start then ack.iid else l.current_iid) = rw late refl in
      elim (Option-cases (kh.get l.instances ack.iid)) [
        | inr (inst, z) ↦
            let (v, key) = h ack.iid inst z in
            let first : first_message inst ack ≡ met l.acceptors ack (kh.get l.instances ack.iid) =
              rw z (unfold first_message in ground (arith, key)) in
            let (up, name) = update_met l ack inst p v first (rw z key) in
            (
              close_instance kh kg l ack.iid (instance_update inst ack l.acceptors),
              rw (new, z, receive_started, learner_get_instance_or_create) refl,
              close_instance-Taken l l ack (instance_update inst ack l.acceptors) inst z
                  (λ j _. refl) refl refl late cur refl name up,
            )
        | inl z ↦
            let m = record l {
              instances = kh.put l.instances ack.iid (instance_new l.acceptors);
            } in
            let first : first_message (instance_new l.acceptors) ack
                ≡ met l.acceptors ack (kh.get l.instances ack.iid) =
              rw z (unfold first_message in unfold instance_new in refl) in
            let (up, name) =
              update_met l ack (instance_new l.acceptors) p
                (instance_new-IsValid P l.acceptors ack.iid) first (rw z refl) in
            (
              close_instance kh kg m ack.iid
                  (instance_update (instance_new l.acceptors) ack l.acceptors),
              rw
                  (
                    new, z, room, receive_started, learner_get_instance_or_create,
                    learner_create_instance,
                  )
                  refl,
              close_instance-Taken l m ack
                  (instance_update (instance_new l.acceptors) ack l.acceptors)
                  (instance_new l.acceptors)
                  (ap (λ f. f ack.iid) (kh.get-put l.instances ack.iid _)
                    ∙ update-eq (kh.get l.instances) ack.iid ack.iid _ refl)
                  (λ j ne.
                    ap (λ f. f j) (kh.get-put l.instances ack.iid _)
                    ∙ update-ne (kh.get l.instances) ack.iid j _ ne)
                  refl refl late cur refl name up,
            )
      ]

  -- A learner that starts with this message does so at its instance.
  start_at-Taken :
      (l : Learner kh kg) (ack : Accepted)
      → P ack
      → LearnerValid kh kg P l
      → 0 < ack.iid
      → kh.room l.instances ack.iid ≡ true
      → l.late_start ≡ true
      → (l' : Learner kh kg) × (learner_receive_accepted kh kg l ack ≡ some l')
        × Taken kh kg l ack l'
  unfolding learner_receive_accepted start_at
  start_at-Taken l ack p h pos room late =
      let m = record l { late_start = false; current_iid = ack.iid } in
      let (l', e, t) = receive_started-Taken m ack p h pos room refl (omega arith) in
      (
        l',
        rw late e,
        record {
          after = t.after;
          updated = t.updated;
          at = t.at;
          others = t.others;
          gaps = t.gaps;
          acceptors = t.acceptors;
          late_start = t.late_start;
          current_iid = rw late t.current_iid;
          closed = t.closed;
          still_open = t.still_open;
        },
      )

  outcome :
      (l : Learner kh kg) (ack : Accepted)
      → P ack
      → LearnerValid kh kg P l
      → 0 < ack.iid
      → kh.room l.instances ack.iid ≡ true
      → (l' : Learner kh kg) × (learner_receive_accepted kh kg l ack ≡ some l')
        × Outcome kh kg l ack l'
  unfolding learner_receive_accepted
  outcome l ack p h pos room = elim (Bool-cases l.late_start) [
    | inl late ↦
        let (l', e, t) = start_at-Taken l ack p h pos room late in (l', e, taken (inl late) t)
    | inr late ↦ elim (Bool-cases (ltb ack.iid l.current_iid)) [
      | inl old ↦ (
        l,
        ap (λ m. receive_started kh kg m ack) (started kh kg P l ack.iid late)
            ∙ unfold receive_started in rw old refl,
        delivered_before late (ground arith) refl,
      )
      | inr new ↦
          let (l', e, t) = receive_started-Taken l ack p h pos room late (ground arith) in
          (
            l',
            ap (λ m. receive_started kh kg m ack) (started kh kg P l ack.iid late) ∙ e,
            taken (inr (ground arith)) t,
          )
    ]
  ]

  -- A valid learner takes an accepted message, for an instance other than 0, if there is memory for its
  -- table entry, and stays valid. If it has started and the instance is behind it, nothing changes. Else
  -- it starts at this instance if it had not started; the other entries and the gaps stay; and the
  -- mark of the highest closed instance rises to this one exactly if its entry has a value then. The
  -- entry, new if there was none, stays as it is if it has a value, and gets one if a majority of
  -- its slots agrees with its ballot already. Else a message of no acceptor, or one not newer than its
  -- acceptor's last, changes nothing, and any other is put into its slot, its ballot becomes the
  -- entry's, and the entry gets a value exactly if that makes a majority.
  pub learner_receive_accepted-Outcome :
      (l : Learner kh kg) (ack : Accepted)
      → P ack
      → LearnerValid kh kg P l
      → 0 < ack.iid
      → kh.room l.instances ack.iid ≡ true
      → (l' : Learner kh kg) × (learner_receive_accepted kh kg l ack ≡ some l')
        × Outcome kh kg l ack l'
        × LearnerValid kh kg P l'
  learner_receive_accepted-Outcome l ack p h pos room =
      let (l', e, o) = outcome l ack p h pos room in
      (l', e, o, receive_accepted-Valid kh kg P l l' ack p h e)
