-- ===== src/Learner/Completion.antt =====
-- When the learner of paxos/learner.c delivers: the accepted message that makes a majority.
use libpaxos.Prelude.{ℕ, ◌+◌, ◌≡◌, refl, ◌<◌, true, false, some, ◌∙◌, arith, u32, ap, sym}
use libpaxos.Types.{Accepted}
use libpaxos.Khash.{Khash}
use libpaxos.Learner.Instances.{Instance, count_quorum, instance_has_quorum}
use libpaxos.Learner.Gaps.{Gap}
use libpaxos.Learner.{Learner, deliver, learner_receive_accepted, learner_deliver_next}
use libpaxos.Learner.Delivery.{LearnerValid, deliver_next-Delivered}
use libpaxos.Learner.Updates.{
  HasMajority, IsOpen, HasOlder, added, Updated, stays_closed, was_decided, no_acceptor, outdated,
  adds, closes,
}
use libpaxos.Learner.Outcomes.{met, delivered_before, taken, learner_receive_accepted-Outcome}

Updated-closes :
    (n : ℕ) (ack : Accepted) (x y : Instance)
    → IsOpen n x
    → ack.aid < n
    → HasOlder x ack
    → HasMajority n (added x ack)
    → Updated n ack x y
    → (v : Accepted) × (y.final_value ≡ some v)
Updated-closes n ack x y o lt older m (stays_closed v f e) = absurd (cc)
Updated-closes n ack x y o lt older m (was_decided f m' v e) = absurd (omega arith)
Updated-closes n ack x y o lt older m (no_acceptor o' le e) = absurd (omega arith)
Updated-closes n ack x y o lt older m (outdated o' lt' prev at le e) =
    absurd (omega (arith, older prev at))
Updated-closes n ack x y o lt older m (adds o' lt' older' open_ e) = absurd (omega arith)
Updated-closes n ack x y o lt older m (closes o' lt' older' m' v e) = (v, ap (λ z. z.final_value) e)

module _ (kh : Khash Instance) (kg : Khash Gap) where
  deliver_next-closed :
      (l : Learner kh kg) (inst : Instance) (v : Accepted)
      → kh.get l.instances l.current_iid ≡ some inst
      → inst.final_value ≡ some v
      → (learner_deliver_next kh kg l).0 ≡ some v
  unfolding learner_deliver_next deliver instance_has_quorum count_quorum
  deliver_next-closed l inst v at f = rw (at, f, learner_deliver_next) refl

  -- For a valid learner that has started, with memory for the table entry: if the next instance, not 0, is
  -- open, and an accepted message for it, of an acceptor whose slot is empty or holds an older
  -- message, makes more than half of the slots agree on its ballot, then the learner takes the
  -- message, and the delivery after it hands out a value of this instance and moves on to the next.
  pub receive_accepted-delivers :
      (P : Accepted → Type 0) (l : Learner kh kg) (ack : Accepted)
      → P ack
      → LearnerValid kh kg P l
      → l.late_start ≡ false
      → 0 < ack.iid
      → ack.iid ≡ l.current_iid
      → kh.room l.instances ack.iid ≡ true
      → ack.aid < l.acceptors
      → IsOpen l.acceptors (met l.acceptors ack (kh.get l.instances ack.iid))
      → HasOlder (met l.acceptors ack (kh.get l.instances ack.iid)) ack
      → HasMajority l.acceptors (added (met l.acceptors ack (kh.get l.instances ack.iid)) ack)
      → (l' : Learner kh kg) × (out : Accepted) × (learner_receive_accepted kh kg l ack ≡ some l')
        × ((learner_deliver_next kh kg l').0 ≡ some out)
        × (out.iid ≡ ack.iid)
        × ((learner_deliver_next kh kg l').1.current_iid ≡ u32 (l.current_iid + 1))
  receive_accepted-delivers P l ack p h late pos next room lt open_ older m =
      let (l', e, o, v') = learner_receive_accepted-Outcome kh kg P l ack p h pos room in
      elim o [
        | delivered_before _ old _ ↦ absurd (omega arith)
        | taken _ t ↦
            let (v, f) = Updated-closes l.acceptors ack _ t.after open_ lt older m t.updated in
            let same : l'.current_iid ≡ ack.iid = t.current_iid ∙ rw late (sym next) in
            let d = deliver_next-closed l' t.after v (ap (kh.get l'.instances) same ∙ t.at) f in
            let (_, key, step, _) = (deliver_next-Delivered kh kg P l' v').something v d in
            (l', v, e, d, key ∙ same, step ∙ ap (λ i. u32 (i + 1)) (same ∙ next))
      ]
