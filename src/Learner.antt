-- ===== src/Learner.antt =====
-- paxos/learner.c: the learner over tables of instances and gaps. A function is `none` where an `assert`
-- fails or a table gets no memory. `kh_put` for a gap is followed by `assert(absent)`, which lets -1
-- pass; that case is a fault too. `Learner/Instances.antt` and `Learner/Gaps.antt` are the two structs;
-- `Learner/Agreeing.antt`, `Learner/Votes.antt`, `Learner/Delivery.antt`, `Learner/Updates.antt`,
-- `Learner/Outcomes.antt`, `Learner/Completion.antt`, `Learner/Runs.antt`,
-- `Learner/Chosen.antt` and `Learner/Recovery.antt` hold proofs.
pub mod Instances
pub mod Gaps
pub mod Agreeing
pub mod Votes
pub mod Delivery
pub mod Updates
pub mod Outcomes
pub mod Completion
pub mod Runs
pub mod Chosen
pub mod Recovery
use libpaxos.Prelude.{
  ℕ, zero, suc, ◌+◌, Bool, true, false, not, ◌&&◌, Option, none, some, List, [], ◌∷◌, leb, ltb,
  ◌==◌, u32, if◌then◌else◌, ◌>>=◌,
}
use libpaxos.Types.{Value, Prepare, Promise, Accept, Accepted, Preempted}
use libpaxos.Khash.{Khash}
use Instances.{Instance, instance_new, instance_update, instance_has_quorum}
use Gaps.{Gap, gap_new, gap_reset, update_gap, gap_to_accept, gap_to_prepare}

module _ (kh : Khash Instance) (kg : Khash Gap) where
  pub record Learner : Type 0 where
    pub acceptors : ℕ
    pub late_start : Bool
    pub current_iid : ℕ
    pub highest_iid_closed : ℕ
    pub instances : kh.Table
    pub gaps : kg.Table

  -- `learner_catch_up` is the option of `paxos_config`.
  unfoldable pub learner_new : ℕ → Bool → Learner
  learner_new acceptors learner_catch_up = record {
    acceptors = acceptors;
    current_iid = 1;
    highest_iid_closed = 1;
    late_start = not learner_catch_up;
    instances = kh.init;
    gaps = kg.init;
  }

  unfoldable pub learner_set_instance_id : Learner → ℕ → Learner
  learner_set_instance_id l iid = record l { current_iid = u32 (iid + 1); highest_iid_closed = iid }

  unfoldable pub learner_create_instance : Learner → ℕ → Option (Instance × Learner)
  unfolding instance_new
  learner_create_instance l iid =
      if kh.room l.instances iid
      then some (
        instance_new l.acceptors,
        record l { instances = kh.put l.instances iid (instance_new l.acceptors) },
      )
      else none

  unfoldable pub learner_get_instance_or_create : Learner → ℕ → Option (Instance × Learner)
  unfolding learner_create_instance
  learner_get_instance_or_create l iid = elim (kh.get l.instances iid) [
    | none ↦ learner_create_instance l iid
    | some inst ↦ some (inst, l)
  ]

  -- The end of `learner_receive_accepted` and `learner_receive_chosen`: the instance, as it stands under
  -- `key` after `instance_has_quorum`, and the mark of the highest closed one.
  unfoldable pub close_instance : Learner → ℕ → Instance → Learner
  unfolding instance_has_quorum
  close_instance l key inst =
      let (closed, inst') = instance_has_quorum inst l.acceptors in
      record l {
        instances = kh.write l.instances key inst';
        highest_iid_closed =
            if closed && ltb l.highest_iid_closed inst'.iid
            then inst'.iid
            else l.highest_iid_closed;
      }

  -- `if (l->late_start)`
  unfoldable pub start_at : Learner → ℕ → Learner
  start_at l iid = if l.late_start then record l { late_start = false; current_iid = iid } else l

  -- The function behind `late_start`.
  unfoldable pub receive_started : Learner → Accepted → Option Learner
  unfolding learner_get_instance_or_create instance_update close_instance
  receive_started l ack = if ltb ack.iid l.current_iid then some l else do
    (inst, l') ← learner_get_instance_or_create l ack.iid
    some (close_instance l' ack.iid (instance_update inst ack l.acceptors))

  unfoldable pub learner_receive_accepted : Learner → Accepted → Option Learner
  unfolding start_at receive_started
  learner_receive_accepted l ack = receive_started (start_at l ack.iid) ack

  -- `ack->aid = 1` and `ack->aid = 2` before the two updates.
  unfoldable pub learner_receive_chosen : Learner → Accepted → Option Learner
  unfolding learner_create_instance instance_update close_instance
  learner_receive_chosen l ack = if ltb ack.iid l.current_iid then some l else do
    (inst, l') ← learner_create_instance l ack.iid
    let inst1 = instance_update inst (record ack { aid = 1 }) l.acceptors
    let inst2 = instance_update inst1 (record ack { aid = 2 }) l.acceptors
    some (close_instance l' ack.iid inst2)

  -- The message, `none` where the function returns 0.
  unfoldable pub learner_receive_preempted : Learner → Preempted → Option Prepare × Learner
  unfolding gap_reset gap_to_prepare
  learner_receive_preempted l ack = elim (kg.get l.gaps ack.iid) [
    | none ↦ (none, l)
    | some gap ↦
        let gap' = gap_reset (record gap { ballot = ack.ballot }) in
        (some (gap_to_prepare gap'), record l { gaps = kg.write l.gaps ack.iid gap' })
  ]

  -- The instance and its gap are deleted under `inst->iid`; `kh_del` of a key that is not there does nothing.
  unfoldable pub deliver : Learner → Instance → Option Accepted × Learner
  unfolding instance_has_quorum
  deliver l inst =
      let (closed, inst') = instance_has_quorum inst l.acceptors in
      if closed
      then (
        inst'.final_value,
        record l {
          instances = kh.del l.instances inst'.iid;
          gaps = kg.del l.gaps inst'.iid;
          current_iid = u32 (l.current_iid + 1);
        },
      )
      else (none, record l { instances = kh.write l.instances l.current_iid inst' })

  unfoldable pub learner_deliver_next : Learner → Option Accepted × Learner
  unfolding deliver
  learner_deliver_next l = elim (kh.get l.instances l.current_iid) [
    | none ↦ (none, l)
    | some inst ↦ deliver l inst
  ]

  unfoldable pub learner_has_holes : Learner → Option (ℕ × ℕ)
  learner_has_holes l =
      if ltb l.current_iid l.highest_iid_closed
      then some (l.current_iid, l.highest_iid_closed)
      else none

  unfoldable pub get_gap_or_create : Learner → ℕ → Option (Gap × Learner)
  unfolding gap_new gap_reset
  get_gap_or_create l iid = elim (kg.get l.gaps iid) [
    | none ↦
        if kg.room l.gaps iid
        then some (
          gap_new iid l.acceptors,
          record l { gaps = kg.put l.gaps iid (gap_new iid l.acceptors) },
        )
        else none
    | some gap ↦ some (gap_reset gap, record l { gaps = kg.write l.gaps iid (gap_reset gap) })
  ]

  unfoldable pub learner_prepare : Learner → ℕ → Option (Prepare × Learner)
  unfolding get_gap_or_create gap_to_prepare
  learner_prepare l iid = do (gap, l') ← get_gap_or_create l iid; some (gap_to_prepare gap, l')

  -- `accept` is what the caller passes in; the result is `none` where the function returns 0.
  unfoldable pub learner_receive_promise : Learner → Promise → Accept → Option Accept × Learner
  unfolding update_gap gap_to_accept
  learner_receive_promise l promise accept = elim (kg.get l.gaps promise.iid) [
    | none ↦ (none, l)
    | some gap ↦
        let (reached, gap') = update_gap gap promise in
        let l' = record l { gaps = kg.write l.gaps promise.iid gap' } in
        if gap.reached_majority
        then (none, l)
        else if reached
        then (some (gap_to_accept gap' accept), l')
        else (none, l')
  ]
