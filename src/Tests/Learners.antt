-- ===== src/Tests/Learners.antt =====
-- A learner of three acceptors.
use libpaxos.Prelude.{
  ◌⊎◌, ◌≤◌, ℕ, ◌≡◌, ◌≢◌, refl, ◌∙◌, sym, ◌+◌, ◌<◌, ◌↔◌, true, false, none, some, List, [], ◌∷◌,
  arith, length, u16, u32,
}
use libpaxos.Types.{Repeat, Prepare, Promise, Accept, Accepted}
use libpaxos.Khash.Assoc.{assoc}
use libpaxos.Quorum.{paxos_quorum}
use libpaxos.Learner.Instances.{
  Instance, instance_new, count_agreeing, count_quorum, instance_has_quorum, instance_add_accept,
  first_message, instance_update,
}
use libpaxos.Learner.Gaps.{Gap, gap_new}
use libpaxos.Learner.{
  Learner, learner_new, learner_create_instance, learner_get_instance_or_create, close_instance,
  start_at, receive_started, learner_receive_accepted, learner_receive_chosen, deliver,
  learner_deliver_next, learner_prepare, learner_receive_promise,
}
use libpaxos.Learner.Delivery.{
  LearnerValid, Delivered, receive_accepted-Valid, deliver_next-Delivered,
}
use libpaxos.Learner.Outcomes.{Outcome, learner_receive_accepted-Outcome}
use libpaxos.Learner.Completion.{receive_accepted-delivers}
use libpaxos.Learner.Runs.{Event, receives, delivers, run, Delivers, run-Delivers}
use libpaxos.Evpaxos.Learners.{
  Drained, evlearner_check_holes, evlearner_handle_accepted, handle_accepted-Drained,
  check_holes-range,
}
use libpaxos.Learner.Chosen.{receive_chosen-delivers}
use libpaxos.Learner.Recovery.{learner_prepare-stuck}

abbrev fresh : Learner (assoc Instance) (assoc Gap)
fresh = learner_new (assoc Instance) (assoc Gap) 3 true

-- An accepted message of one of the acceptors in the instance 1.
abbrev vote : ℕ → Accepted
vote aid = record { iid = 1; ballot = 12; value_ballot = 12; aid = aid; value = 65 ∷ [] }

-- What is known of a message: its value is not empty.
abbrev HasValue : Accepted → Type 0
HasValue a = 0 < length a.value

fresh-LearnerValid : LearnerValid (assoc Instance) (assoc Gap) HasValue fresh
unfolding learner_new
fresh-LearnerValid key inst e = cc

-- The learner behind the votes of the acceptors 0 and 2.
abbrev after_one : Learner (assoc Instance) (assoc Gap)
after_one = record fresh {
  instances = (
    (
      1,
      record {
        iid = 1;
        last_update_ballot = 12;
        acks = some (vote 0) ∷ none ∷ none ∷ [];
        final_value = none;
      },
    )
        ∷ [],
    (tt, tt),
  );
}

abbrev after_two : Learner (assoc Instance) (assoc Gap)
after_two = record fresh {
  instances = (
    (
      1,
      record {
        iid = 1;
        last_update_ballot = 12;
        acks = some (vote 0) ∷ none ∷ some (vote 2) ∷ [];
        final_value = some (vote 2);
      },
    )
        ∷ [],
    (tt, tt),
  );
}

first_vote : learner_receive_accepted (assoc Instance) (assoc Gap) fresh (vote 0) ≡ some after_one
unfolding learner_new learner_receive_accepted start_at receive_started close_instance
    learner_get_instance_or_create learner_create_instance instance_new instance_update
    instance_has_quorum count_quorum count_agreeing instance_add_accept first_message paxos_quorum
first_vote = refl

second_vote :
    learner_receive_accepted (assoc Instance) (assoc Gap) after_one (vote 2) ≡ some after_two
unfolding learner_new learner_receive_accepted start_at receive_started close_instance
    learner_get_instance_or_create learner_create_instance instance_new instance_update
    instance_has_quorum count_quorum count_agreeing instance_add_accept first_message paxos_quorum
second_vote = refl

after_one-LearnerValid : LearnerValid (assoc Instance) (assoc Gap) HasValue after_one
after_one-LearnerValid =
    receive_accepted-Valid (assoc Instance) (assoc Gap) HasValue fresh after_one (vote 0)
      (omega arith) fresh-LearnerValid first_vote

after_two-LearnerValid : LearnerValid (assoc Instance) (assoc Gap) HasValue after_two
after_two-LearnerValid =
    receive_accepted-Valid (assoc Instance) (assoc Gap) HasValue after_one after_two (vote 2)
      (omega arith) after_one-LearnerValid second_vote

deliver_next-Delivered_example :
    Delivered
      (assoc Instance)
      (assoc Gap)
      HasValue
      after_two
      (learner_deliver_next (assoc Instance) (assoc Gap) after_two)
deliver_next-Delivered_example =
    deliver_next-Delivered (assoc Instance) (assoc Gap) HasValue after_two after_two-LearnerValid

abbrev events : List Event
events = receives (vote 0) ∷ delivers ∷ receives (vote 2) ∷ delivers ∷ delivers ∷ []

-- The learner behind these events.
abbrev done : Learner (assoc Instance) (assoc Gap)
done = record {
  acceptors = 3;
  late_start = false;
  current_iid = 2;
  highest_iid_closed = 1;
  instances = ([], tt);
  gaps = ([], tt);
}

delivered_one : run (assoc Instance) (assoc Gap) fresh events ≡ some (vote 2 ∷ [], done)
unfolding run learner_new learner_receive_accepted learner_deliver_next start_at receive_started
    deliver close_instance learner_get_instance_or_create learner_create_instance instance_new
    instance_update instance_has_quorum count_quorum count_agreeing instance_add_accept
    first_message paxos_quorum
delivered_one = refl

fresh-late_start : fresh.late_start ≡ false
unfolding learner_new
fresh-late_start = refl

-- The acceptors of the run vote for this value.
abbrev IsVote : Accepted → Type 0
IsVote a = a.value ≡ 65 ∷ []

fresh-votes : LearnerValid (assoc Instance) (assoc Gap) IsVote fresh
unfolding learner_new
fresh-votes key inst e = cc

run-Delivers_example :
    (outs : List Accepted) × (l' : Learner (assoc Instance) (assoc Gap)) × (run
        (assoc Instance)
        (assoc Gap)
        fresh
        events
      ≡ some (outs, l'))
    × Delivers (assoc Instance) (assoc Gap) IsVote fresh.acceptors fresh.current_iid outs
run-Delivers_example =
    run-Delivers (assoc Instance) (assoc Gap) (λ t k. refl) IsVote events fresh
      (λ a b p q _ _. p ∙ sym q) fresh-votes fresh-late_start (refl, (refl, tt))

receive_chosen-delivers_example :
    (l' : Learner (assoc Instance) (assoc Gap)) × (learner_receive_chosen
        (assoc Instance)
        (assoc Gap)
        done
        (record (vote 0) { iid = 2 })
      ≡ some l')
    × (((learner_deliver_next (assoc Instance) (assoc Gap) l').0 ≢ none) ↔ (done.acceptors ≡ 3))
receive_chosen-delivers_example =
    receive_chosen-delivers (assoc Instance) (assoc Gap) done (record (vote 0) { iid = 2 }) refl
      refl

-- A gap whose first phase is over, in the learner's table.
abbrev old_gap : Gap
old_gap = record (gap_new 4 3) { reached_majority = true }

abbrev with_gap : Learner (assoc Instance) (assoc Gap)
with_gap = record done { gaps = ((4, old_gap) ∷ [], (tt, tt)) }

learner_prepare-stuck_example :
    (out : Prepare) × (l' : Learner (assoc Instance) (assoc Gap)) × (learner_prepare
        (assoc Instance)
        (assoc Gap)
        with_gap
        4
      ≡ some (out, l'))
    × (out.ballot ≡ u16 (u32 (old_gap.ballot + 11)))
    × ((p : Promise) (accept : Accept)
        → p.iid ≡ 4
        → (learner_receive_promise (assoc Instance) (assoc Gap) l' p accept).0 ≡ none)
learner_prepare-stuck_example =
    learner_prepare-stuck (assoc Instance) (assoc Gap) with_gap 4 old_gap refl refl

receive_accepted-delivers_example :
    (l' : Learner (assoc Instance) (assoc Gap)) × (out : Accepted) × (learner_receive_accepted
        (assoc Instance)
        (assoc Gap)
        after_one
        (vote 2)
      ≡ some l')
    × ((learner_deliver_next (assoc Instance) (assoc Gap) l').0 ≡ some out)
    × (out.iid ≡ 1)
    × ((learner_deliver_next (assoc Instance) (assoc Gap) l').1.current_iid ≡ 2)
unfolding learner_new
receive_accepted-delivers_example =
    receive_accepted-delivers (assoc Instance) (assoc Gap) HasValue after_one (vote 2) (omega arith)
      after_one-LearnerValid fresh-late_start (omega arith) refl refl (omega arith)
      (refl, omega arith) (λ prev e. cc) (omega arith)

learner_receive_accepted-Outcome_example :
    (l' : Learner (assoc Instance) (assoc Gap)) × (learner_receive_accepted
        (assoc Instance)
        (assoc Gap)
        after_one
        (vote 2)
      ≡ some l')
    × Outcome (assoc Instance) (assoc Gap) after_one (vote 2) l'
    × LearnerValid (assoc Instance) (assoc Gap) HasValue l'
learner_receive_accepted-Outcome_example =
    learner_receive_accepted-Outcome (assoc Instance) (assoc Gap) HasValue after_one (vote 2)
      (omega arith) after_one-LearnerValid (omega arith) refl

handle_accepted-Drained_example :
    (r : List Accepted × Learner (assoc Instance) (assoc Gap)) × (evlearner_handle_accepted
        (assoc Instance)
        (assoc Gap)
        after_one
        (vote 2)
      ≡ some r)
    × Drained (assoc Instance) (assoc Gap) HasValue after_one r
handle_accepted-Drained_example =
    handle_accepted-Drained (assoc Instance) (assoc Gap) HasValue after_one (vote 2) (λ t k. refl)
      (omega arith) after_one-LearnerValid fresh-late_start

-- A learner that waits for the instance 2 and has closed the instance 40.
abbrev behind : Learner (assoc Instance) (assoc Gap)
behind = record done { highest_iid_closed = 40 }

check_holes-range_example :
    ((evlearner_check_holes (assoc Instance) (assoc Gap) behind ≡ none) × (40 ≤ behind.current_iid))
    ⊎ ((r : Repeat) × (evlearner_check_holes (assoc Instance) (assoc Gap) behind ≡ some r)
        × (r.from ≡ 2)
        × (r.from < r.to)
        × (r.to ≤ 40)
        × (r.to ≤ r.from + 10))
check_holes-range_example = check_holes-range (assoc Instance) (assoc Gap) behind (omega arith)
