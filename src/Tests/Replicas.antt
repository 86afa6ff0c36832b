-- ===== src/Tests/Replicas.antt =====
-- The event-driven proposer and a replica of three acceptors.
use libpaxos.Prelude.{
  ℕ, ◌<◌, ◌≡◌, refl, inl, inr, true, false, none, some, List, [], ◌∷◌, arith, length, ◌==◌,
  Bool-cases, subst,
}
use mathlib.Core.Option.{some-injective}
use libpaxos.Types.{Accepted, Message, Promise}
use libpaxos.Khash.Assoc.{assoc, find}
use libpaxos.Storage.Mem.{storage_mem, mem_storage_new}
use libpaxos.Quorum.{init}
use libpaxos.Quorum.Count.{init-IsValid}
use libpaxos.Carray.{carray_new}
use libpaxos.Learner.Instances as Learning
use libpaxos.Learner.Gaps.{Gap}
use libpaxos.Learner.{Learner, learner_new}
use libpaxos.Learner.Delivery.{LearnerValid}
use libpaxos.Learner.Runs.{InOrder}
use libpaxos.Proposer.Instances.{Instance}
use libpaxos.Proposer.{Proposer}
use libpaxos.Proposer.Orderly.{Each, Sound, Orderly}
use libpaxos.Evpaxos.Proposers.{
  Evproposer, got_promise, try_accept, evproposer_check_timeouts, handle_event,
}
use libpaxos.Evpaxos.Proposers.Window.{Settled, try_accept-Settled}
use libpaxos.Evpaxos.Proposers.Timers.{Renewed, check_timeouts-Renewed}
use libpaxos.Evpaxos.Proposers.Handlers.{handle_event-Orderly}
use libpaxos.Evpaxos.Peers.{Peer}
use libpaxos.Evpaxos.Packing.Plain.{plain}
use libpaxos.Evpaxos.Replicas.{Replica, replica_handle_accepted, evpaxos_replica_submit}
use libpaxos.Evpaxos.Replicas.Delivery.{Passed, replica_handle_accepted-Delivering}
use libpaxos.Evpaxos.Replicas.Submission.{to_first_connected, replica_submit-first_connected}

-- The instance 4, which has waited for promises since 100.
abbrev waiting_4 : Instance
waiting_4 = record {
  iid = 4;
  ballot = 11;
  value = some (65 ∷ []);
  promised_value = none;
  value_ballot = 0;
  quorum = init 3;
  created_at = 100;
}

abbrev state_4 : Proposer (assoc Instance)
state_4 = record {
  id = 1;
  acceptors = 3;
  values = carray_new 128;
  max_trim_iid = 0;
  next_prepare_iid = 4;
  prepare_instances = ((4, waiting_4) ∷ [], (tt, tt));
  accept_instances = ([], tt);
}

one_entry-Sound : Each (Sound 3 4) (find ((4, waiting_4) ∷ []))
one_entry-Sound k v e = elim (Bool-cases (4 == k)) [
  | inr other ↦ absurd (cc (rw other at e))
  | inl same ↦ subst (Sound 3 4 k) (some-injective waiting_4 v (rw same at e)) (record {
    key = ground arith;
    known = ground arith;
    valid = init-IsValid 3;
    acceptors = unfold init in refl;
  })
]

state_4-Orderly : Orderly (assoc Instance) state_4
state_4-Orderly = record {
  prepares = one_entry-Sound;
  accepts = λ k v e. cc;
  apart = λ k v e. refl;
  proposable = λ k v e. cc;
}

abbrev evproposer_4 : Evproposer (assoc Instance)
evproposer_4 = record { id = 1; preexec_window = 2; state = state_4 }

try_accept-Settled_example :
    (r : List Message × Evproposer (assoc Instance)) × (try_accept (assoc Instance) evproposer_4 105
      ≡ some r)
    × Settled (assoc Instance) evproposer_4 r
try_accept-Settled_example =
    try_accept-Settled (assoc Instance) evproposer_4 105 (λ t k. refl) state_4-Orderly (omega arith)

check_timeouts-Renewed_example :
    (r : List Message × Evproposer (assoc Instance)) × (evproposer_check_timeouts
        (assoc Instance)
        3
        evproposer_4
        105
      ≡ some r)
    × Renewed (assoc Instance) 3 105 evproposer_4 r
check_timeouts-Renewed_example =
    check_timeouts-Renewed (assoc Instance) 3 105 evproposer_4 (omega arith) state_4-Orderly

abbrev promise_4 : Promise
promise_4 = record { iid = 4; ballot = 11; value_ballot = 0; aid = 2; value = [] }

handle_event-Orderly_example :
    (r : List Message × Evproposer (assoc Instance)) × (handle_event
        (assoc Instance)
        3
        evproposer_4
        (got_promise promise_4)
        105
      ≡ some r)
    × Orderly (assoc Instance) r.1.state
handle_event-Orderly_example =
    handle_event-Orderly (assoc Instance) 3 evproposer_4 (got_promise promise_4) 105 (λ t k. refl)
      (omega arith) (omega arith) (omega arith) state_4-Orderly

abbrev new_learner : Learner (assoc Learning.Instance) (assoc Gap)
new_learner = learner_new (assoc Learning.Instance) (assoc Gap) 3 true

abbrev HasValue : Accepted → Type 0
HasValue a = 0 < length a.value

new_learner-LearnerValid : LearnerValid (assoc Learning.Instance) (assoc Gap) HasValue new_learner
unfolding learner_new
new_learner-LearnerValid key inst e = cc

new_learner-late_start : new_learner.late_start ≡ false
unfolding learner_new
new_learner-late_start = refl

abbrev peers : List (Peer (List ℕ))
peers =
    record { id = 0; connected = false; bev = [] }
    ∷ record { id = 1; connected = true; bev = [] }
    ∷ record { id = 2; connected = true; bev = [] }
    ∷ []

abbrev replica :
    Replica (storage_mem (assoc Accepted)) (assoc Instance) (assoc Learning.Instance) (assoc Gap)
replica = record {
  peers = peers;
  acceptor = record { id = 0; trim_iid = 0; store = mem_storage_new (assoc Accepted) };
  proposer = evproposer_4;
  learner = some new_learner;
}

abbrev vote_1 : Accepted
vote_1 = record { iid = 1; ballot = 12; value_ballot = 12; aid = 2; value = 65 ∷ [] }

replica_handle_accepted-Delivering_example :
    (ms : List Message) × (accs : List Accepted) × (r' : Replica
      (storage_mem (assoc Accepted))
      (assoc Instance)
      (assoc Learning.Instance)
      (assoc Gap))
    × (l' : Learner (assoc Learning.Instance) (assoc Gap)) × (replica_handle_accepted
          (storage_mem (assoc Accepted))
          (assoc Instance)
          (assoc Learning.Instance)
          (assoc Gap)
          replica
          vote_1
          105
        ≡ some (ms, accs, r'))
    × (r'.learner ≡ some l')
    × InOrder
        (assoc Learning.Instance)
        (assoc Gap)
        HasValue
        new_learner.acceptors
        new_learner.current_iid
        accs
    × LearnerValid (assoc Learning.Instance) (assoc Gap) HasValue l'
    × Orderly (assoc Instance) r'.proposer.state
    × Passed
        (storage_mem (assoc Accepted))
        (assoc Instance)
        (assoc Learning.Instance)
        (assoc Gap)
        r'.proposer.state.next_prepare_iid
        accs
    × (r'.acceptor ≡ replica.acceptor)
replica_handle_accepted-Delivering_example =
    replica_handle_accepted-Delivering (storage_mem (assoc Accepted)) (assoc Instance)
      (assoc Learning.Instance) (assoc Gap) HasValue replica new_learner vote_1 105 (λ t k. refl)
      (λ t k. refl) refl state_4-Orderly (omega arith) (omega arith) (omega arith)
      new_learner-LearnerValid new_learner-late_start

replica_submit-first_connected_example :
    evpaxos_replica_submit plain peers (65 ∷ []) ≡ some (to_first_connected plain (65 ∷ []) peers)
replica_submit-first_connected_example =
    replica_submit-first_connected plain peers (65 ∷ []) (refl, (refl, (refl, tt)))
