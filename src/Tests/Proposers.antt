-- ===== src/Tests/Proposers.antt =====
-- The proposer 1 among three acceptors.
use libpaxos.Prelude.{ℕ, ◌≡◌, refl, ◌+◌, ◌<◌, ◌↔◌, true, none, some, List, [], ◌∷◌, arith, length}
use libpaxos.Types.{Accepted, Value, Promise, Accept}
use libpaxos.Khash.Assoc.{assoc}
use libpaxos.Quorum.{paxos_quorum, clear, reached}
use libpaxos.Carray.{carray_new, carray_pop_front, carray_empty}
use libpaxos.Proposer.Instances.{Instance, instance_new, instance_to_accept}
use libpaxos.Proposer.{
  proposer_receive_accepted, Proposer, put_absent, smallest, proposer_move_instance, take_value,
  propose_instance, proposer_accept,
}
use libpaxos.Proposer.Promises.{receive_all, counted, highest, phase1_value}
use libpaxos.Quorum.Count.{clear-IsValid}
use libpaxos.Quorum.Count
use libpaxos.Carray.Cells
use libpaxos.Proposer.Decisions.{Outcome, receive_accepted-Outcome}
use libpaxos.Proposer.Proposals.{Proposed, proposer_accept-Proposed}

-- The promises of three acceptors under the ballot 11, one of them twice.
abbrev promise_of : ℕ → ℕ → Value → Promise
promise_of aid value_ballot v = record {
  iid = 4;
  ballot = 11;
  value_ballot = value_ballot;
  aid = aid;
  value = v;
}

abbrev promises : List Promise
promises =
    promise_of 0 0 []
    ∷ promise_of 2 3 (65 ∷ [])
    ∷ promise_of 2 9 (66 ∷ [])
    ∷ promise_of 1 7 (67 ∷ [])
    ∷ []

phase1_value_example :
    (inst : Instance) × (inst' : Instance) × (instance_new 4 11 3 100 ≡ some inst)
    × (receive_all 1 inst promises 101 ≡ some inst')
    × ((reached inst'.quorum ≡ true)
        ↔ (3 < length (counted [] promises) + length (counted [] promises)))
    × ((inst'.promised_value, inst'.value_ballot) ≡ highest (none, 0) (counted [] promises))
    × (inst'.ballot ≡ 11)
    × (inst'.iid ≡ 4)
phase1_value_example =
    phase1_value 1 4 11 3 100 101 promises (omega arith)
      ((refl, omega arith), ((refl, omega arith), ((refl, omega arith), ((refl, omega arith), tt))))

-- An instance with its quorum, and no value.
abbrev ready : Instance
ready = record {
  iid = 4;
  ballot = 11;
  value = none;
  promised_value = some (67 ∷ []);
  value_ballot = 7;
  quorum = record { count = 2; quorum = 2; acceptors = 3; acceptor_ids = 1 ∷ 1 ∷ 0 ∷ [] };
  created_at = 100;
}

abbrev waiting : Proposer (assoc Instance)
waiting = record {
  id = 1;
  acceptors = 3;
  values = carray_new 128;
  max_trim_iid = 0;
  next_prepare_iid = 4;
  prepare_instances = ((4, ready) ∷ [], (tt, tt));
  accept_instances = ([], tt);
}

abbrev accept_4 : Accept
accept_4 = record { iid = 4; ballot = 11; value_ballot = 11; aid = 0; value = 67 ∷ [] }

-- The instance waits for accepted messages.
abbrev proposed : Proposer (assoc Instance)
proposed = record waiting {
  prepare_instances = ([], tt);
  accept_instances = ((4, record ready { quorum = clear ready.quorum }) ∷ [], (tt, tt));
}

sends_4 : proposer_accept (assoc Instance) waiting ≡ some (some accept_4, proposed)
unfolding proposer_accept smallest reached propose_instance take_value carray_pop_front carray_empty
    carray_new proposer_move_instance put_absent instance_to_accept clear
sends_4 = refl

proposer_accept-Proposed_example : Proposed (assoc Instance) waiting accept_4 proposed
proposer_accept-Proposed_example =
    proposer_accept-Proposed (assoc Instance) waiting proposed accept_4 sends_4

-- The instance 4 as it waits for accepted messages.
abbrev asked : Instance
asked = record ready { quorum = clear ready.quorum }

abbrev accepted_4 : Accepted
accepted_4 = record { iid = 4; ballot = 11; value_ballot = 11; aid = 2; value = 67 ∷ [] }

asked-IsValid : Count.IsValid asked.quorum
asked-IsValid = clear-IsValid ready.quorum (unfold paxos_quorum in refl)

no_values-IsValid : Cells.IsValid proposed.values
unfolding carray_new
no_values-IsValid = record {
  sized = refl;
  some_room = omega arith;
  head_in = omega arith;
  count_in = omega arith;
  tail_at = refl;
}

receive_accepted-Outcome_example :
    (r : ℕ × Proposer (assoc Instance)) × (proposer_receive_accepted
        (assoc Instance)
        proposed
        accepted_4
      ≡ some r)
    × Outcome (assoc Instance) proposed accepted_4 asked r
receive_accepted-Outcome_example =
    receive_accepted-Outcome (assoc Instance) proposed accepted_4 asked refl asked-IsValid
      (unfold clear in omega arith) no_values-IsValid
