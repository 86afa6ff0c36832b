-- ===== src/Tests/Repeats.antt =====
-- Why only votes may count: a majority voted for one value, but a learner that also receives a repeated
-- record, which its acceptor sends under the ballot of a later promise, delivers another value.
use mathlib.Core.List.{Memᴰ}
use libpaxos.Prelude.{ℕ, ◌≡◌, ◌≢◌, refl, true, none, some, [], ◌∷◌, arith, ap, sym, subst}
use libpaxos.Types.{Accept, Accepted, accepted, prepare_of}
use libpaxos.Quorum.{add, init, clear, reached, paxos_quorum}
use libpaxos.Khash.Assoc.{assoc}
use libpaxos.Storage.Mem.{
  mem_storage_tx_begin, mem_storage_tx_commit, mem_storage_get, mem_storage_put,
}
use libpaxos.Acceptor.{
  receive_prepare, receive_accept, receive_repeat, with_value, prepared, commit_and_reply,
  accept_to_accepted, accepted_to_promise,
}
use libpaxos.Acceptor.Promises.{prepares, accepts, repeats}
use libpaxos.Acceptor.History.{answer}
use libpaxos.Learner.Gaps.{Gap}
use libpaxos.Learner.{
  learner_new, learner_receive_accepted, learner_deliver_next, start_at, receive_started, deliver,
  close_instance, learner_get_instance_or_create, learner_create_instance,
}
use libpaxos.Learner.Instances.{
  instance_update, instance_has_quorum, count_quorum, count_agreeing, instance_add_accept,
  first_message,
}
use libpaxos.Learner.Instances
use libpaxos.Learner.Runs.{run}
use libpaxos.Proposer.Instances.{
  instance_new, instance_receive_promise, instance_to_accept, save_promised,
}
use libpaxos.Proposer.Promises.{receive_all}
use libpaxos.System.{System, handle, AllSent, Proposal, handles, proposes, Reach, begin, and_then}
use libpaxos.Tests.Systems.{mem, first, after, blank, instance_of, Sent, done, events}

abbrev prepared_11 : System mem
prepared_11 = after (after first 1 (prepares (prepare_of 1 11))) 2 (prepares (prepare_of 1 11))

-- A request, and a vote for it.
abbrev asks : ℕ → ℕ → Accept
asks ballot byte = record {
  iid = 1;
  ballot = ballot;
  value_ballot = ballot;
  aid = 0;
  value = byte ∷ [];
}

prepared_11-Proposal : Proposal mem 3 prepared_11 (asks 11 65)
unfolding handle answer receive_prepare prepared commit_and_reply accepted_to_promise
    mem_storage_tx_begin mem_storage_tx_commit mem_storage_get mem_storage_put instance_new
    receive_all instance_receive_promise save_promised instance_to_accept add init clear reached
    paxos_quorum
prepared_11-Proposal = record {
  id = 1;
  ballot = 11;
  created = 0;
  now = 1;
  promises = blank 1 11 ∷ blank 2 11 ∷ [];
  started = instance_of 11;
  prepared = record (instance_of 11) {
    quorum = record { count = 2; quorum = 2; acceptors = 3; acceptor_ids = 0 ∷ 1 ∷ 1 ∷ [] };
  };
  client = some (65 ∷ []);
  sent = sent_11;
  starts = refl;
  receives = refl;
  reached = refl;
  filled = omega arith;
  waiting = none;
  asks = refl;
  positive = omega arith;
  fits = omega arith;
  fresh = λ r i. elim i [ ];
}
  where
    sent_11 : AllSent mem 3 prepared_11.nodes 1 11 (blank 1 11 ∷ blank 2 11 ∷ [])
    sent_11 p (Memᴰ.head e) =
        subst (Sent prepared_11 11) (sym e) (omega arith, refl, refl, Memᴰ.head refl)
    sent_11 p (Memᴰ.tail (Memᴰ.head e)) =
        subst (Sent prepared_11 11) (sym e) (omega arith, refl, refl, Memᴰ.head refl)
    sent_11 p (Memᴰ.tail (Memᴰ.tail i)) = elim i [ ]

-- Only the acceptor 2 votes under the ballot 11; the acceptors 0 and 1 promise 12.
abbrev prepared_12 : System mem
prepared_12 =
    after
      (after (after (record prepared_11 { requests = asks 11 65 ∷ [] }) 2 (accepts (asks 11 65))) 0
        (prepares (prepare_of 1 12)))
      1 (prepares (prepare_of 1 12))

prepared_12-Proposal : Proposal mem 3 prepared_12 (asks 12 66)
unfolding handle answer receive_prepare receive_accept prepared commit_and_reply accepted_to_promise
    accept_to_accepted mem_storage_tx_begin mem_storage_tx_commit mem_storage_get mem_storage_put
    instance_new receive_all instance_receive_promise save_promised instance_to_accept add init
    clear reached paxos_quorum
prepared_12-Proposal = record {
  id = 2;
  ballot = 12;
  created = 0;
  now = 1;
  promises = blank 0 12 ∷ blank 1 12 ∷ [];
  started = instance_of 12;
  prepared = record (instance_of 12) {
    quorum = record { count = 2; quorum = 2; acceptors = 3; acceptor_ids = 1 ∷ 1 ∷ 0 ∷ [] };
  };
  client = some (66 ∷ []);
  sent = sent_12;
  starts = refl;
  receives = refl;
  reached = refl;
  filled = omega arith;
  waiting = none;
  asks = refl;
  positive = omega arith;
  fits = omega arith;
  fresh = fresh_12;
}
  where
    sent_12 : AllSent mem 3 prepared_12.nodes 1 12 (blank 0 12 ∷ blank 1 12 ∷ [])
    sent_12 p (Memᴰ.head e) =
        subst (Sent prepared_12 12) (sym e) (omega arith, refl, refl, Memᴰ.head refl)
    sent_12 p (Memᴰ.tail (Memᴰ.head e)) =
        subst (Sent prepared_12 12) (sym e) (omega arith, refl, refl, Memᴰ.head refl)
    sent_12 p (Memᴰ.tail (Memᴰ.tail i)) = elim i [ ]

    fresh_12 : (r : Accept) → Memᴰ r (asks 11 65 ∷ []) → r.iid ≡ 1 → r.ballot ≢ 12
    fresh_12 r (Memᴰ.head e) key same = omega (arith, ap (λ (x : Accept). x.ballot) e)
    fresh_12 r (Memᴰ.tail i) key same = elim i [ ]

-- The acceptors 0 and 1 vote under the ballot 12, which the acceptor 2 has promised; it repeats its record.
abbrev last : System mem
last =
    after
      (after
        (after
          (after (record prepared_12 { requests = asks 12 66 ∷ asks 11 65 ∷ [] }) 2
            (prepares (prepare_of 1 12)))
          0 (accepts (asks 12 66)))
        1 (accepts (asks 12 66)))
      2 (repeats 1)

last-Reach : Reach mem 3 first last
unfolding handle answer receive_prepare receive_accept prepared commit_and_reply accepted_to_promise
    accept_to_accepted mem_storage_tx_begin mem_storage_tx_commit mem_storage_get mem_storage_put
last-Reach =
    and_then
      (and_then
        (and_then
          (and_then
            (and_then
              (and_then
                (and_then
                  (and_then
                    (and_then
                      (and_then
                        (and_then begin (handles 1 (prepares (prepare_of 1 11)) (omega arith) tt))
                        (handles 2 (prepares (prepare_of 1 11)) (omega arith) tt))
                      (proposes (asks 11 65) prepared_11-Proposal))
                    (handles 2 (accepts (asks 11 65)) (omega arith) (Memᴰ.head refl)))
                  (handles 0 (prepares (prepare_of 1 12)) (omega arith) tt))
                (handles 1 (prepares (prepare_of 1 12)) (omega arith) tt))
              (proposes (asks 12 66) prepared_12-Proposal))
            (handles 2 (prepares (prepare_of 1 12)) (omega arith) tt))
          (handles 0 (accepts (asks 12 66)) (omega arith) (Memᴰ.head refl)))
        (handles 1 (accepts (asks 12 66)) (omega arith) (Memᴰ.head refl)))
      (handles 2 (repeats 1) (omega arith) (omega arith))

abbrev vote : ℕ → Accepted
vote i = record { iid = 1; ballot = 12; value_ballot = 12; aid = i; value = 66 ∷ [] }

-- Under the ballot 12, with the value of the ballot 11.
abbrev repeated : Accepted
repeated = record { iid = 1; ballot = 12; value_ballot = 11; aid = 2; value = 65 ∷ [] }

-- All three messages are sent; the first two make the value 66 chosen.
sent_by_acceptors :
    Memᴰ (accepted (vote 0)) (last.nodes 0).sent
    × Memᴰ (accepted (vote 1)) (last.nodes 1).sent
    × Memᴰ (accepted repeated) (last.nodes 2).sent
unfolding handle answer receive_prepare receive_accept receive_repeat with_value prepared
    commit_and_reply accepted_to_promise accept_to_accepted mem_storage_tx_begin
    mem_storage_tx_commit mem_storage_get mem_storage_put
sent_by_acceptors = (Memᴰ.head refl, Memᴰ.head refl, Memᴰ.head refl)

-- One learner delivers 66, the other 65.
learners_disagree :
    (run
        (assoc Instances.Instance)
        (assoc Gap)
        (learner_new (assoc Instances.Instance) (assoc Gap) 3 true)
        (events (vote 0) (vote 1))
      ≡ some (vote 1 ∷ [], done))
    × (run
          (assoc Instances.Instance)
          (assoc Gap)
          (learner_new (assoc Instances.Instance) (assoc Gap) 3 true)
          (events (vote 0) repeated)
        ≡ some (repeated ∷ [], done))
unfolding run learner_new learner_receive_accepted learner_deliver_next start_at receive_started
    deliver close_instance learner_get_instance_or_create learner_create_instance
    Instances.instance_new instance_update instance_has_quorum count_quorum count_agreeing
    instance_add_accept first_message paxos_quorum
learners_disagree = (refl, refl)
