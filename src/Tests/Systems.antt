-- ===== src/Tests/Systems.antt =====
-- Three acceptors over the memory storage, and two proposers: the first has its value chosen by the
-- acceptors 0 and 1 under the ballot 11, the second asks the acceptors 1 and 2 under the ballot 12.
use mathlib.Core.List.{Memᴰ}
use libpaxos.Prelude.{
  ℕ, ◌≡◌, ◌≢◌, refl, ◌<◌, true, false, none, some, List, [], ◌∷◌, arith, ap, sym, subst,
}
use libpaxos.Types.{Promise, Accept, Accepted, promise, prepare_of}
use libpaxos.Quorum.{add, init, clear, reached, paxos_quorum}
use libpaxos.Khash.Assoc.{assoc}
use libpaxos.Storage.{StorageApi}
use libpaxos.Storage.Mem.{
  mem_storage_tx_begin, mem_storage_tx_commit, mem_storage_get, mem_storage_put, storage_mem,
}
use libpaxos.Storage.Mem.Laws.{mem_laws}
use libpaxos.Storage.Mem.Laws
use libpaxos.Acceptor.{
  receive_prepare, receive_accept, prepared, commit_and_reply, accept_to_accepted,
  accepted_to_promise,
}
use libpaxos.Acceptor.Promises.{Input, prepares, accepts, repeats}
use libpaxos.Acceptor.History.{push, answer, Untrimmed, Remembers}
use libpaxos.Acceptor.Remembering.{answer-Remembers}
use libpaxos.System.Votes.{Inv}
use libpaxos.System.Requests.{Reach-Inv}
use libpaxos.Learner.Gaps.{Gap}
use libpaxos.Learner.{
  Learner, learner_new, learner_receive_accepted, learner_deliver_next, start_at, receive_started,
  deliver, close_instance, learner_get_instance_or_create, learner_create_instance,
}
use libpaxos.Learner.Instances.{
  instance_update, instance_has_quorum, count_quorum, count_agreeing, instance_add_accept,
  first_message,
}
use libpaxos.Learner.Instances
use libpaxos.Learner.Runs.{Event, receives, delivers, run}
use libpaxos.Learner.Votes.{Backed}
use libpaxos.Proposer.Instances.{
  Instance, instance_new, instance_receive_promise, instance_to_accept, save_promised,
}
use libpaxos.Proposer.Promises.{receive_all}
use libpaxos.System.{
  Node, System, handle, put_node, AllSent, Proposal, handles, proposes, Start, Reach, begin,
  and_then,
}
use libpaxos.System.Agreement.{VotedIn, chosen_agree}

abbrev pub mem : StorageApi
mem = storage_mem (assoc Accepted)

abbrev pub node : ℕ → Node mem
node i = record {
  acceptor = record { id = i; trim_iid = 0; store = record { trim_iid = 0; records = ([], tt) } };
  sent = [];
}

abbrev pub first : System mem
first = record { nodes = node; requests = [] }

pub first-Start : Start mem (Laws.IsValid (assoc Accepted)) 3 first
first-Start = record {
  few = omega arith;
  ids = λ i lt. refl;
  valid = λ i lt k a e. cc;
  empty = λ i lt j. unfold mem_storage_get in refl;
  silent = λ i lt. refl;
  unasked = refl;
}

-- One acceptor handles a message, as the function that the step computes.
abbrev pub after : System mem → ℕ → Input → System mem
after s i m = record s { nodes = put_node mem s.nodes i (handle mem (s.nodes i) m) }

abbrev pub prepared_11 : System mem
prepared_11 = after (after first 0 (prepares (prepare_of 1 11))) 1 (prepares (prepare_of 1 11))

-- The promise of an acceptor that has not voted.
abbrev pub blank : ℕ → ℕ → Promise
blank i ballot = record { iid = 1; ballot = ballot; value_ballot = 0; aid = i; value = [] }

abbrev pub asks_11 : Accept
asks_11 = record { iid = 1; ballot = 11; value_ballot = 11; aid = 0; value = 65 ∷ [] }

-- A new instance of a proposer.
abbrev pub instance_of : ℕ → Instance
instance_of ballot = record {
  iid = 1;
  ballot = ballot;
  value_ballot = 0;
  value = none;
  promised_value = none;
  created_at = 0;
  quorum = record { count = 0; quorum = 2; acceptors = 3; acceptor_ids = 0 ∷ 0 ∷ 0 ∷ [] };
}

abbrev pub Sent : System mem → ℕ → Promise → Type 0
Sent s ballot p =
    (p.aid < 3) × (p.iid ≡ 1) × (p.ballot ≡ ballot) × Memᴰ (promise p) (s.nodes p.aid).sent

prepared_11-Proposal : Proposal mem 3 prepared_11 asks_11
unfolding handle answer receive_prepare prepared commit_and_reply accepted_to_promise
    mem_storage_tx_begin mem_storage_tx_commit mem_storage_get mem_storage_put instance_new
    receive_all instance_receive_promise save_promised instance_to_accept add init clear reached
    paxos_quorum
prepared_11-Proposal = record {
  id = 1;
  ballot = 11;
  created = 0;
  now = 1;
  promises = blank 0 11 ∷ blank 1 11 ∷ [];
  started = instance_of 11;
  prepared = record (instance_of 11) {
    quorum = record { count = 2; quorum = 2; acceptors = 3; acceptor_ids = 1 ∷ 1 ∷ 0 ∷ [] };
  };
  client = some (65 ∷ []);
  sent = sent_11;
  starts = refl;
  receives = refl;
  reached = refl;
  filled = omega arith;
  waiting = none;
  asks = refl;
  positive = omega arith;
  fits = omega arith;
  fresh = λ r i. elim i [ ];
}
  where
    sent_11 : AllSent mem 3 prepared_11.nodes 1 11 (blank 0 11 ∷ blank 1 11 ∷ [])
    sent_11 p (Memᴰ.head e) =
        subst (Sent prepared_11 11) (sym e) (omega arith, refl, refl, Memᴰ.head refl)
    sent_11 p (Memᴰ.tail (Memᴰ.head e)) =
        subst (Sent prepared_11 11) (sym e) (omega arith, refl, refl, Memᴰ.head refl)
    sent_11 p (Memᴰ.tail (Memᴰ.tail i)) = elim i [ ]

-- The acceptors 0 and 1 vote; the acceptors 1 and 2 promise the second proposer.
abbrev prepared_12 : System mem
prepared_12 =
    after
      (after
        (after (after (record prepared_11 { requests = asks_11 ∷ [] }) 0 (accepts asks_11)) 1
          (accepts asks_11))
        1 (prepares (prepare_of 1 12)))
      2 (prepares (prepare_of 1 12))

abbrev report : Promise
report = record { iid = 1; ballot = 12; value_ballot = 11; aid = 1; value = 65 ∷ [] }

-- The second proposer's client has another value, which has to wait.
abbrev asks_12 : Accept
asks_12 = record { iid = 1; ballot = 12; value_ballot = 12; aid = 0; value = 65 ∷ [] }

prepared_12-Proposal : Proposal mem 3 prepared_12 asks_12
unfolding handle answer receive_prepare receive_accept prepared commit_and_reply accepted_to_promise
    accept_to_accepted mem_storage_tx_begin mem_storage_tx_commit mem_storage_get mem_storage_put
    instance_new receive_all instance_receive_promise save_promised instance_to_accept add init
    clear reached paxos_quorum
prepared_12-Proposal = record {
  id = 2;
  ballot = 12;
  created = 0;
  now = 1;
  promises = blank 2 12 ∷ report ∷ [];
  started = instance_of 12;
  prepared = record (instance_of 12) {
    value_ballot = 11;
    promised_value = some (65 ∷ []);
    quorum = record { count = 2; quorum = 2; acceptors = 3; acceptor_ids = 0 ∷ 1 ∷ 1 ∷ [] };
  };
  client = some (66 ∷ []);
  sent = sent_12;
  starts = refl;
  receives = refl;
  reached = refl;
  filled = omega arith;
  waiting = none;
  asks = refl;
  positive = omega arith;
  fits = omega arith;
  fresh = fresh_12;
}
  where
    sent_12 : AllSent mem 3 prepared_12.nodes 1 12 (blank 2 12 ∷ report ∷ [])
    sent_12 p (Memᴰ.head e) =
        subst (Sent prepared_12 12) (sym e) (omega arith, refl, refl, Memᴰ.head refl)
    sent_12 p (Memᴰ.tail (Memᴰ.head e)) =
        subst (Sent prepared_12 12) (sym e) (omega arith, refl, refl, Memᴰ.head refl)
    sent_12 p (Memᴰ.tail (Memᴰ.tail i)) = elim i [ ]

    fresh_12 : (r : Accept) → Memᴰ r (asks_11 ∷ []) → r.iid ≡ 1 → r.ballot ≢ 12
    fresh_12 r (Memᴰ.head e) key same = omega (arith, ap (λ (x : Accept). x.ballot) e)
    fresh_12 r (Memᴰ.tail i) key same = elim i [ ]

abbrev last : System mem
last =
    after (after (record prepared_12 { requests = asks_12 ∷ asks_11 ∷ [] }) 1 (accepts asks_12)) 2
      (accepts asks_12)

last-Reach : Reach mem 3 first last
unfolding handle
last-Reach =
    and_then
      (and_then
        (and_then
          (and_then
            (and_then
              (and_then
                (and_then
                  (and_then
                    (and_then
                      (and_then begin (handles 0 (prepares (prepare_of 1 11)) (omega arith) tt))
                      (handles 1 (prepares (prepare_of 1 11)) (omega arith) tt))
                    (proposes asks_11 prepared_11-Proposal))
                  (handles 0 (accepts asks_11) (omega arith) (Memᴰ.head refl)))
                (handles 1 (accepts asks_11) (omega arith) (Memᴰ.head refl)))
              (handles 1 (prepares (prepare_of 1 12)) (omega arith) tt))
            (handles 2 (prepares (prepare_of 1 12)) (omega arith) tt))
          (proposes asks_12 prepared_12-Proposal))
        (handles 1 (accepts asks_12) (omega arith) (Memᴰ.head refl)))
      (handles 2 (accepts asks_12) (omega arith) (Memᴰ.head refl))

-- The votes under the two ballots.
abbrev pub vote : ℕ → ℕ → Accepted
vote i ballot = record { iid = 1; ballot = ballot; value_ballot = ballot; aid = i; value = 65 ∷ [] }

vote_0 : VotedIn mem 3 last (vote 0 11)
unfolding handle answer receive_prepare receive_accept prepared commit_and_reply accepted_to_promise
    accept_to_accepted mem_storage_tx_begin mem_storage_tx_commit mem_storage_get mem_storage_put
vote_0 = (omega arith, Memᴰ.head refl, refl)

vote_1 : VotedIn mem 3 last (vote 1 11) × VotedIn mem 3 last (vote 1 12)
unfolding handle answer receive_prepare receive_accept prepared commit_and_reply accepted_to_promise
    accept_to_accepted mem_storage_tx_begin mem_storage_tx_commit mem_storage_get mem_storage_put
vote_1 = (
  (omega arith, Memᴰ.tail (Memᴰ.tail (Memᴰ.head refl)), refl),
  (omega arith, Memᴰ.head refl, refl),
)

vote_2 : VotedIn mem 3 last (vote 2 12)
unfolding handle answer receive_prepare receive_accept prepared commit_and_reply accepted_to_promise
    accept_to_accepted mem_storage_tx_begin mem_storage_tx_commit mem_storage_get mem_storage_put
vote_2 = (omega arith, Memᴰ.head refl, refl)

chosen_11 : Backed (VotedIn mem 3 last) 3 (vote 1 11)
chosen_11 = (
  vote 0 11 ∷ vote 1 11 ∷ [],
  omega arith,
  (
    (omega arith, omega arith, refl, refl, vote_0),
    ((omega arith, omega arith, refl, refl, vote_1.0), tt),
  ),
  vote_1.0,
)

chosen_12 : Backed (VotedIn mem 3 last) 3 (vote 2 12)
chosen_12 = (
  vote 1 12 ∷ vote 2 12 ∷ [],
  omega arith,
  (
    (omega arith, omega arith, refl, refl, vote_1.1),
    ((omega arith, omega arith, refl, refl, vote_2), tt),
  ),
  vote_2,
)

chosen_agree_example : (vote 1 11).value ≡ (vote 2 12).value
chosen_agree_example =
    chosen_agree mem (Laws.IsValid (assoc Accepted)) (mem_laws (assoc Accepted)) 3 first last
      (vote 1 11) (vote 2 12) first-Start last-Reach chosen_11 chosen_12 refl

-- A learner that has delivered the instance 1.
abbrev pub done : Learner (assoc Instances.Instance) (assoc Gap)
done = record {
  acceptors = 3;
  late_start = false;
  current_iid = 2;
  highest_iid_closed = 1;
  instances = ([], tt);
  gaps = ([], tt);
}

abbrev pub events : Accepted → Accepted → List Event
events m m' = receives m ∷ delivers ∷ receives m' ∷ delivers ∷ []

pub delivered_11 :
    run
      (assoc Instances.Instance)
      (assoc Gap)
      (learner_new (assoc Instances.Instance) (assoc Gap) 3 true)
      (events (vote 0 11) (vote 1 11))
    ≡ some (vote 1 11 ∷ [], done)
unfolding run learner_new learner_receive_accepted learner_deliver_next start_at receive_started
    deliver close_instance learner_get_instance_or_create learner_create_instance
    Instances.instance_new instance_update instance_has_quorum count_quorum count_agreeing
    instance_add_accept first_message paxos_quorum
delivered_11 = refl

delivered_12 :
    run
      (assoc Instances.Instance)
      (assoc Gap)
      (learner_new (assoc Instances.Instance) (assoc Gap) 3 true)
      (events (vote 2 12) (vote 1 12))
    ≡ some (vote 2 12 ∷ [], done)
unfolding run learner_new learner_receive_accepted learner_deliver_next start_at receive_started
    deliver close_instance learner_get_instance_or_create learner_create_instance
    Instances.instance_new instance_update instance_has_quorum count_quorum count_agreeing
    instance_add_accept first_message paxos_quorum
delivered_12 = refl

Reach-Inv_example : Inv mem (Laws.IsValid (assoc Accepted)) (mem_laws (assoc Accepted)) 3 last
Reach-Inv_example =
    Reach-Inv mem (Laws.IsValid (assoc Accepted)) (mem_laws (assoc Accepted)) 3 first last
      first-Start last-Reach

-- An acceptor that has voted repeats its vote.
node_1-Remembers :
    Remembers mem
      (Laws.IsValid (assoc Accepted))
      (mem_laws (assoc Accepted))
      (last.nodes 1).acceptor
      (last.nodes 1).sent
node_1-Remembers = Reach-Inv_state.remembers 1 (omega arith)
  where
    Reach-Inv_state : Inv mem (Laws.IsValid (assoc Accepted)) (mem_laws (assoc Accepted)) 3 last
    Reach-Inv_state =
        Reach-Inv mem (Laws.IsValid (assoc Accepted)) (mem_laws (assoc Accepted)) 3 first last
          first-Start last-Reach

node_1-Untrimmed : Untrimmed mem (last.nodes 1).acceptor (repeats 1)
unfolding handle answer receive_prepare receive_accept prepared commit_and_reply accepted_to_promise
    accept_to_accepted mem_storage_tx_begin mem_storage_tx_commit mem_storage_get mem_storage_put
node_1-Untrimmed = omega arith

answer-Remembers_example :
    Remembers mem
      (Laws.IsValid (assoc Accepted))
      (mem_laws (assoc Accepted))
      (answer mem (last.nodes 1).acceptor (repeats 1)).1
      (push (answer mem (last.nodes 1).acceptor (repeats 1)).0 (last.nodes 1).sent)
    × ((answer mem (last.nodes 1).acceptor (repeats 1)).1.id ≡ (last.nodes 1).acceptor.id)
answer-Remembers_example =
    answer-Remembers mem (Laws.IsValid (assoc Accepted)) (mem_laws (assoc Accepted))
      (last.nodes 1).acceptor (last.nodes 1).sent (repeats 1) node_1-Remembers node_1-Untrimmed
