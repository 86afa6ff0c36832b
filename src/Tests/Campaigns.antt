-- ===== src/Tests/Campaigns.antt =====
-- Three acceptors and the proposers themselves: the proposer 1 has a client's value chosen.
use mathlib.Core.List.{Memᴰ}
use libpaxos.Prelude.{Option, List, ◌+◌, ◌^◌, ℕ, ◌≡◌, refl, ◌<◌, none, some, List, [], ◌∷◌, arith}
use libpaxos.Types.{Accept, Accepted, promise, prepare_of}
use libpaxos.Quorum.{add, init, clear, reached, paxos_quorum}
use libpaxos.Khash.Assoc.{assoc}
use libpaxos.Khash.{Khash}
use libpaxos.Storage.Mem.{
  mem_storage_tx_begin, mem_storage_tx_commit, mem_storage_get, mem_storage_put,
}
use libpaxos.Storage.Mem.Laws.{mem_laws}
use libpaxos.Storage.Mem.Laws
use libpaxos.Acceptor.{
  receive_prepare, receive_accept, prepared, commit_and_reply, accept_to_accepted,
  accepted_to_promise,
}
use libpaxos.Acceptor.Promises.{Input, prepares, accepts}
use libpaxos.Acceptor.History.{answer}
use libpaxos.Learner.Gaps.{Gap}
use libpaxos.Learner.Instances.{
  instance_update, instance_has_quorum, count_quorum, count_agreeing, instance_add_accept,
  first_message,
}
use libpaxos.Learner.Instances
use libpaxos.Proposer.Instances.{
  Instance, instance_new, instance_receive_promise, instance_to_accept, save_promised,
}
use libpaxos.System.{handle, Reach}
use libpaxos.System.Agreement.{VotedIn}
use libpaxos.System.Delivery.{SameOrder}
use libpaxos.Tests.Systems.{
  mem, first, first-Start, after, blank, instance_of, done, events, asks_11, vote, delivered_11,
}
use libpaxos.Carray.{carray_push_back, carray_pop_front, carray_new, carray_empty}
use libpaxos.Carray
use libpaxos.Proposer.{
  Proposer, proposer_new, proposer_propose, proposer_prepare, start_instance, put_absent,
  proposer_receive_promise, proposer_accept, propose_instance, take_value, smallest,
  proposer_move_instance,
}
use libpaxos.Proposer.Instances.{proposer_next_ballot}
use libpaxos.System.Proposers.{submits, opens, hears, asks, AllFit}
use libpaxos.System.Campaigns.{
  Campaign, Opening, Moves, stay, go_on, acceptor_handles, proposer_turns, put_proposer, asked_for,
  Moves-Reach, AllProposing,
}
use libpaxos.System.Delivery.{campaign_agree}

abbrev table : Khash Instance
table = assoc Instance

abbrev opening : Campaign mem table
opening = record { system = first; proposers = λ id. proposer_new table id 3 }

opening-Opening : Opening mem table (Laws.IsValid (assoc Accepted)) 3 opening
opening-Opening = record { start = first-Start; new = λ id small. refl }

-- The proposer 1 with a value to propose, and then after each of its turns.
abbrev with_value : Proposer table
with_value = proposer_propose table (proposer_new table 1 3) (65 ∷ [])

abbrev opened : Proposer table
opened = record with_value {
  next_prepare_iid = 1;
  prepare_instances = ((1, instance_of 11) ∷ [], (tt, tt));
}

abbrev holding : ℕ → List ℕ → Proposer table
holding count flags = record opened {
  prepare_instances = (
    (
      1,
      record (instance_of 11) {
        quorum = record { count = count; quorum = 2; acceptors = 3; acceptor_ids = flags };
      },
    )
        ∷ [],
    (tt, tt),
  );
}

abbrev asking : Proposer table
asking = record opened {
  values = (carray_pop_front opened.values).1;
  prepare_instances = ([], tt);
  accept_instances = ((1, record (instance_of 11) { value = some (65 ∷ []) }) ∷ [], (tt, tt));
}

opens_1 : proposer_prepare table with_value 0 ≡ some (prepare_of 1 11, opened)
unfolding proposer_prepare start_instance put_absent instance_new proposer_next_ballot init clear
    paxos_quorum proposer_propose proposer_new
opens_1 = refl

hears_0 :
    proposer_receive_promise table opened (blank 0 11) 1 ≡ some (none, holding 1 (1 ∷ 0 ∷ 0 ∷ []))
unfolding proposer_receive_promise instance_receive_promise save_promised add proposer_propose
    proposer_new
hears_0 = refl

hears_1 :
    proposer_receive_promise table (holding 1 (1 ∷ 0 ∷ 0 ∷ [])) (blank 1 11) 2
    ≡ some (none, holding 2 (1 ∷ 1 ∷ 0 ∷ []))
unfolding proposer_receive_promise instance_receive_promise save_promised add proposer_propose
    proposer_new
hears_1 = refl

asks_1 : proposer_accept table (holding 2 (1 ∷ 1 ∷ 0 ∷ [])) ≡ some (some asks_11, asking)
unfolding proposer_accept smallest reached propose_instance take_value carray_pop_front carray_empty
    carray_new carray_push_back Carray.push_within Carray.store_back proposer_move_instance
    put_absent instance_to_accept clear proposer_propose proposer_new
asks_1 = refl

-- A turn of the proposer 1, and a message at an acceptor.
abbrev turned : Campaign mem table → Proposer table → Option Accept → Campaign mem table
turned c p ask = record {
  system = record c.system { requests = asked_for mem table ask c.system.requests };
  proposers = put_proposer mem table c.proposers 1 p;
}

abbrev handled : Campaign mem table → ℕ → Input → Campaign mem table
handled c i m = record c { system = after c.system i m }

abbrev ready : Campaign mem table
ready =
    handled
      (handled (turned (turned opening with_value none) opened none) 0 (prepares (prepare_of 1 11)))
      1 (prepares (prepare_of 1 11))

abbrev proposed : Campaign mem table
proposed =
    turned
      (turned (turned ready (holding 1 (1 ∷ 0 ∷ 0 ∷ [])) none) (holding 2 (1 ∷ 1 ∷ 0 ∷ [])) none)
      asking (some asks_11)

abbrev voted : Campaign mem table
voted = handled (handled proposed 0 (accepts asks_11)) 1 (accepts asks_11)

promised_11 :
    Memᴰ (promise (blank 0 11)) (ready.system.nodes 0).sent
    × Memᴰ (promise (blank 1 11)) (ready.system.nodes 1).sent
unfolding handle answer receive_prepare prepared commit_and_reply accepted_to_promise
    mem_storage_tx_begin mem_storage_tx_commit mem_storage_get mem_storage_put
promised_11 = (Memᴰ.head refl, Memᴰ.head refl)

none_fits : AllFit mem table (proposer_new table 1 3) × AllFit mem table with_value
unfolding proposer_new proposer_propose
none_fits = ((λ k v e. cc, λ k v e. cc), (λ k v e. cc, λ k v e. cc))

one_fits :
    AllFit mem table opened
    × AllFit mem table (holding 1 (1 ∷ 0 ∷ 0 ∷ []))
    × AllFit mem table (holding 2 (1 ∷ 1 ∷ 0 ∷ []))
unfolding proposer_new proposer_propose
one_fits = (
  (λ k v e. ground arith, λ k v e. cc),
  (λ k v e. ground arith, λ k v e. cc),
  (λ k v e. ground arith, λ k v e. cc),
)

no_iid : (proposer_new table 1 3).next_prepare_iid + 1 < 2 ^ 32
unfolding proposer_new
no_iid = omega arith

next_iid : with_value.next_prepare_iid + 1 < 2 ^ 32
unfolding proposer_propose proposer_new
next_iid = omega arith

voted-Moves : Moves mem table 3 opening voted
voted-Moves =
    go_on
      (go_on
        (go_on
          (go_on
            (go_on
              (go_on
                (go_on
                  (go_on
                    (go_on stay (
                      proposer_turns 1 with_value none (omega arith) none_fits.0
                        (submits (65 ∷ []))))
                    (proposer_turns 1 opened none (omega arith) none_fits.1
                      (opens 0 (prepare_of 1 11) opened next_iid opens_1)))
                  (acceptor_handles 0 (prepares (prepare_of 1 11)) (omega arith) tt))
                (acceptor_handles 1 (prepares (prepare_of 1 11)) (omega arith) tt))
              (proposer_turns 1 (holding 1 (1 ∷ 0 ∷ 0 ∷ [])) none (omega arith) one_fits.0
                (hears (blank 0 11) 1 none _ (omega arith) promised_11.0 hears_0)))
            (proposer_turns 1 (holding 2 (1 ∷ 1 ∷ 0 ∷ [])) none (omega arith) one_fits.1
              (hears (blank 1 11) 2 none _ (omega arith) promised_11.1 hears_1)))
          (proposer_turns 1 asking (some asks_11) (omega arith) one_fits.2
            (asks asks_11 asking asks_1 (omega arith))))
        (acceptor_handles 0 (accepts asks_11) (omega arith) (Memᴰ.head refl)))
      (acceptor_handles 1 (accepts asks_11) (omega arith) (Memᴰ.head refl))

votes_11 : VotedIn mem 3 voted.system (vote 0 11) × VotedIn mem 3 voted.system (vote 1 11)
unfolding handle answer receive_prepare receive_accept prepared commit_and_reply accepted_to_promise
    accept_to_accepted mem_storage_tx_begin mem_storage_tx_commit mem_storage_get mem_storage_put
votes_11 = ((omega arith, Memᴰ.head refl, refl), (omega arith, Memᴰ.head refl, refl))

Moves-Reach_example : Reach mem 3 first voted.system × AllProposing mem table 3 voted
Moves-Reach_example =
    Moves-Reach mem (Laws.IsValid (assoc Accepted)) (mem_laws (assoc Accepted)) table 3 opening
      voted opening-Opening voted-Moves

campaign_agree_example : SameOrder (vote 1 11 ∷ []) (vote 1 11 ∷ [])
campaign_agree_example =
    campaign_agree mem (Laws.IsValid (assoc Accepted)) (mem_laws (assoc Accepted)) table
      (assoc Instances.Instance) (assoc Instances.Instance) (assoc Gap) (assoc Gap) 3 opening voted
      (events (vote 0 11) (vote 1 11)) (events (vote 0 11) (vote 1 11)) (vote 1 11 ∷ [])
      (vote 1 11 ∷ []) done done opening-Opening voted-Moves (votes_11.0, (votes_11.1, tt))
      (votes_11.0, (votes_11.1, tt)) delivered_11 delivered_11
