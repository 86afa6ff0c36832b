-- ===== src/Evpaxos/Proposers.antt =====
-- evpaxos/evproposer.c: the handlers of the event-driven proposer. What a handler sends goes to all
-- acceptors, and is a value in its result; `now` is the time at which it runs. A handler is `none` where
-- a function of paxos/proposer.c is, or where the fuel of its loop runs out. `Proposers/Window.antt`,
-- `Proposers/Timers.antt` and `Proposers/Handlers.antt` hold the proofs.
pub mod Window
pub mod Timers
pub mod Handlers
use libpaxos.Prelude.{
  ℕ, zero, suc, ◌+◌, ◌-◌, Option, none, some, List, [], ◌∷◌, ◌++◌, map, ◌==◌, if◌then◌else◌, ◌>>=◌,
}
use libpaxos.Types.{
  Value, Prepare, Promise, Accept, Accepted, Preempted, AcceptorState, Message, prepare, accept,
}
use libpaxos.Khash.{Khash}
use libpaxos.Proposer.Instances.{Instance}
use libpaxos.Proposer.{
  Proposer, proposer_new, proposer_propose, proposer_set_instance_id, proposer_prepare,
  proposer_receive_promise, proposer_accept, proposer_receive_accepted, proposer_receive_preempted,
  proposer_receive_acceptor_state,
}
use libpaxos.Proposer.Timeouts.{
  drain, TimeoutIterator, proposer_timeout_iterator, timeout_iterator_prepare,
  timeout_iterator_accept,
}

-- What `evproposer_init_internal` subscribes to, and the timers that it sets.
pub data Event : Type 0 where
  got_promise : Promise → Event
  got_accepted : Accepted → Event
  got_preempted : Preempted → Event
  got_client_value : Value → Event
  got_acceptor_state : AcceptorState → Event
  timer : Event
  started : Event

abbrev pub sent_prepare : Option Prepare → List Message
sent_prepare none = []
sent_prepare (some pr) = prepare pr ∷ []

module _ (kh : Khash Instance) where
  pub record Evproposer : Type 0 where
    pub id : ℕ
    pub preexec_window : ℕ
    pub state : Proposer kh

  unfoldable pub proposer_prepared_count : Proposer kh → ℕ
  proposer_prepared_count p = kh.size p.prepare_instances

  -- The loop of `proposer_preexecute`, of `count` rounds.
  unfoldable pub open_instances : ℕ → Proposer kh → ℕ → Option (List Message × Proposer kh)
  unfolding proposer_prepare
  open_instances zero p now = some ([], p)
  open_instances (suc count) p now = do
    (pr, p') ← proposer_prepare kh p now
    (ms, p'') ← open_instances count p' now
    some (prepare pr ∷ ms, p'')

  -- A count below 1 opens no instance.
  unfoldable pub proposer_preexecute : Evproposer → ℕ → Option (List Message × Evproposer)
  unfolding open_instances proposer_prepared_count
  proposer_preexecute p now = do
    (ms, state) ← open_instances (p.preexec_window - proposer_prepared_count p.state) p.state now
    some (ms, record p { state = state })

  -- Each round takes an instance from those that wait for promises.
  unfoldable pub try_accept : Evproposer → ℕ → Option (List Message × Evproposer)
  unfolding proposer_preexecute drain proposer_accept
  try_accept p now = do
    (accepts, state) ← drain (proposer_accept kh) (proposer_prepared_count p.state + 1) p.state
    (ms, p') ← proposer_preexecute (record p { state = state }) now
    some (map accept accepts ++ ms, p')

  unfoldable pub evproposer_handle_promise :
      Evproposer → Promise → ℕ → Option (List Message × Evproposer)
  unfolding try_accept proposer_receive_promise
  evproposer_handle_promise p pro now = do
    (preempted, state) ← proposer_receive_promise kh p.state pro now
    (ms, p') ← try_accept (record p { state = state }) now
    some (sent_prepare preempted ++ ms, p')

  unfoldable pub evproposer_handle_accepted :
      Evproposer → Accepted → ℕ → Option (List Message × Evproposer)
  unfolding try_accept proposer_receive_accepted
  evproposer_handle_accepted p acc now = do
    (changed, state) ← proposer_receive_accepted kh p.state acc
    (if changed == 0
        then some ([], record p { state = state })
        else try_accept (record p { state = state }) now)

  unfoldable pub evproposer_handle_preempted :
      Evproposer → Preempted → ℕ → Option (List Message × Evproposer)
  unfolding try_accept proposer_receive_preempted
  evproposer_handle_preempted p msg now = do
    (preempted, state) ← proposer_receive_preempted kh p.state msg now
    let p1 = record p { state = state }
    let more = try_accept p1 now
    (elim preempted [
      | none ↦ some ([], p1)
      | some pr ↦ more >>= λ (ms, p'). some (prepare pr ∷ ms, p')
    ])

  unfoldable pub evproposer_handle_client_value :
      Evproposer → Value → ℕ → Option (List Message × Evproposer)
  unfolding try_accept proposer_propose
  evproposer_handle_client_value p v now =
      try_accept (record p { state = proposer_propose kh p.state v }) now

  unfoldable pub evproposer_handle_acceptor_state : Evproposer → AcceptorState → Evproposer
  unfolding proposer_receive_acceptor_state
  evproposer_handle_acceptor_state p acc_state = record p {
    state = proposer_receive_acceptor_state kh p.state acc_state;
  }

  -- Each loop has a round for every instance, and one for the test that ends it.
  unfoldable pub evproposer_check_timeouts : ℕ → Evproposer → ℕ → Option (List Message × Evproposer)
  unfolding drain timeout_iterator_prepare timeout_iterator_accept proposer_timeout_iterator
  evproposer_check_timeouts timeout p now = do
    (prs, s1) ←
        drain (timeout_iterator_prepare kh timeout) (kh.size p.state.prepare_instances + 1)
          (proposer_timeout_iterator now, p.state)
    (ars, s2) ← drain (timeout_iterator_accept kh timeout) (kh.size p.state.accept_instances + 1) s1
    some (map prepare prs ++ map accept ars, record p { state = s2.1 })

  unfoldable pub evproposer_set_instance_id : Evproposer → ℕ → Evproposer
  unfolding proposer_set_instance_id
  evproposer_set_instance_id p iid = record p { state = proposer_set_instance_id kh p.state iid }

  -- The fields that `evproposer_init_internal` sets.
  unfoldable pub evproposer_new : ℕ → ℕ → ℕ → Evproposer
  unfolding proposer_new
  evproposer_new id window acceptor_count = record {
    id = id;
    preexec_window = window;
    state = proposer_new kh id acceptor_count;
  }

  -- The callbacks of `evproposer_init_internal`.
  unfoldable pub handle_event : ℕ → Evproposer → Event → ℕ → Option (List Message × Evproposer)
  unfolding evproposer_handle_promise evproposer_handle_accepted evproposer_handle_preempted
      evproposer_handle_client_value evproposer_handle_acceptor_state evproposer_check_timeouts
      proposer_preexecute
  handle_event timeout p (got_promise pro) now = evproposer_handle_promise p pro now
  handle_event timeout p (got_accepted acc) now = evproposer_handle_accepted p acc now
  handle_event timeout p (got_preempted msg) now = evproposer_handle_preempted p msg now
  handle_event timeout p (got_client_value v) now = evproposer_handle_client_value p v now
  handle_event timeout p (got_acceptor_state state) now =
      some ([], evproposer_handle_acceptor_state p state)
  handle_event timeout p timer now = evproposer_check_timeouts timeout p now
  handle_event timeout p started now = proposer_preexecute p now
