-- ===== src/Evpaxos/Proposers/Handlers.antt =====
-- Whatever message or timer the event loop hands to the proposer, its handler returns.
use libpaxos.Prelude.{
  ℕ, ◌+◌, ◌<◌, ◌≡◌, refl, Option, none, some, List, [], ◌∷◌, ◌++◌, arith, ◌==◌, ap, sym, ◌∙◌,
  Bool-cases, inl, inr,
}
use libpaxos.Types.{Prepare, Promise, Accepted, Preempted, Message, prepare}
use libpaxos.Khash.{Khash}
use libpaxos.Carray.{carray_push_back}
use libpaxos.Proposer.Instances.{Instance}
use libpaxos.Proposer.{Proposer, proposer_propose, proposer_new, proposer_receive_preempted}
use libpaxos.Proposer.Orderly.{Orderly, Room}
use libpaxos.Proposer.Accepting.{Continues, values-Orderly}
use libpaxos.Proposer.Receiving.{receive_promise-Continues, receive_accepted-Continues}
use libpaxos.Proposer.Returning.{
  receive_preempted-Continues, set_instance_id-Orderly, receive_acceptor_state-Orderly,
}
use libpaxos.Evpaxos.Proposers.{
  Evproposer, sent_prepare, Event, got_promise, got_accepted, got_preempted, got_client_value,
  got_acceptor_state, timer, started, try_accept, evproposer_handle_promise,
  evproposer_handle_accepted, evproposer_handle_preempted, evproposer_handle_client_value,
  evproposer_handle_acceptor_state, evproposer_set_instance_id, evproposer_new, handle_event,
}
use libpaxos.Evpaxos.Proposers.Window.{preexecute-Settled, try_accept-Settled}
use libpaxos.Evpaxos.Proposers.Timers.{check_timeouts-Renewed}

-- The acceptor that a message names is one of `n`.
abbrev pub FromAcceptor : ℕ → Event → Type 0
FromAcceptor n (got_promise pro) = pro.aid < n
FromAcceptor n (got_accepted acc) = acc.aid < n
FromAcceptor n _ = Unit {0}

module _ (kh : Khash Instance) where
  -- There is a result, and its proposer is orderly.
  abbrev pub Handled : Option (List Message × Evproposer kh) → Type 0
  Handled o = (r : List Message × Evproposer kh) × (o ≡ some r) × Orderly kh r.1.state

  settled :
      (p : Evproposer kh) (q : Proposer kh) (now : ℕ)
      → Room kh
      → p.state.next_prepare_iid + p.preexec_window < 4294967296
      → Continues kh p.state q
      → Handled (try_accept kh (record p { state = q }) now)
  settled p q now room lt c =
      let (r, e, s) =
        try_accept-Settled kh (record p { state = q }) now room c.orderly (omega (arith, c.next)) in
      (r, e, s.orderly)

  handle_promise-Handled :
      (p : Evproposer kh) (pro : Promise) (now : ℕ)
      → Room kh
      → Orderly kh p.state
      → p.state.next_prepare_iid + p.preexec_window < 4294967296
      → pro.aid < p.state.acceptors
      → Handled (evproposer_handle_promise kh p pro now)
  unfolding evproposer_handle_promise
  handle_promise-Handled p pro now room o lt from =
      let (a, e, c) = receive_promise-Continues kh p.state pro now o from in
      let (r, f, s) = settled p a.1 now room lt c in
      ((sent_prepare a.0 ++ r.0, r.1), rw (e, evproposer_handle_promise) (rw f refl), s)

  pub handle_accepted-Handled :
      (p : Evproposer kh) (acc : Accepted) (now : ℕ)
      → Room kh
      → Orderly kh p.state
      → p.state.next_prepare_iid + p.preexec_window < 4294967296
      → acc.aid < p.state.acceptors
      → Handled (evproposer_handle_accepted kh p acc now)
  unfolding evproposer_handle_accepted
  handle_accepted-Handled p acc now room o lt from =
      let (a, e, c) = receive_accepted-Continues kh p.state acc o from in
      elim (Bool-cases (a.0 == 0)) [
        | inl same ↦ (
          ([], record p { state = a.1 }),
          rw (e, evproposer_handle_accepted) (rw same refl),
          c.orderly,
        )
        | inr changed ↦
            let (r, f, s) = settled p a.1 now room lt c in
            (r, rw (e, evproposer_handle_accepted) (rw changed f), s)
      ]

  handle_preempted-Handled :
      (p : Evproposer kh) (msg : Preempted) (now : ℕ)
      → Room kh
      → Orderly kh p.state
      → p.state.next_prepare_iid + p.preexec_window < 4294967296
      → Handled (evproposer_handle_preempted kh p msg now)
  unfolding evproposer_handle_preempted
  handle_preempted-Handled p msg now room o lt =
      let (a, e, c) = receive_preempted-Continues kh p.state msg now room o in go a e c
    where
      go :
          (a : Option Prepare × Proposer kh)
          → proposer_receive_preempted kh p.state msg now ≡ some a
          → Continues kh p.state a.1
          → Handled (evproposer_handle_preempted kh p msg now)
      go (none, q) e c =
          (([], record p { state = q }), rw (e, evproposer_handle_preempted) refl, c.orderly)
      go (some pr, q) e c =
          let (r, f, s) = settled p q now room lt c in
          ((prepare pr ∷ r.0, r.1), rw (e, evproposer_handle_preempted) (rw f refl), s)

  -- A new proposer is orderly.
  pub evproposer_new-Orderly :
      (id window acceptors : ℕ) → Orderly kh (evproposer_new kh id window acceptors).state
  unfolding evproposer_new proposer_new
  evproposer_new-Orderly id window acceptors = record {
    prepares = λ k v e. absurd (cc (ap (λ m. m k) (sym kh.get-init) ∙ e));
    accepts = λ k v e. absurd (cc (ap (λ m. m k) (sym kh.get-init) ∙ e));
    apart = λ k v e. ap (λ m. m k) kh.get-init;
    proposable = λ k v e. absurd (cc (ap (λ m. m k) (sym kh.get-init) ∙ e));
  }

  pub evproposer_set_instance_id-Orderly :
      (p : Evproposer kh) (iid : ℕ)
      → Orderly kh p.state
      → Orderly kh (evproposer_set_instance_id kh p iid).state
  unfolding evproposer_set_instance_id
  evproposer_set_instance_id-Orderly p iid o = set_instance_id-Orderly kh p.state iid o

  -- In an orderly proposer, with a timeout above 0, memory for table entries, and ids that stay below 2^32 by the
  -- width of the window, the handler of every event from a known acceptor returns: its loops end, no
  -- assertion fails, and no flag outside a quorum's array is read. It leaves an orderly proposer.
  pub handle_event-Orderly :
      (timeout : ℕ) (p : Evproposer kh) (event : Event) (now : ℕ)
      → Room kh
      → 0 < timeout
      → FromAcceptor p.state.acceptors event
      → p.state.next_prepare_iid + p.preexec_window < 4294967296
      → Orderly kh p.state
      → Handled (handle_event kh timeout p event now)
  unfolding handle_event evproposer_handle_client_value evproposer_handle_acceptor_state
      proposer_propose
  handle_event-Orderly timeout p (got_promise pro) now room pos from lt o =
      handle_promise-Handled p pro now room o lt from
  handle_event-Orderly timeout p (got_accepted acc) now room pos from lt o =
      handle_accepted-Handled p acc now room o lt from
  handle_event-Orderly timeout p (got_preempted msg) now room pos from lt o =
      handle_preempted-Handled p msg now room o lt
  handle_event-Orderly timeout p (got_client_value v) now room pos from lt o =
      settled p (record p.state { values = carray_push_back p.state.values v }) now room lt
        (record { orderly = values-Orderly kh p.state _ o; next = refl })
  handle_event-Orderly timeout p (got_acceptor_state state) now room pos from lt o = (
    ([], evproposer_handle_acceptor_state kh p state),
    refl,
    receive_acceptor_state-Orderly kh p.state state o,
  )
  handle_event-Orderly timeout p timer now room pos from lt o =
      let (r, e, w) = check_timeouts-Renewed kh timeout now p pos o in (r, e, w.orderly)
  handle_event-Orderly timeout p started now room pos from lt o =
      let (r, e, s) = preexecute-Settled kh p now room o lt in (r, e, s.orderly)
