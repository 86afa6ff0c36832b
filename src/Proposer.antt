-- ===== src/Proposer.antt =====
-- paxos/proposer.c: the proposer over its queue of client values and two tables of instances, those that
-- wait for promises and those that wait for accepted messages. A function is `none` where an `assert`
-- fails, memory for a table runs out, or `Proposer/Instances.antt` says so. `Proposer/Timeouts.antt`
-- models the timeout iterators. `Proposer/Ballots.antt`, `Proposer/Promises.antt`, `Proposer/Highest.antt`, `Proposer/Least.antt`,
-- `Proposer/Proposals.antt` and `Proposer/Decisions.antt` hold the proofs about single operations;
-- `Proposer/Orderly.antt`, `Proposer/Accepting.antt`, `Proposer/Receiving.antt` and
-- `Proposer/Returning.antt` those about the invariant of the two tables.
pub mod Instances
pub mod Ballots
pub mod Promises
pub mod Highest
pub mod Least
pub mod Proposals
pub mod Decisions
pub mod Timeouts
pub mod Orderly
pub mod Accepting
pub mod Receiving
pub mod Returning
use libpaxos.Prelude.{
  ℕ, ◌+◌, Bool, true, false, not, ◌&&◌, ◌||◌, Option, none, some, List, [], ◌∷◌, leb, ltb, ◌==◌,
  u32, if◌then◌else◌, ◌>>=◌,
}
use libpaxos.Types.{Value, Prepare, Promise, Accept, Accepted, Preempted, AcceptorState, prepare_of}
use libpaxos.Quorum.{Quorum}
use libpaxos.Quorum
use libpaxos.Carray.{Carray, carray_new, carray_push_back, carray_pop_front}
use libpaxos.Khash.{Khash}
use Instances.{
  Instance, instance_new, instance_has_value, instance_has_promised_value, instance_receive_promise,
  instance_to_accept, proposer_next_ballot, proposer_preempt, same_value,
}

module _ (kh : Khash Instance) where
  open kh use {Table}

  pub record Proposer : Type 0 where
    pub id : ℕ
    pub acceptors : ℕ
    pub values : Carray Value
    pub max_trim_iid : ℕ
    pub next_prepare_iid : ℕ
    pub prepare_instances : Table
    pub accept_instances : Table

  unfoldable pub proposer_new : ℕ → ℕ → Proposer
  proposer_new id acceptors = record {
    id = id;
    acceptors = acceptors;
    max_trim_iid = 0;
    next_prepare_iid = 0;
    values = carray_new 128;
    prepare_instances = kh.init;
    accept_instances = kh.init;
  }

  unfoldable pub proposer_propose : Proposer → Value → Proposer
  proposer_propose p v = record p { values = carray_push_back p.values v }

  -- `kh_put` behind `assert(rv > 0)`: the key must be absent, and memory at hand.
  unfoldable pub put_absent : Table → ℕ → Instance → Option Table
  put_absent t k inst = elim (kh.get t k) [
    | none ↦ if kh.room t k then some (kh.put t k inst) else none
    | some old ↦ none
  ]

  -- `proposer_trim_instances`: the values of the instances that go return to the queue. The walk goes over the buckets
  -- as they were found.
  unfoldable pub trim_entries :
      ℕ → List (ℕ × Instance) → Carray Value → Table → Carray Value × Table
  trim_entries iid [] values t = (values, t)
  trim_entries iid ((k, inst) ∷ es) values t =
      trim_entries iid es
        (if leb inst.iid iid
          then (elim inst.value [ none ↦ values | some v ↦ carray_push_back values v ])
          else values)
        (if leb inst.iid iid then kh.del t k else t)

  unfoldable pub proposer_set_instance_id : Proposer → ℕ → Proposer
  unfolding trim_entries
  proposer_set_instance_id p iid =
      let (values, prepares) =
        trim_entries iid (kh.entries p.prepare_instances) p.values p.prepare_instances in
      let (values', accepts) =
        trim_entries iid (kh.entries p.accept_instances) values p.accept_instances in
      if ltb p.next_prepare_iid iid
      then record p {
        next_prepare_iid = iid;
        values = values';
        prepare_instances = prepares;
        accept_instances = accepts;
      }
      else p

  -- A new instance among those that wait for promises.
  unfoldable pub start_instance : Proposer → ℕ → ℕ → Option (Prepare × Proposer)
  unfolding put_absent instance_new proposer_next_ballot
  start_instance p iid now = do
    inst ← instance_new iid (proposer_next_ballot p.id 0) p.acceptors now
    t ← put_absent p.prepare_instances iid inst
    some (prepare_of inst.iid inst.ballot, record p { prepare_instances = t })

  unfoldable pub proposer_prepare : Proposer → ℕ → Option (Prepare × Proposer)
  unfolding start_instance
  proposer_prepare p now =
      let iid = u32 (p.next_prepare_iid + 1) in
      start_instance (record p { next_prepare_iid = iid }) iid now

  unfoldable pub proposer_prepare_instance : Proposer → ℕ → ℕ → Option (Prepare × Proposer)
  unfolding start_instance proposer_preempt
  proposer_prepare_instance p iid now = elim (kh.get p.prepare_instances iid) [
    | none ↦ start_instance p iid now
    | some inst ↦
        let (out, inst') = proposer_preempt p.id inst now in
        some (out, record p { prepare_instances = kh.write p.prepare_instances iid inst' })
  ]

  unfoldable pub proposer_receive_promise :
      Proposer → Promise → ℕ → Option (Option Prepare × Proposer)
  unfolding instance_receive_promise
  proposer_receive_promise p ack now = elim (kh.get p.prepare_instances ack.iid) [
    | none ↦ some (none, p)
    | some inst ↦ do
      (out, inst') ← instance_receive_promise p.id inst ack now
      some (out, record p { prepare_instances = kh.write p.prepare_instances ack.iid inst' })
  ]

  -- The walk of `proposer_accept` over the buckets.
  unfoldable pub smallest : List (ℕ × Instance) → Option Instance → Option Instance
  smallest [] best = best
  smallest ((k, inst) ∷ es) best =
      smallest es
        (elim best [ none ↦ some inst | some b ↦ if ltb inst.iid b.iid then some inst else some b ])

  -- `proposer_move_instance`: the table that it leaves, the one that it enters, and the instance, whose
  -- quorum is cleared.
  unfoldable pub proposer_move_instance :
      Table → Table → Instance → Option (Table × Table × Instance)
  unfolding put_absent
  proposer_move_instance f t inst = do
    found ← kh.get f inst.iid
    let inst' = record inst { quorum = Quorum.clear inst.quorum }
    t' ← put_absent t inst.iid inst'
    some (kh.del f inst.iid, t', inst')

  -- The instance with a client's value, if it has none, and the queue.
  unfoldable pub take_value : Instance → Carray Value → Instance × Carray Value
  take_value inst values =
      let (v, values') = carray_pop_front values in
      if instance_has_value inst then (inst, values) else (record inst { value = v }, values')

  unfoldable pub propose_instance : Proposer → Instance → Option (Option Accept × Proposer)
  unfolding take_value proposer_move_instance instance_to_accept
  propose_instance p inst =
      let (inst', values) = take_value inst p.values in
      if not (instance_has_value inst') && not (instance_has_promised_value inst')
      then some (none, record p { values = values })
      else do
        (prepares, accepts, inst'') ←
            proposer_move_instance p.prepare_instances p.accept_instances inst'
        out ← instance_to_accept inst''
        some (
          some out,
          record p { values = values; prepare_instances = prepares; accept_instances = accepts },
        )

  unfoldable pub proposer_accept : Proposer → Option (Option Accept × Proposer)
  unfolding propose_instance smallest
  proposer_accept p = elim (smallest (kh.entries p.prepare_instances) none) [
    | none ↦ some (none, p)
    | some inst ↦ if Quorum.reached inst.quorum then propose_instance p inst else some (none, p)
  ]

  -- The value that goes back into the queue when another one was chosen.
  unfoldable pub return_value : Instance → Carray Value → Carray Value
  return_value inst values = elim inst.promised_value [
    | none ↦ values
    | some promised ↦ elim inst.value [
      | none ↦ values
      | some v ↦ if same_value v promised then values else carray_push_back values v
    ]
  ]

  -- The number is what the function returns.
  unfoldable pub proposer_receive_accepted : Proposer → Accepted → Option (ℕ × Proposer)
  unfolding return_value
  proposer_receive_accepted p ack = elim (kh.get p.accept_instances ack.iid) [
    | none ↦ some (0, p)
    | some inst ↦
        if ack.ballot == inst.ballot
        then (do
          (new, quorum) ← Quorum.add inst.quorum ack.aid
          let inst' = record inst { quorum = quorum }
          (if not new
              then some (0, p)
              else if Quorum.reached quorum
              then some (
                2,
                record p {
                  values = return_value inst' p.values;
                  accept_instances = kh.del p.accept_instances ack.iid;
                },
              )
              else some
                  (1, record p { accept_instances = kh.write p.accept_instances ack.iid inst' })))
        else some (0, p)
  ]

  -- The instance goes back to those that wait for promises, under a new ballot.
  unfoldable pub proposer_receive_preempted :
      Proposer → Preempted → ℕ → Option (Option Prepare × Proposer)
  unfolding proposer_move_instance proposer_preempt
  proposer_receive_preempted p ack now = elim (kh.get p.accept_instances ack.iid) [
    | none ↦ some (none, p)
    | some inst ↦
        if ltb inst.ballot ack.ballot
        then (do
          (accepts, prepares, inst') ←
              proposer_move_instance p.accept_instances p.prepare_instances inst
          let moved = proposer_preempt p.id inst' now
          some (
            some moved.0,
            record p {
              accept_instances = accepts;
              prepare_instances = kh.write prepares ack.iid moved.1;
            },
          ))
        else some (none, p)
  ]

  unfoldable pub proposer_receive_acceptor_state : Proposer → AcceptorState → Proposer
  unfolding proposer_set_instance_id
  proposer_receive_acceptor_state p state =
      if ltb p.max_trim_iid state.trim_iid
      then proposer_set_instance_id (record p { max_trim_iid = state.trim_iid }) state.trim_iid
      else p
