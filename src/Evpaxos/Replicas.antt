-- ===== src/Evpaxos/Replicas.antt =====
-- evpaxos/evreplica.c: an acceptor, a proposer and a learner over one table of peers. A peer's connection
-- is its output buffer. The value that `deliver` gets is part of a result. The allocation of the
-- replica and its sockets are not modelled. `Replicas/Sending.antt` models how a message gets to all
-- acceptors; `Replicas/Delivery.antt` and `Replicas/Submission.antt` hold proofs.
pub mod Delivery
pub mod Submission
pub mod Sending
use libpaxos.Prelude.{
  ℕ, zero, suc, ◌+◌, Bool, true, false, Option, none, some, List, [], ◌∷◌, length, set, ◌>>=◌,
  if◌then◌else◌,
}
use libpaxos.Types.{Value, Accepted, Message, trim}
use libpaxos.Khash.{Khash}
use libpaxos.Storage.{StorageApi}
use libpaxos.Acceptor.{Acceptor}
use libpaxos.Learner.{Learner, learner_set_instance_id}
use libpaxos.Learner.Instances as Learning
use libpaxos.Learner.Gaps.{Gap}
use libpaxos.Proposer.Instances as Proposing
use libpaxos.Evpaxos.Learners.{evlearner_handle_accepted}
use libpaxos.Evpaxos.Proposers.{Evproposer, evproposer_handle_accepted, evproposer_set_instance_id}
use libpaxos.Evpaxos.Msgpack.{Msgpack}
use libpaxos.Evpaxos.Packing.{paxos_submit}
use libpaxos.Evpaxos.Peers.{Peer, peers_get_acceptor}

module _ (api : StorageApi) (kp : Khash Proposing.Instance) (kl : Khash Learning.Instance)
    (kg : Khash Gap) where
  -- `struct evpaxos_replica` but for the application's callback.
  pub record Replica : Type 0 where
    pub peers : List (Peer (List ℕ))
    pub acceptor : Acceptor api
    pub proposer : Evproposer kp
    pub learner : Option (Learner kl kg)

  unfoldable pub evpaxos_replica_deliver : Replica → ℕ → Replica
  unfolding evproposer_set_instance_id
  evpaxos_replica_deliver r iid = record r {
    proposer = evproposer_set_instance_id kp r.proposer iid;
  }

  unfoldable pub deliver_all : List Accepted → Replica → Replica
  unfolding evpaxos_replica_deliver
  deliver_all [] r = r
  deliver_all (acc ∷ accs) r = deliver_all accs (evpaxos_replica_deliver r acc.iid)

  -- Both parts subscribe to PAXOS_ACCEPTED, the proposer first: the messages to the acceptors, and what the application
  -- gets. The learner's loop does not read what `evpaxos_replica_deliver` changes.
  unfoldable pub replica_handle_accepted :
      Replica → Accepted → ℕ → Option (List Message × List Accepted × Replica)
  unfolding evproposer_handle_accepted evlearner_handle_accepted deliver_all
  replica_handle_accepted r msg now = do
    (ms, proposer) ← evproposer_handle_accepted kp r.proposer msg now
    let r1 = record r { proposer = proposer }
    (elim r.learner [
      | none ↦ some (ms, [], r1)
      | some l ↦ evlearner_handle_accepted kl kg l msg >>= λ (accs, l').
          some (ms, accs, deliver_all accs (record r1 { learner = some l' }))
    ])

  unfoldable pub evpaxos_replica_set_instance_id : Replica → ℕ → Replica
  unfolding evproposer_set_instance_id learner_set_instance_id
  evpaxos_replica_set_instance_id r iid = record r {
    learner = elim r.learner [ none ↦ none | some l ↦ some (learner_set_instance_id kl kg l iid) ];
    proposer = evproposer_set_instance_id kp r.proposer iid;
  }

  -- What goes to all acceptors.
  unfoldable pub evpaxos_replica_send_trim : ℕ → Message
  evpaxos_replica_send_trim iid = trim (record { iid = iid })

  unfoldable pub evpaxos_replica_count : Replica → ℕ
  evpaxos_replica_count r = length r.peers

module _ (mp : Msgpack) where
  -- The loop of `evpaxos_replica_submit` from `i` on; `none` is a null pointer, or a read behind the table.
  unfoldable pub submit_from : ℕ → ℕ → List (Peer (List ℕ)) → Value → Option (List (Peer (List ℕ)))
  unfolding peers_get_acceptor paxos_submit
  submit_from zero i peers value = some peers
  submit_from (suc rounds) i peers value = do
    found ← peers_get_acceptor peers i
    p ← found
    let rest = submit_from rounds (i + 1) peers value
    (if p.connected
        then some (set peers i (record p { bev = paxos_submit mp p.bev value }))
        else rest)

  unfoldable pub evpaxos_replica_submit :
      List (Peer (List ℕ)) → Value → Option (List (Peer (List ℕ)))
  unfolding submit_from
  evpaxos_replica_submit peers value = submit_from (length peers) 0 peers value
