-- ===== src/Evpaxos/Replicas/Delivery.antt =====
-- An accepted message at a replica: the proposer and the learner together.
use libpaxos.Prelude.{
  ℕ, ◌+◌, ◌<◌, ◌≤◌, ◌≡◌, refl, true, false, some, List, [], ◌∷◌, arith, ltb, Bool-cases, inl, inr,
}
use libpaxos.Types.{Accepted, Message}
use libpaxos.Khash.{Khash}
use libpaxos.Storage.{StorageApi}
use libpaxos.Learner.{Learner}
use libpaxos.Learner.Delivery.{LearnerValid}
use libpaxos.Learner.Gaps.{Gap}
use libpaxos.Learner.Runs.{InOrder}
use libpaxos.Learner.Instances as Learning
use libpaxos.Proposer.Instances as Proposing
use libpaxos.Proposer.{Proposer, proposer_set_instance_id}
use libpaxos.Proposer.Orderly.{Orderly}
use libpaxos.Evpaxos.Learners.{handle_accepted-Drained}
use libpaxos.Evpaxos.Proposers.{evproposer_set_instance_id}
use libpaxos.Evpaxos.Proposers.Handlers.{
  handle_accepted-Handled, evproposer_set_instance_id-Orderly,
}
use libpaxos.Evpaxos.Replicas.{
  Replica, evpaxos_replica_deliver, deliver_all, replica_handle_accepted,
}

module _ (api : StorageApi) (kp : Khash Proposing.Instance) (kl : Khash Learning.Instance)
    (kg : Khash Gap) where
  set_instance_id-next :
      (p : Proposer kp) (iid : ℕ)
      → (iid ≤ (proposer_set_instance_id kp p iid).next_prepare_iid)
        × (p.next_prepare_iid ≤ (proposer_set_instance_id kp p iid).next_prepare_iid)
  unfolding proposer_set_instance_id
  set_instance_id-next p iid = elim (Bool-cases (ltb p.next_prepare_iid iid)) [
    | inl h ↦ rw (h, proposer_set_instance_id) (omega arith, ground arith)
    | inr h ↦ rw (h, proposer_set_instance_id) (ground arith, omega arith)
  ]

  -- The proposer's ids have passed every instance in the list.
  abbrev pub Passed : ℕ → List Accepted → Type 0
  Passed next [] = Unit {0}
  Passed next (acc ∷ accs) = (acc.iid ≤ next) × Passed next accs

  -- What the deliveries leave.
  pub record Delivering (accs : List Accepted) (r r' : Replica api kp kl kg) : Type 0 where
    pub orderly : Orderly kp r'.proposer.state
    pub passed : Passed r'.proposer.state.next_prepare_iid accs
    pub later : r.proposer.state.next_prepare_iid ≤ r'.proposer.state.next_prepare_iid
    pub learner : r'.learner ≡ r.learner
    pub acceptor : r'.acceptor ≡ r.acceptor
    pub peers : r'.peers ≡ r.peers

  deliver_all-Delivering :
      (accs : List Accepted) (r : Replica api kp kl kg)
      → Orderly kp r.proposer.state
      → Delivering accs r (deliver_all api kp kl kg accs r)
  unfolding deliver_all evpaxos_replica_deliver evproposer_set_instance_id
  deliver_all-Delivering [] r o = record {
    orderly = o;
    passed = tt;
    later = omega arith;
    learner = refl;
    acceptor = refl;
    peers = refl;
  }
  deliver_all-Delivering (acc ∷ accs) r o =
      let (reached, later) = set_instance_id-next r.proposer.state acc.iid in
      let d =
        deliver_all-Delivering accs (evpaxos_replica_deliver api kp kl kg r acc.iid)
          (evproposer_set_instance_id-Orderly kp r.proposer acc.iid o) in
      record {
        orderly = d.orderly;
        passed = (omega (arith, d.later), d.passed);
        later = omega (arith, d.later);
        learner = d.learner;
        acceptor = d.acceptor;
        peers = d.peers;
      }

  -- For a replica with an orderly proposer whose ids stay below 2^32 by the width of the window, and a valid
  -- learner that has started, with memory for table entries, an accepted message of a known acceptor
  -- is handled: both handlers return. The instances handed to the application are in order, each
  -- backed by a majority; the learner stays valid and the proposer orderly, and the last id that the
  -- proposer has opened is at least each instance that was delivered; the acceptor does not change.
  pub replica_handle_accepted-Delivering :
      (P : Accepted → Type 0) (r : Replica api kp kl kg) (l : Learner kl kg) (msg : Accepted)
      (now : ℕ)
      → ((t : kp.Table) (k : ℕ) → kp.room t k ≡ true)
      → ((t : kl.Table) (k : ℕ) → kl.room t k ≡ true)
      → r.learner ≡ some l
      → Orderly kp r.proposer.state
      → r.proposer.state.next_prepare_iid + r.proposer.preexec_window < 4294967296
      → msg.aid < r.proposer.state.acceptors
      → P msg
      → LearnerValid kl kg P l
      → l.late_start ≡ false
      → (ms : List Message) × (accs : List Accepted) × (r' : Replica api kp kl kg) × (l' : Learner
          kl kg)
        × (replica_handle_accepted api kp kl kg r msg now ≡ some (ms, accs, r'))
        × (r'.learner ≡ some l')
        × InOrder kl kg P l.acceptors l.current_iid accs
        × LearnerValid kl kg P l'
        × Orderly kp r'.proposer.state
        × Passed r'.proposer.state.next_prepare_iid accs
        × (r'.acceptor ≡ r.acceptor)
  unfolding replica_handle_accepted
  replica_handle_accepted-Delivering P r l msg now room_p room_l has o lt from p v late =
      let (a, e, oa) = handle_accepted-Handled kp r.proposer msg now room_p o lt from in
      let (b, f, d) = handle_accepted-Drained kl kg P l msg room_l p v late in
      let r1 : Replica api kp kl kg = record r { proposer = a.1; learner = some b.1 } in
      let g = deliver_all-Delivering b.0 r1 oa in
      (
        a.0,
        b.0,
        deliver_all api kp kl kg b.0 r1,
        b.1,
        rw (e, replica_handle_accepted) (rw (has, f) refl),
        g.learner,
        d.in_order,
        d.valid,
        g.orderly,
        g.passed,
        g.acceptor,
      )
