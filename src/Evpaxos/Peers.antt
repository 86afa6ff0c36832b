-- ===== src/Evpaxos/Peers.antt =====
-- The parts of evpaxos/peers.c that are not socket code: the tables of peers and clients, the subscriptions,
-- and the loop that takes messages from an input buffer. `C` is what a callback and its argument are,
-- `B` a connection. `Peers/Streams.antt` and `Peers/Tables.antt` hold the proofs.
pub mod Streams
pub mod Tables
use libpaxos.Prelude.{
  ℕ, zero, suc, ◌+◌, ◌-◌, Bool, true, false, Option, none, some, List, [], ◌∷◌, ◌++◌, length, take,
  get_elem?, set, ◌==◌, ltb, if◌then◌else◌, ◌>>=◌,
}
use libpaxos.Types.{
  Message, prepare, promise, accept, accepted, preempted, repeat, trim, acceptor_state,
  client_value,
}
use libpaxos.Evpaxos.Msgpack.{Msgpack}
use libpaxos.Evpaxos.Packing.{Recv, nothing, received, fault, recv_paxos_message}

-- enum paxos_message_type
abbrev pub message_type : Message → ℕ
message_type (prepare v) = 0
message_type (promise v) = 1
message_type (accept v) = 2
message_type (accepted v) = 3
message_type (preempted v) = 4
message_type (repeat v) = 5
message_type (trim v) = 6
message_type (acceptor_state v) = 7
message_type (client_value v) = 8

module _ {C : Type 0} where
  -- The 32 places of the array are not checked; no caller comes near.
  unfoldable pub peers_subscribe : List (ℕ × C) → ℕ → C → List (ℕ × C)
  peers_subscribe subs type cb = subs ++ ((type, cb) ∷ [])

  -- The callbacks that run, in order.
  unfoldable pub dispatch_message : List (ℕ × C) → Message → List C
  dispatch_message [] msg = []
  dispatch_message ((type, cb) ∷ subs) msg =
      let rest = dispatch_message subs msg in if type == message_type msg then cb ∷ rest else rest

-- The messages that `on_read` dispatches and what stays in the buffer; or a fault; `stuck` is no
-- outcome of the code: it is fuel that ran out.
pub data Read : Type 0 where
  read : List (Option Message) → List ℕ → Read
  faulted : Read
  stuck : Read

abbrev pub more_read : Option Message → Read → Read
more_read m (read ms rest) = read (m ∷ ms) rest
more_read m faulted = faulted
more_read m stuck = stuck

module _ (mp : Msgpack) where
  unfoldable pub on_read_within : ℕ → List ℕ → Read
  on_read_within zero buffer = stuck
  on_read_within (suc fuel) buffer = elim (recv_paxos_message mp buffer) [
    | nothing ↦ read [] buffer
    | received m rest ↦ more_read m (on_read_within fuel rest)
    | fault ↦ faulted
  ]

  -- A message takes a byte at least.
  unfoldable pub on_read : List ℕ → Read
  unfolding on_read_within
  on_read buffer = on_read_within (length buffer + 1) buffer

-- A peer or a client: its id, whether its status is BEV_EVENT_CONNECTED, and its connection.
pub record Peer (B : Type 0) : Type 0 where
  pub id : ℕ
  pub connected : Bool
  pub bev : B

module _ {B : Type 0} where
  unfoldable pub make_peer : ℕ → B → Peer B
  make_peer id bev = record { id = id; connected = false; bev = bev }

  -- `peers_connect` and `on_accept` put a peer at the end, named after its place.
  unfoldable pub add_peer : List (Peer B) → B → List (Peer B)
  unfolding make_peer
  add_peer peers bev = peers ++ (make_peer (length peers) bev ∷ [])

  -- The loop of `on_client_event` from index `i` on; `none` would be a read behind the array.
  unfoldable pub shift_clients : ℕ → ℕ → List (Peer B) → Option (List (Peer B))
  shift_clients zero i clients = some clients
  shift_clients (suc rounds) i clients = do
    next ← get_elem? clients (i + 1)
    shift_clients rounds (i + 1) (set clients i (record next { id = i }))

  -- `on_client_event` with BEV_EVENT_EOF or BEV_EVENT_ERROR, for the client with the id `id`.
  unfoldable pub remove_client : List (Peer B) → ℕ → Option (List (Peer B))
  unfolding shift_clients
  remove_client clients id = do
    clients' ← shift_clients (length clients - 1 - id) id clients
    some (take (length clients - 1) clients')

  -- The loop of `peers_get_acceptor`, whose condition does not look at `i`: `none` is a read behind the array.
  unfoldable pub find_peer : List (Peer B) → ℕ → Option (Peer B)
  find_peer [] id = none
  find_peer (p ∷ peers) id = let rest = find_peer peers id in if p.id == id then some p else rest

  -- NULL, inside, where there are no peers.
  unfoldable pub peers_get_acceptor : List (Peer B) → ℕ → Option (Option (Peer B))
  unfolding find_peer
  peers_get_acceptor peers id =
      if length peers == 0 then some none else (find_peer peers id >>= λ p. some (some p))
