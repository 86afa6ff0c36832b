-- ===== src/Tests/Messages.antt =====
-- Two messages over the packing of `Evpaxos/Packing/Plain.antt`, and three clients.
use libpaxos.Prelude.{
  ℕ, ◌+◌, ◌≡◌, refl, false, true, some, List, [], ◌∷◌, ◌++◌, map, arith, take, drop, get_elem?,
}
use libpaxos.Types.{Message, accept, repeat, trim}
use libpaxos.Evpaxos.Packing.{
  msgpack_pack_paxos_message, recv_paxos_message, nothing, received, recv_unpacked,
}
use libpaxos.Evpaxos.Packing.RoundTrip.{recv-pack}
use libpaxos.Evpaxos.Packing.Plain.{plain, plain_laws, read_array, read_fields}
use libpaxos.Evpaxos.Peers.{Peer, read, on_read, remove_client}
use libpaxos.Evpaxos.Replicas.Sending.{broadcast_all, an_accept, a_trim, on_read-broadcast_all}
use libpaxos.Evpaxos.Peers.Streams.{packed, on_read-packed}
use libpaxos.Evpaxos.Peers.Tables.{Numbered, links, remove_client-Numbered}

abbrev accept_9 : Message
accept_9 =
    accept (record { iid = 9; ballot = 12; value_ballot = 12; aid = 2; value = 65 ∷ 66 ∷ [] })

recv-pack_example :
    recv_paxos_message plain (msgpack_pack_paxos_message plain accept_9 ++ (2 ∷ []))
    ≡ received (some accept_9) (2 ∷ [])
recv-pack_example =
    recv-pack plain plain_laws accept_9 (2 ∷ [])
      (omega arith, omega arith, omega arith, omega arith, omega arith)

abbrev two_messages : List Message
two_messages = accept_9 ∷ repeat (record { from = 3; to = 8 }) ∷ []

-- The start of an array of two elements.
half_a_message : recv_paxos_message plain (2 ∷ 0 ∷ []) ≡ nothing
unfolding recv_paxos_message recv_unpacked read_array read_fields
half_a_message = refl

on_read-packed_example :
    on_read plain (packed plain two_messages ++ (2 ∷ 0 ∷ []))
    ≡ read (map some two_messages) (2 ∷ 0 ∷ [])
on_read-packed_example =
    on_read-packed plain plain_laws two_messages (2 ∷ 0 ∷ [])
      (
        (omega arith, omega arith, omega arith, omega arith, omega arith),
        ((omega arith, omega arith), tt),
      )
      half_a_message

abbrev clients : List (Peer ℕ)
clients =
    record { id = 0; connected = false; bev = 50 }
    ∷ record { id = 1; connected = false; bev = 51 }
    ∷ record { id = 2; connected = false; bev = 52 }
    ∷ []

remove_client-Numbered_example :
    (clients' : List (Peer ℕ)) × (remove_client clients 1 ≡ some clients')
    × Numbered 0 clients'
    × (links clients' ≡ take 1 (links clients) ++ drop (1 + 1) (links clients))
remove_client-Numbered_example =
    remove_client-Numbered clients 1 (refl, (refl, (refl, tt))) (omega arith)

-- Three connections with empty buffers.
abbrev idle : List (Peer (List ℕ))
idle =
    record { id = 0; connected = true; bev = [] }
    ∷ record { id = 1; connected = true; bev = [] }
    ∷ record { id = 2; connected = true; bev = [] }
    ∷ []

abbrev sent : List Message
sent = accept_9 ∷ trim (record { iid = 3 }) ∷ []

abbrev last_idle : Peer (List ℕ)
last_idle = record { id = 2; connected = true; bev = [] }

on_read-broadcast_all_example :
    (p' : Peer (List ℕ)) × (get_elem? (broadcast_all plain sent idle) 2 ≡ some p')
    × (on_read plain p'.bev ≡ read (map some sent) [])
on_read-broadcast_all_example =
    on_read-broadcast_all plain plain_laws sent idle 2 last_idle
      ((omega arith, omega arith, omega arith, omega arith, omega arith), (omega arith, tt))
      (an_accept _, (a_trim _, tt)) refl refl
