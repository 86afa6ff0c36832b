-- ===== src/Evpaxos/Replicas/Sending.antt =====
-- `peers_foreach_acceptor` with the callbacks of evpaxos/evproposer.c and evpaxos/evreplica.c: the messages that a
-- handler sends, as bytes in the output buffers of the connections.
use mathlib.Core.List.{append_assoc, append-nil}
use libpaxos.Prelude.{
  ℕ, zero, suc, ◌≡◌, refl, none, some, List, [], ◌∷◌, ◌++◌, map, get_elem?, ap, sym, ◌∙◌,
}
use libpaxos.Types.{Prepare, Accept, Trim, Message, prepare, accept, trim}
use libpaxos.Evpaxos.Msgpack.{Msgpack, MsgpackLaws}
use libpaxos.Evpaxos.Packing.{
  msgpack_pack_paxos_message, recv_paxos_message, send_paxos_message, send_paxos_prepare,
  send_paxos_accept, send_paxos_trim,
}
use libpaxos.Evpaxos.Peers.{Peer, read, on_read}
use libpaxos.Evpaxos.Peers.Streams.{AllFit, packed, on_read-packed}

-- The callback is called for one peer after the other.
unfoldable pub peers_foreach_acceptor :
    {B : Type 0} → List (Peer B) → (Peer B → Peer B) → List (Peer B)
peers_foreach_acceptor [] cb = []
peers_foreach_acceptor (p ∷ peers) cb = cb p ∷ peers_foreach_acceptor peers cb

module _ (mp : Msgpack) where
  unfoldable pub peer_send_prepare : Prepare → Peer (List ℕ) → Peer (List ℕ)
  unfolding send_paxos_prepare
  peer_send_prepare pr p = record p { bev = send_paxos_prepare mp p.bev pr }

  unfoldable pub peer_send_accept : Accept → Peer (List ℕ) → Peer (List ℕ)
  unfolding send_paxos_accept
  peer_send_accept ar p = record p { bev = send_paxos_accept mp p.bev ar }

  unfoldable pub peer_send_trim : Trim → Peer (List ℕ) → Peer (List ℕ)
  unfolding send_paxos_trim
  peer_send_trim tr p = record p { bev = send_paxos_trim mp p.bev tr }

  -- What a proposer or a replica sends to all acceptors: prepares, accepts and trims.
  unfoldable pub broadcast : Message → List (Peer (List ℕ)) → List (Peer (List ℕ))
  unfolding peers_foreach_acceptor peer_send_prepare peer_send_accept peer_send_trim
      send_paxos_message
  broadcast (prepare pr) peers = peers_foreach_acceptor peers (peer_send_prepare pr)
  broadcast (accept ar) peers = peers_foreach_acceptor peers (peer_send_accept ar)
  broadcast (trim tr) peers = peers_foreach_acceptor peers (peer_send_trim tr)
  broadcast _ peers = peers

  unfoldable pub broadcast_all : List Message → List (Peer (List ℕ)) → List (Peer (List ℕ))
  unfolding broadcast
  broadcast_all [] peers = peers
  broadcast_all (m ∷ ms) peers = broadcast_all ms (broadcast m peers)

  -- The messages that go to all acceptors.
  pub data Broadcast : Message → Type 0 where
    a_prepare : (pr : Prepare) → Broadcast (prepare pr)
    an_accept : (ar : Accept) → Broadcast (accept ar)
    a_trim : (tr : Trim) → Broadcast (trim tr)

  abbrev pub AllBroadcast : List Message → Type 0
  AllBroadcast [] = Unit {0}
  AllBroadcast (m ∷ ms) = Broadcast m × AllBroadcast ms

  -- Every connection with the same bytes at its end.
  abbrev appended : List ℕ → List (Peer (List ℕ)) → List (Peer (List ℕ))
  appended bytes [] = []
  appended bytes (p ∷ peers) = record p { bev = p.bev ++ bytes } ∷ appended bytes peers

  broadcast_lem :
      (m : Message) (peers : List (Peer (List ℕ)))
      → Broadcast m
      → broadcast m peers ≡ appended (msgpack_pack_paxos_message mp m) peers
  unfolding broadcast peers_foreach_acceptor peer_send_prepare peer_send_accept peer_send_trim
      send_paxos_prepare send_paxos_accept send_paxos_trim send_paxos_message
  broadcast_lem m [] (a_prepare pr) = refl
  broadcast_lem m [] (an_accept ar) = refl
  broadcast_lem m [] (a_trim tr) = refl
  broadcast_lem m (p ∷ peers) (a_prepare pr) =
      ap (◌∷◌ (record p { bev = p.bev ++ msgpack_pack_paxos_message mp (prepare pr) }))
        (broadcast_lem (prepare pr) peers (a_prepare pr))
  broadcast_lem m (p ∷ peers) (an_accept ar) =
      ap (◌∷◌ (record p { bev = p.bev ++ msgpack_pack_paxos_message mp (accept ar) }))
        (broadcast_lem (accept ar) peers (an_accept ar))
  broadcast_lem m (p ∷ peers) (a_trim tr) =
      ap (◌∷◌ (record p { bev = p.bev ++ msgpack_pack_paxos_message mp (trim tr) }))
        (broadcast_lem (trim tr) peers (a_trim tr))

  appended_nil : (peers : List (Peer (List ℕ))) → appended [] peers ≡ peers
  appended_nil [] = refl
  appended_nil (p ∷ peers) =
      ap (λ bytes. record p { bev = bytes } ∷ appended [] peers) (append-nil p.bev)
      ∙ ap (◌∷◌ p) (appended_nil peers)

  appended_twice :
      (xs ys : List ℕ) (peers : List (Peer (List ℕ)))
      → appended ys (appended xs peers) ≡ appended (xs ++ ys) peers
  appended_twice xs ys [] = refl
  appended_twice xs ys (p ∷ peers) =
      ap (λ bytes. record p { bev = bytes } ∷ appended ys (appended xs peers))
        (append_assoc p.bev xs ys)
      ∙ ap (◌∷◌ (record p { bev = p.bev ++ (xs ++ ys) })) (appended_twice xs ys peers)

  broadcast_all_lem :
      (ms : List Message) (peers : List (Peer (List ℕ)))
      → AllBroadcast ms
      → broadcast_all ms peers ≡ appended (packed mp ms) peers
  unfolding broadcast_all
  broadcast_all_lem [] peers h = sym (appended_nil peers)
  broadcast_all_lem (m ∷ ms) peers h =
      ap (broadcast_all ms) (broadcast_lem m peers h.0)
      ∙ broadcast_all_lem ms (appended (msgpack_pack_paxos_message mp m) peers) h.1
      ∙ appended_twice (msgpack_pack_paxos_message mp m) (packed mp ms) peers

  appended_at :
      (bytes : List ℕ) (peers : List (Peer (List ℕ))) (i : ℕ) (p : Peer (List ℕ))
      → get_elem? peers i ≡ some p
      → get_elem? (appended bytes peers) i ≡ some (record p { bev = p.bev ++ bytes })
  appended_at bytes [] i p e = absurd (cc e)
  appended_at bytes (q ∷ peers) zero p e =
      ap (λ o. elim o [ none ↦ none | some x ↦ some (record x { bev = x.bev ++ bytes }) ]) e
  appended_at bytes (q ∷ peers) (suc i) p e = appended_at bytes peers i p e

module _ (mp : Msgpack) (laws : MsgpackLaws mp) where
  -- When prepares, accepts and trims with fields of the widths of their types go out to all acceptors, then at
  -- every peer whose output buffer was empty, the receiver's `on_read` dispatches exactly these
  -- messages, in their order.
  pub on_read-broadcast_all :
      (ms : List Message) (peers : List (Peer (List ℕ))) (i : ℕ) (p : Peer (List ℕ))
      → AllFit ms
      → AllBroadcast mp ms
      → get_elem? peers i ≡ some p
      → p.bev ≡ []
      → (p' : Peer (List ℕ)) × (get_elem? (broadcast_all mp ms peers) i ≡ some p')
        × (on_read mp p'.bev ≡ read (map some ms) [])
  on_read-broadcast_all ms peers i p fit b e empty = (
    record p { bev = p.bev ++ packed mp ms },
    ap (λ ps. get_elem? ps i) (broadcast_all_lem mp ms peers b)
        ∙ appended_at mp (packed mp ms) peers i p e,
    ap (λ bytes. on_read mp (bytes ++ packed mp ms)) empty
        ∙ ap (on_read mp) (sym (append-nil (packed mp ms)))
        ∙ on_read-packed mp laws ms [] fit (unfold recv_paxos_message in refl),
  )
