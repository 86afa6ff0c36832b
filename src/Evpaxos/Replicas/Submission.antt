-- ===== src/Evpaxos/Replicas/Submission.antt =====
-- Which peer `evpaxos_replica_submit` sends to.
use mathlib.Core.List.{append_assoc}
use libpaxos.Prelude.{
  ℕ, ◌+◌, ◌≡◌, refl, Bool, true, false, some, List, [], ◌∷◌, ◌++◌, arith, length, length-append,
  get_elem?, set, ◌>>=◌, if◌then◌else◌, ap, sym, subst, ◌∙◌,
}
use libpaxos.Types.{Value}
use libpaxos.Evpaxos.Msgpack.{Msgpack}
use libpaxos.Evpaxos.Packing.{paxos_submit}
use libpaxos.Evpaxos.Peers.{Peer, peers_get_acceptor}
use libpaxos.Evpaxos.Peers.Tables.{Numbered, peers_get_acceptor-Numbered}
use libpaxos.Evpaxos.Replicas.{submit_from, evpaxos_replica_submit}

module _ (mp : Msgpack) where
  -- The first peer that is connected gets the value; no other one does.
  abbrev pub to_first_connected : Value → List (Peer (List ℕ)) → List (Peer (List ℕ))
  to_first_connected value [] = []
  to_first_connected value (p ∷ ps) =
      if p.connected
      then record p { bev = paxos_submit mp p.bev value } ∷ ps
      else p ∷ to_first_connected value ps

  get_elem?-middle :
      (before ps : List (Peer (List ℕ))) (p : Peer (List ℕ))
      → get_elem? (before ++ (p ∷ ps)) (length before) ≡ some p
  get_elem?-middle [] ps p = refl
  get_elem?-middle (x ∷ before) ps p = get_elem?-middle before ps p

  set-middle :
      (before ps : List (Peer (List ℕ))) (p q : Peer (List ℕ))
      → set (before ++ (p ∷ ps)) (length before) q ≡ before ++ (q ∷ ps)
  set-middle [] ps p q = refl
  set-middle (x ∷ before) ps p q = ap (◌∷◌ x) (set-middle before ps p q)

  submit_from_lem :
      (before ps : List (Peer (List ℕ))) (value : Value)
      → Numbered 0 (before ++ ps)
      → submit_from mp (length ps) (length before) (before ++ ps) value
        ≡ some (before ++ to_first_connected value ps)
  unfolding submit_from
  submit_from_lem before [] value n = refl
  submit_from_lem before (p ∷ ps) value n =
      let found : peers_get_acceptor (before ++ (p ∷ ps)) (length before) ≡ some (some p) =
        peers_get_acceptor-Numbered (before ++ (p ∷ ps)) (length before) n
          (omega (arith, length-append before (p ∷ ps)))
        ∙ ap (λ o. o >>= λ q. some (some q)) (get_elem?-middle before ps p) in
      let next =
        ap (λ k. submit_from mp (length ps) k (before ++ (p ∷ ps)) value)
          (sym (length-append before (p ∷ [])))
        ∙ ap (λ xs. submit_from mp (length ps) (length (before ++ (p ∷ []))) xs value)
            (sym (append_assoc before (p ∷ []) ps))
        ∙ submit_from_lem (before ++ (p ∷ [])) ps value
            (subst (Numbered 0) (sym (append_assoc before (p ∷ []) ps)) n)
        ∙ ap some (append_assoc before (p ∷ []) (to_first_connected value ps)) in
      rw (found, submit_from) (choose p.connected next)
    where
      gets : Peer (List ℕ)
      gets = record p { bev = paxos_submit mp p.bev value }

      choose :
          (b : Bool)
          → submit_from mp (length ps) (length before + 1) (before ++ (p ∷ ps)) value
            ≡ some (before ++ (p ∷ to_first_connected value ps))
          → (if b
              then some (set (before ++ (p ∷ ps)) (length before) gets)
              else submit_from mp (length ps) (length before + 1) (before ++ (p ∷ ps)) value)
            ≡ some (before ++ (if b then gets ∷ ps else p ∷ to_first_connected value ps))
      choose true next = ap some (set-middle before ps p gets)
      choose false next = next

  -- In a table where each id is the peer's place, `evpaxos_replica_submit` ends without a null pointer or a read
  -- behind the table; the value goes to the first peer that is connected and to no other, and to none
  -- if no peer is connected.
  pub replica_submit-first_connected :
      (peers : List (Peer (List ℕ))) (value : Value)
      → Numbered 0 peers
      → evpaxos_replica_submit mp peers value ≡ some (to_first_connected value peers)
  unfolding evpaxos_replica_submit
  replica_submit-first_connected peers value n = submit_from_lem [] peers value n
