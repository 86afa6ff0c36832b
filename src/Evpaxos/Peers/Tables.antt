-- ===== src/Evpaxos/Peers/Tables.antt =====
-- The tables of peers: an id is the place in the table, also after a client has gone.
use mathlib.Core.List.{append_assoc}
use libpaxos.Prelude.{
  ℕ, zero, suc, ◌+◌, ◌-◌, ◌<◌, ◌≤◌, ◌≡◌, refl, Bool, false, some, List, [], ◌∷◌, ◌++◌, arith,
  length, length-append, take, drop, get_elem?, set, ◌==◌, Bool-cases, inl, inr, ap, sym, subst,
  ◌∙◌, ◌>>=◌,
}
use libpaxos.Evpaxos.Peers.{
  Peer, make_peer, add_peer, shift_clients, remove_client, find_peer, peers_get_acceptor,
}

module _ {B : Type 0} where
  -- The ids are the places, from `i` on.
  abbrev pub Numbered : ℕ → List (Peer B) → Type 0
  Numbered i [] = Unit {0}
  Numbered i (p ∷ ps) = (p.id ≡ i) × Numbered (i + 1) ps

  -- What a peer is but for its id.
  abbrev pub links : List (Peer B) → List (Bool × B)
  links [] = []
  links (p ∷ ps) = (p.connected, p.bev) ∷ links ps

  Numbered-snoc :
      (i : ℕ) (ps : List (Peer B)) (p : Peer B)
      → Numbered i ps
      → p.id ≡ i + length ps
      → Numbered i (ps ++ (p ∷ []))
  Numbered-snoc i [] p n e = (omega arith, tt)
  Numbered-snoc i (q ∷ ps) p n e = (n.0, Numbered-snoc (i + 1) ps p n.1 (omega arith))

  -- The places behind the one that goes, each with the id before.
  abbrev renumbered : ℕ → List (Peer B) → List (Peer B)
  renumbered i [] = []
  renumbered i (p ∷ ps) = record p { id = i } ∷ renumbered (i + 1) ps

  -- What the loop leaves from place `i` on, the last client twice.
  abbrev shifted : ℕ → Peer B → List (Peer B) → List (Peer B)
  shifted i p [] = p ∷ []
  shifted i p (q ∷ qs) = record q { id = i } ∷ shifted (i + 1) q qs

  next_place :
      (before : List (Peer B)) (p q : Peer B) (qs : List (Peer B))
      → get_elem? (before ++ (p ∷ q ∷ qs)) (length before + 1) ≡ some q
  next_place [] p q qs = refl
  next_place (x ∷ before) p q qs =
      ap (get_elem? (x ∷ (before ++ (p ∷ q ∷ qs)))) {x = suc (length before) + 1}
        {y = suc (length before + 1)} (omega arith)
      ∙ next_place before p q qs

  set_place :
      (before : List (Peer B)) (p r : Peer B) (qs : List (Peer B))
      → set (before ++ (p ∷ qs)) (length before) r ≡ (before ++ (r ∷ [])) ++ qs
  set_place [] p r qs = refl
  set_place (x ∷ before) p r qs = ap (◌∷◌ x) (set_place before p r qs)

  shift_clients_lem :
      (qs before : List (Peer B)) (p : Peer B) (i : ℕ)
      → i ≡ length before
      → shift_clients (length qs) i (before ++ (p ∷ qs)) ≡ some (before ++ shifted i p qs)
  unfolding shift_clients
  shift_clients_lem [] before p i e = refl
  shift_clients_lem (q ∷ qs) before p i e =
      let r : Peer B = record q { id = i } in
      ap
        (λ o. o >>= λ next.
          shift_clients (length qs) (i + 1)
            (set (before ++ (p ∷ q ∷ qs)) i (record next { id = i })))
        (ap (λ k. get_elem? (before ++ (p ∷ q ∷ qs)) (k + 1)) e ∙ next_place before p q qs)
      ∙ ap (λ xs. shift_clients (length qs) (i + 1) xs)
          (ap (λ k. set (before ++ (p ∷ q ∷ qs)) k r) e ∙ set_place before p r (q ∷ qs))
      ∙ shift_clients_lem qs (before ++ (r ∷ [])) q (i + 1)
          (omega (arith, length-append before (r ∷ [])))
      ∙ ap some (append_assoc before (r ∷ []) (shifted (i + 1) q qs))

  take-shifted :
      (qs before : List (Peer B)) (p : Peer B) (i : ℕ)
      → take (length before + length qs) (before ++ shifted i p qs) ≡ before ++ renumbered i qs
  take-shifted [] [] p i = refl
  take-shifted (q ∷ qs) [] p i =
      ap (λ k. take k (shifted i p (q ∷ qs))) {x = 0 + suc (length qs)} {y = suc (0 + length qs)}
        (omega arith)
      ∙ ap (◌∷◌ (record q { id = i })) (take-shifted qs [] q (i + 1))
  take-shifted qs (x ∷ before) p i =
      ap (λ k. take k (x ∷ (before ++ shifted i p qs))) {x = suc (length before) + length qs}
        {y = suc (length before + length qs)} (omega arith)
      ∙ ap (◌∷◌ x) (take-shifted qs before p i)

  remove_client_lem :
      (before qs : List (Peer B)) (p : Peer B)
      → remove_client (before ++ (p ∷ qs)) (length before)
        ≡ some (before ++ renumbered (length before) qs)
  unfolding remove_client
  remove_client_lem before qs p =
      let size : length (before ++ (p ∷ qs)) ≡ length before + (length qs + 1) =
        length-append before (p ∷ qs) ∙ omega arith in
      ap
        (λ k. shift_clients k (length before) (before ++ (p ∷ qs)) >>= λ xs.
          some (take (length (before ++ (p ∷ qs)) - 1) xs))
        {y = length qs} (omega (arith, size))
      ∙ ap (λ o. o >>= λ xs. some (take (length (before ++ (p ∷ qs)) - 1) xs))
          (shift_clients_lem qs before p (length before) refl)
      ∙ ap (λ k. some (take k (before ++ shifted (length before) p qs)))
          {y = length before + length qs} (omega (arith, size))
      ∙ ap some (take-shifted qs before p (length before))

  -- A table around a place.
  split_at :
      (i : ℕ) (ps : List (Peer B))
      → i < length ps
      → (before : List (Peer B)) × (p : Peer B) × (qs : List (Peer B)) × (ps ≡ before ++ (p ∷ qs))
        × (length before ≡ i)
  split_at i [] h = elim h [ ]
  split_at zero (p ∷ ps) h = ([], p, ps, refl, refl)
  split_at (suc i) (p ∷ ps) h =
      let (before, q, qs, e, l) = split_at i ps (omega arith) in
      (p ∷ before, q, qs, ap (◌∷◌ p) e, omega arith)

  Numbered-append : (i : ℕ) (ps qs : List (Peer B)) → Numbered i (ps ++ qs) → Numbered i ps
  Numbered-append i [] qs n = tt
  Numbered-append i (p ∷ ps) qs n = (n.0, Numbered-append (i + 1) ps qs n.1)

  Numbered-renumbered :
      (i : ℕ) (ps qs : List (Peer B)) (k : ℕ)
      → k ≡ i + length ps
      → Numbered i ps
      → Numbered i (ps ++ renumbered k qs)
  Numbered-renumbered i [] [] k e n = tt
  Numbered-renumbered i [] (q ∷ qs) k e n =
      (omega arith, Numbered-renumbered (i + 1) [] qs (k + 1) (omega arith) tt)
  Numbered-renumbered i (p ∷ ps) qs k e n =
      (n.0, Numbered-renumbered (i + 1) ps qs k (omega arith) n.1)

  links-renumbered : (qs : List (Peer B)) (k : ℕ) → links (renumbered k qs) ≡ links qs
  links-renumbered [] k = refl
  links-renumbered (q ∷ qs) k = ap (◌∷◌ (q.connected, q.bev)) (links-renumbered qs (k + 1))

  links_without_client :
      (before qs : List (Peer B)) (p : Peer B)
      → links (before ++ renumbered (length before) qs)
        ≡ take (length before) (links (before ++ (p ∷ qs)))
          ++ drop (length before + 1) (links (before ++ (p ∷ qs)))
  links_without_client before qs p = go before (length before)
    where
      go :
          (xs : List (Peer B)) (k : ℕ)
          → links (xs ++ renumbered k qs)
            ≡ take (length xs) (links (xs ++ (p ∷ qs)))
              ++ drop (length xs + 1) (links (xs ++ (p ∷ qs)))
      go [] k = links-renumbered qs k
      go (x ∷ xs) k =
          ap (◌∷◌ (x.connected, x.bev)) (go xs k)
          ∙ ap
              (λ n.
                (x.connected, x.bev)
                ∷ (take (length xs) (links (xs ++ (p ∷ qs)))
                    ++ drop n (links ((x ∷ xs) ++ (p ∷ qs)))))
              {x = suc (length xs + 1)} {y = suc (length xs) + 1} (omega arith)

  -- In a table where each id is the client's place, `on_client_event` for a client that has gone stays within the
  -- array; it removes exactly that client's connection, keeps the order of the others, and each id is
  -- the client's place again.
  pub remove_client-Numbered :
      (clients : List (Peer B)) (id : ℕ)
      → Numbered 0 clients
      → id < length clients
      → (clients' : List (Peer B)) × (remove_client clients id ≡ some clients')
        × Numbered 0 clients'
        × (links clients' ≡ take id (links clients) ++ drop (id + 1) (links clients))
  remove_client-Numbered clients id n lt =
      let (before, p, qs, e, l) = split_at id clients lt in
      (
        before ++ renumbered (length before) qs,
        ap (λ xs. remove_client xs id) e
            ∙ ap (remove_client (before ++ (p ∷ qs))) (sym l)
            ∙ remove_client_lem before qs p,
        Numbered-renumbered 0 before qs (length before) (omega arith)
            (Numbered-append 0 before (p ∷ qs) (subst (Numbered 0) e n)),
        links_without_client before qs p
            ∙ ap
                (λ k.
                  take k (links (before ++ (p ∷ qs))) ++ drop (k + 1) (links (before ++ (p ∷ qs))))
                l
            ∙ ap (λ xs. take id (links xs) ++ drop (id + 1) (links xs)) (sym e),
      )

  pub add_peer-Numbered :
      (peers : List (Peer B)) (bev : B) → Numbered 0 peers → Numbered 0 (add_peer peers bev)
  unfolding add_peer make_peer
  add_peer-Numbered peers bev n =
      Numbered-snoc 0 peers (make_peer (length peers) bev) n (omega arith)

  find_peer-Numbered :
      (i id : ℕ) (ps : List (Peer B))
      → Numbered i ps
      → i ≤ id
      → find_peer ps id ≡ get_elem? ps (id - i)
  unfolding find_peer
  find_peer-Numbered i id [] n le = refl
  find_peer-Numbered i id (p ∷ ps) n le = elim (Bool-cases (p.id == id)) [
    | inl same ↦ rw same (ap (get_elem? (p ∷ ps)) {x = 0} (ground arith))
    | inr other ↦ rw other (
        find_peer-Numbered (i + 1) id ps n.1 (ground arith)
        ∙ ap (get_elem? (p ∷ ps)) {x = suc (id - (i + 1))} (ground arith))
  ]

  -- In a table of at least one peer where each id is the peer's place, `peers_get_acceptor` finds the peer at the
  -- place of the id that it is given, and for an id beyond the table it runs out of the array instead
  -- of returning NULL.
  pub peers_get_acceptor-Numbered :
      (peers : List (Peer B)) (id : ℕ)
      → Numbered 0 peers
      → 0 < length peers
      → peers_get_acceptor peers id ≡ (get_elem? peers id >>= λ p. some (some p))
  unfolding peers_get_acceptor
  peers_get_acceptor-Numbered peers id n pos =
      let some_peers : (length peers == 0) ≡ false = ground arith in
      rw some_peers (
        ap (λ o. o >>= λ p. some (some p))
          (find_peer-Numbered 0 id peers n (omega arith) ∙ ap (get_elem? peers) (omega arith)))
