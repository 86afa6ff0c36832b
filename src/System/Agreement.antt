-- ===== src/System/Agreement.antt =====
-- Of one instance only one value is ever chosen, and so the learners deliver the same values in the same
-- order.
use mathlib.Core.List.{Memᴰ}
use libpaxos.Prelude.{
  ℕ, zero, suc, ◌+◌, ◌≡◌, refl, ◌<◌, ◌≤◌, inl, inr, true, false, none, List, [], ◌∷◌, ◌∙◌, ◌==◌,
  arith, length, ap, sym, subst, Bool-cases, leb,
}
use libpaxos.Types.{Value, Promise, Accept, Accepted, accepted, promise}
use libpaxos.Quorum.Majority.{mem, AllBelow}
use libpaxos.Quorum.Overlap.{Distinct, Distinct-meet}
use libpaxos.Storage.{StorageApi, StorageLaws}
use libpaxos.Learner.Votes.{Backers, Backed}
use libpaxos.Proposer.Highest.{
  senders, length-senders, senders-AllBelow, sender-Mem, highest-le, highest-from,
}
use libpaxos.System.{System, Start, Reach}
use libpaxos.System.Votes.{Asked, Safe, Inv}
use libpaxos.System.Requests.{Reach-Inv}

abbrev pub voters : List Accepted → List ℕ
voters [] = []
voters (m ∷ ms) = m.aid ∷ voters ms

length-voters : (ms : List Accepted) → length (voters ms) ≡ length ms
length-voters [] = refl
length-voters (m ∷ ms) = omega (arith, length-voters ms)

module _ (P : Accepted → Type 0) where
  voters-above :
      (n iid ballot lo x : ℕ) (bs : List Accepted)
      → x < lo
      → Backers P n iid ballot lo bs
      → mem x (voters bs) ≡ false
  voters-above n iid ballot lo x [] lt h = refl
  voters-above n iid ballot lo x (m ∷ ms) lt h =
      let rest = voters-above n iid ballot (m.aid + 1) x ms (omega arith) h.1 in
      let other : (m.aid == x) ≡ false = ground arith in rw (other, rest) refl

  voters-Distinct :
      (n iid ballot lo : ℕ) (bs : List Accepted)
      → Backers P n iid ballot lo bs
      → Distinct (voters bs) × AllBelow n (voters bs)
  voters-Distinct n iid ballot lo [] h = (tt, tt)
  voters-Distinct n iid ballot lo (m ∷ ms) h =
      let (d, b) = voters-Distinct n iid ballot (m.aid + 1) ms h.1 in
      ((voters-above n iid ballot (m.aid + 1) m.aid ms (omega arith) h.1, d), (h.0.1, b))

  voter-Backers :
      (n iid ballot lo x : ℕ) (bs : List Accepted)
      → Backers P n iid ballot lo bs
      → mem x (voters bs) ≡ true
      → (m : Accepted) × (m.aid ≡ x) × (m.iid ≡ iid) × (m.ballot ≡ ballot) × P m
  voter-Backers n iid ballot lo x [] h e = cc
  voter-Backers n iid ballot lo x (m ∷ ms) h e = elim (Bool-cases (m.aid == x)) [
    | inl same ↦ (m, ground arith, h.0.2, h.0.3, h.0.4)
    | inr other ↦ voter-Backers n iid ballot (m.aid + 1) x ms h.1 (ground arith)
  ]

module _ (api : StorageApi) where
  -- The message is a vote that its acceptor has sent. An acceptor also repeats, under the ballot of a later
  -- promise, what it voted for before; such a message is no vote.
  abbrev pub VotedIn : ℕ → System api → Accepted → Type 0
  VotedIn n s m = (m.aid < n) × Memᴰ (accepted m) (s.nodes m.aid).sent × (m.value_ballot ≡ m.ballot)

module _ (api : StorageApi) (Valid : api.Handle → Type 0) (laws : StorageLaws api Valid) where
  voted_request :
      (n : ℕ) (s : System api) (v : Accepted)
      → Inv api Valid laws n s
      → VotedIn api n s v
      → Asked s.requests v × (0 < v.ballot) × (0 < length v.value)
  voted_request n s v inv (lt, i, vote) =
      let (r, j, a, b, c) = inv.asked v.aid lt v i vote in
      let safe = inv.safe r j in
      (
        (r, j, a, b, c),
        omega (arith, safe.positive),
        omega (arith, safe.filled, ap (λ (x : Value). length x) c),
      )

  -- What a promise behind a request reports, if it is not older than the choice and the earlier requests
  -- carry the chosen value.
  reported :
      (n : ℕ) (s : System api) (v : Accepted) (p : Promise)
      → Inv api Valid laws n s
      → p.aid < n
      → Memᴰ (promise p) (s.nodes p.aid).sent
      → p.iid ≡ v.iid
      → 0 < v.ballot
      → v.ballot ≤ p.value_ballot
      → ((r : Accept)
          → Memᴰ r s.requests
          → r.iid ≡ v.iid
          → r.ballot ≡ p.value_ballot
          → r.value ≡ v.value)
      → p.value ≡ v.value
  reported n s v p inv lt i key pos le before =
      let (_, _, told, _) = (inv.remembers p.aid lt).promises p i in
      elim told [
        | inr (z, _) ↦ absurd (omega arith)
        | inl (m, j, a, b, c, d) ↦
            let (r, k, e, f, g) = inv.asked p.aid lt m j (c ∙ sym b) in
            sym d ∙ sym g ∙ before r k (e ∙ a ∙ key) (f ∙ b)
      ]

  -- A promise of an acceptor that voted for the chosen value.
  meeting_promise :
      (n : ℕ) (s : System api) (v : Accepted) (r : Accept)
      → Inv api Valid laws n s
      → Backed (VotedIn api n s) n v
      → (safe : Safe api n s.nodes r) → r.iid ≡ v.iid
      → v.ballot < r.ballot
      → (p : Promise) × Memᴰ p safe.promises × (v.ballot ≤ p.value_ballot)
  meeting_promise n s v r inv (bs, many, back, _) safe key later =
      let (dv, bv) = voters-Distinct (VotedIn api n s) n v.iid v.ballot 0 bs back in
      let (i, lt, mp, mb) =
        Distinct-meet n (senders safe.promises) (voters bs) safe.distinct dv
          (senders-AllBelow n safe.promises (λ p j. (safe.sent p j).0)) bv
          (omega (arith, length-senders safe.promises, length-voters bs, safe.majority)) in
      let (p, j, e) = sender-Mem i safe.promises mp in
      let (m, f, a, b, (lt', k, vote)) =
        voter-Backers (VotedIn api n s) n v.iid v.ballot 0 i bs back mb in
      let (ltp, c, d, is) = safe.sent p j in
      (
        p,
        j,
        omega (
          arith,
          b,
          (inv.remembers i lt).reports p m (subst (λ x. Memᴰ (promise p) (s.nodes x).sent) e is)
              (subst (λ x. Memᴰ (accepted m) (s.nodes x).sent) f k) vote (a ∙ sym key ∙ sym c)
              (omega (arith, b, d)),
        ),
      )

  request_follows_within :
      (fuel n : ℕ) (s : System api) (v : Accepted) (r : Accept)
      → Inv api Valid laws n s
      → Backed (VotedIn api n s) n v
      → Memᴰ r s.requests
      → r.iid ≡ v.iid
      → v.ballot ≤ r.ballot
      → r.ballot < fuel
      → r.value ≡ v.value
  request_follows_within zero n s v r inv back i key le lt = absurd (omega arith)
  request_follows_within (suc fuel) n s v r inv back i key le lt =
      let (_, _, _, voted) = back in
      let ((r0, j, a, b, c), pos, filled) = voted_request n s v inv voted in
      elim (Bool-cases (r.ballot == v.ballot)) [
        | inl e ↦ inv.unique r r0 i j (key ∙ sym a) (ground arith) ∙ c
        | inr e ↦
            let safe = inv.safe r i in
            let (p, k, above) = meeting_promise n s v r inv back safe key (ground arith) in
            let same : (q : Promise)
                → Memᴰ q safe.promises
                → v.ballot ≤ q.value_ballot
                → q.value ≡ v.value =
              λ q l le'.
                let (x, y, _, z) = safe.sent q l in
                let earlier = safe.earlier q l in
                reported n s v q inv x z (y ∙ key) pos le' (λ r' m f g.
                  request_follows_within fuel n s v r' inv back m f (omega arith) (omega arith)) in
            let low =
              (highest-le none 0 safe.promises).1 p k
                (omega (arith, filled, ap (λ (x : Value). length x) (same p k above))) in
            elim (highest-from none 0 safe.promises) [
              | inl z ↦ absurd (omega (arith, ap (λ x. x.1) z))
              | inr (q, l, _, z) ↦
                  safe.follows q.value (ap (λ x. x.0) z) ∙ same q l (omega (arith, ap (λ x. x.1) z))
            ]
      ]

  -- Acceptors over a storage that meets its laws and may fail, which start empty, and proposers, in any
  -- interleaving that `System.antt` allows: if a majority of the acceptors voted under one ballot for an
  -- instance, and a majority under another or the same, then both voted for the same value.
  pub chosen_agree :
      (n : ℕ) (s t : System api) (v w : Accepted)
      → Start api Valid n s
      → Reach api n s t
      → Backed (VotedIn api n t) n v
      → Backed (VotedIn api n t) n w
      → v.iid ≡ w.iid
      → v.value ≡ w.value
  chosen_agree n s t v w start reach bv bw same =
      let inv = Reach-Inv api Valid laws n s t start reach in
      let (_, _, _, votes_v) = bv in
      let (_, _, _, votes_w) = bw in
      let ((r, i, a, b, c), _, _) = voted_request n t v inv votes_v in
      let ((q, j, d, e, f), _, _) = voted_request n t w inv votes_w in
      elim (Bool-cases (leb v.ballot w.ballot)) [
        | inl le ↦
            sym (
              request_follows_within (suc q.ballot) n t v q inv bv j (d ∙ sym same) (ground arith)
                (omega arith))
            ∙ f
        | inr gt ↦
            sym c
            ∙ request_follows_within (suc r.ballot) n t w r inv bw i (a ∙ same) (ground arith)
                (omega arith)
      ]
