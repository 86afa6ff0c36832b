-- ===== src/Quorum/Majority.antt =====
-- Majorities: what `quorum_reached` tells about the acceptors that were added, and why two majorities
-- of the same acceptors have one in common.
use libpaxos.Prelude.{
  ℕ, zero, suc, ◌+◌, ◌<◌, ◌≡◌, refl, ◌↔◌, inl, inr, ◌≢◌, Bool, true, false, Option, none, some,
  List, [], ◌∷◌, arith, length, get_elem?, replicate, ◌==◌, if◌then◌else◌, Bool-cases, subst, sym,
  ◌∙◌,
}
use libpaxos.Quorum.{Quorum, paxos_quorum, init, add, reached}
use libpaxos.Quorum.Count.{flags_set, Has, IsValid, Added, add-Added, init-IsValid}

-- `quorum_add` for each id in turn.
pub add_all : Quorum → List ℕ → Option Quorum
add_all q [] = some q
add_all q (id ∷ ids) = elim (add q id) [ none ↦ none | some (new, q') ↦ add_all q' ids ]

abbrev pub mem : ℕ → List ℕ → Bool
mem x [] = false
mem x (y ∷ ys) = if y == x then true else mem x ys

-- How many different ids a list has that are not among those seen.
unfoldable pub distinct_from : List ℕ → List ℕ → ℕ
distinct_from seen [] = 0
distinct_from seen (x ∷ xs) =
    let old = distinct_from seen xs in
    let new = distinct_from (x ∷ seen) xs in if mem x seen then old else new + 1

flags_overlap :
    (xs ys : List ℕ)
    → length xs ≡ length ys
    → length xs < flags_set xs + flags_set ys
    → (i : ℕ) × (x : ℕ) × (y : ℕ) × (get_elem? xs i ≡ some x)
      × (get_elem? ys i ≡ some y)
      × (x ≢ 0)
      × (y ≢ 0)
flags_overlap [] [] e h = absurd (omega arith)
flags_overlap [] (y ∷ ys) e h = absurd (omega arith)
flags_overlap (x ∷ xs) [] e h = absurd (omega arith)
flags_overlap (x ∷ xs) (y ∷ ys) e h =
    let later : length xs < flags_set xs + flags_set ys
        → (i : ℕ) × (a : ℕ) × (b : ℕ) × (get_elem? (x ∷ xs) i ≡ some a)
          × (get_elem? (y ∷ ys) i ≡ some b)
          × (a ≢ 0)
          × (b ≢ 0) =
      λ k.
        let (i, a, b, p, q, r, s) = flags_overlap xs ys (omega arith) k in
        (suc i, a, b, p, q, r, s) in
    elim (Bool-cases (x == 0)) [
      | inl p ↦ later (ground arith)
      | inr p ↦ elim (Bool-cases (y == 0)) [
        | inl q ↦ later (ground arith)
        | inr q ↦ (0, x, y, refl, refl, ground arith, ground arith)
      ]
    ]

get_elem?-lt {ℓ} :
    {A : Type ℓ} (xs : List A) (i : ℕ) (x : A) → get_elem? xs i ≡ some x → i < length xs
get_elem?-lt [] i x h = ground arith
get_elem?-lt (y ∷ xs) zero x h = omega arith
get_elem?-lt (y ∷ xs) (suc i) x h = omega (arith, get_elem?-lt xs i x h)

-- If two valid quorums of the same number of acceptors are both reached, some acceptor is in both.
reached-meet :
    (q r : Quorum)
    → IsValid q
    → IsValid r
    → q.acceptors ≡ r.acceptors
    → reached q ≡ true
    → reached r ≡ true
    → (id : ℕ) × (id < q.acceptors) × Has q id × Has r id
unfolding reached paxos_quorum
reached-meet q r v w e hq hr =
    let (i, x, y, p, p', n, n') =
      flags_overlap q.acceptor_ids r.acceptor_ids (omega arith) (ground arith) in
    (
      i,
      omega (arith, get_elem?-lt q.acceptor_ids i x p),
      ground (arith, v.flags i x),
      ground (arith, w.flags i y),
    )

get_elem?-replicate_of_lt : (n i : ℕ) → i < n → get_elem? {A = ℕ} (replicate n 0) i ≡ some 0
get_elem?-replicate_of_lt zero i h = elim h [ ]
get_elem?-replicate_of_lt (suc n) zero h = refl
get_elem?-replicate_of_lt (suc n) (suc i) h = get_elem?-replicate_of_lt n i (omega arith)

-- The flags of `q` are those of the ids in `seen`.
abbrev pub Shows : Quorum → List ℕ → Type 0
Shows q seen =
    (id : ℕ) → id < q.acceptors → (get_elem? q.acceptor_ids id ≡ some 0) ↔ (mem id seen ≡ false)

abbrev pub AllBelow : ℕ → List ℕ → Type 0
AllBelow n [] = Unit {0}
AllBelow n (x ∷ xs) = (x < n) × AllBelow n xs

pub Added-Shows :
    (q q' : Quorum) (id : ℕ) (new : Bool) (seen : List ℕ)
    → IsValid q
    → id < q.acceptors
    → Added q id new q'
    → Shows q seen
    → Shows q' (id ∷ seen)
Added-Shows q q' id new seen v lt a s j h = elim (Bool-cases (id == j)) [
  | inl e ↦ (λ p. ground (arith, a.now), λ p. ground arith)
  | inr e ↦ ground (arith, a.others j, s j)
]

pub Added-Shows_old :
    (q q' : Quorum) (id : ℕ) (new : Bool) (seen : List ℕ)
    → Added q id new q'
    → mem id seen ≡ true
    → Shows q seen
    → Shows q' seen
Added-Shows_old q q' id new seen a m s j h = elim (Bool-cases (id == j)) [
  | inl e ↦ (λ p. ground (arith, a.now), λ p. ground arith)
  | inr e ↦ ground (arith, a.others j, s j, a.size)
]

add_all-count :
    (ids seen : List ℕ) (q : Quorum)
    → IsValid q
    → Shows q seen
    → AllBelow q.acceptors ids
    → (q' : Quorum) × (add_all q ids ≡ some q')
      × IsValid q'
      × (q'.count ≡ q.count + distinct_from seen ids)
      × (q'.acceptors ≡ q.acceptors)
unfolding add_all distinct_from
add_all-count [] seen q v s h = (q, refl, v, omega arith, refl)
add_all-count (id ∷ ids) seen q v s h =
    let (new, q1, e, a) = add-Added q id v h.0 in
    let rest : AllBelow q1.acceptors ids = subst (λ n. AllBelow n ids) (sym a.size) h.1 in
    elim (Bool-cases (mem id seen)) [
      | inl m ↦
          let (q', e', v', c, n) =
            add_all-count ids seen q1 a.valid (Added-Shows_old q q1 id new seen a m s) rest in
          (q', ground arith, v', ground (arith, s id, a.counted, a.fresh), n ∙ a.size)
      | inr m ↦
          let (q', e', v', c, n) =
            add_all-count ids (id ∷ seen) q1 a.valid (Added-Shows q q1 id new seen v h.0 a s)
              rest in
          (q', ground arith, v', ground (arith, s id, a.counted, a.fresh), n ∙ a.size)
    ]

pub init-Shows : (n : ℕ) → Shows (init n) []
unfolding init
init-Shows n id h = (λ _. refl, λ _. get_elem?-replicate_of_lt n id h)

-- Adding ids of existing acceptors to a new quorum never leaves the array, and the quorum is reached
-- exactly when more than half of the acceptors are among the ids, each counted once.
pub add_all-reached :
    (n : ℕ) (ids : List ℕ)
    → AllBelow n ids
    → (q : Quorum) × (add_all (init n) ids ≡ some q)
      × ((reached q ≡ true) ↔ (n < distinct_from [] ids + distinct_from [] ids))
unfolding reached init paxos_quorum
add_all-reached n ids h =
    let (q, e, v, c, m) = add_all-count ids [] (init n) (init-IsValid n) (init-Shows n) h in
    (q, e, ground (arith, v.majority))
