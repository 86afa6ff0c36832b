-- ===== src/Carray/Cells.antt =====
-- The cells that a circular array holds: from `head` on, going round at `size`.
use native.Mathlib.Nat.{mod-add-mod, mod-eq_of_lt, mod-eq-sub-mod, mod-lt}
use mathlib.Core.Path.{ap₂}
use libpaxos.Prelude.{
  ℕ, zero, suc, ◌+◌, ◌-◌, ◌%◌, ◌<◌, ◌≤◌, ◌≡◌, ◌≢◌, refl, sym, ap, ◌⊎◌, ◌∙◌, subst, false, inl, inr,
  Option, none, some, List, [], ◌∷◌, ◌++◌, arith, length, length-set, get_elem?-set_self,
  get_elem?-set_ne, set, ltb, Bool-cases,
}
use libpaxos.Carray.{Carray, cell, store_back}

-- A place behind `h` is the sum, or the sum less one round.
around :
    (h s k : ℕ)
    → h < s
    → k < s
    → ((h + k < s) × ((h + k) % s ≡ h + k)) ⊎ ((s ≤ h + k) × ((h + k) % s ≡ h + k - s))
around h s k hh hk = elim (Bool-cases (ltb (h + k) s)) [
  | inl p ↦ inl (ground arith, mod-eq_of_lt (ground arith))
  | inr p ↦ inr (
    ground arith,
    mod-eq-sub-mod (ground arith) ∙ mod-eq_of_lt (omega (arith, not_ltb (h + k) s p)),
  )
]
  where
    not_ltb : (a b : ℕ) → ltb a b ≡ false → b ≤ a
    not_ltb a b e = ground arith

-- Different places less than a round apart are different cells.
place-ne : (h s i j : ℕ) → h < s → i < j → j < s → (h + i) % s ≢ (h + j) % s
place-ne h s i j hh hij hj e = ground (arith, around h s i hh (omega arith), around h s j hh hj)

module _ {ℓ} {A : Type ℓ} where
  pub record IsValid (a : Carray A) : Type ℓ where
    pub sized : length a.array ≡ a.size
    pub some_room : 0 < a.size
    pub head_in : a.head < a.size
    pub count_in : a.count ≤ a.size
    pub tail_at : a.tail ≡ (a.head + a.count) % a.size

  -- The `n` cells of an array from the `i`-th behind `head` on.
  abbrev pub cells : List (Option A) → ℕ → ℕ → ℕ → ℕ → List (Option A)
  cells array size head i zero = []
  cells array size head i (suc n) = cell array ((head + i) % size) ∷ cells array size head (i + 1) n

  -- What the array holds, oldest first.
  abbrev pub contents : Carray A → List (Option A)
  contents a = cells a.array a.size a.head 0 a.count

  pub cells-set :
      (array : List (Option A)) (s h i n j : ℕ) (p : Option A)
      → h < s
      → i + n ≤ j
      → j < s
      → cells (set array ((h + j) % s) p) s h i n ≡ cells array s h i n
  cells-set array s h i zero j p hh hi hj = refl
  cells-set array s h i (suc n) j p hh hi hj =
      ap₂ ◌∷◌
        (ap (λ o. elim o [ none ↦ none | some q ↦ q ])
          (get_elem?-set_ne array p (λ e. place-ne h s i j hh (omega arith) hj (sym e))))
        (cells-set array s h (i + 1) n j p hh (omega arith) hj)

  pub cells-snoc :
      (array : List (Option A)) (s h i n : ℕ)
      → cells array s h i (suc n) ≡ cells array s h i n ++ (cell array ((h + (i + n)) % s) ∷ [])
  cells-snoc array s h i zero = ap (λ k. cell array ((h + k) % s) ∷ []) (omega arith)
  cells-snoc array s h i (suc n) = ap (◌∷◌ (cell array ((h + i) % s))) (
      cells-snoc array s h (i + 1) n
      ∙ ap (λ k. cells array s h (i + 1) n ++ (cell array ((h + k) % s) ∷ [])) (omega arith))

  pub cells-head :
      (array : List (Option A)) (s h i n : ℕ)
      → cells array s ((h + 1) % s) i n ≡ cells array s h (i + 1) n
  cells-head array s h i zero = refl
  cells-head array s h i (suc n) =
      ap₂ ◌∷◌ (ap (cell array) (mod-add-mod (h + 1) s i ∙ ap (λ k. k % s) (omega arith)))
        (cells-head array s h (i + 1) n)

  pub cell-set_self :
      (array : List (Option A)) (i : ℕ) (p : Option A)
      → i < length array
      → cell (set array i p) i ≡ p
  cell-set_self array i p h =
      ap (λ o. elim o [ none ↦ none | some q ↦ q ]) (get_elem?-set_self array i p h)

  -- Where there is room, storing adds one cell at the end.
  pub store_back-IsValid :
      (a : Carray A) (p : Option A)
      → IsValid a
      → a.count < a.size
      → IsValid (store_back a p) × (contents (store_back a p) ≡ contents a ++ (p ∷ []))
  unfolding store_back
  store_back-IsValid a p v room = (
    record {
      sized = length-set a.array a.tail p ∙ v.sized;
      some_room = v.some_room;
      head_in = v.head_in;
      count_in = omega arith;
      tail_at =
          rw v.tail_at
            (mod-add-mod (a.head + a.count) a.size 1 ∙ ap (λ k. k % a.size) (omega arith));
    },
    ap (λ t. cells (set a.array t p) a.size a.head 0 (a.count + 1)) v.tail_at
        ∙ ap (λ k. cells (set a.array place p) a.size a.head 0 k) {y = suc a.count} (omega arith)
        ∙ cells-snoc (set a.array place p) a.size a.head 0 a.count
        ∙ ap₂ (λ xs x. xs ++ (x ∷ []))
            (cells-set a.array a.size a.head 0 a.count a.count p v.head_in (omega arith) room)
            (ap (cell (set a.array place p)) (ap (λ k. (a.head + k) % a.size) (omega arith))
              ∙ cell-set_self a.array place p
                  (subst (λ n. place < n) (sym v.sized) (mod-lt (a.head + a.count) v.some_room))),
  )
    where
      place : ℕ
      place = (a.head + a.count) % a.size

  pub stored_same :
      (a : Carray A) (p : Option A)
      → ((store_back a p).size ≡ a.size)
        × ((store_back a p).head ≡ a.head)
        × ((store_back a p).count ≡ a.count + 1)
  unfolding store_back
  stored_same a p = (refl, refl, refl)
