-- ===== src/Quorum/Overlap.antt =====
-- Two lists of acceptor ids, each of different ids and together longer than there are acceptors, have an
-- id in common. Used for the promises and the votes of one instance.
use libpaxos.Prelude.{
  ℕ, zero, suc, ◌+◌, ◌≤◌, ◌<◌, ◌≡◌, refl, inl, inr, Bool, true, false, List, [], ◌∷◌, arith, length,
  ◌==◌, if◌then◌else◌, Bool-cases, subst,
}
use libpaxos.Quorum.Majority.{mem, AllBelow}

abbrev pub Distinct : List ℕ → Type 0
Distinct [] = Unit {0}
Distinct (x ∷ xs) = (mem x xs ≡ false) × Distinct xs

-- How many numbers below `n` pass the test.
unfoldable passing : (ℕ → Bool) → ℕ → ℕ
passing f zero = 0
passing f (suc n) = let rest = passing f n in if f n then rest + 1 else rest

passing-le : (f : ℕ → Bool) (n : ℕ) → passing f n ≤ n
unfolding passing
passing-le f zero = omega arith
passing-le f (suc n) = ground (arith, passing-le f n)

passing-meet :
    (f g : ℕ → Bool) (n : ℕ)
    → n < passing f n + passing g n
    → (i : ℕ) × (i < n) × (f i ≡ true) × (g i ≡ true)
unfolding passing
passing-meet f g zero h = absurd (omega arith)
passing-meet f g (suc n) h =
    let later : n < passing f n + passing g n
        → (i : ℕ) × (i < suc n) × (f i ≡ true) × (g i ≡ true) =
      λ k. let (i, lt, p, q) = passing-meet f g n k in (i, omega arith, p, q) in
    elim (Bool-cases (f n)) [
      | inr p ↦ later (ground arith)
      | inl p ↦ elim (Bool-cases (g n)) [
        | inr q ↦ later (ground arith)
        | inl q ↦ (n, omega arith, p, q)
      ]
    ]

-- One more id in the list is one more number that passes.
passing-above :
    (xs : List ℕ) (x n : ℕ) → n ≤ x → passing (λ i. mem i (x ∷ xs)) n ≡ passing (λ i. mem i xs) n
unfolding passing
passing-above xs x zero h = refl
passing-above xs x (suc n) h = ground (arith, passing-above xs x n (omega arith))

passing-cons :
    (xs : List ℕ) (x n : ℕ)
    → x < n
    → mem x xs ≡ false
    → passing (λ i. mem i (x ∷ xs)) n ≡ passing (λ i. mem i xs) n + 1
unfolding passing
passing-cons xs x zero h m = absurd (omega arith)
passing-cons xs x (suc n) h m = elim (Bool-cases (x == n)) [
  | inl e ↦
      let same : x ≡ n = ground arith in
      let absent : mem n xs ≡ false = subst (λ j. mem j xs ≡ false) same m in
      let below = passing-above xs x n (omega arith) in rw (e, absent, below)
  | inr e ↦ let below = passing-cons xs x n (ground arith) m in ground arith
]

passing-mem :
    (xs : List ℕ) (n : ℕ) → Distinct xs → AllBelow n xs → length xs ≤ passing (λ i. mem i xs) n
passing-mem [] n d b = omega arith
passing-mem (x ∷ xs) n d b = omega (arith, passing-cons xs x n b.0 d.0, passing-mem xs n d.1 b.1)

pub Distinct-meet :
    (n : ℕ) (xs ys : List ℕ)
    → Distinct xs
    → Distinct ys
    → AllBelow n xs
    → AllBelow n ys
    → n < length xs + length ys
    → (i : ℕ) × (i < n) × (mem i xs ≡ true) × (mem i ys ≡ true)
Distinct-meet n xs ys dx dy bx by h =
    passing-meet (λ i. mem i xs) (λ i. mem i ys) n
      (omega (arith, passing-mem xs n dx bx, passing-mem ys n dy by))
