-- ===== src/Proposer/Highest.antt =====
-- The promises that an instance counts, and the value that it takes over from them.
use mathlib.Core.List.{Memᴰ}
use libpaxos.Prelude.{
  ℕ, ◌≤◌, ◌<◌, ◌≡◌, refl, ◌⊎◌, inl, inr, true, false, ◌&&◌, Option, some, List, [], ◌∷◌, arith,
  length, ltb, ◌==◌, Bool-cases, ap, subst,
}
use libpaxos.Types.{Value, Promise}
use libpaxos.Quorum.Majority.{mem, AllBelow}
use libpaxos.Quorum.Overlap.{Distinct}
use libpaxos.Proposer.Promises.{counted, highest}

abbrev pub senders : List Promise → List ℕ
senders [] = []
senders (p ∷ ps) = p.aid ∷ senders ps

pub counted-Mem :
    (seen : List ℕ) (ps : List Promise) (p : Promise) → Memᴰ p (counted seen ps) → Memᴰ p ps
counted-Mem seen [] p = λ i. elim i [ ]
counted-Mem seen (q ∷ ps) p = elim (Bool-cases (mem q.aid seen)) [
  | inl e ↦ rw e (λ i. Memᴰ.tail (counted-Mem seen ps p i))
  | inr e ↦ rw e (λ i. elim i [
    | Memᴰ.head f ↦ Memᴰ.head f
    | Memᴰ.tail j ↦ Memᴰ.tail (counted-Mem (q.aid ∷ seen) ps p j)
  ])
]

senders-counted :
    (seen : List ℕ) (ps : List Promise) (x : ℕ)
    → mem x seen ≡ true
    → mem x (senders (counted seen ps)) ≡ false
senders-counted seen [] x m = refl
senders-counted seen (p ∷ ps) x m = elim (Bool-cases (mem p.aid seen)) [
  | inl e ↦ rw e (senders-counted seen ps x m)
  | inr e ↦
      let other : (p.aid == x) ≡ false = elim (Bool-cases (p.aid == x)) [
        | inl same ↦
            absurd
              (ground (arith, subst (λ j. mem j seen ≡ false) {x = p.aid} {y = x} (ground arith) e))
        | inr other ↦ other
      ] in
      rw (e, other) (senders-counted (p.aid ∷ seen) ps x (rw other m))
]

-- Each acceptor is counted once.
pub counted-Distinct : (seen : List ℕ) (ps : List Promise) → Distinct (senders (counted seen ps))
counted-Distinct seen [] = tt
counted-Distinct seen (p ∷ ps) = elim (Bool-cases (mem p.aid seen)) [
  | inl e ↦ rw e (counted-Distinct seen ps)
  | inr e ↦
      rw e
        (senders-counted (p.aid ∷ seen) ps p.aid (ground arith), counted-Distinct (p.aid ∷ seen) ps)
]

pub length-senders : (ps : List Promise) → length (senders ps) ≡ length ps
length-senders [] = refl
length-senders (p ∷ ps) = omega (arith, length-senders ps)

pub senders-AllBelow :
    (n : ℕ) (ps : List Promise) → ((p : Promise) → Memᴰ p ps → p.aid < n) → AllBelow n (senders ps)
senders-AllBelow n [] h = tt
senders-AllBelow n (p ∷ ps) h =
    (h p (Memᴰ.head refl), senders-AllBelow n ps (λ q i. h q (Memᴰ.tail i)))

-- The promise of a sender.
pub sender-Mem :
    (x : ℕ) (ps : List Promise)
    → mem x (senders ps) ≡ true
    → (p : Promise) × Memᴰ p ps × (p.aid ≡ x)
sender-Mem x [] = λ m. cc
sender-Mem x (p ∷ ps) = elim (Bool-cases (p.aid == x)) [
  | inl e ↦ λ m. (p, Memᴰ.head refl, ground arith)
  | inr e ↦ rw e (λ m. let (q, i, f) = sender-Mem x ps m in (q, Memᴰ.tail i, f))
]

-- The value taken over is not older than any value that is reported.
pub highest-le :
    (v : Option Value) (b : ℕ) (ps : List Promise)
    → (b ≤ (highest (v, b) ps).1)
      × ((p : Promise) → Memᴰ p ps → 0 < length p.value → p.value_ballot ≤ (highest (v, b) ps).1)
highest-le v b [] = (omega arith, λ p i. elim i [ ])
highest-le v b (q ∷ ps) = elim (Bool-cases (ltb 0 (length q.value) && ltb b q.value_ballot)) [
  | inl e ↦
      let (low, rest) = highest-le (some q.value) q.value_ballot ps in
      rw e (
        ground arith,
        λ p i pos. elim i [
          | Memᴰ.head f ↦ omega (arith, ap (λ (x : Promise). x.value_ballot) f)
          | Memᴰ.tail j ↦ rest p j pos
        ],
      )
  | inr e ↦
      let (low, rest) = highest-le v b ps in
      rw e (
        low,
        λ p i pos. elim i [
          | Memᴰ.head f ↦ ground (
            arith,
            ap (λ (x : Promise). x.value_ballot) f,
            ap (λ (x : Promise). length x.value) f,
          )
          | Memᴰ.tail j ↦ rest p j pos
        ],
      )
]

-- It is the one that the search started from, or one of the promises reports it.
pub highest-from :
    (v : Option Value) (b : ℕ) (ps : List Promise)
    → (highest (v, b) ps ≡ (v, b))
      ⊎ ((p : Promise) × Memᴰ p ps
          × (0 < length p.value)
          × (highest (v, b) ps ≡ (some p.value, p.value_ballot)))
highest-from v b [] = inl refl
highest-from v b (q ∷ ps) = elim (Bool-cases (ltb 0 (length q.value) && ltb b q.value_ballot)) [
  | inl e ↦ rw e (elim (highest-from (some q.value) q.value_ballot ps) [
    | inl f ↦ inr (q, Memᴰ.head refl, ground arith, f)
    | inr (p, i, pos, f) ↦ inr (p, Memᴰ.tail i, pos, f)
  ])
  | inr e ↦ rw e (elim (highest-from v b ps) [
    | inl f ↦ inl f
    | inr (p, i, pos, f) ↦ inr (p, Memᴰ.tail i, pos, f)
  ])
]
