-- ===== src/Learner/Agreeing.antt =====
-- What the loop of `instance_has_quorum` counts, and the slot that it remembers.
use libpaxos.Prelude.{
  ℕ, suc, ◌+◌, ◌≡◌, refl, ◌⊎◌, inl, inr, Option, none, some, List, [], ◌∷◌, ◌∙◌, arith, length,
  ◌==◌, get_elem?, if◌then◌else◌, Bool-cases,
}
use libpaxos.Types.{Accepted}
use libpaxos.Learner.Instances.{count_agreeing}

-- The messages in the slots that carry a ballot.
abbrev pub agreeing : ℕ → List (Option Accepted) → List Accepted
agreeing ballot [] = []
agreeing ballot (none ∷ acks) = agreeing ballot acks
agreeing ballot (some a ∷ acks) =
    if a.ballot == ballot then a ∷ agreeing ballot acks else agreeing ballot acks

pub count_agreeing-length :
    (ballot : ℕ) (acks : List (Option Accepted)) (i count : ℕ) (idx : Option ℕ)
    → (count_agreeing ballot acks i count idx).0 ≡ count + length (agreeing ballot acks)
unfolding count_agreeing
count_agreeing-length ballot [] i count idx = omega arith
count_agreeing-length ballot (none ∷ acks) i count idx =
    count_agreeing-length ballot acks (i + 1) count idx
count_agreeing-length ballot (some a ∷ acks) i count idx =
    count_agreeing-length ballot acks (i + 1) (if a.ballot == ballot then count + 1 else count)
      (if a.ballot == ballot then some i else idx)
    ∙ ground arith

-- Slot `i + k` for an index into the slots from `i` on.
abbrev pub Found : ℕ → List (Option Accepted) → ℕ → Option ℕ → Type 0
Found ballot acks i idx =
    (k : ℕ) × (a : Accepted) × (idx ≡ some (i + k))
    × (get_elem? acks k ≡ some (some a))
    × (a.ballot ≡ ballot)

Found-later :
    (ballot i : ℕ) (slot : Option Accepted) (acks : List (Option Accepted)) (idx : Option ℕ)
    → Found ballot acks (i + 1) idx
    → Found ballot (slot ∷ acks) i idx
Found-later ballot i slot acks idx (k, a, e, g, b) = (suc k, a, ground arith, g, b)

pub count_agreeing-Found :
    (ballot : ℕ) (acks : List (Option Accepted)) (i count : ℕ) (idx : Option ℕ)
    → ((count_agreeing ballot acks i count idx).1 ≡ idx)
      ⊎ Found ballot acks i (count_agreeing ballot acks i count idx).1
unfolding count_agreeing
count_agreeing-Found ballot [] i count idx = inl refl
count_agreeing-Found ballot (none ∷ acks) i count idx =
    elim (count_agreeing-Found ballot acks (i + 1) count idx) [
      | inl e ↦ inl e
      | inr f ↦ inr (Found-later ballot i none acks _ f)
    ]
count_agreeing-Found ballot (some a ∷ acks) i count idx = elim (Bool-cases (a.ballot == ballot)) [
  | inl same ↦
      rw (same, count_agreeing)
        (elim (count_agreeing-Found ballot acks (i + 1) (count + 1) (some i)) [
          | inl e ↦ inr (0, a, e ∙ ground arith, refl, ground arith)
          | inr f ↦ inr (Found-later ballot i (some a) acks _ f)
        ])
  | inr other ↦
      rw (other, count_agreeing)
        (elim (count_agreeing-Found ballot acks (i + 1) count idx) [
          | inl e ↦ inl e
          | inr f ↦ inr (Found-later ballot i (some a) acks _ f)
        ])
]

pub count_agreeing-none :
    (ballot : ℕ) (acks : List (Option Accepted)) (i count : ℕ) (idx : Option ℕ)
    → (count_agreeing ballot acks i count idx).1 ≡ none
    → (idx ≡ none) × (agreeing ballot acks ≡ [])
unfolding count_agreeing
count_agreeing-none ballot [] i count idx h = (h, refl)
count_agreeing-none ballot (none ∷ acks) i count idx h =
    count_agreeing-none ballot acks (i + 1) count idx h
count_agreeing-none ballot (some a ∷ acks) i count idx h =
    let (e, f) = count_agreeing-none ballot acks (i + 1) _ _ h in ground arith
