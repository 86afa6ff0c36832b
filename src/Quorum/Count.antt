-- ===== src/Quorum/Count.antt =====
-- The count of a quorum is the number of distinct acceptors that were added.
use libpaxos.Prelude.{
  ℕ, zero, suc, ◌+◌, ◌<◌, ◌≡◌, refl, ◌↔◌, ◌⊎◌, inl, inr, ◌≢◌, Bool, true, false, some, List, [],
  ◌∷◌, arith, length, get_elem?, set, replicate, ◌==◌, if◌then◌else◌, length-set, length-replicate,
  get_elem?-set_self, get_elem?-set_ne,
}
use libpaxos.Quorum.{Quorum, paxos_quorum, clear, init, add}

-- The number of flags that are set.
abbrev pub flags_set : List ℕ → ℕ
flags_set [] = 0
flags_set (x ∷ xs) = (if x == 0 then 0 else 1) + flags_set xs

abbrev pub Has : Quorum → ℕ → Type 0
Has q id = get_elem? q.acceptor_ids id ≡ some 1

pub record IsValid (q : Quorum) : Type 0 where
  pub sized : length q.acceptor_ids ≡ q.acceptors
  pub counted : q.count ≡ flags_set q.acceptor_ids
  pub majority : q.quorum ≡ paxos_quorum q.acceptors
  pub flags : (id f : ℕ) → get_elem? q.acceptor_ids id ≡ some f → (f ≡ 0) ⊎ (f ≡ 1)

flags_set-replicate : (n : ℕ) → flags_set (replicate n 0) ≡ 0
flags_set-replicate zero = refl
flags_set-replicate (suc n) = omega (arith, flags_set-replicate n)

flags_set-set :
    (xs : List ℕ) (i : ℕ) → get_elem? xs i ≡ some 0 → flags_set (set xs i 1) ≡ flags_set xs + 1
flags_set-set [] i h = ground arith
flags_set-set (x ∷ xs) zero h = ground arith
flags_set-set (x ∷ xs) (suc i) h = ground (arith, flags_set-set xs i h)

get_elem?-replicate : (n i f : ℕ) → get_elem? (replicate n 0) i ≡ some f → f ≡ 0
get_elem?-replicate zero i f h = ground arith
get_elem?-replicate (suc n) zero f h = ground arith
get_elem?-replicate (suc n) (suc i) f h = get_elem?-replicate n i f h

pub get_elem?_of_lt {ℓ} :
    {A : Type ℓ} (xs : List A) (i : ℕ) → i < length xs → (x : A) × (get_elem? xs i ≡ some x)
get_elem?_of_lt [] i h = elim h [ ]
get_elem?_of_lt (x ∷ xs) zero h = (x, refl)
get_elem?_of_lt (x ∷ xs) (suc i) h = get_elem?_of_lt xs i (omega arith)

pub clear-IsValid : (q : Quorum) → q.quorum ≡ paxos_quorum q.acceptors → IsValid (clear q)
unfolding clear
clear-IsValid q h = record {
  sized = length-replicate q.acceptors 0;
  counted = ground (arith, flags_set-replicate q.acceptors);
  majority = h;
  flags = λ id f e. inl (get_elem?-replicate q.acceptors id f e);
}

pub init-IsValid : (n : ℕ) → IsValid (init n)
unfolding init
init-IsValid n =
    clear-IsValid
      (record { count = 0; quorum = paxos_quorum n; acceptors = n; acceptor_ids = replicate n 0 })
      refl

set-flags :
    (xs : List ℕ) (i : ℕ)
    → ((id f : ℕ) → get_elem? xs id ≡ some f → (f ≡ 0) ⊎ (f ≡ 1))
    → (id f : ℕ) → get_elem? (set xs i 1) id ≡ some f
    → (f ≡ 0) ⊎ (f ≡ 1)
set-flags [] i h id f e = h id f e
set-flags (x ∷ xs) zero h zero f e = inr (ground arith)
set-flags (x ∷ xs) zero h (suc id) f e = h (suc id) f e
set-flags (x ∷ xs) (suc i) h zero f e = h zero f e
set-flags (x ∷ xs) (suc i) h (suc id) f e = set-flags xs i (λ j g. h (suc j) g) id f e

-- What `quorum_add` does for an id in range, flags of the others included.
pub record Added (q : Quorum) (id : ℕ) (new : Bool) (q' : Quorum) : Type 0 where
  pub valid : IsValid q'
  pub now : Has q' id
  pub others : (j : ℕ) → j ≢ id → get_elem? q'.acceptor_ids j ≡ get_elem? q.acceptor_ids j
  pub fresh : (new ≡ true) ↔ (get_elem? q.acceptor_ids id ≡ some 0)
  pub counted : q'.count ≡ q.count + (if new then 1 else 0)
  pub size : q'.acceptors ≡ q.acceptors

-- For a valid quorum, `quorum_add` of an id in range stays in bounds, keeps the quorum valid, sets that id's flag and no other, and counts the id
-- exactly if it was not there.
pub add-Added :
    (q : Quorum) (id : ℕ)
    → IsValid q
    → id < q.acceptors
    → (new : Bool) × (q' : Quorum) × (add q id ≡ some (new, q')) × Added q id new q'
unfolding add
add-Added q id v h = go (get_elem?_of_lt q.acceptor_ids id (omega arith))
  where
    go :
        (f : ℕ) × (get_elem? q.acceptor_ids id ≡ some f)
        → (new : Bool) × (q' : Quorum) × (add q id ≡ some (new, q')) × Added q id new q'
    go (f, e) = elim (v.flags id f e) [
      | inl z ↦ (
        true,
        record q { count = q.count + 1; acceptor_ids = set q.acceptor_ids id 1 },
        ground arith,
        record {
          valid = record {
            sized = ground (arith, length-set q.acceptor_ids id 1);
            counted = ground (arith, flags_set-set q.acceptor_ids id, v.counted);
            majority = v.majority;
            flags = set-flags q.acceptor_ids id v.flags;
          };
          now = get_elem?-set_self q.acceptor_ids id 1 (omega arith);
          others = λ j ne. get_elem?-set_ne q.acceptor_ids 1 (λ p. ne (ground arith));
          fresh = (λ _. ground arith, λ _. refl);
          counted = omega arith;
          size = refl;
        },
      )
      | inr o ↦ (
        false,
        q,
        ground arith,
        record {
          valid = v;
          now = ground arith;
          others = λ j ne. refl;
          fresh = (λ p. cc, λ p. ground arith);
          counted = omega arith;
          size = refl;
        },
      )
    ]
