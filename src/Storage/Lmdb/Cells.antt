-- ===== src/Storage/Lmdb/Cells.antt =====
-- A data base of as many keys as a list has cells: the laws on LMDB can be met. A cursor is the least key that
-- it has not met.
use libpaxos.Prelude.{
  ℕ, zero, suc, ◌+◌, ◌-◌, ◌<◌, ◌≤◌, ◌≡◌, refl, ◌⊎◌, inl, inr, Bool, true, false, ◌&&◌, Option, none,
  some, List, [], ◌∷◌, arith, length, leb, ltb, ◌==◌, set, if◌then◌else◌, ap, sym, subst, ◌∙◌,
  update, fun_ext, Bool-cases,
}
use mathlib.Core.Option.{some-injective}
use libpaxos.Storage.Lmdb.{Lmdb}
use libpaxos.Storage.Lmdb.Laws.{Covers, lookup_of, LmdbLaws}

abbrev pub Cells : Type 0
Cells = List (Option (List ℕ))

abbrev pub view_of : Cells → ℕ → Option (List ℕ)
view_of [] k = none
view_of (o ∷ t) zero = o
view_of (o ∷ t) (suc k) = view_of t k

abbrev pub holds : Option (List ℕ) → Bool
holds none = false
holds (some bytes) = true

-- The keys from `c` on of cells that start with the key `i`.
abbrev pub keys : ℕ → ℕ → Cells → List ℕ
keys i c [] = []
keys i c (o ∷ t) = if leb c i && holds o then i ∷ keys (i + 1) c t else keys (i + 1) c t

abbrev pub next_key : ℕ → ℕ → Cells → Option (ℕ × ℕ)
next_key i c [] = none
next_key i c (o ∷ t) = if leb c i && holds o then some (i, i + 1) else next_key (i + 1) c t

abbrev pub cells : Lmdb
cells = record {
  Env = Cells;
  Txn = Cells;
  Cursor = ℕ;
  txn_begin = λ e. some e;
  txn_commit = λ e t. (true, t);
  txn_abort = λ e t. e;
  get = λ t k. lookup_of (view_of t k);
  put = λ t k bytes. if ltb k (length t) then (true, set t k (some bytes)) else (false, t);
  cursor_open = λ t. some 0;
  cursor_next = λ t c. next_key 0 c t;
  cursor_del = λ t c. if ltb 0 c then (true, set t (c - 1) none) else (false, t);
}

view_of-set :
    (t : Cells) (k : ℕ) (o : Option (List ℕ)) (j : ℕ)
    → (k < length t) ⊎ (o ≡ none)
    → view_of (set t k o) j ≡ update (view_of t) k o j
view_of-set [] k o j (inl h) = elim h [ ]
view_of-set [] k o j (inr h) = ground arith
view_of-set (x ∷ t) zero o zero h = ground arith
view_of-set (x ∷ t) zero o (suc j) h = ground arith
view_of-set (x ∷ t) (suc k) o zero h = ground arith
view_of-set (x ∷ t) (suc k) o (suc j) (inl h) =
    view_of-set t k o j (inl (omega arith)) ∙ ground arith
view_of-set (x ∷ t) (suc k) o (suc j) (inr h) = view_of-set t k o j (inr h) ∙ ground arith

keys-set :
    (t : Cells) (i c p : ℕ) (o : Option (List ℕ)) → i + p < c → keys i c (set t p o) ≡ keys i c t
keys-set [] i c p o h = refl
keys-set (x ∷ t) i c zero o h = ground arith
keys-set (x ∷ t) i c (suc p) o h =
    ap (λ ks. if leb c i && holds x then i ∷ ks else ks) (keys-set t (i + 1) c p o (omega arith))

keys-low : (t : Cells) (i c d : ℕ) → c ≤ i → d ≤ i → keys i c t ≡ keys i d t
keys-low [] i c d a b = refl
keys-low (x ∷ t) i c d a b = ground (arith, keys-low t (i + 1) c d)

pub next_key-keys :
    (t : Cells) (i c : ℕ)
    → ((next_key i c t ≡ none) × (keys i c t ≡ []))
      ⊎ ((k : ℕ) × (i ≤ k)
          × (next_key i c t ≡ some (k, k + 1))
          × (keys i c t ≡ k ∷ keys i (k + 1) t))
next_key-keys [] i c = inl (refl, refl)
next_key-keys (x ∷ t) i c = elim (Bool-cases (leb c i && holds x)) [
  | inl here ↦
      let stop : leb (i + 1) i ≡ false = ground arith in
      inr (
        i,
        omega arith,
        rw here refl,
        rw here (ap (◌∷◌ i) (rw stop (keys-low t (i + 1) c (i + 1) (ground arith) (omega arith)))),
      )
  | inr other ↦ elim (next_key-keys t (i + 1) c) [
    | inl (e, f) ↦ inl (rw other e, rw other f)
    | inr (k, le, e, f) ↦
        let stop : leb (k + 1) i ≡ false = ground arith in
        inr (k, omega arith, rw other e, rw other (f ∙ ap (◌∷◌ k) (rw stop refl)))
  ]
]

Covers-lower :
    (lo : ℕ) (xs : List ℕ) (v : ℕ → Option (List ℕ))
    → v lo ≡ none
    → Covers (lo + 1) xs v
    → Covers lo xs v
Covers-lower lo [] v e c = λ k le. elim (Bool-cases (lo == k)) [
  | inl same ↦ subst (λ i. v i ≡ none) {x = lo} (ground arith) e
  | inr other ↦ c k (ground arith)
]
Covers-lower lo (x ∷ xs) v e (le, gap, c) = (
  omega arith,
  λ k a b. elim (Bool-cases (lo == k)) [
    | inl same ↦ subst (λ i. v i ≡ none) {x = lo} (ground arith) e
    | inr other ↦ gap k (ground arith) b
  ],
  c,
)

Covers-keys :
    (t : Cells) (i : ℕ) (v : ℕ → Option (List ℕ))
    → ((j : ℕ) → v (i + j) ≡ view_of t j)
    → Covers i (keys i 0 t) v
Covers-keys [] i v h = λ k le. ap v {y = i + (k - i)} (omega arith) ∙ h (k - i)
Covers-keys (none ∷ t) i v h =
    let empty : (leb 0 i && false) ≡ false = ground arith in
    rw empty (
      Covers-lower i (keys (i + 1) 0 t) v (ap v (omega arith) ∙ h 0)
        (Covers-keys t (i + 1) v (λ j. ap v (omega arith) ∙ h (suc j))))
Covers-keys (some bytes ∷ t) i v h =
    let full : (leb 0 i && true) ≡ true = ground arith in
    rw full (
      omega arith,
      λ k a b. absurd (omega arith),
      Covers-keys t (i + 1) v (λ j. ap v (omega arith) ∙ h (suc j)),
    )

pub cells_laws : LmdbLaws cells
cells_laws = record {
  view = view_of;
  stored = view_of;
  ahead = λ t c. keys 0 c t;
  place = λ c. c - 1;
  begin-view = λ e t f. ap view_of (sym (some-injective e t f));
  commit-stored = λ e t f. refl;
  abort-stored = λ e t. refl;
  get-view = λ t k. inr refl;
  put-view = λ t k bytes e. elim (Bool-cases (ltb k (length t))) [
    | inl lt ↦ rw lt (fun_ext (λ j. view_of-set t k (some bytes) j (inl (ground arith))))
    | inr full ↦ absurd (cc (rw full at e))
  ];
  open-Covers = λ t c e.
      subst (λ d. Covers 0 (keys 0 d t) (view_of t)) (some-injective 0 c e)
        (Covers-keys t 0 (view_of t) (λ j. ap (view_of t) (omega arith)));
  next-ahead = λ t c. elim (next_key-keys t 0 c) [
    | inl (e, f) ↦ inl (e, f)
    | inr (k, le, e, f) ↦ inr (k, k + 1, e, f, omega arith)
  ];
  del-view = λ t c e. elim (Bool-cases (ltb 0 c)) [
    | inl pos ↦ rw pos (
      fun_ext (λ j. view_of-set t (c - 1) none j (inr refl)),
      keys-set t 0 c (c - 1) none (ground arith),
    )
    | inr z ↦ absurd (cc (rw z at e))
  ];
}
