-- ===== src/Khash/Assoc.antt =====
-- A list of entries with different keys as a table: the interface of the hash tables can be met.
use mathlib.Core.List.{Memᴰ}
use libpaxos.Prelude.{
  ◌+◌, ◌∙◌, length, false, suc, ℕ, ◌≡◌, refl, inl, inr, true, Option, none, some, List, [], ◌∷◌,
  arith, ◌==◌, if◌then◌else◌, update, fun_ext, Bool-cases, ap, sym, subst,
}
use libpaxos.Khash.{Khash, Fresh, Distinct, replaced}

module _ {V : Type 0} where
  abbrev pub find : List (ℕ × V) → ℕ → Option V
  find [] k = none
  find ((j, v) ∷ es) k = if j == k then some v else find es k

  abbrev pub erase : ℕ → List (ℕ × V) → List (ℕ × V)
  erase k [] = []
  erase k ((j, v) ∷ es) = if j == k then erase k es else (j, v) ∷ erase k es

  pub find-erase : (es : List (ℕ × V)) (k j : ℕ) → find (erase k es) j ≡ update (find es) k none j
  find-erase [] k j = ground arith
  find-erase ((i, v) ∷ es) k j = ground (arith, find-erase es k j)

  pub erase-Fresh : (es : List (ℕ × V)) (k : ℕ) → Fresh k (erase k es)
  erase-Fresh [] k = tt
  erase-Fresh ((i, v) ∷ es) k = elim (Bool-cases (i == k)) [
    | inl e ↦ rw e (erase-Fresh es k)
    | inr e ↦ rw e (λ p. ground arith, erase-Fresh es k)
  ]

  erase-keeps : (es : List (ℕ × V)) (k j : ℕ) → Fresh j es → Fresh j (erase k es)
  erase-keeps [] k j h = tt
  erase-keeps ((i, v) ∷ es) k j h = elim (Bool-cases (i == k)) [
    | inl e ↦ rw e (erase-keeps es k j h.1)
    | inr e ↦ rw e (h.0, erase-keeps es k j h.1)
  ]

  pub erase-Distinct : (es : List (ℕ × V)) (k : ℕ) → Distinct es → Distinct (erase k es)
  erase-Distinct [] k h = tt
  erase-Distinct ((i, v) ∷ es) k h = elim (Bool-cases (i == k)) [
    | inl e ↦ rw e (erase-Distinct es k h.1)
    | inr e ↦ rw e (erase-keeps es k i h.0, erase-Distinct es k h.1)
  ]

  Fresh-mem : (es : List (ℕ × V)) (k : ℕ) (v : V) → Fresh k es → Memᴰ (k, v) es → ⊥
  Fresh-mem [] k v h m = elim m [ ]
  Fresh-mem ((i, w) ∷ es) k v h (Memᴰ.head e) = h.0 (ap (λ p. p.0) (sym e))
  Fresh-mem ((i, w) ∷ es) k v h (Memᴰ.tail m) = Fresh-mem es k v h.1 m

  pub mem-find :
      (es : List (ℕ × V)) (k : ℕ) (v : V) → Distinct es → Memᴰ (k, v) es → find es k ≡ some v
  mem-find [] k v h m = elim m [ ]
  mem-find ((i, w) ∷ es) k v h (Memᴰ.head e) = ground (arith, ap (λ p. p.0) e, ap (λ p. p.1) e)
  mem-find ((i, w) ∷ es) k v h (Memᴰ.tail m) = elim (Bool-cases (i == k)) [
    | inl e ↦ absurd (Fresh-mem es i v h.0 (subst (λ n. Memᴰ (n, v) es) (ground arith) m))
    | inr e ↦ rw e (mem-find es k v h.1 m)
  ]

  pub find-mem : (es : List (ℕ × V)) (k : ℕ) (v : V) → find es k ≡ some v → Memᴰ (k, v) es
  find-mem [] k v h = cc
  find-mem ((i, w) ∷ es) k v h = elim (Bool-cases (i == k)) [
    | inl e ↦ Memᴰ.head (ground arith)
    | inr e ↦ Memᴰ.tail (find-mem es k v (rw e at h))
  ]

  pub find-put :
      (es : List (ℕ × V)) (k : ℕ) (v : V) (j : ℕ)
      → find ((k, v) ∷ erase k es) j ≡ update (find es) k (some v) j
  find-put es k v j = ground (arith, find-erase es k j)

  erase_of_Fresh : (es : List (ℕ × V)) (k : ℕ) → Fresh k es → erase k es ≡ es
  erase_of_Fresh [] k h = refl
  erase_of_Fresh ((i, v) ∷ es) k h =
      ap (λ b. if b then erase k es else (i, v) ∷ erase k es) {y = false} (ground (arith, h.0))
      ∙ ap (◌∷◌ (i, v)) (erase_of_Fresh es k h.1)

  -- A key that is not there changes nothing, and one that is there takes one entry with it.
  pub length-erase_absent :
      (es : List (ℕ × V)) (k : ℕ) → find es k ≡ none → length (erase k es) ≡ length es
  length-erase_absent [] k h = refl
  length-erase_absent ((i, v) ∷ es) k h = ground (arith, length-erase_absent es k)

  pub length-erase_present :
      (es : List (ℕ × V)) (k : ℕ) (v : V)
      → Distinct es
      → find es k ≡ some v
      → length (erase k es) + 1 ≡ length es
  length-erase_present [] k v d h = cc
  length-erase_present ((i, w) ∷ es) k v d h = elim (Bool-cases (i == k)) [
    | inl e ↦ rw e (
        omega (arith, ap length (erase_of_Fresh es k (subst (λ n. Fresh n es) (ground arith) d.0))))
    | inr e ↦ rw e (omega (arith, length-erase_present es k v d.1 (rw e at h)))
  ]

module _ {V : Type 0} where
  replaced-Fresh : (es : List (ℕ × V)) (k j : ℕ) (v : V) → Fresh j es → Fresh j (replaced k v es)
  replaced-Fresh [] k j v h = tt
  replaced-Fresh ((i, w) ∷ es) k j v h = (h.0, replaced-Fresh es k j v h.1)

  pub replaced-Distinct :
      (es : List (ℕ × V)) (k : ℕ) (v : V) → Distinct es → Distinct (replaced k v es)
  replaced-Distinct [] k v h = tt
  replaced-Distinct ((i, w) ∷ es) k v h =
      (replaced-Fresh es k i v h.0, replaced-Distinct es k v h.1)

  pub find-replaced :
      (es : List (ℕ × V)) (k : ℕ) (v w : V)
      → find es k ≡ some w
      → (j : ℕ) → find (replaced k v es) j ≡ update (find es) k (some v) j
  find-replaced [] k v w e j = cc
  find-replaced ((i, x) ∷ es) k v w e j = elim (Bool-cases (i == k)) [
    | inl same ↦ rw same (ground (arith, absent es))
    | inr other ↦ rw other (ground (arith, find-replaced es k v w (rw other at e) j))
  ]
    where
      absent : (xs : List (ℕ × V)) → (k == j) ≡ false → find (replaced k v xs) j ≡ find xs j
      absent [] f = refl
      absent ((a, y) ∷ xs) f = ground (arith, absent xs f)

  pub length-replaced : (es : List (ℕ × V)) (k : ℕ) (v : V) → length (replaced k v es) ≡ length es
  length-replaced [] k v = refl
  length-replaced ((i, w) ∷ es) k v = ap suc (length-replaced es k v)

abbrev pub assoc : (V : Type 0) → Khash V
assoc V = record {
  Table = (es : List (ℕ × V)) × Distinct es;
  init = ([], tt);
  get = λ t. find t.0;
  room = λ t k. true;
  put = λ t k v. ((k, v) ∷ erase k t.0, (erase-Fresh t.0 k, erase-Distinct t.0 k t.1));
  write = λ t k v. (replaced k v t.0, replaced-Distinct t.0 k v t.1);
  del = λ t k. (erase k t.0, erase-Distinct t.0 k t.1);
  entries = λ t. t.0;
  size = λ t. length t.0;
  get-init = refl;
  get-put = λ t k v. fun_ext (find-put t.0 k v);
  get-write = λ t k v w e. fun_ext (find-replaced t.0 k v w e);
  get-del = λ t k. fun_ext (find-erase t.0 k);
  mem-entries = λ t k v. mem-find t.0 k v t.1;
  entries-mem = λ t k v. find-mem t.0 k v;
  entries-Distinct = λ t. t.1;
  size-put = λ t k v e. omega (arith, length-erase_absent t.0 k e);
  size-write = λ t k v w e. length-replaced t.0 k v;
  entries-write = λ t k v. refl;
  size-entries = λ t. refl;
  size-del = λ t k v e. length-erase_present t.0 k v t.1 e;
}
