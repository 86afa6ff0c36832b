-- ===== src/Carray/Queue.antt =====
-- A circular array is a queue: the cells from `head` on, going round at `size`.
use native.Mathlib.Nat.{mod-add-mod, mod-eq_of_lt, mod-lt}
use mathlib.Core.Path.{ap₂}
use mathlib.Core.List.{append-nil, append_assoc}
use libpaxos.Prelude.{
  ℕ, zero, suc, ◌+◌, ◌-◌, ◌*◌, ◌%◌, ◌<◌, ◌≡◌, ◌≢◌, refl, sym, ap, ◌⊎◌, ◌∙◌, subst, false, inl, inr,
  Option, none, some, List, [], ◌∷◌, ◌++◌, ◌==◌, arith, length-replicate, if◌then◌else◌, Bool-cases,
}
use libpaxos.Carray.{
  Carray, carray_new, carray_full, cell, carray_at, store_back, copy_cells, carray_grow,
  push_within, carray_push_back, carray_pop_front,
}
use libpaxos.Carray.Cells.{IsValid, cells, contents, cells-head, store_back-IsValid, stored_same}

module _ {ℓ} {A : Type ℓ} where
  -- What copying `rounds` cells from the `i`-th on into `tmp` gives.
  record Copied (a : Carray A) (rounds i : ℕ) (tmp r : Carray A) : Type ℓ where
    valid : IsValid r
    holds : contents r ≡ contents tmp ++ cells a.array a.size a.head i rounds
    size : r.size ≡ tmp.size
    head : r.head ≡ tmp.head
    count : r.count ≡ tmp.count + rounds

  -- The old cells, copied into an array with room for them, by a function that stores where there is room.
  copy_cells-Copied :
      (push : Carray A → Option A → Carray A)
      → ((t : Carray A) (p : Option A) → t.count < t.size → push t p ≡ store_back t p)
      → (a : Carray A) (rounds i : ℕ) (tmp : Carray A) → IsValid tmp
      → tmp.count + rounds < tmp.size
      → Copied a rounds i tmp (copy_cells push a rounds i tmp)
  unfolding copy_cells carray_at
  copy_cells-Copied push stores a zero i tmp v room = record {
    valid = v;
    holds = sym (append-nil (contents tmp));
    size = refl;
    head = refl;
    count = omega arith;
  }
  copy_cells-Copied push stores a (suc rounds) i tmp v room =
      let (w, c) = store_back-IsValid tmp (carray_at a i) v (omega arith) in
      let (z, y, k) = stored_same tmp (carray_at a i) in
      let r =
        copy_cells-Copied push stores a rounds (i + 1) (store_back tmp (carray_at a i)) w
          (omega arith) in
      subst (λ t. Copied a (suc rounds) i tmp (copy_cells push a rounds (i + 1) t))
        (sym (stores tmp (carray_at a i) (omega arith)))
        (record {
          valid = r.valid;
          holds =
              r.holds
              ∙ ap (λ xs. xs ++ cells a.array a.size a.head (i + 1) rounds) c
              ∙ append_assoc (contents tmp) (carray_at a i ∷ [])
                  (cells a.array a.size a.head (i + 1) rounds);
          size = r.size ∙ z;
          head = r.head ∙ y;
          count = r.count ∙ omega arith;
        })

  carray_new-IsValid :
      (n : ℕ) → 0 < n → IsValid (carray_new {A = A} n) × (contents (carray_new {A = A} n) ≡ [])
  unfolding carray_new
  carray_new-IsValid n h = (
    record {
      sized = length-replicate n none;
      some_room = h;
      head_in = h;
      count_in = omega arith;
      tail_at = sym (mod-eq_of_lt h);
    },
    refl,
  )

  -- Growing keeps the contents and makes room.
  carray_grow-IsValid :
      (push : Carray A → Option A → Carray A)
      → ((t : Carray A) (p : Option A) → t.count < t.size → push t p ≡ store_back t p)
      → (a : Carray A) → IsValid a
      → IsValid (carray_grow push a)
        × (contents (carray_grow push a) ≡ contents a)
        × ((carray_grow push a).count < (carray_grow push a).size)
  unfolding carray_grow
  carray_grow-IsValid push stores a v =
      let (w, e) = carray_new-IsValid (a.size * 2) (omega arith) in
      let new : Carray A = carray_new (a.size * 2) in
      let tmp : Carray A = copy_cells push a a.count 0 new in
      let r = copy_cells-Copied push stores a a.count 0 new w (
        let c : new.count ≡ 0 = unfold carray_new in refl in
        let z : new.size ≡ a.size * 2 = unfold carray_new in refl in omega arith) in
      let n : tmp.count ≡ a.count = r.count ∙ omega arith in
      let same : tmp ≡ carray_grow push a = λ i. record {
        head = r.head i;
        tail = tmp.tail;
        size = tmp.size;
        count = n i;
        array = tmp.array;
      } in
      subst (λ t. IsValid t × (contents t ≡ contents a) × (t.count < t.size)) same
        (r.valid, r.holds ∙ ap (λ xs. xs ++ contents a) e, omega (arith, r.size, n))

  -- The pushers of every depth store where there is room.
  push_within-stores :
      (depth : ℕ) (a : Carray A) (p : Option A)
      → a.count < a.size
      → push_within depth a p ≡ store_back a p
  unfolding push_within carray_full
  push_within-stores zero a p h = refl
  push_within-stores (suc depth) a p h =
      let no_room : (a.count == a.size) ≡ false = ground arith in
      ap (λ b. store_back (if b then carray_grow (push_within depth) a else a) p) no_room

  -- `carray_push_back` keeps a valid array valid and adds its argument behind what the array holds, also
  -- where the array has to grow, and however deep its calls and those of `carray_grow` may go.
  pub push_within-contents :
      (depth : ℕ) (a : Carray A) (p : Option A)
      → IsValid a
      → IsValid (push_within (suc depth) a p)
        × (contents (push_within (suc depth) a p) ≡ contents a ++ (p ∷ []))
  unfolding push_within carray_full
  push_within-contents depth a p v = elim (Bool-cases (a.count == a.size)) [
    | inr room ↦
        subst (λ b. Pushed (store_back (if b then carray_grow (push_within depth) a else a) p))
          (sym room) (store_back-IsValid a p v (omega (arith, v.count_in, not_full room)))
    | inl full ↦
        let (w, c, lt) = carray_grow-IsValid (push_within depth) (push_within-stores depth) a v in
        let (x, d) = store_back-IsValid (carray_grow (push_within depth) a) p w lt in
        subst (λ b. Pushed (store_back (if b then carray_grow (push_within depth) a else a) p))
          (sym full) (x, d ∙ ap (λ xs. xs ++ (p ∷ [])) c)
  ]
    where
      Pushed : Carray A → Type ℓ
      Pushed r = IsValid r × (contents r ≡ contents a ++ (p ∷ []))

      not_full : (a.count == a.size) ≡ false → a.count ≢ a.size
      not_full e f = ground arith

  -- `carray_push_back` keeps a valid array valid and adds its argument at the end.
  pub push_back-contents :
      (a : Carray A) (p : A)
      → IsValid a
      → IsValid (carray_push_back a p)
        × (contents (carray_push_back a p) ≡ contents a ++ (some p ∷ []))
  unfolding carray_push_back
  push_back-contents a p v = push_within-contents 0 a (some p) v

  cells-of_pos :
      (array : List (Option A)) (s h n : ℕ)
      → 0 < n
      → cells array s h 0 n ≡ cell array ((h + 0) % s) ∷ cells array s h 1 (n - 1)
  cells-of_pos array s h zero p = elim p [ ]
  cells-of_pos array s h (suc n) p =
      ap (λ k. cell array ((h + 0) % s) ∷ cells array s h 1 k) (omega arith)

  -- On a valid array `carray_pop_front` returns NULL for an empty array and the oldest element otherwise, which it
  -- removes; the array stays valid.
  pop_front-contents :
      (a : Carray A)
      → IsValid a
      → let (out, a') = carray_pop_front a in
        IsValid a'
        × (((contents a ≡ []) × (out ≡ none) × (a' ≡ a)) ⊎ (contents a ≡ out ∷ contents a'))
  unfolding carray_pop_front
  pop_front-contents a v = elim (Bool-cases (a.count == 0)) [
    | inl e ↦
        subst (λ b. Popped (if b then (none, a) else popped)) (sym e)
          (v, inl (ap (λ n. cells a.array a.size a.head 0 n) {y = 0} (ground arith), refl, refl))
    | inr e ↦
        subst (λ b. Popped (if b then (none, a) else popped)) (sym e)
          (
            record {
              sized = v.sized;
              some_room = v.some_room;
              head_in = mod-lt (a.head + 1) v.some_room;
              count_in = omega arith;
              tail_at =
                  v.tail_at
                  ∙ sym (
                      mod-add-mod (a.head + 1) a.size (a.count - 1)
                      ∙ ap (λ k. k % a.size) (omega (arith, pos e)));
            },
            inr (
                cells-of_pos a.array a.size a.head a.count (pos e)
                ∙ ap₂ ◌∷◌
                    (ap (cell a.array)
                      (ap (λ k. k % a.size) (omega arith) ∙ mod-eq_of_lt v.head_in))
                    (sym (cells-head a.array a.size a.head 0 (a.count - 1)))),
          )
  ]
    where
      popped : Option A × Carray A
      popped = (cell a.array a.head, record a { head = (a.head + 1) % a.size; count = a.count - 1 })

      Popped : Option A × Carray A → Type ℓ
      Popped r =
          IsValid r.1
          × (((contents a ≡ []) × (r.0 ≡ none) × (r.1 ≡ a)) ⊎ (contents a ≡ r.0 ∷ contents r.1))

      pos : (a.count == 0) ≡ false → 0 < a.count
      pos e = ground arith
