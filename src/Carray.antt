-- ===== src/Carray.antt =====
-- paxos/carray.c: a circular array of pointers that doubles when it is full. A cell is `none` until
-- something is stored in it, and a read of such a cell gives `none`; a pop of an empty array gives
-- NULL, also `none`. The sizes are C ints, so the array is taken to stay below 2^30 cells.
-- `Carray/Cells.antt` and `Carray/Queue.antt` show that it is a first-in first-out queue.
pub mod Cells
pub mod Queue
use libpaxos.Prelude.{
  ℕ, zero, suc, ◌+◌, ◌-◌, ◌*◌, ◌%◌, Bool, Option, none, some, List, ◌==◌, get_elem?, set, replicate,
  if◌then◌else◌,
}

pub record Carray {ℓ} (A : Type ℓ) : Type ℓ where
  pub head : ℕ
  pub tail : ℕ
  pub size : ℕ
  pub count : ℕ
  pub array : List (Option A)

module _ {ℓ} {A : Type ℓ} where
  unfoldable pub carray_new : ℕ → Carray A
  carray_new size = record {
    head = 0;
    tail = 0;
    size = size;
    count = 0;
    array = replicate size none;
  }

  unfoldable pub carray_empty : Carray A → Bool
  carray_empty a = a.count == 0

  unfoldable pub carray_full : Carray A → Bool
  carray_full a = a.count == a.size

  -- A cell of the array, by its index in it.
  abbrev pub cell : List (Option A) → ℕ → Option A
  cell array i = elim (get_elem? array i) [ none ↦ none | some p ↦ p ]

  unfoldable pub carray_at : Carray A → ℕ → Option A
  carray_at a i = cell a.array ((a.head + i) % a.size)

  -- `carray_push_back` behind its test.
  unfoldable pub store_back : Carray A → Option A → Carray A
  store_back a p = record a {
    array = set a.array a.tail p;
    tail = (a.tail + 1) % a.size;
    count = a.count + 1;
  }

  -- The loop of `carray_grow`, from index `i` on, `rounds` times.
  unfoldable pub copy_cells :
      (Carray A → Option A → Carray A) → Carray A → ℕ → ℕ → Carray A → Carray A
  copy_cells push a zero i tmp = tmp
  copy_cells push a (suc rounds) i tmp = copy_cells push a rounds (i + 1) (push tmp (carray_at a i))

  -- `push` is the `carray_push_back` that `carray_grow` calls for the new array.
  unfoldable pub carray_grow : (Carray A → Option A → Carray A) → Carray A → Carray A
  unfolding copy_cells carray_at carray_new
  carray_grow push a =
      let tmp = copy_cells push a a.count 0 (carray_new (a.size * 2)) in
      record a { head = 0; tail = tmp.tail; size = tmp.size; array = tmp.array }

  -- `carray_push_back` and `carray_grow` call one another: `depth` bounds how often.
  unfoldable pub push_within : ℕ → Carray A → Option A → Carray A
  unfolding store_back carray_full carray_grow
  push_within zero a p = store_back a p
  push_within (suc depth) a p =
      store_back (if carray_full a then carray_grow (push_within depth) a else a) p

  -- One level is enough, since the new array of `carray_grow` does not fill up.
  unfoldable pub carray_push_back : Carray A → A → Carray A
  unfolding push_within
  carray_push_back a p = push_within 1 a (some p)

  unfoldable pub carray_pop_front : Carray A → Option A × Carray A
  unfolding carray_empty
  carray_pop_front a =
      if carray_empty a
      then (none, a)
      else (cell a.array a.head, record a { head = (a.head + 1) % a.size; count = a.count - 1 })
