-- ===== src/Khash.antt =====
-- The tables of paxos/include/khash.h, a library that the code calls, as an interface: KHASH_MAP_INIT_INT
-- maps 32-bit keys to values of one type. `kh_get` and `kh_value` are `get`, `kh_del` is `del`, and
-- `kh_put` with the assignment to `kh_value` behind it is `put`; `room` tells whether `kh_put` gets the
-- memory that it wants, that is, whether it does not return -1. `write` is an assignment through the
-- pointer that the table keeps under a key. `entries` lists what lies in the buckets, in the
-- order of a walk from `kh_begin` to `kh_end` that skips the buckets where `kh_exist` fails; an assignment
-- moves no bucket. `size` is `kh_size`, the number of entries.
pub mod Assoc
use mathlib.Core.List.{Memᴰ}
use libpaxos.Prelude.{
  ℕ, ◌+◌, ◌≡◌, ◌≢◌, Bool, Option, none, some, List, [], ◌∷◌, length, ◌==◌, if◌then◌else◌, update,
}

-- No entry has the key `k`, and no two entries have the same key.
module _ {V : Type 0} where
  abbrev pub Fresh : ℕ → List (ℕ × V) → Type 0
  Fresh k [] = Unit {0}
  Fresh k ((j, v) ∷ es) = (j ≢ k) × Fresh k es

  abbrev pub Distinct : List (ℕ × V) → Type 0
  Distinct [] = Unit {0}
  Distinct ((k, v) ∷ es) = Fresh k es × Distinct es

-- The buckets with `v` in the one of the key `k`.
module _ {V : Type 0} where
  abbrev pub replaced : ℕ → V → List (ℕ × V) → List (ℕ × V)
  replaced k v [] = []
  replaced k v ((j, w) ∷ es) = (j, if j == k then v else w) ∷ replaced k v es

pub record Khash (V : Type 0) : Type 1 where
  pub Table : Type 0
  pub init : Table
  pub get : Table → ℕ → Option V
  pub room : Table → ℕ → Bool
  pub put : Table → ℕ → V → Table
  pub write : Table → ℕ → V → Table
  pub del : Table → ℕ → Table
  pub entries : Table → List (ℕ × V)
  pub size : Table → ℕ
  pub get-init : get init ≡ λ _. none
  pub get-put : (t : Table) (k : ℕ) (v : V) → get (put t k v) ≡ update (get t) k (some v)
  pub get-write :
      (t : Table) (k : ℕ) (v w : V)
      → get t k ≡ some w
      → get (write t k v) ≡ update (get t) k (some v)
  pub get-del : (t : Table) (k : ℕ) → get (del t k) ≡ update (get t) k none
  pub mem-entries : (t : Table) (k : ℕ) (v : V) → Memᴰ (k, v) (entries t) → get t k ≡ some v
  pub entries-mem : (t : Table) (k : ℕ) (v : V) → get t k ≡ some v → Memᴰ (k, v) (entries t)
  pub entries-Distinct : (t : Table) → Distinct (entries t)
  pub size-put : (t : Table) (k : ℕ) (v : V) → get t k ≡ none → size (put t k v) ≡ size t + 1
  pub size-write : (t : Table) (k : ℕ) (v w : V) → get t k ≡ some w → size (write t k v) ≡ size t
  pub size-del : (t : Table) (k : ℕ) (v : V) → get t k ≡ some v → size (del t k) + 1 ≡ size t
  pub entries-write : (t : Table) (k : ℕ) (v : V) → entries (write t k v) ≡ replaced k v (entries t)
  pub size-entries : (t : Table) → size t ≡ length (entries t)
