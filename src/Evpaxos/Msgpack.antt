-- ===== src/Evpaxos/Msgpack.antt =====
-- The functions of the msgpack library that evpaxos/paxos_types_pack.c and evpaxos/message.c call, as an
-- interface. A packer appends bytes. `u64_at o i` and `bin_at o i` are `via.array.ptr[i].via.u64` and the
-- bytes of `via.array.ptr[i].via.bin`, or of `raw` in an old version; they are `none` where `o` is no
-- array with such an element, and C reads whatever lies there.
use libpaxos.Prelude.{ℕ, ◌+◌, ◌≤◌, ◌<◌, ◌≡◌, Option, some, List, [], ◌∷◌, ◌++◌, length}

-- What `msgpack_unpack_next` finds: an object that ends at an offset, the start of one, or bytes
-- that no object starts with.
pub data Unpacked (O : Type 0) : Type 0 where
  done : O → ℕ → Unpacked O
  continue : Unpacked O
  parse_error : Unpacked O

-- An element of an array, as it is meant.
pub data Field : Type 0 where
  num : ℕ → Field
  bin : List ℕ → Field

abbrev pub joined : List (List ℕ) → List ℕ
joined [] = []
joined (w ∷ ws) = w ++ joined ws

pub record Msgpack : Type 1 where
  pub Object : Type 0
  pub pack_array : ℕ → List ℕ
  pub pack_uint16 : ℕ → List ℕ
  pub pack_int16 : ℕ → List ℕ
  pub pack_uint32 : ℕ → List ℕ
  pub pack_bin : ℕ → List ℕ
  pub pack_bin_body : List ℕ → List ℕ
  pub unpack_next : List ℕ → Unpacked Object
  pub u64_at : Object → ℕ → Option ℕ
  pub bin_at : Object → ℕ → Option (List ℕ)

module _ (mp : Msgpack) where
  open mp use {
    Object, pack_array, pack_uint16, pack_int16, pack_uint32, pack_bin, pack_bin_body, unpack_next,
    u64_at, bin_at,
  }

  -- The bytes that stand for an element, within the range of the function that packs it.
  pub data Writes : Field → List ℕ → Type 0 where
    uint16 : (n : ℕ) → n < 65536 → Writes (num n) (pack_uint16 n)
    int16 : (n : ℕ) → n < 32768 → Writes (num n) (pack_int16 n)
    uint32 : (n : ℕ) → n < 4294967296 → Writes (num n) (pack_uint32 n)
    binary :
        (bs : List ℕ)
        → length bs < 2147483648
        → Writes (bin bs) (pack_bin (length bs) ++ pack_bin_body bs)

  abbrev pub AllWritten : List Field → List (List ℕ) → Type 0
  AllWritten [] [] = Unit {0}
  AllWritten [] (w ∷ ws) = ⊥
  AllWritten (f ∷ fs) [] = ⊥
  AllWritten (f ∷ fs) (w ∷ ws) = Writes f w × AllWritten fs ws

  -- The elements of an object from the `i`-th on.
  abbrev pub Holds : Object → ℕ → List Field → Type 0
  Holds o i [] = Unit {0}
  Holds o i (num n ∷ fs) = (u64_at o i ≡ some n) × Holds o (i + 1) fs
  Holds o i (bin bs ∷ fs) = (bin_at o i ≡ some bs) × Holds o (i + 1) fs

  -- An array that was packed is unpacked again, whatever follows it; and an object takes at least one
  -- byte, and only bytes that are there.
  pub record MsgpackLaws : Type 0 where
    pub unpack-pack :
        (fs : List Field) (ws : List (List ℕ)) (rest : List ℕ)
        → length fs < 16
        → AllWritten fs ws
        → (o : Object) × (unpack_next ((pack_array (length fs) ++ joined ws) ++ rest)
            ≡ done o (length (pack_array (length fs) ++ joined ws)))
          × Holds o 0 fs
    pub unpack-progress :
        (buffer : List ℕ) (o : Object) (offset : ℕ)
        → unpack_next buffer ≡ done o offset
        → (0 < offset) × (offset ≤ length buffer)
