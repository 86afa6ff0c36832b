-- ===== src/Learner/Gaps.antt =====
-- `struct gap` of paxos/learner.c and the functions on it: phase 1 that a learner runs by itself for an
-- instance that it misses. A ballot has 32 bits here, and 16 in a message. The bitmap is a byte;
-- an acceptor id of 8 or more has no bit in it.
use Prim.Native.Nat.{bit_and, bit_or}
use libpaxos.Prelude.{
  ℕ, ◌+◌, ◌/◌, ◌%◌, ◌^◌, Bool, true, false, Option, none, some, [], ◌∷◌, leb, ltb, ◌==◌, u16, u32,
  if◌then◌else◌,
}
use libpaxos.Types.{Value, Prepare, Promise, Accept, prepare_of}
use libpaxos.Quorum.{paxos_quorum}

pub record Gap : Type 0 where
  pub iid : ℕ
  pub ballot : ℕ
  pub highest_accepted_ballot : ℕ
  pub highest_accepted_value : Option Value
  pub acceptor_bitmap : ℕ
  pub majority : ℕ
  pub reached_majority : Bool

unfoldable pub gap_new : ℕ → ℕ → Gap
unfolding paxos_quorum
gap_new iid acceptors = record {
  iid = iid;
  ballot = 3;
  highest_accepted_ballot = 0;
  highest_accepted_value = none;
  acceptor_bitmap = 0;
  majority = paxos_quorum acceptors;
  reached_majority = false;
}

unfoldable pub gap_reset : Gap → Gap
gap_reset gap = record gap {
  ballot = u32 (gap.ballot + 11);
  highest_accepted_value = none;
  highest_accepted_ballot = 0;
  acceptor_bitmap = 0;
}

-- `(uint8_t) (1 << acceptor_id)`; the shift is defined for ids below 31.
abbrev pub id_mask : ℕ → ℕ
id_mask acceptor_id = 2 ^ acceptor_id % 256

-- The flag, and the bitmap after it.
unfoldable pub is_duplicated : ℕ → ℕ → Bool × ℕ
is_duplicated bitmap acceptor_id =
    if bit_and bitmap (id_mask acceptor_id) == 0
    then (false, bit_or bitmap (id_mask acceptor_id))
    else (true, bitmap)

-- `if (value->paxos_value_len)`
abbrev pub value_if_any : Value → Option Value → Option Value
value_if_any [] old = old
value_if_any (x ∷ xs) old = some (x ∷ xs)

unfoldable pub update_accepted_value : Gap → Promise → Gap
update_accepted_value gap promise =
    if ltb gap.highest_accepted_ballot promise.value_ballot
    then record gap {
      highest_accepted_ballot = promise.value_ballot;
      highest_accepted_value = value_if_any promise.value gap.highest_accepted_value;
    }
    else gap

-- `__builtin_popcount` of a byte.
unfoldable pub popcount : ℕ → ℕ
popcount n =
    n % 2 + n / 2 % 2 + n / 4 % 2 + n / 8 % 2 + n / 16 % 2 + n / 32 % 2 + n / 64 % 2 + n / 128 % 2

unfoldable pub is_majority_promised : Gap → Bool × Gap
is_majority_promised gap =
    if leb gap.majority (popcount gap.acceptor_bitmap)
    then (true, record gap { reached_majority = true })
    else (false, gap)

unfoldable pub update_gap : Gap → Promise → Bool × Gap
update_gap gap promise =
    let (duplicated, bitmap) = is_duplicated gap.acceptor_bitmap promise.aid in
    if duplicated
    then (false, gap)
    else is_majority_promised
        (update_accepted_value (record gap { acceptor_bitmap = bitmap }) promise)

-- The accept that a majority of promises allows; its value_ballot and aid stay as they were.
unfoldable pub gap_to_accept : Gap → Accept → Accept
gap_to_accept gap accept = record accept {
  iid = gap.iid;
  ballot = u16 gap.ballot;
  value = elim gap.highest_accepted_value [ none ↦ [] | some v ↦ v ];
}

unfoldable pub gap_to_prepare : Gap → Prepare
gap_to_prepare gap = prepare_of gap.iid gap.ballot
