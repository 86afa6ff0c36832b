-- ===== src/Evpaxos/Packing/RoundTrip.antt =====
-- What is packed is unpacked again, one message and a whole stream of them.
use libpaxos.Prelude.{
  ℕ, ◌<◌, ◌≡◌, refl, false, some, List, [], ◌∷◌, ◌++◌, arith, length, drop, ◌==◌, ap, sym, subst,
}
use libpaxos.Types.{
  Value, Message, prepare, promise, accept, accepted, preempted, repeat, trim, acceptor_state,
  client_value,
}
use libpaxos.Evpaxos.Msgpack.{
  Msgpack, MsgpackLaws, Field, num, bin, Writes, uint16, int16, uint32, binary, AllWritten, Holds,
  done, joined,
}
use libpaxos.Evpaxos.Packing.{
  msgpack_pack_paxos_message, msgpack_unpack_paxos_message, received, recv_unpacked,
  recv_paxos_message,
}

-- The fields have the widths of their C types, and the length of a value is a positive int.
abbrev pub FieldsFit : ℕ → ℕ → ℕ → ℕ → Value → Type 0
FieldsFit iid ballot value_ballot aid value =
    (iid < 4294967296)
    × (ballot < 65536)
    × (value_ballot < 65536)
    × (aid < 65536)
    × (length value < 2147483648)

abbrev pub Fits : Message → Type 0
Fits (prepare v) = FieldsFit v.iid v.ballot v.value_ballot v.aid v.value
Fits (promise v) = FieldsFit v.iid v.ballot v.value_ballot v.aid v.value
Fits (accept v) = FieldsFit v.iid v.ballot v.value_ballot v.aid v.value
Fits (accepted v) = FieldsFit v.iid v.ballot v.value_ballot v.aid v.value
Fits (preempted v) = FieldsFit v.iid v.ballot v.value_ballot v.aid v.value
Fits (repeat v) = (v.from < 4294967296) × (v.to < 4294967296)
Fits (trim v) = v.iid < 4294967296
Fits (acceptor_state v) = (v.aid < 4294967296) × (v.trim_iid < 4294967296)
Fits (client_value v) = length v < 2147483648

-- The elements of a message's array.
abbrev five : ℕ → ℕ → ℕ → ℕ → ℕ → Value → List Field
five type iid ballot value_ballot aid value =
    num type ∷ num iid ∷ num ballot ∷ num value_ballot ∷ num aid ∷ bin value ∷ []

abbrev fields : Message → List Field
fields (prepare v) = five 0 v.iid v.ballot v.value_ballot v.aid v.value
fields (promise v) = five 1 v.iid v.ballot v.value_ballot v.aid v.value
fields (accept v) = five 2 v.iid v.ballot v.value_ballot v.aid v.value
fields (accepted v) = five 3 v.iid v.ballot v.value_ballot v.aid v.value
fields (preempted v) = five 4 v.iid v.ballot v.value_ballot v.aid v.value
fields (repeat v) = num 5 ∷ num v.from ∷ num v.to ∷ []
fields (trim v) = num 6 ∷ num v.iid ∷ []
fields (acceptor_state v) = num 7 ∷ num v.aid ∷ num v.trim_iid ∷ []
fields (client_value v) = num 8 ∷ bin v ∷ []

module _ (mp : Msgpack) where
  open mp use {Object, pack_array, unpack_next, u64_at, bin_at}

  -- An object with the elements of a message is unpacked to the message.
  unpack-Holds :
      (o : Object) (m : Message)
      → Fits m
      → Holds mp o 0 (fields m)
      → msgpack_unpack_paxos_message mp o ≡ some (some m)
  unfolding msgpack_unpack_paxos_message
  unpack-Holds o (prepare v) f h = ground arith
  unpack-Holds o (promise v) f h = ground arith
  unpack-Holds o (accept v) f h = ground arith
  unpack-Holds o (accepted v) f h = ground arith
  unpack-Holds o (preempted v) f h = ground arith
  unpack-Holds o (repeat v) f h = ground arith
  unpack-Holds o (trim v) f h = ground arith
  unpack-Holds o (acceptor_state v) f h = ground arith
  unpack-Holds o (client_value v) f h = ground arith

  -- What the calls write, one piece for each element.
  abbrev pieces_five : List ℕ → ℕ → ℕ → ℕ → ℕ → Value → List (List ℕ)
  pieces_five type iid ballot value_ballot aid value =
      type
      ∷ mp.pack_uint32 iid
      ∷ mp.pack_uint16 ballot
      ∷ mp.pack_uint16 value_ballot
      ∷ mp.pack_uint16 aid
      ∷ (mp.pack_bin (length value) ++ mp.pack_bin_body value)
      ∷ []

  abbrev pieces : Message → List (List ℕ)
  pieces (prepare v) = pieces_five (mp.pack_uint16 0) v.iid v.ballot v.value_ballot v.aid v.value
  pieces (promise v) = pieces_five (mp.pack_int16 1) v.iid v.ballot v.value_ballot v.aid v.value
  pieces (accept v) = pieces_five (mp.pack_int16 2) v.iid v.ballot v.value_ballot v.aid v.value
  pieces (accepted v) = pieces_five (mp.pack_int16 3) v.iid v.ballot v.value_ballot v.aid v.value
  pieces (preempted v) = pieces_five (mp.pack_int16 4) v.iid v.ballot v.value_ballot v.aid v.value
  pieces (repeat v) = mp.pack_int16 5 ∷ mp.pack_uint32 v.from ∷ mp.pack_uint32 v.to ∷ []
  pieces (trim v) = mp.pack_int16 6 ∷ mp.pack_uint32 v.iid ∷ []
  pieces (acceptor_state v) =
      mp.pack_int16 7 ∷ mp.pack_uint32 v.aid ∷ mp.pack_uint32 v.trim_iid ∷ []
  pieces (client_value v) = mp.pack_int16 8 ∷ (mp.pack_bin (length v) ++ mp.pack_bin_body v) ∷ []

  pack-pieces :
      (m : Message)
      → msgpack_pack_paxos_message mp m ≡ pack_array (length (fields m)) ++ joined (pieces m)
  unfolding msgpack_pack_paxos_message
  pack-pieces (prepare v) = refl
  pack-pieces (promise v) = refl
  pack-pieces (accept v) = refl
  pack-pieces (accepted v) = refl
  pack-pieces (preempted v) = refl
  pack-pieces (repeat v) = refl
  pack-pieces (trim v) = refl
  pack-pieces (acceptor_state v) = refl
  pack-pieces (client_value v) = refl

  five-AllWritten :
      (type : ℕ) (w : List ℕ) (iid ballot value_ballot aid : ℕ) (value : Value)
      → Writes mp (num type) w
      → FieldsFit iid ballot value_ballot aid value
      → AllWritten mp
          (five type iid ballot value_ballot aid value)
          (pieces_five w iid ballot value_ballot aid value)
  five-AllWritten type w iid ballot value_ballot aid value t (a, b, c, d, e) = (
    t,
    (
      uint32 iid a,
      (uint16 ballot b, (uint16 value_ballot c, (uint16 aid d, (binary value e, tt)))),
    ),
  )

  pieces-AllWritten : (m : Message) → Fits m → AllWritten mp (fields m) (pieces m)
  pieces-AllWritten (prepare v) f = five-AllWritten 0 _ _ _ _ _ _ (uint16 0 (omega arith)) f
  pieces-AllWritten (promise v) f = five-AllWritten 1 _ _ _ _ _ _ (int16 1 (omega arith)) f
  pieces-AllWritten (accept v) f = five-AllWritten 2 _ _ _ _ _ _ (int16 2 (omega arith)) f
  pieces-AllWritten (accepted v) f = five-AllWritten 3 _ _ _ _ _ _ (int16 3 (omega arith)) f
  pieces-AllWritten (preempted v) f = five-AllWritten 4 _ _ _ _ _ _ (int16 4 (omega arith)) f
  pieces-AllWritten (repeat v) f =
      (int16 5 (omega arith), (uint32 v.from f.0, (uint32 v.to f.1, tt)))
  pieces-AllWritten (trim v) f = (int16 6 (omega arith), (uint32 v.iid f, tt))
  pieces-AllWritten (acceptor_state v) f =
      (int16 7 (omega arith), (uint32 v.aid f.0, (uint32 v.trim_iid f.1, tt)))
  pieces-AllWritten (client_value v) f = (int16 8 (omega arith), (binary v f, tt))

  few_fields : (m : Message) → length (fields m) < 16
  few_fields (prepare v) = omega arith
  few_fields (promise v) = omega arith
  few_fields (accept v) = omega arith
  few_fields (accepted v) = omega arith
  few_fields (preempted v) = omega arith
  few_fields (repeat v) = omega arith
  few_fields (trim v) = omega arith
  few_fields (acceptor_state v) = omega arith
  few_fields (client_value v) = omega arith

module _ (mp : Msgpack) (laws : MsgpackLaws mp) where
  unpack_next-pack :
      (m : Message) (rest : List ℕ)
      → Fits m
      → (o : mp.Object) × (mp.unpack_next (msgpack_pack_paxos_message mp m ++ rest)
          ≡ done o (length (msgpack_pack_paxos_message mp m)))
        × (msgpack_unpack_paxos_message mp o ≡ some (some m))
  unpack_next-pack m rest f =
      let (o, e, h) =
        laws.unpack-pack (fields m) (pieces mp m) rest (few_fields mp m)
          (pieces-AllWritten mp m f) in
      (
        o,
        subst (λ bs. mp.unpack_next (bs ++ rest) ≡ done o (length bs)) (sym (pack-pieces mp m)) e,
        unpack-Holds mp o m f h,
      )

  drop-length : (xs ys : List ℕ) → drop (length xs) (xs ++ ys) ≡ ys
  drop-length [] ys = refl
  drop-length (x ∷ xs) ys = drop-length xs ys

  some_bytes :
      (m : Message) (rest : List ℕ)
      → Fits m
      → (length (msgpack_pack_paxos_message mp m ++ rest) == 0) ≡ false
  some_bytes m rest f =
      let (o, e, _) = unpack_next-pack m rest f in
      let (pos, le) = laws.unpack-progress _ o _ e in ground arith

  -- Whatever message is packed, with fields of the widths of their types, `recv_paxos_message` gets the
  -- same message from a buffer that begins with the packed bytes, and leaves what follows them.
  pub recv-pack :
      (m : Message) (rest : List ℕ)
      → Fits m
      → recv_paxos_message mp (msgpack_pack_paxos_message mp m ++ rest) ≡ received (some m) rest
  unfolding recv_paxos_message
  recv-pack m rest f =
      let (o, e, u) = unpack_next-pack m rest f in
      rw (some_bytes m rest f, e, recv_paxos_message)
        (rw (u, recv_unpacked)
          (ap (received (some m)) (drop-length (msgpack_pack_paxos_message mp m) rest)))
