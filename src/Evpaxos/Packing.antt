-- ===== src/Evpaxos/Packing.antt =====
-- evpaxos/paxos_types_pack.c and evpaxos/message.c, over the msgpack library: how a message becomes bytes, and
-- bytes a message. What is packed is the list of what the calls write, in their order. An unpack function is
-- `none` where it reads an element that is not there. `Packing/RoundTrip.antt` has the proofs.
pub mod RoundTrip
pub mod Plain
use libpaxos.Prelude.{
  ℕ, ◌+◌, Option, none, some, List, [], ◌∷◌, ◌++◌, length, drop, ◌==◌, u16, u32, if◌then◌else◌,
  ◌>>=◌,
}
use libpaxos.Types.{
  Value, Prepare, Promise, Accept, Accepted, Preempted, Repeat, Trim, AcceptorState, Message,
  prepare, promise, accept, accepted, preempted, repeat, trim, acceptor_state, client_value,
}
use libpaxos.Evpaxos.Msgpack.{Msgpack, Unpacked, done, continue, parse_error, joined}

-- What `recv_paxos_message` does: it returns 0 and takes nothing; it returns 1 with a message, and leaves
-- the rest in the buffer; or it reads what is not there. After a parse error msgpack returns a
-- negative number, which counts as success, and no object.
pub data Recv : Type 0 where
  nothing : Recv
  received : Option Message → List ℕ → Recv
  fault : Recv

module _ (mp : Msgpack) where
  open mp use {
    Object, pack_array, pack_uint16, pack_int16, pack_uint32, pack_bin, pack_bin_body, unpack_next,
    u64_at, bin_at,
  }

  unfoldable pub msgpack_pack_string : List ℕ → List ℕ
  msgpack_pack_string buffer = pack_bin (length buffer) ++ pack_bin_body buffer

  unfoldable pub msgpack_pack_paxos_value : Value → List ℕ
  unfolding msgpack_pack_string
  msgpack_pack_paxos_value v = msgpack_pack_string v

  -- The element at index `i`, and the next index.
  unfoldable pub msgpack_unpack_uint32_at : Object → ℕ → Option (ℕ × ℕ)
  msgpack_unpack_uint32_at o i = do v ← u64_at o i; some (u32 v, i + 1)

  unfoldable pub msgpack_unpack_uint16_at : Object → ℕ → Option (ℕ × ℕ)
  msgpack_unpack_uint16_at o i = do v ← u64_at o i; some (u16 v, i + 1)

  unfoldable pub msgpack_unpack_string_at : Object → ℕ → Option (List ℕ × ℕ)
  msgpack_unpack_string_at o i = do v ← bin_at o i; some (v, i + 1)

  unfoldable pub msgpack_unpack_paxos_value_at : Object → ℕ → Option (Value × ℕ)
  unfolding msgpack_unpack_string_at
  msgpack_unpack_paxos_value_at o i = msgpack_unpack_string_at o i

  unfoldable pub msgpack_pack_paxos_prepare : Prepare → List ℕ
  unfolding msgpack_pack_paxos_value
  msgpack_pack_paxos_prepare v =
      pack_array 6
      ++ joined (
          pack_uint16 0
          ∷ pack_uint32 v.iid
          ∷ pack_uint16 v.ballot
          ∷ pack_uint16 v.value_ballot
          ∷ pack_uint16 v.aid
          ∷ msgpack_pack_paxos_value v.value
          ∷ [])

  unfoldable pub msgpack_unpack_paxos_prepare : Object → Option Prepare
  unfolding msgpack_unpack_uint32_at msgpack_unpack_uint16_at msgpack_unpack_paxos_value_at
  msgpack_unpack_paxos_prepare o = do
    (iid, i) ← msgpack_unpack_uint32_at o 1
    (ballot, i') ← msgpack_unpack_uint16_at o i
    (value_ballot, i'') ← msgpack_unpack_uint16_at o i'
    (aid, i''') ← msgpack_unpack_uint16_at o i''
    (value, i'''') ← msgpack_unpack_paxos_value_at o i'''
    some (record {
      iid = iid;
      ballot = ballot;
      value_ballot = value_ballot;
      aid = aid;
      value = value;
    })

  unfoldable pub msgpack_pack_paxos_promise : Promise → List ℕ
  unfolding msgpack_pack_paxos_value
  msgpack_pack_paxos_promise v =
      pack_array 6
      ++ joined (
          pack_int16 1
          ∷ pack_uint32 v.iid
          ∷ pack_uint16 v.ballot
          ∷ pack_uint16 v.value_ballot
          ∷ pack_uint16 v.aid
          ∷ msgpack_pack_paxos_value v.value
          ∷ [])

  unfoldable pub msgpack_unpack_paxos_promise : Object → Option Promise
  unfolding msgpack_unpack_uint32_at msgpack_unpack_uint16_at msgpack_unpack_paxos_value_at
  msgpack_unpack_paxos_promise o = do
    (iid, i) ← msgpack_unpack_uint32_at o 1
    (ballot, i') ← msgpack_unpack_uint16_at o i
    (value_ballot, i'') ← msgpack_unpack_uint16_at o i'
    (aid, i''') ← msgpack_unpack_uint16_at o i''
    (value, i'''') ← msgpack_unpack_paxos_value_at o i'''
    some (record {
      iid = iid;
      ballot = ballot;
      value_ballot = value_ballot;
      aid = aid;
      value = value;
    })

  unfoldable pub msgpack_pack_paxos_accept : Accept → List ℕ
  unfolding msgpack_pack_paxos_value
  msgpack_pack_paxos_accept v =
      pack_array 6
      ++ joined (
          pack_int16 2
          ∷ pack_uint32 v.iid
          ∷ pack_uint16 v.ballot
          ∷ pack_uint16 v.value_ballot
          ∷ pack_uint16 v.aid
          ∷ msgpack_pack_paxos_value v.value
          ∷ [])

  unfoldable pub msgpack_unpack_paxos_accept : Object → Option Accept
  unfolding msgpack_unpack_uint32_at msgpack_unpack_uint16_at msgpack_unpack_paxos_value_at
  msgpack_unpack_paxos_accept o = do
    (iid, i) ← msgpack_unpack_uint32_at o 1
    (ballot, i') ← msgpack_unpack_uint16_at o i
    (value_ballot, i'') ← msgpack_unpack_uint16_at o i'
    (aid, i''') ← msgpack_unpack_uint16_at o i''
    (value, i'''') ← msgpack_unpack_paxos_value_at o i'''
    some (record {
      iid = iid;
      ballot = ballot;
      value_ballot = value_ballot;
      aid = aid;
      value = value;
    })

  unfoldable pub msgpack_pack_paxos_accepted : Accepted → List ℕ
  unfolding msgpack_pack_paxos_value
  msgpack_pack_paxos_accepted v =
      pack_array 6
      ++ joined (
          pack_int16 3
          ∷ pack_uint32 v.iid
          ∷ pack_uint16 v.ballot
          ∷ pack_uint16 v.value_ballot
          ∷ pack_uint16 v.aid
          ∷ msgpack_pack_paxos_value v.value
          ∷ [])

  unfoldable pub msgpack_unpack_paxos_accepted : Object → Option Accepted
  unfolding msgpack_unpack_uint32_at msgpack_unpack_uint16_at msgpack_unpack_paxos_value_at
  msgpack_unpack_paxos_accepted o = do
    (iid, i) ← msgpack_unpack_uint32_at o 1
    (ballot, i') ← msgpack_unpack_uint16_at o i
    (value_ballot, i'') ← msgpack_unpack_uint16_at o i'
    (aid, i''') ← msgpack_unpack_uint16_at o i''
    (value, i'''') ← msgpack_unpack_paxos_value_at o i'''
    some (record {
      iid = iid;
      ballot = ballot;
      value_ballot = value_ballot;
      aid = aid;
      value = value;
    })

  unfoldable pub msgpack_pack_paxos_preempted : Preempted → List ℕ
  unfolding msgpack_pack_paxos_value
  msgpack_pack_paxos_preempted v =
      pack_array 6
      ++ joined (
          pack_int16 4
          ∷ pack_uint32 v.iid
          ∷ pack_uint16 v.ballot
          ∷ pack_uint16 v.value_ballot
          ∷ pack_uint16 v.aid
          ∷ msgpack_pack_paxos_value v.value
          ∷ [])

  unfoldable pub msgpack_unpack_paxos_preempted : Object → Option Preempted
  unfolding msgpack_unpack_uint32_at msgpack_unpack_uint16_at msgpack_unpack_paxos_value_at
  msgpack_unpack_paxos_preempted o = do
    (iid, i) ← msgpack_unpack_uint32_at o 1
    (ballot, i') ← msgpack_unpack_uint16_at o i
    (value_ballot, i'') ← msgpack_unpack_uint16_at o i'
    (aid, i''') ← msgpack_unpack_uint16_at o i''
    (value, i'''') ← msgpack_unpack_paxos_value_at o i'''
    some (record {
      iid = iid;
      ballot = ballot;
      value_ballot = value_ballot;
      aid = aid;
      value = value;
    })

  unfoldable pub msgpack_pack_paxos_repeat : Repeat → List ℕ
  msgpack_pack_paxos_repeat v =
      pack_array 3 ++ joined (pack_int16 5 ∷ pack_uint32 v.from ∷ pack_uint32 v.to ∷ [])

  unfoldable pub msgpack_unpack_paxos_repeat : Object → Option Repeat
  unfolding msgpack_unpack_uint32_at
  msgpack_unpack_paxos_repeat o = do
    (from, i) ← msgpack_unpack_uint32_at o 1
    (to, i') ← msgpack_unpack_uint32_at o i
    some (record { from = from; to = to })

  unfoldable pub msgpack_pack_paxos_trim : Trim → List ℕ
  msgpack_pack_paxos_trim v = pack_array 2 ++ joined (pack_int16 6 ∷ pack_uint32 v.iid ∷ [])

  unfoldable pub msgpack_unpack_paxos_trim : Object → Option Trim
  unfolding msgpack_unpack_uint32_at
  msgpack_unpack_paxos_trim o = do
    (iid, i) ← msgpack_unpack_uint32_at o 1
    some (record { iid = iid })

  unfoldable pub msgpack_pack_paxos_acceptor_state : AcceptorState → List ℕ
  msgpack_pack_paxos_acceptor_state v =
      pack_array 3 ++ joined (pack_int16 7 ∷ pack_uint32 v.aid ∷ pack_uint32 v.trim_iid ∷ [])

  unfoldable pub msgpack_unpack_paxos_acceptor_state : Object → Option AcceptorState
  unfolding msgpack_unpack_uint32_at
  msgpack_unpack_paxos_acceptor_state o = do
    (aid, i) ← msgpack_unpack_uint32_at o 1
    (trim_iid, i') ← msgpack_unpack_uint32_at o i
    some (record { aid = aid; trim_iid = trim_iid })

  unfoldable pub msgpack_pack_paxos_client_value : Value → List ℕ
  unfolding msgpack_pack_paxos_value
  msgpack_pack_paxos_client_value v =
      pack_array 2 ++ joined (pack_int16 8 ∷ msgpack_pack_paxos_value v ∷ [])

  unfoldable pub msgpack_unpack_paxos_client_value : Object → Option Value
  unfolding msgpack_unpack_paxos_value_at
  msgpack_unpack_paxos_client_value o = do
    (value, i) ← msgpack_unpack_paxos_value_at o 1
    some value

  unfoldable pub msgpack_pack_paxos_message : Message → List ℕ
  unfolding msgpack_pack_paxos_prepare msgpack_pack_paxos_promise msgpack_pack_paxos_accept
      msgpack_pack_paxos_accepted msgpack_pack_paxos_preempted msgpack_pack_paxos_repeat
      msgpack_pack_paxos_trim msgpack_pack_paxos_acceptor_state msgpack_pack_paxos_client_value
  msgpack_pack_paxos_message (prepare v) = msgpack_pack_paxos_prepare v
  msgpack_pack_paxos_message (promise v) = msgpack_pack_paxos_promise v
  msgpack_pack_paxos_message (accept v) = msgpack_pack_paxos_accept v
  msgpack_pack_paxos_message (accepted v) = msgpack_pack_paxos_accepted v
  msgpack_pack_paxos_message (preempted v) = msgpack_pack_paxos_preempted v
  msgpack_pack_paxos_message (repeat v) = msgpack_pack_paxos_repeat v
  msgpack_pack_paxos_message (trim v) = msgpack_pack_paxos_trim v
  msgpack_pack_paxos_message (acceptor_state v) = msgpack_pack_paxos_acceptor_state v
  msgpack_pack_paxos_message (client_value v) = msgpack_pack_paxos_client_value v

  -- A message of the type that was read; `none` inside where no case of the switch fits, and only the
  -- type of the message is written.
  unfoldable pub unpack_type : ℕ → Object → Option (Option Message)
  unfolding msgpack_unpack_paxos_prepare msgpack_unpack_paxos_promise msgpack_unpack_paxos_accept
      msgpack_unpack_paxos_accepted msgpack_unpack_paxos_preempted msgpack_unpack_paxos_repeat
      msgpack_unpack_paxos_trim msgpack_unpack_paxos_acceptor_state
      msgpack_unpack_paxos_client_value
  unpack_type type o =
      if type == 0
      then (msgpack_unpack_paxos_prepare o >>= λ v. some (some (prepare v)))
      else if type == 1
      then (msgpack_unpack_paxos_promise o >>= λ v. some (some (promise v)))
      else if type == 2
      then (msgpack_unpack_paxos_accept o >>= λ v. some (some (accept v)))
      else if type == 3
      then (msgpack_unpack_paxos_accepted o >>= λ v. some (some (accepted v)))
      else if type == 4
      then (msgpack_unpack_paxos_preempted o >>= λ v. some (some (preempted v)))
      else if type == 5
      then (msgpack_unpack_paxos_repeat o >>= λ v. some (some (repeat v)))
      else if type == 6
      then (msgpack_unpack_paxos_trim o >>= λ v. some (some (trim v)))
      else if type == 7
      then (msgpack_unpack_paxos_acceptor_state o >>= λ v. some (some (acceptor_state v)))
      else if type == 8
      then (msgpack_unpack_paxos_client_value o >>= λ v. some (some (client_value v)))
      else some none

  -- The type is an unsigned int in C.
  unfoldable pub msgpack_unpack_paxos_message : Object → Option (Option Message)
  unfolding unpack_type
  msgpack_unpack_paxos_message o = do type ← u64_at o 0; unpack_type (u32 type) o

  unfoldable pub recv_unpacked : List ℕ → Unpacked Object → Recv
  unfolding msgpack_unpack_paxos_message
  recv_unpacked buffer continue = nothing
  recv_unpacked buffer parse_error = fault
  recv_unpacked buffer (done o offset) = elim (msgpack_unpack_paxos_message o) [
    | none ↦ fault
    | some m ↦ received m (drop offset buffer)
  ]

  unfoldable pub recv_paxos_message : List ℕ → Recv
  unfolding recv_unpacked
  recv_paxos_message buffer =
      if length buffer == 0 then nothing else recv_unpacked buffer (unpack_next buffer)

  -- `send_paxos_message` appends to the output buffer of a connection.
  unfoldable pub send_paxos_message : List ℕ → Message → List ℕ
  unfolding msgpack_pack_paxos_message
  send_paxos_message bev msg = bev ++ msgpack_pack_paxos_message msg

  unfoldable pub send_paxos_prepare : List ℕ → Prepare → List ℕ
  unfolding send_paxos_message
  send_paxos_prepare bev p = send_paxos_message bev (prepare p)

  unfoldable pub send_paxos_promise : List ℕ → Promise → List ℕ
  unfolding send_paxos_message
  send_paxos_promise bev p = send_paxos_message bev (promise p)

  unfoldable pub send_paxos_accept : List ℕ → Accept → List ℕ
  unfolding send_paxos_message
  send_paxos_accept bev p = send_paxos_message bev (accept p)

  unfoldable pub send_paxos_accepted : List ℕ → Accepted → List ℕ
  unfolding send_paxos_message
  send_paxos_accepted bev p = send_paxos_message bev (accepted p)

  unfoldable pub send_paxos_preempted : List ℕ → Preempted → List ℕ
  unfolding send_paxos_message
  send_paxos_preempted bev p = send_paxos_message bev (preempted p)

  unfoldable pub send_paxos_repeat : List ℕ → Repeat → List ℕ
  unfolding send_paxos_message
  send_paxos_repeat bev p = send_paxos_message bev (repeat p)

  unfoldable pub send_paxos_trim : List ℕ → Trim → List ℕ
  unfolding send_paxos_message
  send_paxos_trim bev p = send_paxos_message bev (trim p)

  unfoldable pub paxos_submit : List ℕ → Value → List ℕ
  unfolding send_paxos_message
  paxos_submit bev value = send_paxos_message bev (client_value value)
