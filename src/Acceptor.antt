-- ===== src/Acceptor.antt =====
-- paxos/acceptor.c: an acceptor over any storage. A receive function returns what it puts into `out`,
-- `none` where it returns 0, and the new acceptor. `Acceptor/Store.antt` says what each function
-- does to the records, `Acceptor/Outcomes.antt` what it answers and when, `Acceptor/Promises.antt` that an acceptor keeps its promises. `Acceptor/History.antt`,
-- `Acceptor/Records.antt` and `Acceptor/Remembering.antt` relate the records to the messages that it has
-- sent, and `Acceptor/Progress.antt` shows that it answers.
pub mod Store
pub mod Outcomes
pub mod Promises
pub mod History
pub mod Records
pub mod Remembering
pub mod Progress
use libpaxos.Prelude.{
  ℕ, zero, suc, Bool, true, false, ◌||◌, ◌&&◌, not, Option, none, some, List, [], ◌∷◌, leb, ltb,
  length, u16, if◌then◌else◌,
}
use libpaxos.Types.{
  Value, Prepare, Promise, Accept, Accepted, Preempted, Trim, AcceptorState, Message, promise,
  accepted, preempted, no_accepted,
}
use libpaxos.Storage.{StorageApi}

-- `paxos_accepted_to_promise`
unfoldable pub accepted_to_promise : Accepted → Message
accepted_to_promise acc = promise (record {
  iid = acc.iid;
  ballot = acc.ballot;
  value_ballot = acc.value_ballot;
  aid = acc.aid;
  value = acc.value;
})

-- `paxos_accept_to_accepted`
unfoldable pub accept_to_accepted : ℕ → Accept → Accepted
accept_to_accepted id acc = record {
  iid = acc.iid;
  ballot = acc.ballot;
  value_ballot = acc.ballot;
  aid = u16 id;
  value = acc.value;
}

-- `paxos_accepted_to_preempted`
unfoldable pub accepted_to_preempted : ℕ → Accepted → Message
accepted_to_preempted id acc =
    preempted
      (record { iid = acc.iid; ballot = acc.ballot; value_ballot = 0; aid = u16 id; value = [] })

-- `!found || acc.ballot <= ballot`
abbrev pub may_move : Option Accepted → ℕ → Bool
may_move none ballot = true
may_move (some acc) ballot = leb acc.ballot ballot

-- `acc` after `memset` and `storage_get_record`
abbrev pub record_or_zero : Option Accepted → Accepted
record_or_zero none = no_accepted
record_or_zero (some acc) = acc

-- The record that an accepted prepare leaves: what was found, under the new ballot.
unfoldable pub prepared : ℕ → Prepare → Option Accepted → Accepted
prepared id req found = record (record_or_zero found) {
  aid = u16 id;
  iid = req.iid;
  ballot = req.ballot;
}

-- `found && out->value.paxos_value_len > 0`
unfoldable pub with_value : Option Accepted → Option Accepted
with_value none = none
with_value (some acc) = if ltb 0 (length acc.value) then some acc else none

module _ (api : StorageApi) where
  open api use {Handle, tx_begin, tx_commit, tx_abort, get, put, trim}

  pub record Acceptor : Type 0 where
    pub id : ℕ
    pub trim_iid : ℕ
    pub store : Handle

  -- `acceptor_new`, over the handle that `storage_init` made.
  unfoldable pub new : ℕ → Handle → Option Acceptor
  new id handle =
      let (opened, h0) = api.open_store handle in
      let (began, h1) = tx_begin h0 in
      let (committed, h2) = tx_commit h1 in
      if not opened
      then none
      else if not began
      then none
      else if not committed
      then none
      else some (record { id = id; trim_iid = api.get_trim_instance h1; store = h2 })

  -- Commits and replies, or drops the reply.
  unfoldable pub commit_and_reply : Acceptor → Handle → Message → Option Message × Acceptor
  commit_and_reply a h out =
      let (committed, h') = tx_commit h in
      (if committed then some out else none, record a { store = h' })

  unfoldable pub receive_prepare : Acceptor → Prepare → Option Message × Acceptor
  unfolding commit_and_reply prepared accepted_to_promise
  receive_prepare a req =
      let (began, h) = tx_begin a.store in
      let found = get h req.iid in
      let acc = prepared a.id req found in
      let (stored, h') = put h acc in
      if leb req.iid a.trim_iid
      then (none, a)
      else if not began
      then (none, record a { store = h })
      else if may_move found req.ballot
      then (if not stored
          then (none, record a { store = tx_abort h' })
          else commit_and_reply a h' (accepted_to_promise acc))
      else commit_and_reply a h (accepted_to_promise (record_or_zero found))

  unfoldable pub receive_accept : Acceptor → Accept → Option Message × Acceptor
  unfolding commit_and_reply accept_to_accepted accepted_to_preempted
  receive_accept a req =
      let (began, h) = tx_begin a.store in
      let found = get h req.iid in
      let acc = accept_to_accepted a.id req in
      let (stored, h') = put h acc in
      if leb req.iid a.trim_iid
      then (none, a)
      else if not began
      then (none, record a { store = h })
      else if may_move found req.ballot
      then (if not stored
          then (none, record a { store = tx_abort h' })
          else commit_and_reply a h' (accepted acc))
      else commit_and_reply a h (accepted_to_preempted a.id (record_or_zero found))

  unfoldable pub receive_repeat : Acceptor → ℕ → Option Accepted × Acceptor
  unfolding with_value
  receive_repeat a iid =
      let (began, h) = tx_begin a.store in
      let (committed, h') = tx_commit h in
      if not began
      then (none, record a { store = h })
      else (if committed then with_value (get h iid) else none, record a { store = h' })

  -- The flag is what the function returns.
  unfoldable pub receive_trim : Acceptor → Trim → Bool × Acceptor
  receive_trim a req =
      let (began, h) = tx_begin a.store in
      let (trimmed, h') = trim h req.iid in
      let (committed, h'') = tx_commit h' in
      if leb req.iid a.trim_iid
      then (false, a)
      else if not began
      then (false, record a { trim_iid = req.iid; store = h })
      else (committed, record a { trim_iid = req.iid; store = h'' })

  unfoldable pub current_state : Acceptor → AcceptorState
  current_state a = record { aid = a.id; trim_iid = a.trim_iid }
