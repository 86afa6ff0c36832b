-- ===== src/Storage/Lmdb.antt =====
-- paxos/storage_lmdb.c: the records in an LMDB data base, each under its instance, and the trim mark under the
-- key 0. LMDB is a parameter. A function is `none` where an `assert` fails, a transaction is missing,
-- or bytes are read that are not there. Opening the environment and its directory is not modelled.
-- `Lmdb/Laws.antt` and `Lmdb/Trims.antt` hold the proofs.
pub mod Laws
pub mod Trims
pub mod Cells
use libpaxos.Prelude.{
  ℕ, zero, suc, ◌+◌, Bool, true, false, not, ◌&&◌, Option, none, some, List, [], ◌∷◌, leb, ◌==◌,
  if◌then◌else◌, ◌>>=◌,
}
use libpaxos.Types.{Accepted}
use libpaxos.Storage.Records.{Layout, paxos_accepted_to_buffer, paxos_accepted_from_buffer}

-- The outcome of `mdb_get`.
pub data Lookup : Type 0 where
  found : List ℕ → Lookup
  notfound : Lookup
  failed : Lookup

-- The functions of LMDB that the code calls on one data base, with 32-bit keys. A function that may fail returns
-- whether it succeeded, with the transaction after it. `cursor_next` is `mdb_cursor_get` with
-- MDB_NEXT: the key it moves to. The source leaves its loop on any error of it; the laws
-- have it fail behind the last key only, which is what LMDB documents for valid arguments.
pub record Lmdb : Type 1 where
  pub Env : Type 0
  pub Txn : Type 0
  pub Cursor : Type 0
  pub txn_begin : Env → Option Txn
  pub txn_commit : Env → Txn → Bool × Env
  pub txn_abort : Env → Txn → Env
  pub get : Txn → ℕ → Lookup
  pub put : Txn → ℕ → List ℕ → Bool × Txn
  pub cursor_open : Txn → Option Cursor
  pub cursor_next : Txn → Cursor → Option (ℕ × Cursor)
  pub cursor_del : Txn → Cursor → Bool × Txn

module _ (lm : Lmdb) (lay : Layout) where
  open lm use {Env, Txn, Cursor}

  pub record LmdbStorage : Type 0 where
    pub env : Env
    pub txn : Option Txn
    pub acceptor_id : ℕ

  unfoldable pub lmdb_storage_tx_begin : LmdbStorage → Option (Bool × LmdbStorage)
  lmdb_storage_tx_begin s = elim s.txn [
    | some t ↦ none
    | none ↦ elim (lm.txn_begin s.env) [
      | none ↦ some (false, s)
      | some t ↦ some (true, record s { txn = some t })
    ]
  ]

  unfoldable pub lmdb_storage_tx_commit : LmdbStorage → Option (Bool × LmdbStorage)
  lmdb_storage_tx_commit s = do
    t ← s.txn
    let (ok, env) = lm.txn_commit s.env t
    some (ok, record s { env = env; txn = none })

  unfoldable pub lmdb_storage_tx_abort : LmdbStorage → LmdbStorage
  lmdb_storage_tx_abort s = elim s.txn [
    | none ↦ s
    | some t ↦ record s { env = lm.txn_abort s.env t; txn = none }
  ]

  -- What the bytes under a key are read as; the record must have the id of its key.
  unfoldable pub read_record : ℕ → Lookup → Option (Option Accepted)
  unfolding paxos_accepted_from_buffer
  read_record iid notfound = some none
  read_record iid failed = some none
  read_record iid (found bytes) = do
    acc ← paxos_accepted_from_buffer lay bytes
    if iid == acc.iid then some (some acc) else none

  unfoldable pub lmdb_storage_get : LmdbStorage → ℕ → Option (Option Accepted)
  unfolding read_record
  lmdb_storage_get s iid = s.txn >>= λ t. read_record iid (lm.get t iid)

  unfoldable pub lmdb_storage_put : LmdbStorage → Accepted → Option (Bool × LmdbStorage)
  unfolding paxos_accepted_to_buffer
  lmdb_storage_put s acc = do
    t ← s.txn
    let (ok, t') = lm.put t acc.iid (paxos_accepted_to_buffer lay acc)
    some (ok, record s { txn = some t' })

  unfoldable pub read_trim : Lookup → Option ℕ
  read_trim notfound = some 0
  read_trim failed = none
  read_trim (found bytes) = lay.iid_of bytes

  unfoldable pub lmdb_storage_get_trim_instance : LmdbStorage → Option ℕ
  unfolding read_trim
  lmdb_storage_get_trim_instance s = s.txn >>= λ t. read_trim (lm.get t 0)

  unfoldable pub lmdb_storage_put_trim_instance : Txn → ℕ → Option Txn
  lmdb_storage_put_trim_instance t iid =
      let (ok, t') = lm.put t 0 (lay.iid_image iid) in if ok then some t' else none

  -- The loop of `lmdb_storage_trim`, of at most `fuel` rounds.
  unfoldable pub trim_loop : ℕ → ℕ → Txn → Cursor → Option Txn
  trim_loop zero iid t c = none
  trim_loop (suc fuel) iid t c = elim (lm.cursor_next t c) [
    | none ↦ some t
    | some (min, c') ↦
        let deletes = not (min == 0) && leb min iid in
        let (ok, t') = lm.cursor_del t c' in
        let t1 = if deletes then t' else t in
        let rest = trim_loop fuel iid t1 c' in
        if deletes && not ok then some t' else if leb min iid then rest else some t1
  ]

  -- The keys come in order: at most one round for each key up to `iid`, and one for the key behind them.
  unfoldable pub trim_within : Txn → ℕ → Option Txn
  unfolding trim_loop lmdb_storage_put_trim_instance
  trim_within t iid = do
    t' ← lmdb_storage_put_trim_instance t iid
    elim (lm.cursor_open t') [ none ↦ some t' | some c ↦ trim_loop (iid + 2) iid t' c ]

  -- It returns 0, whatever fails.
  unfoldable pub lmdb_storage_trim : LmdbStorage → ℕ → Option (Bool × LmdbStorage)
  unfolding trim_within
  lmdb_storage_trim s iid =
      if iid == 0
      then some (true, s)
      else (do t ← s.txn; t' ← trim_within t iid; some (true, record s { txn = some t' }))
