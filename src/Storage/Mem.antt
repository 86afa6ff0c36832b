-- ===== src/Storage/Mem.antt =====
-- paxos/storage_mem.c: the records in a hash table. The allocation of the storage itself is taken to
-- succeed. `Mem/Laws.antt` shows that it is a storage as the acceptor wants one.
pub mod Laws
use libpaxos.Prelude.{ℕ, Bool, true, false, Option, none, some, List, [], ◌∷◌, leb, if◌then◌else◌}
use libpaxos.Types.{Accepted}
use libpaxos.Khash.{Khash}
use libpaxos.Storage.{StorageApi}

module _ (kh : Khash Accepted) where
  open kh use {Table}

  pub record MemStorage : Type 0 where
    pub trim_iid : ℕ
    pub records : Table

  unfoldable pub mem_storage_new : MemStorage
  mem_storage_new = record { trim_iid = 0; records = kh.init }

  unfoldable pub mem_storage_open : MemStorage → Bool × MemStorage
  mem_storage_open s = (true, s)

  unfoldable pub mem_storage_tx_begin : MemStorage → Bool × MemStorage
  mem_storage_tx_begin s = (true, s)

  unfoldable pub mem_storage_tx_commit : MemStorage → Bool × MemStorage
  mem_storage_tx_commit s = (true, s)

  unfoldable pub mem_storage_tx_abort : MemStorage → MemStorage
  mem_storage_tx_abort s = s

  unfoldable pub mem_storage_get : MemStorage → ℕ → Option Accepted
  mem_storage_get s iid = kh.get s.records iid

  unfoldable pub mem_storage_put : MemStorage → Accepted → Bool × MemStorage
  mem_storage_put s acc =
      if kh.room s.records acc.iid
      then (true, record s { records = kh.put s.records acc.iid acc })
      else (false, s)

  -- The walk over the buckets of the table as it was found; `kh_del` does not move a bucket.
  unfoldable pub trim_buckets : ℕ → List (ℕ × Accepted) → Table → Table
  trim_buckets iid [] t = t
  trim_buckets iid ((k, acc) ∷ es) t =
      trim_buckets iid es (if leb acc.iid iid then kh.del t k else t)

  unfoldable pub mem_storage_trim : MemStorage → ℕ → Bool × MemStorage
  unfolding trim_buckets
  mem_storage_trim s iid = (
    true,
    record s { trim_iid = iid; records = trim_buckets iid (kh.entries s.records) s.records },
  )

  unfoldable pub mem_storage_get_trim_instance : MemStorage → ℕ
  mem_storage_get_trim_instance s = s.trim_iid

  -- `storage_init_mem`
  abbrev pub storage_mem : StorageApi
  storage_mem = record {
    Handle = MemStorage;
    open_store = mem_storage_open;
    tx_begin = mem_storage_tx_begin;
    tx_commit = mem_storage_tx_commit;
    tx_abort = mem_storage_tx_abort;
    get = mem_storage_get;
    put = mem_storage_put;
    trim = mem_storage_trim;
    get_trim_instance = mem_storage_get_trim_instance;
  }
