-- ===== src/Storage.antt =====
-- paxos/storage.c and the table of functions of paxos/include/storage.h. A storage is a handle and the
-- functions of its back end, so `storage_open` and the others are the fields of an interface.
-- A function that returns an int returns here whether it returned 0, with the handle after it;
-- `get` is `none` where `storage_get_record` returns 0 and leaves `out` as it was.
pub mod Mem
pub mod Records
pub mod Lmdb
use libpaxos.Prelude.{ℕ, ◌≡◌, ◌≤◌, ◌<◌, Bool, true, false, Option, none, some, update}
use libpaxos.Types.{Accepted}

pub record StorageApi : Type 1 where
  pub Handle : Type 0
  pub open_store : Handle → Bool × Handle
  pub tx_begin : Handle → Bool × Handle
  pub tx_commit : Handle → Bool × Handle
  pub tx_abort : Handle → Handle
  pub get : Handle → ℕ → Option Accepted
  pub put : Handle → Accepted → Bool × Handle
  pub trim : Handle → ℕ → Bool × Handle
  pub get_trim_instance : Handle → ℕ

module _ (api : StorageApi) where
  open api use {Handle, tx_begin, tx_commit, tx_abort, get, put, trim}

  -- What an acceptor relies on. A transaction that fails leaves the records as they were before it;
  -- `storage_trim` may fail halfway, but touches no record above its instance.
  pub record StorageLaws (IsValid : Handle → Type 0) : Type 0 where
    pub begin-IsValid : (h : Handle) → IsValid h → IsValid (tx_begin h).1
    pub commit-IsValid : (h : Handle) → IsValid h → IsValid (tx_commit h).1
    pub abort-IsValid : (h : Handle) → IsValid h → IsValid (tx_abort h)
    pub put-IsValid : (h : Handle) (a : Accepted) → IsValid h → IsValid (put h a).1
    pub trim-IsValid : (h : Handle) (iid : ℕ) → IsValid h → IsValid (trim h iid).1
    pub get-begin : (h : Handle) → IsValid h → get (tx_begin h).1 ≡ get h
    pub get-commit : (h : Handle) → IsValid h → (tx_commit h).0 ≡ true → get (tx_commit h).1 ≡ get h
    pub get-put :
        (h : Handle) (a : Accepted)
        → IsValid h
        → (put h a).0 ≡ true
        → get (put h a).1 ≡ update (get h) a.iid (some a)
    pub get-trim : (h : Handle) (iid j : ℕ) → IsValid h → iid < j → get (trim h iid).1 j ≡ get h j
    pub get-trim_ok :
        (h : Handle) (iid j : ℕ)
        → IsValid h
        → (trim h iid).0 ≡ true
        → j ≤ iid
        → get (trim h iid).1 j ≡ none
    pub abort-put :
        (h : Handle) (a : Accepted)
        → IsValid h
        → (put (tx_begin h).1 a).0 ≡ false
        → get (tx_abort (put (tx_begin h).1 a).1) ≡ get h
    pub commit-begin_fail :
        (h : Handle)
        → IsValid h
        → (tx_commit (tx_begin h).1).0 ≡ false
        → get (tx_commit (tx_begin h).1).1 ≡ get h
    pub commit-put_fail :
        (h : Handle) (a : Accepted)
        → IsValid h
        → (tx_commit (put (tx_begin h).1 a).1).0 ≡ false
        → get (tx_commit (put (tx_begin h).1 a).1).1 ≡ get h
    pub commit-trim_fail :
        (h : Handle) (iid j : ℕ)
        → IsValid h
        → (tx_commit (trim (tx_begin h).1 iid).1).0 ≡ false
        → iid < j
        → get (tx_commit (trim (tx_begin h).1 iid).1).1 j ≡ get h j
