-- ===== src/Storage/Lmdb/Laws.antt =====
-- The documented behaviour of LMDB as laws, and that a record survives its transaction.
use libpaxos.Prelude.{
  ℕ, ◌+◌, ◌<◌, ◌≤◌, ◌≡◌, refl, ◌⊎◌, inl, inr, true, Option, none, some, List, [], ◌∷◌, arith, ◌==◌,
  if◌then◌else◌, ap, ◌∙◌, ◌>>=◌, update, update-eq,
}
use libpaxos.Types.{Accepted}
use libpaxos.Storage.Records.{
  Layout, Narrow, header, paxos_accepted_to_buffer, from_buffer-to_buffer,
}
use libpaxos.Storage.Lmdb.{
  Lookup, found, notfound, failed, Lmdb, LmdbStorage, read_record, lmdb_storage_tx_begin,
  lmdb_storage_tx_commit, lmdb_storage_get, lmdb_storage_put,
}

-- The keys of a map from `lo` on, in ascending order.
abbrev pub Covers : ℕ → List ℕ → (ℕ → Option (List ℕ)) → Type 0
Covers lo [] v = (k : ℕ) → lo ≤ k → v k ≡ none
Covers lo (x ∷ xs) v = (lo ≤ x) × ((k : ℕ) → lo ≤ k → k < x → v k ≡ none) × Covers (x + 1) xs v

abbrev pub lookup_of : Option (List ℕ) → Lookup
lookup_of none = notfound
lookup_of (some bytes) = found bytes

-- `view` is what a transaction sees, `stored` what is committed, `ahead` the keys that a cursor has not met
-- and `place` the one it stands at. A read may fail. A cursor walks over the keys in their order, and
-- goes on behind a key that was deleted through it.
pub record LmdbLaws (lm : Lmdb) : Type 0 where
  pub view : lm.Txn → ℕ → Option (List ℕ)
  pub stored : lm.Env → ℕ → Option (List ℕ)
  pub ahead : lm.Txn → lm.Cursor → List ℕ
  pub place : lm.Cursor → ℕ
  pub begin-view : (e : lm.Env) (t : lm.Txn) → lm.txn_begin e ≡ some t → view t ≡ stored e
  pub commit-stored :
      (e : lm.Env) (t : lm.Txn)
      → (lm.txn_commit e t).0 ≡ true
      → stored (lm.txn_commit e t).1 ≡ view t
  pub abort-stored : (e : lm.Env) (t : lm.Txn) → stored (lm.txn_abort e t) ≡ stored e
  pub get-view : (t : lm.Txn) (k : ℕ) → (lm.get t k ≡ failed) ⊎ (lm.get t k ≡ lookup_of (view t k))
  pub put-view :
      (t : lm.Txn) (k : ℕ) (bytes : List ℕ)
      → (lm.put t k bytes).0 ≡ true
      → view (lm.put t k bytes).1 ≡ update (view t) k (some bytes)
  pub open-Covers :
      (t : lm.Txn) (c : lm.Cursor) → lm.cursor_open t ≡ some c → Covers 0 (ahead t c) (view t)
  pub next-ahead :
      (t : lm.Txn) (c : lm.Cursor)
      → ((lm.cursor_next t c ≡ none) × (ahead t c ≡ []))
        ⊎ ((k : ℕ) × (c' : lm.Cursor) × (lm.cursor_next t c ≡ some (k, c'))
            × (ahead t c ≡ k ∷ ahead t c')
            × (place c' ≡ k))
  pub del-view :
      (t : lm.Txn) (c : lm.Cursor)
      → (lm.cursor_del t c).0 ≡ true
      → (view (lm.cursor_del t c).1 ≡ update (view t) (place c) none)
        × (ahead (lm.cursor_del t c).1 c ≡ ahead t c)

module _ (lm : Lmdb) (lay : Layout) (laws : LmdbLaws lm) where
  read-to_buffer :
      (acc : Accepted) (l : Lookup)
      → Narrow (header acc)
      → l ≡ found (paxos_accepted_to_buffer lay acc)
      → read_record lm lay acc.iid l ≡ some (some acc)
  unfolding read_record
  read-to_buffer acc l n e =
      let same : (acc.iid == acc.iid) ≡ true = ground arith in
      ap (read_record lm lay acc.iid) e
      ∙ ap (λ o. o >>= λ x. if acc.iid == x.iid then some (some x) else none)
          (from_buffer-to_buffer lay acc n)
      ∙ ap (λ b. if b then some (some acc) else none) same

  -- For a record whose fields fit into their types: when the transaction that puts it and its commit succeed, a
  -- later transaction gets the record back, or reports that it cannot read.
  pub get-tx_begin :
      (s : LmdbStorage lm lay) (t t2 : lm.Txn) (acc : Accepted)
      → Narrow (header acc)
      → s.txn ≡ some t
      → (lm.put t acc.iid (paxos_accepted_to_buffer lay acc)).0 ≡ true
      → let t1 = (lm.put t acc.iid (paxos_accepted_to_buffer lay acc)).1 in
        (lm.txn_commit s.env t1).0 ≡ true
        → lm.txn_begin (lm.txn_commit s.env t1).1 ≡ some t2
        → (s1 : LmdbStorage lm lay) × (s2 : LmdbStorage lm lay) × (s3 : LmdbStorage lm lay)
          × (lmdb_storage_put lm lay s acc ≡ some (true, s1))
          × (lmdb_storage_tx_commit lm lay s1 ≡ some (true, s2))
          × (lmdb_storage_tx_begin lm lay s2 ≡ some (true, s3))
          × ((lmdb_storage_get lm lay s3 acc.iid ≡ some (some acc)) ⊎ (lm.get t2 acc.iid ≡ failed))
  unfolding lmdb_storage_put lmdb_storage_tx_commit lmdb_storage_tx_begin lmdb_storage_get
  get-tx_begin s t t2 acc n has put commit begin =
      let buffer : List ℕ = paxos_accepted_to_buffer lay acc in
      let t1 : lm.Txn = (lm.put t acc.iid buffer).1 in
      let env : lm.Env = (lm.txn_commit s.env t1).1 in
      let s1 : LmdbStorage lm lay = record s { txn = some t1 } in
      let s2 : LmdbStorage lm lay = record s { env = env; txn = none } in
      let s3 : LmdbStorage lm lay = record s2 { txn = some t2 } in
      let sees : laws.view t2 acc.iid ≡ some buffer =
        ap (λ m. m acc.iid)
          (laws.begin-view env t2 begin
            ∙ laws.commit-stored s.env t1 commit
            ∙ laws.put-view t acc.iid buffer put)
        ∙ update-eq (laws.view t) acc.iid acc.iid (some buffer) refl in
      (
        s1,
        s2,
        s3,
        ap
              (λ o. o >>= λ x.
                some (
                  (lm.put x acc.iid buffer).0,
                  record s { txn = some (lm.put x acc.iid buffer).1 },
                ))
              has
            ∙ ap (λ b. some (b, s1)) put,
        ap (λ b. some (b, s2)) commit,
        rw (begin, lmdb_storage_tx_begin) refl,
        elim (laws.get-view t2 acc.iid) [
          | inl f ↦ inr f
          | inr f ↦ inl (read-to_buffer acc (lm.get t2 acc.iid) n (f ∙ ap lookup_of sees))
        ],
      )
