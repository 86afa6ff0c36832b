-- ===== src/Storage/Mem/Laws.antt =====
-- The memory storage keeps what is put into it, and `mem_storage_trim` removes what it should.
use mathlib.Core.List.{Memᴰ}
use libpaxos.Prelude.{
  ℕ, ◌≡◌, refl, ◌<◌, ◌≤◌, inl, inr, true, false, none, some, List, [], ◌∷◌, ◌∙◌, arith, leb, ◌==◌,
  if◌then◌else◌, update, Bool-cases, Option-cases, ap, sym, subst,
}
use libpaxos.Types.{Accepted}
use libpaxos.Khash.{Khash}
use libpaxos.Storage.{StorageLaws}
use libpaxos.Storage.Mem.{
  MemStorage, mem_storage_tx_begin, mem_storage_tx_commit, mem_storage_tx_abort, mem_storage_get,
  mem_storage_put, mem_storage_trim, trim_buckets, storage_mem,
}

module _ (kh : Khash Accepted) where
  open kh use {Table}

  -- Each record lies under its own instance.
  abbrev pub IsValid : MemStorage kh → Type 0
  IsValid s = (k : ℕ) (a : Accepted) → kh.get s.records k ≡ some a → a.iid ≡ k

  del-at : (t : Table) (k j : ℕ) → kh.get (kh.del t k) j ≡ (if k == j then none else kh.get t j)
  del-at t k j = ap (λ m. m j) (kh.get-del t k)

  put-at :
      (t : Table) (k : ℕ) (v : Accepted) (j : ℕ)
      → kh.get (kh.put t k v) j ≡ (if k == j then some v else kh.get t j)
  put-at t k v j = ap (λ m. m j) (kh.get-put t k v)

  -- One bucket of the walk.
  trim_bucket : ℕ → ℕ → Accepted → Table → Table
  trim_bucket iid k acc t = if leb acc.iid iid then kh.del t k else t

  trim_bucket-none :
      (iid j k : ℕ) (acc : Accepted) (t : Table)
      → kh.get t j ≡ none
      → kh.get (trim_bucket iid k acc t) j ≡ none
  unfolding trim_bucket
  trim_bucket-none iid j k acc t h = ground (arith, del-at t k j)

  trim_bucket-hit :
      (iid j : ℕ) (acc : Accepted) (t : Table)
      → acc.iid ≤ iid
      → kh.get (trim_bucket iid j acc t) j ≡ none
  unfolding trim_bucket
  trim_bucket-hit iid j acc t h = ground (arith, del-at t j j)

  trim_bucket-miss :
      (iid j k : ℕ) (acc : Accepted) (t : Table)
      → (k ≡ j → iid < acc.iid)
      → kh.get (trim_bucket iid k acc t) j ≡ kh.get t j
  unfolding trim_bucket
  trim_bucket-miss iid j k acc t h = ground (arith, del-at t k j)

  trim_buckets-none :
      (iid j : ℕ) (es : List (ℕ × Accepted)) (t : Table)
      → kh.get t j ≡ none
      → kh.get (trim_buckets kh iid es t) j ≡ none
  unfolding trim_buckets trim_bucket
  trim_buckets-none iid j [] t h = h
  trim_buckets-none iid j ((k, acc) ∷ es) t h =
      trim_buckets-none iid j es _ (trim_bucket-none iid j k acc t h)

  trim_buckets-keeps :
      (iid j : ℕ) (es : List (ℕ × Accepted)) (t : Table)
      → ((a : Accepted) → Memᴰ (j, a) es → iid < a.iid)
      → kh.get (trim_buckets kh iid es t) j ≡ kh.get t j
  unfolding trim_buckets trim_bucket
  trim_buckets-keeps iid j [] t h = refl
  trim_buckets-keeps iid j ((k, acc) ∷ es) t h =
      trim_buckets-keeps iid j es _ (λ a m. h a (Memᴰ.tail m))
      ∙ trim_bucket-miss iid j k acc t (λ e. h acc (Memᴰ.head (ap (λ i. (i, acc)) (sym e))))

  trim_buckets-removes :
      (iid j : ℕ) (a : Accepted) (es : List (ℕ × Accepted)) (t : Table)
      → Memᴰ (j, a) es
      → a.iid ≤ iid
      → kh.get (trim_buckets kh iid es t) j ≡ none
  unfolding trim_buckets trim_bucket
  trim_buckets-removes iid j a [] t m h = elim m [ ]
  trim_buckets-removes iid j a ((k, acc) ∷ es) t (Memᴰ.head e) h = trim_buckets-none iid j es _ (
      subst (λ (p : ℕ × Accepted). kh.get (trim_bucket iid p.0 p.1 t) j ≡ none) e
        (trim_bucket-hit iid j a t h))
  trim_buckets-removes iid j a ((k, acc) ∷ es) t (Memᴰ.tail m) h =
      trim_buckets-removes iid j a es _ m h

  -- In a storage whose records lie under their own instances, `mem_storage_trim` removes the records
  -- up to the given instance and keeps every other record as it is.
  get-mem_storage_trim :
      (s : MemStorage kh) (iid j : ℕ)
      → IsValid s
      → mem_storage_get kh (mem_storage_trim kh s iid).1 j
        ≡ (if leb j iid then none else mem_storage_get kh s j)
  unfolding mem_storage_trim mem_storage_get
  get-mem_storage_trim s iid j v = elim (Option-cases (kh.get s.records j)) [
    | inl e ↦ ground (arith, trim_buckets-none iid j (kh.entries s.records) s.records)
    | inr (a, e) ↦ elim (Bool-cases (leb j iid)) [
      | inl le ↦ rw le (
          trim_buckets-removes iid j a (kh.entries s.records) s.records
            (kh.entries-mem s.records j a e) (ground (arith, v j a)))
      | inr gt ↦ rw gt (
          trim_buckets-keeps iid j (kh.entries s.records) s.records
            λ b m. ground (arith, v j b, kh.mem-entries s.records j b m))
    ]
  ]

  put-IsValid : (s : MemStorage kh) (a : Accepted) → IsValid s → IsValid (mem_storage_put kh s a).1
  unfolding mem_storage_put
  put-IsValid s a v k b e = elim (Bool-cases (kh.room s.records a.iid)) [
    | inl r ↦ ground (arith, put-at s.records a.iid a k, v k b)
    | inr r ↦ ground (arith, v k b)
  ]

  trim-IsValid : (s : MemStorage kh) (iid : ℕ) → IsValid s → IsValid (mem_storage_trim kh s iid).1
  unfolding mem_storage_get
  trim-IsValid s iid v k b e = ground (arith, get-mem_storage_trim s iid k v, v k b, e)

  get-put :
      (s : MemStorage kh) (a : Accepted)
      → (mem_storage_put kh s a).0 ≡ true
      → mem_storage_get kh (mem_storage_put kh s a).1 ≡ update (mem_storage_get kh s) a.iid (some a)
  unfolding mem_storage_get mem_storage_put
  get-put s a e = elim (Bool-cases (kh.room s.records a.iid)) [
    | inl r ↦ rw (r, mem_storage_put) (kh.get-put s.records a.iid a)
    | inr r ↦ ground arith
  ]

  put-fail :
      (s : MemStorage kh) (a : Accepted)
      → (mem_storage_put kh s a).0 ≡ false
      → (mem_storage_put kh s a).1 ≡ s
  unfolding mem_storage_put
  put-fail s a e = ground arith

  -- The memory storage meets every law that an acceptor relies on, its invariant being that each record
  -- lies under its own instance.
  pub mem_laws : StorageLaws (storage_mem kh) IsValid
  unfolding mem_storage_tx_begin mem_storage_tx_commit mem_storage_tx_abort
  mem_laws = record {
    begin-IsValid = λ h v. v;
    commit-IsValid = λ h v. v;
    abort-IsValid = λ h v. v;
    put-IsValid = put-IsValid;
    trim-IsValid = trim-IsValid;
    get-begin = λ h v. refl;
    get-commit = λ h v e. refl;
    get-put = λ h a v e. get-put h a e;
    get-trim = λ h iid j v lt. ground (arith, get-mem_storage_trim h iid j v);
    get-trim_ok = λ h iid j v e le. ground (arith, get-mem_storage_trim h iid j v);
    abort-put = λ h a v e. ap (mem_storage_get kh) (put-fail h a e);
    commit-begin_fail = λ h v e. cc;
    commit-put_fail = λ h a v e. cc;
    commit-trim_fail = λ h iid j v e lt. cc;
  }
