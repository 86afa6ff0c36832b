-- ===== src/Storage/Lmdb/Trims.antt =====
-- What `lmdb_storage_trim` removes.
use libpaxos.Prelude.{
  ℕ, zero, suc, ◌+◌, ◌<◌, ◌≤◌, ◌≡◌, refl, inl, inr, true, false, not, ◌&&◌, Option, none, some,
  List, [], ◌∷◌, arith, leb, ◌==◌, if◌then◌else◌, ap, sym, subst, ◌∙◌, update, Bool-cases,
}
use libpaxos.Storage.Records.{Layout}
use libpaxos.Storage.Lmdb.{
  Lmdb, LmdbStorage, trim_loop, trim_within, lmdb_storage_put_trim_instance, lmdb_storage_trim,
}
use libpaxos.Storage.Lmdb.Laws.{Covers, LmdbLaws}

-- A map without its keys from `lo` to `hi`, the key 0 kept.
abbrev pub cut : ℕ → ℕ → (ℕ → Option (List ℕ)) → ℕ → Option (List ℕ)
cut lo hi v k = if leb lo k && (not (k == 0) && leb k hi) then none else v k

Covers-same :
    (lo : ℕ) (xs : List ℕ) (v w : ℕ → Option (List ℕ))
    → ((k : ℕ) → lo ≤ k → w k ≡ v k)
    → Covers lo xs v
    → Covers lo xs w
Covers-same lo [] v w h c = λ k le. h k le ∙ c k le
Covers-same lo (x ∷ xs) v w h (le, gap, c) =
    (le, λ k a b. h k a ∙ gap k a b, Covers-same (x + 1) xs v w (λ k a. h k (omega arith)) c)

cut-none :
    (lo hi : ℕ) (v : ℕ → Option (List ℕ))
    → ((k : ℕ) → lo ≤ k → k ≤ hi → v k ≡ none)
    → (k : ℕ) → v k ≡ cut lo hi v k
cut-none lo hi v h k = ground (arith, h k)

-- A round that passes over the key 0.
cut-mark :
    (lo hi min : ℕ) (v : ℕ → Option (List ℕ))
    → min ≡ 0
    → lo ≤ min
    → (k : ℕ) → cut (min + 1) hi v k ≡ cut lo hi v k
cut-mark lo hi min v e le k = ground arith

-- A round that deletes a key.
cut-update :
    (lo hi min : ℕ) (v w : ℕ → Option (List ℕ))
    → w ≡ update v min none
    → (min == 0) ≡ false
    → lo ≤ min
    → min ≤ hi
    → ((k : ℕ) → lo ≤ k → k < min → v k ≡ none)
    → (k : ℕ) → cut (min + 1) hi w k ≡ cut lo hi v k
cut-update lo hi min v w e other low within gap k =
    ap (λ m. cut (min + 1) hi m k) e ∙ ground (arith, gap k)

module _ (lm : Lmdb) (lay : Layout) (laws : LmdbLaws lm) where
  -- Every deletion through a cursor that stands at a key succeeds.
  abbrev pub Deletes : Type 0
  Deletes =
      (t : lm.Txn) (c c' : lm.Cursor) (k : ℕ)
      → lm.cursor_next t c ≡ some (k, c')
      → (lm.cursor_del t c').0 ≡ true

  trim_loop-view :
      (fuel lo iid : ℕ) (t : lm.Txn) (c : lm.Cursor)
      → Deletes
      → Covers lo (laws.ahead t c) (laws.view t)
      → lo ≤ iid + 1
      → iid + 2 ≤ fuel + lo
      → (t' : lm.Txn) × (trim_loop lm lay fuel iid t c ≡ some t')
        × ((k : ℕ) → laws.view t' k ≡ cut lo iid (laws.view t) k)
  unfolding trim_loop
  trim_loop-view zero lo iid t c del cov le enough = absurd (omega arith)
  trim_loop-view (suc fuel) lo iid t c del cov le enough = elim (laws.next-ahead t c) [
    | inl (e, f) ↦ (
      t,
      rw (e, trim_loop) refl,
      cut-none lo iid (laws.view t) (λ k a b. subst (λ xs. Covers lo xs (laws.view t)) f cov k a),
    )
    | inr (min, c', e, f, there) ↦
        let (low, gap, rest) = subst (λ xs. Covers lo xs (laws.view t)) f cov in
        let ok = del t c c' min e in
        elim (Bool-cases (leb min iid)) [
          | inr above ↦
              let nonzero : (min == 0) ≡ false = ground arith in
              (
                t,
                rw (e, trim_loop) (rw (above, nonzero) refl),
                cut-none lo iid (laws.view t) (λ k a b. gap k a (ground arith)),
              )
          | inl within ↦ elim (Bool-cases (min == 0)) [
            | inl mark ↦
                let (t', g, v) =
                  trim_loop-view fuel (min + 1) iid t c' del rest (ground arith) (omega arith) in
                (
                  t',
                  rw (e, trim_loop) (rw (mark, within) g),
                  λ k. v k ∙ cut-mark lo iid min (laws.view t) (ground arith) low k,
                )
            | inr other ↦
                let t1 : lm.Txn = (lm.cursor_del t c').1 in
                let (gone, same) = laws.del-view t c' ok in
                let gone' = gone ∙ ap (λ i. update (laws.view t) i none) there in
                let rest' =
                  Covers-same (min + 1) (laws.ahead t1 c') (laws.view t) (laws.view t1)
                    (λ k a. ap (λ m. m k) gone' ∙ ground arith)
                    (subst (λ xs. Covers (min + 1) xs (laws.view t)) (sym same) rest) in
                let (t', g, v) =
                  trim_loop-view fuel (min + 1) iid t1 c' del rest' (ground arith) (omega arith) in
                (
                  t',
                  rw (e, trim_loop) (rw (other, within, ok) g),
                  λ k.
                      v k
                      ∙ cut-update lo iid min (laws.view t) (laws.view t1) gone' other low
                          (ground arith) gap k,
                )
          ]
        ]
  ]

  -- Inside a transaction, for an instance above 0, where the trim mark is put, a cursor opens and every deletion
  -- succeeds, the loop of `lmdb_storage_trim` ends. It removes the records up to the instance, keeps
  -- every other one, and leaves the instance as the trim mark under the key 0.
  pub lmdb_storage_trim-view :
      (s : LmdbStorage lm lay) (t : lm.Txn) (c : lm.Cursor) (iid : ℕ)
      → s.txn ≡ some t
      → 0 < iid
      → (lm.put t 0 (lay.iid_image iid)).0 ≡ true
      → lm.cursor_open (lm.put t 0 (lay.iid_image iid)).1 ≡ some c
      → Deletes
      → (t' : lm.Txn) × (lmdb_storage_trim lm lay s iid ≡ some (true, record s { txn = some t' }))
        × ((k : ℕ)
            → laws.view t' k ≡ (
                if k == 0
                then some (lay.iid_image iid)
                else if leb k iid
                then none
                else laws.view t k))
  unfolding lmdb_storage_trim trim_within lmdb_storage_put_trim_instance
  lmdb_storage_trim-view s t c iid has pos put opens del =
      let t1 : lm.Txn = (lm.put t 0 (lay.iid_image iid)).1 in
      let (t', g, v) =
        trim_loop-view (iid + 2) 0 iid t1 c del (laws.open-Covers t1 c opens) (omega arith)
          (omega arith) in
      let positive : (iid == 0) ≡ false = ground arith in
      (
        t',
        rw (positive, lmdb_storage_trim) (rw (has, put, opens, trim_within) (rw g refl)),
        λ k.
            v k
            ∙ ap (λ m. cut 0 iid m k) (laws.put-view t 0 (lay.iid_image iid) put)
            ∙ ground arith,
      )
