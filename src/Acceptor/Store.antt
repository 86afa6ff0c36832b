-- ===== src/Acceptor/Store.antt =====
-- What each receive function of an acceptor does to its records, over any storage that meets its laws.
use libpaxos.Prelude.{
  ℕ, ◌≡◌, refl, ◌<◌, ◌≤◌, ◌⊎◌, inl, inr, true, false, Option, none, some, ◌∙◌, arith, leb, ltb, not,
  if◌then◌else◌, update, Bool-cases, ap, length,
}
use libpaxos.Types.{Prepare, Accept, Accepted, Trim, Message, accepted}
use libpaxos.Storage.{StorageApi, StorageLaws}
use libpaxos.Acceptor.{
  Acceptor, accepted_to_promise, accept_to_accepted, accepted_to_preempted, may_move,
  record_or_zero, prepared, commit_and_reply, receive_prepare, receive_accept, receive_repeat,
  receive_trim, with_value,
}

module _ (api : StorageApi) where
  open api use {Handle, tx_begin, tx_commit, tx_abort, get, put, trim}

  -- The records of an acceptor, by instance.
  abbrev pub recs : Acceptor api → ℕ → Option Accepted
  recs a = get a.store

  -- The acceptor's identity, its trim mark, and the state of its storage.
  pub record Kept (Valid : Handle → Type 0) (a a' : Acceptor api) : Type 0 where
    pub id : a'.id ≡ a.id
    pub trim_iid : a'.trim_iid ≡ a.trim_iid
    pub valid : Valid a'.store

  -- The transaction that `acceptor_receive_prepare` and `acceptor_receive_accept` have in common: look up
  -- the instance, and either store a record and reply, or reply with what was found.
  unfoldable pub transact :
      Acceptor api
      → ℕ
      → ℕ
      → (Option Accepted → Accepted)
      → (Option Accepted → Message)
      → (Option Accepted → Message)
      → Option Message × Acceptor api
  transact a iid ballot acc reply refuse =
      let (began, h) = tx_begin a.store in
      let found = get h iid in
      let (stored, h') = put h (acc found) in
      if leb iid a.trim_iid
      then (none, a)
      else if not began
      then (none, record a { store = h })
      else if may_move found ballot
      then (if not stored
          then (none, record a { store = tx_abort h' })
          else commit_and_reply api a h' (reply found))
      else commit_and_reply api a h (refuse found)

  -- What such a transaction may do: drop the message and leave the records alone, store the
  -- new record, or refuse for a record of a higher ballot.
  pub data Moves (a : Acceptor api) (iid ballot : ℕ) (acc : Option Accepted → Accepted)
      (reply refuse : Option Accepted → Message) (r : Option Message × Acceptor api) : Type 0 where
    dropped : r.0 ≡ none → recs r.1 ≡ recs a → Moves a iid ballot acc reply refuse r
    stored :
        a.trim_iid < iid
        → may_move (recs a iid) ballot ≡ true
        → r.0 ≡ some (reply (recs a iid))
        → recs r.1 ≡ update (recs a) (acc (recs a iid)).iid (some (acc (recs a iid)))
        → Moves a iid ballot acc reply refuse r
    refused :
        a.trim_iid < iid
        → may_move (recs a iid) ballot ≡ false
        → r.0 ≡ some (refuse (recs a iid))
        → recs r.1 ≡ recs a
        → Moves a iid ballot acc reply refuse r

module _ (api : StorageApi) (Valid : api.Handle → Type 0) (laws : StorageLaws api Valid) where
  open api use {Handle, tx_begin, tx_commit, tx_abort, get, put, trim}

  -- The two ends of the transaction, each with its commit.
  refuse_end :
      (a : Acceptor api) (iid ballot : ℕ) (acc : Option Accepted → Accepted)
      (reply refuse : Option Accepted → Message)
      → Valid a.store
      → a.trim_iid < iid
      → may_move (recs api a iid) ballot ≡ false
      → let r = commit_and_reply api a (tx_begin a.store).1 (refuse (recs api a iid)) in
        Moves api a iid ballot acc reply refuse r × Kept api Valid a r.1
  unfolding commit_and_reply
  refuse_end a iid ballot acc reply refuse v lt m =
      elim (Bool-cases (tx_commit (tx_begin a.store).1).0) [
        | inl c ↦ (
          refused lt m (rw c refl) (laws.get-commit _ b c ∙ laws.get-begin a.store v),
          record { id = refl; trim_iid = refl; valid = laws.commit-IsValid _ b },
        )
        | inr c ↦ (
          dropped (rw c refl) (laws.commit-begin_fail a.store v c),
          record { id = refl; trim_iid = refl; valid = laws.commit-IsValid _ b },
        )
      ]
    where
      b : Valid (tx_begin a.store).1
      b = laws.begin-IsValid a.store v

  store_end :
      (a : Acceptor api) (iid ballot : ℕ) (acc : Option Accepted → Accepted)
      (reply refuse : Option Accepted → Message)
      → Valid a.store
      → a.trim_iid < iid
      → may_move (recs api a iid) ballot ≡ true
      → let p = put (tx_begin a.store).1 (acc (recs api a iid)) in
        let r =
          (if not p.0
            then (none, record a { store = tx_abort p.1 })
            else commit_and_reply api a p.1 (reply (recs api a iid))) in
        Moves api a iid ballot acc reply refuse r × Kept api Valid a r.1
  unfolding commit_and_reply
  store_end a iid ballot acc reply refuse v lt m =
      elim (Bool-cases (put (tx_begin a.store).1 (acc (recs api a iid))).0) [
        | inr p ↦ rw p (
          dropped refl (laws.abort-put a.store _ v p),
          record { id = refl; trim_iid = refl; valid = laws.abort-IsValid _ w },
        )
        | inl p ↦
            rw p
              (elim (Bool-cases (tx_commit (put (tx_begin a.store).1 (acc (recs api a iid))).1).0) [
                | inl c ↦ (
                  stored lt m (rw c refl) (
                      laws.get-commit _ w c
                      ∙ laws.get-put _ _ b p
                      ∙ ap (λ f. update f (acc (recs api a iid)).iid (some (acc (recs api a iid))))
                          (laws.get-begin a.store v)),
                  record { id = refl; trim_iid = refl; valid = laws.commit-IsValid _ w },
                )
                | inr c ↦ (
                  dropped (rw c refl) (laws.commit-put_fail a.store _ v c),
                  record { id = refl; trim_iid = refl; valid = laws.commit-IsValid _ w },
                )
              ])
      ]
    where
      b : Valid (tx_begin a.store).1
      b = laws.begin-IsValid a.store v

      w : Valid (put (tx_begin a.store).1 (acc (recs api a iid))).1
      w = laws.put-IsValid _ _ b

  transact-Moves :
      (a : Acceptor api) (iid ballot : ℕ) (acc : Option Accepted → Accepted)
      (reply refuse : Option Accepted → Message)
      → Valid a.store
      → let r = transact api a iid ballot acc reply refuse in
        Moves api a iid ballot acc reply refuse r × Kept api Valid a r.1
  unfolding transact
  transact-Moves a iid ballot acc reply refuse v = elim (Bool-cases (leb iid a.trim_iid)) [
    | inl t ↦ rw (t, transact) (dropped refl refl, record { id = refl; trim_iid = refl; valid = v })
    | inr t ↦ elim (Bool-cases (tx_begin a.store).0) [
      | inr b ↦
          rw (t, b, transact)
            (
              dropped refl (laws.get-begin a.store v),
              record { id = refl; trim_iid = refl; valid = laws.begin-IsValid a.store v },
            )
      | inl b ↦
          rw (t, b, laws.get-begin a.store v, transact)
            (elim (Bool-cases (may_move (recs api a iid) ballot)) [
              | inl m ↦ rw m (store_end a iid ballot acc reply refuse v (ground arith) m)
              | inr m ↦ rw m (refuse_end a iid ballot acc reply refuse v (ground arith) m)
            ])
    ]
  ]

  -- `acceptor_receive_prepare` is such a transaction, with the record that `prepared` makes.
  pub receive_prepare-Moves :
      (a : Acceptor api) (req : Prepare)
      → Valid a.store
      → let r = receive_prepare api a req in
        Moves api a req.iid req.ballot
          (prepared a.id req)
          (λ found. accepted_to_promise (prepared a.id req found))
          (λ found. accepted_to_promise (record_or_zero found))
          r
        × Kept api Valid a r.1
  unfolding receive_prepare transact
  receive_prepare-Moves a req v = transact-Moves a req.iid req.ballot _ _ _ v

  -- `acceptor_receive_accept` is such a transaction, with the record that `accept_to_accepted` makes.
  pub receive_accept-Moves :
      (a : Acceptor api) (req : Accept)
      → Valid a.store
      → let r = receive_accept api a req in
        Moves api a req.iid req.ballot
          (λ found. accept_to_accepted a.id req)
          (λ found. accepted (accept_to_accepted a.id req))
          (λ found. accepted_to_preempted a.id (record_or_zero found))
          r
        × Kept api Valid a r.1
  unfolding receive_accept transact
  receive_accept-Moves a req v = transact-Moves a req.iid req.ballot _ _ _ v

  -- A commit right after `storage_tx_begin` keeps the records, whether it succeeds or not.
  get-commit-begin : (h : Handle) → Valid h → get (tx_commit (tx_begin h).1).1 ≡ get h
  get-commit-begin h v = elim (Bool-cases (tx_commit (tx_begin h).1).0) [
    | inl c ↦ laws.get-commit _ (laws.begin-IsValid h v) c ∙ laws.get-begin h v
    | inr c ↦ laws.commit-begin_fail h v c
  ]

  -- So does a transaction that only trims, above its instance.
  get-commit-trim :
      (h : Handle) (iid j : ℕ)
      → Valid h
      → iid < j
      → get (tx_commit (trim (tx_begin h).1 iid).1).1 j ≡ get h j
  get-commit-trim h iid j v lt = elim (Bool-cases (tx_commit (trim (tx_begin h).1 iid).1).0) [
    | inl c ↦
        ap (λ f. f j) (laws.get-commit _ (laws.trim-IsValid _ iid b) c)
        ∙ laws.get-trim _ iid j b lt
        ∙ ap (λ f. f j) (laws.get-begin h v)
    | inr c ↦ laws.commit-trim_fail h iid j v c lt
  ]
    where
      b : Valid (tx_begin h).1
      b = laws.begin-IsValid h v

  with_value-some :
      (o : Option Accepted)
      → (with_value o ≡ none)
        ⊎ ((acc : Accepted) × (with_value o ≡ some acc) × (o ≡ some acc) × (0 < length acc.value))
  unfolding with_value
  with_value-some none = inl refl
  with_value-some (some acc) = elim (Bool-cases (ltb 0 (length acc.value))) [
    | inl e ↦ inr (acc, rw e refl, refl, ground arith)
    | inr e ↦ inl (rw e refl)
  ]

  -- Over a storage that meets its laws, in a valid state, `acceptor_receive_repeat` changes no record, and what it returns is the instance's record, with a
  -- value that is not empty.
  pub receive_repeat_lem :
      (a : Acceptor api) (iid : ℕ)
      → Valid a.store
      → let (out, a') = receive_repeat api a iid in
        (recs api a' ≡ recs api a)
        × Kept api Valid a a'
        × ((out ≡ none)
            ⊎ ((acc : Accepted) × (out ≡ some acc)
                × (recs api a iid ≡ some acc)
                × (0 < length acc.value)))
  unfolding receive_repeat
  receive_repeat_lem a iid v = elim (Bool-cases (tx_begin a.store).0) [
    | inr b ↦
        rw b (laws.get-begin a.store v, record { id = refl; trim_iid = refl; valid = w }, inl refl)
    | inl b ↦
        rw (b, laws.get-begin a.store v)
          (
            get-commit-begin a.store v,
            record { id = refl; trim_iid = refl; valid = laws.commit-IsValid _ w },
            elim (Bool-cases (tx_commit (tx_begin a.store).1).0) [
              | inl c ↦ rw c (with_value-some (recs api a iid))
              | inr c ↦ inl (rw c refl)
            ],
          )
  ]
    where
      w : Valid (tx_begin a.store).1
      w = laws.begin-IsValid a.store v

  -- `acceptor_receive_trim` raises the trim mark at least to its instance, or leaves it, and keeps
  -- every record above it.
  pub receive_trim_lem :
      (a : Acceptor api) (req : Trim)
      → Valid a.store
      → let (done, a') = receive_trim api a req in
        (a.trim_iid ≤ a'.trim_iid)
        × (req.iid ≤ a'.trim_iid)
        × Valid a'.store
        × (a'.id ≡ a.id)
        × ((j : ℕ) → a'.trim_iid < j → recs api a' j ≡ recs api a j)
  unfolding receive_trim
  receive_trim_lem a req v = elim (Bool-cases (leb req.iid a.trim_iid)) [
    | inl t ↦ rw t (omega arith, ground arith, v, refl, λ j lt. refl)
    | inr t ↦ rw t (elim (Bool-cases (tx_begin a.store).0) [
      | inr b ↦
          rw b
            (ground arith, omega arith, w, refl, λ j lt. ap (λ f. f j) (laws.get-begin a.store v))
      | inl b ↦ rw b (
        ground arith,
        omega arith,
        laws.commit-IsValid _ (laws.trim-IsValid _ req.iid w),
        refl,
        λ j lt. get-commit-trim a.store req.iid j v lt,
      )
    ])
  ]
    where
      w : Valid (tx_begin a.store).1
      w = laws.begin-IsValid a.store v
