-- ===== src/Acceptor/Outcomes.antt =====
-- The outcomes of `acceptor_receive_prepare`, `acceptor_receive_accept` and `acceptor_receive_trim` of
-- paxos/acceptor.c, branch by branch, with the messages and records written out field by field.
use libpaxos.Prelude.{
  ℕ, ◌≡◌, refl, ◌<◌, ◌≤◌, inl, inr, Bool, true, false, ◌&&◌, Option, none, some, [], ◌∙◌, arith,
  leb, update, u16, Bool-cases, Option-cases, ap, sym, subst,
}
use libpaxos.Types.{Prepare, Accept, Accepted, Trim, Message, promise, accepted, preempted}
use libpaxos.Storage.{StorageApi, StorageLaws}
use libpaxos.Acceptor.{
  Acceptor, accepted_to_promise, accept_to_accepted, accepted_to_preempted, may_move,
  record_or_zero, prepared, commit_and_reply, receive_prepare, receive_accept, receive_trim,
}
use libpaxos.Acceptor.Store.{
  recs, Kept, transact, dropped, stored, refused, receive_prepare-Moves, receive_accept-Moves,
  receive_trim_lem,
}

-- The vote for an accept.
abbrev pub vote_for : ℕ → Accept → Accepted
vote_for id req = record {
  iid = req.iid;
  ballot = req.ballot;
  value_ballot = req.ballot;
  aid = u16 id;
  value = req.value;
}

-- The refusal of an accept, for the record of a higher ballot.
abbrev pub refusal_for : ℕ → Accepted → Message
refusal_for id x =
    preempted
      (record { iid = x.iid; ballot = x.ballot; value_ballot = 0; aid = u16 id; value = [] })

-- A record that a prepare leaves: its ballot, and the last vote, if there is one.
abbrev pub under_prepare : ℕ → Prepare → Option Accepted → Accepted
under_prepare id req none = record {
  iid = req.iid;
  ballot = req.ballot;
  value_ballot = 0;
  aid = u16 id;
  value = [];
}
under_prepare id req (some x) = record {
  iid = req.iid;
  ballot = req.ballot;
  value_ballot = x.value_ballot;
  aid = u16 id;
  value = x.value;
}

-- The promise with the fields of a record.
abbrev pub promise_of : Accepted → Message
promise_of x = promise (record {
  iid = x.iid;
  ballot = x.ballot;
  value_ballot = x.value_ballot;
  aid = x.aid;
  value = x.value;
})

module _ (api : StorageApi) where
  open api use {Handle, tx_begin, tx_commit, tx_abort, get, put, trim}

  -- A function of the storage failed in a transaction from `h` on that puts `acc` at most.
  pub data Fails (h : Handle) (acc : Accepted) : Type 0 where
    begin_fails : (tx_begin h).0 ≡ false → Fails h acc
    put_fails : (put (tx_begin h).1 acc).0 ≡ false → Fails h acc
    commit_fails : (tx_commit (put (tx_begin h).1 acc).1).0 ≡ false → Fails h acc
    read_fails : (tx_commit (tx_begin h).1).0 ≡ false → Fails h acc

  -- No record of the instance is under a higher ballot.
  abbrev pub NoHigher : Acceptor api → ℕ → ℕ → Type 0
  NoHigher a iid ballot = (x : Accepted) → recs api a iid ≡ some x → x.ballot ≤ ballot

  pub data AcceptOutcome (a : Acceptor api) (req : Accept) (r : Option Message × Acceptor api)
      : Type 0 where
    accept_trimmed : req.iid ≤ a.trim_iid → r ≡ (none, a) → AcceptOutcome a req r
    accept_failed :
        a.trim_iid < req.iid
        → Fails a.store (vote_for a.id req)
        → r.0 ≡ none
        → recs api r.1 ≡ recs api a
        → AcceptOutcome a req r
    accept_voted :
        a.trim_iid < req.iid
        → NoHigher a req.iid req.ballot
        → r.0 ≡ some (accepted (vote_for a.id req))
        → recs api r.1 ≡ update (recs api a) req.iid (some (vote_for a.id req))
        → AcceptOutcome a req r
    accept_refused :
        a.trim_iid < req.iid
        → (x : Accepted) → recs api a req.iid ≡ some x
        → req.ballot < x.ballot
        → r.0 ≡ some (refusal_for a.id x)
        → recs api r.1 ≡ recs api a
        → AcceptOutcome a req r

  pub data PrepareOutcome (a : Acceptor api) (req : Prepare) (r : Option Message × Acceptor api)
      : Type 0 where
    prepare_trimmed : req.iid ≤ a.trim_iid → r ≡ (none, a) → PrepareOutcome a req r
    prepare_failed :
        a.trim_iid < req.iid
        → Fails a.store (under_prepare a.id req (recs api a req.iid))
        → r.0 ≡ none
        → recs api r.1 ≡ recs api a
        → PrepareOutcome a req r
    prepare_promised :
        a.trim_iid < req.iid
        → NoHigher a req.iid req.ballot
        → r.0 ≡ some (promise_of (under_prepare a.id req (recs api a req.iid)))
        → recs api r.1
          ≡ update (recs api a) req.iid (some (under_prepare a.id req (recs api a req.iid)))
        → PrepareOutcome a req r
    prepare_outbid :
        a.trim_iid < req.iid
        → (x : Accepted) → recs api a req.iid ≡ some x
        → req.ballot < x.ballot
        → r.0 ≡ some (promise_of x)
        → recs api r.1 ≡ recs api a
        → PrepareOutcome a req r

  may_move-NoHigher :
      (a : Acceptor api) (iid ballot : ℕ)
      → may_move (recs api a iid) ballot ≡ true
      → NoHigher a iid ballot
  may_move-NoHigher a iid ballot m x e =
      let h : leb x.ballot ballot ≡ true = ap (λ o. may_move o ballot) (sym e) ∙ m in ground arith

  higher :
      (a : Acceptor api) (iid ballot : ℕ)
      → may_move (recs api a iid) ballot ≡ false
      → (x : Accepted) × (recs api a iid ≡ some x) × (ballot < x.ballot)
  higher a iid ballot m = elim (Option-cases (recs api a iid)) [
    | inl z ↦ absurd (ground arith)
    | inr (x, z) ↦
        let h : leb x.ballot ballot ≡ false = ap (λ o. may_move o ballot) (sym z) ∙ m in
        (x, z, ground arith)
  ]

  prepared-under_prepare :
      (id : ℕ) (req : Prepare) (o : Option Accepted) → prepared id req o ≡ under_prepare id req o
  unfolding prepared
  prepared-under_prepare id req none = refl
  prepared-under_prepare id req (some x) = refl

module _ (api : StorageApi) (Valid : api.Handle → Type 0) (laws : StorageLaws api Valid) where
  open api use {Handle, tx_begin, tx_commit, tx_abort, get, put, trim}

  -- A transaction above the trim mark without an answer met a failure of the storage.
  transact-Fails :
      (a : Acceptor api) (iid ballot : ℕ) (acc : Option Accepted → Accepted)
      (reply refuse : Option Accepted → Message)
      → Valid a.store
      → a.trim_iid < iid
      → (transact api a iid ballot acc reply refuse).0 ≡ none
      → Fails api a.store (acc (recs api a iid))
  unfolding transact commit_and_reply
  transact-Fails a iid ballot acc reply refuse v lt e = elim (Bool-cases (tx_begin a.store).0) [
    | inr b ↦ begin_fails b
    | inl b ↦ elim (Bool-cases (put (tx_begin a.store).1 (acc (recs api a iid))).0) [
      | inr p ↦ put_fails p
      | inl p ↦
          elim (Bool-cases (tx_commit (put (tx_begin a.store).1 (acc (recs api a iid))).1).0) [
            | inr c ↦ commit_fails c
            | inl c ↦ elim (Bool-cases (tx_commit (tx_begin a.store).1).0) [
              | inr d ↦ read_fails d
              | inl d ↦ absurd (answered b p c d)
            ]
          ]
    ]
  ]
    where
      fresh : leb iid a.trim_iid ≡ false
      fresh = ground arith

      answered :
          (tx_begin a.store).0 ≡ true
          → (put (tx_begin a.store).1 (acc (recs api a iid))).0 ≡ true
          → (tx_commit (put (tx_begin a.store).1 (acc (recs api a iid))).1).0 ≡ true
          → (tx_commit (tx_begin a.store).1).0 ≡ true
          → ⊥
      answered b p c d = elim (Bool-cases (may_move (recs api a iid) ballot)) [
        | inl m ↦
            let s : (transact api a iid ballot acc reply refuse).0 ≡ some (reply (recs api a iid)) =
              rw (fresh, b, laws.get-begin a.store v, m, p, c, transact) refl in
            cc
        | inr m ↦
            let s : (transact api a iid ballot acc reply refuse).0
                ≡ some (refuse (recs api a iid)) =
              rw (fresh, b, laws.get-begin a.store v, m, d, transact) refl in
            cc
      ]

  -- Over a storage that meets its laws, in a valid state, which it keeps with the id and the trim mark:
  -- `acceptor_receive_accept` does nothing for a trimmed instance. Else it stores the vote for the accept, with its
  -- ballot and its value, and answers with it, if no record of the instance is under a higher ballot;
  -- if one is, it refuses, with that ballot, and keeps the records. It drops the accept, and keeps
  -- the records, only if the storage fails.
  pub receive_accept-AcceptOutcome :
      (a : Acceptor api) (req : Accept)
      → Valid a.store
      → AcceptOutcome api a req (receive_accept api a req)
        × Kept api Valid a (receive_accept api a req).1
  unfolding receive_accept accept_to_accepted accepted_to_preempted transact
  receive_accept-AcceptOutcome a req v = elim (Bool-cases (leb req.iid a.trim_iid)) [
    | inl t ↦ (
      accept_trimmed (ground arith) (rw (t, receive_accept) refl),
      (receive_accept-Moves api Valid laws a req v).1,
    )
    | inr t ↦
        let (moves, k) = receive_accept-Moves api Valid laws a req v in
        (
          elim moves [
            | dropped o e ↦
                accept_failed (ground arith)
                  (transact-Fails a req.iid req.ballot (λ found. accept_to_accepted a.id req)
                    (λ found. accepted (accept_to_accepted a.id req))
                    (λ found. accepted_to_preempted a.id (record_or_zero found)) v (ground arith) o)
                  o e
            | stored lt m o e ↦ accept_voted lt (may_move-NoHigher api a req.iid req.ballot m) o e
            | refused lt m o e ↦
                let (x, f, h) = higher api a req.iid req.ballot m in
                accept_refused lt x f h
                  (o ∙ ap (λ y. some (accepted_to_preempted a.id (record_or_zero y))) f) e
          ],
          k,
        )
  ]

  -- Over a storage that meets its laws, in a valid state, which it keeps with the id and the trim mark:
  -- `acceptor_receive_prepare` does nothing for a trimmed instance. Else, if no record of the instance is under a
  -- higher ballot, it stores the last vote under the ballot of the prepare, with no value if there is
  -- no vote, and promises that; if one is, it answers with that record, and keeps the records. It
  -- drops the prepare, and keeps the records, only if the storage fails.
  pub receive_prepare-PrepareOutcome :
      (a : Acceptor api) (req : Prepare)
      → Valid a.store
      → PrepareOutcome api a req (receive_prepare api a req)
        × Kept api Valid a (receive_prepare api a req).1
  unfolding receive_prepare prepared accepted_to_promise transact
  receive_prepare-PrepareOutcome a req v = elim (Bool-cases (leb req.iid a.trim_iid)) [
    | inl t ↦ (
      prepare_trimmed (ground arith) (rw (t, receive_prepare) refl),
      (receive_prepare-Moves api Valid laws a req v).1,
    )
    | inr t ↦
        let (moves, k) = receive_prepare-Moves api Valid laws a req v in
        let left = prepared-under_prepare api a.id req (recs api a req.iid) in
        (
          elim moves [
            | dropped o e ↦
                prepare_failed (ground arith)
                  (subst (Fails api a.store) left (
                    transact-Fails a req.iid req.ballot (prepared a.id req)
                      (λ found. accepted_to_promise (prepared a.id req found))
                      (λ found. accepted_to_promise (record_or_zero found)) v (ground arith) o))
                  o e
            | stored lt m o e ↦
                prepare_promised lt (may_move-NoHigher api a req.iid req.ballot m)
                  (o ∙ ap (λ y. some (promise_of y)) left)
                  (e ∙ ap (λ y. update (recs api a) req.iid (some y)) left)
            | refused lt m o e ↦
                let (x, f, h) = higher api a req.iid req.ballot m in
                prepare_outbid lt x f h (o ∙ ap (λ y. some (promise_of (record_or_zero y))) f) e
          ],
          k,
        )
  ]

  -- The state after a trim above the mark: `done` is what the function returns.
  pub record Trimmed (a : Acceptor api) (req : Trim) (r : Bool × Acceptor api) : Type 0 where
    pub trim_iid : r.1.trim_iid ≡ req.iid
    pub id : r.1.id ≡ a.id
    pub valid : Valid r.1.store
    pub above : (j : ℕ) → req.iid < j → recs api r.1 j ≡ recs api a j
    pub done : r.0 ≡ (tx_begin a.store).0 && (tx_commit (trim (tx_begin a.store).1 req.iid).1).0
    pub gone :
        r.0 ≡ true
        → (trim (tx_begin a.store).1 req.iid).0 ≡ true
        → (j : ℕ) → j ≤ req.iid
        → recs api r.1 j ≡ none

  pub data TrimOutcome (a : Acceptor api) (req : Trim) (r : Bool × Acceptor api) : Type 0 where
    trim_old : req.iid ≤ a.trim_iid → r ≡ (false, a) → TrimOutcome a req r
    trim_new : a.trim_iid < req.iid → Trimmed a req r → TrimOutcome a req r

  -- Over a storage that meets its laws, in a valid state: `acceptor_receive_trim` does nothing for an instance up
  -- to the trim mark, and returns 0. Above it, the mark becomes the instance, the id, the validity and
  -- the records above the instance are kept, and it returns 1 exactly if the transaction could begin
  -- and commit; if `storage_trim` succeeded, too, no record up to the instance is left.
  pub receive_trim-TrimOutcome :
      (a : Acceptor api) (req : Trim) → Valid a.store → TrimOutcome a req (receive_trim api a req)
  unfolding receive_trim
  receive_trim-TrimOutcome a req v = elim (Bool-cases (leb req.iid a.trim_iid)) [
    | inl t ↦ trim_old (ground arith) (rw (t, receive_trim) refl)
    | inr t ↦
        let (_, _, w, i, kept) = receive_trim_lem api Valid laws a req v in
        elim (Bool-cases (tx_begin a.store).0) [
          | inr b ↦ trim_new (ground arith) (record {
            trim_iid = rw (t, b, receive_trim) refl;
            id = i;
            valid = w;
            above = λ j lt. kept j (rw (t, b, receive_trim) lt);
            done = rw (t, b, receive_trim) refl;
            gone = λ e _ j le.
                let d : (receive_trim api a req).0 ≡ false = rw (t, b, receive_trim) refl in
                absurd (cc);
          })
          | inl b ↦
              let c = laws.trim-IsValid _ req.iid (laws.begin-IsValid a.store v) in
              trim_new (ground arith) (record {
                trim_iid = rw (t, b, receive_trim) refl;
                id = i;
                valid = w;
                above = λ j lt. kept j (rw (t, b, receive_trim) lt);
                done = rw (t, b, receive_trim) refl;
                gone = λ e ok j le.
                    let d : (receive_trim api a req).0
                        ≡ (tx_commit (trim (tx_begin a.store).1 req.iid).1).0 =
                      rw (t, b, receive_trim) refl in
                    rw (t, b, receive_trim)
                      (ap (λ f. f j) (laws.get-commit _ c (sym d ∙ e))
                        ∙ laws.get-trim_ok _ req.iid j (laws.begin-IsValid a.store v) ok le);
              })
        ]
  ]
