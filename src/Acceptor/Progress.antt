-- ===== src/Acceptor/Progress.antt =====
-- An acceptor whose storage does not fail answers: it promises, and it votes under the highest ballot that it
-- has seen.
use libpaxos.Prelude.{
  ℕ, ◌≡◌, refl, ◌<◌, ◌≤◌, inl, inr, true, false, Option, some, List, [], ◌∷◌, ◌∙◌, ◌==◌, arith, leb,
  update-eq, update-ne, ap, sym, subst, Bool-cases, Option-cases,
}
use mathlib.Core.Option.{some-injective}
use libpaxos.Types.{Prepare, Accept, Accepted, Trim, Message, accepted}
use libpaxos.Storage.{StorageApi, StorageLaws}
use libpaxos.Acceptor.{
  Acceptor, accept_to_accepted, accepted_to_promise, may_move, prepared, commit_and_reply,
  receive_prepare, receive_accept, receive_trim,
}
use libpaxos.Acceptor.Store.{
  recs, Kept, Moves, dropped, stored, refused, receive_prepare-Moves, receive_accept-Moves,
  receive_repeat_lem, receive_trim_lem,
}
use libpaxos.Acceptor.Promises.{Input, prepares, accepts, repeats, trims, AllInputs, step, run}

-- The operations that an acceptor needs for an answer succeed.
pub record Reliable (api : StorageApi) (Valid : api.Handle → Type 0) : Type 0 where
  pub begins : (h : api.Handle) → Valid h → (api.tx_begin h).0 ≡ true
  pub puts : (h : api.Handle) (a : Accepted) → Valid h → (api.put h a).0 ≡ true
  pub commits : (h : api.Handle) → Valid h → (api.tx_commit h).0 ≡ true

-- An input that does not outbid the ballot `b` in the instance `iid`, and does not trim it.
abbrev pub Yields : ℕ → ℕ → Input → Type 0
Yields iid b (prepares m) = m.iid ≡ iid → m.ballot ≤ b
Yields iid b (accepts m) = m.iid ≡ iid → m.ballot ≤ b
Yields iid b (repeats i) = Unit {0}
Yields iid b (trims m) = m.iid < iid

module _ (api : StorageApi) (Valid : api.Handle → Type 0) (laws : StorageLaws api Valid) where
  -- The instance is not trimmed, and its record has no ballot above `b`.
  pub record Below (iid b : ℕ) (a : Acceptor api) : Type 0 where
    pub valid : Valid a.store
    pub untrimmed : a.trim_iid < iid
    pub low : (x : Accepted) → recs api a iid ≡ some x → x.ballot ≤ b

  Moves-Below :
      (iid b : ℕ) (a : Acceptor api) (key ballot : ℕ) (acc : Option Accepted → Accepted)
      (reply refuse : Option Accepted → Message) (r : Option Message × Acceptor api)
      → ((o : Option Accepted) → ((acc o).iid ≡ key) × ((acc o).ballot ≡ ballot))
      → (key ≡ iid → ballot ≤ b)
      → Moves api a key ballot acc reply refuse r
      → Kept api Valid a r.1
      → Below iid b a
      → Below iid b r.1
  Moves-Below iid b a key ballot acc reply refuse r is admits m k h = record {
    valid = k.valid;
    untrimmed = omega (arith, k.trim_iid, h.untrimmed);
    low = λ x e. elim m [
      | dropped o f ↦ h.low x (sym (ap (λ g. g iid) f) ∙ e)
      | refused lt mv o f ↦ h.low x (sym (ap (λ g. g iid) f) ∙ e)
      | stored lt mv o f ↦ elim (Bool-cases (key == iid)) [
        | inl same ↦
            let new : some (acc (recs api a key)) ≡ some x =
              sym (update-eq (recs api a) _ iid _ ((is _).0 ∙ ground arith))
              ∙ sym (ap (λ g. g iid) f)
              ∙ e in
            omega (
              arith,
              (is (recs api a key)).1,
              ap (λ (y : Accepted). y.ballot) (some-injective _ x new),
              admits (ground arith),
            )
        | inr other ↦ h.low x (
            sym (update-ne (recs api a) _ iid _ (λ p. ground (arith, (is (recs api a key)).0)))
            ∙ sym (ap (λ g. g iid) f)
            ∙ e)
      ]
    ];
  }

  trim_iid-receive_trim :
      (a : Acceptor api) (m : Trim) (iid : ℕ)
      → a.trim_iid < iid
      → m.iid < iid
      → (receive_trim api a m).1.trim_iid < iid
  unfolding receive_trim
  trim_iid-receive_trim a m iid lt lt' = elim (Bool-cases (leb m.iid a.trim_iid)) [
    | inl old ↦ rw old lt
    | inr new ↦ rw new (elim (Bool-cases (api.tx_begin a.store).0) [
      | inl ok ↦ rw ok lt'
      | inr failed ↦ rw failed lt'
    ])
  ]

  step-Below :
      (iid b : ℕ) (a : Acceptor api) (m : Input)
      → Yields iid b m
      → Below iid b a
      → Below iid b (step api a m)
  unfolding step prepared accept_to_accepted
  step-Below iid b a (prepares m) ok h =
      let (moves, k) = receive_prepare-Moves api Valid laws a m h.valid in
      Moves-Below iid b a m.iid m.ballot _ _ _ _ (λ o. (refl, refl)) ok moves k h
  step-Below iid b a (accepts m) ok h =
      let (moves, k) = receive_accept-Moves api Valid laws a m h.valid in
      Moves-Below iid b a m.iid m.ballot _ _ _ _ (λ o. (refl, refl)) ok moves k h
  step-Below iid b a (repeats i) ok h =
      let (same, k, _) = receive_repeat_lem api Valid laws a i h.valid in
      record {
        valid = k.valid;
        untrimmed = omega (arith, k.trim_iid, h.untrimmed);
        low = λ x e. h.low x (sym (ap (λ g. g iid) same) ∙ e);
      }
  step-Below iid b a (trims m) ok h =
      let (_, _, w, _, kept) = receive_trim_lem api Valid laws a m h.valid in
      let lt = trim_iid-receive_trim a m iid h.untrimmed ok in
      record { valid = w; untrimmed = lt; low = λ x e. h.low x (sym (kept iid lt) ∙ e) }

  run-Below :
      (iid b : ℕ) (a : Acceptor api) (ms : List Input)
      → AllInputs (Yields iid b) ms
      → Below iid b a
      → Below iid b (run api a ms)
  unfolding run
  run-Below iid b a [] ok h = h
  run-Below iid b a (m ∷ ms) ok h =
      run-Below iid b (step api a m) ms ok.1 (step-Below iid b a m ok.0 h)

  Below-may_move :
      (iid b : ℕ) (a : Acceptor api) → Below iid b a → may_move (recs api a iid) b ≡ true
  Below-may_move iid b a h = elim (Option-cases (recs api a iid)) [
    | inl e ↦ rw e refl
    | inr (x, e) ↦ rw e (ground (arith, h.low x e))
  ]

  Below-votes :
      (b : ℕ) (a : Acceptor api) (acc : Accept)
      → Reliable api Valid
      → Below acc.iid b a
      → b ≤ acc.ballot
      → (receive_accept api a acc).0 ≡ some (accepted (accept_to_accepted a.id acc))
  unfolding receive_accept commit_and_reply
  Below-votes b a acc rel h le =
      let began = laws.begin-IsValid a.store h.valid in
      let put = laws.put-IsValid (api.tx_begin a.store).1 (accept_to_accepted a.id acc) began in
      let fresh : leb acc.iid a.trim_iid ≡ false = ground (arith, h.untrimmed) in
      let moves = Below-may_move acc.iid acc.ballot a (record {
        valid = h.valid;
        untrimmed = h.untrimmed;
        low = λ x e. omega (arith, h.low x e);
      }) in
      rw
        (
          fresh,
          rel.begins a.store h.valid,
          laws.get-begin a.store h.valid,
          moves,
          rel.puts (api.tx_begin a.store).1 (accept_to_accepted a.id acc) began,
          rel.commits _ put,
        )
        refl

  -- A prepare that is not outbid leaves its ballot on record, or an earlier one if its promise is lost.
  prepare-Below :
      (a : Acceptor api) (m : Prepare)
      → Below m.iid m.ballot a
      → Below m.iid m.ballot (receive_prepare api a m).1
  unfolding step
  prepare-Below a m h = step-Below m.iid m.ballot a (prepares m) (λ e. omega arith) h

  prepare-promises :
      (a : Acceptor api) (m : Prepare)
      → Reliable api Valid
      → Below m.iid m.ballot a
      → (receive_prepare api a m).0
        ≡ some (accepted_to_promise (prepared a.id m (recs api a m.iid)))
  unfolding receive_prepare commit_and_reply
  prepare-promises a m rel h =
      let began = laws.begin-IsValid a.store h.valid in
      let put =
        laws.put-IsValid (api.tx_begin a.store).1 (prepared a.id m (recs api a m.iid)) began in
      let fresh : leb m.iid a.trim_iid ≡ false = ground (arith, h.untrimmed) in
      rw
        (
          fresh,
          rel.begins a.store h.valid,
          laws.get-begin a.store h.valid,
          Below-may_move m.iid m.ballot a h,
          rel.puts (api.tx_begin a.store).1 (prepared a.id m (recs api a m.iid)) began,
          rel.commits _ put,
        )
        refl

  -- Over a storage that meets its laws and does not fail, in a valid state: an acceptor answers a prepare that
  -- is above its trim mark and not below the ballot on record with a promise of this ballot, and reports
  -- its record. Whatever inputs follow, if none is for the instance under a higher ballot and none trims
  -- it, the acceptor then answers the accept under this ballot with its vote.
  pub round_answered :
      (a : Acceptor api) (m : Prepare) (ms : List Input) (acc : Accept)
      → Reliable api Valid
      → Below m.iid m.ballot a
      → AllInputs (Yields m.iid m.ballot) ms
      → acc.iid ≡ m.iid
      → acc.ballot ≡ m.ballot
      → let a' = run api (receive_prepare api a m).1 ms in
        ((receive_prepare api a m).0
          ≡ some (accepted_to_promise (prepared a.id m (recs api a m.iid))))
        × ((receive_accept api a' acc).0 ≡ some (accepted (accept_to_accepted a'.id acc)))
  round_answered a m ms acc rel h ok key same = (
    prepare-promises a m rel h,
    Below-votes m.ballot (run api (receive_prepare api a m).1 ms) acc rel
        (subst (λ i. Below i m.ballot (run api (receive_prepare api a m).1 ms)) (sym key)
          (run-Below m.iid m.ballot (receive_prepare api a m).1 ms ok (prepare-Below a m h)))
        (omega arith),
  )
