-- ===== src/Acceptor/Promises.antt =====
-- An acceptor keeps its promises and remembers its votes, over any sequence of messages and over any
-- storage that meets its laws, also one whose operations fail.
use libpaxos.Prelude.{
  ℕ, ◌≡◌, ◌≢◌, refl, ◌<◌, ◌≤◌, ◌⊎◌, inl, inr, true, Option, some, List, [], ◌∷◌, ◌∙◌, arith, leb,
  ◌==◌, Bool-cases, Option-cases, ap, sym, subst, leb→le, update-eq, update-ne,
}
use libpaxos.Types.{Value, Prepare, Promise, Accept, Accepted, Trim, Message, accepted, promise}
use libpaxos.Storage.{StorageApi, StorageLaws}
use libpaxos.Acceptor.{
  Acceptor, accepted_to_promise, accept_to_accepted, accepted_to_preempted, may_move, prepared,
  receive_prepare, receive_accept, receive_repeat, receive_trim,
}
use libpaxos.Acceptor.Store.{
  recs, Kept, Moves, dropped, stored, refused, receive_prepare-Moves, receive_accept-Moves,
  receive_repeat_lem, receive_trim_lem,
}

-- The messages that `evacceptor_init_internal` subscribes to; a repeat is one round of the loop over its
-- instances.
pub data Input : Type 0 where
  prepares : Prepare → Input
  accepts : Accept → Input
  repeats : ℕ → Input
  trims : Trim → Input

abbrev pub AllInputs : (Input → Type 0) → List Input → Type 0
AllInputs P [] = Unit {0}
AllInputs P (m ∷ ms) = P m × AllInputs P ms

all_inputs : (ms : List Input) → AllInputs (λ _. Unit {0}) ms
all_inputs [] = tt
all_inputs (m ∷ ms) = (tt, all_inputs ms)

module _ (api : StorageApi) where
  unfoldable pub step : Acceptor api → Input → Acceptor api
  step a (prepares m) = (receive_prepare api a m).1
  step a (accepts m) = (receive_accept api a m).1
  step a (repeats iid) = (receive_repeat api a iid).1
  step a (trims m) = (receive_trim api a m).1

  unfoldable pub run : Acceptor api → List Input → Acceptor api
  run a [] = a
  run a (m ∷ ms) = run (step a m) ms

module _ (api : StorageApi) (Valid : api.Handle → Type 0) (laws : StorageLaws api Valid) where
  -- The instance has been trimmed, or its record has the property.
  abbrev pub Holds : (Accepted → Type 0) → ℕ → Acceptor api → Type 0
  Holds Q j a = (j ≤ a.trim_iid) ⊎ ((x : Accepted) × (api.get a.store j ≡ some x) × Q x)

  Moves-Holds :
      (Q : Accepted → Type 0) (j : ℕ) (a : Acceptor api) (iid ballot : ℕ)
      (acc : Option Accepted → Accepted) (reply refuse : Option Accepted → Message)
      (r : Option Message × Acceptor api)
      → ((o : Option Accepted) → (acc o).iid ≡ iid)
      → ((x : Accepted) → iid ≡ j → x.ballot ≤ ballot → Q x → Q (acc (some x)))
      → Moves api a iid ballot acc reply refuse r
      → Kept api Valid a r.1
      → Holds Q j a
      → Holds Q j r.1
  Moves-Holds Q j a iid ballot acc reply refuse r key keeps m k (inl t) =
      inl (omega (arith, k.trim_iid))
  Moves-Holds Q j a iid ballot acc reply refuse r key keeps (dropped o e) k (inr (x, h, q)) =
      inr (x, ap (λ f. f j) e ∙ h, q)
  Moves-Holds Q j a iid ballot acc reply refuse r key keeps (refused lt m o e) k (inr (x, h, q)) =
      inr (x, ap (λ f. f j) e ∙ h, q)
  Moves-Holds Q j a iid ballot acc reply refuse r key keeps (stored lt m o e) k (inr (x, h, q)) =
      elim (Bool-cases (iid == j)) [
        | inl same ↦
            let here : recs api a iid ≡ some x = ap (recs api a) (ground arith) ∙ h in
            inr (
              acc (some x),
              ap (λ f. f j) e
                  ∙ update-eq (recs api a) _ j _ (key _ ∙ ground arith)
                  ∙ ap (λ f. some (acc f)) here,
              keeps x (ground arith) (leb→le _ _ (subst (λ f. may_move f ballot ≡ true) here m)) q,
            )
        | inr other ↦ inr (
          x,
          ap (λ f. f j) e
              ∙ update-ne (recs api a) _ j _ (λ p. ground (arith, key (recs api a iid)))
              ∙ h,
          q,
        )
      ]

  -- What every input keeps: a property that survives a prepare, and an accept of an admitted kind.
  pub step-Holds :
      (Q : Accepted → Type 0) (j : ℕ) (Admits : Input → Type 0)
      → ((id : ℕ) (m : Prepare) (x : Accepted)
          → x.ballot ≤ m.ballot
          → Q x
          → Q (prepared id m (some x)))
      → ((id : ℕ) (m : Accept) (x : Accepted)
          → Admits (accepts m)
          → m.iid ≡ j
          → x.ballot ≤ m.ballot
          → Q x
          → Q (accept_to_accepted id m))
      → (a : Acceptor api) (m : Input) → Admits m
      → Valid a.store
      → Holds Q j a
      → Holds Q j (step api a m) × Valid (step api a m).store
  unfolding step prepared accept_to_accepted
  step-Holds Q j Admits qp qa a (prepares m) ok v h =
      let (mv, k) = receive_prepare-Moves api Valid laws a m v in
      (
        Moves-Holds Q j a m.iid m.ballot _ _ _ _ (λ o. refl) (λ x _ le q. qp a.id m x le q) mv k h,
        k.valid,
      )
  step-Holds Q j Admits qp qa a (accepts m) ok v h =
      let (mv, k) = receive_accept-Moves api Valid laws a m v in
      (
        Moves-Holds Q j a m.iid m.ballot _ _ _ _ (λ o. refl) (λ x e le q. qa a.id m x ok e le q) mv
            k h,
        k.valid,
      )
  step-Holds Q j Admits qp qa a (repeats iid) ok v h =
      let (e, k, _) = receive_repeat_lem api Valid laws a iid v in
      (
        elim h [
          | inl t ↦ inl (omega (arith, k.trim_iid))
          | inr (x, g, q) ↦ inr (x, ap (λ f. f j) e ∙ g, q)
        ],
        k.valid,
      )
  step-Holds Q j Admits qp qa a (trims m) ok v h =
      let (up, _, w, _, e) = receive_trim_lem api Valid laws a m v in
      (
        elim h [
          | inl t ↦ inl (omega arith)
          | inr (x, g, q) ↦ elim (Bool-cases (leb j (receive_trim api a m).1.trim_iid)) [
            | inl le ↦ inl (leb→le _ _ le)
            | inr gt ↦ inr (x, e j (ground arith) ∙ g, q)
          ]
        ],
        w,
      )

  run-Holds :
      (Q : Accepted → Type 0) (j : ℕ) (Admits : Input → Type 0)
      → ((id : ℕ) (m : Prepare) (x : Accepted)
          → x.ballot ≤ m.ballot
          → Q x
          → Q (prepared id m (some x)))
      → ((id : ℕ) (m : Accept) (x : Accepted)
          → Admits (accepts m)
          → m.iid ≡ j
          → x.ballot ≤ m.ballot
          → Q x
          → Q (accept_to_accepted id m))
      → (a : Acceptor api) (ms : List Input) → AllInputs Admits ms
      → Valid a.store
      → Holds Q j a
      → Holds Q j (run api a ms) × Valid (run api a ms).store
  unfolding run
  run-Holds Q j Admits qp qa a [] ok v h = (h, v)
  run-Holds Q j Admits qp qa a (m ∷ ms) ok v h =
      let (h', v') = step-Holds Q j Admits qp qa a m ok.0 v h in
      run-Holds Q j Admits qp qa (step api a m) ms ok.1 v' h'

  -- A promise that is sent is on record.
  pub promise-Holds :
      (a : Acceptor api) (req : Prepare) (p : Promise)
      → Valid a.store
      → (receive_prepare api a req).0 ≡ some (promise p)
      → Holds (λ x. p.ballot ≤ x.ballot) req.iid (receive_prepare api a req).1
  unfolding accepted_to_promise prepared
  promise-Holds a req p v sent = elim (receive_prepare-Moves api Valid laws a req v).0 [
    | dropped o e ↦ cc
    | stored lt m o e ↦
        inr (_, ap (λ f. f req.iid) e ∙ update-eq (recs api a) _ req.iid _ refl, ground arith)
    | refused lt m o e ↦ elim (Option-cases (recs api a req.iid)) [
      | inl z ↦ absurd (ground arith)
      | inr (x, z) ↦ inr (x, ap (λ f. f req.iid) e ∙ z, ground arith)
    ]
  ]

  -- An accept under a ballot below the record's is not accepted.
  Holds-rejects :
      (a : Acceptor api) (acc : Accept) (b : ℕ) (m : Accepted)
      → Valid a.store
      → Holds (λ x. b ≤ x.ballot) acc.iid a
      → acc.ballot < b
      → (receive_accept api a acc).0 ≢ some (accepted m)
  unfolding accepted_to_preempted
  Holds-rejects a acc b m v h lower e = elim (receive_accept-Moves api Valid laws a acc v).0 [
    | dropped o _ ↦ cc
    | stored lt mv o _ ↦ elim h [
      | inl t ↦ omega arith
      | inr (x, z, q) ↦
          ground
            (arith, leb→le x.ballot acc.ballot (subst (λ f. may_move f acc.ballot ≡ true) z mv))
    ]
    | refused lt mv o _ ↦ cc
  ]

  -- Over a storage that meets its laws, in a valid state: once an acceptor has sent a promise, no later accept for that instance under a ballot below the
  -- promised one is accepted, whatever inputs come between, and whether or not operations of the
  -- storage fail.
  pub promise_kept :
      (a : Acceptor api) (req : Prepare) (p : Promise) (ms : List Input) (acc : Accept)
      (m : Accepted)
      → Valid a.store
      → (receive_prepare api a req).0 ≡ some (promise p)
      → acc.iid ≡ req.iid
      → acc.ballot < p.ballot
      → (receive_accept api (run api (receive_prepare api a req).1 ms) acc).0 ≢ some (accepted m)
  unfolding prepared accept_to_accepted
  promise_kept a req p ms acc m v sent same lower =
      let start : Holds (λ x. p.ballot ≤ x.ballot) acc.iid (receive_prepare api a req).1 =
        subst (λ j. Holds (λ x. p.ballot ≤ x.ballot) j (receive_prepare api a req).1) (sym same)
          (promise-Holds a req p v sent) in
      let (h, w) =
        run-Holds (λ x. p.ballot ≤ x.ballot) acc.iid (λ _. Unit {0}) (λ id n x le q. omega arith)
          (λ id n x _ _ le q. omega arith) (receive_prepare api a req).1 ms (all_inputs ms)
          (receive_prepare-Moves api Valid laws a req v).1.valid start in
      Holds-rejects (run api (receive_prepare api a req).1 ms) acc p.ballot m w h lower

  -- A vote for `v` under the ballot `b`, or a later one.
  abbrev Voted : ℕ → Value → Accepted → Type 0
  Voted b v x =
      ((b < x.value_ballot) ⊎ ((x.value_ballot ≡ b) × (x.value ≡ v))) × (x.value_ballot ≤ x.ballot)

  accept-Voted :
      (a : Acceptor api) (acc : Accept) (m : Accepted)
      → Valid a.store
      → (receive_accept api a acc).0 ≡ some (accepted m)
      → Holds (Voted acc.ballot acc.value) acc.iid (receive_accept api a acc).1
  unfolding accept_to_accepted accepted_to_preempted
  accept-Voted a acc m v sent = elim (receive_accept-Moves api Valid laws a acc v).0 [
    | dropped o e ↦ cc
    | stored lt mv o e ↦ inr (
      _,
      ap (λ f. f acc.iid) e ∙ update-eq (recs api a) _ acc.iid _ refl,
      (inr (refl, refl), omega arith),
    )
    | refused lt mv o e ↦ cc
  ]

  -- Under one ballot the proposers ask for one value.
  abbrev pub Agrees : ℕ → ℕ → Value → Input → Type 0
  Agrees iid b v (accepts n) = n.iid ≡ iid → n.ballot ≡ b → n.value ≡ v
  Agrees iid b v _ = Unit {0}

  promise-reports :
      (a : Acceptor api) (req : Prepare) (p : Promise) (b : ℕ) (val : Value)
      → Valid a.store
      → Holds (Voted b val) req.iid a
      → (receive_prepare api a req).0 ≡ some (promise p)
      → (b < p.value_ballot) ⊎ ((p.value_ballot ≡ b) × (p.value ≡ val))
  unfolding accepted_to_promise prepared
  promise-reports a req p b val v h sent = elim (receive_prepare-Moves api Valid laws a req v).0 [
    | dropped o e ↦ cc
    | stored lt mv o e ↦ elim h [ inl t ↦ absurd (omega arith) | inr (x, z, q) ↦ ground arith ]
    | refused lt mv o e ↦ elim h [ inl t ↦ absurd (omega arith) | inr (x, z, q) ↦ ground arith ]
  ]

  -- Over a storage that meets its laws, in a valid state: once an acceptor has accepted a value, every later promise of it for that instance reports this
  -- vote, or one under a higher ballot, provided that accepts for that instance and ballot all carry
  -- that value. Inputs of any kind may come between, and operations of the storage may fail.
  pub vote_reported :
      (a : Acceptor api) (acc : Accept) (m : Accepted) (ms : List Input) (req : Prepare)
      (p : Promise)
      → Valid a.store
      → (receive_accept api a acc).0 ≡ some (accepted m)
      → AllInputs (Agrees acc.iid acc.ballot acc.value) ms
      → req.iid ≡ acc.iid
      → (receive_prepare api (run api (receive_accept api a acc).1 ms) req).0 ≡ some (promise p)
      → (acc.ballot < p.value_ballot) ⊎ ((p.value_ballot ≡ acc.ballot) × (p.value ≡ acc.value))
  unfolding prepared accept_to_accepted
  vote_reported a acc m ms req p v sent ok same sent' =
      let (h, w) =
        run-Holds (Voted acc.ballot acc.value) acc.iid (Agrees acc.iid acc.ballot acc.value)
          (λ id n x le q. (q.0, omega arith))
          (λ id n x ok' e le q. (ground (arith, ok' e), omega arith)) (receive_accept api a acc).1
          ms ok (receive_accept-Moves api Valid laws a acc v).1.valid
          (accept-Voted a acc m v sent) in
      promise-reports _ req p acc.ballot acc.value w
        (subst (λ j. Holds (Voted acc.ballot acc.value) j (run api (receive_accept api a acc).1 ms))
          (sym same) h)
        sent'
