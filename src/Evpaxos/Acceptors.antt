-- ===== src/Evpaxos/Acceptors.antt =====
-- The handlers of evpaxos/evacceptor.c. A message goes back to the peer that sent the request, or to all
-- clients.
use libpaxos.Prelude.{
  ℕ, zero, suc, ◌+◌, ◌-◌, ◌<◌, ◌≤◌, ◌≡◌, refl, false, Option, none, some, List, [], ◌∷◌, ◌++◌,
  arith, leb, u32, if◌then◌else◌, ap, sym, subst, ◌∙◌, ◌⊎◌, inl, inr, update, Bool-cases, ltb,
  length,
}
use mathlib.Core.Option.{some-injective}
use libpaxos.Types.{
  Prepare, Accept, Accepted, Repeat, Trim, Message, accepted, preempted, acceptor_state,
}
use libpaxos.Storage.{StorageApi, StorageLaws}
use libpaxos.Acceptor.{
  Acceptor, receive_prepare, receive_accept, receive_repeat, receive_trim, current_state,
  with_value,
}
use libpaxos.Acceptor.Store.{recs, receive_repeat_lem}
use libpaxos.Acceptor.Outcomes.{
  vote_for, refusal_for, Fails, NoHigher, accept_trimmed, accept_failed, accept_voted,
  accept_refused, receive_accept-AcceptOutcome,
}

pub data Send : Type 0 where
  to_peer : Message → Send
  to_clients : Message → Send

abbrev answer : Option Message → List Send
answer none = []
answer (some m) = to_peer m ∷ []

-- The two types of messages that `evacceptor_handle_accept` sends.
abbrev route : Option Message → List Send
route (some (accepted m)) = to_clients (accepted m) ∷ []
route (some (preempted m)) = to_peer (preempted m) ∷ []
route _ = []

abbrev answer_repeat : Option Accepted → List Send
answer_repeat none = []
answer_repeat (some acc) = to_peer (accepted acc) ∷ []

module _ (api : StorageApi) where
  unfoldable pub evacceptor_handle_prepare : Acceptor api → Prepare → List Send × Acceptor api
  evacceptor_handle_prepare a msg = let (out, a') = receive_prepare api a msg in (answer out, a')

  unfoldable pub evacceptor_handle_accept : Acceptor api → Accept → List Send × Acceptor api
  evacceptor_handle_accept a msg = let (out, a') = receive_accept api a msg in (route out, a')

  -- The loop, from `iid` on, `rounds` times.
  unfoldable pub repeat_loop : ℕ → ℕ → Acceptor api → List Send × Acceptor api
  repeat_loop zero iid a = ([], a)
  repeat_loop (suc rounds) iid a =
      let (out, a') = receive_repeat api a iid in
      let (sends, a'') = repeat_loop rounds (u32 (iid + 1)) a' in (answer_repeat out ++ sends, a'')

  -- `none` where the loop does not end, since no 32-bit number exceeds `to`.
  unfoldable pub evacceptor_handle_repeat :
      Acceptor api → Repeat → Option (List Send × Acceptor api)
  unfolding repeat_loop
  evacceptor_handle_repeat a msg =
      if leb 4294967295 msg.to then none else some (repeat_loop (msg.to + 1 - msg.from) msg.from a)

  unfoldable pub evacceptor_handle_trim : Acceptor api → Trim → Acceptor api
  evacceptor_handle_trim a msg = (receive_trim api a msg).1

  unfoldable pub send_acceptor_state : Acceptor api → List Send
  send_acceptor_state a = to_clients (acceptor_state (current_state api a)) ∷ []

module _ (api : StorageApi) where
  -- What an accept leads to. Nothing is sent for a trimmed instance or if the storage fails. All
  -- clients hear of a vote, which is then on record under the ballot of the accept and with its value.
  -- Only the peer hears of a refusal, with the higher ballot on record, and the records stay.
  pub data Announces (a : Acceptor api) (msg : Accept) (r : List Send × Acceptor api) : Type 0 where
    silent :
        (msg.iid ≤ a.trim_iid) ⊎ Fails api a.store (vote_for a.id msg)
        → r.0 ≡ []
        → recs api r.1 ≡ recs api a
        → Announces a msg r
    announces :
        a.trim_iid < msg.iid
        → NoHigher api a msg.iid msg.ballot
        → r.0 ≡ to_clients (accepted (vote_for a.id msg)) ∷ []
        → recs api r.1 ≡ update (recs api a) msg.iid (some (vote_for a.id msg))
        → Announces a msg r
    refuses :
        a.trim_iid < msg.iid
        → (x : Accepted) → recs api a msg.iid ≡ some x
        → msg.ballot < x.ballot
        → r.0 ≡ to_peer (refusal_for a.id x) ∷ []
        → recs api r.1 ≡ recs api a
        → Announces a msg r

module _ (api : StorageApi) (Valid : api.Handle → Type 0) (laws : StorageLaws api Valid) where
  open api use {Handle, tx_begin, tx_commit, get}

  -- Over a storage that meets its laws, in a valid state, `evacceptor_handle_accept` tells all clients of a vote,
  -- with the ballot and the value of the accept, exactly when it has stored this vote, which it does if
  -- no record of the instance is under a higher ballot; if one is, it tells the peer of that ballot
  -- and keeps the records. It sends nothing, and keeps the records, for a trimmed instance, and else
  -- only if the storage fails.
  pub handle_accept-Announces :
      (a : Acceptor api) (msg : Accept)
      → Valid a.store
      → Announces api a msg (evacceptor_handle_accept api a msg)
  unfolding evacceptor_handle_accept
  handle_accept-Announces a msg v = elim (receive_accept-AcceptOutcome api Valid laws a msg v).0 [
    | accept_trimmed le e ↦ silent (inl le) (ap (λ r. route r.0) e) (ap (λ r. recs api r.1) e)
    | accept_failed lt f o e ↦ silent (inr f) (ap route o) e
    | accept_voted lt low o e ↦ announces lt low (ap route o) e
    | accept_refused lt x f h o e ↦ refuses lt x f h (ap route o) e
  ]

  -- A repeat of an instance may be left out: there is no record with a value, or the storage failed,
  -- in a valid state with these records.
  abbrev pub Skipped : (ℕ → Option Accepted) → ℕ → Type 0
  Skipped m iid =
      ((acc : Accepted) → m iid ≡ some acc → length acc.value ≡ 0)
      ⊎ ((h : Handle) × Valid h
          × (get h ≡ m)
          × (((tx_begin h).0 ≡ false) ⊎ ((tx_commit (tx_begin h).1).0 ≡ false)))

  -- The answers for `rounds` instances from `iid` on: in order, one for each instance, its record, unless
  -- it is skipped; and no others.
  abbrev pub Repeats : (ℕ → Option Accepted) → ℕ → ℕ → List Send → Type 0
  Repeats m zero iid ss = ss ≡ []
  Repeats m (suc rounds) iid ss =
      ((acc : Accepted) × (rest : List Send) × (m iid ≡ some acc)
        × (0 < length acc.value)
        × (ss ≡ to_peer (accepted acc) ∷ rest)
        × Repeats m rounds (iid + 1) rest)
      ⊎ (Skipped m iid × Repeats m rounds (iid + 1) ss)

  with_value-none :
      (o : Option Accepted) (acc : Accepted)
      → with_value o ≡ none
      → o ≡ some acc
      → length acc.value ≡ 0
  unfolding with_value
  with_value-none none acc e f = absurd (cc)
  with_value-none (some x) acc e f = elim (Bool-cases (ltb 0 (length x.value))) [
    | inl pos ↦ let s : with_value (some x) ≡ some x = rw (pos, with_value) refl in absurd (cc)
    | inr z ↦
        subst (λ (y : Accepted). length y.value ≡ 0) {x = x} (some-injective x acc f) (ground arith)
  ]

  receive_repeat-Skipped :
      (a : Acceptor api) (iid : ℕ)
      → Valid a.store
      → (receive_repeat api a iid).0 ≡ none
      → Skipped (recs api a) iid
  unfolding receive_repeat
  receive_repeat-Skipped a iid v e = elim (Bool-cases (tx_begin a.store).0) [
    | inr b ↦ inr (a.store, v, refl, inl b)
    | inl b ↦ elim (Bool-cases (tx_commit (tx_begin a.store).1).0) [
      | inr c ↦ inr (a.store, v, refl, inr c)
      | inl c ↦
          let s : (receive_repeat api a iid).0 ≡ with_value (recs api a iid) =
            rw (b, c, laws.get-begin a.store v, receive_repeat) refl in
          inl (λ acc f. with_value-none (recs api a iid) acc (sym s ∙ e) f)
    ]
  ]

  repeat_loop-Repeats :
      (rounds iid : ℕ) (a : Acceptor api)
      → Valid a.store
      → iid + rounds < 4294967296
      → let (sends, a') = repeat_loop api rounds iid a in
        Repeats (recs api a) rounds iid sends × (recs api a' ≡ recs api a) × Valid a'.store
  unfolding repeat_loop
  repeat_loop-Repeats zero iid a v h = (refl, refl, v)
  repeat_loop-Repeats (suc rounds) iid a v h =
      let (e, k, o) = receive_repeat_lem api Valid laws a iid v in
      let (r, f, w) =
        repeat_loop-Repeats rounds (u32 (iid + 1)) (receive_repeat api a iid).1 k.valid
          (omega arith) in
      let rest : Repeats (recs api a) rounds (iid + 1)
          (repeat_loop api rounds (u32 (iid + 1)) (receive_repeat api a iid).1).0 =
        subst
          (λ m.
            Repeats m rounds (iid + 1)
              (repeat_loop api rounds (u32 (iid + 1)) (receive_repeat api a iid).1).0)
          e
          (subst
            (λ j.
              Repeats (recs api (receive_repeat api a iid).1) rounds j
                (repeat_loop api rounds (u32 (iid + 1)) (receive_repeat api a iid).1).0)
            {x = u32 (iid + 1)} (omega arith) r) in
      (
        elim o [
          | inl z ↦ inr (
            receive_repeat-Skipped a iid v z,
            subst (Repeats (recs api a) rounds (iid + 1))
                (ap
                  (λ q.
                    answer_repeat q
                    ++ (repeat_loop api rounds (u32 (iid + 1)) (receive_repeat api a iid).1).0)
                  (sym z))
                rest,
          )
          | inr (acc, z, y, pos) ↦ inl (
            acc,
            _,
            y,
            pos,
            ap
                (λ q.
                  answer_repeat q
                  ++ (repeat_loop api rounds (u32 (iid + 1)) (receive_repeat api a iid).1).0)
                z,
            rest,
          )
        ],
        f ∙ e,
        w,
      )

  -- Over a storage that meets its laws, in a valid state, for a first instance up to the last one and a last
  -- instance below 2^32 - 1, `evacceptor_handle_repeat` ends. It sends the peer the record of each
  -- instance asked for that has one with a value, in order and as it stands, unless the storage
  -- fails, and nothing else; and it changes no record.
  pub handle_repeat-Repeats :
      (a : Acceptor api) (msg : Repeat)
      → Valid a.store
      → msg.from ≤ msg.to
      → msg.to < 4294967295
      → (r : List Send × Acceptor api) × (evacceptor_handle_repeat api a msg ≡ some r)
        × Repeats (recs api a) (msg.to + 1 - msg.from) msg.from r.0
        × (recs api r.1 ≡ recs api a)
        × Valid r.1.store
  unfolding evacceptor_handle_repeat
  handle_repeat-Repeats a msg v le lt =
      let h = repeat_loop-Repeats (msg.to + 1 - msg.from) msg.from a v (omega arith) in
      let ends : leb 4294967295 msg.to ≡ false = ground arith in
      (
        _,
        ap (λ b. if b then none else some (repeat_loop api (msg.to + 1 - msg.from) msg.from a))
            ends,
        h.0,
        h.1,
        h.2,
      )
