-- ===== src/Acceptor/Records.antt =====
-- What one message does to an acceptor's records, next to the messages that it has sent.
use libpaxos.Prelude.{
  ℕ, ◌≡◌, refl, ◌<◌, ◌≤◌, ◌⊎◌, inl, inr, true, Option, none, some, List, ◌∙◌, arith, ◌==◌,
  Bool-cases, Option-cases, ap, sym, subst, leb→le, update-eq, update-ne, u16, length,
}
use libpaxos.Types.{Prepare, Promise, Accept, Accepted, Message, accepted, promise}
use libpaxos.Storage.{StorageApi, StorageLaws}
use libpaxos.Acceptor.{
  Acceptor, accepted_to_promise, accept_to_accepted, accepted_to_preempted, may_move, prepared,
  receive_prepare, receive_accept, record_or_zero,
}
use libpaxos.Acceptor.Store.{
  recs, Kept, Moves, dropped, stored, refused, receive_prepare-Moves, receive_accept-Moves,
}
use libpaxos.Acceptor.Promises.{Input, step, Holds, step-Holds}
use libpaxos.Acceptor.History.{push, as_accepted, Told, Told-push, OnRecord, Remembers}

module _ (api : StorageApi) (Valid : api.Handle → Type 0) (laws : StorageLaws api Valid) where
  pub keeps_higher :
      (a : Acceptor api) (m : Input) (b j : ℕ)
      → Valid a.store
      → Holds api Valid laws (λ x. b ≤ x.ballot) j a
      → Holds api Valid laws (λ x. b ≤ x.ballot) j (step api a m)
  unfolding prepared accept_to_accepted
  keeps_higher a m b j v h =
      (step-Holds api Valid laws (λ x. b ≤ x.ballot) j (λ _. Unit {0}) (λ id n x le q. omega arith)
        (λ id n x _ _ le q. omega arith) a m tt v h).0

  pub keeps_later :
      (a : Acceptor api) (m : Input) (b j : ℕ)
      → Valid a.store
      → Holds api Valid laws (λ x. (b ≤ x.value_ballot) × (x.value_ballot ≤ x.ballot)) j a
      → Holds api Valid laws
          (λ x. (b ≤ x.value_ballot) × (x.value_ballot ≤ x.ballot))
          j
          (step api a m)
  unfolding prepared accept_to_accepted
  keeps_later a m b j v h =
      (step-Holds api Valid laws (λ x. (b ≤ x.value_ballot) × (x.value_ballot ≤ x.ballot)) j
        (λ _. Unit {0}) (λ id n x le q. ground (arith, le, q))
        (λ id n x _ _ le q. (omega (arith, q.0, q.1), omega arith)) a m tt v h).0

  pub OnRecord-push :
      (o : Option Message) (id : ℕ) (sent : List Message) (j : ℕ) (x : Accepted)
      → OnRecord api Valid laws id sent j x
      → OnRecord api Valid laws id (push o sent) j x
  OnRecord-push o id sent j x (i, k, le, t) =
      (i, k, le, Told-push o sent j x.value_ballot x.value t)

  -- The records after a transaction: the old ones, and the one that it stored.
  pub Moves-OnRecord :
      (a : Acceptor api) (sent : List Message) (iid ballot : ℕ) (acc : Option Accepted → Accepted)
      (reply refuse : Option Accepted → Message) (r : Option Message × Acceptor api)
      → Remembers api Valid laws a sent
      → Kept api Valid a r.1
      → ((o : Option Accepted) → (acc o).iid ≡ iid)
      → (r.0 ≡ some (reply (recs api a iid))
          → a.trim_iid < iid
          → may_move (recs api a iid) ballot ≡ true
          → OnRecord api Valid laws a.id (push r.0 sent) iid (acc (recs api a iid)))
      → Moves api a iid ballot acc reply refuse r
      → (j : ℕ) (x : Accepted) → r.1.trim_iid < j
      → recs api r.1 j ≡ some x
      → OnRecord api Valid laws a.id (push r.0 sent) j x
  Moves-OnRecord a sent iid ballot acc reply refuse r rem k key new (dropped o e) j x lt f =
      OnRecord-push r.0 a.id sent j x
        (rem.on_record j x (omega (arith, k.trim_iid)) (sym (ap (λ g. g j) e) ∙ f))
  Moves-OnRecord a sent iid ballot acc reply refuse r rem k key new (refused l m o e) j x lt f =
      OnRecord-push r.0 a.id sent j x
        (rem.on_record j x (omega (arith, k.trim_iid)) (sym (ap (λ g. g j) e) ∙ f))
  Moves-OnRecord a sent iid ballot acc reply refuse r rem k key new (stored l m o e) j x lt f =
      elim (Bool-cases (iid == j)) [
        | inl same ↦
            let is_new : some (acc (recs api a iid)) ≡ some x =
              sym (update-eq (recs api a) _ j _ (key _ ∙ ground arith))
              ∙ sym (ap (λ g. g j) e)
              ∙ f in
            subst (λ i. OnRecord api Valid laws a.id (push r.0 sent) i x) {x = iid} (ground arith)
              (subst (OnRecord api Valid laws a.id (push r.0 sent) iid) {x = acc (recs api a iid)}
                (cc) (new o l m))
        | inr other ↦ OnRecord-push r.0 a.id sent j x (
            rem.on_record j x (omega (arith, k.trim_iid)) (
              sym (update-ne (recs api a) _ j _ (λ p. ground (arith, key (recs api a iid))))
              ∙ sym (ap (λ g. g j) e)
              ∙ f))
      ]

  -- A promise for what is on record.
  pub OnRecord-Promise :
      (a : Acceptor api) (sent : List Message) (j : ℕ) (y : Accepted) (p : Promise)
      → OnRecord api Valid laws a.id sent j y
      → accepted_to_promise y ≡ promise p
      → (p.iid ≡ j)
        × (p.aid ≡ u16 a.id)
        × (p.value_ballot ≤ p.ballot)
        × Told sent p.iid p.value_ballot p.value
        × (p.value_ballot ≡ y.value_ballot)
  unfolding accepted_to_promise
  OnRecord-Promise a sent j y p (i, k, le, t) e =
      subst
        (λ (q : Promise).
          (q.iid ≡ j)
          × (q.aid ≡ u16 a.id)
          × (q.value_ballot ≤ q.ballot)
          × Told sent q.iid q.value_ballot q.value
          × (q.value_ballot ≡ y.value_ballot))
        {x = record {
          iid = y.iid;
          ballot = y.ballot;
          value_ballot = y.value_ballot;
          aid = y.aid;
          value = y.value;
        }}
        (cc) (i, k, le, subst (λ n. Told sent n y.value_ballot y.value) (sym i) t, refl)

  pub prepared-OnRecord :
      (a : Acceptor api) (sent : List Message) (m : Prepare) (o : Option Accepted)
      → Remembers api Valid laws a sent
      → a.trim_iid < m.iid
      → recs api a m.iid ≡ o
      → may_move o m.ballot ≡ true
      → OnRecord api Valid laws a.id sent m.iid (prepared a.id m o)
  unfolding prepared
  prepared-OnRecord a sent m none rem lt e move = (refl, refl, omega arith, inr (refl, refl))
  prepared-OnRecord a sent m (some x) rem lt e move =
      let (i, k, le, t) = rem.on_record m.iid x lt e in
      (refl, refl, omega (arith, leb→le x.ballot m.ballot move), t)

  -- The record that a promise is about, whether the prepare was taken or refused.
  pub promised_record :
      (a : Acceptor api) (sent : List Message) (m : Prepare) (p : Promise)
      → Remembers api Valid laws a sent
      → (receive_prepare api a m).0 ≡ some (promise p)
      → (y : Accepted) × (accepted_to_promise y ≡ promise p)
        × (a.trim_iid < m.iid)
        × OnRecord api Valid laws a.id sent m.iid y
        × ((x : Accepted) → recs api a m.iid ≡ some x → y.value_ballot ≡ x.value_ballot)
  promised_record a sent m p rem e = elim (receive_prepare-Moves api Valid laws a m rem.valid).0 [
    | dropped o _ ↦ cc
    | stored lt move o _ ↦ (
      _,
      cc,
      lt,
      prepared-OnRecord a sent m (recs api a m.iid) rem lt refl move,
      λ x z. unfold prepared in ap (λ f. (record_or_zero f).value_ballot) z,
    )
    | refused lt move o _ ↦ elim (Option-cases (recs api a m.iid)) [
      | inl z ↦ absurd (ground arith)
      | inr (x, z) ↦ (
        record_or_zero (recs api a m.iid),
        cc,
        lt,
        subst (λ f. OnRecord api Valid laws a.id sent m.iid (record_or_zero f)) (sym z)
            (rem.on_record m.iid x lt z),
        λ y w. ap (λ f. (record_or_zero f).value_ballot) w,
      )
    ]
  ]

  -- An accept that is answered with a vote was taken as it is, and is on record.
  pub accept_vote :
      (a : Acceptor api) (m : Accept) (v : Accepted)
      → Valid a.store
      → (receive_accept api a m).0 ≡ some (accepted v)
      → (accept_to_accepted a.id m ≡ v)
        × (may_move (recs api a m.iid) m.ballot ≡ true)
        × (a.trim_iid < m.iid)
        × (recs api (receive_accept api a m).1 m.iid ≡ some v)
  unfolding accept_to_accepted accepted_to_preempted
  accept_vote a m v valid e = elim (receive_accept-Moves api Valid laws a m valid).0 [
    | dropped o _ ↦ cc
    | stored lt move o f ↦
        (cc, move, lt, ap (λ g. g m.iid) f ∙ update-eq (recs api a) _ m.iid _ refl ∙ cc)
    | refused lt move o _ ↦ cc
  ]

-- A vote that is repeated is the record, and has a value.
pub repeat_vote :
    (found o : Option Accepted) (v : Accepted)
    → (o ≡ none) ⊎ ((acc : Accepted) × (o ≡ some acc) × (found ≡ some acc) × (0 < length acc.value))
    → as_accepted o ≡ some (accepted v)
    → (found ≡ some v) × (0 < length v.value)
repeat_vote found none v h e = cc
repeat_vote found (some x) v (inl z) e = cc
repeat_vote found (some x) v (inr (acc, z, f, pos)) e =
    let same : acc ≡ v = cc in
    (f ∙ ap some same, subst (λ (y : Accepted). 0 < length y.value) same pos)
