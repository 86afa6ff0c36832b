-- ===== src/System/Requests.antt =====
-- The requests that proposers make keep the invariant of `System/Votes.antt`, and so it holds in every
-- reachable state.
use mathlib.Core.List.{Memᴰ}
use mathlib.Core.Option.{some-injective}
use libpaxos.Prelude.{
  ℕ, ◌≡◌, ◌≢◌, refl, ◌<◌, inl, inr, Option, none, some, List, [], ◌∷◌, ◌∙◌, ◌==◌, arith, length, ap,
  sym, subst, Bool-cases, u16, ltb,
}
use libpaxos.Types.{Value, Promise, Accept, accepted, promise}
use libpaxos.Quorum
use libpaxos.Storage.{StorageApi, StorageLaws}
use libpaxos.Acceptor.History.{Remembers}
use libpaxos.Acceptor.Remembering.{empty-Remembers}
use libpaxos.Proposer.Instances.{Instance, instance_new, instance_to_accept}
use libpaxos.Proposer.Promises.{
  AllFrom, counted, highest, receive_all-Phase1, clear-Counting, reached_iff,
}
use libpaxos.Proposer.Highest.{counted-Mem, counted-Distinct}
use libpaxos.System.{
  Node, System, AllSent, Proposal, handles, proposes, Start, Reach, begin, and_then,
}
use libpaxos.System.Votes.{Asked-tail, Safe, Inv, handles-Inv}

module _ (api : StorageApi) (Valid : api.Handle → Type 0) (laws : StorageLaws api Valid) where
  -- A promise for an instance and ballot that nobody has requested an accept for reports an earlier ballot.
  promise-earlier :
      (n : ℕ) (s : System api) (iid ballot : ℕ) (p : Promise)
      → Inv api Valid laws n s
      → 0 < ballot
      → ((r : Accept) → Memᴰ r s.requests → r.iid ≡ iid → r.ballot ≢ ballot)
      → p.aid < n
      → p.iid ≡ iid
      → p.ballot ≡ ballot
      → Memᴰ (promise p) (s.nodes p.aid).sent
      → p.value_ballot < ballot
  promise-earlier n s iid ballot p inv pos fresh lt key same is =
      let (_, le, told, _) = (inv.remembers p.aid lt).promises p is in
      elim (Bool-cases (p.value_ballot == ballot)) [
        | inr other ↦ ground arith
        | inl equal ↦ elim told [
          | inr (z, _) ↦ absurd (ground arith)
          | inl (m, i, a, b, c, d) ↦
              let (r, j, f, g, k) = inv.asked p.aid lt m i (c ∙ sym b) in
              absurd (fresh r j (f ∙ a ∙ key) (g ∙ b ∙ ground arith))
        ]
      ]

  -- What a proposer's own functions give of its request.
  pub record Answering (inst : Instance) (client : Option Value) (acc : Accept) : Type 0 where
    iid : acc.iid ≡ inst.iid
    ballot : acc.ballot ≡ u16 inst.ballot
    promised : (v : Value) → inst.promised_value ≡ some v → acc.value ≡ v

  to_accept-Answering :
      (inst : Instance) (client : Option Value) (acc : Accept)
      → instance_to_accept (record inst { value = client }) ≡ some acc
      → Answering inst client acc
  unfolding instance_to_accept
  to_accept-Answering inst client acc e = go inst.promised_value client e
    where
      go :
          (o c : Option Value)
          → instance_to_accept (record inst { promised_value = o; value = c }) ≡ some acc
          → Answering (record inst { promised_value = o }) c acc
      go (some w) c e =
          let is = some-injective _ acc e in
          let same = ap (λ (x : Accept). x.value) (sym is) in
          record {
            iid = ap (λ (x : Accept). x.iid) (sym is);
            ballot = ap (λ (x : Accept). x.ballot) (sym is);
            promised = λ v f. same ∙ some-injective w v f;
          }
      go none (some w) e =
          let is = some-injective _ acc e in
          let same = ap (λ (x : Accept). x.value) (sym is) in
          record {
            iid = ap (λ (x : Accept). x.iid) (sym is);
            ballot = ap (λ (x : Accept). x.ballot) (sym is);
            promised = λ v f. cc;
          }
      go none none e = cc

  from_sent :
      (n : ℕ) (nodes : ℕ → Node api) (iid ballot : ℕ) (ps : List Promise)
      → AllSent api n nodes iid ballot ps
      → AllFrom ballot n ps
  from_sent n nodes iid ballot [] h = tt
  from_sent n nodes iid ballot (p ∷ ps) h =
      let (lt, _, b, _) = h p (Memᴰ.head refl) in
      ((b, lt), from_sent n nodes iid ballot ps (λ q i. h q (Memᴰ.tail i)))

  started_is :
      (iid ballot n created : ℕ) (inst : Instance)
      → instance_new iid ballot n created ≡ some inst
      → (inst.ballot ≡ ballot)
        × (inst.quorum ≡ Quorum.init n)
        × (inst.promised_value ≡ none)
        × (inst.value_ballot ≡ 0)
  unfolding instance_new
  started_is iid ballot n created inst = elim (Bool-cases (ltb 0 iid)) [
    | inr no_iid ↦ rw no_iid (λ e. cc)
    | inl yes_iid ↦ rw yes_iid (λ e.
        let is = some-injective _ inst e in
        (
          ap (λ (x : Instance). x.ballot) (sym is),
          ap (λ (x : Instance). x.quorum) (sym is),
          ap (λ (x : Instance). x.promised_value) (sym is),
          ap (λ (x : Instance). x.value_ballot) (sym is),
        ))
  ]

  -- The request of a proposal is safe, and is for its instance and ballot.
  Proposal-Safe :
      (n : ℕ) (s : System api) (acc : Accept) (p : Proposal api n s acc)
      → Inv api Valid laws n s
      → Safe api n s.nodes acc × (acc.iid ≡ p.started.iid) × (acc.ballot ≡ p.ballot)
  Proposal-Safe n s acc p inv =
      let iid = p.started.iid in
      let start : Instance = record p.started { value = p.waiting } in
      let (at_ballot, no_quorum, no_value, no_ballot) =
        started_is iid p.ballot n p.created p.started p.starts in
      let (inst', receives, f) =
        receive_all-Phase1 p.id n p.now p.promises [] start (clear-Counting n start no_quorum) (
          subst (λ b. AllFrom b n p.promises) (sym at_ballot)
            (from_sent n s.nodes iid p.ballot p.promises p.sent)) in
      let same : inst' ≡ p.prepared = some-injective inst' p.prepared (sym receives ∙ p.receives) in
      let q = to_accept-Answering p.prepared p.client acc p.asks in
      let key : acc.iid ≡ iid = q.iid ∙ sym (ap (λ (x : Instance). x.iid) same) ∙ f.iid in
      let ballot_same : acc.ballot ≡ p.ballot =
        omega
          (arith, q.ballot, ap (λ (x : Instance). x.ballot) same, f.ballot, at_ballot, p.fits) in
      let none_counted : (Quorum.init n).count ≡ 0 = unfold Quorum.init in refl in
      let quorum =
        reached_iff n (length (counted [] p.promises)) inst'.quorum f.valid f.acceptors
          (omega (arith, f.count, ap (λ (x : Quorum.Quorum). x.count) no_quorum, none_counted)) in
      let held : p.prepared.promised_value ≡ (highest (none, 0) (counted [] p.promises)).0 =
        sym (ap (λ (x : Instance). x.promised_value) same)
        ∙ ap (λ x. x.0) f.value
        ∙ ap (λ v. (highest (v, p.started.value_ballot) (counted [] p.promises)).0) no_value
        ∙ ap (λ b. (highest (none, b) (counted [] p.promises)).0) no_ballot in
      (
        record {
          positive = omega (arith, p.positive);
          filled = p.filled;
          promises = counted [] p.promises;
          sent = λ x i.
              let (lt, a, b, c) = p.sent x (counted-Mem [] p.promises x i) in
              (lt, a ∙ sym key, b ∙ sym ballot_same, c);
          earlier = λ x i.
              let (lt, a, b, c) = p.sent x (counted-Mem [] p.promises x i) in
              omega (
                arith,
                promise-earlier n s iid p.ballot x inv p.positive p.fresh lt a b c,
                ballot_same,
              );
          distinct = counted-Distinct [] p.promises;
          majority = quorum.0 (ap (λ (x : Instance). Quorum.reached x.quorum) same ∙ p.reached);
          follows = λ v e. q.promised v (held ∙ e);
        },
        key,
        ballot_same,
      )

  proposes-Inv :
      (n : ℕ) (s : System api) (acc : Accept)
      → Inv api Valid laws n s
      → Proposal api n s acc
      → Inv api Valid laws n (record s { requests = acc ∷ s.requests })
  proposes-Inv n s acc inv p =
      let (safe_new, key, same) = Proposal-Safe n s acc p inv in
      record {
        few = inv.few;
        ids = inv.ids;
        remembers = inv.remembers;
        asked = λ i lt m is vote. Asked-tail acc s.requests m (inv.asked i lt m is vote);
        safe = λ r i. elim i [
          | Memᴰ.head e ↦ subst (Safe api n s.nodes) (sym e) safe_new
          | Memᴰ.tail j ↦ inv.safe r j
        ];
        unique = λ r r' i j a b. elim i [
          | Memᴰ.head e ↦ elim j [
            | Memᴰ.head f ↦ ap (λ (x : Accept). x.value) (e ∙ sym f)
            | Memᴰ.tail l ↦ absurd (
                p.fresh r' l (sym a ∙ ap (λ (x : Accept). x.iid) e ∙ key)
                  (sym b ∙ ap (λ (x : Accept). x.ballot) e ∙ same))
          ]
          | Memᴰ.tail k ↦ elim j [
            | Memᴰ.head f ↦ absurd (
                p.fresh r k (a ∙ ap (λ (x : Accept). x.iid) f ∙ key)
                  (b ∙ ap (λ (x : Accept). x.ballot) f ∙ same))
            | Memᴰ.tail l ↦ inv.unique r r' k l a b
          ]
        ];
      }

  Start-Inv : (n : ℕ) (s : System api) → Start api Valid n s → Inv api Valid laws n s
  Start-Inv n s h = record {
    few = h.few;
    ids = h.ids;
    remembers = λ i lt.
        subst (Remembers api Valid laws (s.nodes i).acceptor) (sym (h.silent i lt))
          (empty-Remembers api Valid laws (s.nodes i).acceptor (h.valid i lt) (h.empty i lt));
    asked = λ i lt m is. elim (subst (Memᴰ (accepted m)) (h.silent i lt) is) [ ];
    safe = λ r i. elim (subst (Memᴰ r) h.unasked i) [ ];
    unique = λ r r' i. elim (subst (Memᴰ r) h.unasked i) [ ];
  }

  -- Over a storage that meets its laws and may fail, from acceptors that start empty, in every reachable state:
  -- each vote of an acceptor was requested, and under one ballot for one value only; each request has a
  -- majority of promises that report only earlier ballots behind it, and carries the value of the highest
  -- ballot that they report, if they report one; and each acceptor remembers what it has sent.
  pub Reach-Inv :
      (n : ℕ) (s t : System api) → Start api Valid n s → Reach api n s t → Inv api Valid laws n t
  Reach-Inv n s t h begin = Start-Inv n s h
  Reach-Inv n s t h (and_then r (handles i m lt ok)) =
      handles-Inv api Valid laws n _ i m (Reach-Inv n s _ h r) lt ok
  Reach-Inv n s t h (and_then r (proposes acc p)) = proposes-Inv n _ acc (Reach-Inv n s _ h r) p
