-- ===== src/Learner/Runs.antt =====
-- What a learner delivers, over any sequence of accepted messages and deliveries.
use libpaxos.Prelude.{
  ℕ, ◌+◌, ◌≡◌, refl, inl, inr, true, false, Option, none, some, List, [], ◌∷◌, ◌∙◌, arith, ltb, u32,
  Bool-cases, Option-cases, Ensures, Ensures-some, Ensures->>=, ◌>>=◌, ap, subst, sym,
}
use libpaxos.Types.{Accepted}
use libpaxos.Khash.{Khash}
use libpaxos.Learner.Instances.{Instance, instance_new, instance_update}
use libpaxos.Learner.Gaps.{Gap}
use libpaxos.Learner.Votes.{Backed, Backers}
use libpaxos.Learner.{
  Learner, start_at, receive_started, learner_create_instance, learner_get_instance_or_create,
  close_instance, learner_receive_accepted, learner_deliver_next,
}
use libpaxos.Learner.Delivery.{
  LearnerValid, Received, Delivered, receive_started-Received, deliver_next-Delivered,
}

-- An accepted message that arrives, or a call of `learner_deliver_next`.
pub data Event : Type 0 where
  receives : Accepted → Event
  delivers : Event

abbrev prepend : Option Accepted → List Accepted → List Accepted
prepend none outs = outs
prepend (some out) outs = out ∷ outs

module _ (kh : Khash Instance) (kg : Khash Gap) where
  -- What is delivered, and the learner after it; `none` is a fault.
  unfoldable pub run : Learner kh kg → List Event → Option (List Accepted × Learner kh kg)
  run l [] = some ([], l)
  run l (receives ack ∷ es) = learner_receive_accepted kh kg l ack >>= λ l'. run l' es
  run l (delivers ∷ es) =
      let (out, l') = learner_deliver_next kh kg l in
      run l' es >>= λ (outs, l''). some (prepend out outs, l'')

module _ (kh : Khash Instance) (kg : Khash Gap) (P : Accepted → Type 0) where
  -- Values for the instances from `iid` on, none left out, each backed by a majority.
  abbrev pub InOrder : ℕ → ℕ → List Accepted → Type 0
  InOrder n iid [] = Unit {0}
  InOrder n iid (out ∷ outs) = ((out.iid ≡ iid) × Backed P n out) × InOrder n (u32 (iid + 1)) outs

  abbrev pub AllReceived : List Event → Type 0
  AllReceived [] = Unit {0}
  AllReceived (receives ack ∷ es) = P ack × AllReceived es
  AllReceived (delivers ∷ es) = AllReceived es

  pub started : (l : Learner kh kg) (iid : ℕ) → l.late_start ≡ false → start_at kh kg l iid ≡ l
  unfolding start_at
  started l iid late = ground arith

  prepend-InOrder :
      (l : Learner kh kg) (r : Option Accepted × Learner kh kg) (outs : List Accepted)
      → Delivered kh kg P l r
      → InOrder r.1.acceptors r.1.current_iid outs
      → InOrder l.acceptors l.current_iid (prepend r.0 outs)
  prepend-InOrder l (none, l') outs d g =
      subst (λ n. InOrder n l.current_iid outs) d.acceptors
        (subst (λ i. InOrder l'.acceptors i outs) (d.nothing refl) g)
  prepend-InOrder l (some out, l') outs d g =
      let (bk, key, next, _) = d.something out refl in
      (
        (key, bk),
        subst (λ n. InOrder n (u32 (l.current_iid + 1)) outs) d.acceptors
            (subst (λ i. InOrder l'.acceptors i outs) next g),
      )

  run-Ensures :
      (es : List Event) (l : Learner kh kg)
      → LearnerValid kh kg P l
      → l.late_start ≡ false
      → AllReceived es
      → Ensures (λ r. InOrder l.acceptors l.current_iid r.0) (run kh kg l es)
  unfolding run learner_receive_accepted start_at
  run-Ensures [] l h late ps = tt
  run-Ensures (receives ack ∷ es) l h late ps =
      Ensures->>= (Received kh kg P l) _ (learner_receive_accepted kh kg l ack)
        (λ l'. run kh kg l' es)
        (subst (λ x. Ensures (Received kh kg P l) (receive_started kh kg x ack))
          (sym (started l ack.iid late)) (receive_started-Received kh kg P l ack ps.0 h))
        (λ l' g.
          subst (λ n. Ensures (λ r. InOrder n l.current_iid r.0) (run kh kg l' es)) g.acceptors
            (subst (λ i. Ensures (λ r. InOrder l'.acceptors i r.0) (run kh kg l' es)) g.current_iid
              (run-Ensures es l' g.valid (g.late_start ∙ late) ps.1)))
  run-Ensures (delivers ∷ es) l h late ps =
      let d = deliver_next-Delivered kh kg P l h in
      Ensures->>=
        (λ r.
          InOrder (learner_deliver_next kh kg l).1.acceptors
            (learner_deliver_next kh kg l).1.current_iid r.0)
        _ (run kh kg (learner_deliver_next kh kg l).1 es) _
        (run-Ensures es (learner_deliver_next kh kg l).1 d.valid (d.late_start ∙ late) ps)
        (λ r g. prepend-InOrder l (learner_deliver_next kh kg l) r.0 d g)

  -- Whatever messages arrive and whenever it delivers, a valid learner that has started delivers the instances
  -- from the current one on in order, each once and none left out. More than half of the acceptors
  -- accepted something in the instance under the ballot of what is delivered.
  pub run-InOrder :
      (es : List Event) (l : Learner kh kg) (outs : List Accepted) (l' : Learner kh kg)
      → LearnerValid kh kg P l
      → l.late_start ≡ false
      → AllReceived es
      → run kh kg l es ≡ some (outs, l')
      → InOrder l.acceptors l.current_iid outs
  run-InOrder es l outs l' h late ps e =
      Ensures-some (λ r. InOrder l.acceptors l.current_iid r.0) _ (outs, l')
        (run-Ensures es l h late ps) e

  -- More than half of the `n` acceptors accepted the value of `out`, under its ballot.
  abbrev pub Chosen : ℕ → Accepted → Type 0
  Chosen n out = Backed (λ m. P m × (m.value ≡ out.value)) n out

  -- Values for the instances from `iid` on, none left out, each accepted by a majority.
  abbrev pub Delivers : ℕ → ℕ → List Accepted → Type 0
  Delivers n iid [] = Unit {0}
  Delivers n iid (out ∷ outs) = ((out.iid ≡ iid) × Chosen n out) × Delivers n (u32 (iid + 1)) outs

  -- Messages of one instance and ballot carry one value.
  abbrev pub OneValue : Type 0
  OneValue = (a b : Accepted) → P a → P b → a.iid ≡ b.iid → a.ballot ≡ b.ballot → a.value ≡ b.value

  Backers-value :
      (n lo : ℕ) (out : Accepted) (bs : List Accepted)
      → OneValue
      → P out
      → Backers P n out.iid out.ballot lo bs
      → Backers (λ m. P m × (m.value ≡ out.value)) n out.iid out.ballot lo bs
  Backers-value n lo out [] one p h = tt
  Backers-value n lo out (b ∷ bs) one p ((x, y, key, same, q), h) =
      ((x, y, key, same, (q, one b out q p key same)), Backers-value n (b.aid + 1) out bs one p h)

  InOrder-Delivers :
      (n iid : ℕ) (outs : List Accepted) → OneValue → InOrder n iid outs → Delivers n iid outs
  InOrder-Delivers n iid [] one h = tt
  InOrder-Delivers n iid (out ∷ outs) one ((key, (bs, more, back, p)), h) = (
    (key, (bs, more, Backers-value n 0 out bs one p back, (p, refl))),
    InOrder-Delivers n (u32 (iid + 1)) outs one h,
  )

-- With memory for every table entry no assertion of a learner fails.
module _ (kh : Khash Instance) (kg : Khash Gap)
    (has_room : (t : kh.Table) (k : ℕ) → kh.room t k ≡ true) where
  get_or_create-returns :
      (l : Learner kh kg) (iid : ℕ)
      → (r : Instance × Learner kh kg) × (learner_get_instance_or_create kh kg l iid ≡ some r)
  unfolding learner_get_instance_or_create learner_create_instance
  get_or_create-returns l iid = elim (Option-cases (kh.get l.instances iid)) [
    | inl z ↦ (
      (
        instance_new l.acceptors,
        record l { instances = kh.put l.instances iid (instance_new l.acceptors) },
      ),
      rw (z, has_room l.instances iid, learner_get_instance_or_create, learner_create_instance)
          refl,
    )
    | inr (x, z) ↦ ((x, l), rw (z, learner_get_instance_or_create) refl)
  ]

  pub receive_accepted-returns :
      (l : Learner kh kg) (ack : Accepted)
      → (l' : Learner kh kg) × (learner_receive_accepted kh kg l ack ≡ some l')
  unfolding learner_receive_accepted receive_started
  receive_accepted-returns l ack = go (start_at kh kg l ack.iid)
    where
      go : (m : Learner kh kg) → (l' : Learner kh kg) × (receive_started kh kg m ack ≡ some l')
      go m = elim (Bool-cases (ltb ack.iid m.current_iid)) [
        | inl old ↦ (m, rw (old, receive_started) refl)
        | inr new ↦
            let (r, e) = get_or_create-returns m ack.iid in
            (
              close_instance kh kg r.1 ack.iid (instance_update r.0 ack m.acceptors),
              rw (new, receive_started)
                  (ap
                    (λ o. o >>= λ x.
                      some (close_instance kh kg x.1 ack.iid (instance_update x.0 ack m.acceptors)))
                    e),
            )
      ]

  run-returns :
      (es : List Event) (l : Learner kh kg)
      → (r : List Accepted × Learner kh kg) × (run kh kg l es ≡ some r)
  unfolding run
  run-returns [] l = (([], l), refl)
  run-returns (receives ack ∷ es) l =
      let (l', e) = receive_accepted-returns l ack in
      let (r, f) = run-returns es l' in (r, ap (λ o. o >>= λ x. run kh kg x es) e ∙ f)
  run-returns (delivers ∷ es) l =
      let (r, f) = run-returns es (learner_deliver_next kh kg l).1 in
      (_, ap (λ o. o >>= λ x. some (prepend (learner_deliver_next kh kg l).0 x.0, x.1)) f)

  -- With memory for every table entry, and if the messages that arrive for one instance under one ballot carry
  -- one value: a valid learner that has started takes every sequence of messages and deliveries
  -- without a failed assertion. It delivers the instances from the current one on in order, each once
  -- and none left out, and only values that more than half of the acceptors accepted, each for that
  -- instance and under one ballot.
  pub run-Delivers :
      (P : Accepted → Type 0) (es : List Event) (l : Learner kh kg)
      → OneValue kh kg P
      → LearnerValid kh kg P l
      → l.late_start ≡ false
      → AllReceived kh kg P es
      → (outs : List Accepted) × (l' : Learner kh kg) × (run kh kg l es ≡ some (outs, l'))
        × Delivers kh kg P l.acceptors l.current_iid outs
  run-Delivers P es l one h late ps =
      let ((outs, l'), e) = run-returns es l in
      (
        outs,
        l',
        e,
        InOrder-Delivers kh kg P l.acceptors l.current_iid outs one
            (run-InOrder kh kg P es l outs l' h late ps e),
      )
