-- ===== src/Proposer/Decisions.antt =====
-- What `proposer_receive_accepted` does, and that it gives a client's value back that was not chosen.
use libpaxos.Prelude.{
  ℕ, ◌<◌, ◌≡◌, ◌≢◌, refl, ◌⊎◌, inl, inr, Bool, true, false, Option, none, some, [], ◌∷◌, ◌++◌,
  arith, ◌==◌, if◌then◌else◌, Bool-cases, ap, sym, subst, ◌∙◌, update,
}
use mathlib.Core.Option.{some-injective}
use libpaxos.Types.{Value, Accepted}
use libpaxos.Quorum.{Quorum, paxos_quorum}
use libpaxos.Quorum
use libpaxos.Quorum.Count.{Added, add-Added, get_elem?_of_lt}
use libpaxos.Quorum.Count
use libpaxos.Carray.{Carray, carray_push_back}
use libpaxos.Carray.Cells.{contents}
use libpaxos.Carray.Cells
use libpaxos.Carray.Queue.{push_back-contents}
use libpaxos.Khash.{Khash}
use libpaxos.Proposer.Instances.{Instance, same_value}
use libpaxos.Proposer.{Proposer, return_value, proposer_receive_accepted}

same_value-eq : (v w : Value) → same_value v w ≡ true → v ≡ w
unfolding same_value
same_value-eq [] [] h = refl
same_value-eq [] (y ∷ ys) h = cc
same_value-eq (x ∷ xs) [] h = cc
same_value-eq (x ∷ xs) (y ∷ ys) h = ground (arith, same_value-eq xs ys)

same_value_refl : (v : Value) → same_value v v ≡ true
unfolding same_value
same_value_refl [] = refl
same_value_refl (x ∷ xs) = ground (arith, same_value_refl xs)

module _ (kh : Khash Instance) where
  -- What happens to an instance's own value once the instance is decided: the queue stays, if there is
  -- none or the promises reported none or the same; else it goes to the end of the queue.
  pub data Returned (inst : Instance) (values values' : Carray Value) : Type 0 where
    settled :
        (inst.value ≡ none) ⊎ ((inst.promised_value ≡ none) ⊎ (inst.value ≡ inst.promised_value))
        → values' ≡ values
        → Returned inst values values'
    returned :
        (v : Value)
        → inst.value ≡ some v
        → inst.promised_value ≢ none
        → inst.promised_value ≢ some v
        → Cells.IsValid values'
        → contents values' ≡ contents values ++ (some v ∷ [])
        → Returned inst values values'

  return_value-Returned :
      (inst : Instance) (values : Carray Value)
      → Cells.IsValid values
      → Returned inst values (return_value kh inst values)
  unfolding return_value
  return_value-Returned inst values ok = go inst.promised_value refl inst.value refl
    where
      back : Option Value → Option Value → Carray Value
      back p o = elim p [
        | none ↦ values
        | some promised ↦ elim o [
          | none ↦ values
          | some v ↦ if same_value v promised then values else carray_push_back values v
        ]
      ]

      go :
          (p : Option Value)
          → inst.promised_value ≡ p
          → (o : Option Value) → inst.value ≡ o
          → Returned inst values (back p o)
      go none e o f = settled (inr (inl e)) refl
      go (some w) e none f = settled (inl f) refl
      go (some w) e (some v) f = elim (Bool-cases (same_value v w)) [
        | inl same ↦
            rw same (settled (inr (inr (f ∙ ap some (same_value-eq v w same) ∙ sym e))) refl)
        | inr other ↦ rw other (
            returned v f (λ z. cc (sym e ∙ z))
              (λ z. cc (
                other,
                subst (λ x. same_value v x ≡ true) (some-injective v w (sym z ∙ e))
                    (same_value_refl v),
              ))
              (push_back-contents values v ok).0 (push_back-contents values v ok).1)
      ]

  -- Only the two values of an instance count.
  same_own :
      (i j : Instance) {values values' : Carray Value}
      → i.value ≡ j.value
      → i.promised_value ≡ j.promised_value
      → Returned i values values'
      → Returned j values values'
  same_own i j e f (settled h k) =
      settled
        (elim h [
          | inl a ↦ inl (sym e ∙ a)
          | inr (inl b) ↦ inr (inl (sym f ∙ b))
          | inr (inr c) ↦ inr (inr (sym e ∙ c ∙ f))
        ])
        k
  same_own i j e f (returned v a b c d g) =
      returned v (sym e ∙ a) (λ z. b (f ∙ z)) (λ z. c (f ∙ z)) d g

  counted_before :
      (base : Quorum) (id : ℕ) (new : Bool) (q : Quorum)
      → Count.IsValid base
      → id < base.acceptors
      → new ≡ false
      → Added base id new q
      → Count.Has base id
  counted_before base id new q v lt old a =
      let (f, g) = get_elem?_of_lt base.acceptor_ids id (omega (arith, v.sized)) in
      elim (v.flags id f g) [
        | inl z ↦ absurd (cc (old, a.fresh.1 (g ∙ ap some z)))
        | inr o ↦ g ∙ ap some o
      ]

  -- What an accepted message does to the instance that it is for.
  pub data Outcome (p : Proposer kh) (ack : Accepted) (inst : Instance) (r : ℕ × Proposer kh)
      : Type 0 where
    ignored :
        (ack.ballot ≢ inst.ballot) ⊎ Count.Has inst.quorum ack.aid
        → r ≡ (0, p)
        → Outcome p ack inst r
    counted :
        (q : Quorum)
        → r.0 ≡ 1
        → ack.ballot ≡ inst.ballot
        → Added inst.quorum ack.aid true q
        → Quorum.reached q ≡ false
        → kh.get r.1.accept_instances
          ≡ update (kh.get p.accept_instances) ack.iid (some (record inst { quorum = q }))
        → r.1.values ≡ p.values
        → Outcome p ack inst r
    decided :
        (q : Quorum)
        → r.0 ≡ 2
        → ack.ballot ≡ inst.ballot
        → Added inst.quorum ack.aid true q
        → Quorum.reached q ≡ true
        → kh.get r.1.accept_instances ≡ update (kh.get p.accept_instances) ack.iid none
        → Returned inst p.values r.1.values
        → Outcome p ack inst r

  -- An accepted message from an existing acceptor, for an instance with a valid quorum that waits for such messages, and a valid queue: the proposer takes
  -- it without a fault. It ignores it for another ballot or a sender that was counted; else it counts
  -- the sender; and with the quorum the instance leaves the table, and its own value goes back to
  -- the end of the queue if the promises reported another one.
  pub receive_accepted-Outcome :
      (p : Proposer kh) (ack : Accepted) (inst : Instance)
      → kh.get p.accept_instances ack.iid ≡ some inst
      → Count.IsValid inst.quorum
      → ack.aid < inst.quorum.acceptors
      → Cells.IsValid p.values
      → (r : ℕ × Proposer kh) × (proposer_receive_accepted kh p ack ≡ some r) × Outcome p ack inst r
  unfolding proposer_receive_accepted
  receive_accepted-Outcome p ack inst at v lt ok =
      let (new, q, e, a) = add-Added inst.quorum ack.aid v lt in
      let inst' : Instance = record inst { quorum = q } in
      elim (Bool-cases (ack.ballot == inst.ballot)) [
        | inr other ↦ (
          (0, p),
          rw (at, other, proposer_receive_accepted) refl,
          ignored (inl (λ z. ground arith)) refl,
        )
        | inl same ↦ elim (Bool-cases new) [
          | inr old ↦ (
            (0, p),
            rw (at, same, e, old, proposer_receive_accepted) refl,
            ignored (inr (counted_before inst.quorum ack.aid new q v lt old a)) refl,
          )
          | inl fresh ↦
              let a' : Added inst.quorum ack.aid true q =
                subst (λ b. Added inst.quorum ack.aid b q) fresh a in
              elim (Bool-cases (Quorum.reached q)) [
                | inr waits ↦ (
                  (1, record p { accept_instances = kh.write p.accept_instances ack.iid inst' }),
                  rw (at, same, e, fresh, waits, proposer_receive_accepted) refl,
                  counted q refl (ground arith) a' waits
                      (kh.get-write p.accept_instances ack.iid inst' inst at) refl,
                )
                | inl done ↦ (
                  (
                    2,
                    record p {
                      values = return_value kh inst' p.values;
                      accept_instances = kh.del p.accept_instances ack.iid;
                    },
                  ),
                  rw (at, same, e, fresh, done, proposer_receive_accepted) refl,
                  decided q refl (ground arith) a' done (kh.get-del p.accept_instances ack.iid)
                      (same_own inst' inst refl refl (return_value-Returned inst' p.values ok)),
                )
              ]
        ]
      ]
