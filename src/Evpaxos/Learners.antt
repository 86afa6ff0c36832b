-- ===== src/Evpaxos/Learners.antt =====
-- The handlers of evpaxos/evlearner.c, and that the loop over closed instances ends.
use libpaxos.Prelude.{
  ℕ, zero, suc, ◌+◌, ◌-◌, ◌<◌, ◌≤◌, ◌≡◌, refl, true, false, Option, none, some, List, [], ◌∷◌,
  arith, ltb, u32, if◌then◌else◌, ◌>>=◌, Option-cases, Ensures, Ensures-some, Bool-cases, ap, sym,
  subst, ◌∙◌, ◌⊎◌, inl, inr,
}
use libpaxos.Types.{Accepted, Repeat, Message, trim}
use libpaxos.Khash.{Khash}
use libpaxos.Learner.Instances.{Instance}
use libpaxos.Learner.Gaps.{Gap}
use libpaxos.Learner.{
  Learner, receive_started, learner_receive_accepted, learner_deliver_next, learner_has_holes,
}
use libpaxos.Learner.Delivery.{
  LearnerValid, Received, receive_started-Received, deliver_next-Delivered,
}
use libpaxos.Learner.Runs.{InOrder, started, receive_accepted-returns}

module _ (kh : Khash Instance) (kg : Khash Gap) where
  -- What `evlearner_check_holes` asks all acceptors for, if there are holes; `chunks` is 10.
  unfoldable pub evlearner_check_holes : Learner kh kg → Option Repeat
  unfolding learner_has_holes
  evlearner_check_holes l = do
    (from, to) ← learner_has_holes kh kg l
    some (record {
      from = from;
      to = if ltb 10 (u32 (to + 4294967296 - from)) then u32 (from + 10) else to;
    })

  -- The loop, of at most `fuel` rounds: what it hands to `delfun`, and the learner; `none` where fuel runs out.
  unfoldable pub evlearner_deliver_next_closed :
      ℕ → Learner kh kg → Option (List Accepted × Learner kh kg)
  evlearner_deliver_next_closed zero l = none
  evlearner_deliver_next_closed (suc fuel) l =
      let (out, l') = learner_deliver_next kh kg l in
      let rest = evlearner_deliver_next_closed fuel l' in
      elim out [ none ↦ some ([], l') | some acc ↦ rest >>= λ (accs, l''). some (acc ∷ accs, l'') ]

  -- One round for every instance in the table, and one for the test that ends the loop.
  unfoldable pub evlearner_handle_accepted :
      Learner kh kg → Accepted → Option (List Accepted × Learner kh kg)
  evlearner_handle_accepted l msg = do
    l' ← learner_receive_accepted kh kg l msg
    evlearner_deliver_next_closed (kh.size l'.instances + 1) l'

  -- What `evlearner_send_trim` sends to all acceptors.
  unfoldable pub evlearner_send_trim : ℕ → Message
  evlearner_send_trim iid = trim (record { iid = iid })

module _ (kh : Khash Instance) (kg : Khash Gap) (P : Accepted → Type 0) where
  -- What the loop hands out, and the learner behind it.
  pub record Drained (l : Learner kh kg) (r : List Accepted × Learner kh kg) : Type 0 where
    pub in_order : InOrder kh kg P l.acceptors l.current_iid r.0
    pub valid : LearnerValid kh kg P r.1
    pub acceptors : r.1.acceptors ≡ l.acceptors
    pub late_start : r.1.late_start ≡ l.late_start

  deliver_next_closed-Drained :
      (fuel : ℕ) (l : Learner kh kg)
      → LearnerValid kh kg P l
      → kh.size l.instances < fuel
      → (r : List Accepted × Learner kh kg) × (evlearner_deliver_next_closed kh kg fuel l ≡ some r)
        × Drained l r
  unfolding evlearner_deliver_next_closed
  deliver_next_closed-Drained zero l v lt = elim lt [ ]
  deliver_next_closed-Drained (suc fuel) l v lt =
      let d = deliver_next-Delivered kh kg P l v in
      elim (Option-cases (learner_deliver_next kh kg l).0) [
        | inl e ↦ (
          ([], (learner_deliver_next kh kg l).1),
          rw (e, evlearner_deliver_next_closed) refl,
          record {
            in_order = tt;
            valid = d.valid;
            acceptors = d.acceptors;
            late_start = d.late_start;
          },
        )
        | inr (out, e) ↦
            let (bk, key, next, _) = d.something out e in
            let (r, f, g) =
              deliver_next_closed-Drained fuel (learner_deliver_next kh kg l).1 d.valid
                (omega (arith, d.smaller out e)) in
            (
              (out ∷ r.0, r.1),
              rw (e, f, evlearner_deliver_next_closed) refl,
              record {
                in_order = (
                  (key, bk),
                  subst (λ n. InOrder kh kg P n (u32 (l.current_iid + 1)) r.0) d.acceptors
                      (subst (λ i. InOrder kh kg P (learner_deliver_next kh kg l).1.acceptors i r.0)
                        next g.in_order),
                );
                valid = g.valid;
                acceptors = g.acceptors ∙ d.acceptors;
                late_start = g.late_start ∙ d.late_start;
              },
            )
      ]

  -- For a valid learner that has started, and memory for table entries, `evlearner_handle_accepted` returns: its loop
  -- ends within one round for each instance in the table and one more. It hands out the instances
  -- from the current one on in order, each backed by a majority, and leaves a valid learner.
  pub handle_accepted-Drained :
      (l : Learner kh kg) (msg : Accepted)
      → ((t : kh.Table) (k : ℕ) → kh.room t k ≡ true)
      → P msg
      → LearnerValid kh kg P l
      → l.late_start ≡ false
      → (r : List Accepted × Learner kh kg) × (evlearner_handle_accepted kh kg l msg ≡ some r)
        × Drained l r
  unfolding evlearner_handle_accepted learner_receive_accepted
  handle_accepted-Drained l msg room p v late =
      let (l', e) = receive_accepted-returns kh kg room l msg in
      let g : Received kh kg P l l' =
        Ensures-some (Received kh kg P l) (learner_receive_accepted kh kg l msg) l'
          (subst (λ x. Ensures (Received kh kg P l) (receive_started kh kg x msg))
            (sym (started kh kg P l msg.iid late)) (receive_started-Received kh kg P l msg p v))
          e in
      let (r, f, d) =
        deliver_next_closed-Drained (kh.size l'.instances + 1) l' g.valid (omega arith) in
      (
        r,
        ap (λ o. o >>= λ x. evlearner_deliver_next_closed kh kg (kh.size x.instances + 1) x) e ∙ f,
        record {
          in_order =
              subst (λ n. InOrder kh kg P n l.current_iid r.0) g.acceptors
                (subst (λ i. InOrder kh kg P l'.acceptors i r.0) g.current_iid d.in_order);
          valid = d.valid;
          acceptors = d.acceptors ∙ g.acceptors;
          late_start = d.late_start ∙ g.late_start;
        },
      )

module _ (kh : Khash Instance) (kg : Khash Gap) where
  -- Where the highest closed instance fits into 32 bits, `evlearner_check_holes` asks for nothing if the current
  -- instance has reached it, and else for the instances from the current one on, at least 2 and at
  -- most 11 of them, and none above the highest closed one.
  pub check_holes-range :
      (l : Learner kh kg)
      → l.highest_iid_closed < 4294967296
      → (((evlearner_check_holes kh kg l ≡ none) × (l.highest_iid_closed ≤ l.current_iid))
          ⊎ ((r : Repeat) × (evlearner_check_holes kh kg l ≡ some r)
              × (r.from ≡ l.current_iid)
              × (r.from < r.to)
              × (r.to ≤ l.highest_iid_closed)
              × (r.to ≤ r.from + 10)))
  unfolding evlearner_check_holes learner_has_holes
  check_holes-range l h = elim (Bool-cases (ltb l.current_iid l.highest_iid_closed)) [
    | inr e ↦ inl (rw (e, evlearner_check_holes, learner_has_holes) refl, ground arith)
    | inl e ↦ inr (
      record {
        from = l.current_iid;
        to =
            if ltb 10 (u32 (l.highest_iid_closed + 4294967296 - l.current_iid))
            then u32 (l.current_iid + 10)
            else l.highest_iid_closed;
      },
      rw (e, evlearner_check_holes, learner_has_holes) refl,
      refl,
      ground arith,
      ground arith,
      ground arith,
    )
  ]
