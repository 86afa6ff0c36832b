-- ===== src/Learner/Votes.antt =====
-- The slots of an instance: what `instance_has_quorum` closes it with. `P` is whatever is known of every
-- accepted message that the learner receives, such as that an acceptor has sent it.
use libpaxos.Prelude.{
  ℕ, zero, suc, ◌+◌, ◌≤◌, ◌<◌, ◌≡◌, refl, ◌⊎◌, inl, inr, Bool, true, false, Option, none, some,
  List, [], ◌∷◌, ◌∙◌, arith, length, leb, leb→le, ◌==◌, get_elem?, set, replicate, length-set,
  length-replicate, Bool-cases, ap, subst, sym,
}
use mathlib.Core.Option.{some-injective}
use libpaxos.Types.{Accepted}
use libpaxos.Quorum.{paxos_quorum}
use libpaxos.Learner.Instances.{
  Instance, instance_new, count_agreeing, ack_at, count_quorum, instance_has_quorum,
  instance_add_accept, newer_or_equal, first_message, instance_update,
}
use libpaxos.Learner.Agreeing.{
  agreeing, count_agreeing-length, count_agreeing-Found, count_agreeing-none,
}

module _ (P : Accepted → Type 0) where
  -- Every message lies in its acceptor's slot, and is for the instance `key`.
  abbrev pub Slots : ℕ → ℕ → List (Option Accepted) → Type 0
  Slots key i [] = Unit {0}
  Slots key i (none ∷ acks) = Slots key (i + 1) acks
  Slots key i (some a ∷ acks) = ((a.aid ≡ i) × (a.iid ≡ key) × P a) × Slots key (i + 1) acks

  -- Messages of different acceptors, numbered from `lo` and below `n`, for one instance and ballot.
  abbrev pub Backers : ℕ → ℕ → ℕ → ℕ → List Accepted → Type 0
  Backers n iid ballot lo [] = Unit {0}
  Backers n iid ballot lo (b ∷ bs) =
      ((lo ≤ b.aid) × (b.aid < n) × (b.iid ≡ iid) × (b.ballot ≡ ballot) × P b)
      × Backers n iid ballot (b.aid + 1) bs

  -- More than half of the `n` acceptors accepted under the ballot of `v`, and `v` is one such message.
  abbrev pub Backed : ℕ → Accepted → Type 0
  Backed n v =
      (bs : List Accepted) × (n < length bs + length bs) × Backers n v.iid v.ballot 0 bs × P v

  pub record IsValid (n key : ℕ) (inst : Instance) : Type 0 where
    pub sized : length inst.acks ≡ n
    pub slots : Slots key 0 inst.acks
    pub final : (v : Accepted) → inst.final_value ≡ some v → Backed n v × (v.iid ≡ key)

  Backers-lower :
      (n iid ballot lo lo' : ℕ) (bs : List Accepted)
      → lo' ≤ lo
      → Backers n iid ballot lo bs
      → Backers n iid ballot lo' bs
  Backers-lower n iid ballot lo lo' [] h b = tt
  Backers-lower n iid ballot lo lo' (x ∷ xs) h b = ((omega arith, b.0.1, b.0.2, b.0.3, b.0.4), b.1)

  agreeing-Backers :
      (n key ballot i : ℕ) (acks : List (Option Accepted))
      → i + length acks ≡ n
      → Slots key i acks
      → Backers n key ballot i (agreeing ballot acks)
  agreeing-Backers n key ballot i [] e s = tt
  agreeing-Backers n key ballot i (none ∷ acks) e s =
      Backers-lower n key ballot (i + 1) i _ (omega arith)
        (agreeing-Backers n key ballot (i + 1) acks (omega arith) s)
  agreeing-Backers n key ballot i (some a ∷ acks) e s =
      let rest : Backers n key ballot (i + 1) (agreeing ballot acks) =
        agreeing-Backers n key ballot (i + 1) acks (omega arith) s.1 in
      elim (Bool-cases (a.ballot == ballot)) [
        | inl same ↦ rw same (
          (omega arith, omega arith, s.0.1, ground arith, s.0.2),
          subst (λ j. Backers n key ballot (j + 1) (agreeing ballot acks)) (sym s.0.0) rest,
        )
        | inr other ↦ rw other (Backers-lower n key ballot (i + 1) i _ (omega arith) rest)
      ]

  Slots-at :
      (key i k : ℕ) (a : Accepted) (acks : List (Option Accepted))
      → Slots key i acks
      → get_elem? acks k ≡ some (some a)
      → (a.aid ≡ i + k) × (a.iid ≡ key) × P a
  Slots-at key i k a [] s e = cc
  Slots-at key i zero a (none ∷ acks) s e = cc
  Slots-at key i (suc k) a (none ∷ acks) s e =
      let (x, y, z) = Slots-at key (i + 1) k a acks s e in (omega arith, y, z)
  Slots-at key i zero a (some b ∷ acks) s e =
      subst (λ (x : Accepted). (x.aid ≡ i + 0) × (x.iid ≡ key) × P x) {x = b} (cc)
        (omega arith, s.0.1, s.0.2)
  Slots-at key i (suc k) a (some b ∷ acks) s e =
      let (x, y, z) = Slots-at key (i + 1) k a acks s.1 e in (omega arith, y, z)

  Slots-set :
      (key i k : ℕ) (a : Accepted) (acks : List (Option Accepted))
      → Slots key i acks
      → a.aid ≡ i + k
      → a.iid ≡ key
      → P a
      → Slots key i (set acks k (some a))
  Slots-set key i k a [] s e f p = tt
  Slots-set key i zero a (none ∷ acks) s e f p = ((omega arith, f, p), s)
  Slots-set key i zero a (some b ∷ acks) s e f p = ((omega arith, f, p), s.1)
  Slots-set key i (suc k) a (none ∷ acks) s e f p =
      Slots-set key (i + 1) k a acks s (omega arith) f p
  Slots-set key i (suc k) a (some b ∷ acks) s e f p =
      (s.0, Slots-set key (i + 1) k a acks s.1 (omega arith) f p)

  found :
      (acks : List (Option Accepted)) (k : ℕ) {o : Option Accepted}
      → get_elem? acks k ≡ some o
      → ack_at acks (some k) ≡ o
  found acks k g = rw (g, ack_at) refl

  -- What closes an instance: the last message that agrees with the last ballot, if a majority does.
  pub count_quorum-final :
      (n key ballot : ℕ) (acks : List (Option Accepted))
      → length acks ≡ n
      → Slots key 0 acks
      → paxos_quorum n ≤ (count_agreeing ballot acks 0 0 none).0
      → (v : Accepted) × (ack_at acks (count_agreeing ballot acks 0 0 none).1 ≡ some v)
        × Backed n v
        × (v.iid ≡ key)
  unfolding paxos_quorum
  count_quorum-final n key ballot acks sized slots enough =
      elim (count_agreeing-Found ballot acks 0 0 none) [
        | inl e ↦ ground (
          arith,
          (count_agreeing-none ballot acks 0 0 none e).1,
          count_agreeing-length ballot acks 0 0 none,
        )
        | inr (k, a, e, g, b) ↦
            let (x, y, z) = Slots-at key 0 k a acks slots g in
            (
              a,
              ap (ack_at acks) (e ∙ ap some (omega arith)) ∙ found acks k g,
              (
                agreeing ballot acks,
                omega (arith, count_agreeing-length ballot acks 0 0 none),
                rw (y, b) (agreeing-Backers n key ballot 0 acks (omega arith) slots),
                z,
              ),
              y,
            )
      ]

  -- The outcome of `instance_has_quorum`: the slots stay; the instance is reported as closed if it
  -- was, or if a majority of the slots agrees with the last ballot; and then it has a value.
  pub record Checked (n key : ℕ) (inst : Instance) (r : Bool × Instance) : Type 0 where
    pub valid : IsValid n key r.1
    pub iid : r.1.iid ≡ inst.iid
    pub closed : r.0 ≡ true → (v : Accepted) × (r.1.final_value ≡ some v)
    pub still_open :
        r.0 ≡ false
        → (r.1 ≡ inst)
          × (inst.final_value ≡ none)
          × (length (agreeing inst.last_update_ballot inst.acks) < paxos_quorum n)

  count_quorum-Checked :
      (n key : ℕ) (inst : Instance) (o : Option Accepted)
      → inst.final_value ≡ o
      → IsValid n key inst
      → Checked n key inst (count_quorum inst n o)
  unfolding count_quorum
  count_quorum-Checked n key inst (some x) e v = record {
    valid = v;
    iid = refl;
    closed = λ _. (x, e);
    still_open = λ p. cc;
  }
  count_quorum-Checked n key inst none e v =
      elim (Bool-cases
        (leb (paxos_quorum n) (count_agreeing inst.last_update_ballot inst.acks 0 0 none).0)) [
          | inl c ↦
              let (x, at, bk, key') =
                count_quorum-final n key inst.last_update_ballot inst.acks v.sized v.slots
                  (leb→le _ _ c) in
              rw c (record {
                valid = record {
                  sized = v.sized;
                  slots = v.slots;
                  final = λ w f.
                      subst (λ y. Backed n y × (y.iid ≡ key)) {x = x}
                        (some-injective x w (sym at ∙ f)) (bk, key');
                };
                iid = refl;
                closed = λ _. (x, at);
                still_open = λ p. cc;
              })
          | inr c ↦ rw c (record {
            valid = v;
            iid = refl;
            closed = λ p. cc;
            still_open = λ _. (
              refl,
              e,
              ground (arith, count_agreeing-length inst.last_update_ballot inst.acks 0 0 none),
            );
          })
        ]

  pub instance_has_quorum-Checked :
      (n key : ℕ) (inst : Instance)
      → IsValid n key inst
      → Checked n key inst (instance_has_quorum inst n)
  unfolding instance_has_quorum
  instance_has_quorum-Checked n key inst v = count_quorum-Checked n key inst inst.final_value refl v

  pub first_message-IsValid :
      (n key : ℕ) (inst : Instance) (a : Accepted)
      → IsValid n key inst
      → IsValid n key (first_message inst a)
  unfolding first_message
  first_message-IsValid n key inst a v = elim (Bool-cases (inst.iid == 0)) [
    | inl e ↦ rw (e, first_message) (record { sized = v.sized; slots = v.slots; final = v.final })
    | inr e ↦ rw (e, first_message) v
  ]

  -- The instance that `instance_new` makes is named after its first message.
  pub first_message-iid :
      (key : ℕ) (inst : Instance) (a : Accepted)
      → a.iid ≡ key
      → (inst.iid ≡ 0) ⊎ (inst.iid ≡ key)
      → (first_message inst a).iid ≡ key
  unfolding first_message
  first_message-iid key inst a e h = ground arith

  pub add_accept-IsValid :
      (n key : ℕ) (inst : Instance) (a : Accepted)
      → a.iid ≡ key
      → P a
      → inst.final_value ≡ none
      → IsValid n key inst
      → IsValid n key (instance_add_accept inst a)
  unfolding instance_add_accept
  add_accept-IsValid n key inst a e p open_ v = record {
    sized = length-set inst.acks a.aid (some a) ∙ v.sized;
    slots = Slots-set key 0 a.aid a inst.acks v.slots (omega arith) e p;
    final = λ w f. cc;
  }

  -- `instance_update` keeps an instance valid, and names it after the message.
  pub instance_update-IsValid :
      (n key : ℕ) (inst : Instance) (a : Accepted)
      → a.iid ≡ key
      → P a
      → (inst.iid ≡ 0) ⊎ (inst.iid ≡ key)
      → IsValid n key inst
      → IsValid n key (instance_update inst a n) × ((instance_update inst a n).iid ≡ key)
  unfolding instance_update
  instance_update-IsValid n key inst a e p named v =
      let c =
        instance_has_quorum-Checked n key (first_message inst a)
          (first_message-IsValid n key inst a v) in
      let name = c.iid ∙ first_message-iid key inst a e named in
      elim (Bool-cases (instance_has_quorum (first_message inst a) n).0) [
        | inl q ↦ rw q (c.valid, name)
        | inr q ↦ rw q (elim (Bool-cases (leb n a.aid)) [
          | inl out ↦ rw out (c.valid, name)
          | inr ok ↦
              rw ok
                (elim (Bool-cases (
                  newer_or_equal
                    (ack_at (instance_has_quorum (first_message inst a) n).1.acks (some a.aid))
                    a.ballot)) [
                      | inl old ↦ rw old (c.valid, name)
                      | inr new ↦ rw new (
                        add_accept-IsValid n key _ a e p
                            (let (same, f, _) = c.still_open q in
                              ap (λ (x : Instance). x.final_value) same ∙ f)
                            c.valid,
                        unfold instance_add_accept in name,
                      )
                    ])
        ])
      ]

  pub instance_new-IsValid : (n key : ℕ) → IsValid n key (instance_new n)
  unfolding instance_new
  instance_new-IsValid n key = record {
    sized = length-replicate n none;
    slots = empty_slots n 0;
    final = λ v f. cc;
  }
    where
      empty_slots : (m i : ℕ) → Slots key i (replicate m none)
      empty_slots zero i = tt
      empty_slots (suc m) i = empty_slots m (i + 1)
