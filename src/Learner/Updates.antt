-- ===== src/Learner/Updates.antt =====
-- What `instance_update` and `instance_has_quorum` of paxos/learner.c make of an instance when an accepted
-- message comes in, case by case.
use libpaxos.Prelude.{
  ℕ, ◌+◌, ◌≤◌, ◌<◌, ◌≡◌, refl, ◌⊎◌, inl, inr, Bool, true, false, Option, none, some, List, ◌∙◌,
  arith, length, leb, get_elem?, set, Bool-cases, Option-cases, ap, sym,
}
use libpaxos.Types.{Accepted}
use libpaxos.Quorum.{paxos_quorum}
use libpaxos.Learner.Instances.{
  Instance, count_agreeing, ack_at, count_quorum, instance_has_quorum, instance_add_accept,
  newer_or_equal, first_message, instance_update,
}
use libpaxos.Learner.Agreeing.{agreeing, count_agreeing-length}
use libpaxos.Learner.Votes.{IsValid, count_quorum-final, add_accept-IsValid}

-- The messages in the slots that are under the last ballot.
abbrev pub agree : Instance → ℕ
agree x = length (agreeing x.last_update_ballot x.acks)

abbrev pub HasMajority : ℕ → Instance → Type 0
HasMajority n x = n < agree x + agree x

-- No value is decided, and the slots do not decide one.
abbrev pub IsOpen : ℕ → Instance → Type 0
IsOpen n x = (x.final_value ≡ none) × (agree x + agree x ≤ n)

-- The message in its acceptor's slot, with its ballot as the last one.
abbrev pub added : Instance → Accepted → Instance
added x ack = record x { acks = set x.acks ack.aid (some ack); last_update_ballot = ack.ballot }

-- The acceptor's slot is empty or holds a message of a lower ballot.
abbrev pub HasOlder : Instance → Accepted → Type 0
HasOlder x ack =
    (prev : Accepted) → get_elem? x.acks ack.aid ≡ some (some prev) → prev.ballot < ack.ballot

-- What the instance `x` becomes: nothing changes once it has a value; a majority that is there already
-- gives it one; a message of no acceptor, or one that is not newer than its acceptor's last, is ignored; any
-- other message takes its slot, and gives the instance a value if that makes a majority.
pub data Updated (n : ℕ) (ack : Accepted) (x y : Instance) : Type 0 where
  stays_closed : (v : Accepted) → x.final_value ≡ some v → y ≡ x → Updated n ack x y
  was_decided :
      x.final_value ≡ none
      → HasMajority n x
      → (v : Accepted) → y ≡ record x { final_value = some v }
      → Updated n ack x y
  no_acceptor : IsOpen n x → n ≤ ack.aid → y ≡ x → Updated n ack x y
  outdated :
      IsOpen n x
      → ack.aid < n
      → (prev : Accepted) → get_elem? x.acks ack.aid ≡ some (some prev)
      → ack.ballot ≤ prev.ballot
      → y ≡ x
      → Updated n ack x y
  adds :
      IsOpen n x
      → ack.aid < n
      → HasOlder x ack
      → IsOpen n (added x ack)
      → y ≡ added x ack
      → Updated n ack x y
  closes :
      IsOpen n x
      → ack.aid < n
      → HasOlder x ack
      → HasMajority n (added x ack)
      → (v : Accepted) → y ≡ record (added x ack) { final_value = some v }
      → Updated n ack x y

pub Updated-iid : (n : ℕ) (ack : Accepted) (x y : Instance) → Updated n ack x y → y.iid ≡ x.iid
Updated-iid n ack x y (stays_closed v f e) = ap (λ z. z.iid) e
Updated-iid n ack x y (was_decided f m v e) = ap (λ z. z.iid) e
Updated-iid n ack x y (no_acceptor o le e) = ap (λ z. z.iid) e
Updated-iid n ack x y (outdated o lt prev at le e) = ap (λ z. z.iid) e
Updated-iid n ack x y (adds o lt older o' e) = ap (λ z. z.iid) e
Updated-iid n ack x y (closes o lt older m v e) = ap (λ z. z.iid) e

-- The flag of `instance_has_quorum` tells whether the instance has a value.
abbrev pub Flagged : Bool → Instance → Type 0
Flagged b y =
    ((b ≡ true) × (v : Accepted) × (y.final_value ≡ some v))
    ⊎ ((b ≡ false) × (y.final_value ≡ none))

-- What `instance_has_quorum` finds.
data Closing (n : ℕ) (x : Instance) (r : Bool × Instance) : Type 0 where
  kept : (v : Accepted) → x.final_value ≡ some v → r ≡ (true, x) → Closing n x r
  found :
      x.final_value ≡ none
      → HasMajority n x
      → (v : Accepted) → r ≡ (true, record x { final_value = some v })
      → Closing n x r
  missing : IsOpen n x → r ≡ (false, x) → Closing n x r

module _ (P : Accepted → Type 0) where
  count_quorum-Closing :
      (n key : ℕ) (x : Instance) (o : Option Accepted)
      → x.final_value ≡ o
      → IsValid P n key x
      → Closing n x (count_quorum x n o)
  unfolding count_quorum paxos_quorum
  count_quorum-Closing n key x (some v) e h = kept v e refl
  count_quorum-Closing n key x none e h =
      let same = count_agreeing-length x.last_update_ballot x.acks 0 0 none in
      elim (Bool-cases
        (leb (paxos_quorum n) (count_agreeing x.last_update_ballot x.acks 0 0 none).0)) [
          | inr c ↦ missing (e, ground (arith, same)) (rw c refl)
          | inl c ↦
              let (v, at, _, _) =
                count_quorum-final P n key x.last_update_ballot x.acks h.sized h.slots
                  (ground arith) in
              found e (ground (arith, same)) v (rw (c, at) refl)
        ]

  has_quorum-Closing :
      (n key : ℕ) (x : Instance) → IsValid P n key x → Closing n x (instance_has_quorum x n)
  unfolding instance_has_quorum
  has_quorum-Closing n key x h = count_quorum-Closing n key x x.final_value refl h

newer_or_equal-some :
    (acks : List (Option Accepted)) (k ballot : ℕ)
    → newer_or_equal (ack_at acks (some k)) ballot ≡ true
    → (prev : Accepted) × (get_elem? acks k ≡ some (some prev)) × (ballot ≤ prev.ballot)
newer_or_equal-some acks k ballot e = elim (Option-cases (get_elem? acks k)) [
  | inl z ↦
      let h : false ≡ true =
        ap (λ o. newer_or_equal (elim o [ none ↦ none | some slot ↦ slot ]) ballot) (sym z) ∙ e in
      absurd (cc)
  | inr (none, z) ↦
      let h : false ≡ true =
        ap (λ o. newer_or_equal (elim o [ none ↦ none | some slot ↦ slot ]) ballot) (sym z) ∙ e in
      absurd (cc)
  | inr (some prev, z) ↦
      let h : leb ballot prev.ballot ≡ true =
        ap (λ o. newer_or_equal (elim o [ none ↦ none | some slot ↦ slot ]) ballot) (sym z) ∙ e in
      (prev, z, ground arith)
]

newer_or_equal-none :
    (acks : List (Option Accepted)) (k ballot : ℕ) (prev : Accepted)
    → newer_or_equal (ack_at acks (some k)) ballot ≡ false
    → get_elem? acks k ≡ some (some prev)
    → prev.ballot < ballot
newer_or_equal-none acks k ballot prev e f =
    let h : leb ballot prev.ballot ≡ false =
      ap (λ o. newer_or_equal (elim o [ none ↦ none | some slot ↦ slot ]) ballot) (sym f) ∙ e in
    ground arith

module _ (P : Accepted → Type 0) where
  add_accept-Updated :
      (n key : ℕ) (x : Instance) (ack : Accepted)
      → IsOpen n x
      → ack.aid < n
      → HasOlder x ack
      → IsValid P n key (instance_add_accept x ack)
      → let r = instance_has_quorum (instance_add_accept x ack) n in
        Updated n ack x r.1 × Flagged r.0 r.1
  unfolding instance_add_accept
  add_accept-Updated n key x ack open_ lt older h = elim (has_quorum-Closing P n key _ h) [
    | kept v e q ↦ absurd (cc)
    | found e m v q ↦ (
      closes open_ lt older m v (ap (λ r. r.1) q),
      inl (ap (λ r. r.0) q, v, ap (λ r. r.1.final_value) q),
    )
    | missing o q ↦ (
      adds open_ lt older o (ap (λ r. r.1) q),
      inr (ap (λ r. r.0) q, ap (λ r. r.1.final_value) q ∙ o.0),
    )
  ]

  pub instance_update-Updated :
      (n key : ℕ) (inst : Instance) (ack : Accepted)
      → ack.iid ≡ key
      → P ack
      → IsValid P n key (first_message inst ack)
      → let r = instance_has_quorum (instance_update inst ack n) n in
        Updated n ack (first_message inst ack) r.1 × Flagged r.0 r.1
  unfolding instance_update
  instance_update-Updated n key inst ack e p h =
      elim (has_quorum-Closing P n key (first_message inst ack) h) [
        | kept v f q ↦ rw (q, instance_update) (rw q (stays_closed v f refl, inl (refl, v, f)))
        | found f m v q ↦
            rw (q, instance_update)
              (unfold instance_has_quorum in
                unfold count_quorum in (was_decided f m v refl, inl (refl, v, refl)))
        | missing o q ↦
            rw (q, instance_update)
              (elim (Bool-cases (leb n ack.aid)) [
                | inl out ↦ rw (out, q) (no_acceptor o (ground arith) refl, inr (refl, o.0))
                | inr ok ↦
                    rw ok
                      (elim (Bool-cases (
                        newer_or_equal (ack_at (first_message inst ack).acks (some ack.aid))
                          ack.ballot)) [
                            | inl old ↦
                                let (prev, at, le) = newer_or_equal-some _ ack.aid ack.ballot old in
                                rw (old, q)
                                  (outdated o (ground arith) prev at le refl, inr (refl, o.0))
                            | inr new ↦ rw new (
                                add_accept-Updated n key (first_message inst ack) ack o
                                  (ground arith)
                                  (λ prev f. newer_or_equal-none _ ack.aid ack.ballot prev new f)
                                  (add_accept-IsValid P n key _ ack e p o.0 h))
                          ])
              ])
      ]
