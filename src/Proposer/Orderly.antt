-- ===== src/Proposer/Orderly.antt =====
-- The invariant of the proposer's two tables, and that the functions that add an instance keep it.
use libpaxos.Prelude.{
  ℕ, ◌+◌, ◌<◌, ◌≤◌, ◌≡◌, refl, inl, inr, true, Option, none, some, arith, ◌==◌, ltb, u32,
  if◌then◌else◌, ap, sym, subst, ◌∙◌, update, Bool-cases, Option-cases,
}
use mathlib.Core.Option.{some-injective}
use libpaxos.Types.{Prepare, Accept, prepare_of}
use libpaxos.Quorum
use libpaxos.Quorum.{Quorum}
use libpaxos.Quorum.Count
use libpaxos.Quorum.Count.{init-IsValid}
use libpaxos.Khash.{Khash}
use libpaxos.Proposer.Instances.{Instance, instance_new, instance_to_accept, proposer_next_ballot}
use libpaxos.Proposer.{Proposer, put_absent, start_instance, proposer_prepare}

module _ {V : Type 0} where
  -- What holds of every entry of a map.
  abbrev pub Each : (ℕ → V → Type 0) → (ℕ → Option V) → Type 0
  Each P m = (k : ℕ) (v : V) → m k ≡ some v → P k v

  pub Each-some :
      (P : ℕ → V → Type 0) (m m' : ℕ → Option V) (k : ℕ) (v : V)
      → Each P m
      → P k v
      → m' ≡ update m k (some v)
      → Each P m'
  Each-some P m m' k v h pv e j w f = elim (Bool-cases (k == j)) [
    | inl same ↦
        subst (λ i. P i w) {x = k} (ground arith)
          (subst (P k)
            (some-injective v w
              (ap (λ b. if b then some v else m j) (sym same) ∙ ap (λ g. g j) (sym e) ∙ f))
            pv)
    | inr other ↦
        h j w (ap (λ b. if b then some v else m j) (sym other) ∙ ap (λ g. g j) (sym e) ∙ f)
  ]

  pub Each-none :
      (P : ℕ → V → Type 0) (m m' : ℕ → Option V) (k : ℕ)
      → Each P m
      → m' ≡ update m k none
      → Each P m'
  Each-none P m m' k h e j w f = elim (Bool-cases (k == j)) [
    | inl same ↦
        absurd (cc (ap (λ b. if b then none else m j) (sym same) ∙ ap (λ g. g j) (sym e) ∙ f))
    | inr other ↦ h j w (ap (λ b. if b then none else m j) (sym other) ∙ ap (λ g. g j) (sym e) ∙ f)
  ]

  -- No key is in both maps.
  abbrev pub Apart : (ℕ → Option V) → (ℕ → Option V) → Type 0
  Apart m m' = Each (λ k v. m' k ≡ none) m

  pub Apart-sym : (m m' : ℕ → Option V) → Apart m m' → Apart m' m
  Apart-sym m m' h k v e = elim (Option-cases (m k)) [
    | inl f ↦ f
    | inr (w, f) ↦ absurd (cc (h k w f))
  ]

-- An instance under the key `k`, among `n` acceptors, where `limit` is the highest instance so far.
pub record Sound (n limit k : ℕ) (inst : Instance) : Type 0 where
  pub key : inst.iid ≡ k
  pub known : k ≤ limit
  pub valid : Count.IsValid inst.quorum
  pub acceptors : inst.quorum.acceptors ≡ n

-- The instance has a value to propose.
abbrev pub Proposable : ℕ → Instance → Type 0
Proposable k inst = (acc : Accept) × (instance_to_accept inst ≡ some acc)

pub Sound-quorum :
    (n limit k : ℕ) (inst inst' : Instance)
    → Sound n limit k inst
    → inst'.iid ≡ inst.iid
    → Count.IsValid inst'.quorum
    → inst'.quorum.acceptors ≡ inst.quorum.acceptors
    → Sound n limit k inst'
Sound-quorum n limit k inst inst' s e v a = record {
  key = e ∙ s.key;
  known = s.known;
  valid = v;
  acceptors = a ∙ s.acceptors;
}

pub Sound-later :
    (n limit limit' k : ℕ) (inst : Instance)
    → limit ≤ limit'
    → Sound n limit k inst
    → Sound n limit' k inst
Sound-later n limit limit' k inst le s = record {
  key = s.key;
  known = omega (arith, s.known);
  valid = s.valid;
  acceptors = s.acceptors;
}

module _ (kh : Khash Instance) where
  -- Each instance lies under its own id, none above the last one that was opened, in one of the tables only; its quorum
  -- is valid and has all acceptors; and an instance in phase 2 has a value to propose.
  pub record Orderly (p : Proposer kh) : Type 0 where
    pub prepares : Each (Sound p.acceptors p.next_prepare_iid) (kh.get p.prepare_instances)
    pub accepts : Each (Sound p.acceptors p.next_prepare_iid) (kh.get p.accept_instances)
    pub apart : Apart (kh.get p.prepare_instances) (kh.get p.accept_instances)
    pub proposable : Each Proposable (kh.get p.accept_instances)

  -- There is memory for every entry.
  abbrev pub Room : Type 0
  Room = (t : kh.Table) (k : ℕ) → kh.room t k ≡ true

  pub put_absent-returns :
      (t : kh.Table) (k : ℕ) (inst : Instance)
      → Room
      → kh.get t k ≡ none
      → put_absent kh t k inst ≡ some (kh.put t k inst)
  unfolding put_absent
  put_absent-returns t k inst room e = rw (e, put_absent) (rw (room t k) refl)

  -- What `proposer_prepare` leaves.
  pub record Opened (p p' : Proposer kh) : Type 0 where
    pub orderly : Orderly p'
    pub next : p'.next_prepare_iid ≡ p.next_prepare_iid + 1
    pub size : kh.size p'.prepare_instances ≡ kh.size p.prepare_instances + 1
    pub accept_instances : p'.accept_instances ≡ p.accept_instances

  -- The instance that `start_instance` makes.
  abbrev opened : Proposer kh → ℕ → ℕ → Instance
  opened p iid now = record {
    iid = iid;
    ballot = proposer_next_ballot p.id 0;
    value_ballot = 0;
    value = none;
    promised_value = none;
    created_at = now;
    quorum = Quorum.init p.acceptors;
  }

  above_next :
      (p : Proposer kh) (t : kh.Table)
      → Each (Sound p.acceptors p.next_prepare_iid) (kh.get t)
      → kh.get t (p.next_prepare_iid + 1) ≡ none
  above_next p t h = elim (Option-cases (kh.get t (p.next_prepare_iid + 1))) [
    | inl e ↦ e
    | inr (inst, e) ↦ absurd (omega (arith, (h (p.next_prepare_iid + 1) inst e).known))
  ]

  start_instance-returns :
      (p : Proposer kh) (iid now : ℕ)
      → Room
      → 0 < iid
      → kh.get p.prepare_instances iid ≡ none
      → let inst = opened p iid now in
        start_instance kh p iid now
        ≡ some (
          prepare_of inst.iid inst.ballot,
          record p { prepare_instances = kh.put p.prepare_instances iid inst },
        )
  unfolding start_instance instance_new
  start_instance-returns p iid now room pos absent =
      let positive : ltb 0 iid ≡ true = ground arith in
      rw (positive, start_instance, instance_new)
        (rw (put_absent-returns p.prepare_instances iid (opened p iid now) room absent) refl)

  pub proposer_prepare-Opened :
      (p : Proposer kh) (now : ℕ)
      → Room
      → Orderly p
      → p.next_prepare_iid + 1 < 4294967296
      → (pr : Prepare) × (p' : Proposer kh) × (proposer_prepare kh p now ≡ some (pr, p'))
        × Opened p p'
  unfolding proposer_prepare
  proposer_prepare-Opened p now room o lt =
      let iid : ℕ = p.next_prepare_iid + 1 in
      let inst : Instance = opened p iid now in
      let t : kh.Table = kh.put p.prepare_instances iid inst in
      let absent = above_next p p.prepare_instances o.prepares in
      let p' : Proposer kh = record p { next_prepare_iid = iid; prepare_instances = t } in
      let wraps : u32 (p.next_prepare_iid + 1) ≡ iid = omega arith in
      (
        prepare_of iid (proposer_next_ballot p.id 0),
        p',
        ap (λ i. start_instance kh (record p { next_prepare_iid = i }) i now) wraps
            ∙ start_instance-returns (record p { next_prepare_iid = iid }) iid now room
                (omega arith) absent,
        record {
          orderly = record {
            prepares =
                Each-some (Sound p.acceptors iid) (kh.get p.prepare_instances) (kh.get t) iid inst
                  (λ k v e.
                    Sound-later p.acceptors p.next_prepare_iid iid k v (omega arith)
                      (o.prepares k v e))
                  (record {
                    key = refl;
                    known = omega arith;
                    valid = init-IsValid p.acceptors;
                    acceptors = unfold Quorum.init in refl;
                  })
                  (kh.get-put p.prepare_instances iid inst);
            accepts = λ k v e.
                Sound-later p.acceptors p.next_prepare_iid iid k v (omega arith) (o.accepts k v e);
            apart =
                Each-some (λ k v. kh.get p.accept_instances k ≡ none) (kh.get p.prepare_instances)
                  (kh.get t) iid inst o.apart (above_next p p.accept_instances o.accepts)
                  (kh.get-put p.prepare_instances iid inst);
            proposable = o.proposable;
          };
          next = refl;
          size = kh.size-put p.prepare_instances iid inst absent;
          accept_instances = refl;
        },
      )
