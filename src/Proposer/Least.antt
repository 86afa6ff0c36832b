-- ===== src/Proposer/Least.antt =====
-- The walk of `proposer_accept` finds the instance with the least id.
use mathlib.Core.List.{Memᴰ}
use mathlib.Core.Option.{some-injective}
use libpaxos.Prelude.{
  ℕ, ◌≤◌, ◌≡◌, refl, ◌⊎◌, inl, inr, Option, none, some, List, [], ◌∷◌, arith, ltb, Bool-cases, ap,
  sym, subst, ◌∙◌,
}
use libpaxos.Khash.{Khash}
use libpaxos.Proposer.Instances.{Instance}
use libpaxos.Proposer.{smallest}

-- What the walk finds, from `best` on.
pub record Least (es : List (ℕ × Instance)) (best : Option Instance) (m : Instance) : Type 0 where
  pub from : (best ≡ some m) ⊎ ((k : ℕ) × Memᴰ (k, m) es)
  pub below_best : (b : Instance) → best ≡ some b → m.iid ≤ b.iid
  pub below : (k : ℕ) (x : Instance) → Memᴰ (k, x) es → m.iid ≤ x.iid

Least-cons :
    (k : ℕ) (inst : Instance) (es : List (ℕ × Instance)) (best : Option Instance) (m : Instance)
    → ((j : ℕ) (x : Instance) → Memᴰ (j, x) es → m.iid ≤ x.iid)
    → m.iid ≤ inst.iid
    → ((b : Instance) → best ≡ some b → m.iid ≤ b.iid)
    → (best ≡ some m) ⊎ ((inst ≡ m) ⊎ ((j : ℕ) × Memᴰ (j, m) es))
    → Least ((k, inst) ∷ es) best m
Least-cons k inst es best m rest here best_above from = record {
  from = elim from [
    | inl f ↦ inl f
    | inr (inl f) ↦ inr (k, Memᴰ.head (ap (λ i. (k, i)) (sym f)))
    | inr (inr (j, i)) ↦ inr (j, Memᴰ.tail i)
  ];
  below_best = best_above;
  below = λ j x i. elim i [
    | Memᴰ.head f ↦ subst (λ (y : Instance). m.iid ≤ y.iid) (sym (ap (λ p. p.1) f)) here
    | Memᴰ.tail i' ↦ rest j x i'
  ];
}

module _ (kh : Khash Instance) where
  pub smallest-Least :
      (es : List (ℕ × Instance)) (best : Option Instance) (m : Instance)
      → smallest kh es best ≡ some m
      → Least es best m
  unfolding smallest
  smallest-Least [] best m e = record {
    from = inl e;
    below_best = λ b f. ground (arith, some-injective m b (sym e ∙ f));
    below = λ k x i. elim i [ ];
  }
  smallest-Least ((k, inst) ∷ es) none m e =
      let r = smallest-Least es (some inst) m e in
      Least-cons k inst es none m r.below (r.below_best inst refl) (λ b f. cc)
        (elim r.from [ inl f ↦ inr (inl (some-injective inst m f)) | inr g ↦ inr (inr g) ])
  smallest-Least ((k, inst) ∷ es) (some b) m e = elim (Bool-cases (ltb inst.iid b.iid)) [
    | inl lt ↦
        let r = smallest-Least es (some inst) m (rw lt at e) in
        Least-cons k inst es (some b) m r.below (r.below_best inst refl)
          (λ c f. ground (arith, some-injective b c f, r.below_best inst refl))
          (elim r.from [ inl f ↦ inr (inl (some-injective inst m f)) | inr g ↦ inr (inr g) ])
    | inr ge ↦
        let r = smallest-Least es (some b) m (rw ge at e) in
        Least-cons k inst es (some b) m r.below (ground (arith, r.below_best b refl)) r.below_best
          (elim r.from [ inl f ↦ inl f | inr g ↦ inr (inr g) ])
  ]
