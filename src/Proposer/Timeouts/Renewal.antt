-- ===== src/Proposer/Timeouts/Renewal.antt =====
-- One loop over a timeout iterator: which messages it sends, and what it leaves.
use mathlib.Core.List.{append_assoc}
use libpaxos.Prelude.{
  ℕ, zero, suc, ◌+◌, ◌<◌, ◌≡◌, refl, Bool, true, false, not, ◌&&◌, Option, none, some, List, [],
  ◌∷◌, ◌++◌, arith, length, length-append, drop, ◌==◌, if◌then◌else◌, Bool-cases, inl, inr, ap, sym,
  subst, ◌∙◌, ◌>>=◌, some->>=,
}
use mathlib.Core.Option.{some-injective}
use libpaxos.Quorum
use libpaxos.Khash.{Khash, Fresh, Distinct, replaced}
use libpaxos.Proposer.Instances.{Instance, instance_has_timedout}
use libpaxos.Proposer.Timeouts.{next_timedout, found_timedout, step, more, after_round, drain}

-- What the loops are for, instance by instance: an instance is due if it has no quorum and has timed out.
unfoldable pub due : ℕ → ℕ → Instance → Bool
due timeout now inst = not (Quorum.reached inst.quorum) && instance_has_timedout timeout inst now

abbrev pub renewed : ℕ → ℕ → List (ℕ × Instance) → List (ℕ × Instance)
renewed timeout now [] = []
renewed timeout now ((k, inst) ∷ es) =
    (k, if due timeout now inst then record inst { created_at = now } else inst)
    ∷ renewed timeout now es

module _ {A : Type 0} (out : Instance → Option A) where
  -- The messages for the instances that are due.
  abbrev pub outs : ℕ → ℕ → List (ℕ × Instance) → Option (List A)
  outs timeout now [] = some []
  outs timeout now ((k, inst) ∷ es) =
      let rest = outs timeout now es in
      if due timeout now inst then (out inst >>= λ m. rest >>= λ ms. some (m ∷ ms)) else rest

module _ (kh : Khash Instance) {A : Type 0} (out : Instance → Option A) (timeout now : ℕ) where
  next-due :
      (k i : ℕ) (inst : Instance) (es : List (ℕ × Instance))
      → due timeout now inst ≡ true
      → next_timedout timeout now ((i, inst) ∷ es) k ≡ (some (i, inst), k)
  unfolding next_timedout due
  next-due k i inst es e = ground arith

  next-not_due :
      (k i : ℕ) (inst : Instance) (es : List (ℕ × Instance))
      → due timeout now inst ≡ false
      → next_timedout timeout now ((i, inst) ∷ es) k ≡ next_timedout timeout now es (k + 1)
  unfolding next_timedout due
  next-not_due k i inst es e = ground arith

  drop-before : (before es : List (ℕ × Instance)) → drop (length before) (before ++ es) ≡ es
  drop-before [] es = refl
  drop-before (x ∷ before) es = drop-before before es

  replaced-Fresh :
      (es : List (ℕ × Instance)) (k : ℕ) (v : Instance) → Fresh k es → replaced k v es ≡ es
  replaced-Fresh [] k v h = refl
  replaced-Fresh ((i, w) ∷ es) k v h =
      ap (λ b. (i, if b then v else w) ∷ replaced k v es) {y = false} (ground (arith, h.0))
      ∙ ap (◌∷◌ (i, w)) (replaced-Fresh es k v h.1)

  replaced-at :
      (before es : List (ℕ × Instance)) (k : ℕ) (v w : Instance)
      → Distinct (before ++ ((k, w) ∷ es))
      → replaced k v (before ++ ((k, w) ∷ es)) ≡ before ++ ((k, v) ∷ es)
  replaced-at [] es k v w d =
      ap (λ b. (k, if b then v else w) ∷ replaced k v es) {y = true} (ground arith)
      ∙ ap (◌∷◌ (k, v)) (replaced-Fresh es k v d.0)
  replaced-at ((i, x) ∷ before) es k v w d =
      ap (λ b. (i, if b then v else x) ∷ replaced k v (before ++ ((k, w) ∷ es))) {y = false}
        (ground (arith, other before d.0))
      ∙ ap (◌∷◌ (i, x)) (replaced-at before es k v w d.1)
    where
      other : (xs : List (ℕ × Instance)) → Fresh i (xs ++ ((k, w) ∷ es)) → (i == k) ≡ false
      other [] f = ground (arith, f.0)
      other (y ∷ xs) f = other xs f.1

  renewed-not_due :
      (inst : Instance) → 0 < timeout → due timeout now (record inst { created_at = now }) ≡ false
  unfolding due instance_has_timedout
  renewed-not_due inst pos = ground arith

  drain-congr :
      (fuel k k' : ℕ) (t : kh.Table)
      → next_timedout timeout now (drop k (kh.entries t)) k
        ≡ next_timedout timeout now (drop k' (kh.entries t)) k'
      → drain (step kh out timeout now) fuel (k, t) ≡ drain (step kh out timeout now) fuel (k', t)
  unfolding drain step
  drain-congr zero k k' t e = refl
  drain-congr (suc fuel) k k' t e =
      ap
        (λ r. found_timedout kh out now t r >>= λ (a, s').
          after_round a s' (drain (step kh out timeout now) fuel s'))
        e

  skips :
      (es before : List (ℕ × Instance)) (i : ℕ) (inst : Instance) (t : kh.Table)
      → kh.entries t ≡ before ++ ((i, inst) ∷ es)
      → due timeout now inst ≡ false
      → next_timedout timeout now (drop (length before) (kh.entries t)) (length before)
        ≡ next_timedout timeout now
            (drop (length (before ++ ((i, inst) ∷ []))) (kh.entries t))
            (length (before ++ ((i, inst) ∷ [])))
  skips es before i inst t e d =
      ap (λ xs. next_timedout timeout now xs (length before))
        (ap (drop (length before)) e ∙ drop-before before ((i, inst) ∷ es))
      ∙ next-not_due (length before) i inst es d
      ∙ ap (next_timedout timeout now es) (sym (length-append before ((i, inst) ∷ [])))
      ∙ ap (λ xs. next_timedout timeout now xs (length (before ++ ((i, inst) ∷ []))))
          (sym (drop-before (before ++ ((i, inst) ∷ [])) es)
            ∙ ap (drop (length (before ++ ((i, inst) ∷ []))))
                (append_assoc before ((i, inst) ∷ []) es ∙ sym e))

  -- What follows a round.
  abbrev continued : ℕ → Option A × (ℕ × kh.Table) → Option (List A × (ℕ × kh.Table))
  continued fuel (a, s) = after_round a s (drain (step kh out timeout now) fuel s)

  walk_end :
      (t : kh.Table) (before : List (ℕ × Instance))
      → drop (length before) (kh.entries t) ≡ []
      → next_timedout timeout now (drop (length before) (kh.entries t)) (length before)
        ≡ (none, length before)
  unfolding next_timedout
  walk_end t before e = ap (λ xs. next_timedout timeout now xs (length before)) e

  -- The loop from a bucket on, when what is before it is done.
  pub drain-entries :
      (es before : List (ℕ × Instance)) (fuel : ℕ) (t : kh.Table) (ms : List A)
      → 0 < timeout
      → kh.entries t ≡ before ++ es
      → length es < fuel
      → outs out timeout now es ≡ some ms
      → (k : ℕ) × (t' : kh.Table) × (drain (step kh out timeout now) fuel (length before, t)
          ≡ some (ms, (k, t')))
        × (kh.entries t' ≡ before ++ renewed timeout now es)
  unfolding drain step
  drain-entries es before zero t ms pos e lt o = elim lt [ ]
  drain-entries [] before (suc fuel) t ms pos e lt o =
      let none_left : drop (length before) (kh.entries t) ≡ [] =
        ap (drop (length before)) e ∙ drop-before before [] in
      (
        length before,
        t,
        ap (λ r. found_timedout kh out now t r >>= continued fuel) (walk_end t before none_left)
            ∙ (ap (λ (x : List A). some (x, (length before, t))) (some-injective [] ms o)),
        e,
      )
  drain-entries ((i, inst) ∷ es) before (suc fuel) t ms pos e lt o =
      elim (Bool-cases (due timeout now inst)) [
        | inr d ↦
            let (k, t', f, g) =
              drain-entries es (before ++ ((i, inst) ∷ [])) (suc fuel) t ms pos
                (e ∙ sym (append_assoc before ((i, inst) ∷ []) es)) (omega arith) (rw d at o) in
            (
              k,
              t',
              drain-congr (suc fuel) (length before) (length (before ++ ((i, inst) ∷ []))) t
                    (skips es before i inst t e d)
                  ∙ f,
              g
                  ∙ append_assoc before ((i, inst) ∷ []) (renewed timeout now es)
                  ∙ ap
                      (λ b.
                        before
                        ++ ((i, if b then record inst { created_at = now } else inst)
                            ∷ renewed timeout now es))
                      (sym d),
            )
        | inl d ↦
            let (m, om, o') = some->>= (out inst) _ ms (rw d at o) in
            let (ms', oms, o'') = some->>= (outs out timeout now es) _ ms o' in
            let inst' : Instance = record inst { created_at = now } in
            let t1 : kh.Table = kh.write t i inst' in
            let e1 : kh.entries t1 ≡ before ++ ((i, inst') ∷ es) =
              kh.entries-write t i inst'
              ∙ ap (replaced i inst') e
              ∙ replaced-at before es i inst' inst (subst Distinct e (kh.entries-Distinct t)) in
            let (k, t', f, g) =
              drain-entries es (before ++ ((i, inst') ∷ [])) fuel t1 ms' pos
                (e1 ∙ sym (append_assoc before ((i, inst') ∷ []) es)) (omega arith) oms in
            let found : next_timedout timeout now (drop (length before) (kh.entries t))
                  (length before)
                ≡ (some (i, inst), length before) =
              ap (λ xs. next_timedout timeout now xs (length before))
                (ap (drop (length before)) e ∙ drop-before before ((i, inst) ∷ es))
              ∙ next-due (length before) i inst es d in
            let later =
              drain-congr fuel (length before) (length (before ++ ((i, inst') ∷ []))) t1
                (skips es before i inst' t1 e1 (renewed-not_due inst pos))
              ∙ f in
            (
              k,
              t',
              ap (λ r. found_timedout kh out now t r >>= continued fuel) found
                  ∙ ap (λ o. o >>= (λ a. some (some a, (length before, t1))) >>= continued fuel) om
                  ∙ ap (more m) later
                  ∙ ap (λ (x : List A). some (x, (k, t'))) (some-injective _ ms o''),
              g
                  ∙ append_assoc before ((i, inst') ∷ []) (renewed timeout now es)
                  ∙ ap (λ b. before ++ ((i, if b then inst' else inst) ∷ renewed timeout now es))
                      (sym d),
            )
      ]
