-- ===== src/Proposer/Accepting.antt =====
-- `proposer_accept` in an orderly proposer: no assertion fails, and the proposer stays orderly.
use libpaxos.Prelude.{
  ℕ, ◌+◌, ◌≡◌, refl, inl, inr, false, not, ◌&&◌, Option, none, some, arith, ap, sym, subst, ◌∙◌,
  Bool-cases, Option-cases,
}
use libpaxos.Types.{Accept}
use libpaxos.Quorum
use libpaxos.Quorum.{Quorum}
use libpaxos.Quorum.Count.{clear-IsValid}
use libpaxos.Carray.{Carray}
use libpaxos.Types.{Value}
use libpaxos.Khash.{Khash}
use libpaxos.Proposer.Instances.{Instance, instance_to_accept, is_set}
use libpaxos.Proposer.{
  Proposer, smallest, proposer_move_instance, take_value, propose_instance, proposer_accept,
}
use libpaxos.Proposer.Least.{smallest-Least}
use libpaxos.Proposer.Proposals.{taken}
use libpaxos.Proposer.Orderly.{
  Each-some, Each-none, Apart, Apart-sym, Sound, Sound-quorum, Proposable, Orderly, Room,
  put_absent-returns,
}

abbrev pub count_of : {A : Type 0} → Option A → ℕ
count_of none = 0
count_of (some a) = 1

abbrev pub cleared : Instance → Instance
cleared inst = record inst { quorum = Quorum.clear inst.quorum }

pub cleared-Sound :
    (n limit k : ℕ) (inst : Instance) → Sound n limit k inst → Sound n limit k (cleared inst)
cleared-Sound n limit k inst s =
    Sound-quorum n limit k inst (cleared inst) s refl (clear-IsValid inst.quorum s.valid.majority)
      (unfold Quorum.clear in refl)

to_accept-Proposable :
    (k : ℕ) (inst : Instance)
    → (not (is_set inst.value) && not (is_set inst.promised_value)) ≡ false
    → Proposable k inst
unfolding instance_to_accept
to_accept-Proposable k inst h = go inst.value inst.promised_value h
  where
    go :
        (v p : Option Value)
        → (not (is_set v) && not (is_set p)) ≡ false
        → Proposable k (record inst { value = v; promised_value = p })
    go v (some w) f = (_, refl)
    go (some w) none f = (_, refl)
    go none none f = absurd (cc f)

module _ (kh : Khash Instance) where
  open kh use {Table}

  -- The proposer behind a step that opens no instance.
  pub record Continues (p p' : Proposer kh) : Type 0 where
    pub orderly : Orderly kh p'
    pub next : p'.next_prepare_iid ≡ p.next_prepare_iid

  pub move-returns :
      (f t : Table) (inst x : Instance)
      → Room kh
      → kh.get f inst.iid ≡ some x
      → kh.get t inst.iid ≡ none
      → proposer_move_instance kh f t inst
        ≡ some (kh.del f inst.iid, kh.put t inst.iid (cleared inst), cleared inst)
  unfolding proposer_move_instance
  move-returns f t inst x room e g =
      rw (e, proposer_move_instance)
        (rw (put_absent-returns kh t inst.iid (cleared inst) room g) refl)

  pub move-Apart :
      (f t : Table) (k : ℕ) (inst : Instance)
      → Apart (kh.get f) (kh.get t)
      → Apart (kh.get (kh.del f k)) (kh.get (kh.put t k inst))
  move-Apart f t k inst h = Apart-sym (kh.get (kh.put t k inst)) (kh.get (kh.del f k)) (
      Each-some (λ j v. kh.get (kh.del f k) j ≡ none) (kh.get t) (kh.get (kh.put t k inst)) k inst
        (Apart-sym (kh.get (kh.del f k)) (kh.get t) (
          Each-none (λ j v. kh.get t j ≡ none) (kh.get f) (kh.get (kh.del f k)) k h
            (kh.get-del f k)))
        (ap (λ m. m k) (kh.get-del f k) ∙ ground arith) (kh.get-put t k inst))

  -- One round of `try_accept`: an accept takes an instance out of the table.
  pub record Accepting (p : Proposer kh) (r : Option Accept × Proposer kh) : Type 0 where
    pub continues : Continues p r.1
    pub fewer : kh.size r.1.prepare_instances + count_of r.0 ≡ kh.size p.prepare_instances

  pub values-Orderly :
      (p : Proposer kh) (values : Carray Value)
      → Orderly kh p
      → Orderly kh (record p { values = values })
  values-Orderly p values o = record {
    prepares = o.prepares;
    accepts = o.accepts;
    apart = o.apart;
    proposable = o.proposable;
  }

  -- The proposer with an instance in phase 2.
  abbrev promoted : Proposer kh → Carray Value → Instance → Proposer kh
  promoted p values inst = record p {
    values = values;
    prepare_instances = kh.del p.prepare_instances inst.iid;
    accept_instances = kh.put p.accept_instances inst.iid (cleared inst);
  }

  promoted-Orderly :
      (p : Proposer kh) (values : Carray Value) (inst : Instance)
      → Orderly kh p
      → Sound p.acceptors p.next_prepare_iid inst.iid (cleared inst)
      → Proposable inst.iid (cleared inst)
      → Orderly kh (promoted p values inst)
  promoted-Orderly p values inst o s out =
      let put = kh.get-put p.accept_instances inst.iid (cleared inst) in
      record {
        prepares =
            Each-none _ (kh.get p.prepare_instances) _ inst.iid o.prepares
              (kh.get-del p.prepare_instances inst.iid);
        accepts = Each-some _ (kh.get p.accept_instances) _ inst.iid (cleared inst) o.accepts s put;
        apart = move-Apart p.prepare_instances p.accept_instances inst.iid (cleared inst) o.apart;
        proposable =
            Each-some _ (kh.get p.accept_instances) _ inst.iid (cleared inst) o.proposable out put;
      }

  take_value-Sound :
      (n limit k : ℕ) (inst : Instance) (values : Carray Value)
      → Sound n limit k inst
      → let inst' = (take_value kh inst values).0 in
        (inst'.iid ≡ k) × Sound n limit inst'.iid (cleared inst')
  take_value-Sound n limit k inst values s =
      let inst' : Instance = (take_value kh inst values).0 in
      let e = taken kh inst values in
      let s' : Sound n limit k inst' =
        subst (Sound n limit k) (sym e) (Sound-quorum n limit k inst _ s refl s.valid refl) in
      (
        s'.key,
        cleared-Sound n limit inst'.iid inst' (subst (λ j. Sound n limit j inst') (sym s'.key) s'),
      )

  propose_instance-Accepting :
      (p : Proposer kh) (inst : Instance) (k : ℕ)
      → Room kh
      → Orderly kh p
      → kh.get p.prepare_instances k ≡ some inst
      → (r : Option Accept × Proposer kh) × (propose_instance kh p inst ≡ some r) × Accepting p r
  unfolding propose_instance
  propose_instance-Accepting p inst k room o e =
      let inst' : Instance = (take_value kh inst p.values).0 in
      let values : Carray Value = (take_value kh inst p.values).1 in
      let (key, s) =
        take_value-Sound p.acceptors p.next_prepare_iid k inst p.values (o.prepares k inst e) in
      elim (Bool-cases (not (is_set inst'.value) && not (is_set inst'.promised_value))) [
        | inl none_left ↦ (
          (none, record p { values = values }),
          rw (none_left, propose_instance) refl,
          record {
            continues = record { orderly = values-Orderly p values o; next = refl };
            fewer = omega arith;
          },
        )
        | inr some_left ↦
            let (acc, out) = to_accept-Proposable inst'.iid (cleared inst') some_left in
            let from = ap (kh.get p.prepare_instances) key ∙ e in
            (
              (some acc, promoted p values inst'),
              rw (some_left, propose_instance)
                  (rw
                    (move-returns p.prepare_instances p.accept_instances inst' inst room from
                      (o.apart inst'.iid inst from))
                    (rw out refl)),
              record {
                continues = record {
                  orderly = promoted-Orderly p values inst' o s (acc, out);
                  next = refl;
                };
                fewer = (kh.size-del p.prepare_instances inst'.iid inst from);
              },
            )
      ]

  pub proposer_accept-Accepting :
      (p : Proposer kh)
      → Room kh
      → Orderly kh p
      → (r : Option Accept × Proposer kh) × (proposer_accept kh p ≡ some r) × Accepting p r
  unfolding proposer_accept
  proposer_accept-Accepting p room o =
      let stays : Accepting p (none, p) = record {
        continues = record { orderly = o; next = refl };
        fewer = omega arith;
      } in
      elim (Option-cases (smallest kh (kh.entries p.prepare_instances) none)) [
        | inl e ↦ ((none, p), rw (e, proposer_accept) refl, stays)
        | inr (inst, e) ↦ elim (Bool-cases (Quorum.reached inst.quorum)) [
          | inr not_yet ↦ ((none, p), rw (e, proposer_accept) (rw not_yet refl), stays)
          | inl reached ↦
              elim (smallest-Least kh (kh.entries p.prepare_instances) none inst e).from [
                | inl z ↦ absurd (cc z)
                | inr (k, i) ↦
                    let (r, f, a) =
                      propose_instance-Accepting p inst k room o
                        (kh.mem-entries p.prepare_instances k inst i) in
                    (r, rw (e, proposer_accept) (rw reached f), a)
              ]
        ]
      ]
