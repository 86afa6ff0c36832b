-- ===== src/Proposer/Receiving.antt =====
-- What `proposer_receive_promise` and `proposer_receive_accepted` do to an orderly proposer.
use libpaxos.Prelude.{
  ℕ, ◌<◌, ◌≡◌, refl, inl, inr, Bool, true, false, ◌&&◌, Option, none, some, arith, ltb, ◌==◌,
  length, if◌then◌else◌, Bool-cases, Option-cases,
}
use libpaxos.Types.{Prepare, Promise, Accepted}
use libpaxos.Quorum
use libpaxos.Quorum.{Quorum}
use libpaxos.Quorum.Count.{add-Added, clear-IsValid}
use libpaxos.Carray.{Carray}
use libpaxos.Types.{Value}
use libpaxos.Khash.{Khash}
use libpaxos.Proposer.Instances.{
  Instance, instance_receive_promise, save_promised, proposer_preempt, instance_to_accept,
}
use libpaxos.Proposer.{Proposer, return_value, proposer_receive_promise, proposer_receive_accepted}
use libpaxos.Proposer.Orderly.{
  Each-some, Each-none, Apart-sym, Sound, Sound-quorum, Proposable, Orderly,
}
use libpaxos.Proposer.Accepting.{Continues}

pub preempt-Sound :
    (id n limit k : ℕ) (inst : Instance) (now : ℕ)
    → Sound n limit k inst
    → Sound n limit k (proposer_preempt id inst now).1
unfolding proposer_preempt
preempt-Sound id n limit k inst now s =
    Sound-quorum n limit k inst _ s refl (clear-IsValid inst.quorum s.valid.majority)
      (unfold Quorum.clear in refl)

save_promised-Sound :
    (n limit k : ℕ) (inst : Instance) (ack : Promise)
    → Sound n limit k inst
    → Sound n limit k (save_promised inst ack)
unfolding save_promised
save_promised-Sound n limit k inst ack s =
    go (ltb 0 (length ack.value) && ltb inst.value_ballot ack.value_ballot)
  where
    go :
        (b : Bool)
        → Sound n limit k (
            if b
            then record inst { value_ballot = ack.value_ballot; promised_value = some ack.value }
            else inst)
    go true = Sound-quorum n limit k inst _ s refl s.valid refl
    go false = s

receive_promise-Sound :
    (id n limit k : ℕ) (inst : Instance) (ack : Promise) (now : ℕ)
    → Sound n limit k inst
    → ack.aid < n
    → (r : Option Prepare × Instance) × (instance_receive_promise id inst ack now ≡ some r)
      × Sound n limit k r.1
unfolding instance_receive_promise
receive_promise-Sound id n limit k inst ack now s lt =
    elim (Bool-cases (ltb ack.ballot inst.ballot)) [
      | inl old ↦ ((none, inst), rw (old, instance_receive_promise) refl, s)
      | inr not_old ↦ elim (Bool-cases (ltb inst.ballot ack.ballot)) [
        | inl above ↦
            let moved = proposer_preempt id inst now in
            (
              (some moved.0, moved.1),
              rw (not_old, instance_receive_promise) (rw above refl),
              preempt-Sound id n limit k inst now s,
            )
        | inr same ↦
            let (new, q, e, a) =
              add-Added inst.quorum ack.aid s.valid (omega (arith, s.acceptors)) in
            let counted : Sound n limit k (record inst { quorum = q }) =
              Sound-quorum n limit k inst _ s refl a.valid a.size in
            (
              (none, if new then save_promised (record inst { quorum = q }) ack else inst),
              rw (not_old, instance_receive_promise) (rw (same, e) refl),
              elim (Bool-cases new) [
                | inl y ↦ rw y (save_promised-Sound n limit k _ ack counted)
                | inr y ↦ rw y s
              ],
            )
      ]
    ]

module _ (kh : Khash Instance) where
  open kh use {Table}

  pub write_prepare-Orderly :
      (p : Proposer kh) (k : ℕ) (inst inst' : Instance)
      → Orderly kh p
      → kh.get p.prepare_instances k ≡ some inst
      → Sound p.acceptors p.next_prepare_iid k inst'
      → Orderly kh (record p { prepare_instances = kh.write p.prepare_instances k inst' })
  write_prepare-Orderly p k inst inst' o e s =
      let w = kh.get-write p.prepare_instances k inst' inst e in
      record {
        prepares = Each-some _ (kh.get p.prepare_instances) _ k inst' o.prepares s w;
        accepts = o.accepts;
        apart = Each-some _ (kh.get p.prepare_instances) _ k inst' o.apart (o.apart k inst e) w;
        proposable = o.proposable;
      }

  write_accept-Orderly :
      (p : Proposer kh) (k : ℕ) (inst inst' : Instance)
      → Orderly kh p
      → kh.get p.accept_instances k ≡ some inst
      → Sound p.acceptors p.next_prepare_iid k inst'
      → Proposable k inst'
      → Orderly kh (record p { accept_instances = kh.write p.accept_instances k inst' })
  write_accept-Orderly p k inst inst' o e s out =
      let w = kh.get-write p.accept_instances k inst' inst e in
      let apart' = Apart-sym (kh.get p.prepare_instances) (kh.get p.accept_instances) o.apart in
      record {
        prepares = o.prepares;
        accepts = Each-some _ (kh.get p.accept_instances) _ k inst' o.accepts s w;
        apart =
            Apart-sym _ (kh.get p.prepare_instances)
              (Each-some _ (kh.get p.accept_instances) _ k inst' apart' (apart' k inst e) w);
        proposable = Each-some _ (kh.get p.accept_instances) _ k inst' o.proposable out w;
      }

  pub receive_promise-Continues :
      (p : Proposer kh) (ack : Promise) (now : ℕ)
      → Orderly kh p
      → ack.aid < p.acceptors
      → (r : Option Prepare × Proposer kh) × (proposer_receive_promise kh p ack now ≡ some r)
        × Continues kh p r.1
  unfolding proposer_receive_promise
  receive_promise-Continues p ack now o lt =
      elim (Option-cases (kh.get p.prepare_instances ack.iid)) [
        | inl e ↦
            ((none, p), rw (e, proposer_receive_promise) refl, record { orderly = o; next = refl })
        | inr (inst, e) ↦
            let (r, f, s) =
              receive_promise-Sound p.id p.acceptors p.next_prepare_iid ack.iid inst ack now
                (o.prepares ack.iid inst e) lt in
            (
              (r.0, record p { prepare_instances = kh.write p.prepare_instances ack.iid r.1 }),
              rw (e, proposer_receive_promise) (rw f refl),
              record { orderly = write_prepare-Orderly p ack.iid inst r.1 o e s; next = refl },
            )
      ]

  del_accept-Orderly :
      (p : Proposer kh) (values : Carray Value) (k : ℕ)
      → Orderly kh p
      → Orderly kh (record p { values = values; accept_instances = kh.del p.accept_instances k })
  del_accept-Orderly p values k o =
      let d = kh.get-del p.accept_instances k in
      record {
        prepares = o.prepares;
        accepts = Each-none _ (kh.get p.accept_instances) _ k o.accepts d;
        apart = Apart-sym _ (kh.get p.prepare_instances) (
            Each-none _ (kh.get p.accept_instances) _ k
              (Apart-sym (kh.get p.prepare_instances) (kh.get p.accept_instances) o.apart) d);
        proposable = Each-none _ (kh.get p.accept_instances) _ k o.proposable d;
      }

  pub receive_accepted-Continues :
      (p : Proposer kh) (ack : Accepted)
      → Orderly kh p
      → ack.aid < p.acceptors
      → (r : ℕ × Proposer kh) × (proposer_receive_accepted kh p ack ≡ some r) × Continues kh p r.1
  unfolding proposer_receive_accepted
  receive_accepted-Continues p ack o lt = elim (Option-cases (kh.get p.accept_instances ack.iid)) [
    | inl e ↦ ((0, p), rw (e, proposer_receive_accepted) refl, record { orderly = o; next = refl })
    | inr (inst, e) ↦ elim (Bool-cases (ack.ballot == inst.ballot)) [
      | inr other ↦ (
        (0, p),
        rw (e, proposer_receive_accepted) (rw other refl),
        record { orderly = o; next = refl },
      )
      | inl same ↦
          let s = o.accepts ack.iid inst e in
          let (new, q, f, a) = add-Added inst.quorum ack.aid s.valid (omega (arith, s.acceptors)) in
          let inst' : Instance = record inst { quorum = q } in
          let s' : Sound p.acceptors p.next_prepare_iid ack.iid inst' =
            Sound-quorum _ _ _ inst _ s refl a.valid a.size in
          elim (Bool-cases new) [
            | inr old ↦ (
              (0, p),
              rw (e, proposer_receive_accepted) (rw (same, f) (rw old refl)),
              record { orderly = o; next = refl },
            )
            | inl fresh ↦ elim (Bool-cases (Quorum.reached q)) [
              | inl full ↦ (
                (
                  2,
                  record p {
                    values = return_value kh inst' p.values;
                    accept_instances = kh.del p.accept_instances ack.iid;
                  },
                ),
                rw (e, proposer_receive_accepted) (rw (same, f) (rw (fresh, full) refl)),
                record { orderly = del_accept-Orderly p _ ack.iid o; next = refl },
              )
              | inr more ↦ (
                (1, record p { accept_instances = kh.write p.accept_instances ack.iid inst' }),
                rw (e, proposer_receive_accepted) (rw (same, f) (rw (fresh, more) refl)),
                record {
                  orderly =
                      write_accept-Orderly p ack.iid inst inst' o e s'
                        (unfold instance_to_accept in o.proposable ack.iid inst e);
                  next = refl;
                },
              )
            ]
          ]
    ]
  ]
