-- ===== src/Proposer/Returning.antt =====
-- What `proposer_receive_preempted` and `proposer_set_instance_id` do to an orderly proposer.
use libpaxos.Prelude.{
  ℕ, ◌≡◌, refl, inl, inr, Option, none, some, List, [], ◌∷◌, arith, leb, ltb, if◌then◌else◌, ap,
  sym, subst, ◌∙◌, update-eq, Bool-cases, Option-cases,
}
use libpaxos.Types.{Prepare, Preempted, AcceptorState}
use libpaxos.Carray.{Carray}
use libpaxos.Types.{Value}
use libpaxos.Khash.{Khash}
use libpaxos.Proposer.Instances.{Instance, proposer_preempt}
use libpaxos.Proposer.{
  Proposer, trim_entries, proposer_receive_preempted, proposer_set_instance_id,
  proposer_receive_acceptor_state,
}
use libpaxos.Proposer.Orderly.{Each-some, Each-none, Apart-sym, Sound, Sound-later, Orderly, Room}
use libpaxos.Proposer.Accepting.{cleared, cleared-Sound, Continues, move-returns, move-Apart}
use libpaxos.Proposer.Receiving.{preempt-Sound, write_prepare-Orderly}

module _ (kh : Khash Instance) where
  open kh use {Table}

  -- The instance back in phase 1, with a cleared quorum.
  abbrev demoted : Proposer kh → Instance → Proposer kh
  demoted p inst = record p {
    accept_instances = kh.del p.accept_instances inst.iid;
    prepare_instances = kh.put p.prepare_instances inst.iid (cleared inst);
  }

  demoted-Orderly :
      (p : Proposer kh) (inst : Instance)
      → Orderly kh p
      → Sound p.acceptors p.next_prepare_iid inst.iid inst
      → Orderly kh (demoted p inst)
  demoted-Orderly p inst o s =
      let d = kh.get-del p.accept_instances inst.iid in
      record {
        prepares =
            Each-some _ (kh.get p.prepare_instances) _ inst.iid (cleared inst) o.prepares
              (cleared-Sound _ _ inst.iid inst s)
              (kh.get-put p.prepare_instances inst.iid (cleared inst));
        accepts = Each-none _ (kh.get p.accept_instances) _ inst.iid o.accepts d;
        apart = Apart-sym _ _ (
            move-Apart kh p.accept_instances p.prepare_instances inst.iid (cleared inst)
              (Apart-sym (kh.get p.prepare_instances) (kh.get p.accept_instances) o.apart));
        proposable = Each-none _ (kh.get p.accept_instances) _ inst.iid o.proposable d;
      }

  pub receive_preempted-Continues :
      (p : Proposer kh) (ack : Preempted) (now : ℕ)
      → Room kh
      → Orderly kh p
      → (r : Option Prepare × Proposer kh) × (proposer_receive_preempted kh p ack now ≡ some r)
        × Continues kh p r.1
  unfolding proposer_receive_preempted
  receive_preempted-Continues p ack now room o =
      elim (Option-cases (kh.get p.accept_instances ack.iid)) [
        | inl e ↦ (
          (none, p),
          rw (e, proposer_receive_preempted) refl,
          record { orderly = o; next = refl },
        )
        | inr (inst, e) ↦ elim (Bool-cases (ltb inst.ballot ack.ballot)) [
          | inr old ↦ (
            (none, p),
            rw (e, proposer_receive_preempted) (rw old refl),
            record { orderly = o; next = refl },
          )
          | inl above ↦
              let s = o.accepts ack.iid inst e in
              let own : Sound p.acceptors p.next_prepare_iid inst.iid inst =
                subst (λ k. Sound p.acceptors p.next_prepare_iid k inst) (sym s.key) s in
              let from = ap (kh.get p.accept_instances) s.key ∙ e in
              let absent =
                Apart-sym (kh.get p.prepare_instances) (kh.get p.accept_instances) o.apart inst.iid
                  inst from in
              let moved = proposer_preempt p.id (cleared inst) now in
              let there : kh.get (demoted p inst).prepare_instances ack.iid ≡ some (cleared inst) =
                ap (λ m. m ack.iid) (kh.get-put p.prepare_instances inst.iid (cleared inst))
                ∙ update-eq (kh.get p.prepare_instances) inst.iid ack.iid _ s.key in
              (
                (
                  some moved.0,
                  record (demoted p inst) {
                    prepare_instances = kh.write (demoted p inst).prepare_instances ack.iid moved.1;
                  },
                ),
                rw (e, proposer_receive_preempted)
                    (rw above (
                      rw
                        (move-returns kh p.accept_instances p.prepare_instances inst inst room from
                          absent)
                        refl)),
                record {
                  orderly =
                      write_prepare-Orderly kh (demoted p inst) ack.iid (cleared inst) moved.1
                        (demoted-Orderly p inst o own) there
                        (preempt-Sound p.id _ _ ack.iid (cleared inst) now
                          (cleared-Sound _ _ ack.iid inst s));
                  next = refl;
                },
              )
        ]
      ]

  -- A walk that trims adds nothing.
  pub trim_entries-within :
      (iid : ℕ) (es : List (ℕ × Instance)) (values : Carray Value) (t : Table) (k : ℕ)
      (v : Instance)
      → kh.get (trim_entries kh iid es values t).1 k ≡ some v
      → kh.get t k ≡ some v
  unfolding trim_entries
  trim_entries-within iid [] values t k v e = e
  trim_entries-within iid ((j, inst) ∷ es) values t k v e =
      let f = trim_entries-within iid es _ (if leb inst.iid iid then kh.del t j else t) k v e in
      elim (Bool-cases (leb inst.iid iid)) [
        | inr keep ↦ rw keep at f
        | inl gone ↦
            Each-none (λ i w. kh.get t i ≡ some w) (kh.get t) (kh.get (kh.del t j)) j (λ i w g. g)
              (kh.get-del t j) k v (rw gone at f)
      ]

  pub set_instance_id-Orderly :
      (p : Proposer kh) (iid : ℕ) → Orderly kh p → Orderly kh (proposer_set_instance_id kh p iid)
  unfolding proposer_set_instance_id
  set_instance_id-Orderly p iid o = elim (Bool-cases (ltb p.next_prepare_iid iid)) [
    | inr old ↦ rw (old, proposer_set_instance_id) o
    | inl higher ↦
        let (v1, t1) =
          trim_entries kh iid (kh.entries p.prepare_instances) p.values p.prepare_instances in
        let from1 =
          trim_entries-within iid (kh.entries p.prepare_instances) p.values p.prepare_instances in
        let from2 = trim_entries-within iid (kh.entries p.accept_instances) v1 p.accept_instances in
        rw (higher, proposer_set_instance_id)
          (record {
            prepares = λ k v e.
                Sound-later _ p.next_prepare_iid iid k v (ground arith)
                  (o.prepares k v (from1 k v e));
            accepts = λ k v e.
                Sound-later _ p.next_prepare_iid iid k v (ground arith)
                  (o.accepts k v (from2 k v e));
            apart = λ k v e.
                elim (Option-cases (
                  kh.get
                    (trim_entries kh iid (kh.entries p.accept_instances) v1 p.accept_instances).1
                    k)) [
                      | inl f ↦ f
                      | inr (w, f) ↦ absurd (cc (o.apart k v (from1 k v e), from2 k w f))
                    ];
            proposable = λ k v e. o.proposable k v (from2 k v e);
          })
  ]

  pub receive_acceptor_state-Orderly :
      (p : Proposer kh) (state : AcceptorState)
      → Orderly kh p
      → Orderly kh (proposer_receive_acceptor_state kh p state)
  unfolding proposer_receive_acceptor_state
  receive_acceptor_state-Orderly p state o = elim (Bool-cases (ltb p.max_trim_iid state.trim_iid)) [
    | inr old ↦ rw (old, proposer_receive_acceptor_state) o
    | inl higher ↦
        rw (higher, proposer_receive_acceptor_state)
          (set_instance_id-Orderly (record p { max_trim_iid = state.trim_iid }) state.trim_iid
            (record {
              prepares = o.prepares;
              accepts = o.accepts;
              apart = o.apart;
              proposable = o.proposable;
            }))
  ]
