-- ===== src/System/Turns.antt =====
-- The turns of a proposer that take accepted messages and trims.
use mathlib.Core.Option.{some-injective}
use libpaxos.Prelude.{
  ℕ, ◌≡◌, refl, inl, inr, Bool, true, false, not, Option, none, some, ◌∙◌, ◌==◌, ltb, if◌then◌else◌,
  arith, ap, subst, Bool-cases, Option-cases, some->>=,
}
use libpaxos.Types.{Accepted, AcceptorState}
use libpaxos.Quorum
use libpaxos.Quorum.{Quorum}
use libpaxos.Khash.{Khash}
use libpaxos.Storage.{StorageApi}
use libpaxos.Proposer.Instances.{Instance, instance_to_accept}
use libpaxos.Proposer.{
  Proposer, proposer_receive_accepted, proposer_set_instance_id, proposer_receive_acceptor_state,
}
use libpaxos.System.{System}
use libpaxos.System.Instances.{Asking}
use libpaxos.Proposer.{trim_entries, return_value}
use libpaxos.Proposer.Returning.{trim_entries-within}
use libpaxos.System.Instances.{add-clear}
use libpaxos.System.Proposers.{Each-update, Proposing, fewer-Proposing}

module _ (api : StorageApi) (kh : Khash Instance) where
  pub follows-Proposing :
      (n id iid : ℕ) (s : System api) (p : Proposer kh)
      → Proposing api kh n id s p
      → Proposing api kh n id s (proposer_set_instance_id kh p iid)
  unfolding proposer_set_instance_id
  follows-Proposing n id iid s p h = elim (Bool-cases (ltb p.next_prepare_iid iid)) [
    | inr old ↦ rw (old, proposer_set_instance_id) h
    | inl higher ↦
        let (values, _) =
          trim_entries kh iid (kh.entries p.prepare_instances) p.values p.prepare_instances in
        rw (higher, proposer_set_instance_id)
          (fewer-Proposing api kh n id s p _ h refl refl (ground arith)
            (trim_entries-within kh iid (kh.entries p.prepare_instances) p.values
              p.prepare_instances)
            (trim_entries-within kh iid (kh.entries p.accept_instances) values p.accept_instances))
  ]

  pub trims-Proposing :
      (n id : ℕ) (s : System api) (p : Proposer kh) (state : AcceptorState)
      → Proposing api kh n id s p
      → Proposing api kh n id s (proposer_receive_acceptor_state kh p state)
  unfolding proposer_receive_acceptor_state
  trims-Proposing n id s p state h = elim (Bool-cases (ltb p.max_trim_iid state.trim_iid)) [
    | inr old ↦ rw (old, proposer_receive_acceptor_state) h
    | inl higher ↦
        rw (higher, proposer_receive_acceptor_state)
          (follows-Proposing n id state.trim_iid s (record p { max_trim_iid = state.trim_iid })
            (fewer-Proposing api kh n id s p _ h refl refl (omega arith) (λ k v e. e) (λ k v e. e)))
  ]

  -- One entry of the table of phase 2 is replaced.
  pub write_accept-Proposing :
      (n id k : ℕ) (s : System api) (p : Proposer kh) (inst inst' : Instance)
      → Proposing api kh n id s p
      → kh.get p.accept_instances k ≡ some inst
      → Asking api n id p.next_prepare_iid s k inst'
      → Proposing api kh n id s
          (record p { accept_instances = kh.write p.accept_instances k inst' })
  write_accept-Proposing n id k s p inst inst' h e a = record {
    id_is = h.id_is;
    acceptors = h.acceptors;
    prepares = h.prepares;
    accepts =
        Each-update (Asking api n id p.next_prepare_iid s) _ (kh.get p.accept_instances) _ k
          (some inst') h.accepts (kh.get-write p.accept_instances k inst' inst e)
          (λ v f. subst (Asking api n id p.next_prepare_iid s k) (some-injective inst' v f) a)
          (λ j v _ x. x);
    closed = h.closed;
  }

  -- The same accept under another quorum or time.
  pub same-Asking :
      (n id limit k : ℕ) (s : System api) (inst : Instance) (q : Quorum) (now : ℕ)
      → Quorum.clear q ≡ Quorum.clear inst.quorum
      → Asking api n id limit s k inst
      → Asking api n id limit s k (record inst { quorum = q; created_at = now })
  unfolding instance_to_accept
  same-Asking n id limit k s inst q now e h = record {
    standing = record {
      key = h.standing.key;
      positive = h.standing.positive;
      known = h.standing.known;
      owned = h.standing.owned;
      clears = e ∙ h.standing.clears;
    };
    asked = h.asked;
    unasked = h.unasked;
  }

  pub counts-Proposing :
      (n id : ℕ) (s : System api) (p p' : Proposer kh) (ack : Accepted) (r : ℕ)
      → Proposing api kh n id s p
      → proposer_receive_accepted kh p ack ≡ some (r, p')
      → Proposing api kh n id s p'
  unfolding proposer_receive_accepted
  counts-Proposing n id s p p' ack r h = elim (Option-cases (kh.get p.accept_instances ack.iid)) [
    | inl z ↦ rw (z, proposer_receive_accepted) (λ e. stays e h)
    | inr (inst, z) ↦
        rw (z, proposer_receive_accepted)
          (elim (Bool-cases (ack.ballot == inst.ballot)) [
            | inr other ↦ rw other (λ e. stays e h)
            | inl same ↦ rw same (λ e.
                let ((new, q), added, f) = some->>= (Quorum.add inst.quorum ack.aid) _ _ e in
                counted inst z new q added f)
          ])
  ]
    where
      stays :
          {a b : ℕ} {x y : Proposer kh}
          → ◌≡◌ {A = Option (ℕ × Proposer kh)} (some (a, x)) (some (b, y))
          → Proposing api kh n id s x
          → Proposing api kh n id s y
      stays e g =
          subst (Proposing api kh n id s) (ap (λ (x : ℕ × Proposer kh). x.1) (some-injective _ _ e))
            g

      counted :
          (inst : Instance)
          → kh.get p.accept_instances ack.iid ≡ some inst
          → (new : Bool) (q : Quorum) → Quorum.add inst.quorum ack.aid ≡ some (new, q)
          → ◌≡◌ {A = Option (ℕ × Proposer kh)}
              (if not new
                then some (0, p)
                else if Quorum.reached q
                then some (
                  2,
                  record p {
                    values = return_value kh (record inst { quorum = q }) p.values;
                    accept_instances = kh.del p.accept_instances ack.iid;
                  },
                )
                else some (
                  1,
                  record p {
                    accept_instances =
                        kh.write p.accept_instances ack.iid (record inst { quorum = q });
                  },
                ))
              (some (r, p'))
          → Proposing api kh n id s p'
      counted inst z false q added = λ f. stays f h
      counted inst z true q added = elim (Bool-cases (Quorum.reached q)) [
        | inl done ↦ rw done (λ f. stays f (
            fewer-Proposing api kh n id s p _ h refl refl (omega arith) (λ k v g. g)
              (λ k v g.
                Each-update (λ j w. kh.get p.accept_instances j ≡ some w)
                  (λ j w. kh.get p.accept_instances j ≡ some w) (kh.get p.accept_instances) _
                  ack.iid none (λ j w i. i) (kh.get-del p.accept_instances ack.iid) (λ w i. cc)
                  (λ j w _ i. i) k v g)))
        | inr more ↦ rw more (λ f. stays f (
            write_accept-Proposing n id ack.iid s p inst _ h z (
              same-Asking n id p.next_prepare_iid ack.iid s inst q inst.created_at
                (add-clear inst.quorum q ack.aid true added) (h.accepts ack.iid inst z))))
      ]
