-- ===== src/System/Returns.antt =====
-- The turns of a proposer that bring an instance back to phase 1, and those that propose nothing.
use mathlib.Core.Option.{some-injective}
use libpaxos.Prelude.{
  ℕ, ◌≡◌, ◌≢◌, refl, ◌<◌, inl, inr, Bool, true, false, not, ◌&&◌, Option, none, some, ◌∙◌, ltb,
  if◌then◌else◌, arith, ap, sym, subst, update, update-eq, Bool-cases, Option-cases, ◌>>=◌,
  some->>=,
}
use libpaxos.Types.{Prepare, Accept, Preempted}
use libpaxos.Quorum
use libpaxos.Quorum.{Quorum}
use libpaxos.Khash.{Khash}
use libpaxos.Storage.{StorageApi}
use libpaxos.Proposer.Instances.{
  Instance, max_n_of_proposers, instance_to_accept, proposer_preempt, instance_has_value,
  instance_has_promised_value,
}
use libpaxos.Proposer.{Proposer, proposer_accept, proposer_receive_preempted}
use libpaxos.Proposer.Proposals.{moved}
use libpaxos.System.{System}
use libpaxos.System.Instances.{Preparing, Asking}
use libpaxos.Proposer.{proposer_move_instance}
use libpaxos.System.Instances.{preempt-Preparing, clear-init}
use libpaxos.System.Proposers.{Each-update, Proposing, AllFit, fewer-Proposing}
use libpaxos.Proposer.{smallest, propose_instance, take_value}

module _ (api : StorageApi) (kh : Khash Instance) where
  -- One entry of the table of phase 1 is replaced.
  pub write_prepare-Proposing :
      (n id k : ℕ) (s : System api) (p : Proposer kh) (inst inst' : Instance)
      → Proposing api kh n id s p
      → kh.get p.prepare_instances k ≡ some inst
      → Preparing api n id p.next_prepare_iid s k inst'
      → Proposing api kh n id s
          (record p { prepare_instances = kh.write p.prepare_instances k inst' })
  write_prepare-Proposing n id k s p inst inst' h e a = record {
    id_is = h.id_is;
    acceptors = h.acceptors;
    prepares =
        Each-update (Preparing api n id p.next_prepare_iid s) _ (kh.get p.prepare_instances) _ k
          (some inst') h.prepares (kh.get-write p.prepare_instances k inst' inst e)
          (λ v f. subst (Preparing api n id p.next_prepare_iid s k) (some-injective inst' v f) a)
          (λ j v _ x. x);
    accepts = h.accepts;
    closed = h.closed;
  }

  pub yields-Proposing :
      (n id now : ℕ) (s : System api) (p p' : Proposer kh) (ack : Preempted) (out : Option Prepare)
      → Proposing api kh n id s p
      → id < max_n_of_proposers
      → AllFit api kh p
      → proposer_receive_preempted kh p ack now ≡ some (out, p')
      → Proposing api kh n id s p'
  unfolding proposer_receive_preempted
  yields-Proposing n id now s p p' ack out h small fits =
      elim (Option-cases (kh.get p.accept_instances ack.iid)) [
        | inl z ↦ rw (z, proposer_receive_preempted) (λ e. stays e h)
        | inr (inst, z) ↦
            rw (z, proposer_receive_preempted)
              (elim (Bool-cases (ltb inst.ballot ack.ballot)) [
                | inr old ↦ rw old (λ e. stays e h)
                | inl above ↦ rw above (λ e.
                    let (m, go, f) =
                      some->>=
                        (proposer_move_instance kh p.accept_instances p.prepare_instances inst) _ _
                        e in
                    let (is, gone, kept) =
                      moved kh p.accept_instances p.prepare_instances m.0 m.1 inst m.2 go in
                    stays f (returned inst z m.0 m.1 m.2 is gone kept))
              ])
      ]
    where
      stays :
          {a b : Option Prepare} {x y : Proposer kh}
          → ◌≡◌ {A = Option (Option Prepare × Proposer kh)} (some (a, x)) (some (b, y))
          → Proposing api kh n id s x
          → Proposing api kh n id s y
      stays e g =
          subst (Proposing api kh n id s)
            (ap (λ (x : Option Prepare × Proposer kh). x.1) (some-injective _ _ e)) g

      returned :
          (inst : Instance)
          → kh.get p.accept_instances ack.iid ≡ some inst
          → (accepts prepares : kh.Table) (inst' : Instance)
          → inst' ≡ record inst { quorum = Quorum.clear inst.quorum }
          → kh.get accepts ≡ update (kh.get p.accept_instances) inst.iid none
          → kh.get prepares ≡ update (kh.get p.prepare_instances) inst.iid (some inst')
          → Proposing api kh n id s (record p {
            accept_instances = accepts;
            prepare_instances = kh.write prepares ack.iid (proposer_preempt p.id inst' now).1;
          })
      returned inst z accepts prepares inst' is gone kept =
          let old = h.accepts ack.iid inst z in
          let st = old.standing in
          let there : kh.get prepares ack.iid ≡ some inst' =
            ap (λ m. m ack.iid) kept
            ∙ update-eq (kh.get p.prepare_instances) inst.iid ack.iid _ st.key in
          let again : Preparing api n id p.next_prepare_iid s ack.iid
              (proposer_preempt p.id inst' now).1 =
            subst
              (λ x.
                Preparing api n id p.next_prepare_iid s ack.iid (proposer_preempt x inst' now).1)
              (sym h.id_is)
              (subst
                (λ x. Preparing api n id p.next_prepare_iid s ack.iid (proposer_preempt id x now).1)
                (sym is)
                (preempt-Preparing api n id p.next_prepare_iid ack.iid now s
                  (record inst { quorum = Quorum.clear inst.quorum })
                  (record {
                    key = st.key;
                    positive = st.positive;
                    known = st.known;
                    owned = st.owned;
                    clears = ap Quorum.clear st.clears ∙ clear-init n;
                  })
                  old.unasked (fits.1 ack.iid inst z) small)) in
          record {
            id_is = h.id_is;
            acceptors = h.acceptors;
            prepares =
                Each-update (λ j v. j ≢ ack.iid → Preparing api n id p.next_prepare_iid s j v)
                  (Preparing api n id p.next_prepare_iid s) (kh.get prepares) _ ack.iid
                  (some (proposer_preempt p.id inst' now).1)
                  (Each-update (Preparing api n id p.next_prepare_iid s) _
                    (kh.get p.prepare_instances) (kh.get prepares) inst.iid (some inst') h.prepares
                    kept (λ v f ne. absurd (ne st.key)) (λ j v _ x _. x))
                  (kh.get-write prepares ack.iid _ inst' there)
                  (λ v f.
                    subst (Preparing api n id p.next_prepare_iid s ack.iid) (some-injective _ v f)
                      again)
                  (λ j v ne x. x ne);
            accepts =
                Each-update (Asking api n id p.next_prepare_iid s) _ (kh.get p.accept_instances)
                  (kh.get accepts) inst.iid none h.accepts gone (λ v f. cc) (λ j v _ x. x);
            closed = h.closed;
          }

  without_accept :
      (n id : ℕ) (s : System api) (p p' : Proposer kh) (inst : Instance)
      → Proposing api kh n id s p
      → propose_instance kh p inst ≡ some (none, p')
      → Proposing api kh n id s p'
  unfolding propose_instance
  without_accept n id s p p' inst h e =
      go (not (instance_has_value inst') && not (instance_has_promised_value inst')) e
    where
      inst' : Instance
      inst' = (take_value kh inst p.values).0

      after : kh.Table → kh.Table → Proposer kh
      after prepares accepts = record p {
        values = (take_value kh inst p.values).1;
        prepare_instances = prepares;
        accept_instances = accepts;
      }

      go :
          (b : Bool)
          → ◌≡◌ {A = Option (Option Accept × Proposer kh)}
              (if b
                then some (none, record p { values = (take_value kh inst p.values).1 })
                else (proposer_move_instance kh p.prepare_instances p.accept_instances inst'
                    >>= λ m. instance_to_accept m.2 >>= λ out. some (some out, after m.0 m.1)))
              (some (none, p'))
          → Proposing api kh n id s p'
      go true f =
          subst (Proposing api kh n id s)
            (ap (λ (x : Option Accept × Proposer kh). x.1) (some-injective _ _ f))
            (fewer-Proposing api kh n id s p _ h refl refl (omega arith) (λ k v g. g) (λ k v g. g))
      go false f =
          let (m, _, f1) =
            some->>= (proposer_move_instance kh p.prepare_instances p.accept_instances inst') _ _
              f in
          let (out, _, f2) = some->>= (instance_to_accept m.2) _ _ f1 in
          absurd (cc (ap (λ (r : Option Accept × Proposer kh). r.0) (some-injective _ _ f2)))

  -- Where nothing is proposed, the tables stay.
  pub waits-Proposing :
      (n id : ℕ) (s : System api) (p p' : Proposer kh)
      → Proposing api kh n id s p
      → proposer_accept kh p ≡ some (none, p')
      → Proposing api kh n id s p'
  unfolding proposer_accept
  waits-Proposing n id s p p' h =
      elim (Option-cases (smallest kh (kh.entries p.prepare_instances) none)) [
        | inl z ↦ rw (z, proposer_accept) (λ e. stays e h)
        | inr (inst, z) ↦
            rw (z, proposer_accept)
              (elim (Bool-cases (Quorum.reached inst.quorum)) [
                | inr not_yet ↦ rw not_yet (λ e. stays e h)
                | inl reached ↦ rw reached (λ e. left inst e)
              ])
      ]
    where
      stays :
          {a b : Option Accept} {x y : Proposer kh}
          → ◌≡◌ {A = Option (Option Accept × Proposer kh)} (some (a, x)) (some (b, y))
          → Proposing api kh n id s x
          → Proposing api kh n id s y
      stays e g =
          subst (Proposing api kh n id s)
            (ap (λ (x : Option Accept × Proposer kh). x.1) (some-injective _ _ e)) g

      left :
          (inst : Instance)
          → propose_instance kh p inst ≡ some (none, p')
          → Proposing api kh n id s p'
      left inst e = without_accept n id s p p' inst h e
