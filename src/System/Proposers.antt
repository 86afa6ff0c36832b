-- ===== src/System/Proposers.antt =====
-- A proposer among the messages that were sent: what its operations do to its two tables of instances.
-- A turn is one call of a function of paxos/proposer.c, with the accept that is new in what it sends.
use mathlib.Core.List.{Memᴰ}
use mathlib.Core.Option.{some-injective}
use libpaxos.Prelude.{
  ℕ, ◌+◌, ◌^◌, ◌≡◌, ◌≢◌, refl, ◌<◌, ◌≤◌, inl, inr, Option, none, some, ◌∙◌, ◌==◌, if◌then◌else◌,
  arith, length, ap, sym, subst, update, Bool-cases, Option-cases, some->>=, u32,
}
use libpaxos.Types.{Value, Prepare, Promise, Accept, Accepted, Preempted, AcceptorState, promise}
use libpaxos.Khash.{Khash}
use libpaxos.Storage.{StorageApi}
use libpaxos.Proposer.Instances.{
  Instance, max_n_of_proposers, instance_new, instance_receive_promise, proposer_next_ballot,
}
use libpaxos.Proposer.{
  Proposer, put_absent, start_instance, proposer_propose, proposer_prepare,
  proposer_receive_promise, proposer_accept, proposer_receive_accepted, proposer_receive_preempted,
  proposer_set_instance_id, proposer_receive_acceptor_state,
}
use libpaxos.Proposer.Timeouts.{TimeoutIterator, timeout_iterator_prepare, timeout_iterator_accept}
use libpaxos.Proposer.Ballots.{Owns}
use libpaxos.Proposer.Orderly.{Each}
use libpaxos.Proposer.Proposals.{put_absent-some}
use libpaxos.System.{System}
use libpaxos.System.Instances.{
  Standing, Preparing, Asking, new-Preparing, receive_promise-Preparing,
}

-- Every entry of a map after one of them has changed.
pub Each-update :
    (P Q : ℕ → Instance → Type 0) (m m' : ℕ → Option Instance) (k : ℕ) (o : Option Instance)
    → Each P m
    → m' ≡ update m k o
    → ((v : Instance) → o ≡ some v → Q k v)
    → ((j : ℕ) (v : Instance) → j ≢ k → P j v → Q j v)
    → Each Q m'
Each-update P Q m m' k o old e new others j v f = elim (Bool-cases (k == j)) [
  | inl same ↦
      subst (λ i. Q i v) {x = k} (ground arith)
        (new v (ap (λ b. if b then o else m j) (sym same) ∙ ap (λ g. g j) (sym e) ∙ f))
  | inr other ↦
      others j v (ground arith)
        (old j v (ap (λ b. if b then o else m j) (sym other) ∙ ap (λ g. g j) (sym e) ∙ f))
]

Standing-later :
    (n id limit limit' k : ℕ) (inst : Instance)
    → limit ≤ limit'
    → Standing n id limit k inst
    → Standing n id limit' k inst
Standing-later n id limit limit' k inst le h = record {
  key = h.key;
  positive = h.positive;
  known = omega (arith, h.known);
  owned = h.owned;
  clears = h.clears;
}

module _ (api : StorageApi) (kh : Khash Instance) where
  -- What holds of the proposer `id` with the messages that were sent.
  pub record Proposing (n id : ℕ) (s : System api) (p : Proposer kh) : Type 0 where
    pub id_is : p.id ≡ id
    pub acceptors : p.acceptors ≡ n
    pub prepares : Each (Preparing api n id p.next_prepare_iid s) (kh.get p.prepare_instances)
    pub accepts : Each (Asking api n id p.next_prepare_iid s) (kh.get p.accept_instances)
    pub closed : (r : Accept) → Memᴰ r s.requests → Owns id r.ballot → r.iid ≤ p.next_prepare_iid

  pub data Turn (n : ℕ) (s : System api) (p : Proposer kh)
      : Proposer kh → Option Accept → Type 0 where
    submits : (v : Value) → Turn n s p (proposer_propose kh p v) none
    opens :
        (now : ℕ) (out : Prepare) (p' : Proposer kh)
        → p.next_prepare_iid + 1 < 2 ^ 32
        → proposer_prepare kh p now ≡ some (out, p')
        → Turn n s p p' none
    hears :
        (ack : Promise) (now : ℕ) (out : Option Prepare) (p' : Proposer kh)
        → ack.aid < n
        → Memᴰ (promise ack) (s.nodes ack.aid).sent
        → proposer_receive_promise kh p ack now ≡ some (out, p')
        → Turn n s p p' none
    asks :
        (acc : Accept) (p' : Proposer kh)
        → proposer_accept kh p ≡ some (some acc, p')
        → 0 < length acc.value
        → Turn n s p p' (some acc)
    waits : (p' : Proposer kh) → proposer_accept kh p ≡ some (none, p') → Turn n s p p' none
    counts :
        (ack : Accepted) (r : ℕ) (p' : Proposer kh)
        → proposer_receive_accepted kh p ack ≡ some (r, p')
        → Turn n s p p' none
    yields :
        (ack : Preempted) (now : ℕ) (out : Option Prepare) (p' : Proposer kh)
        → proposer_receive_preempted kh p ack now ≡ some (out, p')
        → Turn n s p p' none
    trims_to :
        (state : AcceptorState) → Turn n s p (proposer_receive_acceptor_state kh p state) none
    delivers_to : (iid : ℕ) → Turn n s p (proposer_set_instance_id kh p iid) none
    prepares_again :
        (timeout : ℕ) (out : Option Prepare) (iter iter' : TimeoutIterator) (p' : Proposer kh)
        → timeout_iterator_prepare kh timeout (iter, p) ≡ some (out, (iter', p'))
        → Turn n s p p' none
    -- Its accept is an old request.
    asks_again :
        (timeout : ℕ) (out : Option Accept) (iter iter' : TimeoutIterator) (p' : Proposer kh)
        → timeout_iterator_accept kh timeout (iter, p) ≡ some (out, (iter', p'))
        → Turn n s p p' none

  -- The ballots of a proposer's instances, and the next ones, fit into a message.
  abbrev pub AllFit : Proposer kh → Type 0
  AllFit p =
      Each (λ k (inst : Instance). inst.ballot + max_n_of_proposers < 65536)
        (kh.get p.prepare_instances)
      × Each (λ k (inst : Instance). inst.ballot + max_n_of_proposers < 65536)
          (kh.get p.accept_instances)

  Preparing-later :
      (n id limit limit' k : ℕ) (s : System api) (inst : Instance)
      → limit ≤ limit'
      → Preparing api n id limit s k inst
      → Preparing api n id limit' s k inst
  Preparing-later n id limit limit' k s inst le h = record {
    standing = Standing-later n id limit limit' k inst le h.standing;
    gathered = h.gathered;
    unasked = h.unasked;
  }

  Asking-later :
      (n id limit limit' k : ℕ) (s : System api) (inst : Instance)
      → limit ≤ limit'
      → Asking api n id limit s k inst
      → Asking api n id limit' s k inst
  Asking-later n id limit limit' k s inst le h = record {
    standing = Standing-later n id limit limit' k inst le h.standing;
    asked = h.asked;
    unasked = h.unasked;
  }

  -- With fewer instances, and a later one to start next.
  pub fewer-Proposing :
      (n id : ℕ) (s : System api) (p p' : Proposer kh)
      → Proposing n id s p
      → p'.id ≡ p.id
      → p'.acceptors ≡ p.acceptors
      → p.next_prepare_iid ≤ p'.next_prepare_iid
      → ((k : ℕ) (v : Instance)
          → kh.get p'.prepare_instances k ≡ some v
          → kh.get p.prepare_instances k ≡ some v)
      → ((k : ℕ) (v : Instance)
          → kh.get p'.accept_instances k ≡ some v
          → kh.get p.accept_instances k ≡ some v)
      → Proposing n id s p'
  fewer-Proposing n id s p p' h a b le f g = record {
    id_is = a ∙ h.id_is;
    acceptors = b ∙ h.acceptors;
    prepares = λ k v e. Preparing-later n id _ _ k s v le (h.prepares k v (f k v e));
    accepts = λ k v e. Asking-later n id _ _ k s v le (h.accepts k v (g k v e));
    closed = λ r i o. omega (arith, h.closed r i o);
  }

  pub opens-Proposing :
      (n id now : ℕ) (s : System api) (p p' : Proposer kh) (out : Prepare)
      → Proposing n id s p
      → id < max_n_of_proposers
      → p.next_prepare_iid + 1 < 2 ^ 32
      → proposer_prepare kh p now ≡ some (out, p')
      → Proposing n id s p'
  unfolding proposer_prepare start_instance
  opens-Proposing n id now s p p' out h small lt e =
      let iid = u32 (p.next_prepare_iid + 1) in
      let wraps : iid ≡ p.next_prepare_iid + 1 = omega arith in
      let (inst, made, e1) =
        some->>= (instance_new iid (proposer_next_ballot p.id 0) p.acceptors now) _ _ e in
      let (t, put, e2) = some->>= (put_absent kh p.prepare_instances iid inst) _ _ e1 in
      let is = ap (λ (x : Prepare × Proposer kh). x.1) (some-injective _ _ e2) in
      let (_, table) = put_absent-some kh p.prepare_instances t iid inst put in
      subst (Proposing n id s) is (record {
        id_is = h.id_is;
        acceptors = h.acceptors;
        prepares =
            Each-update (Preparing api n id p.next_prepare_iid s) (Preparing api n id iid s)
              (kh.get p.prepare_instances) (kh.get t) iid (some inst) h.prepares table
              (λ v f. subst (Preparing api n id iid s iid) (some-injective inst v f) (
                new-Preparing api n id p.next_prepare_iid iid now s inst
                  (ap (λ x. instance_new iid (proposer_next_ballot x 0) n now) (sym h.id_is)
                    ∙ ap (λ x. instance_new iid (proposer_next_ballot p.id 0) x now)
                        (sym h.acceptors)
                    ∙ made)
                  h.closed (omega arith) small))
              (λ j v _ x. Preparing-later n id p.next_prepare_iid iid j s v (omega arith) x);
        accepts =
            λ k v f. Asking-later n id p.next_prepare_iid iid k s v (omega arith) (h.accepts k v f);
        closed = λ r i o. omega (arith, h.closed r i o);
      })

  pub hears-Proposing :
      (n id now : ℕ) (s : System api) (p p' : Proposer kh) (ack : Promise) (out : Option Prepare)
      → Proposing n id s p
      → id < max_n_of_proposers
      → AllFit p
      → ack.aid < n
      → Memᴰ (promise ack) (s.nodes ack.aid).sent
      → proposer_receive_promise kh p ack now ≡ some (out, p')
      → Proposing n id s p'
  unfolding proposer_receive_promise
  hears-Proposing n id now s p p' ack out h small fits lt sent =
      elim (Option-cases (kh.get p.prepare_instances ack.iid)) [
        | inl z ↦
            rw (z, proposer_receive_promise)
              (λ e.
                subst (Proposing n id s)
                  (ap (λ (x : Option Prepare × Proposer kh). x.1) (some-injective _ _ e)) h)
        | inr (inst, z) ↦
            rw (z, proposer_receive_promise)
              (λ e.
                let (r, f, e1) = some->>= (instance_receive_promise p.id inst ack now) _ _ e in
                let is = ap (λ (x : Option Prepare × Proposer kh). x.1) (some-injective _ _ e1) in
                let table = kh.get-write p.prepare_instances ack.iid r.1 inst z in
                subst (Proposing n id s) is (record {
                  id_is = h.id_is;
                  acceptors = h.acceptors;
                  prepares =
                      Each-update (Preparing api n id p.next_prepare_iid s) _
                        (kh.get p.prepare_instances) _ ack.iid (some r.1) h.prepares table
                        (λ v g.
                          subst (Preparing api n id p.next_prepare_iid s ack.iid)
                            (some-injective r.1 v g)
                            (receive_promise-Preparing api n id p.next_prepare_iid ack.iid now s
                              inst r.1 ack r.0 (h.prepares ack.iid inst z) (fits.0 ack.iid inst z)
                              small lt refl sent
                              (ap (λ x. instance_receive_promise x inst ack now) (sym h.id_is)
                                ∙ f)))
                        (λ j v _ x. x);
                  accepts = h.accepts;
                  closed = h.closed;
                }))
      ]
