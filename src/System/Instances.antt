-- ===== src/System/Instances.antt =====
-- An instance of a proposer among the messages that were sent: the promises that it has counted, and the
-- accepts that were requested for it. Ballots fit into the 16 bits of a message.
use mathlib.Core.List.{Memᴰ}
use mathlib.Core.Option.{some-injective}
use libpaxos.Prelude.{
  ℕ, ◌+◌, ◌≡◌, refl, ◌<◌, ◌≤◌, ◌⊎◌, inl, inr, Bool, true, false, ◌&&◌, Option, none, some, List, [],
  ◌∷◌, ◌++◌, ◌∙◌, ◌==◌, ltb, arith, length, ap, sym, subst, Bool-cases, Option-cases, ◌>>=◌,
  some->>=, get_elem?,
}
use libpaxos.Types.{Value, Prepare, Promise, Accept, promise}
use libpaxos.Quorum
use libpaxos.Quorum.{Quorum}
use libpaxos.Storage.{StorageApi}
use libpaxos.Proposer.Instances.{
  Instance, max_n_of_proposers, instance_new, instance_receive_promise, instance_to_accept,
  save_promised, proposer_preempt, proposer_next_ballot,
}
use libpaxos.Proposer.Ballots.{Owns, next_ballot-Owns}
use libpaxos.Proposer.Promises.{receive_all}
use libpaxos.System.{System, AllSent}

-- The instance as phase 1 started it.
abbrev pub restarted : ℕ → ℕ → Instance → Instance
restarted n created inst = record inst {
  value_ballot = 0;
  promised_value = none;
  created_at = created;
  quorum = Quorum.init n;
}

-- What every instance of the proposer `id` has, in either table.
pub record Standing (n id limit k : ℕ) (inst : Instance) : Type 0 where
  pub key : inst.iid ≡ k
  pub positive : 0 < k
  pub known : k ≤ limit
  pub owned : Owns id inst.ballot
  pub clears : Quorum.clear inst.quorum ≡ Quorum.init n

pub clear-init : (n : ℕ) → Quorum.clear (Quorum.init n) ≡ Quorum.init n
unfolding Quorum.clear Quorum.init
clear-init n = refl

module _ (api : StorageApi) where
  -- The promises that an instance has counted were sent.
  abbrev pub Gathered : ℕ → System api → ℕ → ℕ → Instance → Type 0
  Gathered n s id k inst =
      (created : ℕ) × (ps : List Promise) × AllSent api n s.nodes k inst.ballot ps
      × (receive_all id (restarted n created inst) ps 0
          ≡ some (record inst { created_at = created }))

  pub record Preparing (n id limit : ℕ) (s : System api) (k : ℕ) (inst : Instance) : Type 0 where
    pub standing : Standing n id limit k inst
    pub gathered : Gathered n s id k inst
    pub unasked :
        (r : Accept) → Memᴰ r s.requests → r.iid ≡ k → Owns id r.ballot → r.ballot < inst.ballot

  pub record Asking (n id limit : ℕ) (s : System api) (k : ℕ) (inst : Instance) : Type 0 where
    pub standing : Standing n id limit k inst
    pub asked : (acc : Accept) → instance_to_accept inst ≡ some acc → Memᴰ acc s.requests
    pub unasked :
        (r : Accept) → Memᴰ r s.requests → r.iid ≡ k → Owns id r.ballot → r.ballot ≤ inst.ballot

  -- Phase 1 starts again under a higher ballot.
  pub preempt-Preparing :
      (n id limit k now : ℕ) (s : System api) (inst : Instance)
      → Standing n id limit k inst
      → ((r : Accept) → Memᴰ r s.requests → r.iid ≡ k → Owns id r.ballot → r.ballot ≤ inst.ballot)
      → inst.ballot + max_n_of_proposers < 65536
      → id < max_n_of_proposers
      → Preparing n id limit s k (proposer_preempt id inst now).1
  unfolding proposer_preempt
  preempt-Preparing n id limit k now s inst st unasked fits small =
      let (own, above) = next_ballot-Owns id inst.ballot small (inr st.owned) (omega arith) in
      let next : Instance = (proposer_preempt id inst now).1 in
      record {
        standing = record {
          key = st.key;
          positive = st.positive;
          known = st.known;
          owned = own;
          clears = ap Quorum.clear st.clears ∙ clear-init n;
        };
        gathered = (
          now,
          [],
          (λ p i. elim i [ ]),
          unfold receive_all in ap (λ q. some (record next { quorum = q })) (sym st.clears),
        );
        unasked = λ r i e o. omega (arith, unasked r i e o);
      }

  -- A new instance.
  pub new-Preparing :
      (n id limit k now : ℕ) (s : System api) (inst : Instance)
      → instance_new k (proposer_next_ballot id 0) n now ≡ some inst
      → ((r : Accept) → Memᴰ r s.requests → Owns id r.ballot → r.iid ≤ limit)
      → limit < k
      → id < max_n_of_proposers
      → Preparing n id k s k inst
  unfolding instance_new
  new-Preparing n id limit k now s inst e closed above small =
      let (own, _) = next_ballot-Owns id 0 small (inl refl) (omega arith) in
      let fresh : Instance = record {
        iid = k;
        ballot = proposer_next_ballot id 0;
        value_ballot = 0;
        value = none;
        promised_value = none;
        created_at = now;
        quorum = Quorum.init n;
      } in
      let yes_iid : ltb 0 k ≡ true = ground arith in
      let is : fresh ≡ inst = some-injective fresh inst (rw yes_iid at e) in
      subst (Preparing n id k s k) is (record {
        standing = record {
          key = refl;
          positive = omega arith;
          known = omega arith;
          owned = own;
          clears = clear-init n;
        };
        gathered = (now, [], (λ p i. elim i [ ]), unfold receive_all in refl);
        unasked = λ r i key o. absurd (omega (arith, closed r i o));
      })

receive_all-append :
    (id now : ℕ) (inst : Instance) (ps : List Promise) (p : Promise)
    → receive_all id inst (ps ++ (p ∷ [])) now
      ≡ (receive_all id inst ps now >>= λ x. instance_receive_promise id x p now >>= λ y. some y.1)
unfolding receive_all
receive_all-append id now inst [] p = refl
receive_all-append id now inst (q ∷ ps) p =
    elim (Option-cases (instance_receive_promise id inst q now)) [
      | inl e ↦ rw (e, receive_all) refl
      | inr (x, e) ↦ rw (e, receive_all) (receive_all-append id now x.1 ps p)
    ]

Mem-append : (ps : List Promise) (p x : Promise) → Memᴰ x (ps ++ (p ∷ [])) → Memᴰ x ps ⊎ (x ≡ p)
Mem-append [] p x (Memᴰ.head e) = inr e
Mem-append [] p x (Memᴰ.tail i) = elim i [ ]
Mem-append (q ∷ ps) p x (Memᴰ.head e) = inl (Memᴰ.head e)
Mem-append (q ∷ ps) p x (Memᴰ.tail i) = elim (Mem-append ps p x i) [
  | inl j ↦ inl (Memᴰ.tail j)
  | inr e ↦ inr e
]

pub add-clear :
    (q q' : Quorum) (id : ℕ) (new : Bool)
    → Quorum.add q id ≡ some (new, q')
    → Quorum.clear q' ≡ Quorum.clear q
unfolding Quorum.add Quorum.clear
add-clear q q' id new = elim (Option-cases (get_elem? q.acceptor_ids id)) [
  | inl e ↦ rw (e, Quorum.add) (λ f. cc)
  | inr (flag, e) ↦
      rw (e, Quorum.add)
        (elim (Bool-cases (flag == 0)) [
          | inl z ↦
              rw z (λ f. sym (ap (λ (x : Bool × Quorum). Quorum.clear x.1) (some-injective _ _ f)))
          | inr z ↦
              rw z (λ f. sym (ap (λ (x : Bool × Quorum). Quorum.clear x.1) (some-injective _ _ f)))
        ])
]

-- The instance with a promise counted.
abbrev counting : Instance → Quorum → ℕ → Option Value → Instance
counting inst q b v = record inst { quorum = q; value_ballot = b; promised_value = v }

save_promised-counting :
    (inst : Instance) (q : Quorum) (p : Promise)
    → (b : ℕ) × (v : Option Value) × (save_promised (record inst { quorum = q }) p
        ≡ counting inst q b v)
      × ((c : ℕ)
          → save_promised (record inst { quorum = q; created_at = c }) p
            ≡ record (counting inst q b v) { created_at = c })
unfolding save_promised
save_promised-counting inst q p =
    elim (Bool-cases (ltb 0 (length p.value) && ltb inst.value_ballot p.value_ballot)) [
      | inl e ↦ (p.value_ballot, some p.value, rw e refl, λ c. rw e refl)
      | inr e ↦ (inst.value_ballot, inst.promised_value, rw e refl, λ c. rw e refl)
    ]

module _ (api : StorageApi) where
  counting-Preparing :
      (n id limit k : ℕ) (s : System api) (inst : Instance) (ack : Promise) (q : Quorum)
      → Preparing api n id limit s k inst
      → (ack.aid < n)
        × (ack.iid ≡ k)
        × (ack.ballot ≡ inst.ballot)
        × Memᴰ (promise ack) (s.nodes ack.aid).sent
      → Quorum.add inst.quorum ack.aid ≡ some (true, q)
      → Preparing api n id limit s k (save_promised (record inst { quorum = q }) ack)
  unfolding instance_receive_promise
  counting-Preparing n id limit k s inst ack q h from added =
      let (b, v, is, dated) = save_promised-counting inst q ack in
      let (created, ps, sent, all) = h.gathered in
      let (_, _, same, _) = from in
      let below : ltb ack.ballot inst.ballot ≡ false = ground arith in
      let above : ltb inst.ballot ack.ballot ≡ false = ground arith in
      subst (Preparing api n id limit s k) (sym is) (record {
        standing = record {
          key = h.standing.key;
          positive = h.standing.positive;
          known = h.standing.known;
          owned = h.standing.owned;
          clears = add-clear inst.quorum q ack.aid true added ∙ h.standing.clears;
        };
        gathered = (
          created,
          ps ++ (ack ∷ []),
          (λ x i. elim (Mem-append ps ack x i) [
            | inl j ↦ sent x j
            | inr e ↦
                subst
                  (λ (y : Promise).
                    (y.aid < n)
                    × (y.iid ≡ k)
                    × (y.ballot ≡ inst.ballot)
                    × Memᴰ (promise y) (s.nodes y.aid).sent)
                  (sym e) from
          ]),
          receive_all-append id 0 (restarted n created inst) ps ack
              ∙ ap (λ o. o >>= λ x. instance_receive_promise id x ack 0 >>= λ y. some y.1) all
              ∙ rw (below, above, added, dated created) refl,
        );
        unasked = h.unasked;
      })

  -- A promise that was sent keeps what is known of the instance that takes it.
  pub receive_promise-Preparing :
      (n id limit k now : ℕ) (s : System api) (inst inst' : Instance) (ack : Promise)
      (out : Option Prepare)
      → Preparing api n id limit s k inst
      → inst.ballot + max_n_of_proposers < 65536
      → id < max_n_of_proposers
      → ack.aid < n
      → ack.iid ≡ k
      → Memᴰ (promise ack) (s.nodes ack.aid).sent
      → instance_receive_promise id inst ack now ≡ some (out, inst')
      → Preparing api n id limit s k inst'
  unfolding instance_receive_promise
  receive_promise-Preparing n id limit k now s inst inst' ack out h fits small lt key sent =
      elim (Bool-cases (ltb ack.ballot inst.ballot)) [
        | inl old ↦ rw old (λ e. subst (Preparing api n id limit s k) (result e) h)
        | inr not_old ↦ rw not_old (elim (Bool-cases (ltb inst.ballot ack.ballot)) [
          | inl above ↦ rw above (λ e. subst (Preparing api n id limit s k) (result e) (
              preempt-Preparing api n id limit k now s inst h.standing
                (λ r i f o. omega (arith, h.unasked r i f o)) fits small))
          | inr same ↦ rw same (λ e.
              let ((new, q), added, f) = some->>= (Quorum.add inst.quorum ack.aid) _ _ e in
              subst (Preparing api n id limit s k) (result f) (elim (Bool-cases new) [
                | inr old ↦ rw old h
                | inl fresh ↦ rw fresh (
                    counting-Preparing n id limit k s inst ack q h (lt, key, ground arith, sent)
                      (added ∙ ap (λ b. some (b, q)) fresh))
              ]))
        ])
      ]
    where
      result :
          {o o' : Option Prepare} {i i' : Instance}
          → ◌≡◌ {A = Option (Option Prepare × Instance)} (some (o, i)) (some (o', i'))
          → i ≡ i'
      result e = ap (λ (x : Option Prepare × Instance). x.1) (some-injective _ _ e)
