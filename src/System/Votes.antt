-- ===== src/System/Votes.antt =====
-- The invariant of acceptors and proposers together: every vote was requested, every request has a majority
-- of promises behind it, and follows the highest vote that these report.
use mathlib.Core.List.{Memᴰ}
use libpaxos.Prelude.{
  ℕ, ◌+◌, ◌≡◌, ◌<◌, ◌^◌, inl, inr, Option, none, some, List, ◌∷◌, ◌∙◌, ◌==◌, arith, length, ap, sym,
  subst, Bool-cases,
}
use libpaxos.Types.{Value, Promise, Accept, Accepted, Message, accepted, promise}
use libpaxos.Quorum.Overlap.{Distinct}
use libpaxos.Storage.{StorageApi, StorageLaws}
use libpaxos.Acceptor.{accept_to_accepted}
use libpaxos.Acceptor.Store.{recs, receive_repeat_lem}
use libpaxos.Acceptor.Promises.{Input, prepares, accepts, repeats, trims}
use libpaxos.Acceptor.History.{push, answer, Untrimmed, Remembers}
use libpaxos.Acceptor.Records.{accept_vote, repeat_vote}
use libpaxos.Acceptor.Remembering.{answer-Remembers, prepare_no_vote}
use libpaxos.Proposer.Promises.{highest}
use libpaxos.Proposer.Highest.{senders}
use libpaxos.System.{Node, System, handle, put_node, AllSent, Arrives}

-- There is a request for what was voted.
abbrev pub Asked : List Accept → Accepted → Type 0
Asked requests m =
    (r : Accept) × Memᴰ r requests × (r.iid ≡ m.iid) × (r.ballot ≡ m.ballot) × (r.value ≡ m.value)

pub Asked-tail :
    (r : Accept) (requests : List Accept) (m : Accepted) → Asked requests m → Asked (r ∷ requests) m
Asked-tail r requests m (x, i, a, b, c) = (x, Memᴰ.tail i, a, b, c)

module _ (api : StorageApi) where
  -- What makes a request safe.
  pub record Safe (n : ℕ) (nodes : ℕ → Node api) (r : Accept) : Type 0 where
    pub positive : 0 < r.ballot
    pub filled : 0 < length r.value
    pub promises : List Promise
    pub sent : AllSent api n nodes r.iid r.ballot promises
    pub earlier : (p : Promise) → Memᴰ p promises → p.value_ballot < r.ballot
    pub distinct : Distinct (senders promises)
    pub majority : n < length promises + length promises
    pub follows : (v : Value) → (highest (none, 0) promises).0 ≡ some v → r.value ≡ v

module _ (api : StorageApi) (Valid : api.Handle → Type 0) (laws : StorageLaws api Valid) where
  pub record Inv (n : ℕ) (s : System api) : Type 0 where
    pub few : n < 2 ^ 16
    pub ids : (i : ℕ) → i < n → (s.nodes i).acceptor.id ≡ i
    pub remembers : (i : ℕ) → i < n → Remembers api Valid laws (s.nodes i).acceptor (s.nodes i).sent
    pub asked :
        (i : ℕ)
        → i < n
        → (m : Accepted) → Memᴰ (accepted m) (s.nodes i).sent
        → m.value_ballot ≡ m.ballot
        → Asked s.requests m
    pub safe : (r : Accept) → Memᴰ r s.requests → Safe api n s.nodes r
    pub unique :
        (r r' : Accept)
        → Memᴰ r s.requests
        → Memᴰ r' s.requests
        → r.iid ≡ r'.iid
        → r.ballot ≡ r'.ballot
        → r.value ≡ r'.value

  put_node-Each :
      (Q : ℕ → Node api → Type 0) (nodes : ℕ → Node api) (n i : ℕ) (nd : Node api)
      → ((j : ℕ) → j < n → Q j (nodes j))
      → Q i nd
      → (j : ℕ) → j < n
      → Q j (put_node api nodes i nd j)
  put_node-Each Q nodes n i nd old new j lt = elim (Bool-cases (i == j)) [
    | inl e ↦ rw e (subst (λ k. Q k nd) {x = i} {y = j} (ground arith) new)
    | inr e ↦ rw e (old j lt)
  ]

  push-Mem :
      (o : Option Message) (sent : List Message) (m : Message) → Memᴰ m sent → Memᴰ m (push o sent)
  push-Mem none sent m i = i
  push-Mem (some x) sent m i = Memᴰ.tail i

  -- Nothing that was sent is taken back.
  pub put_node-sent :
      (nodes : ℕ → Node api) (i : ℕ) (input : Input) (j : ℕ) (m : Message)
      → Memᴰ m (nodes j).sent
      → Memᴰ m (put_node api nodes i (handle api (nodes i) input) j).sent
  unfolding handle
  put_node-sent nodes i input j m is = elim (Bool-cases (i == j)) [
    | inl e ↦ rw e (
        push-Mem _ (nodes i).sent m
          (subst (λ k. Memᴰ m (nodes k).sent) {x = j} {y = i} (ground arith) is))
    | inr e ↦ rw e is
  ]

  Safe-later :
      (n : ℕ) (nodes nodes' : ℕ → Node api) (r : Accept)
      → ((j : ℕ) (m : Message) → Memᴰ m (nodes j).sent → Memᴰ m (nodes' j).sent)
      → Safe api n nodes r
      → Safe api n nodes' r
  Safe-later n nodes nodes' r grows h = record {
    positive = h.positive;
    filled = h.filled;
    promises = h.promises;
    sent = λ p i. let (lt, a, b, c) = h.sent p i in (lt, a, b, grows p.aid (promise p) c);
    earlier = h.earlier;
    distinct = h.distinct;
    majority = h.majority;
    follows = h.follows;
  }

  Arrives-Untrimmed :
      (s : System api) (i : ℕ) (m : Input)
      → Arrives api s i m
      → Untrimmed api (s.nodes i).acceptor m
  Arrives-Untrimmed s i (prepares m) h = h
  Arrives-Untrimmed s i (accepts m) h = tt
  Arrives-Untrimmed s i (repeats iid) h = h
  Arrives-Untrimmed s i (trims m) h = h

  -- A vote that is sent was requested.
  new_vote-Asked :
      (n : ℕ) (s : System api) (i : ℕ) (input : Input) (v : Accepted)
      → Inv n s
      → i < n
      → Arrives api s i input
      → (answer api (s.nodes i).acceptor input).0 ≡ some (accepted v)
      → v.value_ballot ≡ v.ballot
      → Asked s.requests v
  unfolding answer accept_to_accepted
  new_vote-Asked n s i (prepares m) v inv lt h e vote =
      absurd (prepare_no_vote api Valid laws (s.nodes i).acceptor m v (inv.remembers i lt).valid e)
  new_vote-Asked n s i (accepts m) v inv lt h e vote =
      let (is, _, _, _) =
        accept_vote api Valid laws (s.nodes i).acceptor m v (inv.remembers i lt).valid e in
      (
        m,
        h,
        ap (λ (x : Accepted). x.iid) is,
        ap (λ (x : Accepted). x.ballot) is,
        ap (λ (x : Accepted). x.value) is,
      )
  new_vote-Asked n s i (repeats iid) v inv lt h e vote =
      let (_, _, out) =
        receive_repeat_lem api Valid laws (s.nodes i).acceptor iid (inv.remembers i lt).valid in
      let (found, pos) = repeat_vote (recs api (s.nodes i).acceptor iid) _ v out e in
      let (key, _, _, told) = (inv.remembers i lt).on_record iid v h found in
      elim told [
        | inl (m, is, a, b, c, d) ↦
            let (r, j, f, g, k) = inv.asked i lt m is (c ∙ sym b) in
            (r, j, f ∙ a ∙ sym key, g ∙ b ∙ vote, k ∙ d)
        | inr (_, z) ↦ absurd (omega (arith, ap (λ x. length x) z))
      ]
  new_vote-Asked n s i (trims m) v inv lt h e vote = cc

  pub handles-Inv :
      (n : ℕ) (s : System api) (i : ℕ) (input : Input)
      → Inv n s
      → i < n
      → Arrives api s i input
      → Inv n (record s { nodes = put_node api s.nodes i (handle api (s.nodes i) input) })
  unfolding handle
  handles-Inv n s i input inv lt h =
      let (rem, same) =
        answer-Remembers api Valid laws (s.nodes i).acceptor (s.nodes i).sent input
          (inv.remembers i lt) (Arrives-Untrimmed s i input h) in
      record {
        few = inv.few;
        ids =
            put_node-Each (λ j nd. nd.acceptor.id ≡ j) s.nodes n i _ inv.ids (same ∙ inv.ids i lt);
        remembers =
            put_node-Each (λ j nd. Remembers api Valid laws nd.acceptor nd.sent) s.nodes n i _
              inv.remembers rem;
        asked =
            put_node-Each
              (λ j nd.
                (m : Accepted)
                → Memᴰ (accepted m) nd.sent
                → m.value_ballot ≡ m.ballot
                → Asked s.requests m)
              s.nodes n i _ inv.asked
              (all_asked _ (λ v e vote. new_vote-Asked n s i input v inv lt h e vote));
        safe = λ r j. Safe-later n s.nodes _ r (put_node-sent s.nodes i input) (inv.safe r j);
        unique = inv.unique;
      }
    where
      all_asked :
          (o : Option Message)
          → ((v : Accepted)
              → o ≡ some (accepted v)
              → v.value_ballot ≡ v.ballot
              → Asked s.requests v)
          → (m : Accepted) → Memᴰ (accepted m) (push o (s.nodes i).sent)
          → m.value_ballot ≡ m.ballot
          → Asked s.requests m
      all_asked none new m j vote = inv.asked i lt m j vote
      all_asked (some x) new m (Memᴰ.head e) vote = new m (ap some (sym e)) vote
      all_asked (some x) new m (Memᴰ.tail j) vote = inv.asked i lt m j vote
