-- ===== src/Acceptor/History.antt =====
-- An acceptor and the messages that it has sent: what its records tell of them, and what its promises
-- tell of its votes. A vote is an accepted message whose two ballots agree; what an acceptor repeats after
-- a later promise is none.
use mathlib.Core.List.{Memᴰ, Memᴰ.head, Memᴰ.tail}
use libpaxos.Prelude.{
  ℕ, ◌≡◌, ◌<◌, ◌≤◌, ◌⊎◌, inl, inr, Option, none, some, List, [], ◌∷◌, ◌∙◌, ap, sym, subst, u16,
}
use libpaxos.Types.{Value, Promise, Accepted, Message, accepted, promise}
use libpaxos.Storage.{StorageApi, StorageLaws}
use libpaxos.Acceptor.{Acceptor, receive_prepare, receive_accept, receive_repeat, receive_trim}
use libpaxos.Acceptor.Store.{recs}
use libpaxos.Acceptor.Promises.{Input, prepares, accepts, repeats, trims, Holds}

abbrev pub as_accepted : Option Accepted → Option Message
as_accepted none = none
as_accepted (some acc) = some (accepted acc)

abbrev pub push : Option Message → List Message → List Message
push none sent = sent
push (some m) sent = m ∷ sent

module _ (api : StorageApi) where
  -- What the handlers of `evacceptor.c` send, and the acceptor after it.
  unfoldable pub answer : Acceptor api → Input → Option Message × Acceptor api
  answer a (prepares m) = receive_prepare api a m
  answer a (accepts m) = receive_accept api a m
  answer a (repeats iid) = let (out, a') = receive_repeat api a iid in (as_accepted out, a')
  answer a (trims m) = (none, (receive_trim api a m).1)

  -- A repeat is for an instance that is not trimmed.
  abbrev pub Untrimmed : Acceptor api → Input → Type 0
  Untrimmed a (repeats iid) = a.trim_iid < iid
  Untrimmed a _ = Unit {0}

-- The acceptor has sent a vote for the value.
abbrev pub Vote : List Message → ℕ → ℕ → Value → Type 0
Vote sent iid b v =
    (m : Accepted) × Memᴰ (accepted m) sent
    × (m.iid ≡ iid)
    × (m.ballot ≡ b)
    × (m.value_ballot ≡ b)
    × (m.value ≡ v)

-- What a record or a promise says of the last vote: there is one, or there was none yet.
abbrev pub Told : List Message → ℕ → ℕ → Value → Type 0
Told sent iid b v = Vote sent iid b v ⊎ ((b ≡ 0) × (v ≡ []))

pub Told-push :
    (o : Option Message) (sent : List Message) (iid b : ℕ) (v : Value)
    → Told sent iid b v
    → Told (push o sent) iid b v
Told-push none sent iid b v t = t
Told-push (some x) sent iid b v (inl (m, i, j, c, d, e)) = inl (m, tail i, j, c, d, e)
Told-push (some x) sent iid b v (inr z) = inr z

module _ (api : StorageApi) (Valid : api.Handle → Type 0) (laws : StorageLaws api Valid) where
  abbrev pub OnRecord : ℕ → List Message → ℕ → Accepted → Type 0
  OnRecord id sent j x =
      (x.iid ≡ j)
      × (x.aid ≡ u16 id)
      × (x.value_ballot ≤ x.ballot)
      × Told sent j x.value_ballot x.value

  abbrev pub PromiseKept : Acceptor api → List Message → Promise → Type 0
  PromiseKept a sent p =
      (p.aid ≡ u16 a.id)
      × (p.value_ballot ≤ p.ballot)
      × Told sent p.iid p.value_ballot p.value
      × Holds api Valid laws (λ x. p.ballot ≤ x.ballot) p.iid a

  abbrev pub VoteKept : Acceptor api → Accepted → Type 0
  VoteKept a m =
      (m.aid ≡ u16 a.id)
      × Holds api Valid laws (λ x. (m.ballot ≤ x.value_ballot) × (x.value_ballot ≤ x.ballot)) m.iid
          a

  -- A promise reports a vote under a lower ballot, or a later one.
  abbrev pub Reports : Promise → Accepted → Type 0
  Reports p m =
      m.value_ballot ≡ m.ballot → m.iid ≡ p.iid → m.ballot < p.ballot → m.ballot ≤ p.value_ballot

  pub record Remembers (a : Acceptor api) (sent : List Message) : Type 0 where
    pub valid : Valid a.store
    pub on_record :
        (j : ℕ) (x : Accepted) → a.trim_iid < j → recs api a j ≡ some x → OnRecord a.id sent j x
    pub promises : (p : Promise) → Memᴰ (promise p) sent → PromiseKept a sent p
    pub votes : (m : Accepted) → Memᴰ (accepted m) sent → m.value_ballot ≡ m.ballot → VoteKept a m
    pub reports :
        (p : Promise) (m : Accepted) → Memᴰ (promise p) sent → Memᴰ (accepted m) sent → Reports p m

  -- What one input has to show for its message and its record.
  pub record Extends (a a' : Acceptor api) (sent : List Message) (o : Option Message) : Type 0 where
    pub id : a'.id ≡ a.id
    pub valid : Valid a'.store
    pub higher :
        (b j : ℕ)
        → Holds api Valid laws (λ x. b ≤ x.ballot) j a
        → Holds api Valid laws (λ x. b ≤ x.ballot) j a'
    pub later :
        (b j : ℕ)
        → Holds api Valid laws (λ x. (b ≤ x.value_ballot) × (x.value_ballot ≤ x.ballot)) j a
        → Holds api Valid laws (λ x. (b ≤ x.value_ballot) × (x.value_ballot ≤ x.ballot)) j a'
    pub on_record :
        (j : ℕ) (x : Accepted)
        → a'.trim_iid < j
        → recs api a' j ≡ some x
        → OnRecord a.id (push o sent) j x
    pub promises :
        (p : Promise)
        → o ≡ some (promise p)
        → PromiseKept a' sent p × ((m : Accepted) → Memᴰ (accepted m) sent → Reports p m)
    pub votes :
        (m : Accepted)
        → o ≡ some (accepted m)
        → m.value_ballot ≡ m.ballot
        → VoteKept a' m × ((p : Promise) → Memᴰ (promise p) sent → Reports p m)

  pub Extends-Remembers :
      (a a' : Acceptor api) (sent : List Message) (o : Option Message)
      → Remembers a sent
      → Extends a a' sent o
      → Remembers a' (push o sent)
  Extends-Remembers a a' sent o r x = record {
    valid = x.valid;
    on_record =
        λ j y lt e. subst (λ i. OnRecord i (push o sent) j y) (sym x.id) (x.on_record j y lt e);
    promises = all_promises o x.promises;
    votes = all_votes o x.votes;
    reports = all_reports o x.promises x.votes;
  }
    where
      old_promise : (p : Promise) → Memᴰ (promise p) sent → PromiseKept a' sent p
      old_promise p i =
          let (k, le, t, h) = r.promises p i in
          (k ∙ ap u16 (sym x.id), le, t, x.higher p.ballot p.iid h)

      all_promises :
          (o : Option Message)
          → ((p : Promise)
              → o ≡ some (promise p)
              → PromiseKept a' sent p × ((m : Accepted) → Memᴰ (accepted m) sent → Reports p m))
          → (p : Promise) → Memᴰ (promise p) (push o sent)
          → PromiseKept a' (push o sent) p
      all_promises none new p i = old_promise p i
      all_promises (some y) new p (head e) =
          let (k, le, t, h) = (new p (ap some (sym e))).0 in
          (k, le, Told-push (some y) sent p.iid p.value_ballot p.value t, h)
      all_promises (some y) new p (tail i) =
          let (k, le, t, h) = old_promise p i in
          (k, le, Told-push (some y) sent p.iid p.value_ballot p.value t, h)

      all_votes :
          (o : Option Message)
          → ((m : Accepted)
              → o ≡ some (accepted m)
              → m.value_ballot ≡ m.ballot
              → VoteKept a' m × ((p : Promise) → Memᴰ (promise p) sent → Reports p m))
          → (m : Accepted) → Memᴰ (accepted m) (push o sent)
          → m.value_ballot ≡ m.ballot
          → VoteKept a' m
      all_votes none new m i v =
          let (k, h) = r.votes m i v in (k ∙ ap u16 (sym x.id), x.later m.ballot m.iid h)
      all_votes (some y) new m (head e) v = (new m (ap some (sym e)) v).0
      all_votes (some y) new m (tail i) v =
          let (k, h) = r.votes m i v in (k ∙ ap u16 (sym x.id), x.later m.ballot m.iid h)

      all_reports :
          (o : Option Message)
          → ((p : Promise)
              → o ≡ some (promise p)
              → PromiseKept a' sent p × ((m : Accepted) → Memᴰ (accepted m) sent → Reports p m))
          → ((m : Accepted)
              → o ≡ some (accepted m)
              → m.value_ballot ≡ m.ballot
              → VoteKept a' m × ((p : Promise) → Memᴰ (promise p) sent → Reports p m))
          → (p : Promise) (m : Accepted) → Memᴰ (promise p) (push o sent)
          → Memᴰ (accepted m) (push o sent)
          → Reports p m
      all_reports none np nv p m i k = r.reports p m i k
      all_reports (some y) np nv p m (head e) (head f) = cc
      all_reports (some y) np nv p m (head e) (tail k) = (np p (ap some (sym e))).1 m k
      all_reports (some y) np nv p m (tail i) (head f) = λ v. (nv m (ap some (sym f)) v).1 p i v
      all_reports (some y) np nv p m (tail i) (tail k) = r.reports p m i k
