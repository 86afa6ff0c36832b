-- ===== src/System/Campaigns.antt =====
-- Acceptors with the proposers of paxos/proposer.c themselves: every step of theirs is one of `System.antt`.
use mathlib.Core.List.{Memᴰ}
use mathlib.Core.Option.{some-injective}
use libpaxos.Prelude.{
  ℕ, ◌≡◌, ◌≢◌, refl, ◌<◌, inl, inr, Option, none, some, List, [], ◌∷◌, ◌∙◌, ◌==◌, if◌then◌else◌,
  arith, ap, sym, subst, Bool-cases,
}
use libpaxos.Types.{Accept, Message, promise}
use libpaxos.Khash.{Khash}
use libpaxos.Storage.{StorageApi, StorageLaws}
use libpaxos.Proposer.Instances.{Instance, max_n_of_proposers}
use libpaxos.Proposer.{Proposer, proposer_propose}
use libpaxos.Proposer.Ballots.{Owns}
use libpaxos.System.{System, Proposal}
use libpaxos.System.Proposers.{Proposing, AllFit, fewer-Proposing}
use libpaxos.Proposer.{proposer_new}
use libpaxos.Acceptor.Promises.{Input}
use libpaxos.Proposer.Ballots.{Owns-disjoint}
use libpaxos.System.{handle, put_node, Arrives, handles, proposes, Start, Reach, begin, and_then}
use libpaxos.System.Proposers.{
  Turn, submits, opens, hears, asks, waits, counts, yields, trims_to, delivers_to, prepares_again,
  asks_again, opens-Proposing, hears-Proposing,
}
use libpaxos.System.Turns.{follows-Proposing, trims-Proposing, counts-Proposing}
use libpaxos.System.Asks.{asks-Proposing, asks-Proposal, asks-Owns}
use libpaxos.System.Returns.{yields-Proposing, waits-Proposing}
use libpaxos.System.Renewals.{prepares_again-Proposing, asks_again-Proposing}
use libpaxos.System.Votes.{put_node-sent}

module _ (api : StorageApi) (kh : Khash Instance) where
  pub record Campaign : Type 0 where
    pub system : System api
    pub proposers : ℕ → Proposer kh

  abbrev pub asked_for : Option Accept → List Accept → List Accept
  asked_for none rs = rs
  asked_for (some acc) rs = acc ∷ rs

  abbrev pub put_proposer : (ℕ → Proposer kh) → ℕ → Proposer kh → ℕ → Proposer kh
  put_proposer ps i p j = if i == j then p else ps j

  pub data Move (n : ℕ) (c : Campaign) : Campaign → Type 0 where
    acceptor_handles :
        (i : ℕ) (m : Input)
        → i < n
        → Arrives api c.system i m
        → Move n c (record c {
          system = record c.system {
            nodes = put_node api c.system.nodes i (handle api (c.system.nodes i) m);
          };
        })
    proposer_turns :
        (id : ℕ) (p : Proposer kh) (ask : Option Accept)
        → id < max_n_of_proposers
        → AllFit api kh (c.proposers id)
        → Turn api kh n c.system (c.proposers id) p ask
        → Move n c (record {
          system = record c.system { requests = asked_for ask c.system.requests };
          proposers = put_proposer c.proposers id p;
        })

  pub data Moves (n : ℕ) (c : Campaign) : Campaign → Type 0 where
    stay : Moves n c c
    go_on : {d e : Campaign} → Moves n c d → Move n d e → Moves n c e

  pub record Opening (Valid : api.Handle → Type 0) (n : ℕ) (c : Campaign) : Type 0 where
    pub start : Start api Valid n c.system
    pub new : (id : ℕ) → id < max_n_of_proposers → c.proposers id ≡ proposer_new kh id n

  abbrev pub AllProposing : ℕ → Campaign → Type 0
  AllProposing n c =
      (id : ℕ) → id < max_n_of_proposers → Proposing api kh n id c.system (c.proposers id)

  -- What holds of a proposer holds after others have sent more.
  others-Proposing :
      (n id : ℕ) (s s' : System api) (p : Proposer kh)
      → ((i : ℕ) (m : Message) → Memᴰ m (s.nodes i).sent → Memᴰ m (s'.nodes i).sent)
      → ((r : Accept) → Memᴰ r s.requests → Memᴰ r s'.requests)
      → ((r : Accept) → Memᴰ r s'.requests → Owns id r.ballot → Memᴰ r s.requests)
      → Proposing api kh n id s p
      → Proposing api kh n id s' p
  others-Proposing n id s s' p grows up down h = record {
    id_is = h.id_is;
    acceptors = h.acceptors;
    prepares = λ k v e.
        let a = h.prepares k v e in
        let (created, ps, sent, all) = a.gathered in
        record {
          standing = a.standing;
          gathered = (
            created,
            ps,
            (λ x i. let (lt, f, g, j) = sent x i in (lt, f, g, grows x.aid (promise x) j)),
            all,
          );
          unasked = λ r i f o. a.unasked r (down r i o) f o;
        };
    accepts = λ k v e.
        let a = h.accepts k v e in
        record {
          standing = a.standing;
          asked = λ acc out. up acc (a.asked acc out);
          unasked = λ r i f o. a.unasked r (down r i o) f o;
        };
    closed = λ r i o. h.closed r (down r i o) o;
  }

  turn-Proposing :
      (n id : ℕ) (s : System api) (p p' : Proposer kh) (ask : Option Accept)
      → Proposing api kh n id s p
      → id < max_n_of_proposers
      → AllFit api kh p
      → Turn api kh n s p p' ask
      → Proposing api kh n id (record s { requests = asked_for ask s.requests }) p'
  unfolding proposer_propose
  turn-Proposing n id s p p' ask h small fits (submits v) =
      fewer-Proposing api kh n id s p _ h refl refl (omega arith) (λ k x e. e) (λ k x e. e)
  turn-Proposing n id s p p' ask h small fits (opens now out _ lt e) =
      opens-Proposing api kh n id now s p p' out h small lt e
  turn-Proposing n id s p p' ask h small fits (hears ack now out _ lt i e) =
      hears-Proposing api kh n id now s p p' ack out h small fits lt i e
  turn-Proposing n id s p p' ask h small fits (asks acc _ e filled) =
      asks-Proposing api kh n id s p p' acc h fits e
  turn-Proposing n id s p p' ask h small fits (waits _ e) = waits-Proposing api kh n id s p p' h e
  turn-Proposing n id s p p' ask h small fits (counts ack r _ e) =
      counts-Proposing api kh n id s p p' ack r h e
  turn-Proposing n id s p p' ask h small fits (yields ack now out _ e) =
      yields-Proposing api kh n id now s p p' ack out h small fits e
  turn-Proposing n id s p p' ask h small fits (trims_to state) =
      trims-Proposing api kh n id s p state h
  turn-Proposing n id s p p' ask h small fits (delivers_to iid) =
      follows-Proposing api kh n id iid s p h
  turn-Proposing n id s p p' ask h small fits (prepares_again timeout out iter iter' _ e) =
      prepares_again-Proposing api kh n id timeout s p p' iter iter' out h e
  turn-Proposing n id s p p' ask h small fits (asks_again timeout out iter iter' _ e) =
      asks_again-Proposing api kh n id timeout s p p' iter iter' out h e

  -- A new request is the proposer's own, and comes about as the system has it.
  turn-Proposal :
      (n id : ℕ) (s : System api) (p p' : Proposer kh) (acc : Accept) (ask : Option Accept)
      → Proposing api kh n id s p
      → AllFit api kh p
      → Turn api kh n s p p' ask
      → ask ≡ some acc
      → Proposal api n s acc × Owns id acc.ballot
  turn-Proposal n id s p p' acc ask h fits (asks a _ e filled) z =
      subst (λ x. Proposal api n s x × Owns id x.ballot) (some-injective a acc z)
        (
          asks-Proposal api kh n id s p p' a h fits e filled,
          asks-Owns api kh n id s p p' a h fits e,
        )
  turn-Proposal n id s p p' acc ask h fits (submits v) z = cc
  turn-Proposal n id s p p' acc ask h fits (opens now out _ lt e) z = cc
  turn-Proposal n id s p p' acc ask h fits (hears ack now out _ lt i e) z = cc
  turn-Proposal n id s p p' acc ask h fits (waits _ e) z = cc
  turn-Proposal n id s p p' acc ask h fits (counts ack r _ e) z = cc
  turn-Proposal n id s p p' acc ask h fits (yields ack now out _ e) z = cc
  turn-Proposal n id s p p' acc ask h fits (trims_to state) z = cc
  turn-Proposal n id s p p' acc ask h fits (delivers_to iid) z = cc
  turn-Proposal n id s p p' acc ask h fits (prepares_again timeout out iter iter' _ e) z = cc
  turn-Proposal n id s p p' acc ask h fits (asks_again timeout out iter iter' _ e) z = cc

  new-Proposing :
      (n id : ℕ) (s : System api) → s.requests ≡ [] → Proposing api kh n id s (proposer_new kh id n)
  unfolding proposer_new
  new-Proposing n id s silent = record {
    id_is = refl;
    acceptors = refl;
    prepares = λ k v e. absurd (cc (sym (ap (λ g. g k) kh.get-init) ∙ e));
    accepts = λ k v e. absurd (cc (sym (ap (λ g. g k) kh.get-init) ∙ e));
    closed = λ r i o. elim (subst (Memᴰ r) silent i) [ ];
  }

  asked_for-Reach :
      (n : ℕ) (s t : System api) (ask : Option Accept)
      → ((acc : Accept) → ask ≡ some acc → Proposal api n t acc)
      → Reach api n s t
      → Reach api n s (record t { requests = asked_for ask t.requests })
  asked_for-Reach n s t none p r = r
  asked_for-Reach n s t (some acc) p r = and_then r (proposes acc (p acc refl))

  asked_for-Mem :
      (ask : Option Accept) (rs : List Accept) (r : Accept) → Memᴰ r rs → Memᴰ r (asked_for ask rs)
  asked_for-Mem none rs r i = i
  asked_for-Mem (some acc) rs r i = Memᴰ.tail i

  asked_for-others :
      (id id' : ℕ) (ask : Option Accept) (rs : List Accept) (r : Accept)
      → id ≢ id'
      → ((acc : Accept) → ask ≡ some acc → Owns id acc.ballot)
      → Memᴰ r (asked_for ask rs)
      → Owns id' r.ballot
      → Memᴰ r rs
  asked_for-others id id' none rs r ne own i o = i
  asked_for-others id id' (some acc) rs r ne own (Memᴰ.tail i) o = i
  asked_for-others id id' (some acc) rs r ne own (Memᴰ.head e) o = absurd (
      ne (
        Owns-disjoint id id' r.ballot
          (subst (λ (x : Accept). Owns id x.ballot) (sym e) (own acc refl)) o))

module _ (api : StorageApi) (Valid : api.Handle → Type 0) (laws : StorageLaws api Valid)
    (kh : Khash Instance) where
  Move-Proposing :
      (n : ℕ) (c d : Campaign api kh)
      → AllProposing api kh n c
      → Move api kh n c d
      → AllProposing api kh n d
  Move-Proposing n c d h (acceptor_handles i m lt ok) id small =
      others-Proposing api kh n id c.system _ (c.proposers id)
        (put_node-sent api Valid laws c.system.nodes i m) (λ r j. j) (λ r j o. j) (h id small)
  Move-Proposing n c d h (proposer_turns id p ask small fits t) id' small' =
      elim (Bool-cases (id == id')) [
        | inl e ↦ rw e (
            subst
              (λ j.
                Proposing api kh n j
                  (record c.system { requests = asked_for api kh ask c.system.requests }) p)
              {x = id} {y = id'} (ground arith)
              (turn-Proposing api kh n id c.system (c.proposers id) p ask (h id small) small fits
                t))
        | inr e ↦ rw e (
            others-Proposing api kh n id' c.system _ (c.proposers id') (λ i m j. j)
              (asked_for-Mem api kh ask c.system.requests)
              (λ r j o.
                asked_for-others api kh id id' ask c.system.requests r (ground arith)
                  (λ acc z.
                    (turn-Proposal api kh n id c.system (c.proposers id) p acc ask (h id small) fits
                      t z).1)
                  j o)
              (h id' small'))
      ]

  Move-Reach :
      (n : ℕ) (c b d : Campaign api kh)
      → Move api kh n b d
      → Reach api n c.system b.system
      → AllProposing api kh n b
      → Reach api n c.system d.system
  Move-Reach n c b d (acceptor_handles i m lt ok) r h = and_then r (handles i m lt ok)
  Move-Reach n c b d (proposer_turns id p ask small fits t) r h =
      asked_for-Reach api kh n c.system b.system ask
        (λ acc z.
          (turn-Proposal api kh n id b.system (b.proposers id) p acc ask (h id small) fits t z).0)
        r

  -- Acceptors that start empty over a storage that meets its laws and may fail, and new proposers, each with
  -- its id, take only steps that `System.antt` allows, in any interleaving of messages, timeouts, trims and
  -- deliveries: every accept that is sent has a quorum of promises behind it and is under a ballot that was
  -- never used for its instance before. And what the tables of a proposer hold agrees with the messages
  -- that were sent. Ballots have to fit into 16 bits and instance numbers into 32, no value is empty,
  -- acceptors repeat only instances above their trim mark, and proposers get only promises that
  -- acceptors have sent.
  pub Moves-Reach :
      (n : ℕ) (c d : Campaign api kh)
      → Opening api kh Valid n c
      → Moves api kh n c d
      → Reach api n c.system d.system × AllProposing api kh n d
  Moves-Reach n c d o stay = (
    begin,
    λ id small.
        subst (Proposing api kh n id c.system) (sym (o.new id small))
          (new-Proposing api kh n id c.system o.start.unasked),
  )
  Moves-Reach n c d o (go_on {d = b} ms m) =
      let (r, h) = Moves-Reach n c b o ms in (Move-Reach n c b d m r h, Move-Proposing n b d h m)
