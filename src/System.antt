-- ===== src/System.antt =====
-- Acceptors and proposers together: acceptors that handle messages in any order, and accept requests as
-- paxos/proposer.c makes them. The network may lose, repeat and reorder messages: an acceptor handles any
-- prepare, repeat or trim, and any accept that was requested before; nothing has to arrive.
-- `System/Votes.antt` holds the invariant, which `System/Requests.antt` and `System/Agreement.antt` use.
-- `System/Instances.antt` and the files after it are about the proposers themselves, with their tables;
-- `System/Campaigns.antt` puts them together, and `System/Delivery.antt` adds the learners.
pub mod Votes
pub mod Requests
pub mod Instances
pub mod Proposers
pub mod Turns
pub mod Asks
pub mod Returns
pub mod Renewals
pub mod Campaigns
pub mod Agreement
pub mod Delivery
use mathlib.Core.List.{Memᴰ}
use libpaxos.Prelude.{
  ℕ, ◌≡◌, ◌≢◌, ◌<◌, ◌^◌, ◌==◌, if◌then◌else◌, true, Option, none, some, List, [], ◌∷◌, length, u16,
}
use libpaxos.Types.{Value, Promise, Accept, Message, promise}
use libpaxos.Quorum
use libpaxos.Storage.{StorageApi}
use libpaxos.Acceptor.{Acceptor}
use libpaxos.Acceptor.Store.{recs}
use libpaxos.Acceptor.Promises.{Input, accepts}
use libpaxos.Acceptor.History.{push, answer, Untrimmed}
use libpaxos.Proposer.Instances.{Instance, instance_new, instance_to_accept}
use libpaxos.Proposer.Promises.{receive_all}

module _ (api : StorageApi) where
  -- An acceptor, and all that it has sent.
  pub record Node : Type 0 where
    pub acceptor : Acceptor api
    pub sent : List Message

  pub record System : Type 0 where
    pub nodes : ℕ → Node
    pub requests : List Accept

  unfoldable pub handle : Node → Input → Node
  handle nd m =
      let (out, a) = answer api nd.acceptor m in record { acceptor = a; sent = push out nd.sent }

  abbrev pub put_node : (ℕ → Node) → ℕ → Node → ℕ → Node
  put_node nodes i nd j = if i == j then nd else nodes j

  -- Promises that the acceptors they name have sent.
  abbrev pub AllSent : ℕ → (ℕ → Node) → ℕ → ℕ → List Promise → Type 0
  AllSent n nodes iid ballot ps =
      (p : Promise)
      → Memᴰ p ps
      → (p.aid < n) × (p.iid ≡ iid) × (p.ballot ≡ ballot) × Memᴰ (promise p) (nodes p.aid).sent

  -- How a proposer comes to an accept request: an instance, new or with the value that waits for it, takes
  -- promises under its ballot until its quorum is reached, gets a client's value, if there is one, and
  -- is asked for its accept. The value is not empty.
  pub record Proposal (n : ℕ) (s : System) (acc : Accept) : Type 0 where
    pub id : ℕ
    pub ballot : ℕ
    pub created : ℕ
    pub now : ℕ
    pub promises : List Promise
    pub started : Instance
    pub prepared : Instance
    pub waiting : Option Value
    pub client : Option Value
    pub sent : AllSent n s.nodes started.iid ballot promises
    pub starts : instance_new started.iid ballot n created ≡ some started
    pub receives : receive_all id (record started { value = waiting }) promises now ≡ some prepared
    pub reached : Quorum.reached prepared.quorum ≡ true
    pub filled : 0 < length acc.value
    pub asks : instance_to_accept (record prepared { value = client }) ≡ some acc
    pub positive : 0 < ballot
    pub fits : ballot < 2 ^ 16
    pub fresh : (r : Accept) → Memᴰ r s.requests → r.iid ≡ started.iid → r.ballot ≢ ballot

  -- What an acceptor may handle: of accepts those that were requested.
  abbrev pub Arrives : System → ℕ → Input → Type 0
  Arrives s i (accepts acc) = Memᴰ acc s.requests
  Arrives s i m = Untrimmed api (s.nodes i).acceptor m

  pub data Step (n : ℕ) (s : System) : System → Type 0 where
    handles :
        (i : ℕ) (m : Input)
        → i < n
        → Arrives s i m
        → Step n s (record s { nodes = put_node s.nodes i (handle (s.nodes i) m) })
    proposes :
        (acc : Accept) → Proposal n s acc → Step n s (record s { requests = acc ∷ s.requests })

  -- Acceptors with their ids, empty storages, and nothing sent.
  pub record Start (Valid : api.Handle → Type 0) (n : ℕ) (s : System) : Type 0 where
    pub few : n < 2 ^ 16
    pub ids : (i : ℕ) → i < n → (s.nodes i).acceptor.id ≡ i
    pub valid : (i : ℕ) → i < n → Valid (s.nodes i).acceptor.store
    pub empty : (i : ℕ) → i < n → (j : ℕ) → recs api (s.nodes i).acceptor j ≡ none
    pub silent : (i : ℕ) → i < n → (s.nodes i).sent ≡ []
    pub unasked : s.requests ≡ []

  pub data Reach (n : ℕ) (s : System) : System → Type 0 where
    begin : Reach n s s
    and_then : {t u : System} → Reach n s t → Step n t u → Reach n s u
