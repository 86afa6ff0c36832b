-- ===== src/Quorum.antt =====
-- paxos/quorum.c and paxos_quorum of paxos/paxos.c: which acceptors have answered, and whether they
-- are a majority. `Quorum/Count.antt` proves the count, `Quorum/Majority.antt` that majorities
-- meet, `Quorum/Overlap.antt` the same of lists of ids.
pub mod Count
pub mod Majority
pub mod Overlap
use libpaxos.Prelude.{
  ℕ, ◌+◌, ◌/◌, Bool, true, false, Option, none, some, List, get_elem?, set, replicate, ◌==◌, leb,
  if◌then◌else◌,
}

-- How many of `acceptors` acceptors make a majority.
unfoldable pub paxos_quorum : ℕ → ℕ
paxos_quorum acceptors = acceptors / 2 + 1

-- `acceptor_ids` is the array of `acceptors` flags.
pub record Quorum : Type 0 where
  pub count : ℕ
  pub quorum : ℕ
  pub acceptors : ℕ
  pub acceptor_ids : List ℕ

-- `memset` clears the `acceptors` flags.
unfoldable pub clear : Quorum → Quorum
clear q = record q { count = 0; acceptor_ids = replicate q.acceptors 0 }

-- The flags that `malloc` returns are cleared before they are read.
unfoldable pub init : ℕ → Quorum
unfolding paxos_quorum clear
init acceptors = clear (record {
  count = 0;
  quorum = paxos_quorum acceptors;
  acceptors = acceptors;
  acceptor_ids = replicate acceptors 0;
})

-- `none` is an access behind the end of `acceptor_ids`, which the code does not check. The flag says
-- whether the id is new.
unfoldable pub add : Quorum → ℕ → Option (Bool × Quorum)
add q id = elim (get_elem? q.acceptor_ids id) [
  | none ↦ none
  | some flag ↦
      if flag == 0
      then some (true, record q { count = q.count + 1; acceptor_ids = set q.acceptor_ids id 1 })
      else some (false, q)
]

unfoldable pub reached : Quorum → Bool
reached q = leb q.quorum q.count
