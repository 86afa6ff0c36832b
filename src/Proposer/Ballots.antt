-- ===== src/Proposer/Ballots.antt =====
-- The ballots of a proposer: its id is their last decimal digit, as long as they fit a message's 16 bits.
use libpaxos.Prelude.{ℕ, ◌+◌, ◌%◌, ◌<◌, ◌≡◌, ◌⊎◌, arith, sym, ◌∙◌}
use libpaxos.Proposer.Instances.{
  Instance, max_n_of_proposers, proposer_next_ballot, proposer_preempt,
}

-- A ballot of the proposer `id`: positive, and `id` modulo the greatest number of proposers.
abbrev pub Owns : ℕ → ℕ → Type 0
Owns id ballot = (0 < ballot) × (ballot % max_n_of_proposers ≡ id)

-- After no ballot, or one of its own, the next ballot of a proposer is its own and is higher, while the counter
-- does not wrap.
pub next_ballot-Owns :
    (id b : ℕ)
    → id < max_n_of_proposers
    → (b ≡ 0) ⊎ Owns id b
    → b + max_n_of_proposers < 4294967296
    → Owns id (proposer_next_ballot id b) × (b < proposer_next_ballot id b)
unfolding proposer_next_ballot
next_ballot-Owns id b lt h small = ground arith

-- Two proposers with different ids never own the same ballot.
pub Owns-disjoint : (id id' ballot : ℕ) → Owns id ballot → Owns id' ballot → id ≡ id'
Owns-disjoint id id' ballot a b = sym a.1 ∙ b.1

-- `proposer_preempt` of an instance with an own ballot sends a prepare for the same instance under a higher
-- ballot of its own, which is also the instance's new ballot, while the ballot fits into 16 bits.
preempt-Owns :
    (id : ℕ) (inst : Instance) (now : ℕ)
    → id < max_n_of_proposers
    → Owns id inst.ballot
    → inst.ballot + max_n_of_proposers < 65536
    → let (out, inst') = proposer_preempt id inst now in
      Owns id out.ballot
      × (out.ballot ≡ inst'.ballot)
      × (out.iid ≡ inst.iid)
      × (inst.ballot < inst'.ballot)
unfolding proposer_preempt proposer_next_ballot
preempt-Owns id inst now lt o small = ground arith
