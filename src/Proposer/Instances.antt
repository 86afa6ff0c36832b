-- ===== src/Proposer/Instances.antt =====
-- `struct instance` of paxos/proposer.c and the functions on it. Ballots have 32 bits here and 16 in a
-- message. `now` is what `gettimeofday` gives, in seconds. A function is `none` where an `assert` fails, a
-- flag outside a quorum's array is read, or a null pointer is followed.
use libpaxos.Prelude.{
  ℕ, ◌+◌, Bool, true, false, ◌&&◌, Option, none, some, [], ◌∷◌, leb, ltb, ◌==◌, length, u16, u32,
  if◌then◌else◌, ◌>>=◌,
}
use libpaxos.Types.{Value, Prepare, Promise, Accept, prepare_of}
use libpaxos.Quorum.{Quorum}
use libpaxos.Quorum

pub record Instance : Type 0 where
  pub iid : ℕ
  pub ballot : ℕ
  pub value : Option Value
  pub promised_value : Option Value
  pub value_ballot : ℕ
  pub quorum : Quorum
  pub created_at : ℕ

-- MAX_N_OF_PROPOSERS
abbrev pub max_n_of_proposers : ℕ
max_n_of_proposers = 10

-- `proposer_next_ballot`, for the proposer `id`.
unfoldable pub proposer_next_ballot : ℕ → ℕ → ℕ
proposer_next_ballot id b =
    if ltb 0 b then u32 (max_n_of_proposers + b) else u32 (max_n_of_proposers + id)

unfoldable pub instance_new : ℕ → ℕ → ℕ → ℕ → Option Instance
instance_new iid ballot acceptors now =
    if ltb 0 iid
    then some (record {
      iid = iid;
      ballot = ballot;
      value_ballot = 0;
      value = none;
      promised_value = none;
      created_at = now;
      quorum = Quorum.init acceptors;
    })
    else none

abbrev pub is_set : Option Value → Bool
is_set none = false
is_set (some v) = true

abbrev pub instance_has_value : Instance → Bool
instance_has_value inst = is_set inst.value

abbrev pub instance_has_promised_value : Instance → Bool
instance_has_promised_value inst = is_set inst.promised_value

-- `now - created_at >= timeout` over the integers.
unfoldable pub instance_has_timedout : ℕ → Instance → ℕ → Bool
instance_has_timedout proposer_timeout inst now = leb (inst.created_at + proposer_timeout) now

-- `proposer_preempt`, with the prepare that it writes.
unfoldable pub proposer_preempt : ℕ → Instance → ℕ → Prepare × Instance
unfolding proposer_next_ballot
proposer_preempt id inst now =
    let ballot = proposer_next_ballot id inst.ballot in
    (
      prepare_of inst.iid ballot,
      record inst {
        ballot = ballot;
        value_ballot = 0;
        promised_value = none;
        quorum = Quorum.clear inst.quorum;
        created_at = now;
      },
    )

-- The value of a promise from a new acceptor.
unfoldable pub save_promised : Instance → Promise → Instance
save_promised inst ack =
    if ltb 0 (length ack.value) && ltb inst.value_ballot ack.value_ballot
    then record inst { value_ballot = ack.value_ballot; promised_value = some ack.value }
    else inst

-- What `proposer_receive_promise` does to the instance that it finds: the new prepare, if it was
-- preempted, and the instance.
unfoldable pub instance_receive_promise :
    ℕ → Instance → Promise → ℕ → Option (Option Prepare × Instance)
instance_receive_promise id inst ack now =
    let preempted = proposer_preempt id inst now in
    if ltb ack.ballot inst.ballot
    then some (none, inst)
    else if ltb inst.ballot ack.ballot
    then some (some preempted.0, preempted.1)
    else do
      (new, quorum) ← Quorum.add inst.quorum ack.aid
      some (none, if new then save_promised (record inst { quorum = quorum }) ack else inst)

unfoldable pub instance_to_accept : Instance → Option Accept
instance_to_accept inst = do
  v ← if instance_has_promised_value inst then inst.promised_value else inst.value
  some (record {
    iid = inst.iid;
    ballot = u16 inst.ballot;
    value_ballot = u16 inst.ballot;
    aid = 0;
    value = v;
  })

-- `paxos_value_cmp` returns 0: the lengths agree, and all bytes.
unfoldable pub same_value : Value → Value → Bool
same_value [] [] = true
same_value [] (y ∷ ys) = false
same_value (x ∷ xs) [] = false
same_value (x ∷ xs) (y ∷ ys) = x == y && same_value xs ys
