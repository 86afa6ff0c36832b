-- ===== src/Learner/Instances.antt =====
-- `struct instance` of paxos/learner.c and the functions on it: the accepted messages of one instance,
-- one slot for each acceptor. `acks` is the array of `acceptors` slots that `instance_new`
-- makes, so the loops over it are recursions on the list; `none` is a null pointer.
use libpaxos.Prelude.{
  ℕ, ◌+◌, Bool, true, false, Option, none, some, List, [], ◌∷◌, leb, ◌==◌, get_elem?, set,
  replicate, if◌then◌else◌,
}
use libpaxos.Types.{Accepted}
use libpaxos.Quorum.{paxos_quorum}

pub record Instance : Type 0 where
  pub iid : ℕ
  pub last_update_ballot : ℕ
  pub acks : List (Option Accepted)
  pub final_value : Option Accepted

unfoldable pub instance_new : ℕ → Instance
instance_new acceptors = record {
  iid = 0;
  last_update_ballot = 0;
  acks = replicate acceptors none;
  final_value = none;
}

-- The loop of `instance_has_quorum`, from slot `i` on: `count` and `a_valid_index`, `none` for -1.
unfoldable pub count_agreeing : ℕ → List (Option Accepted) → ℕ → ℕ → Option ℕ → ℕ × Option ℕ
count_agreeing ballot [] i count a_valid_index = (count, a_valid_index)
count_agreeing ballot (none ∷ acks) i count a_valid_index =
    count_agreeing ballot acks (i + 1) count a_valid_index
count_agreeing ballot (some curr_ack ∷ acks) i count a_valid_index =
    count_agreeing ballot acks (i + 1) (if curr_ack.ballot == ballot then count + 1 else count)
      (if curr_ack.ballot == ballot then some i else a_valid_index)

-- `acks[i]`; there is no slot -1, and none behind the end.
abbrev pub ack_at : List (Option Accepted) → Option ℕ → Option Accepted
ack_at acks none = none
ack_at acks (some i) = elim (get_elem? acks i) [ none ↦ none | some slot ↦ slot ]

-- The function stores the value that it finds, so the instance is returned too.
unfoldable pub count_quorum : Instance → ℕ → Option Accepted → Bool × Instance
unfolding count_agreeing paxos_quorum
count_quorum inst acceptors (some v) = (true, inst)
count_quorum inst acceptors none =
    let (count, a_valid_index) = count_agreeing inst.last_update_ballot inst.acks 0 0 none in
    if leb (paxos_quorum acceptors) count
    then (true, record inst { final_value = ack_at inst.acks a_valid_index })
    else (false, inst)

unfoldable pub instance_has_quorum : Instance → ℕ → Bool × Instance
unfolding count_quorum
instance_has_quorum inst acceptors = count_quorum inst acceptors inst.final_value

unfoldable pub instance_add_accept : Instance → Accepted → Instance
instance_add_accept inst accepted = record inst {
  acks = set inst.acks accepted.aid (some accepted);
  last_update_ballot = accepted.ballot;
}

-- `prev_accepted != NULL && prev_accepted->ballot >= ballot`
abbrev pub newer_or_equal : Option Accepted → ℕ → Bool
newer_or_equal none ballot = false
newer_or_equal (some prev) ballot = leb ballot prev.ballot

-- What the first message to an instance sets.
unfoldable pub first_message : Instance → Accepted → Instance
first_message inst accepted =
    if inst.iid == 0
    then record inst { iid = accepted.iid; last_update_ballot = accepted.ballot }
    else inst

unfoldable pub instance_update : Instance → Accepted → ℕ → Instance
unfolding first_message instance_has_quorum instance_add_accept
instance_update inst accepted acceptors =
    let (closed, inst') = instance_has_quorum (first_message inst accepted) acceptors in
    if closed
    then inst'
    else if leb acceptors accepted.aid
    then inst'
    else if newer_or_equal (ack_at inst'.acks (some accepted.aid)) accepted.ballot
    then inst'
    else instance_add_accept inst' accepted
