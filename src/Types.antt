-- ===== src/Types.antt =====
-- paxos/include/paxos_types.h: the messages. The fields iid, aid of a state and trim_iid hold 32 bits,
-- the ballots and the other acceptor ids 16. A value is the list of its bytes, whose length is
-- paxos_value_len; the bytes are copied wherever the code copies them, so a value has no address.
use libpaxos.Prelude.{ℕ, List, [], u16}

abbrev pub Value : Type 0
Value = List ℕ

pub record Prepare : Type 0 where
  pub iid : ℕ
  pub ballot : ℕ
  pub value_ballot : ℕ
  pub aid : ℕ
  pub value : Value

pub record Promise : Type 0 where
  pub iid : ℕ
  pub ballot : ℕ
  pub value_ballot : ℕ
  pub aid : ℕ
  pub value : Value

pub record Accept : Type 0 where
  pub iid : ℕ
  pub ballot : ℕ
  pub value_ballot : ℕ
  pub aid : ℕ
  pub value : Value

pub record Accepted : Type 0 where
  pub iid : ℕ
  pub ballot : ℕ
  pub value_ballot : ℕ
  pub aid : ℕ
  pub value : Value

pub record Preempted : Type 0 where
  pub iid : ℕ
  pub ballot : ℕ
  pub value_ballot : ℕ
  pub aid : ℕ
  pub value : Value

pub record Repeat : Type 0 where
  pub from : ℕ
  pub to : ℕ

pub record Trim : Type 0 where
  pub iid : ℕ

pub record AcceptorState : Type 0 where
  pub aid : ℕ
  pub trim_iid : ℕ

-- `struct paxos_message`: its type and its union.
pub data Message : Type 0 where
  prepare : Prepare → Message
  promise : Promise → Message
  accept : Accept → Message
  accepted : Accepted → Message
  preempted : Preempted → Message
  repeat : Repeat → Message
  trim : Trim → Message
  acceptor_state : AcceptorState → Message
  client_value : Value → Message

-- What `memset (&acc, 0, sizeof(paxos_accepted))` gives.
abbrev pub no_accepted : Accepted
no_accepted = record { iid = 0; ballot = 0; value_ballot = 0; aid = 0; value = [] }

-- `(paxos_prepare) {iid, ballot}`: the fields that are not listed are zero.
abbrev pub prepare_of : ℕ → ℕ → Prepare
prepare_of iid ballot = record {
  iid = iid;
  ballot = u16 ballot;
  value_ballot = 0;
  aid = 0;
  value = [];
}
