-- ===== src/Lib.antt =====
-- The core of libpaxos: the state machines of Multi-Paxos in paxos/, and the handlers, the message format
-- and the tables of peers in evpaxos/ that make programs of them.
--
-- Acceptors, learners and proposers exchange the messages of `Types.antt`. A proposer prepares instances,
-- collects promises, and asks the acceptors to accept a value; an acceptor keeps its promises and votes in a
-- storage; a learner collects accepted messages, delivers the instances in order, and can itself run the first
-- phase for an instance that is missing. Each is a struct with functions that take a message and may
-- write another one; here each is a record, and a function returns the message, if any, and the new record.
--
-- The files and what they model:
--   * `Types.antt`: paxos/include/paxos_types.h.
--   * `Quorum.antt`: paxos/quorum.c, and `paxos_quorum` of paxos/paxos.c. `quorum_add` is `Quorum.add`, and
--     so on.
--   * `Carray.antt`: paxos/carray.c, the queue of client values.
--   * `Khash.antt`: the interface of paxos/include/khash.h, a vendored library that the code calls and
--     that is a parameter here, with its documented behaviour as laws; `Khash/Assoc.antt` meets them.
--   * `Storage.antt`: paxos/include/storage.h and paxos/storage.c, the interface between an acceptor
--     and its storage, with the laws that an acceptor relies on. `Storage/Mem.antt`: paxos/storage_mem.c.
--     `Storage/Records.antt`: paxos/storage_utils.c, over a parameter for the layout of a struct.
--     `Storage/Lmdb.antt`: paxos/storage_lmdb.c, over a parameter for the LMDB library, whose documented
--     behaviour is the laws in `Storage/Lmdb/Laws.antt`; `Storage/Lmdb/Cells.antt` meets them.
--   * `Acceptor.antt`: paxos/acceptor.c, over any storage. `acceptor_receive_prepare` is `receive_prepare`,
--     and so on.
--   * `Learner.antt`, `Learner/Instances.antt` and `Learner/Gaps.antt`: paxos/learner.c.
--   * `Proposer.antt`, `Proposer/Instances.antt` and `Proposer/Timeouts.antt`: paxos/proposer.c.
--   * `Evpaxos/Acceptors.antt`, `Evpaxos/Learners.antt` and `Evpaxos/Proposers.antt`: the handlers of
--     evpaxos/evacceptor.c, evpaxos/evlearner.c and evpaxos/evproposer.c, around these structs. What a
--     handler sends is part of its result.
--   * `Evpaxos/Msgpack.antt`: the interface of the msgpack library, a parameter with its documented
--     behaviour as laws; `Evpaxos/Packing/Plain.antt` meets them. `Evpaxos/Packing.antt`:
--     evpaxos/paxos_types_pack.c and evpaxos/message.c over it.
--   * `Evpaxos/Peers.antt`: the tables, subscriptions and the input loop of evpaxos/peers.c.
--   * `Evpaxos/Replicas.antt`: evpaxos/evreplica.c, where an acceptor, a proposer and a learner share the
--     peers and the proposer follows what the learner delivers; `Evpaxos/Replicas/Sending.antt` turns what is
--     sent to all acceptors into bytes of their connections.
--   * `System.antt`: acceptors and accept requests together, over a network that loses, repeats and reorders
--     messages. `System/Campaigns.antt` does the same with the proposers of paxos/proposer.c themselves;
--     a turn of a proposer (`System/Proposers.antt`) is one call of one of its functions.
--     `System/Delivery.antt` adds the learners of paxos/learner.c.
--   * `Tests.antt`: the theorems on concrete inputs. `Tests/Repeats.antt` is a run in which two learners
--     deliver different values, because one of them gets a repeated record.
--
-- How the code is read. Machine integers are natural numbers; a field that is assigned a sum or a value of
-- a wider type wraps around explicitly, by `u16` and `u32`. C ints that count acceptors or cells are
-- taken not to overflow. Pointers to values are copies or owned by one struct, so a value is a list of bytes.
-- A pointer that may be NULL is an `Option`. A pointer that a table keeps is written through, and `Khash.write`
-- says when. A failed `assert`, a read outside an array and a missing memory for a table are `none`. The time
-- of day is an argument.
--
-- Bounds. `push_within` runs on a depth: `carray_push_back` calls `carray_grow`, which calls `carray_push_back`
-- for an array of twice the size. One level is enough, because the new array does not fill up, and
-- the theorem on it holds for every depth of at least one. `evlearner_deliver_next_closed` runs on fuel, one
-- round for every instance in the table and one more, since each delivery deletes an instance. The loop of
-- `try_accept` has the same fuel over the instances in phase 1, since each accept takes one of them away,
-- and so have the two loops of `evproposer_check_timeouts`, since an instance that was sent again has
-- not timed out. `on_read` has a round for every byte and one more, since a message takes a byte at least.
-- The loop of `lmdb_storage_trim` has a round for every key up to the instance and one more, since a
-- cursor goes up.
--
-- The system. A vote is an accepted message whose two ballots are the same. What an acceptor repeats after
-- a later promise is none: it carries the later ballot, and learners that count it may disagree. Proposers do
-- not restart; `proposer_prepare_instance`, which only p4xos/ calls, is not a turn, since it may start an
-- instance a second time under its first ballot.
--
-- Not modelled: memory management, which changes no result here; log output; the configuration, and the
-- parser of its files; sockets, timers and the event loop, which are calls of libevent; the opening and
-- closing of an LMDB environment; and the programs in net/, p4xos/, dppaxos/, caans/, datastore/ and
-- sample/, which are network and device code.
pub mod Prelude
pub mod Types
pub mod Quorum
pub mod Khash
pub mod Carray
pub mod Storage
pub mod Acceptor
pub mod Learner
pub mod System
pub mod Proposer
pub mod Evpaxos
pub mod Tests
