-- ===== src/Evpaxos.antt =====
-- evpaxos/: the handlers that the event loop calls, around the state machines of paxos/, the message format,
-- and the tables of peers. What a handler sends, or hands to the application, is a value in its result;
-- sockets, timers and the event loop are not modelled.
pub mod Acceptors
pub mod Learners
pub mod Msgpack
pub mod Packing
pub mod Peers
pub mod Proposers
pub mod Replicas
