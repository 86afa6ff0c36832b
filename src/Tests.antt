-- ===== src/Tests.antt =====
-- The theorems on concrete inputs, over the tables of `Khash/Assoc.antt`.
mod Base
mod Acceptors
mod Learners
mod Proposers
mod Messages
mod Replicas
mod Storages
mod Systems
mod Repeats
mod Campaigns
