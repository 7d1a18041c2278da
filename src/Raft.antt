-- ===== src/Raft.antt =====
-- One Raft peer, src/raft/raft.go: its state and messages, and a module for each group of handlers.
-- Every function is one critical section of the code, between a `mu.Lock()` and its `Unlock()`.
pub mod Types
pub mod Log
pub mod Append
pub mod Vote
pub mod Snapshot
pub mod Leader
pub mod Applier
pub mod Boot
pub mod Invariant
pub mod Terms
pub mod Steps
pub mod Cluster
pub mod Replicas
