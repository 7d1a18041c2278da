-- ===== src/Demo.antt =====
-- The console's management of a running cluster: shardkv-demo/cluster/manager.go (Manager; Gids,
-- Isolation and Recovery are proofs; Membership) and shardkv-demo/cluster/chaosmonkey.go (Chaos; Quorum and
-- Pending are proofs).
pub mod Manager
pub mod Gids
pub mod Members
pub mod Apart
pub mod Isolation
pub mod Recovery
pub mod Chaos
pub mod Quorum
pub mod Pending
pub mod Membership
