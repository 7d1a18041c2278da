-- ===== src/Tests.antt =====
-- Concrete runs of the modelled code, and the theorems applied to them.
mod Config
mod Election
mod Replication
mod Peer
mod Refused
mod Store
mod Submissions
mod Shards
mod Text
mod Delivery
mod Control
mod Clerks
mod Moves
mod Sharded
mod Console
mod Network
