-- ===== src/ShardGrp.antt =====
-- A server of a shard group: src/shardkv/shardgrp/server.go, its messages
-- (src/shardkv/shardgrp/shardrpc/shardrpc.go) and the map from keys to shards
-- (src/shardkv/shardcfg/shardcfg.go, `Key2Shard`).
pub mod Types
pub mod Transfer
pub mod Ops
pub mod Saved
pub mod Invariant
pub mod Migration
