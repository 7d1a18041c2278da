-- ===== src/Clerk.antt =====
-- The clerks, which send requests until they have an answer: src/kvsrv/client.go (Single),
-- src/kvraft/client.go and src/shardkv/shardgrp/client.go (Group), src/shardkv/client.go (Sharded).
pub mod Single
pub mod Group
pub mod Sharded
