-- ===== src/ShardGrp/Migration/Handover.antt =====
-- A whole handover of a shard, from a group that serves it to a group that does not have it.
