-- ===== src/ShardGrp/Migration.antt =====
-- How a shard moves: the statuses of a shard and its configuration number over the operations.
use mit_distro_sys.Common.{nat_eq, string_eq, ℕ, ◌<◌}
use mit_distro_sys.ShardGrp.Types.{KvServer, ShardStatus, absent, serving, frozen}
pub mod Freezes
pub mod Transitions
pub mod Handover
pub mod Again

-- The life of a shard in a group, with its configuration number: a shard is frozen, and installed,
-- only at a higher number, and deleted at the number at which it was frozen.
pub data Move : ShardStatus → ℕ → ShardStatus → ℕ → Type 0 where
  stay : {s : ShardStatus} {n : ℕ} → Move s n s n
  freezes : {n m : ℕ} → n < m → Move serving n frozen m
  installs : {n m : ℕ} → n < m → Move absent n serving m
  deletes : {n : ℕ} → Move frozen n absent n

-- What an operation does to every shard.
abbrev pub Moves : KvServer → KvServer → Type 0
Moves kv kv' =
    (s : ℕ)
    → Move (kv.shard_statuses s) (kv.cfg_num_by_shid s) (kv'.shard_statuses s)
        (kv'.cfg_num_by_shid s)
