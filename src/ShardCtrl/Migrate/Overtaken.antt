-- ===== src/ShardCtrl/Migrate/Overtaken.antt =====
-- A controller whose configuration was overtaken by a later one.
use mit_distro_sys.Common.{ℕ, ◌<◌, Bool, none, some, ◌≡◌, refl, false, ltb, ◌==◌, arith, lt→ltb}
use mit_distro_sys.Kv.Api.{ok}
use mit_distro_sys.Kv.Replica.{Codec}
use mit_distro_sys.ShardGrp.Types.{KvServer, ShardState, FreezeShardReply, absent, n_shards}
use mit_distro_sys.ShardGrp.Transfer.{install_shard_state}
use mit_distro_sys.ShardGrp.Ops.{freeze_shard, install_shard, install_newer}
use mit_distro_sys.ShardGrp.Invariant.Shards.{in_range}
use mit_distro_sys.ShardCtrl.Migrate.{installing, after_freeze}

-- A group answers a FreezeShard of a lower number than its own with OK and no contents. The controller
-- goes on to install them, and if the destination does not have the shard and has a number lower than
-- the controller's, running that request stops the destination's process.
pub install_shard-none :
    (codec : Codec ShardState) (src dst : KvServer) (shid num : ℕ) (over : Bool)
    → shid < n_shards
    → num < src.cfg_num_by_shid shid
    → dst.cfg_num_by_shid shid < num
    → dst.shard_statuses shid ≡ absent
    → (reply : FreezeShardReply codec.Bytes) × (freeze_shard codec src
          (record { shard = shid; num = num })
        ≡ some (src, reply))
      × (after_freeze over reply.err reply.state ≡ installing none)
      × (install_shard codec dst (record { shard = shid; state = none; num = num }) ≡ none)
unfolding freeze_shard install_shard install_newer install_shard_state after_freeze
install_shard-none codec src dst shid num over lt old new off =
    let a : ltb (src.cfg_num_by_shid shid) num ≡ false = ground arith in
    let b : (num == src.cfg_num_by_shid shid) ≡ false = ground arith in
    (
      record { state = none; num = src.cfg_num_by_shid shid; err = ok },
      rw (in_range shid lt, a, b) refl,
      refl,
      rw (in_range shid lt, lt→ltb _ _ new, off, install_newer) refl,
    )
