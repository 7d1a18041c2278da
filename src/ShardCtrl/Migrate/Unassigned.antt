-- ===== src/ShardCtrl/Migrate/Unassigned.antt =====
-- A shard that no group has.
use mit_distro_sys.Common.{ℕ, ◌≡◌, refl, false, none, some, Option}
use mit_distro_sys.Common.Assoc.{Assoc, lookup}
use mit_distro_sys.Kv.Api.{err_retry_exhausted}
use mit_distro_sys.ShardCfg.{ShardConfig, ℤ, int_eq}
use mit_distro_sys.ShardGrp.Types.{FreezeShardReply}
use mit_distro_sys.Clerk.Group.{Clerk, make_clerk, call_group, try_servers, group_freeze}
use mit_distro_sys.ShardCtrl.Migrate.{freezing, after_freeze, clerk_of_group}

-- If the configuration has no group with the id of a shard, and the controller has no clerk for that
-- id, the clerk that it makes gives up a FreezeShard without asking any server. While no later
-- configuration is current, the controller then stays where it was.
pub group_freeze-clerk_of_group :
    {B : Type 0} (controller_id : ℕ) (clerk_by_gid : Assoc ℤ Clerk) (cfg : ShardConfig) (gid : ℤ)
    (answers : ℕ → ℕ → Option (FreezeShardReply B))
    → lookup gid clerk_by_gid ≡ none
    → lookup gid cfg.groups ≡ none
    → (clerk : Clerk) × (reply : FreezeShardReply B) × ((clerk_of_group controller_id clerk_by_gid
          cfg gid).1
        ≡ clerk)
      × (group_freeze clerk answers ≡ some (clerk, reply))
      × (after_freeze false reply.err reply.state ≡ freezing)
unfolding clerk_of_group make_clerk group_freeze call_group try_servers after_freeze
group_freeze-clerk_of_group controller_id clerk_by_gid cfg gid answers new unknown = (
  make_clerk 0 controller_id,
  record { state = none; num = 0; err = err_retry_exhausted },
  rw (new, clerk_of_group) (rw unknown refl),
  refl,
  refl,
)
