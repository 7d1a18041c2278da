-- ===== src/ShardCtrl/Migrate.antt =====
-- One shard in `migrateShards` (src/shardkv/shardctrler/shardctrler.go): any number of controllers
-- move it from one group to another for the same configuration.
use mit_distro_sys.ShardCtrl.{ConfigText, put_config}
use mit_distro_sys.ShardCfg.{ℤ, int_eq, same_int, ShardConfig}
use mit_distro_sys.Common.{
  length, ℕ, nat_eq, Bool, Option, none, some, ◌≡◌, if◌then◌else◌, update, suc, true, false, List,
  [], ◌∷◌, ◌>>=◌, String,
}
use mit_distro_sys.Kv.Api.{Err, err_retry_exhausted}
use mit_distro_sys.Kv.Server.{KvServer as ConfigStore}
use mit_distro_sys.Kv.Replica.{Codec}
use mit_distro_sys.ShardGrp.Types.{
  KvServer, ShardState, FreezeShardReply, InstallShardReply, DeleteShardReply,
}
use mit_distro_sys.ShardGrp.Ops.{freeze_shard, install_shard, delete_shard}
use mit_distro_sys.Common.Assoc.{Assoc, lookup, insert}
use mit_distro_sys.Clerk.Group.{Clerk, make_clerk}
pub mod Moves
pub mod Route
pub mod Steps
pub mod Arrival
pub mod Overtaken
pub mod Unassigned

-- Where the goroutine of a shard stands: in one of its three loops, at its end, or superseded.
pub data Stage (B : Type 0) : Type 0 where
  freezing : Stage B
  installing : Option B → Stage B
  deleting : Stage B
  moved : Stage B
  superseded : Stage B

-- The three loops after a call. `over` is what `isSuperseded` answers.
unfoldable pub after_freeze : {B : Type 0} → Bool → Err → Option B → Stage B
after_freeze over err_retry_exhausted state = if over then superseded else freezing
after_freeze over _ state = installing state

unfoldable pub after_install : {B : Type 0} → Bool → Option B → Err → Stage B
after_install over state err_retry_exhausted = if over then superseded else installing state
after_install over state _ = deleting

unfoldable pub after_delete : {B : Type 0} → Bool → Err → Stage B
after_delete over err_retry_exhausted = if over then superseded else deleting
after_delete over _ = moved

module _ (codec : Codec ShardState) (shid num : ℕ) where
  -- The servers of the two groups that run the requests, and the controllers.
  pub record Handover : Type 0 where
    pub src : KvServer
    pub dst : KvServer
    pub movers : ℕ → Stage codec.Bytes

  -- A step of a controller. A call is answered, or its clerk gives up after the group ran the request
  -- (`lost`), or before (`exhausted`). A controller that crashes is started again (`start`).
  pub data MoveStep (s t : Handover) : Type 0 where
    start : (i : ℕ) → t ≡ record s { movers = update s.movers i freezing } → MoveStep s t
    freeze_answered :
        (i : ℕ) (over : Bool) (src : KvServer) (reply : FreezeShardReply codec.Bytes)
        → s.movers i ≡ freezing
        → freeze_shard codec s.src (record { shard = shid; num = num }) ≡ some (src, reply)
        → t ≡ record s {
          src = src;
          movers = update s.movers i (after_freeze over reply.err reply.state);
        }
        → MoveStep s t
    freeze_lost :
        (i : ℕ) (over : Bool) (src : KvServer) (reply : FreezeShardReply codec.Bytes)
        → s.movers i ≡ freezing
        → freeze_shard codec s.src (record { shard = shid; num = num }) ≡ some (src, reply)
        → t ≡ record s {
          src = src;
          movers = update s.movers i (after_freeze over err_retry_exhausted none);
        }
        → MoveStep s t
    freeze_exhausted :
        (i : ℕ) (over : Bool)
        → s.movers i ≡ freezing
        → t ≡ record s { movers = update s.movers i (after_freeze over err_retry_exhausted none) }
        → MoveStep s t
    install_answered :
        (i : ℕ) (over : Bool) (state : Option codec.Bytes) (dst : KvServer)
        (reply : InstallShardReply)
        → s.movers i ≡ installing state
        → install_shard codec s.dst (record { shard = shid; state = state; num = num })
          ≡ some (dst, reply)
        → t
          ≡ record s { dst = dst; movers = update s.movers i (after_install over state reply.err) }
        → MoveStep s t
    install_lost :
        (i : ℕ) (over : Bool) (state : Option codec.Bytes) (dst : KvServer)
        (reply : InstallShardReply)
        → s.movers i ≡ installing state
        → install_shard codec s.dst (record { shard = shid; state = state; num = num })
          ≡ some (dst, reply)
        → t ≡ record s {
          dst = dst;
          movers = update s.movers i (after_install over state err_retry_exhausted);
        }
        → MoveStep s t
    install_exhausted :
        (i : ℕ) (over : Bool) (state : Option codec.Bytes)
        → s.movers i ≡ installing state
        → t ≡ record s { movers = update s.movers i (after_install over state err_retry_exhausted) }
        → MoveStep s t
    delete_answered :
        (i : ℕ) (over : Bool) (src : KvServer) (reply : DeleteShardReply)
        → s.movers i ≡ deleting
        → delete_shard s.src (record { shard = shid; num = num }) ≡ some (src, reply)
        → t ≡ record s { src = src; movers = update s.movers i (after_delete over reply.err) }
        → MoveStep s t
    delete_lost :
        (i : ℕ) (over : Bool) (src : KvServer) (reply : DeleteShardReply)
        → s.movers i ≡ deleting
        → delete_shard s.src (record { shard = shid; num = num }) ≡ some (src, reply)
        → t ≡ record s {
          src = src;
          movers = update s.movers i (after_delete over err_retry_exhausted);
        }
        → MoveStep s t
    delete_exhausted :
        (i : ℕ) (over : Bool)
        → s.movers i ≡ deleting
        → t ≡ record s { movers = update s.movers i (after_delete over err_retry_exhausted) }
        → MoveStep s t

  abbrev pub start_handover : KvServer → KvServer → Handover
  start_handover src dst = record { src = src; dst = dst; movers = λ i. freezing }

  pub data Moving (src dst : KvServer) : Handover → Type 0 where
    begin : Moving src dst (start_handover src dst)
    later : {s t : Handover} → Moving src dst s → MoveStep s t → Moving src dst t

-- The shards that `migrateShards` moves, from which group and to which. `none` is an index out of range.
unfoldable pub moves_from : ℕ → List ℤ → List ℤ → Option (List (ℕ × ℤ × ℤ))
moves_from shid [] news = some []
moves_from shid (old ∷ olds) [] = none
moves_from shid (old ∷ olds) (new ∷ news) = moves_from (suc shid) olds news >>= λ rest.
    some (if same_int new old then rest else (shid, old, new) ∷ rest)

unfoldable pub moves_of : ShardConfig → ShardConfig → Option (List (ℕ × ℤ × ℤ))
unfolding moves_from
moves_of old new = moves_from 0 old.shards new.shards

-- Whether a goroutine set `isSuperseded`, and the end of `migrateShards`.
abbrev pub any_superseded : {B : Type 0} → List (Stage B) → Bool
any_superseded [] = false
any_superseded (superseded ∷ rest) = true
any_superseded (_ ∷ rest) = any_superseded rest

unfoldable pub end_migration :
    {B : Type 0} → ConfigText → List (Stage B) → ConfigStore → ShardConfig → ℕ → ConfigStore × Bool
unfolding put_config
end_migration text stages store new ver =
    if any_superseded stages
    then (store, false)
    else ((put_config text store "currentConfig" new ver).0, true)

abbrev servers_of : Option (List String) → List String
servers_of none = []
servers_of (some servers) = servers

-- `clerk`: the controller's clerk of a group, kept by group id alone.
unfoldable pub clerk_of_group : ℕ → Assoc ℤ Clerk → ShardConfig → ℤ → Assoc ℤ Clerk × Clerk
unfolding make_clerk
clerk_of_group controller_id clerk_by_gid cfg gid = elim (lookup gid clerk_by_gid) [
  | none ↦
      let clerk = make_clerk (length (servers_of (lookup gid cfg.groups))) controller_id in
      (insert gid clerk clerk_by_gid, clerk)
  | some clerk ↦ (clerk_by_gid, clerk)
]
