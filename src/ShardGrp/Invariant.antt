-- ===== src/ShardGrp/Invariant.antt =====
-- What holds of a shard server between two operations.
use mit_distro_sys.Common.{ℕ, ◌<◌, ◌≡◌, true, some, Option}
use mit_distro_sys.Kv.Replica.{Codec}
use mit_distro_sys.Kv.Api.{KvMap, PutArgs, GetArgs}
use mit_distro_sys.ShardGrp.Types.{
  KvServer, ShardState, ClientSet, Request, get, put, freeze, install, delete, unknown, n_shards,
  FreezeShardArgs, InstallShardArgs, DeleteShardArgs,
}
use mit_distro_sys.ShardGrp.Transfer.{entries}
use mit_distro_sys.ShardGrp.Ops.{is_serving}
use mit_distro_sys.ShardGrp.Transfer.Tables.{Known}
pub mod Puts
pub mod Shards
pub mod Operations

-- A shard that is served has its maps, and each client of a shard has a last Put.
pub record IsWellFormed (kv : KvServer) : Type 0 where
  pub has_map :
      (s : ℕ) → is_serving (kv.shard_statuses s) ≡ true → (m : KvMap) × (kv.kvm s ≡ some m)
  pub has_clients :
      (s : ℕ)
      → is_serving (kv.shard_statuses s) ≡ true
      → (cs : ClientSet) × (kv.shard_clients s ≡ some cs)
  pub known : (s : ℕ) → Known (entries (kv.shard_clients s)) kv.last_put_by_client_id

-- The result of an operation that ran to its end in a well-formed server.
abbrev pub Runs : {R : Type 0} → Option (KvServer × R) → Type 0
Runs {R} o = (kv : KvServer) × (reply : R) × (o ≡ some (kv, reply)) × IsWellFormed kv

module _ (codec : Codec ShardState) where
  open codec use {Bytes, decode}

  -- A request that names a shard there is, and whose bytes are an encoding.
  pub data IsLegal : Request Bytes → Type 0 where
    get_legal : (args : GetArgs) → IsLegal (get args)
    put_legal : (args : PutArgs) → IsLegal (put args)
    freeze_legal : (args : FreezeShardArgs) → args.shard < n_shards → IsLegal (freeze args)
    install_legal :
        (args : InstallShardArgs Bytes) (bytes : Bytes) (st : ShardState)
        → args.shard < n_shards
        → args.state ≡ some bytes
        → decode bytes ≡ some st
        → IsLegal (install args)
    delete_legal : (args : DeleteShardArgs) → args.shard < n_shards → IsLegal (delete args)
    unknown_legal : IsLegal unknown
