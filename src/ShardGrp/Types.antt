-- ===== src/ShardGrp/Types.antt =====
-- The state of a shard server, its requests and replies.
use mit_distro_sys.Common.{ℕ, ◌%◌, String, Option, some, [], ◌==◌, if◌then◌else◌}
use mit_distro_sys.Common.Assoc.{Assoc}
use mit_distro_sys.Kv.Api.{Err, KvMap, GetArgs, GetReply, PutArgs, PutReply}
use mit_distro_sys.Kv.Replica.{PutTable}

abbrev pub n_shards : ℕ
n_shards = 12

-- The group that owns every shard at the start.
abbrev pub gid1 : ℕ
gid1 = 1

-- `hash` is FNV-1a, of the standard library: a `uint32`.
unfoldable pub key2shard : (String → ℕ) → String → ℕ
key2shard hash key = hash key % n_shards

pub data ShardStatus : Type 0 where
  absent serving frozen : ShardStatus

-- `map[uint64]struct{}`
abbrev pub ClientSet : Type 0
ClientSet = Assoc ℕ (Unit {0})

-- What moves from group to group.
pub record ShardState : Type 0 where
  pub kv : KvMap
  pub last_put_by_client_id : PutTable

-- Arrays over the shards are functions, read below `n_shards`; a `nil` map is `none`, and the map
-- of configuration numbers reads 0 where it has no entry.
pub record KvServer : Type 0 where
  pub kvm : ℕ → Option KvMap
  pub last_put_by_client_id : PutTable
  pub cfg_num_by_shid : ℕ → ℕ
  pub shard_statuses : ℕ → ShardStatus
  pub shard_clients : ℕ → Option ClientSet

pub record FreezeShardArgs : Type 0 where
  pub shard : ℕ
  pub num : ℕ

-- `B` stands for the encoded bytes of a shard's state; `nil` bytes are `none`.
pub record FreezeShardReply (B : Type 0) : Type 0 where
  pub state : Option B
  pub num : ℕ
  pub err : Err

pub record InstallShardArgs (B : Type 0) : Type 0 where
  pub shard : ℕ
  pub state : Option B
  pub num : ℕ

pub record InstallShardReply : Type 0 where
  pub err : Err

pub record DeleteShardArgs : Type 0 where
  pub shard : ℕ
  pub num : ℕ

pub record DeleteShardReply : Type 0 where
  pub err : Err

pub data Request (B : Type 0) : Type 0 where
  get : GetArgs → Request B
  put : PutArgs → Request B
  freeze : FreezeShardArgs → Request B
  install : InstallShardArgs B → Request B
  delete : DeleteShardArgs → Request B
  unknown : Request B

pub data Reply (B : Type 0) : Type 0 where
  get_reply : GetReply → Reply B
  put_reply : PutReply → Reply B
  freeze_reply : FreezeShardReply B → Reply B
  install_reply : InstallShardReply → Reply B
  delete_reply : DeleteShardReply → Reply B
  nil : Reply B

-- `StartServerShardGrp`, before a snapshot is restored: group 1 serves every shard.
unfoldable pub start_server : ℕ → KvServer
start_server gid = record {
  kvm = λ shid. some [];
  last_put_by_client_id = [];
  cfg_num_by_shid = λ shid. if gid == gid1 then 1 else 0;
  shard_statuses = λ shid. if gid == gid1 then serving else absent;
  shard_clients = λ shid. some [];
}
