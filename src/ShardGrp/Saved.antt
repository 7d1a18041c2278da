-- ===== src/ShardGrp/Saved.antt =====
-- `Snapshot` and `Restore` of a shard server. A `nil` map is saved as an empty one.
use mit_distro_sys.Common.{nat_eq, string_eq, Option, none, some}
use mit_distro_sys.Common.Assoc.{copy}
use mit_distro_sys.Kv.Replica.{Codec}
use mit_distro_sys.ShardGrp.Types.{KvServer}
use mit_distro_sys.ShardGrp.Transfer.{entries}
pub mod Restored

unfoldable pub snapshot_data : KvServer → KvServer
snapshot_data kv = record {
  kvm = λ shid. some (copy (entries (kv.kvm shid)));
  last_put_by_client_id = copy kv.last_put_by_client_id;
  cfg_num_by_shid = kv.cfg_num_by_shid;
  shard_statuses = kv.shard_statuses;
  shard_clients = λ shid. some (copy (entries (kv.shard_clients shid)));
}

module _ (codec : Codec KvServer) where
  open codec use {Bytes, encode, decode}

  unfoldable pub snapshot : KvServer → Bytes
  unfolding snapshot_data
  snapshot kv = encode (snapshot_data kv)

  -- No bytes leave the server as it is.
  unfoldable pub restore : KvServer → Option Bytes → Option KvServer
  restore kv none = some kv
  restore kv (some bytes) = decode bytes
