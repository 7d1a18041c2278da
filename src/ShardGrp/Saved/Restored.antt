-- ===== src/ShardGrp/Saved/Restored.antt =====
-- What a shard server holds after it restored a snapshot.
use mit_distro_sys.Common.{string_eq, nat_eq, ℕ, String, ◌≡◌, refl, sym, ◌∙◌, some}
use mit_distro_sys.Common.Assoc.{lookup, copy, lookup-copy}
use mit_distro_sys.Kv.Replica.{Codec}
use mit_distro_sys.ShardGrp.Types.{KvServer}
use mit_distro_sys.ShardGrp.Transfer.{entries}
use mit_distro_sys.ShardGrp.Saved.{snapshot_data, snapshot, restore}
use mit_distro_sys.ShardGrp.Invariant.{IsWellFormed}

-- The same status and configuration number for every shard, and the same finds at every key of it,
-- for every client of it, and for every last Put.
pub record SameShards (a b : KvServer) : Type 0 where
  pub same_statuses : a.shard_statuses ≡ b.shard_statuses
  pub same_nums : a.cfg_num_by_shid ≡ b.cfg_num_by_shid
  pub same_values :
      (s : ℕ) (k : String) → lookup k (entries (a.kvm s)) ≡ lookup k (entries (b.kvm s))
  pub same_clients :
      (s c : ℕ) → lookup c (entries (a.shard_clients s)) ≡ lookup c (entries (b.shard_clients s))
  pub same_puts : (c : ℕ) → lookup c a.last_put_by_client_id ≡ lookup c b.last_put_by_client_id

SameShards-snapshot_data : (kv : KvServer) → SameShards (snapshot_data kv) kv
unfolding snapshot_data
SameShards-snapshot_data kv = record {
  same_statuses = refl;
  same_nums = refl;
  same_values = λ s k. lookup-copy k (entries (kv.kvm s));
  same_clients = λ s c. lookup-copy c (entries (kv.shard_clients s));
  same_puts = λ c. lookup-copy c kv.last_put_by_client_id;
}

snapshot_data-IsWellFormed : (kv : KvServer) → IsWellFormed kv → IsWellFormed (snapshot_data kv)
unfolding snapshot_data
snapshot_data-IsWellFormed kv w = record {
  has_map = λ s h. (copy (entries (kv.kvm s)), refl);
  has_clients = λ s h. (copy (entries (kv.shard_clients s)), refl);
  known = λ s c u e.
      let r = w.known s c u (sym (lookup-copy c (entries (kv.shard_clients s))) ∙ e) in
      (r.0, lookup-copy c kv.last_put_by_client_id ∙ r.1);
}

-- `Restore` of what `Snapshot` of a well-formed shard server saved runs to its end, in any server,
-- and gives a well-formed server with the same statuses, configuration numbers, values, clients and
-- last Puts.
pub restore-SameShards :
    (codec : Codec KvServer) (kv other : KvServer)
    → IsWellFormed kv
    → (back : KvServer) × (restore codec other (some (snapshot codec kv)) ≡ some back)
      × SameShards back kv
      × IsWellFormed back
unfolding restore snapshot
restore-SameShards codec kv other w = (
  snapshot_data kv,
  codec.decode-encode (snapshot_data kv),
  SameShards-snapshot_data kv,
  snapshot_data-IsWellFormed kv w,
)
