-- ===== src/ShardGrp/Migration/Again.antt =====
-- Requests of a handover that a server runs a second time.
use mit_distro_sys.Common.{
  nat_eq, string_eq, ℕ, ◌<◌, ◌≡◌, refl, some, none, false, ==_refl, Option, ltb, arith, update, [],
}
use mit_distro_sys.Common.Assoc.{copy}
use mit_distro_sys.Kv.Replica.{Codec}
use mit_distro_sys.Kv.Api.{ok}
use mit_distro_sys.ShardGrp.Types.{KvServer, ShardState, serving, frozen, absent, n_shards}
use mit_distro_sys.ShardGrp.Transfer.{marshall_shard_state, shard_state, collect}
use mit_distro_sys.ShardGrp.Ops.{
  freeze_shard, install_shard, delete_shard, set_status, freeze_again, delete_same,
}
use mit_distro_sys.ShardGrp.Invariant.Shards.{in_range}

ltb_irrefl : (n : ℕ) → ltb n n ≡ false
ltb_irrefl n = ground arith

-- The source after DeleteShard.
abbrev pub emptied : KvServer → ℕ → ℕ → KvServer
emptied kv shid num =
    set_status
      (record kv {
        kvm = update kv.kvm shid none;
        shard_clients = update kv.shard_clients shid none;
      })
      shid absent num

pub freeze_frozen :
    (codec : Codec ShardState) (kv : KvServer) (shid num : ℕ) (bytes : codec.Bytes)
    → shid < n_shards
    → kv.shard_statuses shid ≡ frozen
    → kv.cfg_num_by_shid shid ≡ num
    → marshall_shard_state codec kv shid ≡ some bytes
    → freeze_shard codec kv (record { shard = shid; num = num })
      ≡ some (kv, record { state = some bytes; num = num; err = ok })
unfolding freeze_shard freeze_again
freeze_frozen codec kv shid num bytes lt on same m =
    rw (in_range shid lt, same, ltb_irrefl num, ==_refl num, on, freeze_again) (rw m)

-- A shard that was deleted is sent without contents.
pub freeze_emptied :
    (codec : Codec ShardState) (kv : KvServer) (shid num : ℕ)
    → shid < n_shards
    → (bytes : codec.Bytes) × (freeze_shard codec
          (emptied kv shid num)
          (record { shard = shid; num = num })
        ≡ some (emptied kv shid num, record { state = some bytes; num = num; err = ok }))
unfolding freeze_shard freeze_again marshall_shard_state shard_state collect copy
freeze_emptied codec kv shid num lt = (
  codec.encode (record { kv = []; last_put_by_client_id = [] }),
  rw (in_range shid lt, ==_refl shid, ltb_irrefl num, ==_refl num, freeze_again, ==_refl shid) refl,
)

pub install_serving :
    (codec : Codec ShardState) (kv : KvServer) (shid num : ℕ) (state : Option codec.Bytes)
    → shid < n_shards
    → kv.shard_statuses shid ≡ serving
    → kv.cfg_num_by_shid shid ≡ num
    → install_shard codec kv (record { shard = shid; state = state; num = num })
      ≡ some (kv, record { err = ok })
unfolding install_shard
install_serving codec kv shid num state lt on same =
    rw (in_range shid lt, same, ltb_irrefl num, ==_refl num, on) refl

pub delete_frozen :
    (kv : KvServer) (shid num : ℕ)
    → shid < n_shards
    → kv.shard_statuses shid ≡ frozen
    → kv.cfg_num_by_shid shid ≡ num
    → delete_shard kv (record { shard = shid; num = num })
      ≡ some (emptied kv shid num, record { err = ok })
unfolding delete_shard delete_same
delete_frozen kv shid num lt on same =
    rw (in_range shid lt, same, ==_refl num, on, delete_same) refl

pub delete_emptied :
    (kv : KvServer) (shid num : ℕ)
    → shid < n_shards
    → delete_shard (emptied kv shid num) (record { shard = shid; num = num })
      ≡ some (emptied kv shid num, record { err = ok })
unfolding delete_shard delete_same
delete_emptied kv shid num lt = rw (in_range shid lt, ==_refl shid, ==_refl num, delete_same) refl
