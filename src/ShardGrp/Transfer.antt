-- ===== src/ShardGrp/Transfer.antt =====
-- Packing a shard for another group and unpacking it there (`marshallShardState`,
-- `installShardState`). `none` is `log.Fatal`.
use mit_distro_sys.Common.{
  nat_eq, string_eq, ℕ, Option, none, some, [], ◌∷◌, ltb, if◌then◌else◌, ◌>>=◌, update,
}
use mit_distro_sys.Common.Assoc.{Assoc, lookup, insert, copy}
use mit_distro_sys.Kv.Replica.{LastPut, PutTable, Codec}
use mit_distro_sys.ShardGrp.Types.{ClientSet, ShardState, KvServer}
pub mod Tables
pub mod Merged
pub mod RoundTrip

-- Reading a `nil` map is reading an empty one.
abbrev pub entries {ℓ κ} : {K : Type ℓ} {V : Type κ} → Option (Assoc K V) → Assoc K V
entries none = []
entries (some m) = m

-- The last Put of each client of the shard. A client without one leaves a `nil` pointer in the map,
-- which the encoder refuses.
unfoldable pub collect : ClientSet → PutTable → Option PutTable
collect [] table = some []
collect ((c, _) ∷ cs) table =
    collect cs table >>= λ rest. lookup c table >>= λ last. some (insert c last rest)

unfoldable pub shard_state : KvServer → ℕ → Option ShardState
unfolding collect
shard_state kv shid = collect (entries (kv.shard_clients shid)) kv.last_put_by_client_id >>= λ puts.
    some (record { kv = copy (entries (kv.kvm shid)); last_put_by_client_id = puts })

unfoldable pub clients_of : PutTable → ClientSet
clients_of [] = []
clients_of ((c, last) ∷ m) = insert c tt (clients_of m)

-- Only a later request replaces what is known of a client.
unfoldable pub keep_latest : ℕ → LastPut → PutTable → PutTable
keep_latest c last table = elim (lookup c table) [
  | none ↦ insert c last table
  | some known ↦ if ltb known.request_id last.request_id then insert c last table else table
]

unfoldable pub merge_puts : PutTable → PutTable → PutTable
unfolding keep_latest
merge_puts [] table = table
merge_puts ((c, last) ∷ m) table = keep_latest c last (merge_puts m table)

unfoldable pub install_state : KvServer → ℕ → ShardState → KvServer
unfolding clients_of merge_puts
install_state kv shid st = record kv {
  kvm = update kv.kvm shid (some (copy st.kv));
  shard_clients = update kv.shard_clients shid (some (clients_of st.last_put_by_client_id));
  last_put_by_client_id = merge_puts st.last_put_by_client_id kv.last_put_by_client_id;
}

module _ (codec : Codec ShardState) where
  open codec use {Bytes, encode, decode}

  unfoldable pub marshall_shard_state : KvServer → ℕ → Option Bytes
  unfolding shard_state
  marshall_shard_state kv shid = shard_state kv shid >>= λ st. some (encode st)

  -- No bytes hold no value, and decoding them fails.
  unfoldable pub install_shard_state : KvServer → ℕ → Option Bytes → Option KvServer
  unfolding install_state
  install_shard_state kv shid none = none
  install_shard_state kv shid (some bytes) = decode bytes >>= λ st. some (install_state kv shid st)
