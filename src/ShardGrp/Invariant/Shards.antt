-- ===== src/ShardGrp/Invariant/Shards.antt =====
-- The three shard operations run to their end in a well-formed server, and leave it well-formed.
use mit_distro_sys.Kv.Api.{ok, err_illegal_operation}
use mit_distro_sys.Common.Assoc.{lookup, copy}
use mit_distro_sys.ShardGrp.Transfer.Tables.{
  Known, clients_of-Known, merge_puts_keeps, merge_puts_learns,
}
use mit_distro_sys.ShardGrp.Transfer.RoundTrip.{install_shard_state-marshall}
use mit_distro_sys.ShardGrp.Invariant.Puts.{update_all}
use mit_distro_sys.ShardGrp.Transfer.{
  clients_of, merge_puts, install_state, marshall_shard_state, install_shard_state, entries,
}
use mit_distro_sys.ShardGrp.Ops.{
  is_serving, set_status, freeze_newer, freeze_again, freeze_shard, install_newer, install_shard,
  delete_same, delete_shard,
}
use mit_distro_sys.Common.{
  string_eq, nat_eq, ℕ, ◌<◌, ◌≡◌, refl, inl, inr, true, false, none, some, arith, ltb, leb, ◌==◌,
  if◌then◌else◌, Bool-cases, update,
}
use mit_distro_sys.Kv.Replica.{Codec, PutTable}
use mit_distro_sys.ShardGrp.Types.{
  KvServer, ShardState, n_shards, ShardStatus, ClientSet, FreezeShardArgs, InstallShardArgs,
  DeleteShardArgs, absent, serving, frozen,
}
use mit_distro_sys.ShardGrp.Invariant.{IsWellFormed, Runs}

-- Setting a status that serves nothing.
set_status-IsWellFormed :
    (kv : KvServer) (shid : ℕ) (status : ShardStatus) (num : ℕ)
    → is_serving status ≡ false
    → IsWellFormed kv
    → IsWellFormed (set_status kv shid status num)
set_status-IsWellFormed kv shid status num off w = record {
  has_map = λ s h. w.has_map s (serving_before s h);
  has_clients = λ s h. w.has_clients s (serving_before s h);
  known = w.known;
}
  where
    serving_before :
        (s : ℕ)
        → is_serving (update kv.shard_statuses shid status s) ≡ true
        → is_serving (kv.shard_statuses s) ≡ true
    serving_before s h = ground arith

-- A shard whose clients are known can be packed.
marshall_total :
    (codec : Codec ShardState) (kv : KvServer) (shid : ℕ)
    → Known (entries (kv.shard_clients shid)) kv.last_put_by_client_id
    → (bytes : codec.Bytes) × (marshall_shard_state codec kv shid ≡ some bytes)
marshall_total codec kv shid known =
    let (bytes, dst, p, q, r) = install_shard_state-marshall kv kv shid known codec in (bytes, p)

freeze_newer-Runs :
    (codec : Codec ShardState) (status : ShardStatus) (kv : KvServer) (args : FreezeShardArgs)
    → IsWellFormed kv
    → Runs (freeze_newer codec status kv args)
unfolding freeze_newer
freeze_newer-Runs codec serving kv args w =
    let kv' = set_status kv args.shard frozen args.num in
    let (bytes, p) = marshall_total codec kv' args.shard (w.known args.shard) in
    (
      kv',
      record { state = some bytes; num = args.num; err = ok },
      rw p,
      set_status-IsWellFormed kv args.shard frozen args.num refl w,
    )
freeze_newer-Runs codec absent kv args w = (
  kv,
  record { state = none; num = kv.cfg_num_by_shid args.shard; err = err_illegal_operation },
  refl,
  w,
)
freeze_newer-Runs codec frozen kv args w = (
  kv,
  record { state = none; num = kv.cfg_num_by_shid args.shard; err = err_illegal_operation },
  refl,
  w,
)

freeze_again-Runs :
    (codec : Codec ShardState) (status : ShardStatus) (kv : KvServer) (args : FreezeShardArgs)
    → IsWellFormed kv
    → Runs (freeze_again codec status kv args)
unfolding freeze_again
freeze_again-Runs codec serving kv args w =
    (kv, record { state = none; num = args.num; err = err_illegal_operation }, refl, w)
freeze_again-Runs codec absent kv args w =
    let (bytes, p) = marshall_total codec kv args.shard (w.known args.shard) in
    (kv, record { state = some bytes; num = args.num; err = ok }, rw p, w)
freeze_again-Runs codec frozen kv args w =
    let (bytes, p) = marshall_total codec kv args.shard (w.known args.shard) in
    (kv, record { state = some bytes; num = args.num; err = ok }, rw p, w)

pub in_range : (shard : ℕ) → shard < n_shards → leb n_shards shard ≡ false
in_range shard lt = ground arith

pub freeze_shard-Runs :
    (codec : Codec ShardState) (kv : KvServer) (args : FreezeShardArgs)
    → args.shard < n_shards
    → IsWellFormed kv
    → Runs (freeze_shard codec kv args)
unfolding freeze_shard
freeze_shard-Runs codec kv args lt w =
    let local = kv.cfg_num_by_shid args.shard in
    let status = kv.shard_statuses args.shard in
    rw (in_range args.shard lt) (elim (Bool-cases (ltb local args.num)) [
      | inl newer ↦ rw newer (freeze_newer-Runs codec status kv args w)
      | inr older ↦ elim (Bool-cases (args.num == local)) [
        | inl same ↦ rw older (rw same (freeze_again-Runs codec status kv args w))
        | inr old ↦ rw older (rw old (kv, record { state = none; num = local; err = ok }, refl, w))
      ]
    ])

merge-Known_new : (m table : PutTable) → Known (clients_of m) (merge_puts m table)
merge-Known_new m table c u e =
    let (l, p) = clients_of-Known m c u e in
    let (k, q, h) = merge_puts_learns m table c l p in (k, q)

merge-Known_old :
    (cs : ClientSet) (m table : PutTable) → Known cs table → Known cs (merge_puts m table)
merge-Known_old cs m table h c u e =
    let (l, p) = h c u e in
    let (k, q, _) = merge_puts_keeps m table c l.request_id (l, p, omega arith) in (k, q)

-- Unpacking a shard that is then served.
install_state-IsWellFormed :
    (kv : KvServer) (shid num : ℕ) (st : ShardState)
    → IsWellFormed kv
    → IsWellFormed (set_status (install_state kv shid st) shid serving num)
unfolding install_state
install_state-IsWellFormed kv shid num st w = record {
  has_map = λ s h. elim (Bool-cases (shid == s)) [
    | inl same ↦ (copy st.kv, rw same)
    | inr other ↦ rw other (w.has_map s (ground arith))
  ];
  has_clients = λ s h. elim (Bool-cases (shid == s)) [
    | inl same ↦ (clients_of st.last_put_by_client_id, rw same)
    | inr other ↦ rw other (w.has_clients s (ground arith))
  ];
  known = λ s.
      update_all
        (λ o. Known (entries o) (merge_puts st.last_put_by_client_id kv.last_put_by_client_id))
        kv.shard_clients shid (some (clients_of st.last_put_by_client_id)) s
        (merge-Known_new st.last_put_by_client_id kv.last_put_by_client_id)
        (merge-Known_old (entries (kv.shard_clients s)) st.last_put_by_client_id
          kv.last_put_by_client_id (w.known s));
}

install_newer-Runs :
    (codec : Codec ShardState) (status : ShardStatus) (kv : KvServer)
    (args : InstallShardArgs codec.Bytes) (bytes : codec.Bytes) (st : ShardState)
    → args.state ≡ some bytes
    → codec.decode bytes ≡ some st
    → IsWellFormed kv
    → Runs (install_newer codec status kv args)
unfolding install_newer install_shard_state
install_newer-Runs codec absent kv args bytes st p q w = (
  set_status (install_state kv args.shard st) args.shard serving args.num,
  record { err = ok },
  rw (p, install_shard_state) (rw q),
  install_state-IsWellFormed kv args.shard args.num st w,
)
install_newer-Runs codec serving kv args bytes st p q w =
    (kv, record { err = err_illegal_operation }, refl, w)
install_newer-Runs codec frozen kv args bytes st p q w =
    (kv, record { err = err_illegal_operation }, refl, w)

pub install_shard-Runs :
    (codec : Codec ShardState) (kv : KvServer) (args : InstallShardArgs codec.Bytes)
    (bytes : codec.Bytes) (st : ShardState)
    → args.shard < n_shards
    → args.state ≡ some bytes
    → codec.decode bytes ≡ some st
    → IsWellFormed kv
    → Runs (install_shard codec kv args)
unfolding install_shard
install_shard-Runs codec kv args bytes st lt p q w =
    let local = kv.cfg_num_by_shid args.shard in
    let status = kv.shard_statuses args.shard in
    rw (in_range args.shard lt) (elim (Bool-cases (ltb local args.num)) [
      | inl newer ↦ rw newer (install_newer-Runs codec status kv args bytes st p q w)
      | inr older ↦ elim (Bool-cases (args.num == local)) [
        | inl same ↦ rw older (
            rw same (
              kv,
              record { err = if is_serving status then ok else err_illegal_operation },
              refl,
              w,
            ))
        | inr old ↦ rw older (rw old (kv, record { err = ok }, refl, w))
      ]
    ])

delete_same-IsWellFormed :
    (status : ShardStatus) (kv : KvServer) (args : DeleteShardArgs)
    → IsWellFormed kv
    → IsWellFormed (delete_same status kv args).0
unfolding delete_same
delete_same-IsWellFormed absent kv args w = w
delete_same-IsWellFormed serving kv args w = w
delete_same-IsWellFormed frozen kv args w = record {
  has_map = λ s h. elim (Bool-cases (args.shard == s)) [
    | inl same ↦ ground arith
    | inr other ↦ rw other (w.has_map s (ground arith))
  ];
  has_clients = λ s h. elim (Bool-cases (args.shard == s)) [
    | inl same ↦ ground arith
    | inr other ↦ rw other (w.has_clients s (ground arith))
  ];
  known = λ s.
      update_all (λ o. Known (entries o) kv.last_put_by_client_id) kv.shard_clients args.shard none
        s (λ c u e. unfold lookup in cc) (w.known s);
}

pub delete_shard-Runs :
    (kv : KvServer) (args : DeleteShardArgs)
    → args.shard < n_shards
    → IsWellFormed kv
    → Runs (delete_shard kv args)
unfolding delete_shard
delete_shard-Runs kv args lt w =
    let local = kv.cfg_num_by_shid args.shard in
    let status = kv.shard_statuses args.shard in
    let r = delete_same status kv args in
    rw (in_range args.shard lt) (elim (Bool-cases (args.num == local)) [
      | inl same ↦ rw same (r.0, r.1, refl, delete_same-IsWellFormed status kv args w)
      | inr other ↦ elim (Bool-cases (ltb local args.num)) [
        | inl newer ↦ rw other (rw newer (kv, record { err = err_illegal_operation }, refl, w))
        | inr old ↦ rw other (rw old (kv, record { err = ok }, refl, w))
      ]
    ])
