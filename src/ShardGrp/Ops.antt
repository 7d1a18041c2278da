-- ===== src/ShardGrp/Ops.antt =====
-- `DoOp` of a shard server: one function for each request, and for each case of the configuration
-- number a function of the shard's status. `none` stops the process: a panic, or `log.Fatal`.
use mit_distro_sys.Common.{
  nat_eq, string_eq, ℕ, String, Bool, true, false, Option, none, some, ltb, leb, ◌==◌,
  if◌then◌else◌, ◌>>=◌, update,
}
use mit_distro_sys.Common.Assoc.{lookup, insert}
use mit_distro_sys.Kv.Api.{
  Err, ok, err_no_key, err_wrong_group, err_illegal_operation, KvMap, GetArgs, GetReply, PutArgs,
  PutReply, get_from, put_into,
}
use mit_distro_sys.Kv.Replica.{Codec, cached}
use mit_distro_sys.ShardGrp.Types.{
  n_shards, key2shard, ShardStatus, absent, serving, frozen, ClientSet, ShardState, KvServer,
  FreezeShardArgs, FreezeShardReply, InstallShardArgs, InstallShardReply, DeleteShardArgs,
  DeleteShardReply, Request, get, put, freeze, install, delete, unknown, Reply, get_reply,
  put_reply, freeze_reply, install_reply, delete_reply, nil,
}
use mit_distro_sys.ShardGrp.Transfer.{entries, marshall_shard_state, install_shard_state}

abbrev pub is_serving : ShardStatus → Bool
is_serving serving = true
is_serving _ = false

-- A new key of a `nil` map is an assignment to it, a panic.
unfoldable pub put_shard : Option KvMap → PutArgs → Option (Option KvMap × Err)
unfolding put_into
put_shard none args = if args.version == 0 then none else some (none, err_no_key)
put_shard (some m) args = let r = put_into m args in some (some r.0, r.1)

-- So is a new member of a `nil` set.
unfoldable pub add_client : Option ClientSet → ℕ → Option ClientSet
add_client none c = none
add_client (some cs) c = some (insert c tt cs)

unfoldable pub run_put : KvServer → ℕ → PutArgs → Option (KvServer × PutReply)
unfolding put_shard add_client
run_put kv shid args = put_shard (kv.kvm shid) args >>= λ r.
    add_client (kv.shard_clients shid) args.client_id >>= λ cs.
    let reply : PutReply = record { err = r.1 } in
    some (
      record kv {
        kvm = update kv.kvm shid r.0;
        last_put_by_client_id =
            insert args.client_id (record { request_id = args.request_id; reply = reply })
              kv.last_put_by_client_id;
        shard_clients = update kv.shard_clients shid (some cs);
      },
      reply,
    )

module _ (hash : String → ℕ) where
  unfoldable pub do_get : KvServer → GetArgs → GetReply
  unfolding key2shard
  do_get kv args =
      let shid = key2shard hash args.key in
      if is_serving (kv.shard_statuses shid)
      then get_from (entries (kv.kvm shid)) args.key
      else record { value = ""; version = 0; err = err_wrong_group }

  unfoldable pub do_put : KvServer → PutArgs → Option (KvServer × PutReply)
  unfolding key2shard
  do_put kv args =
      let shid = key2shard hash args.key in
      if is_serving (kv.shard_statuses shid)
      then (elim (cached (lookup args.client_id kv.last_put_by_client_id) args.request_id) [
        | some reply ↦ some (kv, reply)
        | none ↦ run_put kv shid args
      ])
      else some (kv, record { err = err_wrong_group })

abbrev pub set_status : KvServer → ℕ → ShardStatus → ℕ → KvServer
set_status kv shid status num = record kv {
  shard_statuses = update kv.shard_statuses shid status;
  cfg_num_by_shid = update kv.cfg_num_by_shid shid num;
}

module _ (codec : Codec ShardState) where
  open codec use {Bytes}

  unfoldable pub freeze_newer :
      ShardStatus → KvServer → FreezeShardArgs → Option (KvServer × FreezeShardReply Bytes)
  freeze_newer serving kv args =
      let kv' = set_status kv args.shard frozen args.num in
      marshall_shard_state codec kv' args.shard >>= λ bytes.
      some (kv', record { state = some bytes; num = args.num; err = ok })
  freeze_newer _ kv args = some (
    kv,
    record { state = none; num = kv.cfg_num_by_shid args.shard; err = err_illegal_operation },
  )

  unfoldable pub freeze_again :
      ShardStatus → KvServer → FreezeShardArgs → Option (KvServer × FreezeShardReply Bytes)
  freeze_again serving kv args =
      some (kv, record { state = none; num = args.num; err = err_illegal_operation })
  freeze_again _ kv args = marshall_shard_state codec kv args.shard >>= λ bytes.
      some (kv, record { state = some bytes; num = args.num; err = ok })

  -- A shard that the arrays do not have is an index out of range.
  unfoldable pub freeze_shard :
      KvServer → FreezeShardArgs → Option (KvServer × FreezeShardReply Bytes)
  unfolding freeze_newer freeze_again
  freeze_shard kv args =
      let local = kv.cfg_num_by_shid args.shard in
      let status = kv.shard_statuses args.shard in
      if leb n_shards args.shard
      then none
      else if ltb local args.num
      then freeze_newer status kv args
      else if args.num == local
      then freeze_again status kv args
      else some (kv, record { state = none; num = local; err = ok })

  unfoldable pub install_newer :
      ShardStatus → KvServer → InstallShardArgs Bytes → Option (KvServer × InstallShardReply)
  install_newer absent kv args = install_shard_state codec kv args.shard args.state >>= λ kv'.
      some (set_status kv' args.shard serving args.num, record { err = ok })
  install_newer _ kv args = some (kv, record { err = err_illegal_operation })

  unfoldable pub install_shard :
      KvServer → InstallShardArgs Bytes → Option (KvServer × InstallShardReply)
  unfolding install_newer
  install_shard kv args =
      let local = kv.cfg_num_by_shid args.shard in
      let status = kv.shard_statuses args.shard in
      if leb n_shards args.shard
      then none
      else if ltb local args.num
      then install_newer status kv args
      else if args.num == local
      then some (kv, record { err = if is_serving status then ok else err_illegal_operation })
      else some (kv, record { err = ok })

unfoldable pub delete_same : ShardStatus → KvServer → DeleteShardArgs → KvServer × DeleteShardReply
delete_same frozen kv args = (
  set_status
      (record kv {
        kvm = update kv.kvm args.shard none;
        shard_clients = update kv.shard_clients args.shard none;
      })
      args.shard absent args.num,
  record { err = ok },
)
delete_same absent kv args = (kv, record { err = ok })
delete_same serving kv args = (kv, record { err = err_illegal_operation })

unfoldable pub delete_shard : KvServer → DeleteShardArgs → Option (KvServer × DeleteShardReply)
unfolding delete_same
delete_shard kv args =
    let local = kv.cfg_num_by_shid args.shard in
    let status = kv.shard_statuses args.shard in
    if leb n_shards args.shard
    then none
    else if args.num == local
    then some (delete_same status kv args)
    else if ltb local args.num
    then some (kv, record { err = err_illegal_operation })
    else some (kv, record { err = ok })

module _ (codec : Codec ShardState) (hash : String → ℕ) where
  open codec use {Bytes}

  unfoldable pub do_op : KvServer → Request Bytes → Option (KvServer × Reply Bytes)
  do_op kv (get args) = some (kv, get_reply (do_get hash kv args))
  do_op kv (put args) = do_put hash kv args >>= λ r. some (r.0, put_reply r.1)
  do_op kv (freeze args) = freeze_shard codec kv args >>= λ r. some (r.0, freeze_reply r.1)
  do_op kv (install args) = install_shard codec kv args >>= λ r. some (r.0, install_reply r.1)
  do_op kv (delete args) = delete_shard kv args >>= λ r. some (r.0, delete_reply r.1)
  do_op kv unknown = some (kv, nil)
