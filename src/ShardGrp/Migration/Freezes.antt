-- ===== src/ShardGrp/Migration/Freezes.antt =====
-- Puts and freezes move every shard along the diagram, or leave it.
use mit_distro_sys.Common.Assoc.{lookup}
use mit_distro_sys.ShardGrp.Transfer.{marshall_shard_state}
use mit_distro_sys.Kv.Replica.{Codec, cached}
use mit_distro_sys.Kv.Api.{PutArgs, PutReply}
use mit_distro_sys.Common.{
  nat_eq, string_eq, ℕ, String, ◌≡◌, ap, subst, inl, inr, some, ◌==◌, ==_iff, Bool-cases, ◌<◌, refl,
  arith, ltb, leb, ltb→lt, Option-cases, >>=-eq-some,
}
use mit_distro_sys.ShardGrp.Types.{
  KvServer, ShardStatus, n_shards, ShardState, FreezeShardArgs, FreezeShardReply, absent, serving,
  frozen, key2shard,
}
use mit_distro_sys.ShardGrp.Ops.{
  run_put, do_put, set_status, is_serving, put_shard, add_client, freeze_newer, freeze_again,
  freeze_shard,
}
use mit_distro_sys.ShardGrp.Migration.{Move, stay, Moves, freezes}

pub Moves-same :
    (kv kv' : KvServer)
    → kv'.shard_statuses ≡ kv.shard_statuses
    → kv'.cfg_num_by_shid ≡ kv.cfg_num_by_shid
    → Moves kv kv'
Moves-same kv kv' p q s = rw (p, q) stay

pub Moves-eq : (kv kv' : KvServer) → kv' ≡ kv → Moves kv kv'
Moves-eq kv kv' p =
    Moves-same kv kv' (ap (λ (k : KvServer). k.shard_statuses) p)
      (ap (λ (k : KvServer). k.cfg_num_by_shid) p)

-- A write of one shard's status and number is a move of that shard alone.
pub set_status-Moves :
    (kv : KvServer) (shid : ℕ) (status : ShardStatus) (num : ℕ)
    → Move (kv.shard_statuses shid) (kv.cfg_num_by_shid shid) status num
    → Moves kv (set_status kv shid status num)
set_status-Moves kv shid status num mv s = elim (Bool-cases (shid == s)) [
  | inr other ↦ rw other stay
  | inl same ↦ rw same (
      subst (λ i. Move (kv.shard_statuses i) (kv.cfg_num_by_shid i) status num)
        ((==_iff shid s).0 same) mv)
]

run_put-Moves :
    (kv : KvServer) (shid : ℕ) (args : PutArgs) {r : KvServer × PutReply}
    → run_put kv shid args ≡ some r
    → Moves kv r.0
unfolding run_put
run_put-Moves kv shid args {r} e =
    let (w, p, f) = >>=-eq-some (put_shard (kv.kvm shid) args) _ e in
    let (cs, q, g) = >>=-eq-some (add_client (kv.shard_clients shid) args.client_id) _ f in
    Moves-same kv r.0 (ground arith) (ground arith)

pub put-Moves :
    (hash : String → ℕ) (kv : KvServer) (args : PutArgs) {r : KvServer × PutReply}
    → do_put hash kv args ≡ some r
    → Moves kv r.0
unfolding do_put
put-Moves hash kv args {r} e =
    let shid = key2shard hash args.key in
    elim (Bool-cases (is_serving (kv.shard_statuses shid))) [
      | inr off ↦ Moves-eq kv r.0 (ground arith)
      | inl on ↦
          elim (Option-cases
            (cached (lookup args.client_id kv.last_put_by_client_id) args.request_id)) [
              | inr (reply, old) ↦ Moves-eq kv r.0 (ground arith)
              | inl new ↦ run_put-Moves kv shid args {r = r} (ground arith)
            ]
    ]

freeze_newer-Moves :
    (codec : Codec ShardState) (status : ShardStatus) (kv : KvServer) (args : FreezeShardArgs)
    {r : KvServer × FreezeShardReply codec.Bytes}
    → status ≡ kv.shard_statuses args.shard
    → kv.cfg_num_by_shid args.shard < args.num
    → freeze_newer codec status kv args ≡ some r
    → Moves kv r.0
unfolding freeze_newer
freeze_newer-Moves codec absent kv args {r} p lt e = Moves-eq kv r.0 (ground arith)
freeze_newer-Moves codec frozen kv args {r} p lt e = Moves-eq kv r.0 (ground arith)
freeze_newer-Moves codec serving kv args {r} p lt e =
    let kv' = set_status kv args.shard frozen args.num in
    let (bytes, q, f) = >>=-eq-some (marshall_shard_state codec kv' args.shard) _ e in
    let g : kv' ≡ r.0 = ground arith in
    subst (Moves kv) g (
      set_status-Moves kv args.shard frozen args.num
        (subst (λ st. Move st (kv.cfg_num_by_shid args.shard) frozen args.num) p (freezes lt)))

freeze_again-Moves :
    (codec : Codec ShardState) (status : ShardStatus) (kv : KvServer) (args : FreezeShardArgs)
    {r : KvServer × FreezeShardReply codec.Bytes}
    → freeze_again codec status kv args ≡ some r
    → Moves kv r.0
unfolding freeze_again
freeze_again-Moves codec serving kv args {r} e = Moves-eq kv r.0 (ground arith)
freeze_again-Moves codec absent kv args {r} e =
    let (bytes, q, f) = >>=-eq-some (marshall_shard_state codec kv args.shard) _ e in
    Moves-eq kv r.0 (ground arith)
freeze_again-Moves codec frozen kv args {r} e =
    let (bytes, q, f) = >>=-eq-some (marshall_shard_state codec kv args.shard) _ e in
    Moves-eq kv r.0 (ground arith)

pub freeze-Moves :
    (codec : Codec ShardState) (kv : KvServer) (args : FreezeShardArgs)
    {r : KvServer × FreezeShardReply codec.Bytes}
    → freeze_shard codec kv args ≡ some r
    → Moves kv r.0
unfolding freeze_shard
freeze-Moves codec kv args {r} e =
    let local = kv.cfg_num_by_shid args.shard in
    let status = kv.shard_statuses args.shard in
    elim (Bool-cases (leb n_shards args.shard)) [
      | inl out ↦ ground arith
      | inr lt ↦ elim (Bool-cases (ltb local args.num)) [
        | inl newer ↦
            freeze_newer-Moves codec status kv args refl (ltb→lt _ _ newer) (simp (lt, newer) at e)
        | inr older ↦ elim (Bool-cases (args.num == local)) [
          | inl same ↦ freeze_again-Moves codec status kv args (simp (lt, older, same) at e)
          | inr old ↦ Moves-eq kv r.0 (ground arith)
        ]
      ]
    ]
