-- ===== src/ShardGrp/Migration/Transitions.antt =====
-- Every operation moves every shard along the diagram, or leaves it.
use mit_distro_sys.ShardGrp.Migration.Freezes.{Moves-eq, set_status-Moves, put-Moves, freeze-Moves}
use mit_distro_sys.ShardGrp.Transfer.{install_state, install_shard_state}
use mit_distro_sys.Common.{
  nat_eq, string_eq, ℕ, ◌<◌, String, ◌≡◌, refl, subst, inl, inr, Option, none, some, arith, ltb,
  leb, ◌==◌, ltb→lt, ==_iff, Bool-cases, >>=-eq-some,
}
use mit_distro_sys.Kv.Replica.{Codec}
use mit_distro_sys.ShardGrp.Types.{
  KvServer, ShardState, ShardStatus, Request, get, put, freeze, install, delete, unknown, Reply,
  n_shards, InstallShardArgs, InstallShardReply, DeleteShardArgs, DeleteShardReply, absent, serving,
  frozen,
}
use mit_distro_sys.ShardGrp.Ops.{
  do_put, install_newer, install_shard, delete_same, delete_shard, do_op, set_status, freeze_shard,
}
use mit_distro_sys.ShardGrp.Migration.{Move, Moves, installs, deletes}

install_shard_state-eq :
    (codec : Codec ShardState) (kv : KvServer) (shid : ℕ) (state : Option codec.Bytes)
    {kv' : KvServer}
    → install_shard_state codec kv shid state ≡ some kv'
    → (st : ShardState) × (kv' ≡ install_state kv shid st)
unfolding install_shard_state
install_shard_state-eq codec kv shid none {kv'} e = ground arith
install_shard_state-eq codec kv shid (some bytes) {kv'} e =
    let (st, p, q) = >>=-eq-some (codec.decode bytes) _ e in (st, ground arith)

install_newer-Moves :
    (codec : Codec ShardState) (status : ShardStatus) (kv : KvServer)
    (args : InstallShardArgs codec.Bytes) {r : KvServer × InstallShardReply}
    → status ≡ kv.shard_statuses args.shard
    → kv.cfg_num_by_shid args.shard < args.num
    → install_newer codec status kv args ≡ some r
    → Moves kv r.0
unfolding install_newer install_state
install_newer-Moves codec serving kv args {r} p lt e = Moves-eq kv r.0 (ground arith)
install_newer-Moves codec frozen kv args {r} p lt e = Moves-eq kv r.0 (ground arith)
install_newer-Moves codec absent kv args {r} p lt e =
    let (kv1, q, f) = >>=-eq-some (install_shard_state codec kv args.shard args.state) _ e in
    let (st, h) = install_shard_state-eq codec kv args.shard args.state q in
    let g : set_status (install_state kv args.shard st) args.shard serving args.num ≡ r.0 =
      ground arith in
    subst (Moves kv) g (
      set_status-Moves kv args.shard serving args.num
        (subst (λ x. Move x (kv.cfg_num_by_shid args.shard) serving args.num) p (installs lt)))

install-Moves :
    (codec : Codec ShardState) (kv : KvServer) (args : InstallShardArgs codec.Bytes)
    {r : KvServer × InstallShardReply}
    → install_shard codec kv args ≡ some r
    → Moves kv r.0
unfolding install_shard
install-Moves codec kv args {r} e =
    let local = kv.cfg_num_by_shid args.shard in
    let status = kv.shard_statuses args.shard in
    elim (Bool-cases (leb n_shards args.shard)) [
      | inl out ↦ ground arith
      | inr lt ↦ elim (Bool-cases (ltb local args.num)) [
        | inl newer ↦
            install_newer-Moves codec status kv args refl (ltb→lt _ _ newer) (simp (lt, newer) at e)
        | inr older ↦ Moves-eq kv r.0 (ground arith)
      ]
    ]

delete_same-Moves :
    (status : ShardStatus) (kv : KvServer) (args : DeleteShardArgs)
    → status ≡ kv.shard_statuses args.shard
    → args.num ≡ kv.cfg_num_by_shid args.shard
    → Moves kv (delete_same status kv args).0
unfolding delete_same
delete_same-Moves absent kv args p q = Moves-eq kv kv refl
delete_same-Moves serving kv args p q = Moves-eq kv kv refl
delete_same-Moves frozen kv args p q = set_status-Moves kv args.shard absent args.num (
    subst (λ x. Move x (kv.cfg_num_by_shid args.shard) absent args.num) p
      (subst (λ n. Move frozen n absent args.num) q deletes))

delete-Moves :
    (kv : KvServer) (args : DeleteShardArgs) {r : KvServer × DeleteShardReply}
    → delete_shard kv args ≡ some r
    → Moves kv r.0
unfolding delete_shard
delete-Moves kv args {r} e =
    let local = kv.cfg_num_by_shid args.shard in
    let status = kv.shard_statuses args.shard in
    let d = delete_same status kv args in
    elim (Bool-cases (leb n_shards args.shard)) [
      | inl out ↦ ground arith
      | inr lt ↦ elim (Bool-cases (args.num == local)) [
        | inl same ↦
            let f : some d ≡ some r = simp (lt, same) at e in
            let g : d ≡ r = cc in
            subst (λ (x : KvServer × DeleteShardReply). Moves kv x.0) g
              (delete_same-Moves status kv args refl ((==_iff args.num local).0 same))
        | inr other ↦ Moves-eq kv r.0 (ground arith)
      ]
    ]

-- Whatever an operation does, each shard stays, or is frozen or installed at a higher configuration
-- number, or is deleted at the number at which it was frozen.
pub do_op-Moves :
    (codec : Codec ShardState) (hash : String → ℕ) (kv : KvServer) (req : Request codec.Bytes)
    {kv' : KvServer} {reply : Reply codec.Bytes}
    → do_op codec hash kv req ≡ some (kv', reply)
    → Moves kv kv'
unfolding do_op
do_op-Moves codec hash kv (get args) {kv'} {reply} e = Moves-eq kv kv' (ground arith)
do_op-Moves codec hash kv unknown {kv'} {reply} e = Moves-eq kv kv' (ground arith)
do_op-Moves codec hash kv (put args) {kv'} {reply} e =
    let (r, p, q) = >>=-eq-some (do_put hash kv args) _ e in
    subst (Moves kv) {x = r.0} {y = kv'} (ground arith) (put-Moves hash kv args p)
do_op-Moves codec hash kv (freeze args) {kv'} {reply} e =
    let (r, p, q) = >>=-eq-some (freeze_shard codec kv args) _ e in
    subst (Moves kv) {x = r.0} {y = kv'} (ground arith) (freeze-Moves codec kv args p)
do_op-Moves codec hash kv (install args) {kv'} {reply} e =
    let (r, p, q) = >>=-eq-some (install_shard codec kv args) _ e in
    subst (Moves kv) {x = r.0} {y = kv'} (ground arith) (install-Moves codec kv args p)
do_op-Moves codec hash kv (delete args) {kv'} {reply} e =
    let (r, p, q) = >>=-eq-some (delete_shard kv args) _ e in
    subst (Moves kv) {x = r.0} {y = kv'} (ground arith) (delete-Moves kv args p)
