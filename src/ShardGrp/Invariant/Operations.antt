-- ===== src/ShardGrp/Invariant/Operations.antt =====
-- Every legal operation runs to its end in a well-formed server, and leaves it well-formed.
use mit_distro_sys.Common.{ℕ, String, refl, []}
use mit_distro_sys.Common.Assoc.{lookup}
use mit_distro_sys.ShardGrp.Invariant.Shards.{
  freeze_shard-Runs, install_shard-Runs, delete_shard-Runs,
}
use mit_distro_sys.ShardGrp.Invariant.Puts.{do_put-Runs}
use mit_distro_sys.Kv.Replica.{Codec}
use mit_distro_sys.ShardGrp.Types.{
  KvServer, ShardState, Request, get_reply, put_reply, freeze_reply, install_reply, delete_reply,
  nil, start_server,
}
use mit_distro_sys.ShardGrp.Ops.{do_op, do_get}
use mit_distro_sys.ShardGrp.Invariant.{
  IsWellFormed, Runs, IsLegal, get_legal, put_legal, freeze_legal, install_legal, delete_legal,
  unknown_legal,
}

-- No legal operation on a well-formed server stops the process, and the server stays well-formed.
pub do_op-Runs :
    (codec : Codec ShardState) (hash : String → ℕ) (kv : KvServer) {req : Request codec.Bytes}
    → IsLegal codec req
    → IsWellFormed kv
    → Runs (do_op codec hash kv req)
unfolding do_op
do_op-Runs codec hash kv (get_legal args) w = (kv, get_reply (do_get hash kv args), refl, w)
do_op-Runs codec hash kv (put_legal args) w =
    let (kv', r, p, v) = do_put-Runs hash kv args w in (kv', put_reply r, rw p, v)
do_op-Runs codec hash kv (freeze_legal args lt) w =
    let (kv', r, p, v) = freeze_shard-Runs codec kv args lt w in (kv', freeze_reply r, rw p, v)
do_op-Runs codec hash kv (install_legal args bytes st lt e f) w =
    let (kv', r, p, v) = install_shard-Runs codec kv args bytes st lt e f w in
    (kv', install_reply r, rw p, v)
do_op-Runs codec hash kv (delete_legal args lt) w =
    let (kv', r, p, v) = delete_shard-Runs kv args lt w in (kv', delete_reply r, rw p, v)
do_op-Runs codec hash kv unknown_legal w = (kv, nil, refl, w)

-- A server starts well-formed.
pub start_server-IsWellFormed : (gid : ℕ) → IsWellFormed (start_server gid)
unfolding start_server
start_server-IsWellFormed gid = record {
  has_map = λ s h. ([], refl);
  has_clients = λ s h. ([], refl);
  known = λ s c u e. unfold lookup in cc;
}
