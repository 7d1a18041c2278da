-- ===== src/Tests/Shards.antt =====
-- A shard that moves from group 1 to group 2.
use mit_distro_sys.Kv.Api.{ok, err_version}
use mit_distro_sys.Common.{string_eq, nat_eq, ℕ, String, ◌≡◌, refl, some, [], ◌∷◌, arith}
use mit_distro_sys.Kv.Replica.{Codec, LastPut}
use mit_distro_sys.ShardGrp.Types.{KvServer, ShardState, freeze, start_server}
use mit_distro_sys.ShardGrp.Ops.{do_op}
use mit_distro_sys.ShardGrp.Saved.{snapshot, restore}
use mit_distro_sys.ShardGrp.Saved.Restored.{SameShards, restore-SameShards}
use mit_distro_sys.ShardGrp.Invariant.{IsWellFormed, Runs, freeze_legal}
use mit_distro_sys.ShardGrp.Invariant.Operations.{do_op-Runs, start_server-IsWellFormed}
use mit_distro_sys.ShardGrp.Migration.{Moves}
use mit_distro_sys.ShardGrp.Migration.Transitions.{do_op-Moves}

abbrev saved : Codec KvServer
saved = record {
  Bytes = KvServer;
  encode = λ a. a;
  decode = λ b. some b;
  decode-encode = λ a. refl;
}

restore-SameShards_example :
    (back : KvServer) × (restore saved (start_server 2) (some (snapshot saved (start_server 1)))
      ≡ some back)
    × SameShards back (start_server 1)
    × IsWellFormed back
restore-SameShards_example =
    restore-SameShards saved (start_server 1) (start_server 2) (start_server-IsWellFormed 1)

abbrev pub plain : Codec ShardState
plain = record {
  Bytes = ShardState;
  encode = λ a. a;
  decode = λ b. some b;
  decode-encode = λ a. refl;
}

abbrev one_shard : String → ℕ
one_shard key = 5

do_op-Runs_example :
    Runs (do_op plain one_shard (start_server 1) (freeze (record { shard = 5; num = 2 })))
do_op-Runs_example =
    do_op-Runs plain one_shard (start_server 1)
      (freeze_legal (record { shard = 5; num = 2 }) (omega arith)) (start_server-IsWellFormed 1)

do_op-Moves_example : Moves (start_server 1) (do_op-Runs_example).0
do_op-Moves_example =
    do_op-Moves plain one_shard (start_server 1) (freeze (record { shard = 5; num = 2 }))
      (do_op-Runs_example).2

abbrev first_put : LastPut
first_put = record { request_id = 1; reply = record { err = ok } }

abbrev second_put : LastPut
second_put = record { request_id = 2; reply = record { err = err_version } }

-- A group that has a value in every shard, and the second Put of client 3.
abbrev stored : KvServer
stored = record (start_server 1) {
  kvm = λ shid. some (("a", record { value = "x"; version = 1 }) ∷ []);
  last_put_by_client_id = (3, second_put) ∷ [];
  shard_clients = λ shid. some ((3, tt) ∷ []);
}

-- A group without shards that has the first Put of client 3 and one of client 4.
abbrev receiver : KvServer
receiver = record (start_server 2) { last_put_by_client_id = (3, first_put) ∷ (4, first_put) ∷ [] }
