-- ===== src/Tests/Moves.antt =====
-- Shard 5 moves from group 1 to group 2, and two configurations overlap.
use mit_distro_sys.Common.{
  List, ◌∷◌, AllOf, string_eq, nat_eq, false, none, some, [], ◌≡◌, refl, arith, update, ℕ,
}
use mit_distro_sys.Common.Assoc.{copy, lookup}
use mit_distro_sys.Kv.Api.{ok}
use mit_distro_sys.ShardGrp.Types.{KvServer, ShardState, FreezeShardReply, start_server, frozen}
use mit_distro_sys.ShardGrp.Transfer.{marshall_shard_state, shard_state, collect}
use mit_distro_sys.ShardGrp.Invariant.Operations.{start_server-IsWellFormed}
use mit_distro_sys.ShardGrp.Ops.{freeze_shard, freeze_newer, install_shard, set_status}
use mit_distro_sys.ShardCtrl.Migrate.{
  clerk_of_group, freezing, moves_of, installing, after_freeze, Handover, MoveStep, freeze_answered,
  begin, later, start_handover,
}
use mit_distro_sys.ShardCtrl.Migrate.Arrival.{IsReady, Arrives, Moving-Arrives}
use mit_distro_sys.ShardCtrl.Migrate.Overtaken.{install_shard-none}
use mit_distro_sys.Tests.Shards.{plain}
use mit_distro_sys.ShardCtrl.Migrate.Unassigned.{group_freeze-clerk_of_group}
use mit_distro_sys.Clerk.Group.{Clerk, group_freeze}
use mit_distro_sys.ShardCfg.{ShardConfig, ℤ, pos}
use mit_distro_sys.ShardCtrl.Migrate.Moves.{perform, IsMove, perform-moves_of}

is_ready : IsReady (start_server 1) (start_server 2) 5 2
unfolding start_server
is_ready = record {
  is_shard = omega arith;
  well_formed = start_server-IsWellFormed 1;
  on = refl;
  off = refl;
  new_to_src = omega arith;
  new_to_dst = omega arith;
}

abbrev beginning : Handover plain 5 2
beginning = start_handover plain 5 2 (start_server 1) (start_server 2)

abbrev stopped : KvServer
stopped = set_status (start_server 1) 5 frozen 2

-- Controller 3 has frozen the shard.
abbrev under_way : Handover plain 5 2
under_way = record beginning {
  src = stopped;
  movers =
      update beginning.movers 3
        (installing (some (record { kv = []; last_put_by_client_id = [] })));
}

freeze_step : MoveStep plain 5 2 beginning under_way
unfolding start_server freeze_shard freeze_newer marshall_shard_state shard_state collect
    after_freeze copy
freeze_step =
    freeze_answered 3 false stopped
      (record { state = some (record { kv = []; last_put_by_client_id = [] }); num = 2; err = ok })
      refl refl refl

Moving-Arrives_example : Arrives plain 5 2 (start_server 1) (start_server 2) under_way
Moving-Arrives_example =
    Moving-Arrives plain 5 2 (start_server 1) (start_server 2) is_ready under_way
      (later begin freeze_step)

-- The source was frozen for configuration 3 before a controller asks for configuration 2.
abbrev ahead : KvServer
ahead = set_status (start_server 1) 5 frozen 3

install_shard-none_example :
    (reply : FreezeShardReply ShardState) × (freeze_shard plain ahead
        (record { shard = 5; num = 2 })
      ≡ some (ahead, reply))
    × (after_freeze false reply.err reply.state ≡ installing none)
    × (install_shard plain (start_server 2) (record { shard = 5; state = none; num = 2 }) ≡ none)
unfolding start_server
install_shard-none_example =
    install_shard-none plain ahead (start_server 2) 5 2 false (omega arith) (omega arith)
      (omega arith) refl

abbrev two_groups : ShardConfig
two_groups = record { num = 1; shards = pos 1 ∷ pos 2 ∷ []; groups = [] }

abbrev one_group : ShardConfig
one_group = record { num = 2; shards = pos 1 ∷ pos 1 ∷ []; groups = [] }

perform-moves_of_example :
    (ms : List (ℕ × ℤ × ℤ)) × (moves_of two_groups one_group ≡ some ms)
    × (perform ms two_groups.shards ≡ one_group.shards)
    × AllOf (IsMove two_groups.shards) ms
perform-moves_of_example = perform-moves_of two_groups one_group refl

unassigned_test :
    (clerk : Clerk) × (reply : FreezeShardReply ShardState) × ((clerk_of_group 7 [] two_groups
        (pos 0)).1
      ≡ clerk)
    × (group_freeze clerk (λ attempt s. none) ≡ some (clerk, reply))
    × (after_freeze false reply.err reply.state ≡ freezing)
unfolding lookup
unassigned_test = group_freeze-clerk_of_group 7 [] two_groups (pos 0) (λ attempt s. none) refl refl
