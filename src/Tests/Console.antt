-- ===== src/Tests/Console.antt =====
-- A group of three servers under the console.
use mit_distro_sys.Common.Assoc.{lookup}
use mit_distro_sys.Common.{
  ℕ, suc, ◌≤◌, ◌≡◌, refl, ◌≢◌, true, some, [], ◌∷◌, ◌+◌, ◌/◌, false, none, arith, is_listed,
  if◌then◌else◌,
}
use mit_distro_sys.Demo.Membership.{Round, leave_group, leave_rounds, drop_group}
use mit_distro_sys.Demo.Membership.Left.{AnyLetsGo, leave_group-LetsGo}
use mit_distro_sys.Tests.Config.{two_groups}
use mit_distro_sys.Demo.Manager.{stop_chaos}
use mit_distro_sys.ShardCfg.{ℤ}
use mit_distro_sys.Common.Assoc.{delete}
use mit_distro_sys.Tester.Group.{
  ServerGrp, make_srv_grp, start_server, connect_one, connect, connect_out, connect_in, partition,
  join_part, disconnect, disconnect_out, disconnect_in, shutdown_server,
}
use mit_distro_sys.Demo.Manager.{
  Manager, new_cluster_manager, new_gid, skip_taken, isolate_in, recover_in, start_in, reapply_in,
}
use mit_distro_sys.Demo.Gids.{new_gid_returns}
use mit_distro_sys.Demo.Isolation.{
  GroupRun, new_group, next_step, restart, isolate, stop, GroupRun-Parted,
}
use mit_distro_sys.Demo.Recovery.{recover_in_joins}
use mit_distro_sys.Demo.Chaos.{Chaos, ChaosRun, calm, then_step, ticks, kills, tick, kill_node}
use mit_distro_sys.Demo.Quorum.{online, online-ChaosRun}
use mit_distro_sys.Demo.Pending.{tick_pending}
use mit_distro_sys.ShardCfg.{pos, int_eq}

abbrev busy : Manager
busy = record new_cluster_manager {
  next_gid = 2;
  groups = (pos 1, true) ∷ (pos 2, true) ∷ (pos 3, true) ∷ [];
}

new_gid_returns_example :
    (gid : ℕ) × (new_gid busy ≡ some (record busy { next_gid = suc gid }, gid))
    × (busy.next_gid ≤ gid)
    × (lookup ⦃e = int_eq⦄ (pos gid) busy.groups ≢ some true)
new_gid_returns_example = new_gid_returns busy

skips_groups : new_gid busy ≡ some (record busy { next_gid = 5 }, 4)
unfolding new_gid new_cluster_manager skip_taken lookup
skips_groups = refl

-- All three servers are started.
abbrev one_up : ServerGrp
one_up = (start_in true (make_srv_grp 3) [] 0).0

abbrev two_up : ServerGrp
two_up = (start_in true one_up [] 1).0

abbrev all_up : ServerGrp
all_up = (start_in true two_up [] 2).0

-- Server 2 is isolated; server 0 is killed and started again.
abbrev two_cut : ServerGrp
two_cut = (isolate_in all_up 2).0

abbrev zero_again : ServerGrp
zero_again = (start_in true (shutdown_server two_cut 0) (2 ∷ []) 0).0

zero_again-GroupRun : GroupRun 3 zero_again (2 ∷ [])
unfolding make_srv_grp start_in start_server connect_one connect connect_out connect_in reapply_in
    isolate_in recover_in partition join_part disconnect disconnect_out disconnect_in
    shutdown_server kill_node tick
zero_again-GroupRun =
    next_step
      (next_step
        (next_step
          (next_step
            (next_step (next_step new_group (restart true 0 (omega arith)))
              (restart true 1 (omega arith)))
            (restart true 2 (omega arith)))
          (isolate 2 (omega arith)))
        (stop 0 (omega arith)))
      (restart true 0 (omega arith))

GroupRun-Parted_example : (zero_again.ends 2 0 ≡ false) × (zero_again.ends 0 2 ≡ false)
GroupRun-Parted_example = GroupRun-Parted zero_again-GroupRun 2 0 refl refl

-- The end between the two that are not isolated is enabled.
rest_joined : zero_again.ends 0 1 ≡ true
unfolding make_srv_grp start_in start_server connect_one connect connect_out connect_in reapply_in
    isolate_in recover_in partition join_part disconnect disconnect_out disconnect_in
    shutdown_server kill_node tick
rest_joined = refl

recover_in_joins_example :
    ((recover_in two_cut (2 ∷ []) 1).0.ends 1 2 ≡ true)
    × ((recover_in two_cut (2 ∷ []) 1).0.ends 2 1 ≡ true)
    × (is_listed 2 (recover_in two_cut (2 ∷ []) 1).1 ≡ true)
unfolding make_srv_grp start_in start_server connect_one connect connect_out connect_in reapply_in
    isolate_in recover_in partition join_part disconnect disconnect_out disconnect_in
    shutdown_server kill_node tick
recover_in_joins_example =
    recover_in_joins two_cut (2 ∷ []) 1 2 (λ e. absurd (ground arith)) (omega arith) refl refl

-- The monkey kills server 1.
abbrev chosen : Chaos
chosen = record { sg = all_up; pending = (tick all_up [] 1).0; doomed = (tick all_up [] 1).1 }

abbrev killed : Chaos
killed = record chosen { sg = kill_node all_up 1; doomed = none }

killed-ChaosRun : ChaosRun all_up killed
unfolding make_srv_grp start_in start_server connect_one connect connect_out connect_in reapply_in
    isolate_in recover_in partition join_part disconnect disconnect_out disconnect_in
    shutdown_server kill_node tick
killed-ChaosRun = then_step (then_step calm (ticks 1 refl refl)) (kills 1 refl refl)

online-ChaosRun_example : killed.sg.size / 2 + 1 ≤ online killed.sg
unfolding make_srv_grp start_in start_server connect_one connect connect_out connect_in reapply_in
    isolate_in recover_in partition join_part disconnect disconnect_out disconnect_in
    shutdown_server kill_node tick
online-ChaosRun_example = online-ChaosRun all_up (omega arith) killed-ChaosRun

tick_pending_example : (tick all_up (1 ∷ []) 1).1 ≡ (tick all_up [] 1).1
tick_pending_example = tick_pending all_up (1 ∷ []) 1

-- Two groups; group 2 leaves.
abbrev with_groups : Manager
with_groups = record new_cluster_manager {
  infra = (pos 1, all_up) ∷ (pos 2, two_cut) ∷ [];
  groups = (pos 1, true) ∷ (pos 2, true) ∷ [];
  isolated = (pos 2, 2 ∷ []) ∷ [];
  cached_config = some two_groups;
  cached_next_config = some two_groups;
}

abbrev leave_round : Round
leave_round = record {
  config = some (record two_groups { groups = (pos 1, "a" ∷ []) ∷ [] });
  changed = false;
}

abbrev after_leave : Manager
after_leave = record with_groups { infra = (pos 1, all_up) ∷ []; groups = (pos 1, true) ∷ [] }

leave_group-LetsGo_example :
    AnyLetsGo (pos 2) (leave_round ∷ [])
    × ((j : ℤ)
        → lookup ⦃e = int_eq⦄ j after_leave.infra
          ≡ (if int_eq.beq (pos 2) j then none else lookup ⦃e = int_eq⦄ j with_groups.infra))
    × ((j : ℤ)
        → lookup ⦃e = int_eq⦄ j after_leave.groups
          ≡ (if int_eq.beq (pos 2) j then none else lookup ⦃e = int_eq⦄ j with_groups.groups))
    × (after_leave.isolated ≡ with_groups.isolated)
unfolding leave_group leave_rounds drop_group stop_chaos new_cluster_manager lookup delete
leave_group-LetsGo_example =
    leave_group-LetsGo 0 with_groups after_leave (pos 2) two_cut (leave_round ∷ []) refl refl
