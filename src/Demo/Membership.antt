-- ===== src/Demo/Membership.antt =====
-- JoinGroup and LeaveGroup of the console (shardkv-demo/cluster/manager.go).
use mit_distro_sys.Common.{
  ℕ, string_eq, String, Bool, true, false, Option, none, some, List, [], ◌∷◌, leb, if◌then◌else◌,
  length,
}
use mit_distro_sys.Common.Assoc.{Assoc, lookup, insert, delete}
use mit_distro_sys.ShardCfg.{ShardConfig, ℤ, pos, int_eq}
use mit_distro_sys.ShardCfg.Membership.{join_balance, leave_balance}
use mit_distro_sys.Tester.Group.{make_srv_grp, start_servers}
use mit_distro_sys.Demo.Manager.{Manager, update_cached_cfg, update_cached_next_cfg, stop_chaos}
pub mod Left

-- A round of the loop: what Query returns after InitController, where `none` is `nil`, and what
-- ChangeConfigTo returns if it is called.
pub record Round : Type 0 where
  pub config : Option ShardConfig
  pub changed : Bool

-- `looping` is a call that is still in its loop.
pub data Ending : Type 0 where
  answered : Bool → Ending
  panicked looping : Ending

-- The caches after a change
unfoldable pub cache_change : ℕ → Manager → ShardConfig → Manager × Ending
unfolding update_cached_cfg update_cached_next_cfg
cache_change now m new = elim (update_cached_cfg now m new) [
  | none ↦ (m, panicked)
  | some m1 ↦ elim (update_cached_next_cfg m1 new) [
    | none ↦ (m1, panicked)
    | some m2 ↦ (m2, answered true)
  ]
]

-- The loop of `JoinGroup`, for a group with these servers
unfoldable pub join_rounds : ℤ → List String → ℕ → Manager → List Round → Manager × Ending
unfolding cache_change
join_rounds gid names now m [] = (m, looping)
join_rounds gid names now m (r ∷ rs) =
    let rest = join_rounds gid names now m rs in
    elim r.config [
      | none ↦ (m, panicked)
      | some cfg ↦ elim (join_balance cfg ((gid, names) ∷ [])) [
        | none ↦ (m, panicked)
        | some (new, joined) ↦
            if joined
            then (if r.changed then cache_change now m new else rest)
            else (m, answered true)
      ]
    ]

-- The processes of a group that has none: `nsrv` servers, and which of them start.
unfoldable pub ensure_group : ℕ → (ℕ → Bool) → Manager → ℤ → Manager
ensure_group nsrv started m gid = elim (lookup gid m.infra) [
  | some sg ↦ m
  | none ↦ record m {
    infra = insert gid (start_servers started (make_srv_grp nsrv)) m.infra;
    groups = insert gid true m.groups;
  }
]

unfoldable pub join_group :
    ℕ → (ℕ → Bool) → List String → ℕ → Manager → ℤ → List Round → Manager × Ending
unfolding ensure_group join_rounds
join_group nsrv started names now m gid rounds =
    join_rounds gid names now (ensure_group nsrv started m gid) rounds

-- The loop of `LeaveGroup`; `answered true` goes on to the removal of the processes.
unfoldable pub leave_rounds : ℤ → ℕ → Manager → List Round → Manager × Ending
unfolding cache_change
leave_rounds gid now m [] = (m, looping)
leave_rounds gid now m (r ∷ rs) =
    let rest = leave_rounds gid now m rs in
    elim r.config [
      | none ↦ (m, panicked)
      | some cfg ↦ elim (lookup gid cfg.groups) [
        | none ↦ (m, answered true)
        | some names ↦
            if leb (length cfg.groups) 1
            then (m, answered false)
            else elim (leave_balance cfg (gid ∷ [])) [
              | none ↦ (m, panicked)
              | some (new, left) ↦
                  if left
                  then (if r.changed then cache_change now m new else rest)
                  else (m, answered false)
            ]
      ]
    ]

-- The group's processes and records are dropped, and its chaos monkey is stopped.
unfoldable pub drop_group : Manager → ℤ → Manager
unfolding stop_chaos
drop_group m gid =
    stop_chaos (record m { infra = delete gid m.infra; groups = delete gid m.groups }) gid

abbrev pub is_used : ℤ → Assoc ℤ Bool → Bool
is_used gid groups = elim (lookup gid groups) [ none ↦ false | some used ↦ used ]

-- The rounds and the removal run without other operations between them; the code holds its lock only
-- for the size test and for the removal.
unfoldable pub leave_group : ℕ → Manager → ℤ → List Round → Manager × Ending
unfolding leave_rounds drop_group
leave_group now m gid rounds =
    if int_eq.beq gid (pos 0) then (m, answered false) else elim (lookup gid m.infra) [
      | none ↦ if is_used gid m.groups then (m, panicked) else (m, answered true)
      | some sg ↦
          if leb (length m.infra) 1
          then (m, answered false)
          else (let r = leave_rounds gid now m rounds in
              elim r.1 [
                | answered gone ↦
                    if gone then (drop_group r.0 gid, answered true) else (r.0, answered false)
                | panicked ↦ r
                | looping ↦ r
              ])
    ]
