-- ===== src/Tests/Config.antt =====
-- A configuration with two groups, one that joins and one that leaves.
use mit_distro_sys.Common.{
  string_eq, nat_eq, replicate, String, ◌≡◌, refl, true, some, List, [], ◌∷◌, ◌++◌, arith,
}
use mit_distro_sys.Common.Assoc.{lookup, insert, delete, Assoc}
use mit_distro_sys.ShardCfg.Stable.{rebalance-stable}
use mit_distro_sys.ShardCfg.{count, int_eq, ℤ, pos, rebalance, ShardConfig}
use mit_distro_sys.ShardCfg.Rebalance.{Has, Placed, Rebalanced, rebalance-Rebalanced}
use mit_distro_sys.ShardCfg.Membership.{
  join_call, leave_call, add_groups, remove_groups, join, leave, Changed, run_balanced, group_after,
  run_balanced-Changed,
}

abbrev pub two_groups : ShardConfig
two_groups = record {
  num = 4;
  shards = pos 1 ∷ pos 9 ∷ replicate 9 (pos 1) ++ (pos 2 ∷ []);
  groups = (pos 2, "c" ∷ []) ∷ (pos 1, "a" ∷ "b" ∷ []) ∷ [];
}

abbrev joining : Assoc ℤ (List String)
joining = (pos 3, "d" ∷ "e" ∷ []) ∷ []

abbrev joined : ShardConfig
joined = record two_groups {
  num = 5;
  groups = (pos 2, "c" ∷ []) ∷ (pos 1, "a" ∷ "b" ∷ []) ∷ (pos 3, "d" ∷ "e" ∷ []) ∷ [];
}

abbrev left : ShardConfig
left = record two_groups { num = 5; groups = (pos 2, "c" ∷ []) ∷ [] }

rebalance-Rebalanced_example :
    (out : ShardConfig) × (rebalance two_groups ≡ some out) × Rebalanced two_groups out
rebalance-Rebalanced_example = rebalance-Rebalanced two_groups refl

run_balanced-Changed_example :
    (out : ShardConfig) × (run_balanced two_groups (join_call joining) ≡ some (out, true))
    × Changed two_groups (group_after two_groups (join_call joining)) out
unfolding join insert lookup add_groups
run_balanced-Changed_example = run_balanced-Changed two_groups joined (join_call joining) refl refl

leave_changes :
    (out : ShardConfig) × (run_balanced two_groups (leave_call (pos 1 ∷ [])) ≡ some (out, true))
    × Changed two_groups (group_after two_groups (leave_call (pos 1 ∷ []))) out
unfolding leave delete lookup remove_groups
leave_changes = run_balanced-Changed two_groups left (leave_call (pos 1 ∷ [])) refl refl

abbrev even : ShardConfig
even = record two_groups {
  shards =
      pos 1
      ∷ pos 2
      ∷ pos 1
      ∷ pos 2
      ∷ pos 1
      ∷ pos 2
      ∷ pos 1
      ∷ pos 2
      ∷ pos 1
      ∷ pos 2
      ∷ pos 1
      ∷ pos 2
      ∷ [];
}

in_1 : Has even.groups (pos 1)
unfolding lookup
in_1 = ("a" ∷ "b" ∷ [], refl)

in_2 : Has even.groups (pos 2)
unfolding lookup
in_2 = ("c" ∷ [], refl)

even-Placed : Placed even.groups even.shards
unfolding count
even-Placed = (
  (
    in_1,
    (in_2, (in_1, (in_2, (in_1, (in_2, (in_1, (in_2, (in_1, (in_2, (in_1, (in_2, tt))))))))))),
  ),
  (6, ((omega arith, omega arith), ((omega arith, omega arith), tt))),
)

even_stays : rebalance even ≡ some even
even_stays = rebalance-stable even refl even-Placed
