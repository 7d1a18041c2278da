-- ===== src/Demo/Membership/Left.antt =====
-- What a group that joined or left leaves behind.
use mit_distro_sys.Tester.Group.{ServerGrp}
use mit_distro_sys.Common.{
  ℕ, ◌<◌, ◌≡◌, refl, ◌⊎◌, true, none, some, List, [], ◌∷◌, length, arith, ap, ◌∙◌, inl, inr,
  if◌then◌else◌, Bool-cases, Option-cases, Bool,
}
use mit_distro_sys.Common.Assoc.{Assoc, lookup, lookup-delete}
use mit_distro_sys.ShardCfg.{ShardConfig, ℤ, int_eq}
use mit_distro_sys.ShardCfg.Membership.{leave_balance}
use mit_distro_sys.Demo.Manager.{Manager, update_cached_cfg, update_cached_next_cfg, stop_chaos}
use mit_distro_sys.Demo.Membership.{
  Round, answered, cache_change, leave_rounds, drop_group, leave_group,
}

-- Only the cached configurations differ.
abbrev pub SameGroups : Manager → Manager → Type 0
SameGroups new old =
    (new.infra ≡ old.infra) × (new.groups ≡ old.groups) × (new.isolated ≡ old.isolated)

cache_change-SameGroups :
    (now : ℕ) (m : Manager) (new : ShardConfig) → SameGroups (cache_change now m new).0 m
unfolding cache_change update_cached_cfg update_cached_next_cfg
cache_change-SameGroups now m new = ground arith

-- A round that lets the group go: it is not in the configuration, or it is one of several and the
-- controller carried out the change.
abbrev pub LetsGo : ℤ → Round → Type 0
LetsGo gid r =
    (cfg : ShardConfig) × (r.config ≡ some cfg)
    × ((lookup gid cfg.groups ≡ none)
        ⊎ ((1 < length cfg.groups)
            × (r.changed ≡ true)
            × ((new : ShardConfig) × (leave_balance cfg (gid ∷ []) ≡ some (new, true)))))

abbrev pub AnyLetsGo : ℤ → List Round → Type 0
AnyLetsGo gid [] = ⊥
AnyLetsGo gid (r ∷ rs) = LetsGo gid r ⊎ AnyLetsGo gid rs

leave_rounds-SameGroups :
    (gid : ℤ) (now : ℕ) (m : Manager) (rounds : List Round)
    → SameGroups (leave_rounds gid now m rounds).0 m
unfolding leave_rounds
leave_rounds-SameGroups gid now m [] = (refl, refl, refl)
leave_rounds-SameGroups gid now m (r ∷ rs) =
    ground (arith, leave_rounds-SameGroups gid now m rs, cache_change-SameGroups now m)

leave_rounds-AnyLetsGo :
    (gid : ℤ) (now : ℕ) (m : Manager) (rounds : List Round)
    → (leave_rounds gid now m rounds).1 ≡ answered true
    → AnyLetsGo gid rounds
unfolding leave_rounds
leave_rounds-AnyLetsGo gid now m [] e = absurd (ground arith)
leave_rounds-AnyLetsGo gid now m (r ∷ rs) e = elim (Option-cases r.config) [
  | inl missing ↦ absurd (ground arith)
  | inr (cfg, found) ↦ elim (Option-cases (lookup gid cfg.groups)) [
    | inl gone ↦ inl (cfg, found, inl gone)
    | inr (names, there) ↦ elim (Option-cases (leave_balance cfg (gid ∷ []))) [
      | inl stopped ↦ absurd (ground arith)
      | inr ((new, left), balanced) ↦ elim (Bool-cases r.changed) [
        | inl changed ↦ inl (
          cfg,
          found,
          inr (ground arith, changed, (new, balanced ∙ ap (λ b. some (new, b)) (ground arith))),
        )
        | inr failed ↦ inr (leave_rounds-AnyLetsGo gid now m rs (ground arith))
      ]
    ]
  ]
]

-- If LeaveGroup answers true for a group that has processes, a round of its loop found the group
-- not in the configuration, or as one of several, and then the controller carried out the change.
-- The group has no processes and is not active; the other groups, and all records of isolated
-- servers, are as they were.
pub leave_group-LetsGo :
    (now : ℕ) (m next : Manager) (gid : ℤ) (sg : ServerGrp) (rounds : List Round)
    → lookup gid m.infra ≡ some sg
    → leave_group now m gid rounds ≡ (next, answered true)
    → AnyLetsGo gid rounds
      × ((j : ℤ) → lookup j next.infra ≡ (if int_eq.beq gid j then none else lookup j m.infra))
      × ((j : ℤ) → lookup j next.groups ≡ (if int_eq.beq gid j then none else lookup j m.groups))
      × (next.isolated ≡ m.isolated)
unfolding leave_group drop_group stop_chaos
leave_group-LetsGo now m next gid sg rounds has e =
    let after : Manager = (leave_rounds gid now m rounds).0 in
    let (i, g, s) = leave_rounds-SameGroups gid now m rounds in
    let same : next ≡ drop_group after gid = ground arith in
    (
      leave_rounds-AnyLetsGo gid now m rounds (ground arith),
      λ j.
          ap (λ (k : Manager). lookup j k.infra) same
          ∙ lookup-delete gid j after.infra
          ∙ ap (λ (k : Assoc ℤ ServerGrp). if int_eq.beq gid j then none else lookup j k) i,
      λ j.
          ap (λ (k : Manager). lookup j k.groups) same
          ∙ lookup-delete gid j after.groups
          ∙ ap (λ (k : Assoc ℤ Bool). if int_eq.beq gid j then none else lookup j k) g,
      ap (λ (k : Manager). k.isolated) same ∙ s,
    )
