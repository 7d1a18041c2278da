-- ===== src/ShardCfg/Membership.antt =====
-- Join and Leave: src/shardkv/shardcfg/shardcfg.go. `none` is `log.Fatalf`; the Boolean is what
-- the method returns, beside the configuration that it changed in place.
use mit_distro_sys.ShardGrp.Types.{n_shards}
use mit_distro_sys.ShardCfg.Rebalance.{Placed, Rebalanced, rebalance-Rebalanced}
use mit_distro_sys.Common.{
  string_eq, nat_eq, ◌+◌, String, ◌≡◌, refl, ◌⊎◌, Bool, true, false, ◌||◌, Option, none, some, List,
  [], ◌∷◌, arith, if◌then◌else◌, ◌>>=◌, >>=-eq-some, length, sym, ap, ◌∙◌, subst,
}
use mit_distro_sys.Common.Assoc.{lookup, Assoc, insert, delete, lookup-insert, lookup-delete}
use mit_distro_sys.ShardCfg.{int_eq, ℤ, rebalance, ShardConfig, gids}

abbrev pub has_server : List String → String → Bool
has_server [] s = false
has_server (x ∷ xs) s = string_eq.beq x s || has_server xs s

abbrev pub share_server : List String → List String → Bool
share_server [] servers = false
share_server (s ∷ ss) servers = has_server servers s || share_server ss servers

-- Whether a server of the joining group is in some group.
abbrev pub is_taken : Assoc ℤ (List String) → List String → Bool
is_taken [] servers = false
is_taken ((xgid, xservers) ∷ m) servers = share_server xservers servers || is_taken m servers

-- The loop of `Join`: `false` is a group that is there already.
unfoldable pub add_groups :
    Assoc ℤ (List String) → Assoc ℤ (List String) → Option (Assoc ℤ (List String) × Bool)
add_groups groups [] = some (groups, true)
add_groups groups ((gid, servers) ∷ rest) =
    let next = add_groups (insert gid servers groups) rest in
    elim (lookup gid groups) [
      | some old ↦ some (groups, false)
      | none ↦ if is_taken groups servers then none else next
    ]

unfoldable pub join : ShardConfig → Assoc ℤ (List String) → Option (ShardConfig × Bool)
join cfg servers = add_groups cfg.groups servers >>= λ r.
    if r.1
    then elim servers [
      | [] ↦ none
      | p ∷ ps ↦ some (record cfg { groups = r.0; num = cfg.num + 1 }, true)
    ]
    else some (record cfg { groups = r.0 }, false)

-- The loop of `Leave`: `false` is a group that is not there.
unfoldable pub remove_groups : Assoc ℤ (List String) → List ℤ → Assoc ℤ (List String) × Bool
remove_groups groups [] = (groups, true)
remove_groups groups (gid ∷ rest) =
    let next = remove_groups (delete gid groups) rest in
    elim (lookup gid groups) [ none ↦ (groups, false) | some old ↦ next ]

unfoldable pub leave : ShardConfig → List ℤ → Option (ShardConfig × Bool)
leave cfg gids =
    let r = remove_groups cfg.groups gids in
    if r.1
    then elim gids [
      | [] ↦ none
      | g ∷ gs ↦ some (record cfg { groups = r.0; num = cfg.num + 1 }, true)
    ]
    else some (record cfg { groups = r.0 }, false)

-- What `JoinBalance` and `LeaveBalance` do after `Join` or `Leave`.
unfoldable pub then_rebalance : Option (ShardConfig × Bool) → Option (ShardConfig × Bool)
then_rebalance result =
    result >>= λ r. if r.1 then (rebalance r.0 >>= λ out. some (out, true)) else some r

unfoldable pub join_balance : ShardConfig → Assoc ℤ (List String) → Option (ShardConfig × Bool)
unfolding then_rebalance
join_balance cfg servers = then_rebalance (join cfg servers)

unfoldable pub leave_balance : ShardConfig → List ℤ → Option (ShardConfig × Bool)
unfolding then_rebalance
leave_balance cfg gids = then_rebalance (leave cfg gids)

abbrev pub or_else {ℓ} : {A : Type ℓ} → Option A → Option A → Option A
or_else none b = b
or_else (some a) b = some a

add_groups-cons :
    (gid : ℤ) (srvs : List String) (rest groups m : Assoc ℤ (List String))
    → add_groups groups ((gid, srvs) ∷ rest) ≡ some (m, true)
    → (lookup gid groups ≡ none) × (add_groups (insert gid srvs groups) rest ≡ some (m, true))
unfolding add_groups
add_groups-cons gid srvs rest groups m e = ground (arith, e)

-- A `Join` that adds its groups found none of them there, and the groups are then both.
add_groups-lookup :
    (servers groups m : Assoc ℤ (List String)) (j : ℤ)
    → add_groups groups servers ≡ some (m, true)
    → (lookup j m ≡ or_else (lookup j servers) (lookup j groups))
      × ((lookup j servers ≡ none) ⊎ (lookup j groups ≡ none))
unfolding add_groups lookup
add_groups-lookup [] groups m j e = ground (arith, e)
add_groups-lookup ((gid, srvs) ∷ rest) groups m j e =
    let c = add_groups-cons gid srvs rest groups m e in
    let ih = add_groups-lookup rest (insert gid srvs groups) m j c.1 in
    ground (arith, c.0, ih, int_eq.beq_iff gid j, lookup-insert gid j srvs groups)

-- A `Leave` that removes its groups leaves the others as they were.
abbrev pub is_leaving : List ℤ → ℤ → Bool
is_leaving [] j = false
is_leaving (g ∷ gs) j = int_eq.beq g j || is_leaving gs j

remove_groups-lookup :
    (gids : List ℤ) (groups : Assoc ℤ (List String)) (j : ℤ)
    → (remove_groups groups gids).1 ≡ true
    → lookup j (remove_groups groups gids).0 ≡ (if is_leaving gids j then none else lookup j groups)
unfolding remove_groups
remove_groups-lookup [] groups j e = refl
remove_groups-lookup (g ∷ gs) groups j e = ground (
  arith,
  e,
  int_eq.beq_iff g j,
  lookup-delete g j groups,
  remove_groups-lookup gs (delete g groups) j,
)

join-success :
    (cfg mid : ShardConfig) (servers : Assoc ℤ (List String))
    → join cfg servers ≡ some (mid, true)
    → (add_groups cfg.groups servers ≡ some (mid.groups, true))
      × (mid.num ≡ cfg.num + 1)
      × (mid.shards ≡ cfg.shards)
unfolding join
join-success cfg mid [] e = ground (arith, e)
join-success cfg mid (p ∷ ps) e =
    let r = >>=-eq-some (add_groups cfg.groups (p ∷ ps)) _ e in ground (arith, r.1, r.2)

leave-success :
    (cfg mid : ShardConfig) (gids : List ℤ)
    → leave cfg gids ≡ some (mid, true)
    → ((remove_groups cfg.groups gids).1 ≡ true)
      × (mid.groups ≡ (remove_groups cfg.groups gids).0)
      × (mid.num ≡ cfg.num + 1)
      × (mid.shards ≡ cfg.shards)
unfolding leave
leave-success cfg mid [] e = ground (arith, e)
leave-success cfg mid (g ∷ gs) e = ground (arith, e)

-- A change that succeeded is rebalanced.
then_rebalance-Rebalanced :
    (mid : ShardConfig) (result : Option (ShardConfig × Bool))
    → length mid.shards ≡ n_shards
    → result ≡ some (mid, true)
    → (out : ShardConfig) × (then_rebalance result ≡ some (out, true)) × Rebalanced mid out
unfolding then_rebalance
then_rebalance-Rebalanced mid result n e =
    let r = rebalance-Rebalanced mid n in (r.0, rw e (rw r.1 refl), r.2)

-- Every group is where `find` says, and the shards are placed in them.
abbrev pub Changed : ShardConfig → (ℤ → Option (List String)) → ShardConfig → Type 0
Changed cfg find out =
    (out.num ≡ cfg.num + 1)
    × ((j : ℤ) → lookup j out.groups ≡ find j)
    × Placed out.groups out.shards
    × (length out.shards ≡ n_shards)

join_balance-Changed :
    (cfg mid : ShardConfig) (servers : Assoc ℤ (List String))
    → length cfg.shards ≡ n_shards
    → join cfg servers ≡ some (mid, true)
    → (out : ShardConfig) × (join_balance cfg servers ≡ some (out, true))
      × Changed cfg (λ j. or_else (lookup j servers) (lookup j cfg.groups)) out
unfolding join_balance
join_balance-Changed cfg mid servers n e =
    let s = join-success cfg mid servers e in
    let r = then_rebalance-Rebalanced mid (join cfg servers) (ap length s.2 ∙ n) e in
    (
      r.0,
      r.1,
      (
        r.2.1 ∙ s.1,
        λ j. ap (lookup j) r.2.2 ∙ (add_groups-lookup servers cfg.groups mid.groups j s.0).0,
        subst (λ m. Placed m r.0.shards) (sym r.2.2) r.2.0,
        r.2.3,
      ),
    )

leave_balance-Changed :
    (cfg mid : ShardConfig) (gids : List ℤ)
    → length cfg.shards ≡ n_shards
    → leave cfg gids ≡ some (mid, true)
    → (out : ShardConfig) × (leave_balance cfg gids ≡ some (out, true))
      × Changed cfg (λ j. if is_leaving gids j then none else lookup j cfg.groups) out
unfolding leave_balance
leave_balance-Changed cfg mid gids n e =
    let s = leave-success cfg mid gids e in
    let r = then_rebalance-Rebalanced mid (leave cfg gids) (ap length s.3 ∙ n) e in
    (
      r.0,
      r.1,
      (
        r.2.1 ∙ s.2,
        λ j. ap (lookup j) (r.2.2 ∙ s.1) ∙ remove_groups-lookup gids cfg.groups j s.0,
        subst (λ m. Placed m r.0.shards) (sym r.2.2) r.2.0,
        r.2.3,
      ),
    )

-- A call of Join or of Leave
pub data MemberCall : Type 0 where
  join_call : Assoc ℤ (List String) → MemberCall
  leave_call : List ℤ → MemberCall

abbrev pub run_call : ShardConfig → MemberCall → Option (ShardConfig × Bool)
run_call cfg (join_call servers) = join cfg servers
run_call cfg (leave_call gids) = leave cfg gids

-- The same with the rebalancing: JoinBalance or LeaveBalance
abbrev pub run_balanced : ShardConfig → MemberCall → Option (ShardConfig × Bool)
run_balanced cfg (join_call servers) = join_balance cfg servers
run_balanced cfg (leave_call gids) = leave_balance cfg gids

-- The servers of a group afterwards
abbrev pub group_after : ShardConfig → MemberCall → ℤ → Option (List String)
group_after cfg (join_call servers) j = or_else (lookup j servers) (lookup j cfg.groups)
group_after cfg (leave_call gids) j = if is_leaving gids j then none else lookup j cfg.groups

-- With twelve shards and when the Join or Leave succeeds, JoinBalance or LeaveBalance returns true,
-- with the next number, the groups that were there and those that joined, or those that do not leave,
-- and the shards placed in these groups and balanced.
pub run_balanced-Changed :
    (cfg mid : ShardConfig) (call : MemberCall)
    → length cfg.shards ≡ n_shards
    → run_call cfg call ≡ some (mid, true)
    → (out : ShardConfig) × (run_balanced cfg call ≡ some (out, true))
      × Changed cfg (group_after cfg call) out
run_balanced-Changed cfg mid (join_call servers) n e = join_balance-Changed cfg mid servers n e
run_balanced-Changed cfg mid (leave_call gids) n e = leave_balance-Changed cfg mid gids n e
