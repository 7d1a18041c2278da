-- ===== src/Demo/Manager.antt =====
-- `ClusterManager` (shardkv-demo/cluster/manager.go): what it keeps, and its operations on the servers
-- of a group. A negative index of a server is refused like one that is too high.
use mit_distro_sys.Common.{
  ℕ, nat_eq, suc, zero, Bool, true, false, not, ◌&&◌, ◌||◌, Option, none, some, List, [], ◌∷◌, ◌++◌,
  ltb, leb, ◌==◌, if◌then◌else◌, ◌>>=◌, is_listed, length,
}
use mit_distro_sys.Common.Assoc.{Assoc, lookup, insert, delete}
use mit_distro_sys.ShardCfg.{ShardConfig, ℤ, pos, int_eq}
use mit_distro_sys.Tester.Group.{
  ServerGrp, all, connect_one, partition, start_server, shutdown_server, shutdown, start_servers,
}

-- The keys of a Go map to `true` are a list; `now` stands for the clock.
pub record Manager : Type 0 where
  pub infra : Assoc ℤ ServerGrp
  pub next_gid : ℕ
  pub groups : Assoc ℤ Bool
  pub isolated : Assoc ℤ (List ℕ)
  pub chaos_monkeys : List ℤ
  pub cached_config : Option ShardConfig
  pub cached_next_config : Option ShardConfig
  pub last_config_ok : ℕ

unfoldable pub new_cluster_manager : Manager
new_cluster_manager = record {
  infra = [];
  next_gid = 2;
  groups = [];
  isolated = [];
  chaos_monkeys = [];
  cached_config = none;
  cached_next_config = none;
  last_config_ok = 0;
}

abbrev pub select : (ℕ → Bool) → List ℕ → List ℕ
select p [] = []
select p (x ∷ xs) = if p x then x ∷ select p xs else select p xs

abbrev pub remove : ℕ → List ℕ → List ℕ
remove srv marks = select (λ i. not (i == srv)) marks

-- The connected servers but one
abbrev pub others_of : ServerGrp → ℕ → List ℕ
others_of sg srv = select (λ i. not (i == srv) && sg.connected i) (all sg)

-- `IsolateNode` in a group, with the new record of isolated servers
unfoldable pub isolate_in : ServerGrp → ℕ → ServerGrp × List ℕ
isolate_in sg srv = (partition sg (others_of sg srv) (srv ∷ []), srv ∷ [])

-- `RecoverNode` in a group, with what is left of the record
unfoldable pub recover_in : ServerGrp → List ℕ → ℕ → ServerGrp × List ℕ
recover_in sg marks srv = (partition sg (others_of sg srv ++ srv ∷ []) [], remove srv marks)

abbrev pub is_nil : List ℕ → Bool
is_nil [] = true
is_nil (x ∷ xs) = false

-- `reapplyIsolation` in a group
unfoldable pub reapply_in : ServerGrp → List ℕ → ServerGrp
reapply_in sg marks =
    let rest = select (λ i. sg.connected i && not (is_listed i marks)) (all sg) in
    let isolated = select (λ i. sg.connected i && is_listed i marks) (all sg) in
    if is_nil marks || is_nil isolated || is_nil rest then sg else partition sg rest isolated

-- `StartServer` in a group: whether it succeeds. `started` is whether the daemon starts, if it has to.
unfoldable pub start_in : Bool → ServerGrp → List ℕ → ℕ → ServerGrp × Bool
unfolding reapply_in
start_in started sg marks srv =
    let up = start_server started sg srv in
    if sg.running srv || started
    then (let on = reapply_in (connect_one up srv) marks in (on, on.connected srv))
    else (up, false)

abbrev pub marks_of : Option (List ℕ) → List ℕ
marks_of none = []
marks_of (some marks) = marks

-- An operation on a server of a group that exists
abbrev pub with_server : Manager → ℤ → ℕ → (ServerGrp → Manager) → Manager
with_server m gid srv f = elim (lookup gid m.infra) [
  | none ↦ m
  | some sg ↦ if ltb srv sg.size then f sg else m
]

unfoldable pub kill_server : Manager → ℤ → ℕ → Manager
kill_server m gid srv =
    with_server m gid srv (λ sg. record m { infra = insert gid (shutdown_server sg srv) m.infra })

unfoldable pub isolate_node : Manager → ℤ → ℕ → Manager
unfolding isolate_in
isolate_node m gid srv = with_server m gid srv (λ sg. record m {
  infra = insert gid (isolate_in sg srv).0 m.infra;
  isolated = insert gid (isolate_in sg srv).1 m.isolated;
})

abbrev pub set_marks : ℤ → List ℕ → Assoc ℤ (List ℕ) → Assoc ℤ (List ℕ)
set_marks gid [] isolated = delete gid isolated
set_marks gid (x ∷ xs) isolated = insert gid (x ∷ xs) isolated

unfoldable pub recover_node : Manager → ℤ → ℕ → Manager
unfolding recover_in
recover_node m gid srv = with_server m gid srv (λ sg.
    let r = recover_in sg (marks_of (lookup gid m.isolated)) srv in
    record m { infra = insert gid r.0 m.infra; isolated = set_marks gid r.1 m.isolated })

-- The error is `false`.
unfoldable pub start_server_of : Bool → Manager → ℤ → ℕ → Manager × Bool
unfolding start_in
start_server_of started m gid srv = elim (lookup gid m.infra) [
  | none ↦ (m, false)
  | some sg ↦
      if ltb srv sg.size
      then (let r = start_in started sg (marks_of (lookup gid m.isolated)) srv in
          (record m { infra = insert gid r.0 m.infra }, r.1))
      else (m, false)
]

unfoldable pub kill_group : Manager → ℤ → Manager
kill_group m gid = elim (lookup gid m.infra) [
  | none ↦ m
  | some sg ↦ record m { infra = insert gid (shutdown sg) m.infra }
]

unfoldable pub start_group : (ℕ → Bool) → Manager → ℤ → Manager × Bool
start_group started m gid = elim (lookup gid m.infra) [
  | none ↦ (m, false)
  | some sg ↦ (record m { infra = insert gid (start_servers started sg) m.infra }, true)
]

-- The loop of `NewGid`, with fuel
unfoldable pub skip_taken : ℕ → Assoc ℤ Bool → ℕ → Option ℕ
skip_taken zero groups gid = none
skip_taken (suc fuel) groups gid =
    let next = skip_taken fuel groups (suc gid) in
    elim (lookup (pos gid) groups) [
      | none ↦ some gid
      | some taken ↦ if taken then next else some gid
    ]

unfoldable pub new_gid : Manager → Option (Manager × ℕ)
unfolding skip_taken
new_gid m = skip_taken (suc (length m.groups)) m.groups m.next_gid >>= λ gid.
    some (record m { next_gid = suc gid }, gid)

abbrev pub is_monkey : ℤ → List ℤ → Bool
is_monkey gid [] = false
is_monkey gid (g ∷ gs) = int_eq.beq g gid || is_monkey gid gs

unfoldable pub start_chaos : Manager → ℤ → Manager × Bool
start_chaos m gid = elim (lookup gid m.infra) [
  | none ↦ (m, false)
  | some sg ↦ (
    if is_monkey gid m.chaos_monkeys
        then m
        else record m { chaos_monkeys = m.chaos_monkeys ++ gid ∷ [] },
    true,
  )
]

abbrev pub drop_monkey : ℤ → List ℤ → List ℤ
drop_monkey gid [] = []
drop_monkey gid (g ∷ gs) = if int_eq.beq g gid then gs else g ∷ drop_monkey gid gs

unfoldable pub stop_chaos : Manager → ℤ → Manager
stop_chaos m gid = record m { chaos_monkeys = drop_monkey gid m.chaos_monkeys }

-- Only a configuration with no lower number is taken, and a lower one does not count as fresh.
-- `none` is a `nil` dereference.
unfoldable pub update_cached_cfg : ℕ → Manager → ShardConfig → Option Manager
update_cached_cfg now m new = m.cached_config >>= λ cfg. some (
    if leb cfg.num new.num
    then record m {
      last_config_ok = now;
      cached_config = if ltb cfg.num new.num then some new else some cfg;
    }
    else m)

unfoldable pub update_cached_next_cfg : Manager → ShardConfig → Option Manager
update_cached_next_cfg m new = m.cached_next_config >>= λ cfg.
    some (if ltb cfg.num new.num then record m { cached_next_config = some new } else m)

-- `hasPendingMigration`, by the two cached configurations
unfoldable pub is_migrating : Manager → Bool
is_migrating m = elim m.cached_config [
  | none ↦ false
  | some cfg ↦ elim m.cached_next_config [ none ↦ false | some next ↦ not (cfg.num == next.num) ]
]
