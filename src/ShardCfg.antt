-- ===== src/ShardCfg.antt =====
-- The shard configuration and its balancing: src/shardkv/shardcfg/shardcfg.go. `Shards` is a list
-- of NShards group ids; the ids are Go's `int`s, since -1 stands for no group.
use mit_distro_sys.Common.{
  ℕ, String, Bool, true, false, Option, none, some, List, [], ◌∷◌, ◌++◌, map, ◌+◌, ltb, leb, ◌==◌,
  if◌then◌else◌, string_eq, nat_eq, Eq, zero, suc, ◌≡◌, ◌↔◌, ◌&&◌, ◌||◌, arith, ◌>>=◌, get_elem?,
}
use mit_distro_sys.Common.Assoc.{Assoc, lookup, copy}
mod Count
mod Load
pub mod Rebalance
pub mod Stable
pub mod Membership

pub data ℤ : Type 0 where
  pos : ℕ → ℤ
  negsuc : ℕ → ℤ

abbrev pub same_int : ℤ → ℤ → Bool
same_int (pos a) (pos b) = a == b
same_int (negsuc a) (negsuc b) = a == b
same_int (pos a) (negsuc b) = false
same_int (negsuc a) (pos b) = false

abbrev pub le_int : ℤ → ℤ → Bool
le_int (pos a) (pos b) = leb a b
le_int (negsuc a) (negsuc b) = leb b a
le_int (pos a) (negsuc b) = false
le_int (negsuc a) (pos b) = true

pub same_int_iff : (a b : ℤ) → (same_int a b ≡ true) ↔ (a ≡ b)
same_int_iff (pos a) (pos b) = ground arith
same_int_iff (negsuc a) (negsuc b) = ground arith
same_int_iff (pos a) (negsuc b) = ground arith
same_int_iff (negsuc a) (pos b) = ground arith

instance abbrev pub int_eq : Eq ℤ
int_eq = record { beq = same_int; beq_iff = same_int_iff }

pub record ShardConfig : Type 0 where
  pub num : ℕ
  pub shards : List ℤ
  pub groups : Assoc ℤ (List String)

abbrev pub gids : ShardConfig → List ℤ
gids cfg = map (λ g. g.0) cfg.groups

-- `counts[g]` after the loop over the shards
unfoldable pub count {ℓ} : {A : Type ℓ} ⦃e : Eq A⦄ → A → List A → ℕ
count g [] = 0
count ⦃e⦄ g (x ∷ xs) = let n = count g xs in if e.beq x g then suc n else n

-- `slices.Sort`
unfoldable pub sorted_insert : ℤ → List ℤ → List ℤ
sorted_insert g [] = g ∷ []
sorted_insert g (x ∷ xs) =
    let rest = sorted_insert g xs in if le_int g x then g ∷ x ∷ xs else x ∷ rest

unfoldable pub sort : List ℤ → List ℤ
sort [] = []
sort (g ∷ gs) = sorted_insert g (sort gs)

-- The four results of `analyze`. `most_next` is `mn + 1`, which starts at 0.
pub record Analysis : Type 0 where
  pub most_gid : ℤ
  pub most_next : ℕ
  pub least_gid : ℤ
  pub least : ℕ

abbrev pub no_analysis : Analysis
no_analysis = record { most_gid = negsuc 0; most_next = 0; least_gid = negsuc 0; least = 257 }

unfoldable pub lower : ℕ → Analysis → ℤ → Analysis
lower n a g = if ltb n a.least then record a { least = n; least_gid = g } else a

unfoldable pub raise : ℕ → Analysis → ℤ → Analysis
raise n a g = if leb a.most_next n then record a { most_next = suc n; most_gid = g } else a

unfoldable pub weigh : List ℤ → Analysis → List ℤ → Analysis
weigh shards a [] = a
weigh shards a (g ∷ gs) = let n = count g shards in weigh shards (raise n (lower n a g) g) gs

unfoldable pub analyze : List ℤ → List ℤ → Analysis
analyze shards groups = weigh shards no_analysis (sort groups)

-- The loop that gives every shard without a group to the group with the fewest: `done` are the
-- shards before, in order.
unfoldable pub assign : Assoc ℤ (List String) → List ℤ → List ℤ → List ℤ
assign groups done [] = done
assign groups done (g ∷ rest) =
    let least = (analyze (done ++ (g ∷ rest)) (map (λ p. p.0) groups)).least_gid in
    assign groups (done ++ ((elim (lookup g groups) [ none ↦ least | some srvs ↦ g ]) ∷ [])) rest

-- `for s, g := range cfg.Shards { if g == mg { cfg.Shards[s] = lg; break } }`
unfoldable pub move_one {ℓ} : {A : Type ℓ} ⦃e : Eq A⦄ → A → A → List A → List A
move_one mg lg [] = []
move_one ⦃e⦄ mg lg (g ∷ rest) =
    let moved = move_one mg lg rest in if e.beq g mg then lg ∷ rest else g ∷ moved

-- The loop that moves shards, on fuel: `none` is a loop that has not ended.
unfoldable pub move_shards : ℕ → List ℤ → List ℤ → Option (List ℤ)
move_shards zero groups shards = none
move_shards (suc fuel) groups shards =
    let a = analyze shards groups in
    let rest = move_shards fuel groups (move_one a.most_gid a.least_gid shards) in
    if ltb a.most_next (a.least + 3) then some shards else rest

-- At most 66 pairs of the twelve shards have one group, and every move lowers their number.
abbrev pub enough_moves : ℕ
enough_moves = 67

unfoldable pub rebalance : ShardConfig → Option ShardConfig
rebalance cfg = elim cfg.groups [
  | [] ↦ some (record cfg { shards = map (λ g. pos 0) cfg.shards })
  | p ∷ ps ↦ move_shards enough_moves (gids cfg) (assign cfg.groups [] cfg.shards) >>= λ shards.
      some (record cfg { shards = shards })
]

-- `EqualTo` compares the shards one by one.
unfoldable pub same_shards : List ℤ → List ℤ → Bool
same_shards [] ys = true
same_shards (x ∷ xs) [] = false
same_shards (x ∷ xs) (y ∷ ys) = same_int x y && same_shards xs ys

unfoldable pub equal_to : ShardConfig → ShardConfig → Bool
equal_to cfg other = (cfg.num == other.num) && same_shards cfg.shards other.shards

unfoldable pub copy_config : ShardConfig → ShardConfig
copy_config cfg = record cfg { groups = copy cfg.groups }

unfoldable pub gid_servers : ShardConfig → ℕ → Option (ℤ × List String × Bool)
gid_servers cfg sh = get_elem? cfg.shards sh >>= λ gid.
    some (elim (lookup gid cfg.groups) [ none ↦ (gid, [], false) | some srvs ↦ (gid, srvs, true) ])

abbrev pub is_in : ℤ → List ℤ → Bool
is_in gid [] = false
is_in gid (g ∷ gs) = same_int g gid || is_in gid gs

unfoldable pub is_member : ShardConfig → ℤ → Bool
is_member cfg gid = is_in gid cfg.shards
