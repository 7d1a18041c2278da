-- ===== src/ShardCtrl/Order.antt =====
-- The current configuration never overtakes the next one, whatever the controllers do.
use mit_distro_sys.Common.{
  ℕ, string_eq, nat_eq, suc, ◌≤◌, ◌<◌, ◌≡◌, refl, true, List, [], ◌∷◌, arith, ==_refl,
}
use mit_distro_sys.ShardCfg.{ShardConfig, equal_to, same_shards, same_int, ℤ, pos, negsuc}
use mit_distro_sys.ShardCtrl.{Progress, idle, chosen, saving, unsure, migrating, recovering}
pub mod Stores
pub mod Steps
pub mod Runs

same_int_refl : (a : ℤ) → same_int a a ≡ true
same_int_refl (pos n) = ==_refl n
same_int_refl (negsuc n) = ==_refl n

same_shards_refl : (xs : List ℤ) → same_shards xs xs ≡ true
unfolding same_shards
same_shards_refl [] = refl
same_shards_refl (x ∷ xs) = rw (same_int_refl x, same_shards_refl xs)

pub equal_to_refl : (cfg : ShardConfig) → equal_to cfg cfg ≡ true
unfolding equal_to
equal_to_refl cfg = rw (==_refl cfg.num, same_shards_refl cfg.shards)

pub equal_to-num : (a b : ShardConfig) → equal_to a b ≡ true → a.num ≡ b.num
unfolding equal_to
equal_to-num a b e = ground arith

-- Both configurations with their versions.
pub record Cells : Type 0 where
  pub current : ShardConfig
  pub current_version : ℕ
  pub next : ShardConfig
  pub next_version : ℕ

-- A configuration that a controller has not installed yet: as long as the current one has the version
-- that was read, the new number is higher.
abbrev pub IsAhead : Cells → ℕ → ShardConfig → Type 0
IsAhead c ver new = (ver ≤ c.current_version) × (ver ≡ c.current_version → c.current.num < new.num)

-- A configuration that was once the next one, and still is if it has its number.
abbrev pub WasNext : Cells → ShardConfig → Type 0
WasNext c cfg = (cfg.num ≤ c.next.num) × (cfg.num ≡ c.next.num → equal_to c.next cfg ≡ true)

-- A configuration that was once the current one, at this version.
abbrev pub WasCurrent : Cells → ShardConfig → ℕ → Type 0
WasCurrent c cfg ver =
    (ver ≤ c.current_version) × (ver ≡ c.current_version → c.current.num ≡ cfg.num)

abbrev pub ProgressOk : Cells → Progress → Type 0
ProgressOk c idle = Unit
ProgressOk c (chosen ver new) = IsAhead c ver new
ProgressOk c (saving ver new next_ver) =
    IsAhead c ver new
    × (next_ver ≤ c.next_version)
    × (next_ver ≡ c.next_version → c.next.num < new.num)
ProgressOk c (unsure ver new) = IsAhead c ver new
ProgressOk c (migrating ver new) = IsAhead c ver new × WasNext c new
ProgressOk c (recovering current ver) = WasCurrent c current ver

-- The numbers and versions of both only grow, and a version has one configuration.
abbrev pub Later : Cells → Cells → Type 0
Later c d =
    (c.current_version ≤ d.current_version)
    × (c.next_version ≤ d.next_version)
    × (c.current.num ≤ d.current.num)
    × (c.next.num ≤ d.next.num)

-- `next` was replaced by a configuration of a higher number.
pub next-Ok :
    (c : Cells) (cfg : ShardConfig) (p : Progress)
    → c.next.num < cfg.num
    → ProgressOk c p
    → ProgressOk (record c { next = cfg; next_version = suc c.next_version }) p
next-Ok c cfg idle h ok' = tt
next-Ok c cfg (chosen ver new) h ok' = ok'
next-Ok c cfg (saving ver new next_ver) h (a, b, d) =
    (a, omega (arith, b), λ e. absurd (omega (arith, b, e)))
next-Ok c cfg (unsure ver new) h ok' = ok'
next-Ok c cfg (migrating ver new) h (a, b) =
    (a, (omega (arith, b.0, h), λ e. absurd (omega (arith, b.0, h, e))))
next-Ok c cfg (recovering current ver) h ok' = ok'

-- `current` was replaced.
pub current-Ok :
    (c : Cells) (cfg : ShardConfig) (p : Progress)
    → ProgressOk c p
    → ProgressOk (record c { current = cfg; current_version = suc c.current_version }) p
current-Ok c cfg idle ok' = tt
current-Ok c cfg (chosen ver new) (a, b) = (omega (arith, a), λ e. absurd (omega (arith, a, e)))
current-Ok c cfg (saving ver new next_ver) ((a, b), d, e) =
    ((omega (arith, a), λ f. absurd (omega (arith, a, f))), d, e)
current-Ok c cfg (unsure ver new) (a, b) = (omega (arith, a), λ e. absurd (omega (arith, a, e)))
current-Ok c cfg (migrating ver new) ((a, b), d) =
    ((omega (arith, a), λ e. absurd (omega (arith, a, e))), d)
current-Ok c cfg (recovering current ver) (a, b) =
    (omega (arith, a), λ e. absurd (omega (arith, a, e)))
