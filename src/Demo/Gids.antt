-- ===== src/Demo/Gids.antt =====
-- `NewGid` ends, with a group id that is not in use.
use mit_distro_sys.Common.{
  ℕ, nat_eq, zero, suc, ◌≤◌, ◌<◌, ◌≡◌, ◌≢◌, refl, Bool, true, false, some, [], ◌∷◌, arith, leb,
  if◌then◌else◌, length, Option-cases, Bool-cases, inl, inr, ◌==◌,
}
use mit_distro_sys.Common.Assoc.{Assoc, lookup}
use mit_distro_sys.ShardCfg.{ℤ, pos, negsuc, int_eq}
use mit_distro_sys.Demo.Manager.{Manager, skip_taken, new_gid}

-- The entries of group ids that are not below a number.
count_from : ℕ → Assoc ℤ Bool → ℕ
count_from gid [] = 0
count_from gid ((pos k, taken) ∷ m) =
    let rest = count_from gid m in if leb gid k then suc rest else rest
count_from gid ((negsuc k, taken) ∷ m) = count_from gid m

count_from-le-length : (gid : ℕ) (m : Assoc ℤ Bool) → count_from gid m ≤ length m
unfolding count_from
count_from-le-length gid [] = omega arith
count_from-le-length gid ((pos k, taken) ∷ m) = ground (arith, count_from-le-length gid m)
count_from-le-length gid ((negsuc k, taken) ∷ m) = ground (arith, count_from-le-length gid m)

count_from-suc : (gid : ℕ) (m : Assoc ℤ Bool) → count_from (suc gid) m ≤ count_from gid m
unfolding count_from
count_from-suc gid [] = omega arith
count_from-suc gid ((pos k, taken) ∷ m) = ground (arith, count_from-suc gid m)
count_from-suc gid ((negsuc k, taken) ∷ m) = ground (arith, count_from-suc gid m)

count_from-lookup :
    (gid : ℕ) (m : Assoc ℤ Bool) (taken : Bool)
    → lookup (pos gid) m ≡ some taken
    → count_from (suc gid) m < count_from gid m
unfolding count_from lookup
count_from-lookup gid [] taken e = absurd (ground arith)
count_from-lookup gid ((pos k, b) ∷ m) taken e = elim (Bool-cases (k == gid)) [
  | inl here ↦ ground (arith, count_from-suc gid m)
  | inr other ↦ ground (arith, count_from-lookup gid m taken)
]
count_from-lookup gid ((negsuc k, b) ∷ m) taken e = ground (arith, count_from-lookup gid m taken)

skip_taken_lem :
    (fuel : ℕ) (groups : Assoc ℤ Bool) (gid : ℕ)
    → count_from gid groups < fuel
    → (g : ℕ) × (skip_taken fuel groups gid ≡ some g)
      × (gid ≤ g)
      × (lookup (pos g) groups ≢ some true)
unfolding skip_taken
skip_taken_lem zero groups gid lt = absurd (ground arith)
skip_taken_lem (suc fuel) groups gid lt = elim (Option-cases (lookup (pos gid) groups)) [
  | inl free ↦ (gid, rw (free, skip_taken) refl, ground arith, ground arith)
  | inr (true, used) ↦
      let (g, e, le, h) =
        skip_taken_lem fuel groups (suc gid)
          (ground (arith, count_from-lookup gid groups true used)) in
      (g, rw (used, skip_taken) e, ground arith, h)
  | inr (false, dropped) ↦ (gid, rw (dropped, skip_taken) refl, ground arith, ground arith)
]

-- `NewGid` ends with a group id that is not below the next one and that no active group has, and the
-- next one is then above it; so no id is given twice.
pub new_gid_returns :
    (m : Manager)
    → (gid : ℕ) × (new_gid m ≡ some (record m { next_gid = suc gid }, gid))
      × (m.next_gid ≤ gid)
      × (lookup (pos gid) m.groups ≢ some true)
unfolding new_gid
new_gid_returns m =
    let (g, e, le, h) =
      skip_taken_lem (suc (length m.groups)) m.groups m.next_gid
        (ground (arith, count_from-le-length m.next_gid m.groups)) in
    (g, rw e refl, le, h)
