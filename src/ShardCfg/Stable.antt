-- ===== src/ShardCfg/Stable.antt =====
-- Rebalance leaves a balanced configuration as it is.
use mit_distro_sys.Common.{
  string_eq, nat_eq, map, ℕ, suc, ◌+◌, ◌≤◌, ◌<◌, String, ◌≡◌, refl, sym, ap, ◌∙◌, subst₂, inl, inr,
  true, some, List, [], ◌∷◌, ◌++◌, arith, ltb, lt→ltb, length, AllOf,
}
use mit_distro_sys.Common.Assoc.{Assoc}
use mit_distro_sys.ShardGrp.Types.{n_shards}
use mit_distro_sys.ShardCfg.{
  int_eq, ℤ, pos, count, analyze, move_shards, assign, rebalance, ShardConfig,
}
use mit_distro_sys.ShardCfg.Count.{count-le-length}
use mit_distro_sys.ShardCfg.Load.{analyze-Named}
use mit_distro_sys.ShardCfg.Rebalance.{Balanced, Has, Placed}

append_assoc : (xs : List ℤ) (g : ℤ) (ys : List ℤ) → (xs ++ (g ∷ [])) ++ ys ≡ xs ++ (g ∷ ys)
append_assoc [] g ys = refl
append_assoc (x ∷ xs) g ys = ap (λ zs. x ∷ zs) (append_assoc xs g ys)

append_nil : (xs : List ℤ) → xs ++ [] ≡ xs
append_nil [] = refl
append_nil (x ∷ xs) = ap (λ zs. x ∷ zs) (append_nil xs)

assign_stable :
    (groups : Assoc ℤ (List String)) (rest done : List ℤ)
    → AllOf (Has groups) rest
    → assign groups done rest ≡ done ++ rest
unfolding assign
assign_stable groups [] done h = sym (append_nil done)
assign_stable groups (g ∷ rest) done ((srvs, e), h) =
    rw e (assign_stable groups rest (done ++ (g ∷ [])) h ∙ append_assoc done g rest)

-- In balanced groups the most and the least loaded differ by less than two shards.
analyze-close :
    (gs shards : List ℤ)
    → length shards < 257
    → Balanced shards gs
    → ltb (analyze shards gs).most_next ((analyze shards gs).least + 3) ≡ true
analyze-close gs shards few (n, h) =
    let a = analyze shards gs in
    let named = analyze-Named shards (λ g. (n ≤ count g shards) × (count g shards ≤ suc n)) gs h in
    lt→ltb _ _ (elim named.1 [
      | inl e ↦ omega (arith, e)
      | inr (p, e) ↦ elim named.0 [
        | inl f ↦ omega (arith, e, f, few, count-le-length a.most_gid shards)
        | inr (q, f) ↦ omega (arith, e, f, p, q)
      ]
    ])

all_unassigned : (xs : List ℤ) → AllOf (λ g. g ≡ pos 0) xs → map (λ g. pos 0) xs ≡ xs
all_unassigned [] h = refl
all_unassigned (x ∷ xs) (e, h) =
    subst₂ (λ a b. pos 0 ∷ map (λ g. pos 0) xs ≡ a ∷ b) (sym e) (all_unassigned xs h) refl

stable :
    (num : ℕ) (shards : List ℤ) (groups : Assoc ℤ (List String))
    → length shards ≡ n_shards
    → Placed groups shards
    → rebalance (record { num = num; shards = shards; groups = groups })
      ≡ some (record { num = num; shards = shards; groups = groups })
unfolding rebalance move_shards
stable num shards [] n h =
    ap (λ s. some (record { num = num; shards = s; groups = [] })) (all_unassigned shards h)
stable num shards (p ∷ ps) n (h, b) =
    rw (assign_stable (p ∷ ps) shards [] h)
      (rw (analyze-close (map (λ q. q.0) (p ∷ ps)) shards (omega (arith, n)) b) refl)

-- Rebalancing twelve shards that are placed, so in groups and balanced or all unassigned if there
-- are no groups, changes nothing.
pub rebalance-stable :
    (cfg : ShardConfig)
    → length cfg.shards ≡ n_shards
    → Placed cfg.groups cfg.shards
    → rebalance cfg ≡ some cfg
rebalance-stable cfg n h = stable cfg.num cfg.shards cfg.groups n h
