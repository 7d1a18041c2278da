-- ===== src/ShardCfg/Rebalance.antt =====
-- Rebalance ends, balances the groups and leaves no shard without a group.
use mit_distro_sys.Common.Assoc.{Assoc, lookup}
use mit_distro_sys.ShardGrp.Types.{n_shards}
use mit_distro_sys.Common.{
  string_eq, nat_eq, ℕ, zero, suc, ◌+◌, ◌≤◌, ◌<◌, ◌≡◌, inl, inr, false, some, List, [], ◌∷◌, arith,
  ltb, Bool-cases, length, refl, ap, ◌∙◌, ◌≢◌, ltb→lt, String, ◌++◌, map, Option-cases, beq_self,
  length-append, subst, length-map, AllOf, AllOf-imp,
}
use mit_distro_sys.ShardCfg.{
  int_eq, ℤ, count, analyze, move_one, move_shards, same_int, ShardConfig, pos, assign, rebalance,
  enough_moves,
}
use mit_distro_sys.ShardCfg.Count.{
  triangle, pairs, pairs-move_one, length-move_one, pairs-le-triangle,
}
use mit_distro_sys.ShardCfg.Load.{analyze-Named, analyze-least, analyze-Within}

-- No two groups differ by more than one shard.
abbrev pub Balanced : List ℤ → List ℤ → Type 0
Balanced shards gs = (n : ℕ) × AllOf (λ g. (n ≤ count g shards) × (count g shards ≤ suc n)) gs

-- The move of a round of the loop.
abbrev pub moved : List ℤ → List ℤ → List ℤ
moved gs shards = move_one (analyze shards gs).most_gid (analyze shards gs).least_gid shards

not_ltb→ge : (a b : ℕ) → ltb a b ≡ false → b ≤ a
not_ltb→ge a b h = ground arith

module _ (P : ℤ → Type 0) where
  AllOf-move_one : (mg lg : ℤ) (xs : List ℤ) → P lg → AllOf P xs → AllOf P (move_one mg lg xs)
  unfolding move_one
  AllOf-move_one mg lg [] p h = h
  AllOf-move_one mg lg (x ∷ xs) p (q, h) = elim (Bool-cases (same_int x mg)) [
    | inl y ↦ rw y (p, h)
    | inr n ↦ rw n (q, AllOf-move_one mg lg xs p h)
  ]

  -- While two groups differ by two shards or more, a move lowers the number of pairs.
  pairs-moved :
      (g : ℤ) (gs shards : List ℤ)
      → length shards < 257
      → AllOf P (g ∷ gs)
      → (analyze shards (g ∷ gs)).least + 3 ≤ (analyze shards (g ∷ gs)).most_next
      → pairs (moved (g ∷ gs) shards) < pairs shards
  pairs-moved g gs shards n hs far =
      let a = analyze shards (g ∷ gs) in
      let lo = analyze-least shards P g gs n hs in
      elim (analyze-Named shards P (g ∷ gs) hs).1 [
        | inl e ↦ omega (arith, e, far)
        | inr hi ↦
            (let differ : a.most_gid ≢ a.least_gid =
                λ e. omega (arith, ap (λ x. count x shards) e, hi.1, lo.1, far) in
              omega (
                arith,
                pairs-move_one a.most_gid a.least_gid shards differ (omega (arith, hi.1, far)),
                hi.1,
                lo.1,
                far,
              ))
      ]

  -- The loop ends within the fuel, with balanced groups.
  move_shards-Balanced :
      (fuel : ℕ) (g : ℤ) (gs shards : List ℤ)
      → pairs shards < fuel
      → length shards < 257
      → AllOf P (g ∷ gs)
      → AllOf P shards
      → (out : List ℤ) × (move_shards fuel (g ∷ gs) shards ≡ some out)
        × Balanced out (g ∷ gs)
        × AllOf P out
        × (length out ≡ length shards)
  unfolding move_shards
  move_shards-Balanced zero g gs shards m n hs h = absurd (omega (arith, m))
  move_shards-Balanced (suc fuel) g gs shards m n hs h =
      let a = analyze shards (g ∷ gs) in
      elim (Bool-cases (ltb a.most_next (a.least + 3))) [
        | inl y ↦ rw y (
          shards,
          refl,
          (
            a.least,
            AllOf-imp (g ∷ gs) (λ x w. (w.0, omega (arith, w.1, ltb→lt _ _ y)))
                (analyze-Within shards (g ∷ gs)),
          ),
          h,
          refl,
        )
        | inr t ↦
            (let lo = analyze-least shards P g gs n hs in
              let far = not_ltb→ge _ _ t in
              let same = length-move_one a.most_gid a.least_gid shards in
              let less = pairs-moved g gs shards n hs far in
              let r =
                move_shards-Balanced fuel g gs (moved (g ∷ gs) shards) (omega (arith, less, m))
                  (omega (arith, same, n)) hs
                  (AllOf-move_one a.most_gid a.least_gid shards lo.0 h) in
              rw t (r.0, r.1, r.2, r.3, r.4 ∙ same))
      ]

-- The shard's group is one of the groups.
abbrev pub Has : Assoc ℤ (List String) → ℤ → Type 0
Has groups g = (srvs : List String) × (lookup g groups ≡ some srvs)

Has-later :
    (k : ℤ) (v : List String) (m : Assoc ℤ (List String)) (g : ℤ) → Has m g → Has ((k, v) ∷ m) g
unfolding lookup
Has-later k v m g (srvs, h) = elim (Bool-cases (same_int k g)) [
  | inl y ↦ (v, rw y)
  | inr t ↦ (srvs, rw t h)
]

gids-Has : (m : Assoc ℤ (List String)) → AllOf (Has m) (map (λ p. p.0) m)
unfolding lookup
gids-Has [] = tt
gids-Has ((k, v) ∷ m) =
    ((v, rw (beq_self k)), AllOf-imp (map (λ p. p.0) m) (Has-later k v m) (gids-Has m))

AllOf-append : (P : ℤ → Type 0) (xs : List ℤ) (g : ℤ) → AllOf P xs → P g → AllOf P (xs ++ (g ∷ []))
AllOf-append P [] g h p = (p, tt)
AllOf-append P (x ∷ xs) g (q, h) p = (q, AllOf-append P xs g h p)

-- The first loop puts every shard in a group, and the number of shards stays.
assign-Has :
    (p : ℤ × List String) (ps : Assoc ℤ (List String)) (rest done : List ℤ)
    → length done + length rest < 257
    → AllOf (Has (p ∷ ps)) done
    → AllOf (Has (p ∷ ps)) (assign (p ∷ ps) done rest)
      × (length (assign (p ∷ ps) done rest) ≡ length done + length rest)
unfolding assign
assign-Has p ps [] done n h = (h, omega arith)
assign-Has p ps (g ∷ rest) done n h =
    let shards = done ++ (g ∷ rest) in
    let few : length shards < 257 = omega (arith, n, length-append done (g ∷ rest)) in
    let lo = analyze-least shards (Has (p ∷ ps)) p.0 (map (λ q. q.0) ps) few (gids-Has (p ∷ ps)) in
    let next : (x : ℤ)
        → Has (p ∷ ps) x
        → AllOf (Has (p ∷ ps)) (assign (p ∷ ps) (done ++ (x ∷ [])) rest)
          × (length (assign (p ∷ ps) (done ++ (x ∷ [])) rest) ≡ length done + length (g ∷ rest)) =
      λ x hx.
        let same = length-append done (x ∷ []) in
        let r =
          assign-Has p ps rest (done ++ (x ∷ [])) (omega (arith, n, same))
            (AllOf-append (Has (p ∷ ps)) done x h hx) in
        (r.0, omega (arith, r.1, same)) in
    elim (Option-cases (lookup g (p ∷ ps))) [
      | inl y ↦ rw y (next _ lo.0)
      | inr (srvs, e) ↦ rw e (next g (srvs, e))
    ]

-- Where the shards are afterwards: nowhere if there are no groups, else in groups, balanced.
abbrev pub Placed : Assoc ℤ (List String) → List ℤ → Type 0
Placed [] shards = AllOf (λ g. g ≡ pos 0) shards
Placed (p ∷ ps) shards = AllOf (Has (p ∷ ps)) shards × Balanced shards (map (λ q. q.0) (p ∷ ps))

unassigned : (xs : List ℤ) → AllOf (λ g. g ≡ pos 0) (map (λ g. pos 0) xs)
unassigned [] = tt
unassigned (x ∷ xs) = (refl, unassigned xs)

-- What `out` is of a configuration that was balanced.
abbrev pub Rebalanced : ShardConfig → ShardConfig → Type 0
Rebalanced cfg out =
    Placed cfg.groups out.shards
    × (out.num ≡ cfg.num)
    × (out.groups ≡ cfg.groups)
    × (length out.shards ≡ n_shards)

rebalance_total :
    (num : ℕ) (shards : List ℤ) (groups : Assoc ℤ (List String))
    → length shards ≡ n_shards
    → (out : ShardConfig) × (rebalance (record { num = num; shards = shards; groups = groups })
        ≡ some out)
      × Rebalanced (record { num = num; shards = shards; groups = groups }) out
unfolding rebalance
rebalance_total num shards [] n = (
  record { num = num; shards = map (λ g. pos 0) shards; groups = [] },
  refl,
  (unassigned shards, refl, refl, length-map shards (λ g. pos 0) ∙ n),
)
rebalance_total num shards (p ∷ ps) n =
    let a = assign-Has p ps shards [] (omega (arith, n)) tt in
    let kept : length (assign (p ∷ ps) [] shards) ≡ 12 = omega (arith, a.1, n) in
    let few : pairs (assign (p ∷ ps) [] shards) < enough_moves = omega (
      arith,
      subst (λ k. pairs (assign (p ∷ ps) [] shards) ≤ triangle k) kept
          (pairs-le-triangle (assign (p ∷ ps) [] shards)),
    ) in
    let r =
      move_shards-Balanced (Has (p ∷ ps)) enough_moves p.0 (map (λ q. q.0) ps)
        (assign (p ∷ ps) [] shards) few (omega (arith, kept)) (gids-Has (p ∷ ps)) a.0 in
    (
      record { num = num; shards = r.0; groups = p ∷ ps },
      rw (r.1) refl,
      ((r.3, r.2), refl, refl, r.4 ∙ kept),
    )

-- Rebalancing twelve shards ends. It leaves the number, the groups and how many shards there are;
-- with no groups every shard is unassigned, and otherwise every shard is in one of the groups and
-- no two groups differ by more than one shard.
pub rebalance-Rebalanced :
    (cfg : ShardConfig)
    → length cfg.shards ≡ n_shards
    → (out : ShardConfig) × (rebalance cfg ≡ some out) × Rebalanced cfg out
rebalance-Rebalanced cfg n = rebalance_total cfg.num cfg.shards cfg.groups n
