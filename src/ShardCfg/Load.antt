-- ===== src/ShardCfg/Load.antt =====
-- What `analyze` finds: bounds on the number of shards of every group, met by the groups it names.
use mit_distro_sys.ShardCfg.Count.{count-le-length}
use mit_distro_sys.Common.{
  suc, ◌≤◌, ◌≡◌, ◌⊎◌, List, [], ◌∷◌, arith, refl, subst, inl, inr, ltb, leb, Bool-cases, ◌<◌,
  length, AllOf,
}
use mit_distro_sys.ShardCfg.{
  int_eq, le_int, ℤ, count, Analysis, lower, raise, weigh, sort, sorted_insert, no_analysis,
  analyze,
}

module _ (P : ℤ → Type 0) where
  AllOf-sorted_insert : (g : ℤ) (gs : List ℤ) → P g → AllOf P gs → AllOf P (sorted_insert g gs)
  unfolding sorted_insert
  AllOf-sorted_insert g [] p h = (p, h)
  AllOf-sorted_insert g (x ∷ xs) p (q, h) = elim (Bool-cases (le_int g x)) [
    | inl y ↦ rw y (p, (q, h))
    | inr n ↦ rw n (q, AllOf-sorted_insert g xs p h)
  ]

  unsorted_insert-AllOf : (g : ℤ) (gs : List ℤ) → AllOf P (sorted_insert g gs) → P g × AllOf P gs
  unfolding sorted_insert
  unsorted_insert-AllOf g [] h = h
  unsorted_insert-AllOf g (x ∷ xs) h = elim (Bool-cases (le_int g x)) [
    | inl y ↦ subst (AllOf P) {y = g ∷ x ∷ xs} (rw y) h
    | inr n ↦
        (let k = subst (AllOf P) {y = x ∷ sorted_insert g xs} (rw n) h in
          let r = unsorted_insert-AllOf g xs k.1 in (r.0, (k.0, r.1)))
  ]

  pub AllOf-sort : (gs : List ℤ) → AllOf P gs → AllOf P (sort gs)
  unfolding sort
  AllOf-sort [] h = h
  AllOf-sort (g ∷ gs) (p, h) = AllOf-sorted_insert g (sort gs) p (AllOf-sort gs h)

  pub unsort-AllOf : (gs : List ℤ) → AllOf P (sort gs) → AllOf P gs
  unfolding sort
  unsort-AllOf [] h = h
  unsort-AllOf (g ∷ gs) h =
      let r = unsorted_insert-AllOf g (sort gs) h in (r.0, unsort-AllOf gs r.1)

module _ (shards : List ℤ) where
  -- How many shards the group has lies between the least and the most.
  abbrev pub Within : Analysis → ℤ → Type 0
  Within a g = (a.least ≤ count g shards) × (suc (count g shards) ≤ a.most_next)

  -- The first analysis covers what the second one does.
  abbrev pub Covers : Analysis → Analysis → Type 0
  Covers b a = (b.least ≤ a.least) × (a.most_next ≤ b.most_next)

  unfoldable next : Analysis → ℤ → Analysis
  next a g = raise (count g shards) (lower (count g shards) a g) g

  next-Within : (a : Analysis) (g : ℤ) → Covers (next a g) a × Within (next a g) g
  unfolding next raise lower
  next-Within a g = ground arith

  weigh-Within :
      (a : Analysis) (gs : List ℤ)
      → Covers (weigh shards a gs) a × AllOf (Within (weigh shards a gs)) gs
  unfolding weigh next
  weigh-Within a [] = ((omega arith, omega arith), tt)
  weigh-Within a (g ∷ gs) =
      let first = next-Within a g in
      let rest = weigh-Within (next a g) gs in
      (
        (omega (arith, first.0.0, rest.0.0), omega (arith, first.0.1, rest.0.1)),
        ((omega (arith, first.1.0, rest.0.0), omega (arith, first.1.1, rest.0.1)), rest.1),
      )

module _ (P : ℤ → Type 0) (shards : List ℤ) where
  -- The groups that are named satisfy `P` and have that many shards, unless none is named.
  abbrev pub Named : Analysis → Type 0
  Named a =
      ((a.least ≡ 257) ⊎ (P a.least_gid × (a.least ≡ count a.least_gid shards)))
      × ((a.most_next ≡ 0) ⊎ (P a.most_gid × (a.most_next ≡ suc (count a.most_gid shards))))

  lower-Named : (a : Analysis) (g : ℤ) → P g → Named a → Named (lower (count g shards) a g)
  unfolding lower
  lower-Named a g p h = elim (Bool-cases (ltb (count g shards) a.least)) [
    | inl y ↦ rw y (inr (p, refl), h.1)
    | inr n ↦ rw n h
  ]

  raise-Named : (a : Analysis) (g : ℤ) → P g → Named a → Named (raise (count g shards) a g)
  unfolding raise
  raise-Named a g p h = elim (Bool-cases (leb a.most_next (count g shards))) [
    | inl y ↦ rw y (h.0, inr (p, refl))
    | inr n ↦ rw n h
  ]

  pub weigh-Named : (gs : List ℤ) (a : Analysis) → AllOf P gs → Named a → Named (weigh shards a gs)
  unfolding weigh
  weigh-Named [] a hs h = h
  weigh-Named (g ∷ gs) a (p, hs) h =
      weigh-Named gs (raise (count g shards) (lower (count g shards) a g) g) hs
        (raise-Named (lower (count g shards) a g) g p (lower-Named a g p h))

module _ (shards : List ℤ) where
  pub analyze-Within : (gs : List ℤ) → AllOf (Within shards (analyze shards gs)) gs
  unfolding analyze
  analyze-Within gs =
      unsort-AllOf (Within shards (analyze shards gs)) gs
        (weigh-Within shards no_analysis (sort gs)).1

  pub analyze-Named :
      (P : ℤ → Type 0) (gs : List ℤ) → AllOf P gs → Named P shards (analyze shards gs)
  unfolding analyze
  analyze-Named P gs hs =
      weigh-Named P shards (sort gs) no_analysis (AllOf-sort P gs hs) (inl refl, inl refl)

  -- With few enough shards the least loaded group is one of the groups.
  pub analyze-least :
      (P : ℤ → Type 0) (g : ℤ) (gs : List ℤ)
      → length shards < 257
      → AllOf P (g ∷ gs)
      → P (analyze shards (g ∷ gs)).least_gid
        × ((analyze shards (g ∷ gs)).least ≡ count (analyze shards (g ∷ gs)).least_gid shards)
  analyze-least P g gs n hs = elim (analyze-Named P (g ∷ gs) hs).0 [
    | inl e ↦ absurd (omega (arith, (analyze-Within (g ∷ gs)).0.0, e, n, count-le-length g shards))
    | inr h ↦ h
  ]
