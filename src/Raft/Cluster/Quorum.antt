-- ===== src/Raft/Cluster/Quorum.antt =====
-- Two majorities have a peer in common.
use mit_distro_sys.Common.{
  is_listed, ℕ, zero, suc, ◌+◌, ◌/◌, ◌≤◌, ◌<◌, ◌≡◌, refl, ap, ◌∙◌, inl, inr, true, false, List, [],
  ◌∷◌, arith, ◌==◌, if◌then◌else◌, Bool-cases, length, AllOf, subst, ==_iff,
}

abbrev pub Distinct : List ℕ → Type 0
Distinct [] = Unit
Distinct (x ∷ xs) = (is_listed x xs ≡ false) × Distinct xs

-- How many of the peers below `n` are in the list.
hits : ℕ → List ℕ → ℕ
hits zero xs = 0
hits (suc k) xs = if is_listed k xs then suc (hits k xs) else hits k xs

hits_above : (n x : ℕ) (xs : List ℕ) → n ≤ x → hits n (x ∷ xs) ≡ hits n xs
unfolding hits
hits_above zero x xs h = refl
hits_above (suc k) x xs h = ground (arith, hits_above k x xs)

hits_cons :
    (n x : ℕ) (xs : List ℕ) → x < n → is_listed x xs ≡ false → hits n (x ∷ xs) ≡ suc (hits n xs)
unfolding hits
hits_cons zero x xs h e = absurd (omega arith)
hits_cons (suc k) x xs h e = elim (Bool-cases (x == k)) [
  | inl same ↦
      (let e' : is_listed k xs ≡ false =
          subst (λ y. is_listed y xs ≡ false) ((==_iff x k).0 same) e in
        ground (arith, e', same, hits_above k x xs))
  | inr other ↦ ground (arith, hits_cons k x xs)
]

hits_nil : (n : ℕ) → hits n [] ≡ 0
unfolding hits
hits_nil zero = refl
hits_nil (suc k) = hits_nil k

hits_all : (n : ℕ) (xs : List ℕ) → Distinct xs → AllOf (λ x. x < n) xs → hits n xs ≡ length xs
hits_all n [] d h = hits_nil n
hits_all n (x ∷ xs) (e, d) (p, h) = hits_cons n x xs p e ∙ ap suc (hits_all n xs d h)

common :
    (n : ℕ) (xs ys : List ℕ)
    → n < hits n xs + hits n ys
    → (v : ℕ) × (is_listed v xs ≡ true) × (is_listed v ys ≡ true)
unfolding hits
common zero xs ys h = absurd (omega arith)
common (suc k) xs ys h = elim (Bool-cases (is_listed k xs)) [
  | inl p ↦ elim (Bool-cases (is_listed k ys)) [
    | inl q ↦ (k, p, q)
    | inr q ↦ common k xs ys (ground arith)
  ]
  | inr p ↦ common k xs ys (ground arith)
]

pub Quorum-common :
    (n : ℕ) (xs ys : List ℕ)
    → Distinct xs
    → Distinct ys
    → AllOf (λ x. x < n) xs
    → AllOf (λ x. x < n) ys
    → n / 2 < length xs
    → n / 2 < length ys
    → (v : ℕ) × (is_listed v xs ≡ true) × (is_listed v ys ≡ true)
Quorum-common n xs ys d e p q h k =
    common n xs ys (omega (arith, hits_all n xs d p, hits_all n ys e q))
