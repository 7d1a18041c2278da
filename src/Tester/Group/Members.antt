-- ===== src/Tester/Group/Members.antt =====
-- Which servers a list names.
use mit_distro_sys.Common.{
  ℕ, zero, suc, ◌≤◌, ◌<◌, ◌≡◌, refl, ◌∙◌, ◌||◌, List, [], ◌∷◌, ◌++◌, arith, ltb, ==_refl, is_listed,
  AllOf, AllOf-imp,
}
use mit_distro_sys.Tester.Group.{all_below}
use mit_distro_sys.Tester.Group.Parts.{Within}

pub is_listed-append :
    (k : ℕ) (xs ys : List ℕ) → is_listed k (xs ++ ys) ≡ (is_listed k xs || is_listed k ys)
is_listed-append k [] ys = refl
is_listed-append k (x ∷ xs) ys = ground (arith, is_listed-append k xs ys)

pub is_listed-all_below : (k n : ℕ) → is_listed k (all_below n) ≡ ltb k n
is_listed-all_below k zero = ground arith
is_listed-all_below k (suc n) =
    is_listed-append k (all_below n) (n ∷ []) ∙ ground (arith, is_listed-all_below k n)

pub AllOf-append : (P : ℕ → Type 0) (xs ys : List ℕ) → AllOf P xs → AllOf P ys → AllOf P (xs ++ ys)
AllOf-append P [] ys h g = g
AllOf-append P (x ∷ xs) ys (p, h) g = (p, AllOf-append P xs ys h g)

pub AllOf-all_below : (n m : ℕ) → n ≤ m → AllOf (λ k. k < m) (all_below n)
AllOf-all_below zero m le = tt
AllOf-all_below (suc n) m le =
    AllOf-append (λ k. k < m) (all_below n) (n ∷ []) (AllOf-all_below n m (omega arith))
      (omega arith, tt)

pub Within-self : (xs : List ℕ) → Within xs xs
Within-self [] = tt
Within-self (x ∷ xs) =
    (ground (arith, ==_refl x), AllOf-imp xs (λ k h. ground arith) (Within-self xs))
