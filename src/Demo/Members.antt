-- ===== src/Demo/Members.antt =====
-- The lists of servers that the operations choose.
use mit_distro_sys.Tester.Group.Members.{is_listed-all_below, AllOf-all_below}
use mit_distro_sys.Common.{
  ℕ, ◌<◌, ◌≡◌, ap, ◌∙◌, inl, inr, Bool, ◌&&◌, List, [], ◌∷◌, arith, ltb, ◌==◌, ==_iff, Bool-cases,
  is_listed, AllOf, refl, true, false,
}
use mit_distro_sys.Demo.Manager.{select, is_nil}
use mit_distro_sys.Tester.Group.{all, ServerGrp}

pub is_listed-select :
    (p : ℕ → Bool) (k : ℕ) (xs : List ℕ) → is_listed k (select p xs) ≡ (p k && is_listed k xs)
is_listed-select p k [] = ground arith
is_listed-select p k (x ∷ xs) = elim (Bool-cases (x == k)) [
  | inl same ↦
      let here : x ≡ k = (==_iff x k).0 same in ground (arith, is_listed-select p k xs, ap p here)
  | inr other ↦ ground (arith, is_listed-select p k xs)
]

pub AllOf-select :
    (P : ℕ → Type 0) (p : ℕ → Bool) (xs : List ℕ) → AllOf P xs → AllOf P (select p xs)
AllOf-select P p [] h = tt
AllOf-select P p (x ∷ xs) (q, h) = elim (Bool-cases (p x)) [
  | inl kept ↦ rw kept (q, AllOf-select P p xs h)
  | inr cut ↦ rw cut (AllOf-select P p xs h)
]

pub AllOf-chosen : (sg : ServerGrp) (p : ℕ → Bool) → AllOf (λ i. i < sg.size) (select p (all sg))
AllOf-chosen sg p =
    AllOf-select (λ i. i < sg.size) p (all sg) (AllOf-all_below sg.size sg.size (omega arith))

-- Which servers a loop over the group chooses.
pub chosen_lem :
    (sg : ServerGrp) (p : ℕ → Bool) (k : ℕ)
    → is_listed k (select p (all sg)) ≡ (p k && ltb k sg.size)
chosen_lem sg p k =
    is_listed-select p k (all sg) ∙ ap (λ b. p k && b) (is_listed-all_below k sg.size)

pub is_listed-is_nil : (k : ℕ) (xs : List ℕ) → is_nil xs ≡ true → is_listed k xs ≡ false
is_listed-is_nil k [] e = refl
is_listed-is_nil k (x ∷ xs) e = absurd (ground arith)
