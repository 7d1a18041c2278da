-- ===== src/ShardCfg/Count.antt =====
-- Counting the shards of a group, and what a move does to the counts.
use mit_distro_sys.Common.{
  ℕ, zero, suc, ◌+◌, ◌≤◌, ◌<◌, ◌≡◌, refl, ◌≢◌, List, [], ◌∷◌, arith, Eq, length,
}
use mit_distro_sys.ShardCfg.{count, move_one}

abbrev pub triangle : ℕ → ℕ
triangle zero = 0
triangle (suc n) = n + triangle n

module _ {ℓ} {A : Type ℓ} ⦃e : Eq A⦄ where
  -- The pairs of equal entries.
  unfoldable pub pairs : List A → ℕ
  pairs [] = 0
  pairs (x ∷ xs) = count x xs + pairs xs

  pub count-le-length : (g : A) (xs : List A) → count g xs ≤ length xs
  unfolding count
  count-le-length g [] = omega arith
  count-le-length g (x ∷ xs) = ground (arith, count-le-length g xs)

  pub pairs-le-triangle : (xs : List A) → pairs xs ≤ triangle (length xs)
  unfolding pairs
  pairs-le-triangle [] = omega arith
  pairs-le-triangle (x ∷ xs) = omega (arith, pairs-le-triangle xs, count-le-length x xs)

  count-move_other :
      (mg lg x : A) (xs : List A) → x ≢ mg → x ≢ lg → count x (move_one mg lg xs) ≡ count x xs
  unfolding count move_one
  count-move_other mg lg x [] h k = refl
  count-move_other mg lg x (y ∷ ys) h k =
      ground (arith, e.beq_iff y mg, e.beq_iff y x, e.beq_iff lg x, count-move_other mg lg x ys h k)

  count-move_gain :
      (mg lg : A) (xs : List A)
      → mg ≢ lg
      → 0 < count mg xs
      → count lg (move_one mg lg xs) ≡ suc (count lg xs)
  unfolding count move_one
  count-move_gain mg lg [] h k = omega (arith, k)
  count-move_gain mg lg (y ∷ ys) h k =
      ground (arith, e.beq_iff y mg, e.beq_iff y lg, e.beq_iff lg lg, count-move_gain mg lg ys h)

  -- A move from a group to one that has fewer lowers the number of pairs.
  pub pairs-move_one :
      (mg lg : A) (xs : List A)
      → mg ≢ lg
      → 0 < count mg xs
      → pairs (move_one mg lg xs) + count mg xs ≡ suc (pairs xs + count lg xs)
  unfolding count move_one pairs
  pairs-move_one mg lg [] h k = omega (arith, k)
  pairs-move_one mg lg (y ∷ ys) h k = ground (
    arith,
    e.beq_iff y mg,
    e.beq_iff y lg,
    e.beq_iff mg lg,
    pairs-move_one mg lg ys h,
    count-move_other mg lg y ys,
    count-move_gain mg lg ys h,
  )

  pub length-move_one : (mg lg : A) (xs : List A) → length (move_one mg lg xs) ≡ length xs
  unfolding move_one
  length-move_one mg lg [] = refl
  length-move_one mg lg (y ∷ ys) = ground (arith, length-move_one mg lg ys)
