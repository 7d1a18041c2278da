-- ===== src/ShardCtrl/Migrate/Moves.antt =====
-- The moves of `migrateShards` turn the old assignment of shards into the new one.
use mit_distro_sys.Common.{
  ℕ, suc, ◌≡◌, ◌≢◌, refl, sym, ap, ◌∙◌, subst, inl, inr, some, List, [], ◌∷◌, ◌++◌, length, arith,
  Bool-cases, ◌>>=◌, if◌then◌else◌, AllOf, get_elem?, set, nat_eq,
}
use mit_distro_sys.ShardCfg.{ShardConfig, ℤ, same_int, same_int_iff}
use mit_distro_sys.ShardCtrl.Migrate.{moves_from, moves_of}

-- The assignment after the moves.
abbrev pub perform : List (ℕ × ℤ × ℤ) → List ℤ → List ℤ
perform [] shards = shards
perform (m ∷ ms) shards = perform ms (set shards m.0 m.2)

set_past : (pre xs : List ℤ) (x y : ℤ) → set (pre ++ x ∷ xs) (length pre) y ≡ pre ++ y ∷ xs
set_past [] xs x y = refl
set_past (p ∷ pre) xs x y = ap (λ l. p ∷ l) (set_past pre xs x y)

get_elem_past : (pre xs : List ℤ) (x : ℤ) → get_elem? (pre ++ x ∷ xs) (length pre) ≡ some x
get_elem_past [] xs x = refl
get_elem_past (p ∷ pre) xs x = get_elem_past pre xs x

-- The first elements of a list, one by one.
one_more : (pre xs : List ℤ) (x : ℤ) → (pre ++ x ∷ []) ++ xs ≡ pre ++ x ∷ xs
one_more [] xs x = refl
one_more (p ∷ pre) xs x = ap (λ l. p ∷ l) (one_more pre xs x)

length_more : (pre : List ℤ) (x : ℤ) → length (pre ++ x ∷ []) ≡ suc (length pre)
length_more [] x = refl
length_more (p ∷ pre) x = ap (λ n. suc n) (length_more pre x)

abbrev pub IsMove : List ℤ → ℕ × ℤ × ℤ → Type 0
IsMove shards m = (get_elem? shards m.0 ≡ some m.1) × (m.1 ≢ m.2)

moves_from_total :
    (shid : ℕ) (olds news : List ℤ)
    → length olds ≡ length news
    → (ms : List (ℕ × ℤ × ℤ)) × (moves_from shid olds news ≡ some ms)
unfolding moves_from
moves_from_total shid [] news e = ([], refl)
moves_from_total shid (x ∷ olds) [] e = absurd (ground arith)
moves_from_total shid (x ∷ olds) (y ∷ news) e =
    let (ms, f) = moves_from_total (suc shid) olds news (omega (arith, e)) in
    (if same_int y x then ms else (shid, x, y) ∷ ms, rw (f, ◌>>=◌) refl)

perform-moves_from :
    (pre olds news : List ℤ) (ms : List (ℕ × ℤ × ℤ))
    → length olds ≡ length news
    → moves_from (length pre) olds news ≡ some ms
    → perform ms (pre ++ olds) ≡ pre ++ news
unfolding moves_from
perform-moves_from pre [] [] ms e f =
    let z : [] ≡ ms = ground arith in subst (λ x. perform x (pre ++ []) ≡ pre ++ []) z refl
perform-moves_from pre [] (y ∷ news) ms e f = absurd (ground arith)
perform-moves_from pre (x ∷ olds) [] ms e f = absurd (ground arith)
perform-moves_from pre (x ∷ olds) (y ∷ news) ms e f =
    let (rest, g) = moves_from_total (suc (length pre)) olds news (omega (arith, e)) in
    let ih =
      perform-moves_from (pre ++ y ∷ []) olds news rest (omega (arith, e))
        (rw (length_more pre y) g) in
    let to : perform rest (pre ++ y ∷ olds) ≡ pre ++ y ∷ news =
      subst (λ l. perform rest l ≡ pre ++ y ∷ news) (one_more pre olds y)
        (ih ∙ one_more pre news y) in
    let all = rw (g, ◌>>=◌) at f in
    elim (Bool-cases (same_int y x)) [
      | inl same ↦
          let z : rest ≡ ms = (let here = rw same at all in ground (arith, here)) in
          let is : y ≡ x = (same_int_iff y x).0 same in
          subst (λ l. perform l (pre ++ x ∷ olds) ≡ pre ++ y ∷ news) z
            (subst (λ w. perform rest (pre ++ w ∷ olds) ≡ pre ++ y ∷ news) is to)
      | inr other ↦
          let z : (length pre, x, y) ∷ rest ≡ ms =
            (let here = rw other at all in ground (arith, here)) in
          subst (λ l. perform l (pre ++ x ∷ olds) ≡ pre ++ y ∷ news) z
            (subst (λ l. perform rest l ≡ pre ++ y ∷ news) (sym (set_past pre olds x y)) to)
    ]

moves_from-AllOf :
    (pre olds news : List ℤ) (ms : List (ℕ × ℤ × ℤ))
    → length olds ≡ length news
    → moves_from (length pre) olds news ≡ some ms
    → AllOf (IsMove (pre ++ olds)) ms
unfolding moves_from
moves_from-AllOf pre [] [] ms e f =
    let z : [] ≡ ms = ground arith in subst (AllOf (IsMove (pre ++ []))) z tt
moves_from-AllOf pre [] (y ∷ news) ms e f = absurd (ground arith)
moves_from-AllOf pre (x ∷ olds) [] ms e f = absurd (ground arith)
moves_from-AllOf pre (x ∷ olds) (y ∷ news) ms e f =
    let (rest, g) = moves_from_total (suc (length pre)) olds news (omega (arith, e)) in
    let ih =
      moves_from-AllOf (pre ++ x ∷ []) olds news rest (omega (arith, e))
        (rw (length_more pre x) g) in
    let to : AllOf (IsMove (pre ++ x ∷ olds)) rest =
      subst (λ l. AllOf (IsMove l) rest) (one_more pre olds x) ih in
    let all = rw (g, ◌>>=◌) at f in
    elim (Bool-cases (same_int y x)) [
      | inl same ↦
          let z : rest ≡ ms = (let here = rw same at all in ground (arith, here)) in
          subst (AllOf (IsMove (pre ++ x ∷ olds))) z to
      | inr other ↦
          let z : (length pre, x, y) ∷ rest ≡ ms =
            (let here = rw other at all in ground (arith, here)) in
          let differs : x ≢ y =
            (λ h. (let back = (same_int_iff y x).1 (sym h) in ground (arith, back))) in
          subst (AllOf (IsMove (pre ++ x ∷ olds))) z ((get_elem_past pre olds x, differs), to)
    ]

-- Between configurations with equally many shards the list of moves is made without a panic. Each
-- move names a shard, the group that it is in, and another group, and the moves turn the old
-- assignment into the new one.
pub perform-moves_of :
    (old new : ShardConfig)
    → length old.shards ≡ length new.shards
    → (ms : List (ℕ × ℤ × ℤ)) × (moves_of old new ≡ some ms)
      × (perform ms old.shards ≡ new.shards)
      × AllOf (IsMove old.shards) ms
unfolding moves_of
perform-moves_of old new e =
    let (ms, f) = moves_from_total 0 old.shards new.shards e in
    (
      ms,
      f,
      perform-moves_from [] old.shards new.shards ms e f,
      moves_from-AllOf [] old.shards new.shards ms e f,
    )
