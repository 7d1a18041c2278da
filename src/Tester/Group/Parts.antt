-- ===== src/Tester/Group/Parts.antt =====
-- The two loops of `Partition`.
use mit_distro_sys.Common.{
  ℕ, nat_eq, ◌<◌, ◌≡◌, refl, sym, ◌∙◌, Bool, true, false, not, ◌&&◌, ◌||◌, List, [], ◌∷◌, arith,
  ◌==◌, update, is_listed, Bool-cases, inl, inr, subst, ap, AllOf,
}
use mit_distro_sys.Tester.Group.{ServerGrp, connect, disconnect, join_part}
use mit_distro_sys.Tester.Group.Ends.{connect_lem, disconnect_lem}

abbrev pub rejoin : ServerGrp → ℕ → List ℕ → List ℕ → ServerGrp
rejoin sg i part rest = connect (disconnect sg i rest) i part

pub rejoin-connected :
    (sg : ServerGrp) (i : ℕ) (part rest : List ℕ) (k : ℕ)
    → (rejoin sg i part rest).connected k ≡ update sg.connected i true k
rejoin-connected sg i part rest k =
    let (_, (c, _, _)) = connect_lem (disconnect sg i rest) i part in
    let (_, (d, _, _)) = disconnect_lem sg i rest in
    ground (arith, ap (λ (g : ℕ → Bool). g k) c, ap (λ (g : ℕ → Bool). g k) d)

-- One server's turn: its ends to the rest are cut, and those to its part are enabled.
pub rejoin-ends :
    (sg : ServerGrp) (i : ℕ) (part rest : List ℕ) (a b : ℕ)
    → (rejoin sg i part rest).ends a b ≡ (
        (sg.ends a b && not (i == a && is_listed b rest) && not (i == b && is_listed a rest))
        || (i == a && is_listed b part && update sg.connected i true b)
        || (i == b && is_listed a part && update sg.connected i true a))
rejoin-ends sg i part rest a b =
    let (e, _) = connect_lem (disconnect sg i rest) i part in
    let (f, (d, _, _)) = disconnect_lem sg i rest in
    ground (arith, e a b, f a b, ap (λ (g : ℕ → Bool). g a) d, ap (λ (g : ℕ → Bool). g b) d)

rejoin-size : (sg : ServerGrp) (i : ℕ) (part rest : List ℕ) → (rejoin sg i part rest).size ≡ sg.size
rejoin-size sg i part rest =
    let (_, (_, n, _)) = connect_lem (disconnect sg i rest) i part in
    let (_, (_, m, _)) = disconnect_lem sg i rest in n ∙ m

abbrev pub Within : List ℕ → List ℕ → Type 0
Within xs ys = AllOf (λ x. is_listed x ys ≡ true) xs

-- An end that is off, and not inside the part, stays off.
pub join_part-off :
    (sg : ServerGrp) (is part rest : List ℕ) (a b : ℕ)
    → Within is part
    → (is_listed a part && is_listed b part) ≡ false
    → sg.ends a b ≡ false
    → (join_part sg is part rest).ends a b ≡ false
unfolding join_part
join_part-off sg [] part rest a b w apart off = off
join_part-off sg (i ∷ is) part rest a b (h, w) apart off =
    join_part-off (rejoin sg i part rest) is part rest a b w apart
      (ground (arith, rejoin-ends sg i part rest a b))

-- The ends between the part and the rest are cut.
pub join_part-cut :
    (sg : ServerGrp) (is part rest : List ℕ) (a b : ℕ)
    → Within is part
    → (is_listed a part && is_listed b part) ≡ false
    → is_listed a is ≡ true
    → is_listed b rest ≡ true
    → ((join_part sg is part rest).ends a b ≡ false)
      × ((join_part sg is part rest).ends b a ≡ false)
unfolding join_part
join_part-cut sg [] part rest a b w apart h k = absurd (ground arith)
join_part-cut sg (i ∷ is) part rest a b (g, w) apart h k = elim (Bool-cases (i == a)) [
  | inl here ↦ (
    join_part-off (rejoin sg i part rest) is part rest a b w apart
        (ground (arith, rejoin-ends sg i part rest a b)),
    join_part-off (rejoin sg i part rest) is part rest b a w (ground arith)
        (ground (arith, rejoin-ends sg i part rest b a)),
  )
  | inr later ↦ join_part-cut (rejoin sg i part rest) is part rest a b w apart (ground arith) k
]

-- Enabled ends are between connected servers of the group.
pub record IsWired (sg : ServerGrp) : Type 0 where
  pub both_connected :
      (a b : ℕ) → sg.ends a b ≡ true → (sg.connected a ≡ true) × (sg.connected b ≡ true)
  pub in_group : (a : ℕ) → sg.connected a ≡ true → a < sg.size

rejoin-IsWired :
    (sg : ServerGrp) (i : ℕ) (part rest : List ℕ)
    → i < sg.size
    → IsWired sg
    → IsWired (rejoin sg i part rest)
rejoin-IsWired sg i part rest lt w = record {
  both_connected = λ a b e. ground (
    arith,
    w.both_connected a b,
    rejoin-ends sg i part rest a b,
    rejoin-connected sg i part rest a,
    rejoin-connected sg i part rest b,
  );
  in_group = λ a e.
      ground (arith, w.in_group a, rejoin-connected sg i part rest a, rejoin-size sg i part rest);
}

pub join_part-IsWired :
    (sg : ServerGrp) (is part rest : List ℕ)
    → AllOf (λ i. i < sg.size) is
    → IsWired sg
    → IsWired (join_part sg is part rest) × ((join_part sg is part rest).size ≡ sg.size)
unfolding join_part
join_part-IsWired sg [] part rest h w = (w, refl)
join_part-IsWired sg (i ∷ is) part rest (h, g) w =
    let same = rejoin-size sg i part rest in
    let (v, e) =
      join_part-IsWired (rejoin sg i part rest) is part rest
        (subst (λ n. AllOf (λ j. j < n) is) (sym same) g) (rejoin-IsWired sg i part rest h w) in
    (v, e ∙ same)

-- Without a rest nothing is cut, and what is connected stays so.
pub join_part-connected :
    (sg : ServerGrp) (is part rest : List ℕ) (k : ℕ)
    → (join_part sg is part rest).connected k ≡ (is_listed k is || sg.connected k)
unfolding join_part
join_part-connected sg [] part rest k = refl
join_part-connected sg (i ∷ is) part rest k =
    join_part-connected (rejoin sg i part rest) is part rest k
    ∙ ground (arith, rejoin-connected sg i part rest k)

pub join_part-on :
    (sg : ServerGrp) (is part : List ℕ) (a b : ℕ)
    → sg.ends a b ≡ true
    → (join_part sg is part []).ends a b ≡ true
unfolding join_part
join_part-on sg [] part a b on = on
join_part-on sg (i ∷ is) part a b on =
    join_part-on (rejoin sg i part []) is part a b (ground (arith, rejoin-ends sg i part [] a b))

pub join_part-joins :
    (sg : ServerGrp) (is part : List ℕ) (a b : ℕ)
    → is_listed a is ≡ true
    → is_listed b part ≡ true
    → sg.connected b ≡ true
    → ((join_part sg is part []).ends a b ≡ true) × ((join_part sg is part []).ends b a ≡ true)
unfolding join_part
join_part-joins sg [] part a b h k on = absurd (ground arith)
join_part-joins sg (i ∷ is) part a b h k on = elim (Bool-cases (i == a)) [
  | inl here ↦ (
    join_part-on (rejoin sg i part []) is part a b (ground (arith, rejoin-ends sg i part [] a b)),
    join_part-on (rejoin sg i part []) is part b a (ground (arith, rejoin-ends sg i part [] b a)),
  )
  | inr later ↦
      join_part-joins (rejoin sg i part []) is part a b (ground arith) k
        (ground (arith, rejoin-connected sg i part [] b))
]

pub size-join_part :
    (sg : ServerGrp) (is part rest : List ℕ) → (join_part sg is part rest).size ≡ sg.size
unfolding join_part
size-join_part sg [] part rest = refl
size-join_part sg (i ∷ is) part rest =
    size-join_part (rejoin sg i part rest) is part rest ∙ rejoin-size sg i part rest
