-- ===== src/Raft/Leader/Count.antt =====
-- How many peers the leader counts (`advanceCommitIndex`), and which these are.
use mit_distro_sys.Common.{
  ℕ, zero, suc, ◌+◌, ◌/◌, ◌≤◌, ◌<◌, ◌≡◌, ◌≢◌, refl, subst, inl, inr, true, not, ◌&&◌, some, arith,
  leb, ◌==◌, List, [], ◌∷◌, length, get_elem?, AllOf, AllOf-imp, ==_iff, Bool-cases,
}
use mit_distro_sys.Raft.Types.{Raft}
use mit_distro_sys.Raft.Leader.{count_matched}

-- Each is larger than the one before it.
abbrev pub Ascending : ℕ → List ℕ → Type 0
Ascending low [] = Unit
Ascending low (j ∷ js) = (low ≤ j) × Ascending (suc j) js

Ascending-weaken : (low : ℕ) (js : List ℕ) → Ascending (suc low) js → Ascending low js
Ascending-weaken low [] h = tt
Ascending-weaken low (j ∷ js) (h, up) = (omega (arith, h), up)

-- A peer that is counted from `low` on, with its place in what is left of the slice.
abbrev pub Counted : ℕ → ℕ → ℕ → List ℕ → ℕ → Type 0
Counted me n low ms j =
    (j ≢ me) × (k : ℕ) × (m : ℕ) × (j ≡ low + k) × (get_elem? ms k ≡ some m) × (n ≤ m)

Counted-tail :
    (me n low x : ℕ) (ms : List ℕ) (j : ℕ)
    → Counted me n (low + 1) ms j
    → Counted me n low (x ∷ ms) j
Counted-tail me n low x ms j (ne, k, m, e, f, g) = (ne, suc k, m, omega (arith, e), f, g)

counted :
    (me n low : ℕ) (ms : List ℕ)
    → (ids : List ℕ) × Ascending low ids
      × AllOf (Counted me n low ms) ids
      × (length ids ≡ count_matched me n low ms)
unfolding count_matched
counted me n low [] = ([], tt, tt, refl)
counted me n low (m ∷ ms) =
    let (ids, up, has, size) = counted me n (low + 1) ms in
    let up' : Ascending (suc low) ids = subst (λ i. Ascending i ids) (omega arith) up in
    let has' = AllOf-imp ids (Counted-tail me n low m ms) has in
    elim (Bool-cases (not (low == me) && leb n m)) [
      | inl yes_it ↦ (
        low ∷ ids,
        (omega arith, up'),
        ((ground (arith, ==_iff low me), 0, m, omega arith, refl, ground arith), has'),
        rw yes_it (omega (arith, size)),
      )
      | inr no_it ↦ (ids, Ascending-weaken low ids up', has', rw no_it (omega (arith, size)))
    ]

Ascending-higher : (low high : ℕ) (js : List ℕ) → low ≤ high → Ascending high js → Ascending low js
Ascending-higher low high [] h up = tt
Ascending-higher low high (j ∷ js) h (g, up) = (omega (arith, h, g), up)

-- A peer after the first one that is left
Counted-untail :
    (me n low x : ℕ) (ms : List ℕ) (ids : List ℕ)
    → Ascending (low + 1) ids
    → AllOf (Counted me n low (x ∷ ms)) ids
    → AllOf (Counted me n (low + 1) ms) ids
Counted-untail me n low x ms [] up has = tt
Counted-untail me n low x ms (j ∷ js) (h, up) ((ne, zero, m, e, f, g), has) =
    absurd (omega (arith, h, e))
Counted-untail me n low x ms (j ∷ js) (h, up) ((ne, suc k, m, e, f, g), has) = (
  (ne, k, m, omega (arith, e), f, g),
  Counted-untail me n low x ms js (Ascending-higher (low + 1) (suc j) js (omega (arith, h)) up) has,
)

-- No list of such peers is longer than the count.
count_matched-all :
    (me n low : ℕ) (ms ids : List ℕ)
    → Ascending low ids
    → AllOf (Counted me n low ms) ids
    → length ids ≤ count_matched me n low ms
unfolding count_matched
count_matched-all me n low ms [] up has = omega arith
count_matched-all me n low [] (j ∷ js) up ((ne, k, m, e, f, g), has) = absurd (ground arith)
count_matched-all me n low (m ∷ ms) (j ∷ js) (h, up) ((ne, zero, x, e, f, g), has) =
    let same : j ≡ low = omega (arith, e) in
    let up' : Ascending (low + 1) js =
      Ascending-higher (low + 1) (suc j) js (omega (arith, h)) up in
    let rest =
      count_matched-all me n (low + 1) ms js up' (Counted-untail me n low m ms js up' has) in
    let counts : (not (low == me) && leb n m) ≡ true = ground (arith, ==_iff low me) in
    rw counts (omega (arith, rest))
count_matched-all me n low (m ∷ ms) (j ∷ js) (h, up) ((ne, suc k, x, e, f, g), has) =
    let up' : Ascending (low + 1) (j ∷ js) = (omega (arith, e), up) in
    let rest =
      count_matched-all me n (low + 1) ms (j ∷ js) up'
        (Counted-untail me n low m ms (j ∷ js) up' ((ne, suc k, x, e, f, g), has)) in
    omega (arith, rest)

module _ {C D : Type 0} where
  -- The leader knows that this other peer has its log up to the index.
  abbrev pub Holds : Raft C D → ℕ → ℕ → Type 0
  Holds rf n j = (j ≢ rf.me) × (m : ℕ) × (get_elem? rf.match_index j ≡ some m) × (n ≤ m)

  -- The leader and these other peers are more than half, and no peer is named twice.
  abbrev pub HasMajority : Raft C D → ℕ → Type 0
  HasMajority rf n =
      (ids : List ℕ) × Ascending 0 ids × AllOf (Holds rf n) ids × (rf.peers / 2 < 1 + length ids)

  pub counted-HasMajority :
      (rf : Raft C D) (n : ℕ)
      → rf.peers / 2 < 1 + count_matched rf.me n 0 rf.match_index
      → HasMajority rf n
  counted-HasMajority rf n h =
      let (ids, up, has, size) = counted rf.me n 0 rf.match_index in
      (
        ids,
        up,
        AllOf-imp ids
            (λ i (ne, k, m, e, f, g). (
              ne,
              m,
              subst (λ p. get_elem? rf.match_index p ≡ some m) {x = k} (omega (arith, e)) f,
              g,
            ))
            has,
        omega (arith, size, h),
      )

  -- The code's count, and no less, is what a majority needs.
  pub HasMajority-counted :
      (rf : Raft C D) (n : ℕ)
      → HasMajority rf n
      → rf.peers / 2 < 1 + count_matched rf.me n 0 rf.match_index
  HasMajority-counted rf n (ids, up, has, h) =
      let all =
        count_matched-all rf.me n 0 rf.match_index ids up
          (AllOf-imp ids (λ i (ne, m, f, g). (ne, i, m, omega arith, f, g)) has) in
      omega (arith, h, all)
