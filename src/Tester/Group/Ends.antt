-- ===== src/Tester/Group/Ends.antt =====
-- Which ends of a group the calls enable and disable.
use mit_distro_sys.Common.{
  ℕ, nat_eq, ◌≡◌, refl, ◌∙◌, Bool, true, false, not, ◌&&◌, ◌||◌, List, [], ◌∷◌, arith, ◌==◌, update,
  is_listed, Bool-cases, inl, inr, ap,
}
use mit_distro_sys.Tester.Group.{
  ServerGrp, set_end, connect_out, connect_in, connect, disconnect_out, disconnect_in, disconnect,
}

-- What a call leaves of the group besides the ends.
abbrev pub SameBut : ServerGrp → ServerGrp → (ℕ → Bool) → Type 0
SameBut new old connected =
    (new.connected ≡ connected) × (new.size ≡ old.size) × (new.running ≡ old.running)

connect_out_lem :
    (sg : ServerGrp) (i : ℕ) (to : List ℕ)
    → ((a b : ℕ)
        → (connect_out sg i to).ends a b
          ≡ (sg.ends a b || (i == a && is_listed b to && sg.connected b)))
      × SameBut (connect_out sg i to) sg sg.connected
unfolding connect_out
connect_out_lem sg i [] = (λ a b. ground arith, (refl, refl, refl))
connect_out_lem sg i (j ∷ to) = elim (Bool-cases (sg.connected j)) [
  | inl on ↦
      let (ih, rest) = connect_out_lem (set_end sg i j true) i to in
      rw (on, connect_out) (λ a b. ih a b ∙ ground arith, rest)
  | inr off ↦
      let (ih, rest) = connect_out_lem sg i to in
      rw (off, connect_out) (λ a b. ih a b ∙ ground arith, rest)
]

connect_in_lem :
    (sg : ServerGrp) (i : ℕ) (to : List ℕ)
    → ((a b : ℕ)
        → (connect_in sg i to).ends a b
          ≡ (sg.ends a b || (i == b && is_listed a to && sg.connected a)))
      × SameBut (connect_in sg i to) sg sg.connected
unfolding connect_in
connect_in_lem sg i [] = (λ a b. ground arith, (refl, refl, refl))
connect_in_lem sg i (j ∷ to) = elim (Bool-cases (sg.connected j)) [
  | inl on ↦
      let (ih, rest) = connect_in_lem (set_end sg j i true) i to in
      rw (on, connect_in) (λ a b. ih a b ∙ ground arith, rest)
  | inr off ↦
      let (ih, rest) = connect_in_lem sg i to in
      rw (off, connect_in) (λ a b. ih a b ∙ ground arith, rest)
]

-- `connect` enables the ends between the server and the connected ones of the list.
pub connect_lem :
    (sg : ServerGrp) (i : ℕ) (to : List ℕ)
    → ((a b : ℕ)
        → (connect sg i to).ends a b ≡ (
            sg.ends a b
            || (i == a && is_listed b to && update sg.connected i true b)
            || (i == b && is_listed a to && update sg.connected i true a)))
      × SameBut (connect sg i to) sg (update sg.connected i true)
unfolding connect
connect_lem sg i to =
    let on : ServerGrp = record sg { connected = update sg.connected i true } in
    let (e, (c, n, r)) = connect_out_lem on i to in
    let (f, (d, m, q)) = connect_in_lem (connect_out on i to) i to in
    (λ a b. ground (arith, f a b, e a b, ap (λ (g : ℕ → Bool). g a) c), (d ∙ c, m ∙ n, q ∙ r))

disconnect_out_lem :
    (sg : ServerGrp) (i : ℕ) (from : List ℕ)
    → ((a b : ℕ)
        → (disconnect_out sg i from).ends a b ≡ (sg.ends a b && not (i == a && is_listed b from)))
      × SameBut (disconnect_out sg i from) sg sg.connected
unfolding disconnect_out
disconnect_out_lem sg i [] = (λ a b. ground arith, (refl, refl, refl))
disconnect_out_lem sg i (j ∷ from) =
    let (ih, rest) = disconnect_out_lem (set_end sg i j false) i from in
    (λ a b. ih a b ∙ ground arith, rest)

disconnect_in_lem :
    (sg : ServerGrp) (i : ℕ) (from : List ℕ)
    → ((a b : ℕ)
        → (disconnect_in sg i from).ends a b ≡ (sg.ends a b && not (i == b && is_listed a from)))
      × SameBut (disconnect_in sg i from) sg sg.connected
unfolding disconnect_in
disconnect_in_lem sg i [] = (λ a b. ground arith, (refl, refl, refl))
disconnect_in_lem sg i (j ∷ from) =
    let (ih, rest) = disconnect_in_lem (set_end sg j i false) i from in
    (λ a b. ih a b ∙ ground arith, rest)

-- `disconnect` disables the ends between the server and those of the list.
pub disconnect_lem :
    (sg : ServerGrp) (i : ℕ) (from : List ℕ)
    → ((a b : ℕ)
        → (disconnect sg i from).ends a b
          ≡ (sg.ends a b && not (i == a && is_listed b from) && not (i == b && is_listed a from)))
      × SameBut (disconnect sg i from) sg (update sg.connected i false)
unfolding disconnect
disconnect_lem sg i from =
    let off : ServerGrp = record sg { connected = update sg.connected i false } in
    let (e, (c, n, r)) = disconnect_out_lem off i from in
    let (f, (d, m, q)) = disconnect_in_lem (disconnect_out off i from) i from in
    (λ a b. ground (arith, f a b, e a b), (d ∙ c, m ∙ n, q ∙ r))
