-- ===== src/Demo/Apart.antt =====
-- What the operations do to the ends between isolated servers and the others.
use mit_distro_sys.Tester.Group.Ends.{disconnect_lem}
use mit_distro_sys.Tester.Group.Parts.{IsWired}
use mit_distro_sys.Tester.Group.Wired.{
  partition-IsWired, partition_apart, connect_one-IsWired, start_server-IsWired, size-start_server,
  start_server-off,
}
use mit_distro_sys.Tester.Group.Members.{AllOf-append, Within-self}
use mit_distro_sys.Demo.Manager.{others_of, isolate_in, recover_in, is_nil, reapply_in, start_in}
use mit_distro_sys.Demo.Members.{AllOf-chosen, chosen_lem, is_listed-is_nil}
use mit_distro_sys.Common.{
  ℕ, ◌<◌, ◌≡◌, sym, ◌∙◌, subst, inl, inr, Bool, true, false, not, ◌&&◌, ◌||◌, List, [], ◌∷◌, ◌++◌,
  arith, ltb, ◌==◌, Bool-cases, is_listed,
}
use mit_distro_sys.Demo.Manager.{select}
use mit_distro_sys.Tester.Group.{all, start_server, ServerGrp, connect_one, shutdown_server}

abbrev pub Parted : ServerGrp → List ℕ → Type 0
Parted sg marks =
    (x y : ℕ)
    → is_listed x marks ≡ true
    → is_listed y marks ≡ false
    → (sg.ends x y ≡ false) × (sg.ends y x ≡ false)

pub isolate_in-IsWired :
    (sg : ServerGrp) (srv : ℕ) → srv < sg.size → IsWired sg → IsWired (isolate_in sg srv).0
unfolding isolate_in
isolate_in-IsWired sg srv lt w =
    (partition-IsWired sg (others_of sg srv) (srv ∷ [])
      (AllOf-chosen sg (λ i. not (i == srv) && sg.connected i)) (lt, tt) w).0

pub isolate_in-Parted :
    (sg : ServerGrp) (srv : ℕ)
    → srv < sg.size
    → IsWired sg
    → Parted (isolate_in sg srv).0 (isolate_in sg srv).1
unfolding isolate_in
isolate_in-Parted sg srv lt w x y h g =
    let (e, f) =
      partition_apart sg (others_of sg srv) (srv ∷ []) y x (Within-self (others_of sg srv))
        (Within-self (srv ∷ [])) w g (ground (arith, chosen x))
        (λ on. ground (arith, chosen y, w.in_group y)) (λ on. h) in
    (f, e)
  where
    chosen :
        (k : ℕ)
        → is_listed k (others_of sg srv) ≡ (not (k == srv) && sg.connected k && ltb k sg.size)
    chosen k = chosen_lem sg (λ i. not (i == srv) && sg.connected i) k ∙ ground arith

reapply_in_lem :
    (sg : ServerGrp) (marks : List ℕ)
    → IsWired sg
    → IsWired (reapply_in sg marks) × Parted (reapply_in sg marks) marks
unfolding reapply_in
reapply_in_lem sg marks w = elim (Bool-cases (is_nil marks || is_nil isolated || is_nil rest)) [
  | inl idle ↦ rw idle (
    w,
    λ x y h g.
        let gone = is_listed-is_nil x marks in
        let cut = is_listed-is_nil x isolated in
        let bare = is_listed-is_nil y rest in
        (
          ground (
            arith,
            gone,
            cut,
            bare,
            chosen_lem sg in_isolated x,
            chosen_lem sg in_rest y,
            w.both_connected x y,
            w.in_group x,
            w.in_group y,
          ),
          ground (
            arith,
            gone,
            cut,
            bare,
            chosen_lem sg in_isolated x,
            chosen_lem sg in_rest y,
            w.both_connected y x,
            w.in_group x,
            w.in_group y,
          ),
        ),
  )
  | inr split ↦ rw split (
    (partition-IsWired sg rest isolated (AllOf-chosen sg in_rest) (AllOf-chosen sg in_isolated)
        w).0,
    λ x y h g.
        let (e, f) =
          partition_apart sg rest isolated y x (Within-self rest) (Within-self isolated) w
            (ground (arith, chosen_lem sg in_isolated y)) (ground (arith, chosen_lem sg in_rest x))
            (λ on. ground (arith, chosen_lem sg in_rest y, w.in_group y))
            (λ on. ground (arith, chosen_lem sg in_isolated x, w.in_group x)) in
        (f, e),
  )
]
  where
    in_rest : ℕ → Bool
    in_rest = λ i. sg.connected i && not (is_listed i marks)

    in_isolated : ℕ → Bool
    in_isolated = λ i. sg.connected i && is_listed i marks

    rest : List ℕ
    rest = select in_rest (all sg)

    isolated : List ℕ
    isolated = select in_isolated (all sg)

pub start_in_lem :
    (started : Bool) (sg : ServerGrp) (marks : List ℕ) (srv : ℕ)
    → srv < sg.size
    → IsWired sg
    → Parted sg marks
    → IsWired (start_in started sg marks srv).0 × Parted (start_in started sg marks srv).0 marks
unfolding start_in
start_in_lem started sg marks srv lt w p = elim (Bool-cases (sg.running srv || started)) [
  | inl up ↦ rw up (
      reapply_in_lem (connect_one (start_server started sg srv) srv) marks (
        connect_one-IsWired (start_server started sg srv) srv
          (subst (λ n. srv < n) (sym (size-start_server started sg srv)) lt)
          (start_server-IsWired started sg srv w)))
  | inr down ↦ rw down (
    start_server-IsWired started sg srv w,
    λ x y h g.
        let (e, f) = p x y h g in
        (start_server-off started sg srv x y e, start_server-off started sg srv y x f),
  )
]

pub shutdown_server-Parted :
    (sg : ServerGrp) (marks : List ℕ) (srv : ℕ)
    → Parted sg marks
    → Parted (shutdown_server sg srv) marks
unfolding shutdown_server
shutdown_server-Parted sg marks srv p x y h g =
    let (e, _) = disconnect_lem sg srv (all sg) in
    let (a, b) = p x y h g in (ground (arith, e x y), ground (arith, e y x))

pub recover_in-IsWired :
    (sg : ServerGrp) (marks : List ℕ) (srv : ℕ)
    → srv < sg.size
    → IsWired sg
    → IsWired (recover_in sg marks srv).0
unfolding recover_in
recover_in-IsWired sg marks srv lt w =
    let all_alive = others_of sg srv ++ srv ∷ [] in
    (partition-IsWired sg all_alive []
      (AllOf-append (λ i. i < sg.size) (others_of sg srv) (srv ∷ [])
        (AllOf-chosen sg (λ i. not (i == srv) && sg.connected i)) (lt, tt))
      tt w).0
