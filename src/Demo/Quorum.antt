-- ===== src/Demo/Quorum.antt =====
-- The chaos monkey leaves a majority of its group on the net.
use mit_distro_sys.Tester.Group.Wired.{size-start_server, connected-start_server}
use mit_distro_sys.Common.{
  ℕ, zero, suc, ◌≤◌, ◌≡◌, refl, ap, ◌∙◌, inl, inr, Bool, true, false, List, [], ◌∷◌, ◌++◌, arith,
  ◌==◌, if◌then◌else◌, Bool-cases, length, length-append, ◌+◌, ◌/◌, ◌<◌, not, ◌&&◌, some, is_listed,
  ◌||◌, sym, subst,
}
use mit_distro_sys.Tester.Group.{
  disconnect, ServerGrp, all, all_below, connect_one, start_server, shutdown_server, partition,
  join_part,
}
use mit_distro_sys.Tester.Group.Ends.{connect_lem, disconnect_lem}
use mit_distro_sys.Tester.Group.Parts.{join_part-connected, size-join_part}
use mit_distro_sys.Demo.Manager.{select, reapply_in, start_in, is_nil}
use mit_distro_sys.Demo.Chaos.{
  tick, kill_node, restart_node, Chaos, ChaosStep, ticks, kills, restarts, ChaosRun, calm,
  then_step, cleaned,
}

-- How many servers are on the net.
abbrev pub online : ServerGrp → ℕ
online sg = length (select sg.connected (all sg))

select-append : (p : ℕ → Bool) (xs ys : List ℕ) → select p (xs ++ ys) ≡ select p xs ++ select p ys
select-append p [] ys = refl
select-append p (x ∷ xs) ys = ground (arith, select-append p xs ys)

-- The numbers below n that pass the test.
passing : (ℕ → Bool) → ℕ → ℕ
passing p n = length (select p (all_below n))

passing-suc :
    (p : ℕ → Bool) (n : ℕ) → passing p (suc n) ≡ (if p n then suc (passing p n) else passing p n)
unfolding passing
passing-suc p n =
    ap length (select-append p (all_below n) (n ∷ []))
    ∙ length-append (select p (all_below n)) (select p (n ∷ []))
    ∙ ground arith

passing-le :
    (p q : ℕ → Bool) (n : ℕ)
    → ((k : ℕ) → k < n → p k ≡ true → q k ≡ true)
    → passing p n ≤ passing q n
unfolding passing
passing-le p q zero h = omega arith
passing-le p q (suc n) h =
    ground
      (arith, passing-le p q n (λ k lt. h k (omega arith)), h n, passing-suc p n, passing-suc q n)

passing-but :
    (p q : ℕ → Bool) (n x : ℕ)
    → ((k : ℕ) → (k == x) ≡ false → q k ≡ p k)
    → passing p n ≤ suc (passing q n)
unfolding passing
passing-but p q zero x h = omega arith
passing-but p q (suc n) x h = elim (Bool-cases (n == x)) [
  | inl here ↦
      ground
        (arith, passing-suc p n, passing-suc q n, passing-le p q n (λ k lt e. ground (arith, h k)))
  | inr other ↦ ground (arith, h n, passing-suc p n, passing-suc q n, passing-but p q n x h)
]

online-kill_node : (sg : ServerGrp) (victim : ℕ) → online sg ≤ suc (online (kill_node sg victim))
unfolding kill_node shutdown_server passing
online-kill_node sg victim =
    let (_, (c, n, _)) = disconnect_lem sg victim (all sg) in
    let less : online sg ≤ suc (passing (disconnect sg victim (all sg)).connected sg.size) =
      passing-but sg.connected (disconnect sg victim (all sg)).connected sg.size victim
        (λ k other. ground (arith, ap (λ (g : ℕ → Bool). g k) c)) in
    rw n less

-- The group has its size, and what is connected stays so.
abbrev StaysOn : ServerGrp → ServerGrp → Type 0
StaysOn old new =
    (new.size ≡ old.size) × ((k : ℕ) → old.connected k ≡ true → new.connected k ≡ true)

partition-StaysOn : (sg : ServerGrp) (p1 p2 : List ℕ) → StaysOn sg (partition sg p1 p2)
unfolding partition
partition-StaysOn sg p1 p2 = (
  size-join_part (join_part sg p1 p1 p2) p2 p2 p1 ∙ size-join_part sg p1 p1 p2,
  λ k on. ground (
    arith,
    join_part-connected (join_part sg p1 p1 p2) p2 p2 p1 k,
    join_part-connected sg p1 p1 p2 k,
  ),
)

connect_one-StaysOn : (sg : ServerGrp) (i : ℕ) → StaysOn sg (connect_one sg i)
unfolding connect_one
connect_one-StaysOn sg i =
    let (_, (c, n, _)) = connect_lem sg i (all sg) in
    (n, λ k on. ground (arith, ap (λ (g : ℕ → Bool). g k) c))

reapply_in-StaysOn : (sg : ServerGrp) (marks : List ℕ) → StaysOn sg (reapply_in sg marks)
unfolding reapply_in
reapply_in-StaysOn sg marks = elim (Bool-cases (is_nil marks || is_nil isolated || is_nil rest)) [
  | inl idle ↦ rw idle (refl, λ k on. on)
  | inr split ↦ rw split (partition-StaysOn sg rest isolated)
]
  where
    rest : List ℕ
    rest = select (λ i. sg.connected i && not (is_listed i marks)) (all sg)

    isolated : List ℕ
    isolated = select (λ i. sg.connected i && is_listed i marks) (all sg)

restart_node-StaysOn :
    (sg : ServerGrp) (marks pending : List ℕ) (srv : ℕ)
    → StaysOn sg (restart_node sg marks pending srv).0
unfolding restart_node start_in
restart_node-StaysOn sg marks pending srv =
    let up : ServerGrp = start_server true sg srv in
    let (n, h) = connect_one-StaysOn up srv in
    let (m, g) = reapply_in-StaysOn (connect_one up srv) marks in
    elim (Bool-cases (sg.running srv)) [
      | inl runs ↦ rw runs (
        m ∙ n ∙ size-start_server true sg srv,
        λ k on. g k (h k (connected-start_server true sg srv k ∙ on)),
      )
      | inr down ↦ rw down (
        m ∙ n ∙ size-start_server true sg srv,
        λ k on. g k (h k (connected-start_server true sg srv k ∙ on)),
      )
    ]

online-restart_node :
    (sg : ServerGrp) (marks pending : List ℕ) (srv : ℕ)
    → online sg ≤ online (restart_node sg marks pending srv).0
unfolding passing
online-restart_node sg marks pending srv =
    let (n, h) = restart_node-StaysOn sg marks pending srv in
    rw n (
      passing-le sg.connected (restart_node sg marks pending srv).0.connected sg.size
        (λ k lt on. h k on))

tick-online :
    (sg : ServerGrp) (pending : List ℕ) (pick victim : ℕ)
    → (tick sg pending pick).1 ≡ some victim
    → sg.size / 2 + 1 < online sg
unfolding tick passing
tick-online sg pending pick victim e =
    let le =
      passing-le (λ i. sg.connected i && not (is_listed i (cleaned sg pending))) sg.connected
        sg.size (λ k lt h. ground arith) in
    ground arith

-- The group has its size; a majority is on the net, and one more while a server is chosen.
abbrev Enough : ServerGrp → Chaos → Type 0
Enough first s =
    (s.sg.size ≡ first.size)
    × (first.size / 2 + 1 ≤ online s.sg)
    × ((victim : ℕ) → s.doomed ≡ some victim → first.size / 2 + 1 < online s.sg)

ChaosStep-Enough :
    (first : ServerGrp) {s t : Chaos} → ChaosStep s t → Enough first s → Enough first t
unfolding kill_node shutdown_server
ChaosStep-Enough first {s} (ticks pick calm_now e) (n, q, d) =
    rw e (n, q, λ victim h. ground (arith, tick-online s.sg s.pending pick victim, n))
ChaosStep-Enough first {s} (kills victim chosen e) (n, q, d) =
    let (_, (_, m, _)) = disconnect_lem s.sg victim (all s.sg) in
    rw e
      (m ∙ n, ground (arith, d victim, online-kill_node s.sg victim), λ v h. absurd (ground arith))
ChaosStep-Enough first {s} (restarts marks srv waits e) (n, q, d) =
    let (m, _) = restart_node-StaysOn s.sg marks s.pending srv in
    let more = online-restart_node s.sg marks s.pending srv in
    rw e (m ∙ n, ground arith, λ v h. ground (arith, d v))

ChaosRun-Enough :
    (sg : ServerGrp) {s : Chaos} → sg.size / 2 + 1 ≤ online sg → ChaosRun sg s → Enough sg s
ChaosRun-Enough sg h calm = (refl, h, λ v e. absurd (ground arith))
ChaosRun-Enough sg h (then_step run st) = ChaosStep-Enough sg st (ChaosRun-Enough sg h run)

-- If a majority of the group is on the net when the monkey starts, a majority is on the net at
-- every later moment, where each tick comes after the kill of the tick before it.
pub online-ChaosRun :
    (sg : ServerGrp) {s : Chaos}
    → sg.size / 2 + 1 ≤ online sg
    → ChaosRun sg s
    → s.sg.size / 2 + 1 ≤ online s.sg
online-ChaosRun sg {s} h run =
    let (n, q, _) = ChaosRun-Enough sg h run in subst (λ n. n / 2 + 1 ≤ online s.sg) (sym n) q
