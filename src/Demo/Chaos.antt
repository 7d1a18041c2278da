-- ===== src/Demo/Chaos.antt =====
-- The chaos monkey of a group (shardkv-demo/cluster/chaosmonkey.go).
use mit_distro_sys.Common.{
  ℕ, ◌/◌, ◌+◌, ◌≡◌, true, not, ◌&&◌, Option, none, some, List, [], ◌∷◌, ltb, if◌then◌else◌,
  is_listed, length, get_elem?,
}
use mit_distro_sys.Tester.Group.{ServerGrp, all, shutdown_server}
use mit_distro_sys.Demo.Manager.{select, remove, start_in}

-- The servers of the group that a tick may choose. `pending` are those that await their restart.
abbrev pub eligible_in : ServerGrp → List ℕ → List ℕ
eligible_in sg pending = select (λ i. sg.connected i && not (is_listed i pending)) (all sg)

-- What is left of `pending` after the connected ones are deleted.
abbrev pub cleaned : ServerGrp → List ℕ → List ℕ
cleaned sg pending = select (λ i. not (ltb i sg.size && sg.connected i)) pending

abbrev pub pending_after : List ℕ → Option ℕ → List ℕ
pending_after pending none = pending
pending_after pending (some victim) = victim ∷ pending

-- `tick`, with the new pending servers and the one to kill; `pick` is the random number.
unfoldable pub tick : ServerGrp → List ℕ → ℕ → List ℕ × Option ℕ
tick sg pending pick =
    let left = cleaned sg pending in
    let eligible = eligible_in sg left in
    let victim =
      if ltb (sg.size / 2 + 1) (length eligible) then get_elem? eligible pick else none in
    (pending_after left victim, victim)

-- The call of ShutdownServer in `killNode`
unfoldable pub kill_node : ServerGrp → ℕ → ServerGrp
kill_node sg victim = shutdown_server sg victim

-- `restartNode` once the daemon starts, with the pending servers that are left.
unfoldable pub restart_node : ServerGrp → List ℕ → List ℕ → ℕ → ServerGrp × List ℕ
restart_node sg marks pending srv = ((start_in true sg marks srv).0, remove srv pending)

-- A group and its monkey; `doomed` is the server that was chosen and is not shut down yet.
pub record Chaos : Type 0 where
  pub sg : ServerGrp
  pub pending : List ℕ
  pub doomed : Option ℕ

-- A tick comes only after the server that the one before chose is shut down.
pub data ChaosStep (s t : Chaos) : Type 0 where
  ticks :
      (pick : ℕ)
      → s.doomed ≡ none
      → t
        ≡ record s { pending = (tick s.sg s.pending pick).0; doomed = (tick s.sg s.pending pick).1 }
      → ChaosStep s t
  kills :
      (victim : ℕ)
      → s.doomed ≡ some victim
      → t ≡ record s { sg = kill_node s.sg victim; doomed = none }
      → ChaosStep s t
  restarts :
      (marks : List ℕ) (srv : ℕ)
      → is_listed srv s.pending ≡ true
      → t ≡ record s {
        sg = (restart_node s.sg marks s.pending srv).0;
        pending = (restart_node s.sg marks s.pending srv).1;
      }
      → ChaosStep s t

pub data ChaosRun (sg : ServerGrp) : Chaos → Type 0 where
  calm : ChaosRun sg (record { sg = sg; pending = []; doomed = none })
  then_step : {s t : Chaos} → ChaosRun sg s → ChaosStep s t → ChaosRun sg t
