-- ===== src/Demo/Isolation.antt =====
-- An isolated server stays apart from the others (shardkv-demo/cluster/manager.go: `IsolateNode`,
-- `StartServer`, `KillServer`, `RecoverNode`).
use mit_distro_sys.Demo.Apart.{
  Parted, isolate_in-IsWired, isolate_in-Parted, start_in_lem, shutdown_server-Parted,
  recover_in-IsWired,
}
use mit_distro_sys.Common.{ℕ, ◌<◌, ◌≡◌, Bool, List, [], arith, refl}
use mit_distro_sys.Tester.Group.{ServerGrp, make_srv_grp, shutdown_server}
use mit_distro_sys.Demo.Manager.{isolate_in, recover_in, start_in}
use mit_distro_sys.Tester.Group.Parts.{IsWired}
use mit_distro_sys.Tester.Group.Wired.{shutdown_server-IsWired}

-- An operation on a server of the group, with the record of isolated servers. A recovery is of the
-- only server that is isolated, or of one when none is.
pub data GroupStep (sg : ServerGrp) (marks : List ℕ) : ServerGrp → List ℕ → Type 0 where
  stop : (srv : ℕ) → srv < sg.size → GroupStep sg marks (shutdown_server sg srv) marks
  restart :
      (started : Bool) (srv : ℕ)
      → srv < sg.size
      → GroupStep sg marks (start_in started sg marks srv).0 marks
  isolate :
      (srv : ℕ) → srv < sg.size → GroupStep sg marks (isolate_in sg srv).0 (isolate_in sg srv).1
  recover :
      (srv : ℕ)
      → srv < sg.size
      → (recover_in sg marks srv).1 ≡ []
      → GroupStep sg marks (recover_in sg marks srv).0 []

-- From a new group of n servers, none of which runs.
pub data GroupRun (n : ℕ) : ServerGrp → List ℕ → Type 0 where
  new_group : GroupRun n (make_srv_grp n) []
  next_step :
      {sg sg' : ServerGrp} {marks marks' : List ℕ}
      → GroupRun n sg marks
      → GroupStep sg marks sg' marks'
      → GroupRun n sg' marks'

GroupStep-holds :
    {sg : ServerGrp} {marks : List ℕ} {sg' : ServerGrp} {marks' : List ℕ}
    → GroupStep sg marks sg' marks'
    → IsWired sg
    → Parted sg marks
    → IsWired sg' × Parted sg' marks'
GroupStep-holds {sg} {marks} (stop srv lt) w p =
    (shutdown_server-IsWired sg srv w, shutdown_server-Parted sg marks srv p)
GroupStep-holds {sg} {marks} (restart started srv lt) w p = start_in_lem started sg marks srv lt w p
GroupStep-holds {sg} (isolate srv lt) w p =
    (isolate_in-IsWired sg srv lt w, isolate_in-Parted sg srv lt w)
GroupStep-holds {sg} {marks} (recover srv lt last) w p =
    (recover_in-IsWired sg marks srv lt w, λ x y h g. absurd (ground arith))

GroupRun-holds :
    {n : ℕ} {sg : ServerGrp} {marks : List ℕ} → GroupRun n sg marks → IsWired sg × Parted sg marks
unfolding make_srv_grp
GroupRun-holds new_group = (
  record {
    both_connected = λ a b e. absurd (ground arith);
    in_group = λ a e. absurd (ground arith);
  },
  λ x y h g. (refl, refl),
)
GroupRun-holds (next_step run st) = let (w, p) = GroupRun-holds run in GroupStep-holds st w p

-- After any run of KillServer, StartServer, IsolateNode and RecoverNode on a group, where only the
-- isolated server is recovered while one is isolated, no end between a server that is recorded as
-- isolated and one that is not is enabled, in either direction.
pub GroupRun-Parted :
    {n : ℕ} {sg : ServerGrp} {marks : List ℕ} → GroupRun n sg marks → Parted sg marks
GroupRun-Parted run = (GroupRun-holds run).1
