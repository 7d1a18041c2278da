-- ===== src/Tester/Group.antt =====
-- One group of servers (src/tester/group.go, `ServerGrp`) with its servers (src/tester/srv.go).
use mit_distro_sys.Common.{
  ℕ, nat_eq, zero, suc, Bool, true, false, List, [], ◌∷◌, ◌++◌, if◌then◌else◌, update,
}
pub mod Ends
pub mod Members
pub mod Parts
pub mod Wired

-- `ends i j` is whether the outgoing end of server i to server j is enabled; `running` is `dc != nil`.
pub record ServerGrp : Type 0 where
  pub size : ℕ
  pub running : ℕ → Bool
  pub connected : ℕ → Bool
  pub ends : ℕ → ℕ → Bool

unfoldable pub make_srv_grp : ℕ → ServerGrp
make_srv_grp n = record {
  size = n;
  running = λ i. false;
  connected = λ i. false;
  ends = λ i j. false;
}

abbrev pub set_end : ServerGrp → ℕ → ℕ → Bool → ServerGrp
set_end sg i j v = record sg { ends = update sg.ends i (update (sg.ends i) j v) }

-- `all`
abbrev pub all_below : ℕ → List ℕ
all_below zero = []
all_below (suc n) = all_below n ++ n ∷ []

abbrev pub all : ServerGrp → List ℕ
all sg = all_below sg.size

-- `connect` of a server: its outgoing ends
unfoldable pub connect_out : ServerGrp → ℕ → List ℕ → ServerGrp
connect_out sg i [] = sg
connect_out sg i (j ∷ to) = connect_out (if sg.connected j then set_end sg i j true else sg) i to

-- The loop over the incoming ends
unfoldable pub connect_in : ServerGrp → ℕ → List ℕ → ServerGrp
connect_in sg i [] = sg
connect_in sg i (j ∷ to) = connect_in (if sg.connected j then set_end sg j i true else sg) i to

unfoldable pub connect : ServerGrp → ℕ → List ℕ → ServerGrp
unfolding connect_out connect_in
connect sg i to =
    connect_in (connect_out (record sg { connected = update sg.connected i true }) i to) i to

unfoldable pub disconnect_out : ServerGrp → ℕ → List ℕ → ServerGrp
disconnect_out sg i [] = sg
disconnect_out sg i (j ∷ from) = disconnect_out (set_end sg i j false) i from

unfoldable pub disconnect_in : ServerGrp → ℕ → List ℕ → ServerGrp
disconnect_in sg i [] = sg
disconnect_in sg i (j ∷ from) = disconnect_in (set_end sg j i false) i from

unfoldable pub disconnect : ServerGrp → ℕ → List ℕ → ServerGrp
unfolding disconnect_out disconnect_in
disconnect sg i from =
    disconnect_in (disconnect_out (record sg { connected = update sg.connected i false }) i from) i
      from

unfoldable pub connect_one : ServerGrp → ℕ → ServerGrp
unfolding connect
connect_one sg i = connect sg i (all sg)

unfoldable pub connect_each : ServerGrp → List ℕ → ServerGrp
unfolding connect_one
connect_each sg [] = sg
connect_each sg (i ∷ is) = connect_each (connect_one sg i) is

-- `ConnectAll`
unfoldable pub connect_all : ServerGrp → ServerGrp
unfolding connect_each
connect_all sg = connect_each sg (all sg)

-- One of the two loops of `Partition`
unfoldable pub join_part : ServerGrp → List ℕ → List ℕ → List ℕ → ServerGrp
unfolding connect disconnect
join_part sg [] part rest = sg
join_part sg (i ∷ is) part rest = join_part (connect (disconnect sg i rest) i part) is part rest

unfoldable pub partition : ServerGrp → List ℕ → List ℕ → ServerGrp
unfolding join_part
partition sg p1 p2 = join_part (join_part sg p1 p1 p2) p2 p2 p1

-- `StartServer`; a new server has new ends, which are disabled. `started` is whether the daemon starts.
unfoldable pub start_server : Bool → ServerGrp → ℕ → ServerGrp
start_server started sg i =
    if sg.running i
    then sg
    else record sg { ends = update sg.ends i (λ j. false); running = update sg.running i started }

unfoldable pub shutdown_server : ServerGrp → ℕ → ServerGrp
unfolding disconnect
shutdown_server sg i =
    let off = disconnect sg i (all sg) in record off { running = update off.running i false }

-- `Kill`
unfoldable pub kill : ServerGrp → List ℕ → ServerGrp
unfolding shutdown_server
kill sg [] = sg
kill sg (i ∷ is) = kill (shutdown_server sg i) is

-- `Shutdown`
unfoldable pub shutdown : ServerGrp → ServerGrp
unfolding kill
shutdown sg = kill sg (all sg)

unfoldable pub start_srvs : (ℕ → Bool) → ServerGrp → List ℕ → ServerGrp
unfolding start_server
start_srvs started sg [] = sg
start_srvs started sg (i ∷ is) = start_srvs started (start_server (started i) sg i) is

unfoldable pub start_servers : (ℕ → Bool) → ServerGrp → ServerGrp
unfolding start_srvs connect_all
start_servers started sg = connect_all (start_srvs started sg (all sg))
