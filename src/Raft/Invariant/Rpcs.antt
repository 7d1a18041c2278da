-- ===== src/Raft/Invariant/Rpcs.antt =====
-- The three RPC handlers of a peer.
use mit_distro_sys.Common.{ℕ}
use mit_distro_sys.Raft.Types.{Raft, AppendEntriesArgs, RequestVoteArgs, InstallSnapshotArgs}
use mit_distro_sys.Raft.Append.{append_entries}
use mit_distro_sys.Raft.Vote.{request_vote}
use mit_distro_sys.Raft.Snapshot.{install_snapshot}
use mit_distro_sys.Raft.Invariant.{IsWellFormed}
use mit_distro_sys.Raft.Invariant.Handlers.{
  Runs, append_entries-Runs, request_vote-Runs, install_snapshot-Runs,
}

-- A message to a peer
pub data Rpc (C D : Type 0) : Type 0 where
  append_rpc : AppendEntriesArgs C → Rpc C D
  vote_rpc : RequestVoteArgs → Rpc C D
  snapshot_rpc : InstallSnapshotArgs D → Rpc C D

module _ {C D : Type 0} where
  abbrev pub HandlerRuns : ℕ → Raft C D → Rpc C D → Type 0
  HandlerRuns now rf (append_rpc args) = Runs (append_entries now rf args)
  HandlerRuns now rf (vote_rpc args) = Runs (request_vote now rf args)
  HandlerRuns now rf (snapshot_rpc args) = Runs (install_snapshot now rf args)

  -- The handler of any AppendEntries, RequestVote or InstallSnapshot never reads outside the log of
  -- a well-formed peer, and leaves the peer well-formed.
  pub rpc-HandlerRuns :
      (now : ℕ) (rf : Raft C D) (m : Rpc C D) → IsWellFormed rf → HandlerRuns now rf m
  rpc-HandlerRuns now rf (append_rpc args) w = append_entries-Runs now rf args w
  rpc-HandlerRuns now rf (vote_rpc args) w = request_vote-Runs now rf args w
  rpc-HandlerRuns now rf (snapshot_rpc args) w = install_snapshot-Runs now rf args w
