-- ===== src/Raft/Types.antt =====
-- The state of a peer and the messages (src/raft/raft.go, src/raftapi/raftapi.go).
-- `C` stands for the commands (`any`) and `D` for the snapshots (`[]byte`, `nil` is `none`).
-- Terms and indices are Go `int`s that start at 0 and only grow: they are natural numbers here, and
-- the -1 of `VotedFor` and `ConflictTerm` is `none`.
use mit_distro_sys.Common.{ℕ, Bool, true, false, List, Option}

pub record LogEntry (C : Type 0) : Type 0 where
  pub term : ℕ
  pub command : Option C

pub data State : Type 0 where
  follower candidate leader : State

abbrev pub is_leader : State → Bool
is_leader leader = true
is_leader _ = false

abbrev pub is_candidate : State → Bool
is_candidate candidate = true
is_candidate _ = false

pub record PersistedState (C : Type 0) : Type 0 where
  pub current_term : ℕ
  pub voted_for : Option ℕ
  pub log : List (LogEntry C)
  pub snapshot_index : ℕ

-- What the persister holds: the two arguments of its `Save`.
pub record Disk (C D : Type 0) : Type 0 where
  pub raft_state : PersistedState C
  pub snapshot : Option D

-- `peers` is `len(rf.peers)`. A channel of capacity 1 that only signals is a flag: is a signal
-- waiting in it. `disk` is what the last `persist()` wrote, `none` before the first.
pub record Raft (C D : Type 0) : Type 0 where
  pub peers : ℕ
  pub me : ℕ
  pub current_term : ℕ
  pub voted_for : Option ℕ
  pub log : List (LogEntry C)
  pub snapshot_data : Option D
  pub last_included_index : ℕ
  pub commit_index : ℕ
  pub last_applied : ℕ
  pub state : State
  pub next_index : List ℕ
  pub match_index : List ℕ
  pub last_heard_time : ℕ
  pub log_appended : Bool
  pub replicate_ready : List Bool
  pub apply_ready : Bool
  pub snapshot_pending : Bool
  pub disk : Option (Disk C D)

pub record AppendEntriesArgs (C : Type 0) : Type 0 where
  pub term : ℕ
  pub leader_id : ℕ
  pub prev_log_index : ℕ
  pub prev_log_term : ℕ
  pub entries : List (LogEntry C)
  pub leader_commit : ℕ

pub record AppendEntriesReply : Type 0 where
  pub term : ℕ
  pub success : Bool
  pub conflict_term : Option ℕ
  pub conflict_index : ℕ

pub record InstallSnapshotArgs (D : Type 0) : Type 0 where
  pub term : ℕ
  pub leader_id : ℕ
  pub last_included_index : ℕ
  pub last_included_term : ℕ
  pub snapshot : Option D

pub record InstallSnapshotReply : Type 0 where
  pub term : ℕ

pub record RequestVoteArgs : Type 0 where
  pub term : ℕ
  pub candidate_id : ℕ
  pub last_log_index : ℕ
  pub last_log_term : ℕ

pub record RequestVoteReply : Type 0 where
  pub term : ℕ
  pub vote_granted : Bool

-- What a peer sends up to the service: exactly one of the two kinds is valid.
pub data ApplyMsg (C D : Type 0) : Type 0 where
  command_msg : Option C → ℕ → ApplyMsg C D
  snapshot_msg : Option D → ℕ → ℕ → ApplyMsg C D
