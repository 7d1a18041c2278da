-- ===== src/Raft/Boot.antt =====
-- How a peer starts (src/raft/raft.go, `Make` and `readPersist`), also after a crash.
use mit_distro_sys.Common.{ℕ, false, Option, none, some, List, [], ◌∷◌, replicate}
use mit_distro_sys.Raft.Types.{Raft, LogEntry, Disk, follower}

-- The log with nothing but the dummy of index 0.
abbrev pub empty_log : {C : Type 0} → List (LogEntry C)
empty_log = record { term = 0; command = none } ∷ []

module _ {C D : Type 0} where
  unfoldable pub read_persist : Raft C D → Option (Disk C D) → Raft C D
  read_persist rf none = rf
  read_persist rf (some d) = record rf {
    current_term = d.raft_state.current_term;
    voted_for = d.raft_state.voted_for;
    log = d.raft_state.log;
    last_included_index = d.raft_state.snapshot_index;
    last_applied = d.raft_state.snapshot_index;
    commit_index = d.raft_state.snapshot_index;
    snapshot_data = d.snapshot;
  }

  -- `Make`, before `readPersist`
  unfoldable pub fresh : ℕ → ℕ → ℕ → Option (Disk C D) → Raft C D
  fresh now peers me disk = record {
    peers = peers;
    me = me;
    current_term = 0;
    voted_for = none;
    log = empty_log;
    snapshot_data = none;
    last_included_index = 0;
    commit_index = 0;
    last_applied = 0;
    state = follower;
    next_index = replicate peers 0;
    match_index = replicate peers 0;
    last_heard_time = now;
    log_appended = false;
    replicate_ready = replicate peers false;
    apply_ready = false;
    snapshot_pending = false;
    disk = disk;
  }

  unfoldable pub make : ℕ → ℕ → ℕ → Option (Disk C D) → Raft C D
  unfolding read_persist fresh
  make now peers me disk = read_persist (fresh now peers me disk) disk
