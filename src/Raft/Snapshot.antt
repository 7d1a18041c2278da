-- ===== src/Raft/Snapshot.antt =====
-- Snapshots (src/raft/raft.go): the service hands one down, or the leader sends one.
use mit_distro_sys.Common.{
  ℕ, max, Bool, true, false, Option, none, some, [], ◌∷◌, leb, ltb, ◌==◌, if◌then◌else◌, ◌>>=◌,
  List,
}
use mit_distro_sys.Raft.Types.{Raft, LogEntry, InstallSnapshotArgs, InstallSnapshotReply}
use mit_distro_sys.Raft.Log.{
  last_log_index, term_at, entries_from, persist, become_follower_with_term,
}

module _ {C D : Type 0} where
  -- `Snapshot(index, snapshot)`
  unfoldable pub take_snapshot : Raft C D → ℕ → Option D → Option (Raft C D)
  unfolding persist
  take_snapshot rf index snapshot =
      if leb index rf.last_included_index
      then some rf
      else (entries_from rf index >>= λ log. some (
          persist (record rf { log = log; last_included_index = index; snapshot_data = snapshot })))

  -- Does the log hold the last entry of the snapshot? The test is short-circuit.
  unfoldable pub holds_snapshot : Raft C D → InstallSnapshotArgs D → Option Bool
  holds_snapshot rf args =
      if leb args.last_included_index (last_log_index rf)
      then (term_at rf args.last_included_index >>= λ t. some (t == args.last_included_term))
      else some false

  unfoldable pub with_snapshot : Raft C D → InstallSnapshotArgs D → List (LogEntry C) → Raft C D
  with_snapshot rf args log = record rf {
    snapshot_data = args.snapshot;
    log = log;
    last_included_index = args.last_included_index;
  }

  -- The log after the snapshot: its tail, or the dummy entry alone.
  unfoldable pub cut_log : Raft C D → InstallSnapshotArgs D → Option (Raft C D)
  cut_log rf args = holds_snapshot rf args >>= λ held.
      if held
      then (entries_from rf args.last_included_index >>= λ log. some (with_snapshot rf args log))
      else some
          (with_snapshot rf args (record { term = args.last_included_term; command = none } ∷ []))

  -- The state machine gets the snapshot if it is behind it.
  unfoldable pub queue_snapshot : Raft C D → ℕ → Raft C D
  queue_snapshot rf index =
      if ltb rf.last_applied index
      then record rf {
        commit_index = max index rf.commit_index;
        snapshot_pending = true;
        apply_ready = true;
      }
      else rf

  unfoldable pub adopt_snapshot : Raft C D → InstallSnapshotArgs D → Option (Raft C D)
  unfolding persist
  adopt_snapshot rf args =
      if ltb rf.last_included_index args.last_included_index
      then (cut_log rf args >>= λ rf'. some (persist (queue_snapshot rf' args.last_included_index)))
      else some rf

  unfoldable pub install_snapshot :
      ℕ → Raft C D → InstallSnapshotArgs D → Option (Raft C D × InstallSnapshotReply)
  unfolding become_follower_with_term
  install_snapshot now rf args =
      if ltb args.term rf.current_term
      then some (rf, record { term = rf.current_term })
      else let rf1 =
          if ltb rf.current_term args.term
          then become_follower_with_term now rf args.term
          else record rf { last_heard_time = now } in
        adopt_snapshot rf1 args >>= λ rf2. some (rf2, record { term = rf1.current_term })
