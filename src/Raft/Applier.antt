-- ===== src/Raft/Applier.antt =====
-- The applier (src/raft/raft.go, `applier`): one round takes a message under the lock, sends it, and
-- then notes that it is applied.
use mit_distro_sys.Common.{◌+◌, false, Option, none, some, ltb, if◌then◌else◌, ◌>>=◌}
use mit_distro_sys.Raft.Types.{Raft, ApplyMsg, command_msg, snapshot_msg}
use mit_distro_sys.Raft.Log.{entry_at, term_at}

module _ {C D : Type 0} where
  -- The inner `none` is the end of the inner loop.
  unfoldable pub next_message : Raft C D → Option (Option (ApplyMsg C D) × Raft C D)
  next_message rf =
      if rf.snapshot_pending
      then (term_at rf rf.last_included_index >>= λ t. some (
        some (snapshot_msg rf.snapshot_data t rf.last_included_index),
        record rf { snapshot_pending = false },
      ))
      else if ltb rf.last_applied rf.commit_index
      then (entry_at rf (rf.last_applied + 1) >>= λ e.
          some (some (command_msg e.command (rf.last_applied + 1)), rf))
      else some (none, rf)

  unfoldable pub message_applied : Raft C D → ApplyMsg C D → Raft C D
  message_applied rf (command_msg c i) = record rf { last_applied = rf.last_applied + 1 }
  message_applied rf (snapshot_msg d t i) = record rf { last_applied = i }
