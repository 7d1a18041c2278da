-- ===== src/Raft/Log.antt =====
-- The log of a peer: `Log[0]` is a dummy that stands for `LastIncludedIndex`, and an index of the
-- whole history is translated by `sliceIndex`. Reads outside the slice are panics, `none`.
pub mod Reads
use mit_distro_sys.Common.{
  ℕ, ◌+◌, ◌-◌, Option, none, some, List, drop, get_elem?, length, leb, if◌then◌else◌, ◌>>=◌,
}
use mit_distro_sys.Raft.Types.{Raft, LogEntry, Disk, follower}

module _ {C D : Type 0} where
  -- `len(rf.Log) - 1 + rf.LastIncludedIndex`, where the log is never empty
  unfoldable pub last_log_index : Raft C D → ℕ
  last_log_index rf = length rf.log - 1 + rf.last_included_index

  -- `i - LastIncludedIndex`; a negative result is an index out of range
  unfoldable pub slice_index : Raft C D → ℕ → Option ℕ
  slice_index rf i =
      if leb rf.last_included_index i then some (i - rf.last_included_index) else none

  -- `rf.Log[rf.sliceIndex(i)]`
  unfoldable pub entry_at : Raft C D → ℕ → Option (LogEntry C)
  unfolding slice_index
  entry_at rf i = slice_index rf i >>= get_elem? rf.log

  -- `rf.Log[rf.sliceIndex(i)].Term`
  unfoldable pub term_at : Raft C D → ℕ → Option ℕ
  unfolding entry_at
  term_at rf i = entry_at rf i >>= λ e. some e.term

  -- `rf.Log[rf.sliceIndex(i):]`
  unfoldable pub entries_from : Raft C D → ℕ → Option (List (LogEntry C))
  unfolding slice_index
  entries_from rf i =
      slice_index rf i >>= λ k. if leb k (length rf.log) then some (drop k rf.log) else none

  -- `rf.Log[len(rf.Log)-1].Term`
  unfoldable pub last_log_term : Raft C D → Option ℕ
  last_log_term rf = get_elem? rf.log (length rf.log - 1) >>= λ e. some e.term

  -- What `persist()` hands to the persister.
  unfoldable pub disk_image : Raft C D → Disk C D
  disk_image rf = record {
    raft_state = record {
      current_term = rf.current_term;
      voted_for = rf.voted_for;
      log = rf.log;
      snapshot_index = rf.last_included_index;
    };
    snapshot = rf.snapshot_data;
  }

  unfoldable pub persist : Raft C D → Raft C D
  unfolding disk_image
  persist rf = record rf { disk = some (disk_image rf) }

  unfoldable pub become_follower_with_term : ℕ → Raft C D → ℕ → Raft C D
  unfolding persist
  become_follower_with_term now rf term =
      persist (record rf {
        last_heard_time = now;
        state = follower;
        current_term = term;
        voted_for = none;
      })
