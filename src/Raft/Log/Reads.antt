-- ===== src/Raft/Log/Reads.antt =====
-- Which reads of the log are in range.
use mit_distro_sys.Common.{
  ℕ, ◌-◌, ◌≤◌, ◌<◌, ◌≡◌, some, List, arith, length, drop, get_elem?_total, length-drop,
}
use mit_distro_sys.Raft.Types.{Raft, LogEntry}
use mit_distro_sys.Raft.Log.{
  last_log_index, slice_index, entry_at, term_at, entries_from, last_log_term,
}

module _ {C D : Type 0} (rf : Raft C D) (nonempty : 0 < length rf.log) where
  pub slice_index_total :
      (i : ℕ) → rf.last_included_index ≤ i → slice_index rf i ≡ some (i - rf.last_included_index)
  unfolding slice_index
  slice_index_total i lo = ground arith

  pub entry_at_total :
      (i : ℕ)
      → rf.last_included_index ≤ i
      → i ≤ last_log_index rf
      → (e : LogEntry C) × (entry_at rf i ≡ some e)
  unfolding entry_at last_log_index
  entry_at_total i lo hi =
      let (e, p) = get_elem?_total rf.log (i - rf.last_included_index) (omega arith) in
      (e, ground (arith, p))

  pub term_at_total :
      (i : ℕ)
      → rf.last_included_index ≤ i
      → i ≤ last_log_index rf
      → (t : ℕ) × (term_at rf i ≡ some t)
  unfolding term_at
  term_at_total i lo hi = let (e, p) = entry_at_total i lo hi in (e.term, rw p)

  pub last_log_term_total : (t : ℕ) × (last_log_term rf ≡ some t)
  unfolding last_log_term
  last_log_term_total =
      let (e, p) = get_elem?_total rf.log (length rf.log - 1) (omega arith) in (e.term, rw p)

  -- A tail that starts inside the log is not empty.
  pub entries_from_total :
      (i : ℕ)
      → rf.last_included_index ≤ i
      → i ≤ last_log_index rf
      → (es : List (LogEntry C)) × (entries_from rf i ≡ some es) × (0 < length es)
  unfolding entries_from last_log_index
  entries_from_total i lo hi = (
    drop (i - rf.last_included_index) rf.log,
    ground arith,
    omega (arith, length-drop (i - rf.last_included_index) rf.log),
  )
