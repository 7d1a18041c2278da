-- ===== src/Raft/Append.antt =====
-- The AppendEntries handler of a follower (src/raft/raft.go, `AppendEntries`).
pub mod Total
pub mod Merge
pub mod Success
pub mod Refusal
use mit_distro_sys.Common.{
  ℕ, zero, suc, ◌+◌, min, Bool, true, false, Option, none, some, List, [], ◌∷◌, ◌++◌, take,
  get_elem?, ltb, ◌==◌, if◌then◌else◌, ◌>>=◌,
}
use mit_distro_sys.Raft.Types.{
  Raft, LogEntry, State, follower, candidate, AppendEntriesArgs, AppendEntriesReply,
}
use mit_distro_sys.Raft.Log.{
  last_log_index, slice_index, term_at, persist, become_follower_with_term,
}

-- What the check of the previous entry found: the last three fields of the reply.
pub record Verdict : Type 0 where
  pub success : Bool
  pub conflict_term : Option ℕ
  pub conflict_index : ℕ

-- A candidate of the same term steps down.
abbrev pub step_down : State → State
step_down candidate = follower
step_down s = s

module _ {C D : Type 0} where
  -- The term rules: `none` if the message is of an older term, and is refused.
  unfoldable pub accept_term : ℕ → Raft C D → ℕ → Option (Raft C D)
  unfolding become_follower_with_term
  accept_term now rf term =
      if ltb rf.current_term term
      then some (become_follower_with_term now (record rf { last_heard_time = now }) term)
      else if rf.current_term == term
      then some (record rf { last_heard_time = now; state = step_down rf.state })
      else none

  -- `for i > LastIncludedIndex && Log[i].Term == conflictTerm { i-- }`
  unfoldable pub back_up : Raft C D → ℕ → ℕ → Option ℕ
  back_up rf conflict zero = some zero
  back_up rf conflict (suc i) =
      let rest = back_up rf conflict i in
      if ltb rf.last_included_index (suc i)
      then (term_at rf (suc i) >>= λ t. if t == conflict then rest else some (suc i))
      else some (suc i)

  -- Does the log hold the entry that the leader's entries follow?
  unfoldable pub check_prev : Raft C D → AppendEntriesArgs C → Option Verdict
  check_prev rf args =
      if ltb args.prev_log_index rf.last_included_index
      then some (record {
        success = false;
        conflict_term = none;
        conflict_index = rf.last_included_index + 1;
      })
      else if ltb (last_log_index rf) args.prev_log_index
      then some
          (record { success = false; conflict_term = none; conflict_index = last_log_index rf + 1 })
      else (term_at rf args.prev_log_index >>= λ t.
          if t == args.prev_log_term
          then some (record { success = true; conflict_term = some 0; conflict_index = 0 })
          else (back_up rf t args.prev_log_index >>= λ i.
              some (record { success = false; conflict_term = some t; conflict_index = i + 1 })))

  -- The loop over the entries, at index `j` of the log: past the end, and at the first entry of
  -- another term (which cuts the log there), it stops with the entries that are left.
  unfoldable pub merge :
      Raft C D → ℕ → List (LogEntry C) → Option (List (LogEntry C) × List (LogEntry C))
  merge rf j [] = some (rf.log, [])
  merge rf j (e ∷ es) =
      let rest = merge rf (j + 1) es in
      if ltb (last_log_index rf) j
      then some (rf.log, e ∷ es)
      else (slice_index rf j >>= λ k. get_elem? rf.log k >>= λ x.
          if e.term == x.term then rest else some (take k rf.log, e ∷ es))

  -- What is left is appended, and the log is persisted if there is any.
  unfoldable pub append_left : Raft C D → List (LogEntry C) → List (LogEntry C) → Raft C D
  unfolding persist
  append_left rf log [] = record rf { log = log }
  append_left rf log (e ∷ es) = persist (record rf { log = log ++ (e ∷ es) })

  unfoldable pub advance_follower_commit : Raft C D → ℕ → Raft C D
  advance_follower_commit rf leader_commit = record rf {
    commit_index =
        if ltb rf.commit_index leader_commit
        then min leader_commit (last_log_index rf)
        else rf.commit_index;
    apply_ready = true;
  }

  abbrev pub reply_of : Raft C D → Verdict → AppendEntriesReply
  reply_of rf v = record {
    term = rf.current_term;
    success = v.success;
    conflict_term = v.conflict_term;
    conflict_index = v.conflict_index;
  }

  -- From the term check on.
  unfoldable pub append_current :
      Raft C D → AppendEntriesArgs C → Option (Raft C D × AppendEntriesReply)
  append_current rf args = check_prev rf args >>= λ v.
      if v.success
      then (merge rf (args.prev_log_index + 1) args.entries >>= λ m.
          some (advance_follower_commit (append_left rf m.0 m.1) args.leader_commit, reply_of rf v))
      else some (rf, reply_of rf v)

  unfoldable pub append_entries :
      ℕ → Raft C D → AppendEntriesArgs C → Option (Raft C D × AppendEntriesReply)
  append_entries now rf args = elim (accept_term now rf args.term) [
    | none ↦ some (
      rf,
      record {
        term = rf.current_term;
        success = false;
        conflict_term = some 0;
        conflict_index = 0;
      },
    )
    | some rf' ↦ append_current rf' args
  ]
