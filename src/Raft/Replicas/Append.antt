-- ===== src/Raft/Replicas/Append.antt =====
-- The handler of AppendEntries on a log without a snapshot.
use mit_distro_sys.Common.{
  ℕ, suc, ◌+◌, ◌<◌, ◌≡◌, sym, ◌∙◌, subst, inl, inr, some, List, ◌++◌, arith, Bool-cases,
  >>=-eq-some, length, get_elem?, ap, Option-cases, get_elem?-lt-length,
}
use mit_distro_sys.Raft.Types.{Raft, LogEntry, AppendEntriesArgs, AppendEntriesReply}
use mit_distro_sys.Raft.Log.{term_at, entry_at, slice_index}
use mit_distro_sys.Raft.Append.{
  merge, check_prev, append_left, append_current, append_entries, accept_term,
  advance_follower_commit,
}
use mit_distro_sys.Raft.Append.Success.{check_prev_success, append_left_log, accept_term_log}
use mit_distro_sys.Raft.Replicas.Splice.{Spliced, merge-Spliced}

-- The log is kept, or the message's entries were merged after the entry they follow.
pub data Appended {C : Type 0} (log : List (LogEntry C)) (args : AppendEntriesArgs C)
    : List (LogEntry C) → Type 0 where
  kept : Appended log args log
  merged :
      (x : LogEntry C) (m : List (LogEntry C) × List (LogEntry C))
      → get_elem? log args.prev_log_index ≡ some x
      → x.term ≡ args.prev_log_term
      → Spliced log (suc args.prev_log_index) args.entries m
      → Appended log args (m.0 ++ m.1)

module _ {C D : Type 0} where
  -- Without a snapshot an index is a place in the slice.
  pub term_at-entry :
      (rf : Raft C D) (i t : ℕ)
      → rf.last_included_index ≡ 0
      → term_at rf i ≡ some t
      → (x : LogEntry C) × (get_elem? rf.log i ≡ some x) × (x.term ≡ t)
  unfolding term_at entry_at slice_index
  term_at-entry rf i t z e =
      let (x, p, q) = >>=-eq-some (entry_at rf i) _ e in
      let (k, r, s) = >>=-eq-some (slice_index rf i) _ p in
      (x, ap (get_elem? rf.log) (ground arith) ∙ s, ground arith)

  append_current-Appended :
      (rf : Raft C D) (args : AppendEntriesArgs C) {rf' : Raft C D} {reply : AppendEntriesReply}
      → rf.last_included_index ≡ 0
      → 0 < length rf.log
      → append_current rf args ≡ some (rf', reply)
      → Appended rf.log args rf'.log
  unfolding append_current advance_follower_commit
  append_current-Appended rf args {rf'} {reply} z pos e =
      let (v, p, q) = >>=-eq-some (check_prev rf args) _ e in
      elim (Bool-cases v.success) [
        | inr bad ↦ subst (Appended rf.log args) (ground arith) kept
        | inl fine ↦
            let (lo, hi, prev) = check_prev_success rf args p fine in
            let (m, r, s) =
              >>=-eq-some (merge rf (args.prev_log_index + 1) args.entries) _ (simp fine at q) in
            let at : (append_left rf m.0 m.1).log ≡ rf'.log = ground arith in
            let (x, here, same) = term_at-entry rf args.prev_log_index args.prev_log_term z prev in
            subst (Appended rf.log args) (sym (append_left_log rf m.0 m.1) ∙ at) (
              merged x m here same (
                merge-Spliced rf (suc args.prev_log_index) args.entries z pos
                  (get_elem?-lt-length rf.log args.prev_log_index here)
                  (subst (λ n. merge rf n args.entries ≡ some m) (omega arith) r)))
      ]

  pub append_entries-Appended :
      (now : ℕ) (rf : Raft C D) (args : AppendEntriesArgs C) {rf' : Raft C D}
      {reply : AppendEntriesReply}
      → rf.last_included_index ≡ 0
      → 0 < length rf.log
      → append_entries now rf args ≡ some (rf', reply)
      → Appended rf.log args rf'.log
  unfolding append_entries
  append_entries-Appended now rf args {rf'} {reply} z pos e =
      elim (Option-cases (accept_term now rf args.term)) [
        | inl old ↦ subst (Appended rf.log args) (ground arith) kept
        | inr (rf1, new) ↦
            let (l, i) = accept_term_log now rf args.term new in
            subst (λ xs. Appended xs args rf'.log) l
              (append_current-Appended rf1 args {rf' = rf'} {reply = reply} (i ∙ z)
                (subst (λ xs. 0 < length xs) (sym l) pos) (ground arith))
      ]
