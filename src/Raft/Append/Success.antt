-- ===== src/Raft/Append/Success.antt =====
-- When a follower answers AppendEntries with success, and what its log is then.
use mit_distro_sys.Common.{
  ℕ, ◌+◌, ◌-◌, ◌≤◌, ◌<◌, ◌≡◌, refl, sym, ap, ◌∙◌, subst, subst₂, inl, inr, true, none, some, List,
  [], ◌∷◌, ◌++◌, arith, ltb, leb, ◌==◌, if◌then◌else◌, ==_iff, Bool-cases, Option-cases, ◌>>=◌,
  >>=-eq-some, length, get_elem?,
}
use mit_distro_sys.Raft.Append.Merge.{Merged, merge-Merged}
use mathlib.Core.List.{append-nil}
use mit_distro_sys.Raft.Types.{Raft, LogEntry, AppendEntriesArgs, AppendEntriesReply}
use mit_distro_sys.Raft.Log.{last_log_index, term_at}
use mit_distro_sys.Raft.Append.{
  Verdict, merge, check_prev, append_left, append_current, append_entries, accept_term,
  advance_follower_commit, back_up,
}
use mit_distro_sys.Raft.Invariant.{IsWellFormed}

module _ {C D : Type 0} where
  -- The place in the slice after the previous entry.
  abbrev pub place_after : Raft C D → ℕ → ℕ
  place_after rf prev = prev - rf.last_included_index + 1

  -- The log holds the entry that the message builds on, and was merged with the message's entries.
  pub record Accepted (rf : Raft C D) (args : AppendEntriesArgs C) (rf' : Raft C D) : Type 0 where
    pub in_log : rf.last_included_index ≤ args.prev_log_index
    pub has_prev : term_at rf args.prev_log_index ≡ some args.prev_log_term
    pub merged : Merged rf.log args.entries rf'.log (place_after rf args.prev_log_index)

  pub check_prev_success :
      (rf : Raft C D) (args : AppendEntriesArgs C) {v : Verdict}
      → check_prev rf args ≡ some v
      → v.success ≡ true
      → (rf.last_included_index ≤ args.prev_log_index)
        × (args.prev_log_index ≤ last_log_index rf)
        × (term_at rf args.prev_log_index ≡ some args.prev_log_term)
  unfolding check_prev
  check_prev_success rf args {v} e good =
      elim (Bool-cases (ltb args.prev_log_index rf.last_included_index)) [
        | inl cut ↦ ground arith
        | inr kept ↦ elim (Bool-cases (ltb (last_log_index rf) args.prev_log_index)) [
          | inl short ↦ ground arith
          | inr long ↦
              let (t, p, q) =
                >>=-eq-some (term_at rf args.prev_log_index) _ (simp (kept, long) at e) in
              elim (Bool-cases (t == args.prev_log_term)) [
                | inl same ↦
                    (ground arith, ground arith, p ∙ ap some ((==_iff t args.prev_log_term).0 same))
                | inr other ↦
                    let (i, r, s) =
                      >>=-eq-some (back_up rf t args.prev_log_index) _ (simp other at q) in
                    ground arith
              ]
        ]
      ]

  pub append_left_log :
      (rf : Raft C D) (log es : List (LogEntry C)) → (append_left rf log es).log ≡ log ++ es
  unfolding append_left
  append_left_log rf log [] = sym (append-nil log)
  append_left_log rf log (e ∷ es) = refl

  append_current_success :
      (rf : Raft C D) (args : AppendEntriesArgs C) {rf' : Raft C D} {reply : AppendEntriesReply}
      → 0 < length rf.log
      → append_current rf args ≡ some (rf', reply)
      → reply.success ≡ true
      → Accepted rf args rf'
  unfolding append_current advance_follower_commit
  append_current_success rf args {rf'} {reply} pos e good =
      let (v, p, q) = >>=-eq-some (check_prev rf args) _ e in
      elim (Bool-cases v.success) [
        | inr bad ↦ ground arith
        | inl fine ↦
            let (lo, hi, prev) = check_prev_success rf args p fine in
            let (m, r, s) =
              >>=-eq-some (merge rf (args.prev_log_index + 1) args.entries) _ (simp fine at q) in
            let at : (append_left rf m.0 m.1).log ≡ rf'.log = ground arith in
            record {
              in_log = lo;
              has_prev = prev;
              merged =
                  subst (λ l. Merged rf.log args.entries l (place_after rf args.prev_log_index))
                    (sym (append_left_log rf m.0 m.1) ∙ at)
                    (merge-Merged rf pos (place_after rf args.prev_log_index) args.entries
                      (unfold last_log_index in omega arith)
                      (subst (λ n. merge rf n args.entries ≡ some m) (omega arith) r));
            }
      ]

  pub accept_term_log :
      (now : ℕ) (rf : Raft C D) (term : ℕ) {rf' : Raft C D}
      → accept_term now rf term ≡ some rf'
      → (rf'.log ≡ rf.log) × (rf'.last_included_index ≡ rf.last_included_index)
  unfolding accept_term
  accept_term_log now rf term e = (ground arith, ground arith)

  -- A well-formed follower that answers AppendEntries with success held the previous entry with the
  -- term that the message names. Its new log is the old one up to that entry, and from there on has
  -- an entry of the right term for each entry of the message.
  pub append_entries-Accepted :
      (now : ℕ) (rf : Raft C D) (args : AppendEntriesArgs C) {rf' : Raft C D}
      {reply : AppendEntriesReply}
      → IsWellFormed rf
      → append_entries now rf args ≡ some (rf', reply)
      → reply.success ≡ true
      → Accepted rf args rf'
  unfolding append_entries term_at
  append_entries-Accepted now rf args {rf'} {reply} w e good =
      elim (Option-cases (accept_term now rf args.term)) [
        | inl old ↦ ground arith
        | inr (rf1, new) ↦
            let (sl, si) = accept_term_log now rf args.term new in
            let a : Accepted rf1 args rf' =
              append_current_success rf1 args {reply = reply}
                (subst (λ l. 0 < length l) (sym sl) w.nonempty) (ground arith) good in
            record {
              in_log = subst (λ n. n ≤ args.prev_log_index) si a.in_log;
              has_prev =
                  subst₂
                    (λ l n.
                      ((if leb n args.prev_log_index then some (args.prev_log_index - n) else none)
                        >>= get_elem? l
                        >>= λ x. some x.term)
                      ≡ some args.prev_log_term)
                    sl si a.has_prev;
              merged =
                  subst₂ (λ l n. Merged l args.entries rf'.log (args.prev_log_index - n + 1)) sl si
                    a.merged;
            }
      ]
