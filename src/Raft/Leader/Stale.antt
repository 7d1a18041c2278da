-- ===== src/Raft/Leader/Stale.antt =====
-- A late success reply, to a leader whose log has become shorter since it sent the entries.
use mit_distro_sys.Common.{
  ℕ, ◌+◌, ◌≤◌, ◌<◌, ◌≡◌, sym, subst, inl, inr, true, false, none, some, arith, ltb, leb, ◌>>=◌,
  length, get_elem?, get_elem?-set_self,
}
use mit_distro_sys.Raft.Leader.Commit.{committed_to, advance_commit_index-Advances}
use mit_distro_sys.Raft.Types.{Raft, AppendEntriesArgs, AppendEntriesReply}
use mit_distro_sys.Raft.Log.{last_log_index, entries_from}
use mit_distro_sys.Raft.Leader.{
  set_matched, on_append_reply, new_append_entries_args, advance_commit_index,
}

module _ {C D : Type 0} where
  entries_from_past_end :
      (rf : Raft C D) (n : ℕ)
      → 0 < length rf.log
      → last_log_index rf + 1 < n
      → entries_from rf n ≡ none
  unfolding entries_from last_log_index
  entries_from_past_end rf n pos far = ground arith

  args_past_end :
      (rf : Raft C D) (i n : ℕ)
      → 0 < length rf.log
      → get_elem? rf.next_index i ≡ some n
      → last_log_index rf + 1 < n
      → new_append_entries_args rf i ≡ none
  unfolding new_append_entries_args
  args_past_end rf i n pos e far = rw (e, ◌>>=◌) (rw (entries_from_past_end rf n pos far))

  set_matched_past_end :
      (rf : Raft C D) (i n : ℕ) {rf' : Raft C D}
      → advance_commit_index (set_matched rf i n) ≡ some rf'
      → 0 < length rf.log
      → i < length rf.next_index
      → last_log_index rf < n
      → new_append_entries_args rf' i ≡ none
  unfolding set_matched last_log_index
  set_matched_past_end rf i n {rf'} e pos lt far =
      let at = get_elem?-set_self rf.next_index i (n + 1) lt in
      elim (advance_commit_index-Advances (set_matched rf i n) rf' e) [
        | inl same ↦
            subst (λ r. new_append_entries_args r i ≡ none) (sym same)
              (args_past_end (set_matched rf i n) i (n + 1) pos at (omega arith))
        | inr (k, moved, lo, hi, t, most) ↦
            subst (λ r. new_append_entries_args r i ≡ none) (sym moved)
              (args_past_end (committed_to (set_matched rf i n) k) i (n + 1) pos at (omega arith))
      ]

  -- If a success reply of no higher term answers entries that reach past the end of the peer's log
  -- and past the follower's match index, as a reply to a message of an earlier leadership may, then
  -- after it is handled the arguments of the next AppendEntries to that follower cannot be built: the
  -- peer reads outside its log and panics.
  pub on_append_reply_past_end :
      (now : ℕ) (rf : Raft C D) (i m : ℕ) (args : AppendEntriesArgs C) (reply : AppendEntriesReply)
      {rf' : Raft C D}
      → 0 < length rf.log
      → i < length rf.next_index
      → get_elem? rf.match_index i ≡ some m
      → reply.term ≤ rf.current_term
      → reply.success ≡ true
      → m < args.prev_log_index + length args.entries
      → last_log_index rf < args.prev_log_index + length args.entries
      → on_append_reply now rf i args reply ≡ some rf'
      → new_append_entries_args rf' i ≡ none
  unfolding on_append_reply
  on_append_reply_past_end now rf i m args reply {rf'} pos lt at old good more far e =
      let reached = args.prev_log_index + length args.entries in
      let stale : ltb rf.current_term reply.term ≡ false = ground arith in
      let past : leb reached m ≡ false = ground arith in
      set_matched_past_end rf i reached (simp (stale, at, good, past) at e) pos lt far
