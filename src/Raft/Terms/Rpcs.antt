-- ===== src/Raft/Terms/Rpcs.antt =====
-- The handlers of AppendEntries and RequestVote keep terms and votes.
use mit_distro_sys.Common.{
  ℕ, ◌+◌, ◌≡◌, refl, subst, inl, inr, true, ◌&&◌, some, List, [], ◌∷◌, arith, ltb, leb, Bool-cases,
  Option-cases, >>=-eq-some,
}
use mit_distro_sys.Raft.Vote.{is_free_for, meet_term, is_up_to_date, grant_vote, request_vote}
use mit_distro_sys.Raft.Terms.{Keeps, Keeps-same, Keeps-higher, Keeps-trans}
use mit_distro_sys.Raft.Types.{
  Raft, LogEntry, AppendEntriesArgs, AppendEntriesReply, RequestVoteArgs, RequestVoteReply,
}
use mit_distro_sys.Raft.Append.{
  merge, accept_term, check_prev, append_left, advance_follower_commit, append_current,
  append_entries,
}
use mit_distro_sys.Raft.Log.{last_log_term}

module _ {C D : Type 0} where
  accept_term-Keeps :
      (now : ℕ) (rf : Raft C D) (term : ℕ) {rf' : Raft C D}
      → accept_term now rf term ≡ some rf'
      → Keeps rf rf'
  unfolding accept_term
  accept_term-Keeps now rf term {rf'} e = elim (Bool-cases (ltb rf.current_term term)) [
    | inl newer ↦ Keeps-higher rf rf' (ground arith) (ground arith)
    | inr older ↦ Keeps-same rf rf' (ground arith)
  ]

  append_left_keeps :
      (rf : Raft C D) (log es : List (LogEntry C))
      → ((append_left rf log es).current_term ≡ rf.current_term)
        × ((append_left rf log es).voted_for ≡ rf.voted_for)
        × ((append_left rf log es).me ≡ rf.me)
        × ((append_left rf log es).peers ≡ rf.peers)
        × ((append_left rf log es).last_applied ≡ rf.last_applied)
  unfolding append_left
  append_left_keeps rf log [] = (refl, refl, refl, refl, refl)
  append_left_keeps rf log (e ∷ es) = (refl, refl, refl, refl, refl)

  append_current-Keeps :
      (rf : Raft C D) (args : AppendEntriesArgs C) {rf' : Raft C D} {reply : AppendEntriesReply}
      → append_current rf args ≡ some (rf', reply)
      → Keeps rf rf'
  unfolding append_current advance_follower_commit
  append_current-Keeps rf args {rf'} {reply} e =
      let (v, p, q) = >>=-eq-some (check_prev rf args) _ e in
      elim (Bool-cases v.success) [
        | inr bad ↦ Keeps-same rf rf' (ground arith)
        | inl good ↦
            let (m, r, s) =
              >>=-eq-some (merge rf (args.prev_log_index + 1) args.entries) _ (rw good at q) in
            let k = append_left_keeps rf m.0 m.1 in Keeps-same rf rf' (ground (arith, k))
      ]

  pub append_entries-Keeps :
      (now : ℕ) (rf : Raft C D) (args : AppendEntriesArgs C) {rf' : Raft C D}
      {reply : AppendEntriesReply}
      → append_entries now rf args ≡ some (rf', reply)
      → Keeps rf rf'
  unfolding append_entries
  append_entries-Keeps now rf args {rf'} {reply} e =
      elim (Option-cases (accept_term now rf args.term)) [
        | inl old ↦ Keeps-same rf rf' (ground arith)
        | inr (rf1, new) ↦
            Keeps-trans rf rf1 rf' (accept_term-Keeps now rf args.term new)
              (append_current-Keeps rf1 args {reply = reply} (ground arith))
      ]

  meet_term-Keeps : (now : ℕ) (rf : Raft C D) (term : ℕ) → Keeps rf (meet_term now rf term)
  unfolding meet_term
  meet_term-Keeps now rf term = elim (Bool-cases (ltb rf.current_term term)) [
    | inl newer ↦ Keeps-higher rf _ (ground arith) (ground arith)
    | inr older ↦ Keeps-same rf _ (ground arith)
  ]

  grant_vote-Keeps :
      (now : ℕ) (rf : Raft C D) (args : RequestVoteArgs)
      → is_free_for rf.voted_for args.candidate_id ≡ true
      → Keeps rf (grant_vote now rf args)
  unfolding grant_vote
  grant_vote-Keeps now rf args free = record {
    keeps_vote = record {
      term_grows = omega arith;
      vote_stays = λ c e h. ground arith;
      same_me = refl;
      same_peers = refl;
    };
    same_applied = refl;
  }

  pub request_vote-Keeps :
      (now : ℕ) (rf : Raft C D) (args : RequestVoteArgs) {rf' : Raft C D} {reply : RequestVoteReply}
      → request_vote now rf args ≡ some (rf', reply)
      → Keeps rf rf'
  unfolding request_vote
  request_vote-Keeps now rf0 args {rf'} {reply} e =
      let rf = meet_term now rf0 args.term in
      let met = meet_term-Keeps now rf0 args.term in
      Keeps-trans rf0 rf rf' met
        (elim (Bool-cases
          (leb rf.current_term args.term && is_free_for rf.voted_for args.candidate_id)) [
            | inr refused ↦ Keeps-same rf rf' (ground arith)
            | inl free ↦
                let (t, p, q) = >>=-eq-some (last_log_term rf) _ (rw free at e) in
                elim (Bool-cases (is_up_to_date rf args t)) [
                  | inr old ↦ Keeps-same rf rf' (ground arith)
                  | inl new ↦
                      subst (Keeps rf) {x = grant_vote now rf args} (ground arith)
                        (grant_vote-Keeps now rf args (ground arith))
                ]
          ])
