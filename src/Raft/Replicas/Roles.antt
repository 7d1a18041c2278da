-- ===== src/Raft/Replicas/Roles.antt =====
-- The replies that a leader gets, the votes that a candidate gets, and the commands of clients.
use mit_distro_sys.Common.{
  ℕ, ◌≡◌, refl, ◌⊎◌, inl, inr, true, some, arith, ltb, leb, Bool-cases, >>=-eq-some, ◌+◌, [], ◌∷◌,
  ◌==◌, length, get_elem?, false, ◌++◌, ==_iff,
}
use mit_distro_sys.Raft.Types.{
  Raft, AppendEntriesArgs, AppendEntriesReply, RequestVoteReply, is_leader, is_candidate,
}
use mit_distro_sys.Raft.Log.{persist, become_follower_with_term}
use mit_distro_sys.Raft.Vote.{Ballot, on_vote_reply, count_vote, become_leader}
use mit_distro_sys.Raft.Append.{append_entries, accept_term}
use mit_distro_sys.Raft.Leader.{
  on_append_reply, advance_commit_index, set_matched, next_after, start,
}
use mit_distro_sys.Raft.Leader.Commit.{advance_commit_index-Advances}
use mit_distro_sys.Raft.Replicas.Calm.{
  append_current-Unmoved, Calm, Unmoved, Role-same, Role-follower,
}

module _ {C D : Type 0} where
  abbrev Still : Raft C D → Raft C D → Type 0
  Still rf rf' = Unmoved rf rf' × (rf'.log ≡ rf.log)

  advance_commit_index-Still :
      (rf : Raft C D) {rf' : Raft C D} → advance_commit_index rf ≡ some rf' → Still rf rf'
  advance_commit_index-Still rf {rf'} e = elim (advance_commit_index-Advances rf rf' e) [
    | inl same ↦ ground arith
    | inr (k, moved, lo, hi, t, most) ↦ ground arith
  ]

  set_matched-Still :
      (rf : Raft C D) (i m : ℕ) {rf' : Raft C D}
      → advance_commit_index (set_matched rf i m) ≡ some rf'
      → Still rf rf'
  unfolding set_matched
  set_matched-Still rf i m {rf'} e = advance_commit_index-Still (set_matched rf i m) e

  pub on_append_reply-Calm :
      (now : ℕ) (rf : Raft C D) (i : ℕ) (args : AppendEntriesArgs C) (reply : AppendEntriesReply)
      {rf' : Raft C D}
      → on_append_reply now rf i args reply ≡ some rf'
      → Calm rf rf'
  unfolding on_append_reply become_follower_with_term persist
  on_append_reply-Calm now rf i args reply {rf'} e =
      let reached = args.prev_log_index + length args.entries in
      elim (Bool-cases (ltb rf.current_term reply.term)) [
        | inl newer ↦ (Role-follower rf rf' (ground arith) (ground arith), ground arith)
        | inr older ↦
            let (m, p, q) = >>=-eq-some (get_elem? rf.match_index i) _ (simp older at e) in
            let still : Still rf rf' = elim (Bool-cases reply.success) [
              | inl good ↦ elim (Bool-cases (leb reached m)) [
                | inl stale ↦ ground arith
                | inr more ↦ set_matched-Still rf i reached (simp (good, more) at q)
              ]
              | inr bad ↦ elim (Bool-cases (leb args.prev_log_index m)) [
                | inl stale ↦ ground arith
                | inr more ↦
                    let (n, r, s) =
                      >>=-eq-some (next_after rf args.prev_log_index reply) _
                        (simp (bad, more) at q) in
                    ground arith
              ]
            ] in
            (Role-same rf rf' still.0, still.1)
      ]

  -- A vote makes a leader only of a candidate, in the same term.
  pub record Elects (rf rf' : Raft C D) : Type 0 where
    pub same_base : rf'.last_included_index ≡ rf.last_included_index
    pub same_log : rf'.log ≡ rf.log
    pub leads :
        is_leader rf'.state ≡ true
        → (rf'.current_term ≡ rf.current_term)
          × ((is_leader rf.state ≡ true) ⊎ (is_candidate rf.state ≡ true))
    pub runs :
        is_candidate rf'.state ≡ true
        → (is_candidate rf.state ≡ true) × (rf'.current_term ≡ rf.current_term)

  pub on_vote_reply-Elects :
      (now : ℕ) (rf : Raft C D) (b : Ballot) (reply : RequestVoteReply)
      → Elects rf (on_vote_reply now rf b reply).0
  unfolding on_vote_reply count_vote become_leader become_follower_with_term persist
  on_vote_reply-Elects now rf b reply = record {
    same_base = ground arith;
    same_log = ground arith;
    leads = λ h. ground arith;
    runs = λ h. ground arith;
  }

  pub start-log :
      (rf : Raft C D) (c : C)
      → is_leader rf.state ≡ true
      → ((start rf c).0.log ≡ rf.log ++ (record { term = rf.current_term; command = some c } ∷ []))
        × Unmoved rf (start rf c).0
  unfolding start persist
  start-log rf c h = rw h (refl, (refl, refl, refl))

  pub start_other : (rf : Raft C D) (c : C) → is_leader rf.state ≡ false → (start rf c).0 ≡ rf
  unfolding start
  start_other rf c h = rw h refl

  -- A leader whose log changes had a message of its own term.
  pub append_entries_stays :
      (now : ℕ) (rf : Raft C D) (args : AppendEntriesArgs C) {rf' : Raft C D}
      {reply : AppendEntriesReply}
      → append_entries now rf args ≡ some (rf', reply)
      → is_leader rf'.state ≡ true
      → (rf'.log ≡ rf.log) ⊎ (args.term ≡ rf.current_term)
  unfolding append_entries accept_term become_follower_with_term persist
  append_entries_stays now rf args {rf'} {reply} e h =
      elim (Bool-cases (ltb rf.current_term args.term)) [
        | inl higher ↦
            let k =
              append_current-Unmoved
                (become_follower_with_term now (record rf { last_heard_time = now }) args.term) args
                {rf' = rf'} {reply = reply} (ground arith) in
            absurd (ground arith)
        | inr lower ↦ elim (Bool-cases (rf.current_term == args.term)) [
          | inl same ↦ inr (ground (arith, ==_iff rf.current_term args.term))
          | inr old ↦ inl (ground arith)
        ]
      ]
