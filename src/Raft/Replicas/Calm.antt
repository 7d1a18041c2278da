-- ===== src/Raft/Replicas/Calm.antt =====
-- What the critical sections do to the log and to the role of a peer.
use mit_distro_sys.Common.{
  ℕ, ◌<◌, ◌≡◌, refl, sym, ap, ◌∙◌, subst, ◌⊎◌, inl, inr, true, ◌&&◌, Option, some, arith, ltb, leb,
  Bool-cases, Option-cases, >>=-eq-some, ◌+◌, List, [], ◌∷◌,
}
use mit_distro_sys.Raft.Types.{
  Raft, AppendEntriesArgs, AppendEntriesReply, RequestVoteArgs, RequestVoteReply, ApplyMsg,
  command_msg, snapshot_msg, is_leader, is_candidate, follower, LogEntry,
}
use mit_distro_sys.Raft.Log.{persist, become_follower_with_term, last_log_term, disk_image}
use mit_distro_sys.Raft.Vote.{
  request_vote, start_election, meet_term, grant_vote, is_free_for, is_up_to_date,
}
use mit_distro_sys.Raft.Append.{
  append_entries, append_current, accept_term, append_left, advance_follower_commit, merge,
  check_prev,
}
use mit_distro_sys.Raft.Leader.{dispatch}
use mit_distro_sys.Raft.Applier.{next_message, message_applied}
use mit_distro_sys.Raft.Boot.{make, read_persist, fresh}
use mit_distro_sys.Raft.Invariant.{IsWellFormed}
use mit_distro_sys.Raft.Terms.Replication.{next_message_keeps}

module _ {C D : Type 0} where
  -- Nobody becomes leader, and a peer becomes a candidate only in a new term.
  pub record Role (rf rf' : Raft C D) : Type 0 where
    pub same_base : rf'.last_included_index ≡ rf.last_included_index
    pub leads :
        is_leader rf'.state ≡ true
        → (is_leader rf.state ≡ true) × (rf'.current_term ≡ rf.current_term)
    pub runs :
        is_candidate rf'.state ≡ true
        → ((is_candidate rf.state ≡ true) × (rf'.current_term ≡ rf.current_term))
          ⊎ (rf.current_term < rf'.current_term)

  -- And the log is the same.
  abbrev pub Calm : Raft C D → Raft C D → Type 0
  Calm rf rf' = Role rf rf' × (rf'.log ≡ rf.log)

  abbrev pub Unmoved : Raft C D → Raft C D → Type 0
  Unmoved rf rf' =
      (rf'.last_included_index ≡ rf.last_included_index)
      × (rf'.current_term ≡ rf.current_term)
      × (rf'.state ≡ rf.state)

  pub Role-same : (rf rf' : Raft C D) → Unmoved rf rf' → Role rf rf'
  Role-same rf rf' (b, t, s) = record {
    same_base = b;
    leads = λ e. (ap is_leader (sym s) ∙ e, t);
    runs = λ e. inl (ap is_candidate (sym s) ∙ e, t);
  }

  pub Role-follower :
      (rf rf' : Raft C D)
      → rf'.last_included_index ≡ rf.last_included_index
      → rf'.state ≡ follower
      → Role rf rf'
  Role-follower rf rf' b s = record {
    same_base = b;
    leads = λ e. absurd (ground (arith, ap is_leader s));
    runs = λ e. absurd (ground (arith, ap is_candidate s));
  }

  Role-then : (a b c : Raft C D) → Role a b → Unmoved b c → Role a c
  Role-then a b c r (base, t, s) = record {
    same_base = base ∙ r.same_base;
    leads = λ e. let (l, u) = r.leads (ap is_leader (sym s) ∙ e) in (l, t ∙ u);
    runs = λ e. elim (r.runs (ap is_candidate (sym s) ∙ e)) [
      | inl (l, u) ↦ inl (l, t ∙ u)
      | inr lt ↦ inr (subst (λ n. a.current_term < n) (sym t) lt)
    ];
  }

  meet_term-Calm : (now : ℕ) (rf : Raft C D) (term : ℕ) → Calm rf (meet_term now rf term)
  unfolding meet_term become_follower_with_term persist
  meet_term-Calm now rf term = elim (Bool-cases (ltb rf.current_term term)) [
    | inl higher ↦ rw higher (Role-follower rf _ refl refl, refl)
    | inr lower ↦ rw lower (Role-same rf _ (refl, refl, refl), refl)
  ]

  pub request_vote-Calm :
      (now : ℕ) (rf : Raft C D) (args : RequestVoteArgs) {rf' : Raft C D} {reply : RequestVoteReply}
      → request_vote now rf args ≡ some (rf', reply)
      → Calm rf rf'
  unfolding request_vote grant_vote persist
  request_vote-Calm now rf0 args {rf'} e =
      let rf = meet_term now rf0 args.term in
      let (met, log) = meet_term-Calm now rf0 args.term in
      elim (Bool-cases
        (leb rf.current_term args.term && is_free_for rf.voted_for args.candidate_id)) [
          | inr refused ↦ subst (Calm rf0) {x = rf} (ground arith) (met, log)
          | inl free ↦
              let (t, p, q) = >>=-eq-some (last_log_term rf) _ (rw free at e) in
              elim (Bool-cases (is_up_to_date rf args t)) [
                | inr old ↦ subst (Calm rf0) {x = rf} (ground arith) (met, log)
                | inl new ↦
                    subst (Calm rf0) {x = grant_vote now rf args} (ground arith)
                      (Role-follower rf0 (grant_vote now rf args) met.same_base refl, log)
              ]
        ]

  pub start_election-Calm :
      (now : ℕ) (rf : Raft C D) {rf' : Raft C D} {args : RequestVoteArgs}
      → start_election now rf ≡ some (rf', args)
      → Calm rf rf'
  unfolding start_election persist
  start_election-Calm now rf e = (
    record { same_base = ground arith; leads = λ h. ground arith; runs = λ h. inr (ground arith) },
    ground arith,
  )

  accept_term-Role :
      (now : ℕ) (rf : Raft C D) (term : ℕ) {rf' : Raft C D}
      → accept_term now rf term ≡ some rf'
      → Role rf rf'
  unfolding accept_term become_follower_with_term persist
  accept_term-Role now rf term {rf'} e = elim (Bool-cases (ltb rf.current_term term)) [
    | inl higher ↦ Role-follower rf rf' (ground arith) (ground arith)
    | inr lower ↦ record {
      same_base = ground arith;
      leads = λ h. ground arith;
      runs = λ h. ground arith;
    }
  ]

  append_left-Unmoved :
      (rf : Raft C D) (log es : List (LogEntry C)) → Unmoved rf (append_left rf log es)
  unfolding append_left persist
  append_left-Unmoved rf log [] = (refl, refl, refl)
  append_left-Unmoved rf log (e ∷ es) = (refl, refl, refl)

  pub append_current-Unmoved :
      (rf : Raft C D) (args : AppendEntriesArgs C) {rf' : Raft C D} {reply : AppendEntriesReply}
      → append_current rf args ≡ some (rf', reply)
      → Unmoved rf rf'
  unfolding append_current advance_follower_commit
  append_current-Unmoved rf args {rf'} {reply} e =
      let (v, p, q) = >>=-eq-some (check_prev rf args) _ e in
      elim (Bool-cases v.success) [
        | inr bad ↦ ground arith
        | inl fine ↦
            let (m, r, s) =
              >>=-eq-some (merge rf (args.prev_log_index + 1) args.entries) _ (simp fine at q) in
            let (b, t, k) = append_left-Unmoved rf m.0 m.1 in ground arith
      ]

  pub append_entries-Role :
      (now : ℕ) (rf : Raft C D) (args : AppendEntriesArgs C) {rf' : Raft C D}
      {reply : AppendEntriesReply}
      → append_entries now rf args ≡ some (rf', reply)
      → Role rf rf'
  unfolding append_entries
  append_entries-Role now rf args {rf'} {reply} e =
      elim (Option-cases (accept_term now rf args.term)) [
        | inl old ↦ subst (Role rf) {x = rf} (ground arith) (Role-same rf rf (refl, refl, refl))
        | inr (rf1, new) ↦
            Role-then rf rf1 rf' (accept_term-Role now rf args.term new)
              (append_current-Unmoved rf1 args {rf' = rf'} {reply = reply} (ground arith))
      ]

  pub dispatch-Calm : (rf : Raft C D) → Calm rf (dispatch rf)
  unfolding dispatch
  dispatch-Calm rf = (Role-same rf (dispatch rf) (ground arith), ground arith)

  pub next_message-Calm :
      (rf : Raft C D) {m : Option (ApplyMsg C D)} {rf' : Raft C D}
      → next_message rf ≡ some (m, rf')
      → Calm rf rf'
  next_message-Calm rf {m} {rf'} e = elim (next_message_keeps rf e) [
    | inl same ↦ subst (Calm rf) (sym same) (Role-same rf rf (refl, refl, refl), refl)
    | inr same ↦ subst (Calm rf) (sym same) (Role-same rf _ (refl, refl, refl), refl)
  ]

  pub message_applied-Calm : (rf : Raft C D) (m : ApplyMsg C D) → Calm rf (message_applied rf m)
  unfolding message_applied
  message_applied-Calm rf (command_msg c i) = (Role-same rf _ (refl, refl, refl), refl)
  message_applied-Calm rf (snapshot_msg d t i) = (Role-same rf _ (refl, refl, refl), refl)

  pub make-Calm :
      (now : ℕ) (rf : Raft C D) → IsWellFormed rf → Calm rf (make now rf.peers rf.me rf.disk)
  unfolding make disk_image read_persist fresh
  make-Calm now rf w = elim (Option-cases rf.disk) [
    | inl blank ↦ (Role-follower rf _ (ground arith) (ground arith), ground (arith, w.on_disk))
    | inr (d, saved) ↦
        (Role-follower rf _ (ground (arith, w.on_disk)) (ground arith), ground (arith, w.on_disk))
  ]
