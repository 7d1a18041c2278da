-- ===== src/Raft/Replicas/Messages.antt =====
-- The entries that a leader sends (src/raft/raft.go, `replicateToFollower`), without a snapshot.
use mit_distro_sys.Raft.Replicas.Agree.{take-drop}
use mit_distro_sys.Common.{
  ℕ, ◌≡◌, sym, ap, ◌∙◌, inl, inr, true, some, arith, leb, Bool-cases, >>=-eq-some, suc, List, ◌==◌,
  length, get_elem?, false, ◌++◌, ◌-◌, ◌≤◌, none, if◌then◌else◌, take, drop, length-take,
  get_elem?-take,
}
use mit_distro_sys.Raft.Types.{Raft, AppendEntriesArgs, is_leader, LogEntry}
use mit_distro_sys.Raft.Log.{term_at, slice_index, entries_from}
use mit_distro_sys.Raft.Leader.{
  new_install_snapshot_args, entries, new_append_entries_args, replicate_to_follower,
}
use mit_distro_sys.Raft.Replicas.Append.{term_at-entry}
use mit_distro_sys.Raft.Replicas.Splice.{of_some}

-- A message that a leader makes has its log from the next index on, after the previous entry.
abbrev pub Made : {C : Type 0} → List (LogEntry C) → AppendEntriesArgs C → Type 0
Made {C} log args =
    (pre : List (LogEntry C)) × (x : LogEntry C) × (pre ++ args.entries ≡ log)
    × (length pre ≡ suc args.prev_log_index)
    × (get_elem? pre args.prev_log_index ≡ some x)
    × (x.term ≡ args.prev_log_term)

module _ {C D : Type 0} where
  entries_from-drop :
      (rf : Raft C D) (i : ℕ) (es : List (LogEntry C))
      → rf.last_included_index ≡ 0
      → entries_from rf i ≡ some es
      → (i ≤ length rf.log) × (es ≡ drop i rf.log)
  unfolding entries_from slice_index
  entries_from-drop rf i es z e =
      let (k, p, q) = >>=-eq-some (slice_index rf i) _ e in
      let same : k ≡ i = ground arith in
      elim (Bool-cases (leb k (length rf.log))) [
        | inl fits ↦ (ground arith, sym (of_some (simp fits at q)) ∙ ap (λ n. drop n rf.log) same)
        | inr short ↦ absurd (ground arith)
      ]

  new_append_entries_args-Made :
      (rf : Raft C D) (k : ℕ) (args : AppendEntriesArgs C)
      → rf.last_included_index ≡ 0
      → new_append_entries_args rf k ≡ some args
      → (args.term ≡ rf.current_term) × Made rf.log args
  unfolding new_append_entries_args
  new_append_entries_args-Made rf k args z e =
      let (next, p, q) = >>=-eq-some (get_elem? rf.next_index k) _ e in
      let (es, r, s) = >>=-eq-some (entries_from rf next) _ q in
      let (t, u, v) = >>=-eq-some (if next == 0 then none else term_at rf (next - 1)) _ s in
      let (le, cut) = entries_from-drop rf next es z r in
      let some_next : (next == 0) ≡ false = ground arith in
      let (x, here, same) = term_at-entry rf (next - 1) t z (simp some_next at u) in
      let prev : next - 1 ≡ args.prev_log_index = ground arith in
      let rest : es ≡ args.entries = ground arith in
      (
        ground arith,
        (
          take next rf.log,
          x,
          ap (λ l. take next rf.log ++ l) (sym rest ∙ cut) ∙ take-drop next rf.log,
          ground (arith, length-take next rf.log),
          get_elem?-take next args.prev_log_index rf.log (ground arith)
              ∙ ap (get_elem? rf.log) (sym prev)
              ∙ here,
          ground arith,
        ),
      )

  pub replicate_to_follower-Made :
      (rf : Raft C D) (k : ℕ) (args : AppendEntriesArgs C)
      → rf.last_included_index ≡ 0
      → replicate_to_follower rf k ≡ some (entries args)
      → (is_leader rf.state ≡ true) × ((args.term ≡ rf.current_term) × Made rf.log args)
  unfolding replicate_to_follower
  replicate_to_follower-Made rf k args z e = elim (Bool-cases (is_leader rf.state)) [
    | inr other ↦ absurd (ground arith)
    | inl leads ↦
        let (next, p, q) = >>=-eq-some (get_elem? rf.next_index k) _ (simp leads at e) in
        elim (Bool-cases (leb next rf.last_included_index)) [
          | inl behind ↦
              let (a, u, v) = >>=-eq-some (new_install_snapshot_args rf) _ (simp behind at q) in
              absurd (ground arith)
          | inr inside ↦
              let (a, u, v) = >>=-eq-some (new_append_entries_args rf k) _ (simp inside at q) in
              let same : a ≡ args = ground arith in
              (let (n, made) = new_append_entries_args-Made rf k args z (u ∙ ap some same) in
                (leads, (n, made)))
        ]
  ]
