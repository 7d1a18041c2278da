-- ===== src/Raft/Terms/Replication.antt =====
-- A leader's critical sections, compaction and the applier keep terms and votes.
use mit_distro_sys.Common.{
  ℕ, ◌+◌, ◌≡◌, refl, ◌⊎◌, inl, inr, false, Option, some, arith, ltb, leb, Bool-cases, >>=-eq-some,
  length, get_elem?,
}
use mit_distro_sys.Raft.Leader.Commit.{advance_commit_index-Advances}
use mit_distro_sys.Raft.Applier.{next_message, message_applied}
use mit_distro_sys.Raft.Snapshot.{take_snapshot}
use mit_distro_sys.Raft.Terms.{Keeps, Keeps-same, KeepsVote, KeepsVote-same, Keeps-higher}
use mit_distro_sys.Raft.Log.{entry_at, term_at, entries_from}
use mit_distro_sys.Raft.Types.{
  Raft, ApplyMsg, command_msg, snapshot_msg, AppendEntriesArgs, AppendEntriesReply,
  InstallSnapshotArgs, InstallSnapshotReply,
}
use mit_distro_sys.Raft.Leader.{
  start, dispatch, advance_commit_index, set_matched, on_install_reply, next_after, on_append_reply,
}

module _ {C D : Type 0} where
  advance_commit_index_keeps :
      (rf : Raft C D) {rf' : Raft C D}
      → advance_commit_index rf ≡ some rf'
      → (rf'.current_term ≡ rf.current_term)
        × (rf'.voted_for ≡ rf.voted_for)
        × (rf'.me ≡ rf.me)
        × (rf'.peers ≡ rf.peers)
        × (rf'.last_applied ≡ rf.last_applied)
  advance_commit_index_keeps rf {rf'} e = elim (advance_commit_index-Advances rf rf' e) [
    | inl same ↦ ground arith
    | inr (k, moved, lo, hi, t, most) ↦ ground arith
  ]

  set_matched-advance-Keeps :
      (rf : Raft C D) (i m : ℕ) {rf' : Raft C D}
      → advance_commit_index (set_matched rf i m) ≡ some rf'
      → Keeps rf rf'
  unfolding set_matched
  set_matched-advance-Keeps rf i m {rf'} e =
      let k = advance_commit_index_keeps (set_matched rf i m) e in Keeps-same rf rf' k

  pub on_install_reply-Keeps :
      (now : ℕ) (rf : Raft C D) (i : ℕ) (args : InstallSnapshotArgs D)
      (reply : InstallSnapshotReply) {rf' : Raft C D}
      → on_install_reply now rf i args reply ≡ some rf'
      → Keeps rf rf'
  unfolding on_install_reply
  on_install_reply-Keeps now rf i args reply {rf'} e =
      elim (Bool-cases (ltb rf.current_term reply.term)) [
        | inl newer ↦ Keeps-higher rf rf' (ground arith) (ground arith)
        | inr older ↦
            let (m, p, q) = >>=-eq-some (get_elem? rf.match_index i) _ (simp older at e) in
            elim (Bool-cases (ltb m args.last_included_index)) [
              | inl more ↦ set_matched-advance-Keeps rf i args.last_included_index (simp more at q)
              | inr stale ↦ Keeps-same rf rf' (ground arith)
            ]
      ]

  pub on_append_reply-Keeps :
      (now : ℕ) (rf : Raft C D) (i : ℕ) (args : AppendEntriesArgs C) (reply : AppendEntriesReply)
      {rf' : Raft C D}
      → on_append_reply now rf i args reply ≡ some rf'
      → Keeps rf rf'
  unfolding on_append_reply
  on_append_reply-Keeps now rf i args reply {rf'} e =
      let reached = args.prev_log_index + length args.entries in
      elim (Bool-cases (ltb rf.current_term reply.term)) [
        | inl newer ↦ Keeps-higher rf rf' (ground arith) (ground arith)
        | inr older ↦
            let (m, p, q) = >>=-eq-some (get_elem? rf.match_index i) _ (simp older at e) in
            elim (Bool-cases reply.success) [
              | inl good ↦ elim (Bool-cases (leb reached m)) [
                | inl stale ↦ Keeps-same rf rf' (ground arith)
                | inr more ↦ set_matched-advance-Keeps rf i reached (simp (good, more) at q)
              ]
              | inr bad ↦ elim (Bool-cases (leb args.prev_log_index m)) [
                | inl stale ↦ Keeps-same rf rf' (ground arith)
                | inr more ↦
                    let (n, r, s) =
                      >>=-eq-some (next_after rf args.prev_log_index reply) _
                        (simp (bad, more) at q) in
                    Keeps-same rf rf' (ground arith)
              ]
            ]
      ]

  pub take_snapshot-Keeps :
      (rf : Raft C D) (index : ℕ) (snapshot : Option D) {rf' : Raft C D}
      → take_snapshot rf index snapshot ≡ some rf'
      → Keeps rf rf'
  unfolding take_snapshot
  take_snapshot-Keeps rf index snapshot {rf'} e =
      elim (Bool-cases (leb index rf.last_included_index)) [
        | inl old ↦ Keeps-same rf rf' (ground arith)
        | inr new ↦
            let (log, p, q) = >>=-eq-some (entries_from rf index) _ (simp new at e) in
            Keeps-same rf rf' (ground arith)
      ]

  pub start-Keeps : (rf : Raft C D) (c : C) → Keeps rf (start rf c).0
  unfolding start
  start-Keeps rf c = Keeps-same rf _ (ground arith)

  pub dispatch-Keeps : (rf : Raft C D) → Keeps rf (dispatch rf)
  unfolding dispatch
  dispatch-Keeps rf = Keeps-same rf _ (ground arith)

  -- Taking a message changes at most the mark of a waiting snapshot.
  pub next_message_keeps :
      (rf : Raft C D) {m : Option (ApplyMsg C D)} {rf' : Raft C D}
      → next_message rf ≡ some (m, rf')
      → (rf' ≡ rf) ⊎ (rf' ≡ record rf { snapshot_pending = false })
  unfolding next_message
  next_message_keeps rf {m} {rf'} e = elim (Bool-cases rf.snapshot_pending) [
    | inl pending ↦
        let (t, p, q) = >>=-eq-some (term_at rf rf.last_included_index) _ (simp pending at e) in
        inr (ground arith)
    | inr nothing ↦ elim (Bool-cases (ltb rf.last_applied rf.commit_index)) [
      | inl more ↦
          let (t, p, q) =
            >>=-eq-some (entry_at rf (rf.last_applied + 1)) _ (simp (nothing, more) at e) in
          inl (ground arith)
      | inr done ↦ inl (ground arith)
    ]
  ]

  pub message_applied-KeepsVote :
      (rf : Raft C D) (m : ApplyMsg C D) → KeepsVote rf (message_applied rf m)
  unfolding message_applied
  message_applied-KeepsVote rf (command_msg c i) = KeepsVote-same rf _ (refl, refl, refl, refl)
  message_applied-KeepsVote rf (snapshot_msg d t i) = KeepsVote-same rf _ (refl, refl, refl, refl)
