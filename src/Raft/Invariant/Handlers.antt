-- ===== src/Raft/Invariant/Handlers.antt =====
-- The handlers of the three RPCs run to their end from a well-formed peer, and leave it well-formed.
use mit_distro_sys.Common.{
  ℕ, ◌+◌, ◌≤◌, ◌<◌, ◌≡◌, refl, inl, inr, true, false, Option, some, List, [], ◌∷◌, arith, length,
  leb, ◌==◌, ◌>>=◌, length-append, Bool-cases, Option-cases, ◌&&◌, leb→le, none, ltb, if◌then◌else◌,
}
use mit_distro_sys.Raft.Types.{
  Raft, LogEntry, AppendEntriesArgs, RequestVoteArgs, InstallSnapshotArgs,
}
use mit_distro_sys.Raft.Log.{last_log_index, disk_image, persist, become_follower_with_term}
use mit_distro_sys.Raft.Log.Reads.{last_log_term_total, term_at_total, entries_from_total}
use mit_distro_sys.Raft.Append.{
  accept_term, append_left, advance_follower_commit, append_current, append_entries, reply_of,
}
use mit_distro_sys.Raft.Append.Total.{check_prev_total, merge_total}
use mit_distro_sys.Raft.Vote.{meet_term, grant_vote, request_vote, is_up_to_date, is_free_for}
use mit_distro_sys.Raft.Snapshot.{
  cut_log, with_snapshot, queue_snapshot, adopt_snapshot, holds_snapshot, install_snapshot,
}
use mit_distro_sys.Raft.Invariant.{IsWellFormed}

-- The result of a handler that ran to its end in a well-formed peer.
abbrev pub Runs : {C D R : Type 0} → Option (Raft C D × R) → Type 0
Runs {C} {D} {R} o = (rf : Raft C D) × (reply : R) × (o ≡ some (rf, reply)) × IsWellFormed rf

module _ {C D : Type 0} where
  pub become_follower_with_term-IsWellFormed :
      (now : ℕ) (rf : Raft C D) (term : ℕ)
      → IsWellFormed rf
      → IsWellFormed (become_follower_with_term now rf term)
  unfolding become_follower_with_term
  become_follower_with_term-IsWellFormed now rf term w = ground arith

  heard :
      (now : ℕ) (rf : Raft C D) (term : ℕ)
      → IsWellFormed rf
      → IsWellFormed (
          if ltb rf.current_term term
          then become_follower_with_term now rf term
          else record rf { last_heard_time = now })
  unfolding become_follower_with_term disk_image
  heard now rf term w = ground arith

  accept_term-IsWellFormed :
      (now : ℕ) (rf : Raft C D) (term : ℕ) {rf' : Raft C D}
      → accept_term now rf term ≡ some rf'
      → IsWellFormed rf
      → IsWellFormed rf'
  unfolding accept_term disk_image
  accept_term-IsWellFormed now rf term e w = ground arith

  append_left-IsWellFormed :
      (rf : Raft C D) (log es : List (LogEntry C))
      → IsWellFormed rf
      → 0 < length log
      → (es ≡ [] → log ≡ rf.log)
      → IsWellFormed (append_left rf log es)
  unfolding append_left disk_image
  append_left-IsWellFormed rf log [] w h same = ground (arith, same refl)
  append_left-IsWellFormed rf log (e ∷ es) w h same = ground (arith, length-append log (e ∷ es))

  advance_follower_commit-IsWellFormed :
      (rf : Raft C D) (n : ℕ) → IsWellFormed rf → IsWellFormed (advance_follower_commit rf n)
  unfolding advance_follower_commit disk_image
  advance_follower_commit-IsWellFormed rf n w = record {
    nonempty = w.nonempty;
    next_size = w.next_size;
    match_size = w.match_size;
    on_disk = w.on_disk;
  }

  append_current-Runs :
      (rf : Raft C D) (args : AppendEntriesArgs C) → IsWellFormed rf → Runs (append_current rf args)
  unfolding append_current
  append_current-Runs rf args w =
      let (v, p, lo) = check_prev_total rf w.nonempty args in
      elim (Bool-cases v.success) [
        | inl good ↦
            let (m, q, n, same) =
              merge_total rf w.nonempty (args.prev_log_index + 1) args.entries
                (omega (arith, lo good)) in
            (
              advance_follower_commit (append_left rf m.0 m.1) args.leader_commit,
              reply_of rf v,
              rw (p, ◌>>=◌) (rw good (rw (q, ◌>>=◌))),
              advance_follower_commit-IsWellFormed _ args.leader_commit
                  (append_left-IsWellFormed rf m.0 m.1 w n same),
            )
        | inr bad ↦ (rf, reply_of rf v, rw (p, ◌>>=◌) (rw bad), w)
      ]

  -- The AppendEntries handler of a well-formed peer never reads outside the log, and leaves the peer
  -- well-formed.
  pub append_entries-Runs :
      (now : ℕ) (rf : Raft C D) (args : AppendEntriesArgs C)
      → IsWellFormed rf
      → Runs (append_entries now rf args)
  unfolding append_entries
  append_entries-Runs now rf args w = elim (Option-cases (accept_term now rf args.term)) [
    | inl old ↦ (
      rf,
      record {
        term = rf.current_term;
        success = false;
        conflict_term = some 0;
        conflict_index = 0;
      },
      ground (arith, old),
      w,
    )
    | inr (rf', new) ↦
        let (rf2, reply, p, w2) =
          append_current-Runs rf' args (accept_term-IsWellFormed now rf args.term new w) in
        (rf2, reply, ground (arith, new, p), w2)
  ]

  meet_term-IsWellFormed :
      (now : ℕ) (rf : Raft C D) (term : ℕ) → IsWellFormed rf → IsWellFormed (meet_term now rf term)
  unfolding meet_term
  meet_term-IsWellFormed now rf term w = ground arith

  grant_vote-IsWellFormed :
      (now : ℕ) (rf : Raft C D) (args : RequestVoteArgs)
      → IsWellFormed rf
      → IsWellFormed (grant_vote now rf args)
  unfolding grant_vote
  grant_vote-IsWellFormed now rf args w = ground arith

  -- The RequestVote handler of a well-formed peer never reads outside the log, and leaves the peer
  -- well-formed.
  pub request_vote-Runs :
      (now : ℕ) (rf : Raft C D) (args : RequestVoteArgs)
      → IsWellFormed rf
      → Runs (request_vote now rf args)
  unfolding request_vote
  request_vote-Runs now rf0 args w0 =
      let rf = meet_term now rf0 args.term in
      let w = meet_term-IsWellFormed now rf0 args.term w0 in
      let (t, p) = last_log_term_total rf w.nonempty in
      elim (Bool-cases
        (leb rf.current_term args.term && is_free_for rf.voted_for args.candidate_id)) [
          | inr refused ↦
              (rf, record { term = rf.current_term; vote_granted = false }, rw refused, w)
          | inl free ↦ elim (Bool-cases (is_up_to_date rf args t)) [
            | inl new ↦ (
              grant_vote now rf args,
              record { term = rf.current_term; vote_granted = true },
              rw free (rw (p, ◌>>=◌) (rw new)),
              grant_vote-IsWellFormed now rf args w,
            )
            | inr old ↦
                (rf, record { term = 0; vote_granted = false }, rw free (rw (p, ◌>>=◌) (rw old)), w)
          ]
        ]

  cut_log_total :
      (rf : Raft C D) (args : InstallSnapshotArgs D)
      → 0 < length rf.log
      → rf.last_included_index ≤ args.last_included_index
      → (log : List (LogEntry C)) × (cut_log rf args ≡ some (with_snapshot rf args log))
        × (0 < length log)
  unfolding cut_log holds_snapshot
  cut_log_total rf args n lo =
      elim (Bool-cases (leb args.last_included_index (last_log_index rf))) [
        | inr short ↦
            (record { term = args.last_included_term; command = none } ∷ [], rw short, omega arith)
        | inl long ↦
            let (t, p) = term_at_total rf n args.last_included_index lo (leb→le _ _ long) in
            let (es, q, pos) =
              entries_from_total rf n args.last_included_index lo (leb→le _ _ long) in
            elim (Bool-cases (t == args.last_included_term)) [
              | inl same ↦ (es, ground (arith, p, q), pos)
              | inr other ↦ (
                record { term = args.last_included_term; command = none } ∷ [],
                ground (arith, p, q),
                omega arith,
              )
            ]
      ]

  queue_snapshot-IsWellFormed :
      (rf : Raft C D) (args : InstallSnapshotArgs D) (log : List (LogEntry C))
      → IsWellFormed rf
      → 0 < length log
      → IsWellFormed (persist (queue_snapshot (with_snapshot rf args log) args.last_included_index))
  unfolding queue_snapshot with_snapshot persist
  queue_snapshot-IsWellFormed rf args log w n = ground arith

  adopt_snapshot_total :
      (rf : Raft C D) (args : InstallSnapshotArgs D)
      → IsWellFormed rf
      → (rf' : Raft C D) × (adopt_snapshot rf args ≡ some rf') × IsWellFormed rf'
  unfolding adopt_snapshot
  adopt_snapshot_total rf args w =
      elim (Bool-cases (ltb rf.last_included_index args.last_included_index)) [
        | inr old ↦ (rf, rw old, w)
        | inl new ↦
            let (log, p, n) = cut_log_total rf args w.nonempty (ground arith) in
            (
              persist (queue_snapshot (with_snapshot rf args log) args.last_included_index),
              rw new (rw (p, ◌>>=◌)),
              queue_snapshot-IsWellFormed rf args log w n,
            )
      ]

  -- The InstallSnapshot handler of a well-formed peer never reads outside the log, and leaves the
  -- peer well-formed.
  pub install_snapshot-Runs :
      (now : ℕ) (rf : Raft C D) (args : InstallSnapshotArgs D)
      → IsWellFormed rf
      → Runs (install_snapshot now rf args)
  unfolding install_snapshot
  install_snapshot-Runs now rf args w = elim (Bool-cases (ltb args.term rf.current_term)) [
    | inl old ↦ (rf, record { term = rf.current_term }, rw old, w)
    | inr new ↦
        let rf1 =
          if ltb rf.current_term args.term
          then become_follower_with_term now rf args.term
          else record rf { last_heard_time = now } in
        let (rf2, p, w2) = adopt_snapshot_total rf1 args (heard now rf args.term w) in
        (rf2, record { term = rf1.current_term }, rw new (rw (p, ◌>>=◌)), w2)
  ]
