-- ===== src/Raft/Invariant/Rest.antt =====
-- The critical sections other than the three RPC handlers keep a peer well-formed whenever they run
-- to their end, and so does a restart.
use mit_distro_sys.Raft.Leader.Commit.{advance_commit_index-Advances}
use mit_distro_sys.Raft.Invariant.Handlers.{become_follower_with_term-IsWellFormed}
use mit_distro_sys.Raft.Log.Reads.{last_log_term_total, entries_from_total}
use mit_distro_sys.Raft.Snapshot.{take_snapshot}
use mit_distro_sys.Common.{
  ℕ, ◌+◌, ◌<◌, Option, none, some, [], ◌∷◌, arith, length, length-append, length-set,
  length-replicate, length-map, ◌≤◌, max, ◌≡◌, inl, inr, leb, Bool-cases, Option-cases, ◌>>=◌,
  get_elem?, set,
}
use mit_distro_sys.Raft.Types.{
  candidate, Raft, RequestVoteReply, ApplyMsg, command_msg, snapshot_msg, Disk, AppendEntriesArgs,
  AppendEntriesReply, InstallSnapshotArgs, InstallSnapshotReply, RequestVoteArgs,
}
use mit_distro_sys.Raft.Log.{last_log_index, disk_image, persist}
use mit_distro_sys.Raft.Vote.{Ballot, become_leader, count_vote, on_vote_reply, start_election}
use mit_distro_sys.Raft.Leader.{
  start, dispatch, set_matched, advance_commit_index, on_install_reply, next_after, on_append_reply,
}
use mit_distro_sys.Raft.Applier.{message_applied}
use mit_distro_sys.Raft.Boot.{make}
use mit_distro_sys.Raft.Invariant.{IsWellFormed, stored}

module _ {C D : Type 0} where
  count_vote-IsWellFormed :
      (rf : Raft C D) (b : Ballot) → IsWellFormed rf → IsWellFormed (count_vote rf b).0
  unfolding count_vote become_leader disk_image
  count_vote-IsWellFormed rf b w = ground (
    arith,
    length-map {B = ℕ} rf.next_index (λ (_ : ℕ). last_log_index rf + 1),
    length-map {B = ℕ} rf.match_index (λ (_ : ℕ). 0),
  )

  pub on_vote_reply-IsWellFormed :
      (now : ℕ) (rf : Raft C D) (b : Ballot) (reply : RequestVoteReply)
      → IsWellFormed rf
      → IsWellFormed (on_vote_reply now rf b reply).0
  unfolding on_vote_reply
  on_vote_reply-IsWellFormed now rf b reply w = ground (arith, count_vote-IsWellFormed rf b w)

  pub start-IsWellFormed : (rf : Raft C D) (c : C) → IsWellFormed rf → IsWellFormed (start rf c).0
  unfolding start
  start-IsWellFormed rf c w =
      ground
        (arith, length-append rf.log (record { term = rf.current_term; command = some c } ∷ []))

  pub dispatch-IsWellFormed : (rf : Raft C D) → IsWellFormed rf → IsWellFormed (dispatch rf)
  unfolding dispatch disk_image
  dispatch-IsWellFormed rf w = ground arith

  pub message_applied-IsWellFormed :
      (rf : Raft C D) (m : ApplyMsg C D) → IsWellFormed rf → IsWellFormed (message_applied rf m)
  unfolding message_applied disk_image
  message_applied-IsWellFormed rf (command_msg c i) w = ground arith
  message_applied-IsWellFormed rf (snapshot_msg d t i) w = ground arith

  set_matched-IsWellFormed :
      (rf : Raft C D) (i m : ℕ) → IsWellFormed rf → IsWellFormed (set_matched rf i m)
  unfolding set_matched disk_image
  set_matched-IsWellFormed rf i m w =
      ground (arith, length-set rf.match_index i m, length-set rf.next_index i (m + 1))

  pub make-IsWellFormed :
      (now peers me : ℕ) (disk : Option (Disk C D))
      → 0 < length (stored disk).raft_state.log
      → IsWellFormed (make now peers me disk)
  unfolding make disk_image
  make-IsWellFormed now peers me none h = ground (arith, length-replicate {A = ℕ} peers 0)
  make-IsWellFormed now peers me (some d) h = ground (arith, length-replicate {A = ℕ} peers 0)

  -- The commit index moves, and nothing else that the invariant reads.
  advance_commit_index-IsWellFormed :
      (rf : Raft C D) {rf' : Raft C D}
      → advance_commit_index rf ≡ some rf'
      → IsWellFormed rf
      → IsWellFormed rf'
  unfolding disk_image
  advance_commit_index-IsWellFormed rf {rf'} e w = elim (advance_commit_index-Advances rf rf' e) [
    | inl same ↦ ground arith
    | inr (k, moved, lo, hi, t, most) ↦ ground arith
  ]

  pub on_install_reply-IsWellFormed :
      (now : ℕ) (rf : Raft C D) (i : ℕ) (args : InstallSnapshotArgs D)
      (reply : InstallSnapshotReply) {rf' : Raft C D}
      → on_install_reply now rf i args reply ≡ some rf'
      → IsWellFormed rf
      → IsWellFormed rf'
  unfolding on_install_reply
  on_install_reply-IsWellFormed now rf i args reply {rf'} e w =
      elim (Option-cases (get_elem? rf.match_index i)) [
        | inl out ↦ ground (arith, become_follower_with_term-IsWellFormed now rf reply.term w)
        | inr (m, p) ↦ ground (
          arith,
          become_follower_with_term-IsWellFormed now rf reply.term w,
          p,
          λ (e : advance_commit_index (set_matched rf i args.last_included_index) ≡ some rf').
              advance_commit_index-IsWellFormed _ e
                (set_matched-IsWellFormed rf i args.last_included_index w),
        )
      ]

  next_index-IsWellFormed :
      (rf : Raft C D) (i n : ℕ)
      → IsWellFormed rf
      → IsWellFormed (record rf { next_index = set rf.next_index i n })
  unfolding disk_image
  next_index-IsWellFormed rf i n w = ground (arith, length-set rf.next_index i n)

  pub on_append_reply-IsWellFormed :
      (now : ℕ) (rf : Raft C D) (i : ℕ) (args : AppendEntriesArgs C) (reply : AppendEntriesReply)
      {rf' : Raft C D}
      → on_append_reply now rf i args reply ≡ some rf'
      → IsWellFormed rf
      → IsWellFormed rf'
  unfolding on_append_reply
  on_append_reply-IsWellFormed now rf i args reply {rf'} e w =
      let reached = args.prev_log_index + length args.entries in
      elim (Option-cases (get_elem? rf.match_index i)) [
        | inl out ↦ ground (arith, become_follower_with_term-IsWellFormed now rf reply.term w)
        | inr (m, p) ↦ elim (Option-cases (next_after rf args.prev_log_index reply)) [
          | inl bad ↦ ground (
            arith,
            become_follower_with_term-IsWellFormed now rf reply.term w,
            p,
            λ (e : advance_commit_index (set_matched rf i reached) ≡ some rf').
                advance_commit_index-IsWellFormed _ e (set_matched-IsWellFormed rf i reached w),
          )
          | inr (n, q) ↦ ground (
            arith,
            become_follower_with_term-IsWellFormed now rf reply.term w,
            p,
            next_index-IsWellFormed rf i (max n (m + 1)) w,
            λ (e : advance_commit_index (set_matched rf i reached) ≡ some rf').
                advance_commit_index-IsWellFormed _ e (set_matched-IsWellFormed rf i reached w),
          )
        ]
      ]

  pub start_election_total :
      (now : ℕ) (rf : Raft C D)
      → IsWellFormed rf
      → (rf' : Raft C D) × (args : RequestVoteArgs) × (start_election now rf ≡ some (rf', args))
        × IsWellFormed rf'
  unfolding start_election
  start_election_total now rf0 w =
      let rf = persist (record rf0 {
        current_term = rf0.current_term + 1;
        state = candidate;
        voted_for = some rf0.me;
        last_heard_time = now;
      }) in
      let v : IsWellFormed rf = unfold persist in ground arith in
      let (t, p) = last_log_term_total rf v.nonempty in
      (
        rf,
        record {
          term = rf.current_term;
          candidate_id = rf.me;
          last_log_index = last_log_index rf;
          last_log_term = t;
        },
        rw (p, ◌>>=◌),
        v,
      )

  pub take_snapshot_total :
      (rf : Raft C D) (index : ℕ) (snapshot : Option D)
      → IsWellFormed rf
      → index ≤ last_log_index rf
      → (rf' : Raft C D) × (take_snapshot rf index snapshot ≡ some rf') × IsWellFormed rf'
  unfolding take_snapshot
  take_snapshot_total rf index snapshot w hi =
      elim (Bool-cases (leb index rf.last_included_index)) [
        | inl old ↦ (rf, rw old, w)
        | inr new ↦
            let (log, p, n) = entries_from_total rf w.nonempty index (ground arith) hi in
            (
              persist
                  (record rf { log = log; last_included_index = index; snapshot_data = snapshot }),
              rw new (rw (p, ◌>>=◌)),
              unfold persist in ground arith,
            )
      ]
