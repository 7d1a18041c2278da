-- ===== src/Raft/Terms/Others.antt =====
-- The other critical sections, and a restart from what is on disk, keep terms and votes.
use mit_distro_sys.Common.{
  ℕ, ◌<◌, ◌≡◌, inl, inr, some, arith, ltb, Bool-cases, Option-cases, >>=-eq-some,
}
use mit_distro_sys.Raft.Invariant.{IsWellFormed}
use mit_distro_sys.Raft.Snapshot.{
  holds_snapshot, with_snapshot, cut_log, queue_snapshot, adopt_snapshot, install_snapshot,
}
use mit_distro_sys.Raft.Vote.{Ballot, start_election, become_leader, count_vote, on_vote_reply}
use mit_distro_sys.Raft.Terms.{
  Keeps, Keeps-same, KeepsVote, KeepsVote-same, Keeps-higher, Keeps-trans,
}
use mit_distro_sys.Raft.Log.{last_log_term, entries_from, disk_image, become_follower_with_term}
use mit_distro_sys.Raft.Types.{
  Raft, InstallSnapshotArgs, InstallSnapshotReply, RequestVoteArgs, RequestVoteReply,
}
use mit_distro_sys.Raft.Boot.{make}

module _ {C D : Type 0} where
  become_follower_with_term-Keeps :
      (now : ℕ) (rf : Raft C D) (term : ℕ)
      → rf.current_term < term
      → Keeps rf (become_follower_with_term now rf term)
  unfolding become_follower_with_term
  become_follower_with_term-Keeps now rf term h = Keeps-higher rf _ h (ground arith)

  adopt_snapshot_keeps :
      (rf : Raft C D) (args : InstallSnapshotArgs D) {rf' : Raft C D}
      → adopt_snapshot rf args ≡ some rf'
      → (rf'.current_term ≡ rf.current_term)
        × (rf'.voted_for ≡ rf.voted_for)
        × (rf'.me ≡ rf.me)
        × (rf'.peers ≡ rf.peers)
        × (rf'.last_applied ≡ rf.last_applied)
  unfolding adopt_snapshot cut_log queue_snapshot with_snapshot
  adopt_snapshot_keeps rf args {rf'} e =
      elim (Bool-cases (ltb rf.last_included_index args.last_included_index)) [
        | inr old ↦ ground arith
        | inl new ↦
            let (rf1, p, q) = >>=-eq-some (cut_log rf args) _ (rw new at e) in
            let (held, r, s) = >>=-eq-some (holds_snapshot rf args) _ p in
            elim (Bool-cases held) [
              | inr no' ↦ ground arith
              | inl yes' ↦
                  let (log, u, v) =
                    >>=-eq-some (entries_from rf args.last_included_index) _ (rw yes' at s) in
                  ground arith
            ]
      ]

  pub install_snapshot-Keeps :
      (now : ℕ) (rf : Raft C D) (args : InstallSnapshotArgs D) {rf' : Raft C D}
      {reply : InstallSnapshotReply}
      → install_snapshot now rf args ≡ some (rf', reply)
      → Keeps rf rf'
  unfolding install_snapshot
  install_snapshot-Keeps now rf args {rf'} {reply} e =
      elim (Bool-cases (ltb args.term rf.current_term)) [
        | inl old ↦ Keeps-same rf rf' (ground arith)
        | inr new ↦ elim (Bool-cases (ltb rf.current_term args.term)) [
          | inl newer ↦
              let rf1 = become_follower_with_term now rf args.term in
              let (rf2, p, q) = >>=-eq-some (adopt_snapshot rf1 args) _ (rw (new, newer) at e) in
              let k = adopt_snapshot_keeps rf1 args p in
              Keeps-trans rf rf1 rf'
                (become_follower_with_term-Keeps now rf args.term (ground arith))
                (Keeps-same rf1 rf' (ground (arith, k)))
          | inr same ↦
              let rf1 = record rf { last_heard_time = now } in
              let (rf2, p, q) = >>=-eq-some (adopt_snapshot rf1 args) _ (rw (new, same) at e) in
              let k = adopt_snapshot_keeps rf1 args p in Keeps-same rf rf' (ground (arith, k))
        ]
      ]

  pub start_election-Keeps :
      (now : ℕ) (rf : Raft C D) {rf' : Raft C D} {args : RequestVoteArgs}
      → start_election now rf ≡ some (rf', args)
      → Keeps rf rf'
  unfolding start_election
  start_election-Keeps now rf {rf'} {args} e =
      let (t, p, q) = >>=-eq-some (last_log_term _) _ e in
      Keeps-higher rf rf' (ground arith) (ground arith)

  count_vote_keeps :
      (rf : Raft C D) (b : Ballot)
      → ((count_vote rf b).0.current_term ≡ rf.current_term)
        × ((count_vote rf b).0.voted_for ≡ rf.voted_for)
        × ((count_vote rf b).0.me ≡ rf.me)
        × ((count_vote rf b).0.peers ≡ rf.peers)
        × ((count_vote rf b).0.last_applied ≡ rf.last_applied)
  unfolding count_vote become_leader
  count_vote_keeps rf b = ground arith

  pub on_vote_reply-Keeps :
      (now : ℕ) (rf : Raft C D) (b : Ballot) (reply : RequestVoteReply)
      → Keeps rf (on_vote_reply now rf b reply).0
  unfolding on_vote_reply
  on_vote_reply-Keeps now rf b reply = elim (Bool-cases (ltb rf.current_term reply.term)) [
    | inl newer ↦ Keeps-higher rf _ (ground arith) (ground arith)
    | inr older ↦ Keeps-same rf _ (ground (arith, count_vote_keeps rf b))
  ]

  -- The disk has the term and the vote, so a crash loses neither.
  pub make-KeepsVote :
      (now : ℕ) (rf : Raft C D) → IsWellFormed rf → KeepsVote rf (make now rf.peers rf.me rf.disk)
  unfolding make disk_image
  make-KeepsVote now rf w = elim (Option-cases rf.disk) [
    | inl blank ↦ KeepsVote-same rf _ (ground arith)
    | inr (d, saved) ↦ KeepsVote-same rf _ (ground arith)
  ]
