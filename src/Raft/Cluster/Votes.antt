-- ===== src/Raft/Cluster/Votes.antt =====
-- What the critical sections of an election do to one peer and its ballot.
use mit_distro_sys.Common.{
  ℕ, suc, ◌/◌, ◌≤◌, ◌<◌, ◌≡◌, inl, inr, true, false, ◌&&◌, some, arith, leb, if◌then◌else◌,
  Bool-cases, >>=-eq-some,
}
use mit_distro_sys.Raft.Types.{Raft, RequestVoteArgs, RequestVoteReply, is_leader}
use mit_distro_sys.Raft.Log.{last_log_term, become_follower_with_term}
use mit_distro_sys.Raft.Vote.{
  Ballot, request_vote, start_election, on_vote_reply, meet_term, grant_vote, count_vote,
  become_leader, is_free_for, is_up_to_date,
}

module _ {C D : Type 0} where
  meet_term-ge : (now : ℕ) (rf : Raft C D) (term : ℕ) → term ≤ (meet_term now rf term).current_term
  unfolding meet_term
  meet_term-ge now rf term = ground arith

  -- A granted vote is for the candidate, in the term of the request.
  pub request_vote_granted :
      (now : ℕ) (rf : Raft C D) (args : RequestVoteArgs) {rf' : Raft C D} {reply : RequestVoteReply}
      → request_vote now rf args ≡ some (rf', reply)
      → reply.vote_granted ≡ true
      → (rf'.voted_for ≡ some args.candidate_id)
        × (rf'.current_term ≡ args.term)
        × (reply.term ≡ args.term)
  unfolding request_vote grant_vote
  request_vote_granted now rf0 args {rf'} {reply} e yes' =
      let rf = meet_term now rf0 args.term in
      let high = meet_term-ge now rf0 args.term in
      elim (Bool-cases
        (leb rf.current_term args.term && is_free_for rf.voted_for args.candidate_id)) [
          | inr refused ↦ absurd (ground arith)
          | inl free ↦
              let (t, p, q) = >>=-eq-some (last_log_term rf) _ (rw free at e) in
              elim (Bool-cases (is_up_to_date rf args t)) [
                | inr old ↦ absurd (ground arith)
                | inl new ↦
                    let same : rf.current_term ≡ args.term = ground arith in
                    (ground arith, ground arith, ground arith)
              ]
        ]

  pub start_election_votes :
      (now : ℕ) (rf : Raft C D) {rf' : Raft C D} {args : RequestVoteArgs}
      → start_election now rf ≡ some (rf', args)
      → (rf'.voted_for ≡ some rf.me) × (rf'.current_term ≡ args.term)
  unfolding start_election
  start_election_votes now rf {rf'} {args} e =
      let (t, p, q) = >>=-eq-some (last_log_term _) _ e in (ground arith, ground arith)

  pub on_vote_reply_counts :
      (now : ℕ) (rf : Raft C D) (b : Ballot) (reply : RequestVoteReply)
      → (on_vote_reply now rf b reply).1.vote_count
        ≤ (if reply.vote_granted then suc b.vote_count else b.vote_count)
  unfolding on_vote_reply count_vote
  on_vote_reply_counts now rf b reply = ground arith

  -- A peer becomes leader on the vote that makes a majority, in the term of that vote.
  pub on_vote_reply_wins :
      (now : ℕ) (rf : Raft C D) (b : Ballot) (reply : RequestVoteReply)
      → is_leader rf.state ≡ false
      → is_leader (on_vote_reply now rf b reply).0.state ≡ true
      → (reply.vote_granted ≡ true)
        × (rf.peers / 2 < suc b.vote_count)
        × ((on_vote_reply now rf b reply).0.current_term ≡ reply.term)
  unfolding on_vote_reply count_vote become_leader become_follower_with_term
  on_vote_reply_wins now rf b reply e h = ground arith
