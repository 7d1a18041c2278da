-- ===== src/Raft/Vote.antt =====
-- Elections (src/raft/raft.go): the RequestVote handler, the start of an election, and what the
-- goroutine of one request does with the reply.
use mit_distro_sys.Common.{
  ℕ, ◌+◌, ◌/◌, Bool, true, false, not, ◌&&◌, ◌||◌, Option, none, some, map, ltb, leb, ◌==◌,
  if◌then◌else◌, ◌>>=◌,
}
use mit_distro_sys.Raft.Types.{
  Raft, follower, candidate, leader, is_leader, is_candidate, RequestVoteArgs, RequestVoteReply,
}
use mit_distro_sys.Raft.Log.{last_log_index, last_log_term, persist, become_follower_with_term}

-- `rf.VotedFor == args.CandidateId || rf.VotedFor == -1`
abbrev pub is_free_for : Option ℕ → ℕ → Bool
is_free_for none candidate_id = true
is_free_for (some v) candidate_id = v == candidate_id

-- The votes of one election, counted in the closure of `startElection`.
pub record Ballot : Type 0 where
  pub vote_count : ℕ
  pub won : Bool

abbrev pub first_ballot : Ballot
first_ballot = record { vote_count = 1; won = false }

module _ {C D : Type 0} where
  -- A request of a higher term first turns the peer into a follower.
  unfoldable pub meet_term : ℕ → Raft C D → ℕ → Raft C D
  unfolding become_follower_with_term
  meet_term now rf term =
      if ltb rf.current_term term then become_follower_with_term now rf term else rf

  -- Is the candidate's log at least as new as this one, whose last term is `t`?
  abbrev pub is_up_to_date : Raft C D → RequestVoteArgs → ℕ → Bool
  is_up_to_date rf args t =
      ltb t args.last_log_term
      || (args.last_log_term == t && leb (last_log_index rf) args.last_log_index)

  unfoldable pub grant_vote : ℕ → Raft C D → RequestVoteArgs → Raft C D
  unfolding persist
  grant_vote now rf args =
      persist
        (record rf { last_heard_time = now; voted_for = some args.candidate_id; state = follower })

  -- A candidate whose log is older gets the empty reply: the code sets none of its fields.
  unfoldable pub request_vote :
      ℕ → Raft C D → RequestVoteArgs → Option (Raft C D × RequestVoteReply)
  request_vote now rf0 args =
      let rf = meet_term now rf0 args.term in
      if leb rf.current_term args.term && is_free_for rf.voted_for args.candidate_id
      then (last_log_term rf >>= λ t.
          if is_up_to_date rf args t
          then some (grant_vote now rf args, record { term = rf.current_term; vote_granted = true })
          else some (rf, record { term = 0; vote_granted = false }))
      else some (rf, record { term = rf.current_term; vote_granted = false })

  -- `ticker`: is an election due, `timeout` ms after the peer last heard?
  unfoldable pub needs_election : ℕ → ℕ → Raft C D → Bool
  needs_election now timeout rf = not (is_leader rf.state) && ltb (rf.last_heard_time + timeout) now

  unfoldable pub start_election : ℕ → Raft C D → Option (Raft C D × RequestVoteArgs)
  unfolding persist
  start_election now rf0 =
      let rf = persist (record rf0 {
        current_term = rf0.current_term + 1;
        state = candidate;
        voted_for = some rf0.me;
        last_heard_time = now;
      }) in
      last_log_term rf >>= λ t. some (
        rf,
        record {
          term = rf.current_term;
          candidate_id = rf.me;
          last_log_index = last_log_index rf;
          last_log_term = t;
        },
      )

  unfoldable pub become_leader : Raft C D → Raft C D
  become_leader rf = record rf {
    state = leader;
    next_index = map (λ _. last_log_index rf + 1) rf.next_index;
    match_index = map (λ _. 0) rf.match_index;
  }

  unfoldable pub count_vote : Raft C D → Ballot → Raft C D × Ballot
  count_vote rf b =
      if ltb (rf.peers / 2) (b.vote_count + 1) && not b.won
      then (become_leader rf, record { vote_count = b.vote_count + 1; won = true })
      else (rf, record b { vote_count = b.vote_count + 1 })

  unfoldable pub on_vote_reply : ℕ → Raft C D → Ballot → RequestVoteReply → Raft C D × Ballot
  unfolding become_follower_with_term
  on_vote_reply now rf b reply =
      if ltb rf.current_term reply.term
      then (become_follower_with_term now rf reply.term, b)
      else if reply.vote_granted
      then (if not (is_candidate rf.state) || not (reply.term == rf.current_term)
          then (rf, b)
          else count_vote rf b)
      else (rf, b)
