-- ===== src/Tests/Election.antt =====
-- Peer 0 of three is elected in term 1 with the vote of peer 1.
use mit_distro_sys.Common.{ℕ, refl, some, none, [], ◌∷◌, arith, update, ◌≡◌, true}
use mit_distro_sys.Raft.Types.{Raft, RequestVoteArgs, candidate}
use mit_distro_sys.Raft.Boot.{make}
use mit_distro_sys.Raft.Log.{disk_image, last_log_index, last_log_term}
use mit_distro_sys.Raft.Vote.{
  start_election, request_vote, on_vote_reply, first_ballot, grant_vote, meet_term, become_leader,
  count_vote,
}
use mit_distro_sys.Raft.Cluster.{
  Answer, Poll, Cluster, set_poll, after_reply, campaign, ask, tally, Reach, begin, later,
  start_cluster,
}
use mit_distro_sys.Raft.Cluster.Elections.Safety.{elected_unique}

abbrev pub request : RequestVoteArgs
request = record { term = 1; candidate_id = 0; last_log_index = 0; last_log_term = 0 }

abbrev pub campaigning : Raft ℕ ℕ
campaigning = record (make 5 3 0 none) {
  current_term = 1;
  voted_for = some 0;
  state = candidate;
  last_heard_time = 9;
  disk = some (record {
    raft_state = record {
      current_term = 1;
      voted_for = some 0;
      log = record { term = 0; command = none } ∷ [];
      snapshot_index = 0;
    };
    snapshot = none;
  });
}

abbrev pub voted : Raft ℕ ℕ
voted = record (make 5 3 1 none) {
  current_term = 1;
  voted_for = some 0;
  last_heard_time = 11;
  disk = campaigning.disk;
}

abbrev beginning : Cluster ℕ ℕ
beginning = start_cluster 3 5

abbrev pub in_campaign : Cluster ℕ ℕ
in_campaign = record beginning {
  peers = update beginning.peers 0 campaigning;
  polls = set_poll beginning.polls 0 1 (record { ballot = first_ballot; heard = 0 ∷ [] });
}

abbrev pub answer : Answer
answer = record { voter = 1; args = request; reply = record { term = 1; vote_granted = true } }

abbrev pub answered : Cluster ℕ ℕ
answered = record in_campaign { peers = update in_campaign.peers 1 voted; answers = answer ∷ [] }

abbrev pub poll : Poll
poll = record { ballot = first_ballot; heard = 0 ∷ [] }

election : Reach 3 5 (after_reply 14 answered answer poll)
unfolding make start_election request_vote meet_term grant_vote disk_image last_log_index
    last_log_term
election =
    later
      (later
        (later begin (campaign 0 9 {rf' = campaigning} {args = request} (omega arith) refl refl))
        (ask 1 11 request {rf' = voted} (omega arith) refl refl))
      (tally 14 0 answer poll (omega arith) refl refl refl refl)

elected_unique_example : ◌≡◌ {A = ℕ} 0 0
unfolding after_reply on_vote_reply count_vote become_leader make
elected_unique_example =
    elected_unique 3 5 (after_reply 14 answered answer poll) 0 0 1 0 0 election refl refl
