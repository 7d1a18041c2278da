-- ===== src/Tests/Replication.antt =====
-- Peer 0 of three, elected in term 1, takes a command and sends it to peer 1.
use mit_distro_sys.Common.{ℕ, ◌≡◌, refl, true, none, some, List, [], ◌∷◌, arith, update, take}
use mit_distro_sys.Raft.Types.{Raft, LogEntry, AppendEntriesArgs}
use mit_distro_sys.Raft.Boot.{make, empty_log}
use mit_distro_sys.Raft.Log.{
  disk_image, persist, last_log_index, last_log_term, term_at, entry_at, entries_from, slice_index,
}
use mit_distro_sys.Raft.Vote.{
  start_election, request_vote, on_vote_reply, first_ballot, grant_vote, meet_term, become_leader,
  count_vote,
}
use mit_distro_sys.Raft.Append.{
  append_entries, append_current, accept_term, append_left, advance_follower_commit, check_prev,
  merge,
}
use mit_distro_sys.Raft.Leader.{start, replicate_to_follower, new_append_entries_args}
use mit_distro_sys.Raft.Cluster.{after_reply, campaign, ask, tally}
use mit_distro_sys.Raft.Replicas.{
  Replicas, ReplicaRun, begin, later, plain, send, deliver, submit, with_peer,
}
use mit_distro_sys.Raft.Replicas.Matching.{log_matching}
use mit_distro_sys.Tests.Election.{request, campaigning, voted, answered, answer, poll}

abbrev first : LogEntry ℕ
first = record { term = 1; command = some 7 }

abbrev leading : Raft ℕ ℕ
leading = (on_vote_reply 14 campaigning first_ballot answer.reply).0

abbrev elected_0 : Replicas ℕ ℕ
elected_0 = record {
  cluster = after_reply 14 answered answer poll;
  sent = [];
  led = update (update (λ t. []) 0 empty_log) 1 empty_log;
}

abbrev submitted : Replicas ℕ ℕ
submitted = record elected_0 {
  cluster = with_peer elected_0.cluster 0 (start (elected_0.cluster.peers 0) 7).0;
  led = update elected_0.led 1 (start (elected_0.cluster.peers 0) 7).0.log;
}

abbrev message : AppendEntriesArgs ℕ
message = record {
  term = 1;
  leader_id = 0;
  prev_log_index = 0;
  prev_log_term = 0;
  entries = first ∷ [];
  leader_commit = 0;
}

abbrev follower_log : List (LogEntry ℕ)
follower_log = record { term = 0; command = none } ∷ first ∷ []

abbrev replicated : Raft ℕ ℕ
replicated = record voted {
  last_heard_time = 20;
  log = follower_log;
  apply_ready = true;
  disk = some (disk_image (record voted { log = follower_log }));
}

abbrev delivered : Replicas ℕ ℕ
delivered = record submitted {
  cluster = with_peer submitted.cluster 1 replicated;
  sent = record { dest = 1; args = message } ∷ [];
}

delivered-ReplicaRun : ReplicaRun 3 5 delivered
unfolding make start_election request_vote meet_term grant_vote disk_image last_log_index
    last_log_term after_reply on_vote_reply count_vote become_leader start persist
    replicate_to_follower new_append_entries_args term_at entry_at entries_from slice_index
    append_entries append_current accept_term append_left advance_follower_commit check_prev merge
delivered-ReplicaRun =
    later {t = delivered}
      (later
        (later {t = submitted}
          (later {t = elected_0}
            (later
              (later begin (
                plain (campaign 0 9 {rf' = campaigning} {args = request} (omega arith) refl refl) tt
                  refl))
              (plain (ask 1 11 request {rf' = voted} (omega arith) refl refl) tt refl))
            (plain (tally 14 0 answer poll (omega arith) refl refl refl refl) tt refl))
          (submit 0 7 (omega arith) refl refl))
        (send 0 1 message (omega arith) (λ e. absurd (ground arith)) refl refl))
      (deliver 1 20 0 (record { dest = 1; args = message }) {rf' = replicated} (omega arith) refl
        refl refl refl)

log_matching_example :
    take 2 (delivered.cluster.peers 0).log ≡ take 2 (delivered.cluster.peers 1).log
unfolding after_reply on_vote_reply count_vote become_leader start persist make
log_matching_example =
    log_matching 3 5 0 1 1 first first delivered-ReplicaRun (omega arith) (omega arith) refl refl
      refl
