-- ===== src/Tests/Peer.antt =====
-- A peer of three: it votes, takes entries, crashes.
use mit_distro_sys.Raft.Leader.Stale.{on_append_reply_past_end}
use mit_distro_sys.Raft.Append.Success.{Accepted, append_entries-Accepted}
use mit_distro_sys.Raft.Leader.Highest.{Commits, advance_commit_index-Commits}
use mit_distro_sys.Raft.Steps.Terms.{Run-IsWellFormed, Run-KeepsVote}
use mit_distro_sys.Raft.Leader.{
  count_matched, advance_commit_index, new_append_entries_args, on_append_reply,
}
use mit_distro_sys.Raft.Steps.{here, then, elect, restart, Run}
use mit_distro_sys.Raft.Terms.{KeepsVote}
use mit_distro_sys.Common.{ℕ, ◌≡◌, refl, false, none, some, [], ◌∷◌, arith, true, List}
use mit_distro_sys.Raft.Types.{
  Raft, AppendEntriesArgs, RequestVoteArgs, InstallSnapshotArgs, follower, candidate, leader,
  LogEntry,
}
use mit_distro_sys.Raft.Boot.{make}
use mit_distro_sys.Raft.Append.{
  check_prev, accept_term, merge, append_left, append_current, advance_follower_commit,
  append_entries,
}
use mit_distro_sys.Raft.Vote.{start_election}
use mit_distro_sys.Raft.Log.{last_log_term, last_log_index, disk_image, term_at}
use mit_distro_sys.Raft.Invariant.{IsWellFormed}
use mit_distro_sys.Raft.Invariant.Rpcs.{snapshot_rpc, HandlerRuns, rpc-HandlerRuns}

abbrev peer : Raft ℕ ℕ
peer = record {
  peers = 3;
  me = 0;
  current_term = 0;
  voted_for = none;
  log = record { term = 0; command = none } ∷ [];
  snapshot_data = none;
  last_included_index = 0;
  commit_index = 0;
  last_applied = 0;
  state = follower;
  next_index = 0 ∷ 0 ∷ 0 ∷ [];
  match_index = 0 ∷ 0 ∷ 0 ∷ [];
  last_heard_time = 5;
  log_appended = false;
  replicate_ready = false ∷ false ∷ false ∷ [];
  apply_ready = false;
  snapshot_pending = false;
  disk = none;
}

peer_is_made : make 5 3 0 none ≡ peer
unfolding make
peer_is_made = refl

peer-IsWellFormed : IsWellFormed peer
unfolding disk_image
peer-IsWellFormed = record {
  nonempty = omega arith;
  next_size = refl;
  match_size = refl;
  on_disk = refl;
}

abbrev two_entries : AppendEntriesArgs ℕ
two_entries = record {
  term = 1;
  leader_id = 2;
  prev_log_index = 0;
  prev_log_term = 0;
  entries = record { term = 1; command = some 7 } ∷ record { term = 1; command = some 8 } ∷ [];
  leader_commit = 1;
}

abbrev sent_snapshot : InstallSnapshotArgs ℕ
sent_snapshot = record {
  term = 2;
  leader_id = 1;
  last_included_index = 6;
  last_included_term = 1;
  snapshot = some 44;
}

rpc-HandlerRuns_example : HandlerRuns 9 peer (snapshot_rpc sent_snapshot)
rpc-HandlerRuns_example = rpc-HandlerRuns 9 peer (snapshot_rpc sent_snapshot) peer-IsWellFormed

-- A leader of term 1 that two of three peers follow up to index 1.
abbrev ahead : Raft ℕ ℕ
ahead = record peer {
  current_term = 1;
  voted_for = some 0;
  state = leader;
  log = record { term = 0; command = none } ∷ record { term = 1; command = some 7 } ∷ [];
  match_index = 0 ∷ 1 ∷ 0 ∷ [];
  next_index = 1 ∷ 2 ∷ 1 ∷ [];
}

advance_commit_index-Commits_example :
    Commits ahead 1 (record ahead { commit_index = 1; apply_ready = true })
unfolding last_log_index advance_commit_index term_at count_matched
advance_commit_index-Commits_example =
    advance_commit_index-Commits ahead (record ahead { commit_index = 1; apply_ready = true }) refl

-- The peer stands for election and wins, crashes, and comes back.
abbrev elected : Raft ℕ ℕ
elected = record peer {
  current_term = 1;
  voted_for = some 0;
  state = candidate;
  last_heard_time = 30;
  disk = some (record {
    raft_state = record {
      current_term = 1;
      voted_for = some 0;
      log = record { term = 0; command = none } ∷ [];
      snapshot_index = 0;
    };
    snapshot = none;
  });
}

abbrev back : Raft ℕ ℕ
back = record elected { state = follower; last_heard_time = 60 }

abbrev ballot_request : RequestVoteArgs
ballot_request = record { term = 1; candidate_id = 0; last_log_index = 0; last_log_term = 0 }

election_and_crash : Run peer back
unfolding make start_election disk_image last_log_index last_log_term
election_and_crash = then {a = elected} (then here (elect 30 ballot_request refl)) (restart 60 refl)

Run-IsWellFormed_example : IsWellFormed back
Run-IsWellFormed_example = Run-IsWellFormed election_and_crash peer-IsWellFormed

Run-KeepsVote_example : KeepsVote peer back
Run-KeepsVote_example = Run-KeepsVote election_and_crash peer-IsWellFormed

-- A follower with entries of an older leader, and a message that overwrites the last of them.
abbrev pub behind : Raft ℕ ℕ
behind = record elected {
  log =
      record { term = 0; command = none }
      ∷ record { term = 1; command = some 7 }
      ∷ record { term = 1; command = some 9 }
      ∷ [];
  disk = some (record {
    raft_state = record {
      current_term = 1;
      voted_for = some 0;
      log =
          record { term = 0; command = none }
          ∷ record { term = 1; command = some 7 }
          ∷ record { term = 1; command = some 9 }
          ∷ [];
      snapshot_index = 0;
    };
    snapshot = none;
  });
}

abbrev overwriting : AppendEntriesArgs ℕ
overwriting = record {
  term = 3;
  leader_id = 2;
  prev_log_index = 1;
  prev_log_term = 1;
  entries = record { term = 2; command = some 5 } ∷ record { term = 3; command = some 6 } ∷ [];
  leader_commit = 2;
}

behind-IsWellFormed : IsWellFormed behind
unfolding disk_image
behind-IsWellFormed = record {
  nonempty = omega arith;
  next_size = refl;
  match_size = refl;
  on_disk = refl;
}

abbrev new_log : List (LogEntry ℕ)
new_log =
    record { term = 0; command = none }
    ∷ record { term = 1; command = some 7 }
    ∷ record { term = 2; command = some 5 }
    ∷ record { term = 3; command = some 6 }
    ∷ []

abbrev overwritten : Raft ℕ ℕ
overwritten = record behind {
  current_term = 3;
  voted_for = none;
  state = follower;
  last_heard_time = 9;
  log = new_log;
  commit_index = 2;
  apply_ready = true;
  disk = some (record {
    raft_state = record { current_term = 3; voted_for = none; log = new_log; snapshot_index = 0 };
    snapshot = none;
  });
}

overwrites :
    append_entries 9 behind overwriting
    ≡ some (
      overwritten,
      record { term = 3; success = true; conflict_term = some 0; conflict_index = 0 },
    )
unfolding append_entries accept_term append_current check_prev merge append_left
    advance_follower_commit last_log_index term_at disk_image
overwrites = refl

append_entries-Accepted_example : Accepted behind overwriting overwritten
append_entries-Accepted_example =
    append_entries-Accepted 9 behind overwriting behind-IsWellFormed overwrites refl

-- A leader of term 3 whose log ends at 1 gets the reply to entries 1 to 3 that it sent in term 1.
abbrev late : AppendEntriesArgs ℕ
late = record {
  term = 1;
  leader_id = 0;
  prev_log_index = 0;
  prev_log_term = 0;
  entries =
      record { term = 1; command = some 7 }
      ∷ record { term = 1; command = some 8 }
      ∷ record { term = 1; command = some 9 }
      ∷ [];
  leader_commit = 0;
}

abbrev again : Raft ℕ ℕ
again = record ahead {
  current_term = 3;
  log = record { term = 0; command = none } ∷ record { term = 2; command = some 4 } ∷ [];
  match_index = 0 ∷ 0 ∷ 0 ∷ [];
  next_index = 2 ∷ 2 ∷ 2 ∷ [];
}

on_append_reply_past_end_example :
    new_append_entries_args
      (record again { match_index = 0 ∷ 3 ∷ 0 ∷ []; next_index = 2 ∷ 4 ∷ 2 ∷ [] })
      1
    ≡ none
unfolding on_append_reply advance_commit_index last_log_index term_at
on_append_reply_past_end_example =
    on_append_reply_past_end 9 again 1 0 late
      (record { term = 1; success = true; conflict_term = some 0; conflict_index = 0 })
      (omega arith) (omega arith) refl (omega arith) refl (omega arith) (omega arith) refl
