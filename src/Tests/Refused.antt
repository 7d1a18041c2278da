-- ===== src/Tests/Refused.antt =====
-- A follower that refuses entries of another term, and the leader that goes back.
use mit_distro_sys.Common.{[], ◌∷◌, some, none, refl, arith, ℕ, ◌≤◌, ◌≡◌, ◌≢◌, false}
use mit_distro_sys.Raft.Types.{Raft, AppendEntriesArgs}
use mit_distro_sys.Raft.Log.{term_at, last_log_index}
use mit_distro_sys.Raft.Append.{check_prev, back_up, Verdict}
use mit_distro_sys.Raft.Leader.{next_after, find_term}
use mit_distro_sys.Raft.Leader.Refused.{next_after-reply_of}
use mit_distro_sys.Tests.Peer.{behind}

abbrev asking : AppendEntriesArgs ℕ
asking = record {
  term = 3;
  leader_id = 2;
  prev_log_index = 2;
  prev_log_term = 2;
  entries = [];
  leader_commit = 0;
}

abbrev refusal : Verdict
refusal = record { success = false; conflict_term = some 1; conflict_index = 1 }

-- The leader has an entry of term 2 there, and one of term 1 before it.
abbrev asker : Raft ℕ ℕ
asker = record behind {
  log =
      record { term = 0; command = none }
      ∷ record { term = 1; command = some 7 }
      ∷ record { term = 2; command = some 5 }
      ∷ [];
}

next_after-reply_of_example :
    (2 ≤ 2) × (1 ≢ asking.prev_log_term) × ((k : ℕ) → 1 ≤ k → k ≤ 2 → term_at behind k ≡ some 1)
unfolding check_prev back_up next_after find_term term_at last_log_index
next_after-reply_of_example =
    next_after-reply_of asker behind asking refusal 1 2 refl refl refl (omega arith) refl refl
