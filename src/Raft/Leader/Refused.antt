-- ===== src/Raft/Leader/Refused.antt =====
-- A follower that refuses, and the leader that goes back.
use mit_distro_sys.Common.{ℕ, ◌≤◌, ◌<◌, ◌≡◌, ◌≢◌, false, some}
use mit_distro_sys.Raft.Types.{Raft, AppendEntriesArgs}
use mit_distro_sys.Raft.Log.{term_at}
use mit_distro_sys.Raft.Append.{check_prev, reply_of, Verdict}
use mit_distro_sys.Raft.Append.Refusal.{check_prev-AllOfTerm}
use mit_distro_sys.Raft.Leader.{next_after}
use mit_distro_sys.Raft.Leader.BackOff.{next_after-le}

module _ {C D : Type 0} where
  -- A follower refuses a request whose previous index is after its snapshot, and names a term; the
  -- leader has the entry of the request at that index. Then the follower has the named term, and not
  -- the one of the request, at the previous index, at the conflict index and between them, and the
  -- next index that the leader computes from the reply is not after the previous index.
  pub next_after-reply_of :
      (asker refuser : Raft C D) (args : AppendEntriesArgs C) (v : Verdict) (t n : ℕ)
      → check_prev refuser args ≡ some v
      → v.success ≡ false
      → v.conflict_term ≡ some t
      → refuser.last_included_index < args.prev_log_index
      → term_at asker args.prev_log_index ≡ some args.prev_log_term
      → next_after asker args.prev_log_index (reply_of refuser v) ≡ some n
      → (n ≤ args.prev_log_index)
        × (t ≢ args.prev_log_term)
        × ((k : ℕ) → v.conflict_index ≤ k → k ≤ args.prev_log_index → term_at refuser k ≡ some t)
  next_after-reply_of asker refuser args v t n e bad named inside own next =
      let (_, other, le, each) = check_prev-AllOfTerm refuser args v t e bad named inside in
      (
        next_after-le asker args.prev_log_index args.prev_log_term t n (reply_of refuser v) own
            named other le next,
        other,
        each,
      )
