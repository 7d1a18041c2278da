-- ===== src/Raft/Replicas.antt =====
-- A group of peers that replicate their logs and take no snapshots (src/raft/raft.go): the elections
-- of Raft.Cluster, and AppendEntries messages that are those the leaders made.
use mit_distro_sys.Common.{
  ℕ, ◌<◌, ◌≡◌, ◌≢◌, true, not, ◌&&◌, some, List, [], ◌∷◌, if◌then◌else◌, update, get_elem?,
}
use mit_distro_sys.Raft.Types.{Raft, LogEntry, AppendEntriesArgs, AppendEntriesReply, is_leader}
use mit_distro_sys.Raft.Steps.{
  Step, append, vote, install, elect, count, command, wake_up, installed, appended, compact, apply,
  applied, restart,
}
use mit_distro_sys.Raft.Vote.{on_vote_reply}
use mit_distro_sys.Raft.Boot.{empty_log}
use mit_distro_sys.Raft.Append.{append_entries}
use mit_distro_sys.Raft.Leader.{start, replicate_to_follower, entries}
use mit_distro_sys.Raft.Cluster.{Cluster, ClusterStep, quiet, ask, campaign, tally, start_cluster}
pub mod Agree
pub mod Splice
pub mod Follow
pub mod Append
pub mod Calm
pub mod Roles
pub mod Messages
pub mod Holds
pub mod Places
pub mod Wins
pub mod Moves
pub mod Matching

pub record Packet (C : Type 0) : Type 0 where
  pub dest : ℕ
  pub args : AppendEntriesArgs C

module _ (C D : Type 0) where
  -- `sent` has all messages, which may arrive late, often or never. `led` has the log of the leader of
  -- each term, as it was last; no code reads it.
  pub record Replicas : Type 0 where
    pub cluster : Cluster C D
    pub sent : List (Packet C)
    pub led : ℕ → List (LogEntry C)

module _ {C D : Type 0} where
  -- Critical sections that do not concern the log: no AppendEntries, no command, no snapshot.
  abbrev pub LeavesLog : {rf rf' : Raft C D} → Step rf rf' → Type 0
  LeavesLog (append now args reply e) = ⊥
  LeavesLog (vote now args reply e) = ⊥
  LeavesLog (elect now args e) = ⊥
  LeavesLog (count now b reply e) = ⊥
  LeavesLog (install now args reply e) = ⊥
  LeavesLog (command c e) = ⊥
  LeavesLog (wake_up e) = Unit
  LeavesLog (installed now i args reply e) = ⊥
  LeavesLog (appended now i args reply e) = Unit
  LeavesLog (compact index snapshot e h) = ⊥
  LeavesLog (apply m e) = Unit
  LeavesLog (applied m e) = Unit
  LeavesLog (restart now e) = Unit

  abbrev pub IsPlain : {n : ℕ} {s t : Cluster C D} → ClusterStep n s t → Type 0
  IsPlain (quiet i st lt q e) = LeavesLog st
  IsPlain (ask i now args lt q e) = Unit
  IsPlain (campaign i now lt q e) = Unit
  IsPlain (tally now k a p lt q r new e) = Unit

  -- The log of a peer that becomes the leader of its term
  abbrev pub record_log : Raft C D → Raft C D → (ℕ → List (LogEntry C)) → ℕ → List (LogEntry C)
  record_log rf rf' led =
      if not (is_leader rf.state) && is_leader rf'.state
      then update led rf'.current_term rf'.log
      else led

  abbrev pub led_after :
      {n : ℕ} {s t : Cluster C D}
      → ClusterStep n s t
      → (ℕ → List (LogEntry C))
      → ℕ
      → List (LogEntry C)
  led_after {n} {s} {t} (tally now k a p lt q r new e) led =
      let rf = s.peers a.args.candidate_id in
      record_log rf (on_vote_reply now rf p.ballot a.reply).0 led
  led_after _ led = led

  abbrev pub with_peer : Cluster C D → ℕ → Raft C D → Cluster C D
  with_peer s i rf = record s { peers = update s.peers i rf }

  pub data ReplicaStep (n : ℕ) (s t : Replicas C D) : Type 0 where
    plain :
        {c : Cluster C D} (st : ClusterStep n s.cluster c)
        → IsPlain st
        → t ≡ record s { cluster = c; led = led_after st s.led }
        → ReplicaStep n s t
    send :
        (i k : ℕ) (args : AppendEntriesArgs C)
        → i < n
        → i ≢ k
        → replicate_to_follower (s.cluster.peers i) k ≡ some (entries args)
        → t ≡ record s { sent = record { dest = k; args = args } ∷ s.sent }
        → ReplicaStep n s t
    deliver :
        (i now k : ℕ) (packet : Packet C) {rf' : Raft C D} {reply : AppendEntriesReply}
        → i < n
        → get_elem? s.sent k ≡ some packet
        → packet.dest ≡ i
        → append_entries now (s.cluster.peers i) packet.args ≡ some (rf', reply)
        → t ≡ record s { cluster = with_peer s.cluster i rf' }
        → ReplicaStep n s t
    submit :
        (i : ℕ) (c : C)
        → i < n
        → is_leader (s.cluster.peers i).state ≡ true
        → t ≡ record s {
          cluster = with_peer s.cluster i (start (s.cluster.peers i) c).0;
          led = update s.led (s.cluster.peers i).current_term (start (s.cluster.peers i) c).0.log;
        }
        → ReplicaStep n s t

  abbrev pub start_replicas : ℕ → ℕ → Replicas C D
  start_replicas n now = record {
    cluster = start_cluster n now;
    sent = [];
    led = update (λ t. []) 0 empty_log;
  }

  pub data ReplicaRun (n now : ℕ) : Replicas C D → Type 0 where
    begin : ReplicaRun n now (start_replicas n now)
    later : {s t : Replicas C D} → ReplicaRun n now s → ReplicaStep n s t → ReplicaRun n now t
