-- ===== src/Raft/Cluster.antt =====
-- The peers of a group together (src/raft/raft.go): elections over a network that delays, loses and
-- reorders messages. A step is a critical section of one peer.
use mit_distro_sys.Common.{
  is_listed, ℕ, ◌<◌, ◌≡◌, false, not, ◌&&◌, Option, none, some, List, [], ◌∷◌, ◌==◌, if◌then◌else◌,
  update, get_elem?,
}
use mit_distro_sys.Raft.Types.{Raft, RequestVoteArgs, RequestVoteReply, is_leader}
use mit_distro_sys.Raft.Vote.{Ballot, first_ballot, request_vote, start_election, on_vote_reply}
use mit_distro_sys.Raft.Boot.{make}
use mit_distro_sys.Raft.Steps.{
  Step, vote, elect, count, append, install, command, wake_up, installed, appended, compact, apply,
  applied, restart,
}
pub mod Quorum
pub mod Votes
pub mod Elections

-- A reply to RequestVote on its way, with the request that it answers.
pub record Answer : Type 0 where
  pub voter : ℕ
  pub args : RequestVoteArgs
  pub reply : RequestVoteReply

-- An election of a candidate: what the closure of `startElection` counts, and whose votes came in.
-- Its goroutines ask every other peer once.
pub record Poll : Type 0 where
  pub ballot : Ballot
  pub heard : List ℕ

abbrev pub set_poll : (ℕ → ℕ → Option Poll) → ℕ → ℕ → Poll → ℕ → ℕ → Option Poll
set_poll polls c term p d t = if (c == d) && (term == t) then some p else polls d t

-- The poll after a reply of the voter.
abbrev pub hear : Poll → ℕ → RequestVoteReply → Ballot → Poll
hear p voter reply b = record {
  ballot = b;
  heard = if reply.vote_granted then voter ∷ p.heard else p.heard;
}

module _ (C D : Type 0) where
  -- `polls` has the elections by candidate and term. `elected` lists each term in which a peer
  -- became leader, with that peer.
  pub record Cluster : Type 0 where
    pub peers : ℕ → Raft C D
    pub answers : List Answer
    pub polls : ℕ → ℕ → Option Poll
    pub elected : List (ℕ × ℕ)

module _ {C D : Type 0} where
  -- All critical sections but those of an election, and a crash with a restart.
  abbrev pub IsQuiet : {rf rf' : Raft C D} → Step rf rf' → Type 0
  IsQuiet (vote now args reply e) = ⊥
  IsQuiet (elect now args e) = ⊥
  IsQuiet (count now b reply e) = ⊥
  IsQuiet (append now args reply e) = Unit
  IsQuiet (install now args reply e) = Unit
  IsQuiet (command c e) = Unit
  IsQuiet (wake_up e) = Unit
  IsQuiet (installed now i args reply e) = Unit
  IsQuiet (appended now i args reply e) = Unit
  IsQuiet (compact index snapshot e h) = Unit
  IsQuiet (apply m e) = Unit
  IsQuiet (applied m e) = Unit
  IsQuiet (restart now e) = Unit

  -- A peer that was no leader and is one now won its term.
  abbrev pub record_leader : ℕ → Raft C D → Raft C D → List (ℕ × ℕ) → List (ℕ × ℕ)
  record_leader i rf rf' elected =
      if not (is_leader rf.state) && is_leader rf'.state
      then (rf'.current_term, i) ∷ elected
      else elected

  -- The candidate gets the answer.
  unfoldable pub after_reply : ℕ → Cluster C D → Answer → Poll → Cluster C D
  after_reply now s a p =
      let c = a.args.candidate_id in
      let r = on_vote_reply now (s.peers c) p.ballot a.reply in
      record {
        peers = update s.peers c r.0;
        answers = s.answers;
        polls = set_poll s.polls c a.args.term (hear p a.voter a.reply r.1);
        elected = record_leader c (s.peers c) r.0 s.elected;
      }

  pub data ClusterStep (n : ℕ) (s t : Cluster C D) : Type 0 where
    quiet :
        (i : ℕ) {rf' : Raft C D} (st : Step (s.peers i) rf')
        → i < n
        → IsQuiet st
        → t ≡ record s { peers = update s.peers i rf' }
        → ClusterStep n s t
    ask :
        (i now : ℕ) (args : RequestVoteArgs) {rf' : Raft C D} {reply : RequestVoteReply}
        → i < n
        → request_vote now (s.peers i) args ≡ some (rf', reply)
        → t ≡ record s {
          peers = update s.peers i rf';
          answers = record { voter = i; args = args; reply = reply } ∷ s.answers;
        }
        → ClusterStep n s t
    campaign :
        (i now : ℕ) {rf' : Raft C D} {args : RequestVoteArgs}
        → i < n
        → start_election now (s.peers i) ≡ some (rf', args)
        → t ≡ record s {
          peers = update s.peers i rf';
          polls = set_poll s.polls i args.term (record { ballot = first_ballot; heard = i ∷ [] });
        }
        → ClusterStep n s t
    tally :
        (now k : ℕ) (a : Answer) (p : Poll)
        → a.args.candidate_id < n
        → get_elem? s.answers k ≡ some a
        → s.polls a.args.candidate_id a.args.term ≡ some p
        → is_listed a.voter p.heard ≡ false
        → t ≡ after_reply now s a p
        → ClusterStep n s t

  -- `n` peers with empty disks, and runs from there.
  abbrev pub start_cluster : ℕ → ℕ → Cluster C D
  start_cluster n now = record {
    peers = λ i. make now n i none;
    answers = [];
    polls = λ c term. none;
    elected = [];
  }

  pub data Reach (n now : ℕ) : Cluster C D → Type 0 where
    begin : Reach n now (start_cluster n now)
    later : {s t : Cluster C D} → Reach n now s → ClusterStep n s t → Reach n now t
