-- ===== src/Raft/Terms.antt =====
-- Terms never fall, and votes never change within a term: what each critical section keeps.
pub mod Rpcs
pub mod Others
pub mod Replication
use mit_distro_sys.Common.{ℕ, ◌≤◌, ◌<◌, ◌≡◌, ◌∙◌, some, arith}
use mit_distro_sys.Raft.Types.{Raft}

module _ {C D : Type 0} where
  -- The term does not fall, a vote that was cast in it stays, and the peer is the same one.
  pub record KeepsVote (rf rf' : Raft C D) : Type 0 where
    pub term_grows : rf.current_term ≤ rf'.current_term
    pub vote_stays :
        (c : ℕ)
        → rf'.current_term ≡ rf.current_term
        → rf.voted_for ≡ some c
        → rf'.voted_for ≡ some c
    pub same_me : rf'.me ≡ rf.me
    pub same_peers : rf'.peers ≡ rf.peers

  -- The term, the vote and the peer are the same.
  abbrev pub SameVote : Raft C D → Raft C D → Type 0
  SameVote rf rf' =
      (rf'.current_term ≡ rf.current_term)
      × (rf'.voted_for ≡ rf.voted_for)
      × (rf'.me ≡ rf.me)
      × (rf'.peers ≡ rf.peers)

  pub KeepsVote-same : (rf rf' : Raft C D) → SameVote rf rf' → KeepsVote rf rf'
  KeepsVote-same rf rf' (t, v, m, n) = record {
    term_grows = omega arith;
    vote_stays = λ c e h. v ∙ h;
    same_me = m;
    same_peers = n;
  }

  pub KeepsVote-trans : (a b c : Raft C D) → KeepsVote a b → KeepsVote b c → KeepsVote a c
  KeepsVote-trans a b c p q = record {
    term_grows = omega arith;
    vote_stays = λ v e h.
        q.vote_stays v (omega (arith, p.term_grows, q.term_grows))
          (p.vote_stays v (omega (arith, p.term_grows, q.term_grows)) h);
    same_me = q.same_me ∙ p.same_me;
    same_peers = q.same_peers ∙ p.same_peers;
  }

  -- So do all critical sections but the last one of a round of the applier, and none of them changes
  -- what is applied.
  pub record Keeps (rf rf' : Raft C D) : Type 0 where
    pub keeps_vote : KeepsVote rf rf'
    pub same_applied : rf'.last_applied ≡ rf.last_applied

  pub Keeps-same :
      (rf rf' : Raft C D)
      → (rf'.current_term ≡ rf.current_term)
        × (rf'.voted_for ≡ rf.voted_for)
        × (rf'.me ≡ rf.me)
        × (rf'.peers ≡ rf.peers)
        × (rf'.last_applied ≡ rf.last_applied)
      → Keeps rf rf'
  Keeps-same rf rf' (t, v, m, n, a) = record {
    keeps_vote = KeepsVote-same rf rf' (t, v, m, n);
    same_applied = a;
  }

  pub Keeps-higher :
      (rf rf' : Raft C D)
      → rf.current_term < rf'.current_term
      → (rf'.me ≡ rf.me) × (rf'.peers ≡ rf.peers) × (rf'.last_applied ≡ rf.last_applied)
      → Keeps rf rf'
  Keeps-higher rf rf' t (m, n, a) = record {
    keeps_vote = record {
      term_grows = omega arith;
      vote_stays = λ c e h. absurd (omega arith);
      same_me = m;
      same_peers = n;
    };
    same_applied = a;
  }

  pub Keeps-trans : (a b c : Raft C D) → Keeps a b → Keeps b c → Keeps a c
  Keeps-trans a b c p q = record {
    keeps_vote = KeepsVote-trans a b c p.keeps_vote q.keeps_vote;
    same_applied = q.same_applied ∙ p.same_applied;
  }
