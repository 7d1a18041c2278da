-- ===== src/Raft/Cluster/Elections.antt =====
-- Why a term has at most one leader: the votes that were cast never change, and a leader was elected
-- by a majority of them.
use mit_distro_sys.Common.{
  ℕ, AllOf, AllOf-imp, ◌/◌, ◌≤◌, ◌<◌, ◌≡◌, sym, ◌∙◌, subst, inl, inr, true, ◌&&◌, Option, some,
  List, arith, ◌==◌, if◌then◌else◌, Bool-cases, length,
}
use mit_distro_sys.Raft.Types.{Raft}
use mit_distro_sys.Raft.Invariant.{IsWellFormed}
use mit_distro_sys.Raft.Terms.{KeepsVote}
use mit_distro_sys.Raft.Cluster.{Answer, Poll, Cluster}
use mit_distro_sys.Raft.Cluster.Quorum.{Distinct}
pub mod Updates
pub mod Asking
pub mod Tally
pub mod Safety

-- The candidate that each peer voted for in each term.
abbrev pub Cast : Type 0
Cast = ℕ → ℕ → Option ℕ

abbrev pub put_cast : Cast → ℕ → ℕ → ℕ → Cast
put_cast cast i term c v t = if (i == v) && (term == t) then some c else cast v t

abbrev pub Extends : Cast → Cast → Type 0
Extends cast cast' = (v t c : ℕ) → cast v t ≡ some c → cast' v t ≡ some c

module _ (n : ℕ) (cast : Cast) where
  -- The peers in the list voted for the candidate, each counted once.
  abbrev pub Backed : ℕ → ℕ → List ℕ → Type 0
  Backed c term heard = Distinct heard × AllOf (λ v. (v < n) × (cast v term ≡ some c)) heard

  -- A granted vote in an answer was cast.
  abbrev pub AnswerOk : Answer → Type 0
  AnswerOk a =
      a.reply.vote_granted ≡ true
      → (a.voter < n)
        × (cast a.voter a.args.term ≡ some a.args.candidate_id)
        × (a.reply.term ≡ a.args.term)

  abbrev pub PollOk : ℕ → ℕ → Poll → Type 0
  PollOk c term p = (p.ballot.vote_count ≤ length p.heard) × Backed c term p.heard

  -- A majority voted for the one who was elected in the term.
  abbrev pub ElectedOk : ℕ × ℕ → Type 0
  ElectedOk e = (heard : List ℕ) × (n / 2 < length heard) × Backed e.1 e.0 heard

  module _ {C D : Type 0} where
    -- The peer remembers the last vote that it cast.
    pub record PeerOk (i : ℕ) (rf : Raft C D) : Type 0 where
      pub well_formed : IsWellFormed rf
      pub same_me : rf.me ≡ i
      pub same_peers : rf.peers ≡ n
      pub past : (t c : ℕ) → cast i t ≡ some c → t ≤ rf.current_term
      pub honours : (t c : ℕ) → cast i t ≡ some c → t ≡ rf.current_term → rf.voted_for ≡ some c

    pub PeerOk-keeps :
        (i : ℕ) (rf rf' : Raft C D)
        → KeepsVote rf rf'
        → IsWellFormed rf'
        → PeerOk i rf
        → PeerOk i rf'
    PeerOk-keeps i rf rf' k w fine = record {
      well_formed = w;
      same_me = k.same_me ∙ fine.same_me;
      same_peers = k.same_peers ∙ fine.same_peers;
      past = λ t c e. omega (arith, fine.past t c e, k.term_grows);
      honours = λ t c e f.
          let same : rf'.current_term ≡ rf.current_term =
            omega (arith, fine.past t c e, k.term_grows, f) in
          k.vote_stays c same (fine.honours t c e (f ∙ same));
    }

    pub put_cast-Extends :
        (i : ℕ) (rf : Raft C D) (term c : ℕ)
        → rf.current_term ≡ term
        → rf.voted_for ≡ some c
        → PeerOk i rf
        → Extends cast (put_cast cast i term c)
    put_cast-Extends i rf term c e v fine w t d f = elim (Bool-cases ((i == w) && (term == t))) [
      | inl here ↦
          let f' : cast i t ≡ some d = subst (λ x. cast x t ≡ some d) {y = i} (ground arith) f in
          let g = fine.honours t d f' (ground arith) in rw here (sym v ∙ g)
      | inr other ↦ rw other f
    ]

    pub record IsSound (s : Cluster C D) : Type 0 where
      pub peers_ok : (i : ℕ) → i < n → PeerOk i (s.peers i)
      pub answers_ok : AllOf AnswerOk s.answers
      pub polls_ok : (c t : ℕ) (p : Poll) → s.polls c t ≡ some p → PollOk c t p
      pub elected_ok : AllOf ElectedOk s.elected

module _ (n : ℕ) (cast cast' : Cast) (more : Extends cast cast') where
  Backed-more : (c t : ℕ) (heard : List ℕ) → Backed n cast c t heard → Backed n cast' c t heard
  Backed-more c t heard (d, h) = (d, AllOf-imp heard (λ v p. (p.0, more v t c p.1)) h)

  pub answers-more :
      (answers : List Answer) → AllOf (AnswerOk n cast) answers → AllOf (AnswerOk n cast') answers
  answers-more answers h =
      AllOf-imp answers (λ a fine g. let r = fine g in (r.0, more _ _ _ r.1, r.2)) h

  pub PollOk-more : (c t : ℕ) (p : Poll) → PollOk n cast c t p → PollOk n cast' c t p
  PollOk-more c t p (le, b) = (le, Backed-more c t p.heard b)

  pub elected-more :
      (es : List (ℕ × ℕ)) → AllOf (ElectedOk n cast) es → AllOf (ElectedOk n cast') es
  elected-more es h = AllOf-imp es (λ e fine. (fine.0, fine.1, Backed-more e.1 e.0 fine.0 fine.2)) h

  -- A new vote concerns one peer only.
  pub PeerOk-same :
      {C D : Type 0} (i : ℕ) (rf : Raft C D)
      → ((t : ℕ) → cast' i t ≡ cast i t)
      → PeerOk n cast i rf
      → PeerOk n cast' i rf
  PeerOk-same i rf same fine = record {
    well_formed = fine.well_formed;
    same_me = fine.same_me;
    same_peers = fine.same_peers;
    past = λ t c e. fine.past t c (sym (same t) ∙ e);
    honours = λ t c e. fine.honours t c (sym (same t) ∙ e);
  }

-- The peer that just cast the vote.
pub PeerOk-put :
    {C D : Type 0} (n : ℕ) (cast : Cast) (i : ℕ) (rf : Raft C D) (term c : ℕ)
    → rf.current_term ≡ term
    → rf.voted_for ≡ some c
    → PeerOk n cast i rf
    → PeerOk n (put_cast cast i term c) i rf
PeerOk-put n cast i rf term c e v fine = record {
  well_formed = fine.well_formed;
  same_me = fine.same_me;
  same_peers = fine.same_peers;
  past = λ t d f. elim (Bool-cases (term == t)) [
    | inl here ↦ ground arith
    | inr other ↦ fine.past t d (ground arith)
  ];
  honours = λ t d f g. elim (Bool-cases (term == t)) [
    | inl here ↦ v ∙ ground arith
    | inr other ↦ fine.honours t d (ground arith) g
  ];
}
