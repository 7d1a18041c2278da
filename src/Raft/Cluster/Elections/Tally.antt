-- ===== src/Raft/Cluster/Elections/Tally.antt =====
-- A reply that is counted keeps the votes sound.
use mit_distro_sys.Common.{
  is_listed, ℕ, AllOf-get_elem?, subst, sym, suc, ◌≤◌, ◌<◌, ◌≡◌, refl, ◌∙◌, inl, inr, true, false,
  not, ◌&&◌, some, ◌∷◌, arith, if◌then◌else◌, Bool-cases, get_elem?,
}
use mit_distro_sys.Raft.Types.{RequestVoteReply, is_leader}
use mit_distro_sys.Raft.Vote.{Ballot, on_vote_reply}
use mit_distro_sys.Raft.Steps.{count}
use mit_distro_sys.Raft.Cluster.{Answer, Poll, Cluster, hear, after_reply}
use mit_distro_sys.Raft.Cluster.Votes.{on_vote_reply_counts, on_vote_reply_wins}
use mit_distro_sys.Raft.Cluster.Elections.{Cast, Backed, AnswerOk, PollOk}
use mit_distro_sys.Raft.Cluster.Elections.Updates.{Step-PeerOk, IsSound-step, set_poll-cases}
use mit_distro_sys.Raft.Cluster.Elections.Asking.{Sound}

-- The voter is new to the poll and voted for the candidate if it granted its vote.
pub hear-PollOk :
    (n : ℕ) (cast : Cast) (c t voter : ℕ) (p : Poll) (reply : RequestVoteReply) (b : Ballot)
    → (reply.vote_granted ≡ true → (voter < n) × (cast voter t ≡ some c))
    → is_listed voter p.heard ≡ false
    → b.vote_count ≤ (if reply.vote_granted then suc p.ballot.vote_count else p.ballot.vote_count)
    → PollOk n cast c t p
    → PollOk n cast c t (hear p voter reply b)
hear-PollOk n cast c t voter p reply b voted new le (le', (d, h)) =
    elim (Bool-cases reply.vote_granted) [
      | inl yes' ↦ rw yes' (ground arith, ((new, d), (voted yes', h)))
      | inr no' ↦ rw no' (ground arith, (d, h))
    ]

module _ {C D : Type 0} (n : ℕ) where
  pub tally-Sound :
      (s : Cluster C D) (now k : ℕ) (a : Answer) (p : Poll)
      → a.args.candidate_id < n
      → get_elem? s.answers k ≡ some a
      → s.polls a.args.candidate_id a.args.term ≡ some p
      → is_listed a.voter p.heard ≡ false
      → Sound n s
      → Sound n (after_reply now s a p)
  unfolding after_reply
  tally-Sound s now k a p h e q new (cast, sound) =
      let c = a.args.candidate_id in
      let term = a.args.term in
      let rf = s.peers c in
      let r = on_vote_reply now rf p.ballot a.reply in
      let before = sound.peers_ok c h in
      let voted = AllOf-get_elem? (AnswerOk n cast) s.answers k sound.answers_ok e in
      let poll = sound.polls_ok c term p q in
      let next =
        IsSound-step n cast s c r.0 (Step-PeerOk n cast c (count now p.ballot a.reply refl) before)
          sound in
      (
        cast,
        record {
          peers_ok = next.peers_ok;
          answers_ok = next.answers_ok;
          polls_ok =
              set_poll-cases s.polls c term _ (PollOk n cast)
                (hear-PollOk n cast c term a.voter p a.reply r.1
                  (λ g. let v = voted g in (v.0, v.1)) new
                  (on_vote_reply_counts now rf p.ballot a.reply) poll)
                next.polls_ok;
          elected_ok = elim (Bool-cases (not (is_leader rf.state) && is_leader r.0.state)) [
            | inl won ↦
                let w = on_vote_reply_wins now rf p.ballot a.reply (ground arith) (ground arith) in
                let v = voted w.0 in
                let t : r.0.current_term ≡ term = w.2 ∙ v.2 in
                rw won (
                  (
                    a.voter ∷ p.heard,
                    omega (arith, w.1, before.same_peers, poll.0),
                    subst (λ x. Backed n cast c x (a.voter ∷ p.heard)) (sym t)
                        ((new, poll.1.0), ((v.0, v.1), poll.1.1)),
                  ),
                  sound.elected_ok,
                )
            | inr same ↦ rw same sound.elected_ok
          ];
        },
      )
