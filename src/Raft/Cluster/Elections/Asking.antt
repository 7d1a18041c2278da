-- ===== src/Raft/Cluster/Elections/Asking.antt =====
-- A granted vote and a new election keep the votes sound.
use mit_distro_sys.Common.{
  ℕ, ◌<◌, ◌≡◌, refl, ap, ◌∙◌, inl, inr, some, [], ◌∷◌, arith, Bool-cases, update,
}
use mit_distro_sys.Raft.Types.{Raft, RequestVoteArgs, RequestVoteReply}
use mit_distro_sys.Raft.Vote.{first_ballot, start_election, request_vote}
use mit_distro_sys.Raft.Steps.{vote, elect}
use mit_distro_sys.Raft.Cluster.{Cluster, set_poll}
use mit_distro_sys.Raft.Cluster.Votes.{request_vote_granted, start_election_votes}
use mit_distro_sys.Raft.Cluster.Elections.{Cast, put_cast, PollOk, IsSound}
use mit_distro_sys.Raft.Cluster.Elections.Updates.{
  Step-PeerOk, IsSound-step, IsSound-vote, put_cast_self, set_poll-cases,
}

module _ {C D : Type 0} (n : ℕ) where
  abbrev pub Sound : Cluster C D → Type 0
  Sound s = (cast : Cast) × IsSound n cast s

  pub ask-Sound :
      (s : Cluster C D) (i now : ℕ) (args : RequestVoteArgs) (rf' : Raft C D)
      (reply : RequestVoteReply)
      → i < n
      → request_vote now (s.peers i) args ≡ some (rf', reply)
      → Sound s
      → Sound (record s {
        peers = update s.peers i rf';
        answers = record { voter = i; args = args; reply = reply } ∷ s.answers;
      })
  ask-Sound s i now args rf' reply h e (cast, sound) =
      let fine = Step-PeerOk n cast i (vote now args reply e) (sound.peers_ok i h) in
      elim (Bool-cases reply.vote_granted) [
        | inl granted ↦
            let (v, t, r) = request_vote_granted now (s.peers i) args e granted in
            let next = IsSound-vote n cast s i rf' args.term args.candidate_id t v fine sound in
            (
              put_cast cast i args.term args.candidate_id,
              record {
                peers_ok = next.peers_ok;
                answers_ok = (
                  λ g. (h, put_cast_self cast i args.term args.candidate_id, r),
                  next.answers_ok,
                );
                polls_ok = next.polls_ok;
                elected_ok = next.elected_ok;
              },
            )
        | inr refused ↦
            let next = IsSound-step n cast s i rf' fine sound in
            (
              cast,
              record {
                peers_ok = next.peers_ok;
                answers_ok = (λ g. absurd (ground arith), next.answers_ok);
                polls_ok = next.polls_ok;
                elected_ok = next.elected_ok;
              },
            )
      ]

  pub campaign-Sound :
      (s : Cluster C D) (i now : ℕ) (rf' : Raft C D) (args : RequestVoteArgs)
      → i < n
      → start_election now (s.peers i) ≡ some (rf', args)
      → Sound s
      → Sound (record s {
        peers = update s.peers i rf';
        polls = set_poll s.polls i args.term (record { ballot = first_ballot; heard = i ∷ [] });
      })
  campaign-Sound s i now rf' args h e (cast, sound) =
      let before = sound.peers_ok i h in
      let fine = Step-PeerOk n cast i (elect now args e) before in
      let (v, t) = start_election_votes now (s.peers i) e in
      let v' : rf'.voted_for ≡ some i = v ∙ ap some before.same_me in
      let next = IsSound-vote n cast s i rf' args.term i t v' fine sound in
      let cast' = put_cast cast i args.term i in
      (
        cast',
        record {
          peers_ok = next.peers_ok;
          answers_ok = next.answers_ok;
          polls_ok =
              set_poll-cases s.polls i args.term _ (PollOk n cast')
                (omega arith, ((refl, tt), ((h, put_cast_self cast i args.term i), tt)))
                next.polls_ok;
          elected_ok = next.elected_ok;
        },
      )
