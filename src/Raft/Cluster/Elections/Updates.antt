-- ===== src/Raft/Cluster/Elections/Updates.antt =====
-- Updates of one peer, of the polls and of the votes that were cast.
use mit_distro_sys.Common.{
  ℕ, subst, ◌<◌, ◌≡◌, refl, inl, inr, false, ◌&&◌, Option, some, arith, ◌==◌, ==_iff, ==_refl,
  Bool-cases, update,
}
use mit_distro_sys.Raft.Types.{Raft}
use mit_distro_sys.Raft.Steps.{Step}
use mit_distro_sys.Raft.Steps.Terms.{Step-KeepsVote, Step-IsWellFormed}
use mit_distro_sys.Raft.Cluster.{Poll, Cluster, set_poll}
use mit_distro_sys.Raft.Cluster.Elections.{
  Cast, put_cast, PeerOk, PeerOk-keeps, put_cast-Extends, IsSound, answers-more, PollOk-more,
  elected-more, PeerOk-same, PeerOk-put,
}

pub put_cast_self : (cast : Cast) (i term c : ℕ) → put_cast cast i term c i term ≡ some c
put_cast_self cast i term c = rw (==_refl i, ==_refl term)

pub set_poll-cases :
    (polls : ℕ → ℕ → Option Poll) (c term : ℕ) (new : Poll) (P : ℕ → ℕ → Poll → Type 0)
    → P c term new
    → ((d t : ℕ) (p : Poll) → polls d t ≡ some p → P d t p)
    → (d t : ℕ) (p : Poll) → set_poll polls c term new d t ≡ some p
    → P d t p
set_poll-cases polls c term new P fine old d t p e = elim (Bool-cases ((c == d) && (term == t))) [
  | inl here ↦
      let new' : new ≡ p = (let f = rw here at e in ground arith) in
      subst (λ x. P d t x) new'
        (subst (λ x. P x t new) (let z : c ≡ d = ground arith in z)
          (subst (λ y. P c y new) (let z : term ≡ t = ground arith in z) fine))
  | inr other ↦ old d t p (rw other at e)
]

module _ {C D : Type 0} (n : ℕ) where
  pub Step-PeerOk :
      (cast : Cast) (i : ℕ) {rf rf' : Raft C D}
      → Step rf rf'
      → PeerOk n cast i rf
      → PeerOk n cast i rf'
  Step-PeerOk cast i {rf} {rf'} st fine =
      PeerOk-keeps n cast i rf rf' (Step-KeepsVote st fine.well_formed)
        (Step-IsWellFormed st fine.well_formed) fine

  pub update_peers :
      (cast : Cast) (peers : ℕ → Raft C D) (i : ℕ) (rf' : Raft C D)
      → ((j : ℕ) → j < n → (i == j) ≡ false → PeerOk n cast j (peers j))
      → PeerOk n cast i rf'
      → (j : ℕ) → j < n
      → PeerOk n cast j (update peers i rf' j)
  update_peers cast peers i rf' others fine j h = elim (Bool-cases (i == j)) [
    | inl same ↦ rw same (subst (λ k. PeerOk n cast k rf') ((==_iff i j).0 same) fine)
    | inr other ↦ rw other (others j h other)
  ]

  -- A step of one peer that casts no vote.
  pub IsSound-step :
      (cast : Cast) (s : Cluster C D) (i : ℕ) (rf' : Raft C D)
      → PeerOk n cast i rf'
      → IsSound n cast s
      → IsSound n cast (record s { peers = update s.peers i rf' })
  IsSound-step cast s i rf' fine sound = record {
    peers_ok = update_peers cast s.peers i rf' (λ j h o. sound.peers_ok j h) fine;
    answers_ok = sound.answers_ok;
    polls_ok = sound.polls_ok;
    elected_ok = sound.elected_ok;
  }

  -- A step of one peer that leaves it with a vote.
  pub IsSound-vote :
      (cast : Cast) (s : Cluster C D) (i : ℕ) (rf' : Raft C D) (term c : ℕ)
      → rf'.current_term ≡ term
      → rf'.voted_for ≡ some c
      → PeerOk n cast i rf'
      → IsSound n cast s
      → IsSound n (put_cast cast i term c) (record s { peers = update s.peers i rf' })
  IsSound-vote cast s i rf' term c e v fine sound =
      let cast' = put_cast cast i term c in
      let more = put_cast-Extends n cast i rf' term c e v fine in
      record {
        peers_ok =
            update_peers cast' s.peers i rf'
              (λ j h o.
                PeerOk-same n cast cast' more j (s.peers j) (λ t. rw o refl) (sound.peers_ok j h))
              (PeerOk-put n cast i rf' term c e v fine);
        answers_ok = answers-more n cast cast' more s.answers sound.answers_ok;
        polls_ok = λ d t p q. PollOk-more n cast cast' more d t p (sound.polls_ok d t p q);
        elected_ok = elected-more n cast cast' more s.elected sound.elected_ok;
      }
