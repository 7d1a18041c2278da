-- ===== src/Raft/Cluster/Elections/Safety.antt =====
-- At most one leader in a term.
use mit_distro_sys.Common.{
  is_listed, ℕ, AllOf, AllOf-imp, AllOf-get_elem?, subst, sym, ◌≡◌, refl, inl, inr, true, none,
  some, List, [], ◌∷◌, arith, ◌==◌, ==_iff, Bool-cases, get_elem?,
}
use mit_distro_sys.Raft.Invariant.Rest.{make-IsWellFormed}
use mit_distro_sys.Raft.Boot.{make}
use mit_distro_sys.Raft.Cluster.{
  Cluster, ClusterStep, quiet, ask, campaign, tally, Reach, begin, later, start_cluster,
}
use mit_distro_sys.Raft.Cluster.Quorum.{Quorum-common}
use mit_distro_sys.Raft.Cluster.Elections.{Cast, ElectedOk}
use mit_distro_sys.Raft.Cluster.Elections.Updates.{Step-PeerOk, IsSound-step}
use mit_distro_sys.Raft.Cluster.Elections.Asking.{Sound, ask-Sound, campaign-Sound}
use mit_distro_sys.Raft.Cluster.Elections.Tally.{tally-Sound}

AllOf-member : (P : ℕ → Type 0) (xs : List ℕ) (v : ℕ) → AllOf P xs → is_listed v xs ≡ true → P v
AllOf-member P [] v h e = cc
AllOf-member P (x ∷ xs) v (p, h) e = elim (Bool-cases (x == v)) [
  | inl same ↦ subst P ((==_iff x v).0 same) p
  | inr other ↦ AllOf-member P xs v h (rw other at e)
]

-- Two majorities for a term are for the same candidate.
Elected-unique :
    (n : ℕ) (cast : Cast) (term c d : ℕ)
    → ElectedOk n cast (term, c)
    → ElectedOk n cast (term, d)
    → c ≡ d
Elected-unique n cast term c d (xs, p, (u, a)) (ys, q, (v, b)) =
    let w =
      Quorum-common n xs ys u v (AllOf-imp xs (λ x h. h.0) a) (AllOf-imp ys (λ x h. h.0) b) p q in
    let e = (AllOf-member _ xs w.0 a w.1).1 in
    let f = (AllOf-member _ ys w.0 b w.2).1 in ground (arith, e, f)

module _ {C D : Type 0} (n : ℕ) where
  Step-Sound : {s t : Cluster C D} → ClusterStep n s t → Sound n s → Sound n t
  Step-Sound {s} (quiet i {rf'} st h q e) (cast, sound) =
      subst (Sound n) (sym e)
        (cast, IsSound-step n cast s i rf' (Step-PeerOk n cast i st (sound.peers_ok i h)) sound)
  Step-Sound {s} (ask i now args {rf'} {reply} h q e) sound =
      subst (Sound n) (sym e) (ask-Sound n s i now args rf' reply h q sound)
  Step-Sound {s} (campaign i now {rf'} {args} h q e) sound =
      subst (Sound n) (sym e) (campaign-Sound n s i now rf' args h q sound)
  Step-Sound {s} (tally now k a p h q r new e) sound =
      subst (Sound n) (sym e) (tally-Sound n s now k a p h q r new sound)

  start-Sound : (now : ℕ) → Sound {C = C} {D = D} n (start_cluster n now)
  unfolding make
  start-Sound now = (
    λ v t. none,
    record {
      peers_ok = λ i h. record {
        well_formed = make-IsWellFormed now n i none (omega arith);
        same_me = refl;
        same_peers = refl;
        past = λ t c e. absurd (ground arith);
        honours = λ t c e. absurd (ground arith);
      };
      answers_ok = tt;
      polls_ok = λ c t p e. absurd (ground arith);
      elected_ok = tt;
    },
  )

  pub Reach-Sound : (now : ℕ) {s : Cluster C D} → Reach n now s → Sound n s
  Reach-Sound now begin = start-Sound now
  Reach-Sound now (later r st) = Step-Sound st (Reach-Sound now r)

  -- In a group of `n` peers that started with empty disks, whatever critical sections, crashes,
  -- restarts and lost, delayed or reordered replies there were, no two peers became leader in one
  -- term.
  pub elected_unique :
      (now : ℕ) (s : Cluster C D) (j k term c d : ℕ)
      → Reach n now s
      → get_elem? s.elected j ≡ some (term, c)
      → get_elem? s.elected k ≡ some (term, d)
      → c ≡ d
  elected_unique now s j k term c d r e f =
      let (cast, sound) = Reach-Sound now r in
      Elected-unique n cast term c d
        (AllOf-get_elem? (ElectedOk n cast) s.elected j sound.elected_ok e)
        (AllOf-get_elem? (ElectedOk n cast) s.elected k sound.elected_ok f)
