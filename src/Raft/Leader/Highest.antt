-- ===== src/Raft/Leader/Highest.antt =====
-- Which index a leader commits (`advanceCommitIndex`).
use mit_distro_sys.Common.{
  false, ℕ, zero, suc, ◌+◌, ◌/◌, ◌≤◌, ◌<◌, ◌≡◌, ◌⊎◌, inl, inr, some, arith, ltb, ◌==◌, ==_iff,
  ltb→lt, Bool-cases, Option-cases, subst,
}
use mit_distro_sys.Raft.Types.{Raft}
use mit_distro_sys.Raft.Log.{last_log_index, term_at}
use mit_distro_sys.Raft.Leader.{count_matched, advance_from, advance_commit_index}
use mit_distro_sys.Raft.Leader.Commit.{committed_to}
use mit_distro_sys.Raft.Leader.Count.{HasMajority, counted-HasMajority, HasMajority-counted}

module _ {C D : Type 0} where
  -- All entries after `j` and up to `n` are of the leader's term.
  abbrev pub OwnAfter : Raft C D → ℕ → ℕ → Type 0
  OwnAfter rf n j = (i : ℕ) → j < i → i ≤ n → term_at rf i ≡ some rf.current_term

  -- An index that is not committed, of an entry that more than half have, and from which on all
  -- entries up to `n` are of the leader's term.
  abbrev pub CanCommit : Raft C D → ℕ → ℕ → Type 0
  CanCommit rf n j =
      (rf.commit_index < j)
      × (j ≤ n)
      × (term_at rf j ≡ some rf.current_term)
      × OwnAfter rf n j
      × HasMajority rf j

  -- The highest such index is committed, and nothing if there is none.
  abbrev pub Commits : Raft C D → ℕ → Raft C D → Type 0
  Commits rf n rf' =
      ((rf' ≡ rf) × ((j : ℕ) → ¬ CanCommit rf n j))
      ⊎ ((k : ℕ) × (rf' ≡ committed_to rf k)
          × CanCommit rf n k
          × ((j : ℕ) → k < j → ¬ CanCommit rf n j))

  OwnAfter-suc :
      (rf : Raft C D) (n m : ℕ)
      → term_at rf (suc m) ≡ some rf.current_term
      → OwnAfter rf n (suc m)
      → OwnAfter rf n m
  OwnAfter-suc rf n m e own i lo hi = elim (Bool-cases (i == suc m)) [
    | inl same ↦
        subst (λ p. term_at rf p ≡ some rf.current_term) {x = suc m}
          (omega (arith, (==_iff i (suc m)).0 same)) e
    | inr other ↦ own i (ground (arith, ==_iff i (suc m))) hi
  ]

  own_from :
      (rf : Raft C D) (n j i : ℕ)
      → CanCommit rf n j
      → j ≤ i
      → i ≤ n
      → term_at rf i ≡ some rf.current_term
  own_from rf n j i (lo, hi, e, own, many) le less = elim (Bool-cases (i == j)) [
    | inl same ↦
        subst (λ p. term_at rf p ≡ some rf.current_term) {x = j}
          (omega (arith, (==_iff i j).0 same)) e
    | inr other ↦ own i (ground (arith, ==_iff i j)) less
  ]

  -- An entry of another term stops the loop.
  no_commit_below :
      (rf : Raft C D) (n m j : ℕ) {t : ℕ}
      → term_at rf (suc m) ≡ some t
      → (t == rf.current_term) ≡ false
      → suc m ≤ n
      → (suc m < j → ¬ CanCommit rf n j)
      → ¬ CanCommit rf n j
  no_commit_below rf n m j {t} p other le others c = elim (Bool-cases (ltb (suc m) j)) [
    | inl above ↦ others (ltb→lt _ _ above) c
    | inr below ↦
        let own = own_from rf n j (suc m) c (ground arith) le in
        ground (arith, ==_iff t rf.current_term)
  ]

  few_cannot :
      (rf : Raft C D) (n m j : ℕ)
      → ltb (rf.peers / 2) (1 + count_matched rf.me (suc m) 0 rf.match_index) ≡ false
      → m < j
      → (suc m < j → ¬ CanCommit rf n j)
      → ¬ CanCommit rf n j
  few_cannot rf n m j few lt others c = elim (Bool-cases (ltb (suc m) j)) [
    | inl above ↦ others (ltb→lt _ _ above) c
    | inr below ↦
        let at : j ≡ suc m = ground arith in
        let many = HasMajority-counted rf (suc m) (subst (HasMajority rf) at c.4) in
        absurd (ground arith)
  ]

  advance_from-Commits :
      (rf : Raft C D) (n m : ℕ) {rf' : Raft C D}
      → m ≤ n
      → OwnAfter rf n m
      → ((j : ℕ) → m < j → ¬ CanCommit rf n j)
      → advance_from rf m ≡ some rf'
      → Commits rf n rf'
  unfolding advance_from
  advance_from-Commits rf n zero le own others e = inl (cc, λ j c. others j (omega (arith, c.0)) c)
  advance_from-Commits rf n (suc m) le own others e =
      elim (Bool-cases (ltb rf.commit_index (suc m))) [
        | inr done ↦ inl (ground arith, λ j c. others j (ground (arith, c.0)) c)
        | inl open' ↦ elim (Option-cases (term_at rf (suc m))) [
          | inl bad ↦ ground arith
          | inr (t, p) ↦ elim (Bool-cases (t == rf.current_term)) [
            | inr other ↦
                inl (ground arith, λ j c. no_commit_below rf n m j p other le (others j) c)
            | inl mine ↦
                let here : term_at rf (suc m) ≡ some rf.current_term = ground arith in
                elim (Bool-cases
                  (ltb (rf.peers / 2) (1 + count_matched rf.me (suc m) 0 rf.match_index))) [
                    | inl many ↦ inr (
                      suc m,
                      ground arith,
                      (
                        ltb→lt _ _ open',
                        le,
                        here,
                        own,
                        counted-HasMajority rf (suc m) (ltb→lt _ _ many),
                      ),
                      others,
                    )
                    | inr few ↦
                        advance_from-Commits rf n m (omega (arith, le))
                          (OwnAfter-suc rf n m here own)
                          (λ j lt c. few_cannot rf n m j few lt (others j) c) (ground arith)
                  ]
          ]
        ]
      ]

  -- If `advanceCommitIndex` runs to its end, it commits the highest index that is not committed, that
  -- more than half of the peers have by what the leader knows of them, itself counted, and from which
  -- on all entries of its log are of its own term. If there is no such index it changes nothing.
  pub advance_commit_index-Commits :
      (rf rf' : Raft C D) → advance_commit_index rf ≡ some rf' → Commits rf (last_log_index rf) rf'
  unfolding advance_commit_index
  advance_commit_index-Commits rf rf' e =
      let n = last_log_index rf in
      advance_from-Commits rf n n (omega arith) (λ i lo hi. absurd (omega (arith, lo, hi)))
        (λ j lt c. absurd (omega (arith, lt, c.1))) e
