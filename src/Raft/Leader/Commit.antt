-- ===== src/Raft/Leader/Commit.antt =====
-- When a leader moves its commit index (`advanceCommitIndex`).
use mit_distro_sys.Common.{
  ℕ, zero, suc, ◌+◌, ◌/◌, ◌≤◌, ◌<◌, ◌≡◌, ◌⊎◌, inl, inr, true, some, arith, ltb, ◌==◌, ltb→lt,
  Bool-cases, Option-cases,
}
use mit_distro_sys.Raft.Types.{Raft}
use mit_distro_sys.Raft.Log.{last_log_index, term_at}
use mit_distro_sys.Raft.Leader.Count.{HasMajority, counted-HasMajority}
use mit_distro_sys.Raft.Leader.{count_matched, advance_from, advance_commit_index}

module _ {C D : Type 0} where
  abbrev pub committed_to : Raft C D → ℕ → Raft C D
  committed_to rf n = record rf { commit_index = n; apply_ready = true }

  -- What a call may do: nothing, or move to an index of this term that a majority has.
  abbrev pub Advances : Raft C D → ℕ → Raft C D → Type 0
  Advances rf n rf' =
      (rf' ≡ rf)
      ⊎ ((k : ℕ) × (rf' ≡ committed_to rf k)
          × (rf.commit_index < k)
          × (k ≤ n)
          × (term_at rf k ≡ some rf.current_term)
          × HasMajority rf k)

  Advances-suc :
      (rf : Raft C D) (n : ℕ) {rf' : Raft C D} → Advances rf n rf' → Advances rf (suc n) rf'
  Advances-suc rf n (inl same) = inl same
  Advances-suc rf n (inr (k, e, lo, hi, t, m)) = inr (k, e, lo, omega arith, t, m)

  advance_from-Advances :
      (rf : Raft C D) (n : ℕ) {rf' : Raft C D} → advance_from rf n ≡ some rf' → Advances rf n rf'
  unfolding advance_from
  advance_from-Advances rf zero e = inl (cc)
  advance_from-Advances rf (suc n) e = elim (Bool-cases (ltb rf.commit_index (suc n))) [
    | inr done ↦ inl (ground arith)
    | inl open' ↦ elim (Option-cases (term_at rf (suc n))) [
      | inl bad ↦ ground arith
      | inr (t, p) ↦ elim (Bool-cases (t == rf.current_term)) [
        | inr other ↦ inl (ground arith)
        | inl mine ↦
            elim (Bool-cases
              (ltb (rf.peers / 2) (1 + count_matched rf.me (suc n) 0 rf.match_index))) [
                | inl many ↦ inr (
                  suc n,
                  ground arith,
                  ltb→lt _ _ open',
                  omega arith,
                  ground arith,
                  counted-HasMajority rf (suc n) (ltb→lt _ _ many),
                )
                | inr few ↦ Advances-suc rf n (advance_from-Advances rf n (ground arith))
              ]
      ]
    ]
  ]

  -- A leader commits an index only if the entry there is of its own term and it knows of enough
  -- other peers, no one named twice, that have it to make more than half with itself; and the commit index never moves backwards.
  pub advance_commit_index-Advances :
      (rf rf' : Raft C D) → advance_commit_index rf ≡ some rf' → Advances rf (last_log_index rf) rf'
  unfolding advance_commit_index
  advance_commit_index-Advances rf rf' e = advance_from-Advances rf (last_log_index rf) e
