-- ===== src/Raft/Leader/BackOff.antt =====
-- A leader goes back after a refusal.
use mit_distro_sys.Common.{
  ℕ, zero, suc, ◌≤◌, ◌≡◌, sym, ap, ◌∙◌, ◌≢◌, ◌⊎◌, inl, inr, ◌&&◌, Option, none, some, arith, leb,
  ◌==◌, ==_iff, Bool-cases, Option-cases, >>=-eq-some,
}
use mit_distro_sys.Raft.Types.{Raft, AppendEntriesReply}
use mit_distro_sys.Raft.Log.{term_at}
use mit_distro_sys.Raft.Leader.{probe, find_term, next_after}

module _ {C D : Type 0} where
  probe-cases :
      (rf : Raft C D) (t first j : ℕ) (rest : Option (Option ℕ)) {n : ℕ}
      → probe rf t first j rest ≡ some (some n)
      → ((n ≡ suc j) × (term_at rf j ≡ some t)) ⊎ (rest ≡ some (some n))
  unfolding probe
  probe-cases rf t first j rest {n} e =
      elim (Bool-cases (leb rf.last_included_index j && leb first j)) [
        | inl y ↦
            let (x, p, q) = >>=-eq-some (term_at rf j) _ (simp y at e) in
            elim (Bool-cases (x == t)) [
              | inl same ↦
                  let z : suc j ≡ n = (let f = rw same at q in ground arith) in
                  inl (sym z, p ∙ ap some ((==_iff x t).0 same))
              | inr other ↦ inr (rw other at q)
            ]
        | inr t ↦ absurd (let f = simp t at e in ground arith)
      ]

  find_term-le :
      (rf : Raft C D) (t first j : ℕ) {n : ℕ} → find_term rf t first j ≡ some (some n) → n ≤ suc j
  unfolding find_term
  find_term-le rf t first zero e = elim (probe-cases rf t first zero (some none) e) [
    | inl (h, p) ↦ omega (arith, h)
    | inr h ↦ absurd (ground arith)
  ]
  find_term-le rf t first (suc j) e =
      elim (probe-cases rf t first (suc j) (find_term rf t first j) e) [
        | inl (h, p) ↦ omega (arith, h)
        | inr h ↦ omega (arith, find_term-le rf t first j h)
      ]

  find_term-lt :
      (rf : Raft C D) (t first j u : ℕ) {n : ℕ}
      → term_at rf j ≡ some u
      → u ≢ t
      → find_term rf t first j ≡ some (some n)
      → n ≤ j
  unfolding find_term
  find_term-lt rf t first zero u p h e = elim (probe-cases rf t first zero (some none) e) [
    | inl (k, q) ↦ absurd (ground arith)
    | inr k ↦ absurd (ground arith)
  ]
  find_term-lt rf t first (suc j) u p h e =
      elim (probe-cases rf t first (suc j) (find_term rf t first j) e) [
        | inl (k, q) ↦ absurd (ground arith)
        | inr k ↦ find_term-le rf t first j k
      ]

  -- After a refusal that names another term than the one the leader has at the previous index, and
  -- an index not after it, the next index is not after the previous one.
  pub next_after-le :
      (rf : Raft C D) (prev u t n : ℕ) (reply : AppendEntriesReply)
      → term_at rf prev ≡ some u
      → reply.conflict_term ≡ some t
      → t ≢ u
      → reply.conflict_index ≤ prev
      → next_after rf prev reply ≡ some n
      → n ≤ prev
  unfolding next_after
  next_after-le rf prev u t n reply p named h c e =
      let (found, q, r) =
        >>=-eq-some (find_term rf t reply.conflict_index prev) _ (simp (named, next_after) at e) in
      elim (Option-cases found) [
        | inl none' ↦ ground arith
        | inr (m, s) ↦
            let z : m ≡ n = (let f = simp s at r in ground arith) in
            omega (
              arith,
              z,
              find_term-lt rf t reply.conflict_index prev u p (λ x. h (sym x)) (q ∙ ap some s),
            )
      ]
