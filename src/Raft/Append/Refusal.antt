-- ===== src/Raft/Append/Refusal.antt =====
-- What the conflict index and term of a refused AppendEntries say.
use mit_distro_sys.Common.{
  ℕ, zero, suc, ◌≤◌, ◌<◌, ◌≡◌, sym, subst₂, ◌≢◌, inl, inr, false, some, arith, ltb, ◌==◌, ==_iff,
  Bool-cases, >>=-eq-some, ◌+◌, ap, ◌∙◌, lt→ltb, ==_refl, ◌>>=◌,
}
use mit_distro_sys.Raft.Types.{Raft, AppendEntriesArgs}
use mit_distro_sys.Raft.Log.{last_log_index, term_at}
use mit_distro_sys.Raft.Append.{Verdict, check_prev, back_up}

module _ {C D : Type 0} where
  -- Every entry after `c` up to `i` has the term.
  abbrev pub AllOfTerm : Raft C D → ℕ → ℕ → ℕ → Type 0
  AllOfTerm rf t c i = (k : ℕ) → c < k → k ≤ i → term_at rf k ≡ some t

  -- The walk passes over entries of the term only, and at least the first that it looks at.
  back_up-AllOfTerm :
      (rf : Raft C D) (t i : ℕ) {c : ℕ} → back_up rf t i ≡ some c → (c ≤ i) × AllOfTerm rf t c i
  unfolding back_up
  back_up-AllOfTerm rf t zero {c} e =
      let z : zero ≡ c = ground arith in (omega (arith, z), λ k h g. absurd (omega arith))
  back_up-AllOfTerm rf t (suc i) {c} e = elim (Bool-cases (ltb rf.last_included_index (suc i))) [
    | inl above ↦
        let (x, p, q) = >>=-eq-some (term_at rf (suc i)) _ (rw above at e) in
        elim (Bool-cases (x == t)) [
          | inl same ↦
              let (le, all) = back_up-AllOfTerm rf t i (rw same at q) in
              (
                omega (arith, le),
                λ k h g. elim (Bool-cases (k == suc i)) [
                  | inl here ↦
                      subst₂ (λ a b. term_at rf a ≡ some b) (sym ((==_iff k (suc i)).0 here))
                        ((==_iff x t).0 same) p
                  | inr before ↦ all k h (ground arith)
                ],
              )
          | inr other ↦
              let z : suc i ≡ c = (let f = rw other at q in ground arith) in
              (omega (arith, z), λ k h g. absurd (omega arith))
        ]
    | inr below ↦
        let z : suc i ≡ c = (let f = rw below at e in ground arith) in
        (omega (arith, z), λ k h g. absurd (omega arith))
  ]

  back_up_below :
      (rf : Raft C D) (t i : ℕ) {c : ℕ}
      → rf.last_included_index < i
      → term_at rf i ≡ some t
      → back_up rf t i ≡ some c
      → c < i
  unfolding back_up
  back_up_below rf t zero h p e = absurd (omega (arith, h))
  back_up_below rf t (suc i) h p e =
      let (le, all) = back_up-AllOfTerm rf t i (rw (lt→ltb _ _ h, p, ◌>>=◌, ==_refl t) at e) in
      omega (arith, le)

  -- A refusal that names a term, at a previous index that is not in the snapshot, is for an entry at
  -- that index with that term, not the one asked for. The conflict index is not after the previous
  -- index, and every entry from the one to the other has the term.
  pub check_prev-AllOfTerm :
      (rf : Raft C D) (args : AppendEntriesArgs C) (v : Verdict) (t : ℕ)
      → check_prev rf args ≡ some v
      → v.success ≡ false
      → v.conflict_term ≡ some t
      → rf.last_included_index < args.prev_log_index
      → (term_at rf args.prev_log_index ≡ some t)
        × (t ≢ args.prev_log_term)
        × (v.conflict_index ≤ args.prev_log_index)
        × ((k : ℕ) → v.conflict_index ≤ k → k ≤ args.prev_log_index → term_at rf k ≡ some t)
  unfolding check_prev
  check_prev-AllOfTerm rf args v t e bad named inside =
      elim (Bool-cases (ltb args.prev_log_index rf.last_included_index)) [
        | inl cut ↦ absurd (ground arith)
        | inr kept ↦ elim (Bool-cases (ltb (last_log_index rf) args.prev_log_index)) [
          | inl short ↦ absurd (ground arith)
          | inr long ↦
              let (x, p, q) =
                >>=-eq-some (term_at rf args.prev_log_index) _ (simp (kept, long) at e) in
              elim (Bool-cases (x == args.prev_log_term)) [
                | inl same ↦ absurd (ground arith)
                | inr other ↦
                    let (c, r, s) =
                      >>=-eq-some (back_up rf x args.prev_log_index) _ (simp other at q) in
                    let found : x ≡ t = ground arith in
                    let from : c + 1 ≡ v.conflict_index = ground arith in
                    let low = back_up_below rf x args.prev_log_index inside p r in
                    let (le, all) = back_up-AllOfTerm rf x args.prev_log_index r in
                    (
                      p ∙ ap some found,
                      λ f. absurd (ground arith),
                      omega arith,
                      λ k h g. all k (omega arith) g ∙ ap some found,
                    )
              ]
        ]
      ]
