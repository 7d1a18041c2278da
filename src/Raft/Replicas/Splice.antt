-- ===== src/Raft/Replicas/Splice.antt =====
-- What the entries of a message do to a log that holds the entry before them.
use mit_distro_sys.Raft.Replicas.Agree.{take-length}
use mit_distro_sys.Common.{
  ℕ, zero, suc, ◌+◌, ◌≤◌, ◌<◌, ◌≡◌, refl, ap, ◌∙◌, ◌⊎◌, inl, inr, some, List, [], ◌∷◌, ◌++◌, arith,
  length, get_elem?, take, sym, ltb, ◌==◌, ==_iff, Bool-cases, >>=-eq-some, get_elem?-lt-length,
  subst,
}
use mit_distro_sys.Raft.Types.{Raft, LogEntry}
use mit_distro_sys.Raft.Log.{last_log_index, slice_index}
use mit_distro_sys.Raft.Append.{merge}

module _ {C : Type 0} where
  -- The entries `es` stand in the log from place j on, as far as their terms go.
  abbrev pub SameTerms : List (LogEntry C) → ℕ → List (LogEntry C) → Type 0
  SameTerms log j es =
      (i : ℕ) (e : LogEntry C)
      → get_elem? es i ≡ some e
      → (x : LogEntry C) × (get_elem? log (j + i) ≡ some x) × (x.term ≡ e.term)

  -- Either all entries were there, or the log was cut after those that were.
  abbrev pub Spliced :
      List (LogEntry C) → ℕ → List (LogEntry C) → List (LogEntry C) × List (LogEntry C) → Type 0
  Spliced log j es m =
      ((m.0 ≡ log) × (m.1 ≡ []))
      ⊎ ((front : List (LogEntry C)) × (es ≡ front ++ m.1)
          × (j + length front ≤ length log)
          × (m.0 ≡ take (j + length front) log)
          × SameTerms log j front)

  Spliced-here :
      (log : List (LogEntry C)) (j : ℕ) (es : List (LogEntry C))
      → j ≤ length log
      → Spliced log j es (take j log, es)
  Spliced-here log j es le =
      inr
        ([], refl, omega arith, ap (λ k. take k log) (omega arith), λ i e h. absurd (ground arith))

  Spliced-cons :
      (log : List (LogEntry C)) (j : ℕ) (e x : LogEntry C) (es : List (LogEntry C))
      (m : List (LogEntry C) × List (LogEntry C))
      → get_elem? log j ≡ some x
      → x.term ≡ e.term
      → Spliced log (j + 1) es m
      → Spliced log j (e ∷ es) m
  Spliced-cons log j e x es m h same (inl all) = inl all
  Spliced-cons log j e x es m h same (inr (front, p, le, q, terms)) =
      inr (e ∷ front, ap (λ l. e ∷ l) p, omega arith, q ∙ ap (λ k. take k log) (omega arith), at)
    where
      at : SameTerms log j (e ∷ front)
      at zero f r = (x, ap (get_elem? log) (omega arith) ∙ h, cc)
      at (suc i) f r = let (y, u, v) = terms i f r in (y, ap (get_elem? log) (omega arith) ∙ u, v)

pub of_some {ℓ} : {A : Type ℓ} {a b : A} → some a ≡ some b → a ≡ b
of_some e = ground arith

module _ {C D : Type 0} where
  pub merge-Spliced :
      (rf : Raft C D) (j : ℕ) (es : List (LogEntry C)) {m : List (LogEntry C) × List (LogEntry C)}
      → rf.last_included_index ≡ 0
      → 0 < length rf.log
      → j ≤ length rf.log
      → merge rf j es ≡ some m
      → Spliced rf.log j es m
  unfolding merge last_log_index slice_index
  merge-Spliced rf j [] {m} z pos le e = inl (ground arith, ground arith)
  merge-Spliced rf j (x ∷ es) {m} z pos le e = elim (Bool-cases (ltb (last_log_index rf) j)) [
    | inl past ↦
        let same : some (rf.log, x ∷ es) ≡ some m = simp past at e in
        let end : j ≡ length rf.log = ground arith in
        let whole : take j rf.log ≡ rf.log = ap (λ k. take k rf.log) end ∙ take-length rf.log in
        subst (Spliced rf.log j (x ∷ es)) (of_some (ap (λ l. some (l, x ∷ es)) whole ∙ same))
          (Spliced-here rf.log j (x ∷ es) le)
    | inr inside ↦
        let (k, p, q) = >>=-eq-some (slice_index rf j) _ (simp inside at e) in
        let (y, r, t) = >>=-eq-some (get_elem? rf.log k) _ q in
        let here : get_elem? rf.log j ≡ some y = ap (get_elem? rf.log) (ground arith) ∙ r in
        elim (Bool-cases (x.term == y.term)) [
          | inl same ↦ Spliced-cons rf.log j x y es m here (sym ((==_iff x.term y.term).0 same)) (
              merge-Spliced rf (j + 1) es z pos (ground (arith, get_elem?-lt-length rf.log j here))
                (simp same at t))
          | inr other ↦
              let cut : some (take k rf.log, x ∷ es) ≡ some m = simp other at t in
              let at : k ≡ j = ground arith in
              subst (Spliced rf.log j (x ∷ es))
                (of_some (ap (λ n. some (take n rf.log, x ∷ es)) (sym at) ∙ cut))
                (Spliced-here rf.log j (x ∷ es) le)
        ]
  ]
