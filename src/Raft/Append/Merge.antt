-- ===== src/Raft/Append/Merge.antt =====
-- What a follower's log is after the leader's entries were merged into it.
use mit_distro_sys.Raft.Log.{last_log_index, slice_index}
use mit_distro_sys.Common.{
  ℕ, zero, suc, ◌+◌, ◌≤◌, ◌<◌, ◌≡◌, refl, ◌∙◌, subst, some, List, [], ◌∷◌, ◌++◌, arith, length,
  get_elem?, take, length-take, get_elem?-append_left, get_elem?-append_right, get_elem?-take, sym,
  ap, inl, inr, true, false, ltb, ◌==◌, ==_iff, Bool-cases, get_elem?_total,
}
use mathlib.Core.List.{append-nil}
use mit_distro_sys.Raft.Types.{Raft, LogEntry}
use mit_distro_sys.Raft.Append.{merge}

module _ {C : Type 0} where
  -- `new` agrees with `old` before the place `s`, and from there on has the terms of the entries.
  pub record Merged (old es new : List (LogEntry C)) (s : ℕ) : Type 0 where
    pub keeps : (i : ℕ) → i < s → get_elem? new i ≡ get_elem? old i
    pub has_terms :
        (k : ℕ) (e : LogEntry C)
        → get_elem? es k ≡ some e
        → (x : LogEntry C) × (get_elem? new (s + k) ≡ some x) × (x.term ≡ e.term)

  Merged-take :
      (old es : List (LogEntry C)) (s : ℕ) → s ≤ length old → Merged old es (take s old ++ es) s
  Merged-take old es s le =
      let len : length (take s old) ≡ s = omega (arith, length-take s old) in
      record {
        keeps = λ i lt.
            get_elem?-append_left (take s old) es i (omega arith) ∙ get_elem?-take s i old lt;
        has_terms = λ k e p. (
          e,
          subst (λ n. get_elem? (take s old ++ es) (n + k) ≡ some e) len
              (get_elem?-append_right (take s old) es k ∙ p),
          refl,
        );
      }

  -- One entry that the log has already, before a merge of the others.
  Merged-cons :
      (old es new : List (LogEntry C)) (e x : LogEntry C) (s : ℕ)
      → get_elem? old s ≡ some x
      → x.term ≡ e.term
      → Merged old es new (s + 1)
      → Merged old (e ∷ es) new s
  Merged-cons old es new e x s p q m = record {
    keeps = λ i lt. m.keeps i (omega arith);
    has_terms = λ k f r. at k f r;
  }
    where
      at :
          (k : ℕ) (f : LogEntry C)
          → get_elem? (e ∷ es) k ≡ some f
          → (y : LogEntry C) × (get_elem? new (s + k) ≡ some y) × (y.term ≡ f.term)
      at zero f r =
          (x, subst (λ n. get_elem? new n ≡ some x) (omega arith) (m.keeps s (omega arith) ∙ p), cc)
      at (suc k) f r =
          let (y, u, v) = m.has_terms k f r in
          (y, subst (λ n. get_elem? new n ≡ some y) (omega arith) u, v)

take_all {ℓ} : {A : Type ℓ} (xs : List A) → take (length xs) xs ≡ xs
take_all [] = refl
take_all (x ∷ xs) = rw (take_all xs)

module _ {C D : Type 0} (rf : Raft C D) (nonempty : 0 < length rf.log) where
  pub merge-Merged :
      (s : ℕ) (es : List (LogEntry C)) {m : List (LogEntry C) × List (LogEntry C)}
      → s ≤ length rf.log
      → merge rf (s + rf.last_included_index) es ≡ some m
      → Merged rf.log es (m.0 ++ m.1) s
  unfolding merge
  merge-Merged s [] {m} le p =
      let q : (rf.log, []) ≡ m = cc in
      subst (λ (r : List (LogEntry C) × List (LogEntry C)). Merged rf.log [] (r.0 ++ r.1) s) q
        (record {
          keeps = λ i lt. ap (λ l. get_elem? l i) (append-nil rf.log);
          has_terms = λ k f r. ground arith;
        })
  merge-Merged s (e ∷ es) {m} le p = elim (Bool-cases (ltb (last_log_index rf) j)) [
    | inl past ↦
        let q : (rf.log, e ∷ es) ≡ m = let r = simp past at p in cc in
        subst (λ (r : List (LogEntry C) × List (LogEntry C)). Merged rf.log (e ∷ es) (r.0 ++ r.1) s)
          q
          (subst (λ l. Merged rf.log (e ∷ es) (l ++ (e ∷ es)) s) (all_of past)
            (Merged-take rf.log (e ∷ es) s le))
    | inr inside ↦
        let (x, g) = get_elem?_total rf.log s (room inside) in
        elim (Bool-cases (e.term == x.term)) [
          | inl same ↦
              Merged-cons rf.log es (m.0 ++ m.1) e x s g (sym ((==_iff e.term x.term).0 same)) (
                merge-Merged (s + 1) es (unfold last_log_index in ground arith) (
                  subst (λ n. merge rf n es ≡ some m) (omega arith)
                    (simp (inside, slice, g, same) at p)))
          | inr other ↦
              let q : (take s rf.log, e ∷ es) ≡ m =
                let r = simp (inside, slice, g, other) at p in cc in
              subst
                (λ (r : List (LogEntry C) × List (LogEntry C)).
                  Merged rf.log (e ∷ es) (r.0 ++ r.1) s)
                q (Merged-take rf.log (e ∷ es) s le)
        ]
  ]
    where
      j : ℕ
      j = s + rf.last_included_index

      slice : slice_index rf j ≡ some s
      slice = unfold slice_index in ground arith

      all_of : ltb (last_log_index rf) j ≡ true → take s rf.log ≡ rf.log
      all_of past =
          subst (λ n. take n rf.log ≡ rf.log) {x = length rf.log}
            (unfold last_log_index in ground arith) (take_all rf.log)

      room : ltb (last_log_index rf) j ≡ false → s < length rf.log
      room inside = unfold last_log_index in ground arith
