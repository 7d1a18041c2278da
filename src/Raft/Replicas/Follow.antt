-- ===== src/Raft/Replicas/Follow.antt =====
-- A log that agrees with the leaders' does so after entries of a leader were merged into it.
use mit_distro_sys.Common.{
  ℕ, suc, ◌+◌, ◌≡◌, sym, ap, ◌∙◌, subst, inl, inr, some, List, [], ◌∷◌, ◌++◌, arith, length,
  get_elem?, take, length-append, get_elem?_total, get_elem?-append_left, get_elem?-append_right,
}
use mathlib.Core.List.{append-nil, append_assoc}
use mit_distro_sys.Raft.Types.{LogEntry}
use mit_distro_sys.Raft.Replicas.Agree.{
  Starts, Agrees, take-length, Starts-trans, Starts-take, Agrees-same, Agrees-Starts,
}
use mit_distro_sys.Raft.Replicas.Splice.{SameTerms, Spliced}

module _ {C : Type 0} where
  -- The last entry before the cut has the same term in both.
  last_same :
      (old pre front : List (LogEntry C)) (p : ℕ) (x y : LogEntry C)
      → length pre ≡ suc p
      → get_elem? old p ≡ some x
      → get_elem? pre p ≡ some y
      → x.term ≡ y.term
      → SameTerms old (suc p) front
      → (a : LogEntry C) × (b : LogEntry C) × (get_elem? old (p + length front) ≡ some a)
        × (get_elem? (pre ++ front) (p + length front) ≡ some b)
        × (a.term ≡ b.term)
  last_same old pre [] p x y n h k same terms = (
    x,
    y,
    ap (get_elem? old) (omega arith) ∙ h,
    get_elem?-append_left pre [] (p + 0) (omega arith) ∙ ap (get_elem? pre) (omega arith) ∙ k,
    same,
  )
  last_same old pre (f ∷ fs) p x y n h k same terms =
      let (e, r) = get_elem?_total (f ∷ fs) (length fs) (omega arith) in
      let (z, u, v) = terms (length fs) e r in
      (
        z,
        e,
        ap (get_elem? old) (omega arith) ∙ u,
        ap (get_elem? (pre ++ (f ∷ fs))) (omega arith)
            ∙ get_elem?-append_right pre (f ∷ fs) (length fs)
            ∙ r,
        v,
      )

  pub Spliced-Agrees :
      (led : ℕ → List (LogEntry C)) (old pre es long : List (LogEntry C)) (p : ℕ) (x y : LogEntry C)
      (m : List (LogEntry C) × List (LogEntry C))
      → length pre ≡ suc p
      → get_elem? old p ≡ some x
      → get_elem? pre p ≡ some y
      → x.term ≡ y.term
      → Spliced old (suc p) es m
      → Agrees led old
      → Agrees led long
      → Starts (pre ++ es) long
      → Agrees led (m.0 ++ m.1)
  Spliced-Agrees led old pre es long p x y m n h k same (inl (kept, nothing)) a b st =
      subst (Agrees led)
        (sym (ap (λ l. l ++ m.1) kept ∙ ap (λ l. old ++ l) nothing ∙ append-nil old)) a
  Spliced-Agrees led old pre es long p x y m n h k same (inr (front, split, le, cut, terms)) a b
        st =
      let (u, v, r, q, t) = last_same old pre front p x y n h k same terms in
      let whole : (pre ++ front) ++ m.1 ≡ pre ++ es =
        append_assoc pre front m.1 ∙ ap (λ l. pre ++ l) (sym split) in
      let begins : Starts (pre ++ front) long =
        Starts-trans (pre ++ front) (pre ++ es) long (m.1, sym whole) st in
      let size : length (pre ++ front) ≡ suc (p + length front) =
        omega (arith, length-append pre front) in
      let in_long : get_elem? long (p + length front) ≡ some v =
        ap (λ l. get_elem? l (p + length front)) begins.1
        ∙ get_elem?-append_left (pre ++ front) begins.0 (p + length front) (omega arith)
        ∙ q in
      let top : take (suc (p + length front)) old ≡ pre ++ front =
        Agrees-same led old long (p + length front) u v a b r in_long t
        ∙ Starts-take (pre ++ front) long (suc (p + length front)) (omega arith) begins
        ∙ ap (λ i. take i (pre ++ front)) (sym size)
        ∙ take-length (pre ++ front) in
      let new : m.0 ++ m.1 ≡ pre ++ es =
        ap (λ l. l ++ m.1)
          (cut ∙ ap (λ i. take i old) {y = suc (p + length front)} (omega arith) ∙ top)
        ∙ whole in
      subst (Agrees led) (sym new) (Agrees-Starts led (pre ++ es) long st b)
