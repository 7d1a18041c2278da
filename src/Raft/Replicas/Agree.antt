-- ===== src/Raft/Replicas/Agree.antt =====
-- Logs that agree with the logs of the leaders, entry by entry.
use mit_distro_sys.Common.{
  ℕ, zero, suc, ◌≤◌, ◌≡◌, refl, sym, ap, ◌∙◌, some, List, [], ◌∷◌, ◌++◌, arith, length, get_elem?,
  take, length-take, get_elem?-lt-length, get_elem?-append_left, drop, ◌-◌, ◌<◌, inl, inr, ltb,
  Bool-cases, get_elem?-append_right,
}
use mathlib.Core.List.{append_assoc}
use mit_distro_sys.Raft.Types.{LogEntry}

module _ {A : Type 0} where
  pub take-append_left : (k : ℕ) (xs ys : List A) → k ≤ length xs → take k (xs ++ ys) ≡ take k xs
  take-append_left zero xs ys le = refl
  take-append_left (suc k) [] ys le = absurd (omega arith)
  take-append_left (suc k) (x ∷ xs) ys le =
      ap (λ zs. x ∷ zs) (take-append_left k xs ys (omega arith))

  pub take-length : (xs : List A) → take (length xs) xs ≡ xs
  take-length [] = refl
  take-length (x ∷ xs) = ap (λ zs. x ∷ zs) (take-length xs)

  take-take : (k n : ℕ) (xs : List A) → k ≤ n → take k (take n xs) ≡ take k xs
  take-take zero n xs le = refl
  take-take (suc k) zero xs le = absurd (omega arith)
  take-take (suc k) (suc n) [] le = refl
  take-take (suc k) (suc n) (x ∷ xs) le = ap (λ zs. x ∷ zs) (take-take k n xs (omega arith))

  -- Lists that agree up to a place agree up to one before it.
  pub take_less : (k n : ℕ) (xs ys : List A) → k ≤ n → take n xs ≡ take n ys → take k xs ≡ take k ys
  take_less k n xs ys le e = sym (take-take k n xs le) ∙ ap (take k) e ∙ take-take k n ys le

  abbrev pub Starts : List A → List A → Type 0
  Starts xs ys = (zs : List A) × (ys ≡ xs ++ zs)

  pub Starts-trans : (xs ys zs : List A) → Starts xs ys → Starts ys zs → Starts xs zs
  Starts-trans xs ys zs (us, e) (vs, f) =
      (us ++ vs, f ∙ ap (λ l. l ++ vs) e ∙ append_assoc xs us vs)

  pub Starts-take : (xs ys : List A) (k : ℕ) → k ≤ length xs → Starts xs ys → take k ys ≡ take k xs
  Starts-take xs ys k le (zs, e) = ap (take k) e ∙ take-append_left k xs zs le

module _ {C : Type 0} where
  -- Whatever entry the log has, it has the log of that entry's leader up to it.
  abbrev pub Agrees : (ℕ → List (LogEntry C)) → List (LogEntry C) → Type 0
  Agrees led log =
      (k : ℕ) (e : LogEntry C)
      → get_elem? log k ≡ some e
      → take (suc k) log ≡ take (suc k) (led e.term)

  pub Agrees-same :
      (led : ℕ → List (LogEntry C)) (xs ys : List (LogEntry C)) (k : ℕ) (x y : LogEntry C)
      → Agrees led xs
      → Agrees led ys
      → get_elem? xs k ≡ some x
      → get_elem? ys k ≡ some y
      → x.term ≡ y.term
      → take (suc k) xs ≡ take (suc k) ys
  Agrees-same led xs ys k x y a b e f same =
      a k x e ∙ ap (λ t. take (suc k) (led t)) same ∙ sym (b k y f)

  pub Agrees-Starts :
      (led : ℕ → List (LogEntry C)) (xs ys : List (LogEntry C))
      → Starts xs ys
      → Agrees led ys
      → Agrees led xs
  Agrees-Starts led xs ys (zs, e) a k x f =
      let lt = get_elem?-lt-length xs k f in
      sym (Starts-take xs ys (suc k) (omega arith) (zs, e))
      ∙ a k x (ap (λ l. get_elem? l k) e ∙ get_elem?-append_left xs zs k lt ∙ f)

  -- A leader's log that grows keeps what agrees with it.
  pub Agrees-grow :
      (led led' : ℕ → List (LogEntry C)) (xs : List (LogEntry C))
      → ((t : ℕ) → Starts (led t) (led' t))
      → Agrees led xs
      → Agrees led' xs
  Agrees-grow led led' xs grow a k x f =
      let e = a k x f in
      let lt = get_elem?-lt-length xs k f in
      let long : suc k ≤ length (led x.term) =
        omega (arith, ap length e, length-take (suc k) xs, length-take (suc k) (led x.term)) in
      e ∙ sym (Starts-take (led x.term) (led' x.term) (suc k) long (grow x.term))

  the_last : (e x : LogEntry C) (i : ℕ) → get_elem? (e ∷ []) i ≡ some x → e ≡ x
  the_last e x zero h = ground arith
  the_last e x (suc i) h = absurd (ground arith)

  -- A leader's log with one more entry, of its own term
  pub Agrees-push :
      (led : ℕ → List (LogEntry C)) (log : List (LogEntry C)) (e : LogEntry C)
      → Agrees led log
      → led e.term ≡ log ++ (e ∷ [])
      → Agrees led (log ++ (e ∷ []))
  Agrees-push led log e a own k x f = elim (Bool-cases (ltb k (length log))) [
    | inl old ↦
        let lt : k < length log = ground arith in
        take-append_left (suc k) log (e ∷ []) (omega arith)
        ∙ a k x (sym (get_elem?-append_left log (e ∷ []) k lt) ∙ f)
    | inr last ↦
        let same : e ≡ x = the_last e x (k - length log) (
          sym (get_elem?-append_right log (e ∷ []) (k - length log))
          ∙ ap (get_elem? (log ++ (e ∷ []))) (ground arith)
          ∙ f) in
        ap (take (suc k)) (sym own ∙ ap (λ (y : LogEntry C). led y.term) same)
  ]

pub take-drop {ℓ} : {A : Type ℓ} (n : ℕ) (xs : List A) → take n xs ++ drop n xs ≡ xs
take-drop zero xs = refl
take-drop (suc n) [] = refl
take-drop (suc n) (x ∷ xs) = ap (λ l. x ∷ l) (take-drop n xs)
