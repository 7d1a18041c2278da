-- ===== src/Raft/Replicas/Wins.antt =====
-- A candidate becomes leader, and a leader takes a command.
use mathlib.Core.List.{append-nil}
use mit_distro_sys.Common.{
  ℕ, zero, suc, ◌<◌, ◌≡◌, refl, sym, ap, ◌∙◌, subst, ◌⊎◌, inl, inr, true, false, some, List, [],
  ◌∷◌, ◌++◌, arith, ◌==◌, ==_iff, ==_refl, Bool-cases, update, ◌≤◌,
}
use mit_distro_sys.Raft.Types.{Raft, LogEntry, is_leader, is_candidate}
use mit_distro_sys.Raft.Replicas.{Packet}
use mit_distro_sys.Raft.Replicas.Agree.{Agrees, Starts, Agrees-grow, Agrees-push}
use mit_distro_sys.Raft.Replicas.Roles.{Elects}
use mit_distro_sys.Raft.Replicas.Calm.{Unmoved}
use mit_distro_sys.Raft.Replicas.Holds.{IsInPlace, IsMatched, IsMatched-move, WonBy}
use mit_distro_sys.Raft.Replicas.Places.{leader_candidate}

module _ {C D : Type 0} (n i : ℕ) (peers : ℕ → Raft C D) (elected : List (ℕ × ℕ))
    (sent : List (Packet C)) (led : ℕ → List (LogEntry C)) where
  -- No two peers win a term.
  abbrev pub Unique : List (ℕ × ℕ) → Type 0
  Unique wins = (t c d : ℕ) → WonBy wins t c → WonBy wins t d → c ≡ d

  module _ (rf' : Raft C D) (lt : i < n) (m : IsMatched n peers elected sent led)
      (wins : Elects (peers i) rf') (was : is_leader (peers i).state ≡ false)
      (is_now : is_leader rf'.state ≡ true)
      (unique : Unique ((rf'.current_term, i) ∷ elected)) where
    now_led : ℕ → List (LogEntry C)
    now_led = update led rf'.current_term rf'.log

    now_won : List (ℕ × ℕ)
    now_won = (rf'.current_term, i) ∷ elected

    before : IsInPlace elected led i (peers i)
    before = m.in_place i lt

    same_term : rf'.current_term ≡ (peers i).current_term
    same_term = (wins.leads is_now).0

    was_candidate : is_candidate (peers i).state ≡ true
    was_candidate = elim (wins.leads is_now).1 [
      | inl leads ↦ absurd (ground arith)
      | inr runs ↦ runs
    ]

    fresh_term : led rf'.current_term ≡ []
    fresh_term =
        let (pos, never) = before.not_again was_candidate in
        elim (m.known rf'.current_term (omega (arith, same_term))) [
          | inl nothing ↦ nothing
          | inr (c, less, (j, e)) ↦
              let same : c ≡ i = unique rf'.current_term c i (suc j, e) (0, refl) in
              absurd (
                never (
                  subst (λ t. WonBy elected t i) same_term
                    (subst (λ k. WonBy elected rf'.current_term k) same (j, e))))
        ]

    grows : (t : ℕ) → Starts (led t) (now_led t)
    unfolding now_led
    grows t = elim (Bool-cases (rf'.current_term == t)) [
      | inl same ↦ rw same (
        rf'.log,
        ap (λ l. l ++ rf'.log)
            (sym (ap led (sym ((==_iff rf'.current_term t).0 same)) ∙ fresh_term)),
      )
      | inr other ↦ rw other ([], sym (append-nil (led t)))
    ]

    log-Agrees : Agrees now_led rf'.log
    log-Agrees =
        Agrees-grow led now_led rf'.log grows (subst (Agrees led) (sym wins.same_log) before.agrees)

    pub win-IsMatched :
        IsMatched n
          (update peers i rf')
          ((rf'.current_term, i) ∷ elected)
          sent
          (update led rf'.current_term rf'.log)
    unfolding now_led now_won
    win-IsMatched =
        IsMatched-move n i peers rf' elected now_won sent led now_led m grows
          (λ t c won. (suc won.0, won.1)) only
          (λ t. elim (Bool-cases (rf'.current_term == t)) [
            | inl same ↦ rw same log-Agrees
            | inr other ↦ rw other (Agrees-grow led now_led (led t) grows (m.leaders t))
          ])
          (λ t pos. elim (Bool-cases (rf'.current_term == t)) [
            | inl same ↦
                inr (i, lt, (0, ap (λ k. some (k, i)) ((==_iff rf'.current_term t).0 same)))
            | inr other ↦ inl (rw other refl)
          ])
          (λ j less ne h. elim (Bool-cases (rf'.current_term == (peers j).current_term)) [
            | inl same ↦
                let (k, e) = ((m.in_place j less).leading h).1 in
                let twice : j ≡ i =
                  unique (peers j).current_term j i (suc k, e)
                    (
                      0,
                      ap (λ t. some (t, i))
                          ((==_iff rf'.current_term (peers j).current_term).0 same),
                    ) in
                absurd (ground arith)
            | inr other ↦ rw other refl
          ])
          (record {
            base = wins.same_base ∙ before.base;
            agrees = log-Agrees;
            leading = λ h. (rw (==_refl rf'.current_term) refl, (0, refl));
            won_before = won_by_now;
            not_again = λ h. absurd (leader_candidate rf'.state is_now h);
          })
      where
        only : (t c : ℕ) → WonBy now_won t c → (c ≡ i) ⊎ WonBy elected t c
        only t c (zero, e) = inl (ground arith)
        only t c (suc j, e) = inr (j, e)

        won_by_now : (t : ℕ) → WonBy now_won t i → t ≤ rf'.current_term
        won_by_now t (zero, e) = ground arith
        won_by_now t (suc j, e) = omega (arith, before.won_before t (j, e), same_term)

  module _ (rf' : Raft C D) (e : LogEntry C) (lt : i < n) (m : IsMatched n peers elected sent led)
      (still : Unmoved (peers i) rf') (log : rf'.log ≡ (peers i).log ++ (e ∷ []))
      (own : e.term ≡ (peers i).current_term) (leads : is_leader (peers i).state ≡ true)
      (unique : Unique elected) where
    longer : ℕ → List (LogEntry C)
    longer = update led (peers i).current_term rf'.log

    here : IsInPlace elected led i (peers i)
    here = m.in_place i lt

    start-Starts : (t : ℕ) → Starts (led t) (longer t)
    unfolding longer
    start-Starts t = elim (Bool-cases ((peers i).current_term == t)) [
      | inl same ↦ rw same (
        e ∷ [],
        log
            ∙ ap (λ l. l ++ (e ∷ []))
                (sym (here.leading leads).0 ∙ ap led ((==_iff (peers i).current_term t).0 same)),
      )
      | inr other ↦ rw other ([], sym (append-nil (led t)))
    ]

    start-Agrees : Agrees longer rf'.log
    unfolding longer
    start-Agrees = subst (Agrees longer) (sym log) (
        Agrees-push longer (peers i).log e
          (Agrees-grow led longer (peers i).log start-Starts here.agrees)
          (ap longer own ∙ rw (==_refl (peers i).current_term) log))

    pub submit-IsMatched :
        IsMatched n (update peers i rf') elected sent (update led (peers i).current_term rf'.log)
    unfolding longer
    submit-IsMatched =
        IsMatched-move n i peers rf' elected elected sent led longer m start-Starts (λ t c won. won)
          (λ t c won. inr won)
          (λ t. elim (Bool-cases ((peers i).current_term == t)) [
            | inl same ↦ rw same start-Agrees
            | inr other ↦ rw other (Agrees-grow led longer (led t) start-Starts (m.leaders t))
          ])
          (λ t pos. elim (Bool-cases ((peers i).current_term == t)) [
            | inl same ↦ inr (
              i,
              lt,
              subst (λ k. WonBy elected k i) ((==_iff (peers i).current_term t).0 same)
                  (here.leading leads).1,
            )
            | inr other ↦ inl (rw other refl)
          ])
          (λ j less ne h. elim (Bool-cases ((peers i).current_term == (peers j).current_term)) [
            | inl same ↦
                let won = ((m.in_place j less).leading h).1 in
                let twice : i ≡ j =
                  unique (peers j).current_term i j
                    (subst (λ k. WonBy elected k i)
                      ((==_iff (peers i).current_term (peers j).current_term).0 same)
                      (here.leading leads).1)
                    won in
                absurd (ground (arith, ==_iff i j))
            | inr other ↦ rw other refl
          ])
          (record {
            base = still.0 ∙ here.base;
            agrees = start-Agrees;
            leading = λ h. (
              ap (update led (peers i).current_term rf'.log) still.1
                  ∙ rw (==_refl (peers i).current_term) refl,
              subst (λ t. WonBy elected t i) (sym still.1) (here.leading leads).1,
            );
            won_before = λ t won. omega (arith, still.1, here.won_before t won);
            not_again = λ h. absurd (leader_candidate rf'.state (ap is_leader still.2 ∙ leads) h);
          })
