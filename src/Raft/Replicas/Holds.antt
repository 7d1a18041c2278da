-- ===== src/Raft/Replicas/Holds.antt =====
-- What holds of the replicas: every log agrees with the logs of the leaders.
use mit_distro_sys.Common.{
  ℕ, ◌≤◌, ◌<◌, ◌≡◌, refl, sym, ◌∙◌, subst, ◌≢◌, ◌⊎◌, inl, inr, true, false, some, List, [], arith,
  ◌==◌, ==_iff, Bool-cases, update, get_elem?, AllOf, AllOf-imp,
}
use mathlib.Core.List.{append-nil}
use mit_distro_sys.Raft.Types.{Raft, LogEntry, is_leader, is_candidate}
use mit_distro_sys.Raft.Replicas.{Packet}
use mit_distro_sys.Raft.Replicas.Agree.{Agrees, Starts, Starts-trans, Agrees-grow}
use mit_distro_sys.Raft.Replicas.Messages.{Made}

abbrev pub WonBy : List (ℕ × ℕ) → ℕ → ℕ → Type 0
WonBy elected t c = (j : ℕ) × (get_elem? elected j ≡ some (t, c))

module _ {C : Type 0} where
  -- The message was made from a beginning of the log of its term's leader, for another peer.
  abbrev pub Fitting : List (ℕ × ℕ) → (ℕ → List (LogEntry C)) → Packet C → Type 0
  Fitting elected led p =
      (log : List (LogEntry C)) × (src : ℕ) × Starts log (led p.args.term)
      × Made log p.args
      × WonBy elected p.args.term src
      × (src ≢ p.dest)

  Fitting-grow :
      (elected elected' : List (ℕ × ℕ)) (led led' : ℕ → List (LogEntry C))
      → ((t : ℕ) → Starts (led t) (led' t))
      → ((t c : ℕ) → WonBy elected t c → WonBy elected' t c)
      → (p : Packet C) → Fitting elected led p
      → Fitting elected' led' p
  Fitting-grow elected elected' led led' grow more p (log, src, st, made, won, ne) = (
    log,
    src,
    Starts-trans log (led p.args.term) (led' p.args.term) st (grow p.args.term),
    made,
    more p.args.term src won,
    ne,
  )

module _ {C D : Type 0} where
  -- One peer: a candidate has not won its term.
  pub record IsInPlace (elected : List (ℕ × ℕ)) (led : ℕ → List (LogEntry C)) (i : ℕ)
      (rf : Raft C D) : Type 0 where
    pub base : rf.last_included_index ≡ 0
    pub agrees : Agrees led rf.log
    pub leading :
        is_leader rf.state ≡ true → (led rf.current_term ≡ rf.log) × WonBy elected rf.current_term i
    pub won_before : (t : ℕ) → WonBy elected t i → t ≤ rf.current_term
    pub not_again :
        is_candidate rf.state ≡ true → (0 < rf.current_term) × (¬ (WonBy elected rf.current_term i))

  pub record IsMatched (n : ℕ) (peers : ℕ → Raft C D) (elected : List (ℕ × ℕ))
      (sent : List (Packet C)) (led : ℕ → List (LogEntry C)) : Type 0 where
    pub in_place : (i : ℕ) → i < n → IsInPlace elected led i (peers i)
    pub leaders : (t : ℕ) → Agrees led (led t)
    pub fitting : AllOf (Fitting elected led) sent
    pub known : (t : ℕ) → 0 < t → (led t ≡ []) ⊎ ((c : ℕ) × (c < n) × WonBy elected t c)

  -- One peer moves, the leaders' logs may grow and a win may be added.
  pub IsMatched-move :
      (n i : ℕ) (peers : ℕ → Raft C D) (rf' : Raft C D) (elected elected' : List (ℕ × ℕ))
      (sent : List (Packet C)) (led led' : ℕ → List (LogEntry C))
      → IsMatched n peers elected sent led
      → ((t : ℕ) → Starts (led t) (led' t))
      → ((t c : ℕ) → WonBy elected t c → WonBy elected' t c)
      → ((t c : ℕ) → WonBy elected' t c → (c ≡ i) ⊎ WonBy elected t c)
      → ((t : ℕ) → Agrees led' (led' t))
      → ((t : ℕ) → 0 < t → (led' t ≡ led t) ⊎ ((c : ℕ) × (c < n) × WonBy elected' t c))
      → ((j : ℕ)
          → j < n
          → (i == j) ≡ false
          → is_leader (peers j).state ≡ true
          → led' (peers j).current_term ≡ led (peers j).current_term)
      → IsInPlace elected' led' i rf'
      → IsMatched n (update peers i rf') elected' sent led'
  IsMatched-move n i peers rf' elected elected' sent led led' m grow more only agree known' others
        placed =
      record {
        in_place = λ j lt. elim (Bool-cases (i == j)) [
          | inl same ↦
              rw same (subst (λ k. IsInPlace elected' led' k rf') ((==_iff i j).0 same) placed)
          | inr other ↦ rw other (
              let old = m.in_place j lt in
              record {
                base = old.base;
                agrees = Agrees-grow led led' (peers j).log grow old.agrees;
                leading = λ h.
                    let (e, won) = old.leading h in
                    (others j lt other h ∙ e, more (peers j).current_term j won);
                won_before = λ t won. elim (only t j won) [
                  | inl same ↦ absurd (ground arith)
                  | inr before ↦ old.won_before t before
                ];
                not_again = λ h.
                    let (pos, never) = old.not_again h in
                    (
                      pos,
                      λ won. elim (only (peers j).current_term j won) [
                        | inl same ↦ absurd (ground arith)
                        | inr before ↦ never before
                      ],
                    );
              })
        ];
        leaders = agree;
        fitting = AllOf-imp sent (Fitting-grow elected elected' led led' grow more) m.fitting;
        known = λ t pos. elim (known' t pos) [
          | inr won ↦ inr won
          | inl same ↦ elim (m.known t pos) [
            | inl nothing ↦ inl (same ∙ nothing)
            | inr (c, lt, won) ↦ inr (c, lt, more t c won)
          ]
        ];
      }

  -- One peer moves, and nothing else changes.
  pub IsMatched-peer :
      (n i : ℕ) (peers : ℕ → Raft C D) (rf' : Raft C D) (elected : List (ℕ × ℕ))
      (sent : List (Packet C)) (led : ℕ → List (LogEntry C))
      → IsMatched n peers elected sent led
      → IsInPlace elected led i rf'
      → IsMatched n (update peers i rf') elected sent led
  IsMatched-peer n i peers rf' elected sent led m placed =
      IsMatched-move n i peers rf' elected elected sent led led m
        (λ t. ([], sym (append-nil (led t)))) (λ t c won. won) (λ t c won. inr won) m.leaders
        (λ t pos. inl refl) (λ j lt ne h. refl) placed
