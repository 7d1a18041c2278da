-- ===== src/Raft/Steps/Delivery.antt =====
-- What the applier sends to the state machine (src/raft/raft.go, `applier`), while the peer's other
-- critical sections go on.
use mit_distro_sys.Common.{
  ℕ, nat_eq, ◌+◌, ◌≡◌, refl, sym, ◌∙◌, subst, Option, none, some, List, [], ◌∷◌, arith, >>=-eq-some,
  inl, inr, ltb, Bool-cases,
}
use mit_distro_sys.Raft.Types.{Raft, ApplyMsg, command_msg, snapshot_msg}
use mit_distro_sys.Raft.Applier.{next_message, message_applied}
use mit_distro_sys.Raft.Log.{entry_at, term_at}
use mit_distro_sys.Raft.Steps.{Step}
use mit_distro_sys.Raft.Steps.Terms.{KeepsApplied, Step-Keeps}

module _ (C D : Type 0) where
  -- `in_flight` is the message of the round, and `sent` has all messages, the last one first.
  pub record Delivery : Type 0 where
    pub rf : Raft C D
    pub in_flight : Option (ApplyMsg C D)
    pub sent : List (ApplyMsg C D)

module _ {C D : Type 0} where
  abbrev pub index_of : ApplyMsg C D → ℕ
  index_of (command_msg c i) = i
  index_of (snapshot_msg d t i) = i

  pub data DeliveryStep (s t : Delivery C D) : Type 0 where
    take :
        (m : ApplyMsg C D) {rf' : Raft C D}
        → s.in_flight ≡ none
        → next_message s.rf ≡ some (some m, rf')
        → t ≡ record { rf = rf'; in_flight = some m; sent = m ∷ s.sent }
        → DeliveryStep s t
    done :
        (m : ApplyMsg C D)
        → s.in_flight ≡ some m
        → t ≡ record { rf = message_applied s.rf m; in_flight = none; sent = s.sent }
        → DeliveryStep s t
    other :
        {rf' : Raft C D} (st : Step s.rf rf')
        → KeepsApplied st
        → t ≡ record s { rf = rf' }
        → DeliveryStep s t

  -- The life of a peer between two restarts.
  pub data Delivers (rf : Raft C D) : Delivery C D → Type 0 where
    begin : Delivers rf (record { rf = rf; in_flight = none; sent = [] })
    later : {s t : Delivery C D} → Delivers rf s → DeliveryStep s t → Delivers rf t

  -- The index that was sent last, where the peer started with `first` applied.
  abbrev pub last_sent : ℕ → List (ApplyMsg C D) → ℕ
  last_sent first [] = first
  last_sent first (m ∷ ms) = index_of m

  -- A command has the index after the message before it.
  abbrev pub Follows : ℕ → ApplyMsg C D → Type 0
  Follows before (command_msg c i) = i ≡ before + 1
  Follows before (snapshot_msg d t i) = Unit

  abbrev pub InOrder : ℕ → List (ApplyMsg C D) → Type 0
  InOrder first [] = Unit
  InOrder first (m ∷ ms) = Follows (last_sent first ms) m × InOrder first ms

  abbrev Waits : ℕ → Delivery C D → Option (ApplyMsg C D) → Type 0
  Waits first s none = s.rf.last_applied ≡ last_sent first s.sent
  Waits first s (some (command_msg c i)) =
      (i ≡ s.rf.last_applied + 1) × (last_sent first s.sent ≡ i)
  Waits first s (some (snapshot_msg d t i)) = last_sent first s.sent ≡ i

  taken :
      (rf : Raft C D) (m : ApplyMsg C D) {rf' : Raft C D}
      → next_message rf ≡ some (some m, rf')
      → (rf'.last_applied ≡ rf.last_applied) × Follows rf.last_applied m
  unfolding next_message
  taken rf (command_msg c i) {rf'} e = elim (Bool-cases rf.snapshot_pending) [
    | inl pending ↦
        let (t, p, q) = >>=-eq-some (term_at rf rf.last_included_index) _ (simp pending at e) in
        absurd (ground arith)
    | inr nothing ↦ elim (Bool-cases (ltb rf.last_applied rf.commit_index)) [
      | inl more ↦
          let (t, p, q) =
            >>=-eq-some (entry_at rf (rf.last_applied + 1)) _ (simp (nothing, more) at e) in
          ground arith
      | inr idle ↦ absurd (let z = simp (nothing, idle) at e in ground arith)
    ]
  ]
  taken rf (snapshot_msg d t i) {rf'} e = elim (Bool-cases rf.snapshot_pending) [
    | inl pending ↦
        let (t, p, q) = >>=-eq-some (term_at rf rf.last_included_index) _ (simp pending at e) in
        (ground arith, tt)
    | inr nothing ↦ elim (Bool-cases (ltb rf.last_applied rf.commit_index)) [
      | inl more ↦
          let (t, p, q) =
            >>=-eq-some (entry_at rf (rf.last_applied + 1)) _ (simp (nothing, more) at e) in
          absurd (ground arith)
      | inr idle ↦ absurd (let z = simp (nothing, idle) at e in ground arith)
    ]
  ]

  -- The next message comes after the one that was sent last.
  pub record IsInOrder (first : ℕ) (s : Delivery C D) : Type 0 where
    pub waits : Waits first s s.in_flight
    pub in_order : InOrder first s.sent

  taken-Waits :
      (first : ℕ) (rf : Raft C D) (m : ApplyMsg C D) (before : List (ApplyMsg C D))
      → Follows rf.last_applied m
      → Waits first (record { rf = rf; in_flight = some m; sent = m ∷ before }) (some m)
  taken-Waits first rf (command_msg c i) before h = (h, refl)
  taken-Waits first rf (snapshot_msg d t i) before h = refl

  done-Waits :
      (first : ℕ) (s : Delivery C D) (m : ApplyMsg C D)
      → Waits first s (some m)
      → (message_applied s.rf m).last_applied ≡ last_sent first s.sent
  unfolding message_applied
  done-Waits first s (command_msg c i) (h, k) = omega (arith, h, k)
  done-Waits first s (snapshot_msg d t i) h = sym h

  other-Waits :
      (first : ℕ) (s : Delivery C D) (rf' : Raft C D) (m : Option (ApplyMsg C D))
      → rf'.last_applied ≡ s.rf.last_applied
      → Waits first s m
      → Waits first (record s { rf = rf' }) m
  other-Waits first s rf' none e h = e ∙ h
  other-Waits first s rf' (some (command_msg c i)) e (h, k) = (omega (arith, e, h), k)
  other-Waits first s rf' (some (snapshot_msg d t i)) e h = h

  Step-IsInOrder :
      (first : ℕ) (s t : Delivery C D) → DeliveryStep s t → IsInOrder first s → IsInOrder first t
  Step-IsInOrder first s t (take m {rf' = rf'} idle e f) o =
      let at : s.rf.last_applied ≡ last_sent first s.sent = subst (Waits first s) idle o.waits in
      let (same, follows) = taken s.rf m e in
      subst (IsInOrder first) (sym f) (record {
        waits = taken-Waits first rf' m s.sent (subst (λ n. Follows n m) (sym same) follows);
        in_order = (subst (λ n. Follows n m) at follows, o.in_order);
      })
  Step-IsInOrder first s t (done m busy f) o = subst (IsInOrder first) (sym f) (record {
    waits = done-Waits first s m (subst (Waits first s) busy o.waits);
    in_order = o.in_order;
  })
  Step-IsInOrder first s t (other {rf' = rf'} st h f) o = subst (IsInOrder first) (sym f) (record {
    waits = other-Waits first s rf' s.in_flight (Step-Keeps st h).same_applied o.waits;
    in_order = o.in_order;
  })

  -- From a start with nothing in flight, whatever the peer's other critical sections do between and
  -- during the rounds of the applier, every command is sent with the index after the one of the
  -- message before it, and the first message, if it is a command, with the index after the last
  -- applied one of the start.
  pub Delivers-InOrder :
      (rf : Raft C D) (s : Delivery C D) → Delivers rf s → InOrder rf.last_applied s.sent
  Delivers-InOrder rf s run = (go s run).in_order
    where
      go : (s : Delivery C D) → Delivers rf s → IsInOrder rf.last_applied s
      go _ begin = record { waits = refl; in_order = tt }
      go t (later {s = s} run step) = Step-IsInOrder rf.last_applied s t step (go s run)
