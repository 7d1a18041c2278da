-- ===== src/Raft/Replicas/Places.antt =====
-- How one peer stays in place over a step.
use mit_distro_sys.Common.{
  ℕ, ◌≤◌, ◌≡◌, sym, ap, ◌∙◌, subst, inl, inr, true, false, not, ◌&&◌, List, arith,
}
use mit_distro_sys.Raft.Types.{
  Raft, LogEntry, State, leader, follower, candidate, is_leader, is_candidate,
}
use mit_distro_sys.Raft.Steps.{
  Step, append, vote, install, elect, count, command, installed, compact, wake_up, appended, apply,
  applied, restart,
}
use mit_distro_sys.Raft.Invariant.{IsWellFormed}
use mit_distro_sys.Raft.Replicas.{LeavesLog}
use mit_distro_sys.Raft.Replicas.Calm.{
  Role, Calm, dispatch-Calm, next_message-Calm, message_applied-Calm, make-Calm,
}
use mit_distro_sys.Raft.Replicas.Roles.{on_append_reply-Calm, Elects}
use mit_distro_sys.Raft.Replicas.Holds.{IsInPlace, WonBy}
use mit_distro_sys.Raft.Replicas.Agree.{Agrees}

pub leader_candidate : (s : State) → is_leader s ≡ true → is_candidate s ≡ true → ⊥
leader_candidate leader h k = absurd (ground arith)
leader_candidate follower h k = absurd (ground arith)
leader_candidate candidate h k = absurd (ground arith)

module _ {C D : Type 0} where
  pub Step-Calm :
      {rf rf' : Raft C D} (st : Step rf rf') → LeavesLog st → IsWellFormed rf → Calm rf rf'
  Step-Calm {rf} (wake_up e) q w = subst (Calm rf) e (dispatch-Calm rf)
  Step-Calm {rf} (appended now i args reply e) q w = on_append_reply-Calm now rf i args reply e
  Step-Calm {rf} (apply m e) q w = next_message-Calm rf e
  Step-Calm {rf} (applied m e) q w = subst (Calm rf) e (message_applied-Calm rf m)
  Step-Calm {rf} (restart now e) q w = subst (Calm rf) e (make-Calm now rf w)
  Step-Calm {rf} (append now args reply e) q w = elim q [ ]
  Step-Calm {rf} (vote now args reply e) q w = elim q [ ]
  Step-Calm {rf} (install now args reply e) q w = elim q [ ]
  Step-Calm {rf} (elect now args e) q w = elim q [ ]
  Step-Calm {rf} (count now b reply e) q w = elim q [ ]
  Step-Calm {rf} (command c e) q w = elim q [ ]
  Step-Calm {rf} (installed now i args reply e) q w = elim q [ ]
  Step-Calm {rf} (compact index snapshot e h) q w = elim q [ ]

  pub Role-IsInPlace :
      (elected : List (ℕ × ℕ)) (led : ℕ → List (LogEntry C)) (i : ℕ) (rf rf' : Raft C D)
      → IsInPlace elected led i rf
      → Role rf rf'
      → rf.current_term ≤ rf'.current_term
      → Agrees led rf'.log
      → (is_leader rf'.state ≡ true → rf'.log ≡ rf.log)
      → IsInPlace elected led i rf'
  Role-IsInPlace elected led i rf rf' p r le a same = record {
    base = r.same_base ∙ p.base;
    agrees = a;
    leading = λ h.
        let (l, t) = r.leads h in
        let (e, won) = p.leading l in
        (ap led t ∙ e ∙ sym (same h), subst (λ k. WonBy elected k i) (sym t) won);
    won_before = λ t won. omega (arith, p.won_before t won);
    not_again = λ h. elim (r.runs h) [
      | inl (c, t) ↦
          let (pos, never) = p.not_again c in
          (omega arith, λ won. never (subst (λ k. WonBy elected k i) t won))
      | inr lt ↦ (omega arith, λ won. absurd (omega (arith, p.won_before rf'.current_term won)))
    ];
  }

  pub Calm-IsInPlace :
      (elected : List (ℕ × ℕ)) (led : ℕ → List (LogEntry C)) (i : ℕ) (rf rf' : Raft C D)
      → IsInPlace elected led i rf
      → Calm rf rf'
      → rf.current_term ≤ rf'.current_term
      → IsInPlace elected led i rf'
  Calm-IsInPlace elected led i rf rf' p (r, log) le =
      Role-IsInPlace elected led i rf rf' p r le (subst (Agrees led) (sym log) p.agrees) (λ h. log)

  -- A reply to a candidate that does not make it leader
  pub Elects-IsInPlace :
      (elected : List (ℕ × ℕ)) (led : ℕ → List (LogEntry C)) (i : ℕ) (rf rf' : Raft C D)
      → IsInPlace elected led i rf
      → Elects rf rf'
      → rf.current_term ≤ rf'.current_term
      → (not (is_leader rf.state) && is_leader rf'.state) ≡ false
      → IsInPlace elected led i rf'
  Elects-IsInPlace elected led i rf rf' p r le none_new =
      Calm-IsInPlace elected led i rf rf' p
        (
          record {
            same_base = r.same_base;
            leads = λ h. (ground arith, (r.leads h).0);
            runs = λ h. inl (r.runs h);
          },
          r.same_log,
        )
        le
