-- ===== src/Raft/Steps/Terms.antt =====
-- Over any life of a peer its term never falls, and within a term its vote never changes.
use mit_distro_sys.Raft.Terms.Others.{
  install_snapshot-Keeps, start_election-Keeps, on_vote_reply-Keeps, make-KeepsVote,
}
use mit_distro_sys.Raft.Terms.Rpcs.{append_entries-Keeps, request_vote-Keeps}
use mit_distro_sys.Raft.Terms.{Keeps, Keeps-same, KeepsVote, KeepsVote-same, KeepsVote-trans}
use mit_distro_sys.Common.{
  ◌≡◌, sym, subst, ◌⊎◌, inl, inr, false, Option, some, arith, ◌<◌, refl, ap, length,
}
use mit_distro_sys.Raft.Terms.Replication.{
  next_message_keeps, on_install_reply-Keeps, on_append_reply-Keeps, take_snapshot-Keeps,
  start-Keeps, dispatch-Keeps, message_applied-KeepsVote,
}
use mit_distro_sys.Raft.Invariant.Handlers.{
  Runs, append_entries-Runs, request_vote-Runs, install_snapshot-Runs,
}
use mit_distro_sys.Raft.Invariant.{stored, IsWellFormed}
use mit_distro_sys.Raft.Log.{disk_image}
use mit_distro_sys.Raft.Types.{Raft, Disk}
use mit_distro_sys.Raft.Steps.{
  here, then, Step, append, vote, install, elect, count, command, wake_up, installed, appended,
  compact, apply, applied, restart, Run,
}
use mit_distro_sys.Raft.Invariant.Rest.{
  start-IsWellFormed, on_vote_reply-IsWellFormed, dispatch-IsWellFormed,
  message_applied-IsWellFormed, make-IsWellFormed, on_install_reply-IsWellFormed,
  on_append_reply-IsWellFormed, start_election_total, take_snapshot_total,
}

module _ {C D : Type 0} where
  Runs-IsWellFormed :
      {R : Type 0} {o : Option (Raft C D × R)} {rf : Raft C D} {r : R}
      → Runs o
      → o ≡ some (rf, r)
      → IsWellFormed rf
  Runs-IsWellFormed (rf', r', p, w) e = subst IsWellFormed (ground arith) w

  apply-IsWellFormed :
      (rf rf' : Raft C D)
      → (rf' ≡ rf) ⊎ (rf' ≡ record rf { snapshot_pending = false })
      → IsWellFormed rf
      → IsWellFormed rf'
  unfolding disk_image
  apply-IsWellFormed rf rf' (inl e) w = subst IsWellFormed (sym e) w
  apply-IsWellFormed rf rf' (inr e) w = ground arith

  disk_log : (rf : Raft C D) → IsWellFormed rf → (stored rf.disk).raft_state.log ≡ rf.log
  unfolding disk_image
  disk_log rf w = ap (λ (d : Disk C D). d.raft_state.log) w.on_disk

  -- Every critical section, and every crash and restart, leaves a well-formed peer well-formed.
  pub Step-IsWellFormed : {rf rf' : Raft C D} → Step rf rf' → IsWellFormed rf → IsWellFormed rf'
  Step-IsWellFormed {rf} (append now args reply e) w =
      Runs-IsWellFormed (append_entries-Runs now rf args w) e
  Step-IsWellFormed {rf} (vote now args reply e) w =
      Runs-IsWellFormed (request_vote-Runs now rf args w) e
  Step-IsWellFormed {rf} (install now args reply e) w =
      Runs-IsWellFormed (install_snapshot-Runs now rf args w) e
  Step-IsWellFormed {rf} (elect now args e) w =
      let (rf1, args1, p, v) = start_election_total now rf w in subst IsWellFormed (ground arith) v
  Step-IsWellFormed {rf} (count now b reply e) w =
      subst IsWellFormed e (on_vote_reply-IsWellFormed now rf b reply w)
  Step-IsWellFormed {rf} (command c e) w = subst IsWellFormed e (start-IsWellFormed rf c w)
  Step-IsWellFormed {rf} (wake_up e) w = subst IsWellFormed e (dispatch-IsWellFormed rf w)
  Step-IsWellFormed {rf} (installed now i args reply e) w =
      on_install_reply-IsWellFormed now rf i args reply e w
  Step-IsWellFormed {rf} (appended now i args reply e) w =
      on_append_reply-IsWellFormed now rf i args reply e w
  Step-IsWellFormed {rf} (compact index snapshot e hi) w =
      let (rf1, p, v) = take_snapshot_total rf index snapshot w hi in
      subst IsWellFormed (ground arith) v
  Step-IsWellFormed {rf} {rf'} (apply m e) w = apply-IsWellFormed rf rf' (next_message_keeps rf e) w
  Step-IsWellFormed {rf} (applied m e) w =
      subst IsWellFormed e (message_applied-IsWellFormed rf m w)
  Step-IsWellFormed {rf} (restart now e) w = subst IsWellFormed e (
      make-IsWellFormed now rf.peers rf.me rf.disk
        (subst (λ l. 0 < length l) (sym (disk_log rf w)) w.nonempty))

  -- All critical sections but the end of a round of the applier, and a crash with a restart.
  abbrev pub KeepsApplied : {rf rf' : Raft C D} → Step rf rf' → Type 0
  KeepsApplied (append now args reply e) = Unit
  KeepsApplied (vote now args reply e) = Unit
  KeepsApplied (install now args reply e) = Unit
  KeepsApplied (elect now args e) = Unit
  KeepsApplied (count now b reply e) = Unit
  KeepsApplied (command c e) = Unit
  KeepsApplied (wake_up e) = Unit
  KeepsApplied (installed now i args reply e) = Unit
  KeepsApplied (appended now i args reply e) = Unit
  KeepsApplied (compact index snapshot e hi) = Unit
  KeepsApplied (apply m e) = Unit
  KeepsApplied (applied m e) = ⊥
  KeepsApplied (restart now e) = ⊥

  -- They keep the term, the vote, and what is applied.
  pub Step-Keeps : {rf rf' : Raft C D} (st : Step rf rf') → KeepsApplied st → Keeps rf rf'
  Step-Keeps {rf} (append now args reply e) h = append_entries-Keeps now rf args e
  Step-Keeps {rf} (vote now args reply e) h = request_vote-Keeps now rf args e
  Step-Keeps {rf} (install now args reply e) h = install_snapshot-Keeps now rf args e
  Step-Keeps {rf} (elect now args e) h = start_election-Keeps now rf e
  Step-Keeps {rf} (count now b reply e) h = subst (Keeps rf) e (on_vote_reply-Keeps now rf b reply)
  Step-Keeps {rf} (command c e) h = subst (Keeps rf) e (start-Keeps rf c)
  Step-Keeps {rf} (wake_up e) h = subst (Keeps rf) e (dispatch-Keeps rf)
  Step-Keeps {rf} (installed now i args reply e) h = on_install_reply-Keeps now rf i args reply e
  Step-Keeps {rf} (appended now i args reply e) h = on_append_reply-Keeps now rf i args reply e
  Step-Keeps {rf} (compact index snapshot e hi) h = take_snapshot-Keeps rf index snapshot e
  Step-Keeps {rf} {rf'} (apply m e) h = elim (next_message_keeps rf e) [
    | inl same ↦ Keeps-same rf rf' (ground arith)
    | inr taken ↦ Keeps-same rf rf' (ground arith)
  ]
  Step-Keeps (applied m e) h = absurd h
  Step-Keeps (restart now e) h = absurd h

  -- In every step of a well-formed peer the term does not fall, and a vote cast in the term stays.
  pub Step-KeepsVote : {rf rf' : Raft C D} → Step rf rf' → IsWellFormed rf → KeepsVote rf rf'
  Step-KeepsVote (append now args reply e) w = (Step-Keeps (append now args reply e) tt).keeps_vote
  Step-KeepsVote (vote now args reply e) w = (Step-Keeps (vote now args reply e) tt).keeps_vote
  Step-KeepsVote (install now args reply e) w =
      (Step-Keeps (install now args reply e) tt).keeps_vote
  Step-KeepsVote (elect now args e) w = (Step-Keeps (elect now args e) tt).keeps_vote
  Step-KeepsVote (count now b reply e) w = (Step-Keeps (count now b reply e) tt).keeps_vote
  Step-KeepsVote (command c e) w = (Step-Keeps (command c e) tt).keeps_vote
  Step-KeepsVote (wake_up e) w = (Step-Keeps (wake_up e) tt).keeps_vote
  Step-KeepsVote (installed now i args reply e) w =
      (Step-Keeps (installed now i args reply e) tt).keeps_vote
  Step-KeepsVote (appended now i args reply e) w =
      (Step-Keeps (appended now i args reply e) tt).keeps_vote
  Step-KeepsVote (compact index snapshot e hi) w =
      (Step-Keeps (compact index snapshot e hi) tt).keeps_vote
  Step-KeepsVote (apply m e) w = (Step-Keeps (apply m e) tt).keeps_vote
  Step-KeepsVote {rf} (applied m e) w = subst (KeepsVote rf) e (message_applied-KeepsVote rf m)
  Step-KeepsVote {rf} (restart now e) w = subst (KeepsVote rf) e (make-KeepsVote now rf w)

  -- From a well-formed peer, any sequence of critical sections, crashes and restarts leaves it
  -- well-formed.
  pub Run-IsWellFormed : {rf rf' : Raft C D} → Run rf rf' → IsWellFormed rf → IsWellFormed rf'
  Run-IsWellFormed here w = w
  Run-IsWellFormed (then r s) w = Step-IsWellFormed s (Run-IsWellFormed r w)

  -- From a well-formed peer, over any sequence of critical sections, crashes and restarts, the term
  -- does not fall, and if it is the same at the end, a vote that was cast is still that vote.
  pub Run-KeepsVote : {rf rf' : Raft C D} → Run rf rf' → IsWellFormed rf → KeepsVote rf rf'
  Run-KeepsVote {rf} here w = KeepsVote-same rf rf (refl, refl, refl, refl)
  Run-KeepsVote {rf} {rf'} (then {a = a} r s) w =
      KeepsVote-trans rf a rf' (Run-KeepsVote r w) (Step-KeepsVote s (Run-IsWellFormed r w))
