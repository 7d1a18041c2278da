-- ===== src/Raft/Leader.antt =====
-- A leader's side of replication (src/raft/raft.go): `Start`, what it sends a follower, what it
-- does with the replies, and the advance of the commit index.
pub mod Count
pub mod Commit
pub mod Highest
pub mod Stale
pub mod BackOff
pub mod Refused
use mit_distro_sys.Common.{
  ℕ, zero, suc, ◌+◌, ◌-◌, ◌/◌, max, Bool, true, false, not, ◌&&◌, Option, none, some, List, [], ◌∷◌,
  ◌++◌, set, get_elem?, length, leb, ltb, ◌==◌, if◌then◌else◌, ◌>>=◌,
}
use mit_distro_sys.Raft.Types.{
  Raft, is_leader, AppendEntriesArgs, AppendEntriesReply, InstallSnapshotArgs, InstallSnapshotReply,
}
use mit_distro_sys.Raft.Log.{
  last_log_index, term_at, entries_from, persist, become_follower_with_term,
}

-- `count`: this peer, and each other one whose match index reaches `n`.
unfoldable pub count_matched : ℕ → ℕ → ℕ → List ℕ → ℕ
count_matched me n j [] = 0
count_matched me n j (m ∷ ms) =
    (if not (j == me) && leb n m then 1 else 0) + count_matched me n (j + 1) ms

abbrev pub or_else : Option ℕ → ℕ → ℕ
or_else none d = d
or_else (some n) d = n

-- What `replicateToFollower` sends.
pub data Outgoing (C D : Type 0) : Type 0 where
  nothing : Outgoing C D
  snapshot : InstallSnapshotArgs D → Outgoing C D
  entries : AppendEntriesArgs C → Outgoing C D

module _ {C D : Type 0} where
  -- `GetState()`
  unfoldable pub get_state : Raft C D → ℕ × Bool
  get_state rf = (rf.current_term, is_leader rf.state)

  -- `Start(command)`: the index and the term, or `none` for `-1, -1, false`
  unfoldable pub start : Raft C D → C → Raft C D × Option (ℕ × ℕ)
  unfolding persist
  start rf command =
      if is_leader rf.state
      then (let rf' = persist (record rf {
        log = rf.log ++ (record { term = rf.current_term; command = some command } ∷ []);
      }) in
          (record rf' { log_appended = true }, some (last_log_index rf', rf.current_term)))
      else (rf, none)

  -- One round of `replicationDispatcher`, over the peers from `j` on: wake the worker of each
  -- follower that is behind.
  unfoldable pub wake : Raft C D → ℕ → List ℕ → List Bool → List Bool
  wake rf j [] flags = flags
  wake rf j (n ∷ ns) [] = []
  wake rf j (n ∷ ns) (b ∷ flags) =
      (if not (j == rf.me) && leb n (last_log_index rf) then true else b) ∷ wake rf (j + 1) ns flags

  unfoldable pub dispatch : Raft C D → Raft C D
  unfolding wake
  dispatch rf =
      let rf' = record rf { log_appended = false } in
      if is_leader rf.state
      then record rf' { replicate_ready = wake rf 0 rf.next_index rf.replicate_ready }
      else rf'

  unfoldable pub new_append_entries_args : Raft C D → ℕ → Option (AppendEntriesArgs C)
  new_append_entries_args rf i = get_elem? rf.next_index i >>= λ next.
      entries_from rf next >>= λ es. (if next == 0 then none else term_at rf (next - 1)) >>= λ t.
      some (record {
        term = rf.current_term;
        leader_id = rf.me;
        prev_log_index = next - 1;
        prev_log_term = t;
        entries = es;
        leader_commit = rf.commit_index;
      })

  -- A `nil` snapshot is copied to an empty slice; here `none` stands for both.
  unfoldable pub new_install_snapshot_args : Raft C D → Option (InstallSnapshotArgs D)
  new_install_snapshot_args rf = term_at rf rf.last_included_index >>= λ t. some (record {
    term = rf.current_term;
    leader_id = rf.me;
    last_included_index = rf.last_included_index;
    last_included_term = t;
    snapshot = rf.snapshot_data;
  })

  -- `needReplicate` of `synchroniseFollower`
  unfoldable pub needs_replicate : Raft C D → ℕ → Option Bool
  needs_replicate rf i =
      if is_leader rf.state
      then (get_elem? rf.next_index i >>= λ next. some (leb next (last_log_index rf)))
      else some false

  -- `replicateToFollower` up to the call
  unfoldable pub replicate_to_follower : Raft C D → ℕ → Option (Outgoing C D)
  replicate_to_follower rf i =
      if is_leader rf.state
      then (get_elem? rf.next_index i >>= λ next.
          if leb next rf.last_included_index
          then (new_install_snapshot_args rf >>= λ a. some (snapshot a))
          else (new_append_entries_args rf i >>= λ a. some (entries a)))
      else some nothing

  -- The loop of `advanceCommitIndex`, at the index `N`.
  unfoldable pub advance_from : Raft C D → ℕ → Option (Raft C D)
  advance_from rf zero = some rf
  advance_from rf (suc n) =
      let rest = advance_from rf n in
      if ltb rf.commit_index (suc n)
      then (term_at rf (suc n) >>= λ t.
          if t == rf.current_term
          then (if ltb (rf.peers / 2) (1 + count_matched rf.me (suc n) 0 rf.match_index)
              then some (record rf { commit_index = suc n; apply_ready = true })
              else rest)
          else some rf)
      else some rf

  unfoldable pub advance_commit_index : Raft C D → Option (Raft C D)
  unfolding advance_from
  advance_commit_index rf = advance_from rf (last_log_index rf)

  -- `matchIndex[i] = m`, `nextIndex[i] = m + 1`
  unfoldable pub set_matched : Raft C D → ℕ → ℕ → Raft C D
  set_matched rf i m = record rf {
    match_index = set rf.match_index i m;
    next_index = set rf.next_index i (m + 1);
  }

  unfoldable pub on_install_reply :
      ℕ → Raft C D → ℕ → InstallSnapshotArgs D → InstallSnapshotReply → Option (Raft C D)
  unfolding become_follower_with_term set_matched
  on_install_reply now rf i args reply =
      if ltb rf.current_term reply.term
      then some (become_follower_with_term now rf reply.term)
      else (get_elem? rf.match_index i >>= λ m.
          if ltb m args.last_included_index
          then advance_commit_index (set_matched rf i args.last_included_index)
          else some rf)

  -- One round of the search backwards for an entry of the conflicting term.
  unfoldable pub probe : Raft C D → ℕ → ℕ → ℕ → Option (Option ℕ) → Option (Option ℕ)
  probe rf conflict first j rest =
      if leb rf.last_included_index j && leb first j
      then (term_at rf j >>= λ t. if t == conflict then some (some (j + 1)) else rest)
      else some none

  unfoldable pub find_term : Raft C D → ℕ → ℕ → ℕ → Option (Option ℕ)
  unfolding probe
  find_term rf conflict first zero = probe rf conflict first zero (some none)
  find_term rf conflict first (suc j) =
      let rest = find_term rf conflict first j in probe rf conflict first (suc j) rest

  -- The next index after a conflict.
  unfoldable pub next_after : Raft C D → ℕ → AppendEntriesReply → Option ℕ
  unfolding find_term
  next_after rf prev reply = elim reply.conflict_term [
    | none ↦ some reply.conflict_index
    | some t ↦ find_term rf t reply.conflict_index prev >>= λ found.
        some (or_else found reply.conflict_index)
  ]

  unfoldable pub on_append_reply :
      ℕ → Raft C D → ℕ → AppendEntriesArgs C → AppendEntriesReply → Option (Raft C D)
  unfolding become_follower_with_term set_matched
  on_append_reply now rf i args reply =
      if ltb rf.current_term reply.term
      then some (become_follower_with_term now rf reply.term)
      else (get_elem? rf.match_index i >>= λ m.
          let reached = args.prev_log_index + length args.entries in
          if reply.success
          then (if leb reached m then some rf else advance_commit_index (set_matched rf i reached))
          else if leb args.prev_log_index m
          then some rf
          else (next_after rf args.prev_log_index reply >>= λ next.
              some (record rf { next_index = set rf.next_index i (max next (m + 1)) })))
