-- ===== src/Rsm.antt =====
-- The layer that runs a state machine on Raft: src/kvraft/rsm/rsm.go. A submission waits at the
-- index that Raft gave it, on a channel of capacity 1. Every function is a critical section or a
-- branch of a `select`; a channel is what it buffers. `none` is a send that blocks on a full channel.
use mit_distro_sys.Common.{
  ℕ, Option, none, some, nat_eq, ◌==◌, ◌>>=◌, if◌then◌else◌, [], ◌∷◌, ◌+◌, Bool, false, leb, not,
  ◌||◌,
}
use mit_distro_sys.Common.Assoc.{Assoc, lookup, insert, delete}
use mit_distro_sys.Kv.Api.{Err, ok, err_wrong_leader}
pub mod Results

pub record Op (Q : Type 0) : Type 0 where
  pub me : ℕ
  pub id : ℕ
  pub req : Q

-- `applyResult`: no id is -1, and no value is nil.
pub record ApplyResult (V : Type 0) : Type 0 where
  pub op_id : Option ℕ
  pub value : Option V

-- `StateMachine`, which the server implements. A restore may stop the process.
pub record StateMachine (Q V : Type 0) : Type 1 where
  pub State : Type 0
  pub Bytes : Type 0
  pub do_op : State → Q → State × V
  pub snapshot : State → Bytes
  pub restore : State → Bytes → Option State

-- What becomes of a submission at first: ErrWrongLeader, or a wait at an index with an id.
pub data Submission : Type 0 where
  refused : Submission
  waits : ℕ → ℕ → Submission

module _ {Q V : Type 0} (machine : StateMachine Q V) where
  open machine use {State, Bytes, do_op, snapshot, restore}

  pub record Rsm : Type 0 where
    pub me : ℕ
    pub sm : State
    pub result_by_command_id : Assoc ℕ (Option (ApplyResult V))
    pub op_id : ℕ

  -- `Submit` up to its wait. `leads` is what `GetState` says, and `start` is Raft's `Start`,
  -- with an index if it takes the operation.
  unfoldable pub begin_submit : Rsm → Q → Bool → (Op Q → Option ℕ) → Rsm × Submission
  begin_submit rsm req leads start =
      let id = rsm.op_id + 1 in
      let next = record rsm { op_id = id } in
      if leads
      then elim (start (record { me = rsm.me; id = id; req = req })) [
        | none ↦ (next, refused)
        | some command_id ↦ (
          record next { result_by_command_id = insert command_id none rsm.result_by_command_id },
          waits command_id id,
        )
      ]
      else (next, refused)

  unfoldable pub send : ApplyResult V → Option (ApplyResult V) → Option (Option (ApplyResult V))
  send result none = some (some result)
  send result (some waiting) = none

  -- `readApply` wakes the submission that waits at the index, if one does.
  unfoldable pub notify : Rsm → ℕ → ApplyResult V → Option Rsm
  unfolding send
  notify rsm command_id result = elim (lookup command_id rsm.result_by_command_id) [
    | none ↦ some rsm
    | some ch ↦ send result ch >>= λ full.
        some (record rsm { result_by_command_id = insert command_id full rsm.result_by_command_id })
  ]

  -- `readApply` at a command. `too_big` says that Raft's state exceeds its bound: then Raft gets a
  -- snapshot, which is returned.
  unfoldable pub apply_command : Rsm → Bool → ℕ → Op Q → Option (Rsm × Option (ℕ × Bytes))
  unfolding notify
  apply_command rsm too_big command_id op =
      let r = do_op rsm.sm op.req in
      notify (record rsm { sm = r.0 }) command_id (record { op_id = some op.id; value = some r.1 })
      >>= λ next. some (next, if too_big then some (command_id, snapshot r.0) else none)

  -- The submissions up to the index of a snapshot are told that they expired.
  unfoldable pub expire :
      ℕ → Assoc ℕ (Option (ApplyResult V)) → Option (Assoc ℕ (Option (ApplyResult V)))
  unfolding send
  expire index [] = some []
  expire index ((id, ch) ∷ rest) =
      (if leb id index then send (record { op_id = none; value = none }) ch else some ch) >>= λ ch'.
      expire index rest >>= λ rest'. some ((id, ch') ∷ rest')

  -- `readApply` at a snapshot
  unfoldable pub apply_snapshot : Rsm → ℕ → Bytes → Option Rsm
  apply_snapshot rsm index bytes = restore rsm.sm bytes >>= λ sm.
      expire index rsm.result_by_command_id >>= λ waiting.
      some (record rsm { sm = sm; result_by_command_id = waiting })

  -- `Submit` gives up: it is no longer leader, its deadline passed, or Raft has stopped.
  unfoldable pub give_up : Rsm → ℕ → Rsm × (Err × Option V)
  give_up rsm command_id = (
    record rsm { result_by_command_id = delete command_id rsm.result_by_command_id },
    (err_wrong_leader, none),
  )

  -- The timer of `Submit`, with what `GetState` says: `none` waits on.
  unfoldable pub poll : Rsm → ℕ → ℕ → ℕ × Bool → Bool → Option (Rsm × (Err × Option V))
  unfolding give_up
  poll rsm command_id term_at_start (current_term, is_still_leader) is_late =
      if not is_still_leader || not (term_at_start == current_term) || is_late
      then some (give_up rsm command_id)
      else none

  unfoldable pub is_own : ApplyResult V → ℕ → Bool
  is_own result id = elim result.op_id [ none ↦ false | some other ↦ other == id ]

  -- `Submit` takes what its channel holds, if it holds a result: `none` still waits. The channel is
  -- looked up at its index, where `Submit` reads the one that it made; the two are the same as long as
  -- no other submission makes one at this index.
  unfoldable pub receive : Rsm → ℕ → ℕ → Option (Rsm × (Err × Option V))
  receive rsm command_id id = lookup command_id rsm.result_by_command_id >>= λ ch. ch >>= λ result.
      some (
        record rsm { result_by_command_id = delete command_id rsm.result_by_command_id },
        if is_own result id then (ok, result.value) else (err_wrong_leader, none),
      )
