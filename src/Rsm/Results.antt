-- ===== src/Rsm/Results.antt =====
-- What a submission is answered.
use mit_distro_sys.Common.{
  nat_eq, ℕ, ◌≡◌, ◌≢◌, Bool, Option, none, some, ◌==◌, if◌then◌else◌, refl, true, false, [], ◌∷◌,
  leb, beq_self, beq_ne, ap, inl, inr, ==_iff, Bool-cases,
}
use mit_distro_sys.Common.Assoc.{
  delete, lookup, Assoc, insert, lookup-insert, lookup-insert_self, lookup-delete,
}
use mit_distro_sys.Kv.Api.{ok, err_wrong_leader, Err}
use mit_distro_sys.Rsm.{
  expire, Op, StateMachine, Rsm, apply_command, receive, is_own, notify, send, ApplyResult,
  apply_snapshot,
}

module _ {Q V : Type 0} (machine : StateMachine Q V) (rsm : Rsm machine) where
  open machine use {State, Bytes, do_op, snapshot, restore}

  -- The operation at its index is executed, the submission that waits there gets its answer, and
  -- the others wait on.
  abbrev pub Answered : Bool → ℕ → Op Q → ℕ → Err × Option V → Type 0
  Answered too_big command_id op id answer =
      (next : Rsm machine) × (saved : Option (ℕ × Bytes)) × (done : Rsm machine) × (apply_command
          machine rsm too_big command_id op
        ≡ some (next, saved))
      × (receive machine next command_id id ≡ some (done, answer))
      × (done.sm ≡ (do_op rsm.sm op.req).0)
      × (lookup command_id done.result_by_command_id ≡ none)
      × ((j : ℕ)
          → command_id ≢ j
          → lookup j done.result_by_command_id ≡ lookup j rsm.result_by_command_id)

  -- An operation applied at an index where a submission waits on an empty channel is executed; the
  -- submission is answered OK with its result if the ids agree and ErrWrongLeader if not, and leaves
  -- the table, in which the others stay.
  pub apply_command-Answered :
      (too_big : Bool) (command_id : ℕ) (op : Op Q) (id : ℕ)
      → lookup command_id rsm.result_by_command_id ≡ some none
      → Answered too_big command_id op id
          (if op.id == id then (ok, some (do_op rsm.sm op.req).1) else (err_wrong_leader, none))
  unfolding apply_command receive notify send is_own
  apply_command-Answered too_big command_id op id e =
      let waiting = rsm.result_by_command_id in
      let r = do_op rsm.sm op.req in
      let full =
        insert command_id (some (record { op_id = some op.id; value = some r.1 })) waiting in
      (
        record rsm { sm = r.0; result_by_command_id = full },
        if too_big then some (command_id, snapshot r.0) else none,
        record rsm { sm = r.0; result_by_command_id = delete command_id full },
        rw (e, apply_command, notify) refl,
        rw (lookup-insert_self command_id _ waiting) refl,
        refl,
        rw (lookup-delete command_id command_id full) (rw (beq_self command_id)),
        λ j other.
            rw (lookup-delete command_id j full, beq_ne command_id j other)
              (rw (lookup-insert command_id j _ waiting) (rw (beq_ne command_id j other))),
      )

  abbrev pub answer_of : Option (Rsm machine × (Err × Option V)) → Option (Err × Option V)
  answer_of none = none
  answer_of (some r) = some r.1

  -- No channel holds a result.
  abbrev pub all_empty : Assoc ℕ (Option (ApplyResult V)) → Bool
  all_empty [] = true
  all_empty ((id, none) ∷ rest) = all_empty rest
  all_empty ((id, some result) ∷ rest) = false

  -- The channel of an index after a snapshot.
  abbrev pub expired : ℕ → ℕ → Option (ApplyResult V)
  expired index id = if leb id index then some (record { op_id = none; value = none }) else none

  send-expired :
      (index id : ℕ)
      → (if leb id index
          then send machine (record { op_id = none; value = none }) none
          else some none)
        ≡ some (expired index id)
  unfolding send
  send-expired index id = elim (Bool-cases (leb id index)) [ inl y ↦ rw y refl | inr n ↦ rw n refl ]

  expire-lookup :
      (index : ℕ) (waiting : Assoc ℕ (Option (ApplyResult V)))
      → all_empty waiting ≡ true
      → (out : Assoc ℕ (Option (ApplyResult V))) × (expire machine index waiting ≡ some out)
        × ((j : ℕ) → lookup j waiting ≡ some none → lookup j out ≡ some (expired index j))
  unfolding expire send lookup
  expire-lookup index [] h = ([], refl, λ j e. cc)
  expire-lookup index ((id, none) ∷ rest) h =
      let r = expire-lookup index rest h in
      (
        (id, expired index id) ∷ r.0,
        rw (send-expired index id) (rw r.1 refl),
        λ j e. elim (Bool-cases (id == j)) [
          | inl y ↦ rw y (ap (λ k. some (expired index k)) ((==_iff id j).0 y))
          | inr n ↦ rw n (r.2 j (simp (n) at e))
        ],
      )
  expire-lookup index ((id, some result) ∷ rest) h = cc

  -- When no channel holds a result, a snapshot restores the machine; a submission that waits at an
  -- index it covers is answered ErrWrongLeader, and one that waits beyond waits on.
  pub apply_snapshot-expires :
      (index : ℕ) (bytes : Bytes) (sm : State)
      → all_empty rsm.result_by_command_id ≡ true
      → restore rsm.sm bytes ≡ some sm
      → (next : Rsm machine) × (apply_snapshot machine rsm index bytes ≡ some next)
        × (next.sm ≡ sm)
        × ((j id : ℕ)
            → lookup j rsm.result_by_command_id ≡ some none
            → (lookup j next.result_by_command_id ≡ some (expired index j))
              × (answer_of (receive machine next j id)
                  ≡ (if leb j index then some (err_wrong_leader, none) else none)))
  unfolding apply_snapshot receive is_own
  apply_snapshot-expires index bytes sm h e =
      let r = expire-lookup index rsm.result_by_command_id h in
      (
        record rsm { sm = sm; result_by_command_id = r.0 },
        rw e (rw r.1 refl),
        refl,
        λ j id f. (
          r.2 j f,
          rw (r.2 j f) (elim (Bool-cases (leb j index)) [ inl y ↦ rw y refl | inr n ↦ rw n refl ]),
        ),
      )
