-- ===== src/Raft/Append/Total.antt =====
-- The parts of the AppendEntries handler read no entry outside the log.
use mit_distro_sys.Common.{
  ℕ, zero, suc, ◌+◌, ◌-◌, ◌≤◌, ◌<◌, ◌≡◌, refl, inl, inr, true, false, some, none, List, [], ◌∷◌,
  arith, length, take, ltb, ◌==◌, get_elem?_total, length-take, Bool-cases,
}
use mit_distro_sys.Raft.Types.{Raft, LogEntry, AppendEntriesArgs}
use mit_distro_sys.Raft.Log.{last_log_index}
use mit_distro_sys.Raft.Log.Reads.{term_at_total, slice_index_total}
use mit_distro_sys.Raft.Append.{Verdict, back_up, check_prev, merge}

module _ {C D : Type 0} (rf : Raft C D) (nonempty : 0 < length rf.log) where
  pub back_up_total :
      (t i : ℕ) → i ≤ last_log_index rf → (k : ℕ) × (back_up rf t i ≡ some k) × (k ≤ i)
  unfolding back_up
  back_up_total t zero hi = (0, refl, omega arith)
  back_up_total t (suc i) hi =
      let (k, p, q) = back_up_total t i (omega arith) in
      elim (Bool-cases (ltb rf.last_included_index (suc i))) [
        | inr out ↦ (suc i, rw out, omega arith)
        | inl inside ↦
            let (u, e) = term_at_total rf nonempty (suc i) (ground arith) hi in
            elim (Bool-cases (u == t)) [
              | inl same ↦ (k, ground arith, omega arith)
              | inr other ↦ (suc i, ground arith, omega arith)
            ]
      ]

  pub merge_total :
      (j : ℕ) (es : List (LogEntry C))
      → rf.last_included_index < j
      → (m : List (LogEntry C) × List (LogEntry C)) × (merge rf j es ≡ some m)
        × (0 < length m.0)
        × (m.1 ≡ [] → m.0 ≡ rf.log)
  unfolding merge
  merge_total j [] lo = ((rf.log, []), refl, nonempty, λ h. refl)
  merge_total j (e ∷ es) lo =
      let (m, p, q, r) = merge_total (j + 1) es (omega arith) in
      elim (Bool-cases (ltb (last_log_index rf) j)) [
        | inl past ↦ ((rf.log, e ∷ es), rw past, nonempty, λ h. refl)
        | inr inside ↦
            let k = j - rf.last_included_index in
            let (x, g) = get_elem?_total rf.log k (unfold last_log_index in ground arith) in
            let s = slice_index_total rf nonempty j (omega arith) in
            elim (Bool-cases (e.term == x.term)) [
              | inl same ↦ (m, ground (arith, s), q, r)
              | inr other ↦ (
                (take k rf.log, e ∷ es),
                ground (arith, s),
                omega (arith, length-take k rf.log),
                λ h. cc,
              )
            ]
      ]

  pub check_prev_total :
      (args : AppendEntriesArgs C)
      → (v : Verdict) × (check_prev rf args ≡ some v)
        × (v.success ≡ true → rf.last_included_index ≤ args.prev_log_index)
  unfolding check_prev
  check_prev_total args = elim (Bool-cases (ltb args.prev_log_index rf.last_included_index)) [
    | inl cut ↦ (
      record { success = false; conflict_term = none; conflict_index = rf.last_included_index + 1 },
      rw cut,
      λ h. cc,
    )
    | inr kept ↦ elim (Bool-cases (ltb (last_log_index rf) args.prev_log_index)) [
      | inl short ↦ (
        record { success = false; conflict_term = none; conflict_index = last_log_index rf + 1 },
        ground arith,
        λ h. cc,
      )
      | inr long ↦
          let (t, e) =
            term_at_total rf nonempty args.prev_log_index (ground arith) (ground arith) in
          elim (Bool-cases (t == args.prev_log_term)) [
            | inl same ↦ (
              record { success = true; conflict_term = some 0; conflict_index = 0 },
              ground arith,
              λ h. ground arith,
            )
            | inr other ↦
                let (i, p, q) = back_up_total t args.prev_log_index (ground arith) in
                (
                  record { success = false; conflict_term = some t; conflict_index = i + 1 },
                  ground arith,
                  λ h. cc,
                )
          ]
    ]
  ]
