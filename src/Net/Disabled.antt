-- ===== src/Net/Disabled.antt =====
-- An end that is disabled stays so until it is enabled (src/rpc/rpc.go, `Enable`).
use mit_distro_sys.Common.{
  ℕ, string_eq, String, ◌≡◌, refl, subst, inl, inr, Bool, true, false, ◌&&◌, none, some, List,
  arith, Option-cases, AllOf,
}
use mit_distro_sys.Common.Assoc.{lookup, lookup-insert, lookup-insert_self, lookup-delete}
use mit_distro_sys.Net.{
  Network, set_reliable, set_long_reordering, set_long_delays, set_drop_rate, set_short_delay_ms,
  set_long_delay_ms, add_server, delete_server, connect, enable, cleanup, make_end, delete_end,
  is_server_dead, read_endname_info, is_enabled,
}
use mit_distro_sys.Net.Request.{admit}
use mit_distro_sys.Net.Calls.{
  NetCall, call_make_end, call_delete_end, call_enable, run_net_call, run_net_calls, OrFatal,
  run_net_calls-OrFatal,
}

abbrev pub enables : String → NetCall → Bool
enables endname (call_enable other on) = string_eq.beq other endname && on
enables endname _ = false

abbrev IsOff : String → Network → Type 0
IsOff endname rn = is_enabled rn endname ≡ false

run_net_call-IsOff :
    (endname : String) (rn : Network) (c : NetCall)
    → enables endname c ≡ false
    → IsOff endname rn
    → OrFatal (IsOff endname) (run_net_call rn c)
unfolding run_net_call set_reliable set_long_reordering set_long_delays set_drop_rate
    set_short_delay_ms set_long_delay_ms add_server delete_server connect enable cleanup make_end
    delete_end
run_net_call-IsOff endname rn (call_make_end other) q h =
    elim (Option-cases (lookup other rn.ends)) [
      | inl fresh ↦
          rw (fresh, OrFatal, run_net_call)
            (rw (lookup-insert other endname false rn.enabled) (ground arith))
      | inr (e, known) ↦ rw (known, OrFatal, run_net_call) tt
    ]
run_net_call-IsOff endname rn (call_delete_end other) q h =
    elim (Option-cases (lookup other rn.ends)) [
      | inl fresh ↦ rw (fresh, OrFatal, run_net_call) tt
      | inr (e, known) ↦
          rw (known, OrFatal, run_net_call)
            (rw (lookup-delete other endname rn.enabled) (ground arith))
    ]
run_net_call-IsOff endname rn (call_enable other on) q h =
    rw (lookup-insert other endname on rn.enabled) (ground arith)
run_net_call-IsOff endname rn _ q h = h

-- Once an end is disabled, and over any calls after it that do not enable the end, no request at the
-- end is let through, and to a request that waits every server counts as dead.
pub admit-enable :
    (rn next : Network) (endname : String) (cs : List NetCall)
    → AllOf (λ c. enables endname c ≡ false) cs
    → run_net_calls (enable rn endname false) cs ≡ some next
    → (admit next endname ≡ none)
      × ((servername : String) (server : ℕ) → is_server_dead next endname servername server ≡ true)
unfolding admit is_server_dead enable read_endname_info
admit-enable rn next endname cs q e =
    let off : is_enabled next endname ≡ false = subst (OrFatal (IsOff endname)) e (
      run_net_calls-OrFatal (IsOff endname) (λ c. enables endname c ≡ false)
        (run_net_call-IsOff endname) (enable rn endname false) cs q
        (rw (lookup-insert_self endname false rn.enabled) refl)) in
    (rw off refl, λ servername server. rw off refl)
