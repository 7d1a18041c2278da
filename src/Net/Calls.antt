-- ===== src/Net/Calls.antt =====
-- Sequences of calls on the network (src/rpc/rpc.go), and the ranges of its options.
use mit_distro_sys.Common.{
  string_eq, ℕ, String, Bool, Option, some, ◌^◌, ◌≤◌, ◌<◌, ◌≡◌, List, [], ◌∷◌, ◌>>=◌, ◌%◌, inl, inr,
  none, arith, ltb, Bool-cases, Option-cases, subst, true, AllOf,
}
use mit_distro_sys.Common.Assoc.{lookup}
use mit_distro_sys.ShardCfg.{ℤ, pos, negsuc}
use mit_distro_sys.Net.{
  Network, set_reliable, set_long_reordering, set_long_delays, make_network, cleanup, set_drop_rate,
  set_short_delay_ms, set_long_delay_ms, make_end, delete_end, add_server, delete_server, connect,
  enable, to_int32, delay_of, rate_of,
}

-- A call on the network
pub data NetCall : Type 0 where
  call_reliable call_reordering call_long_delays : Bool → NetCall
  call_drop_rate call_short_delay call_long_delay : ℤ → NetCall
  call_make_end call_delete_end call_delete_server : String → NetCall
  call_add_server : String → ℕ → NetCall
  call_connect : String → String → NetCall
  call_enable : String → Bool → NetCall
  call_cleanup : NetCall

-- `none` is a call that ends in `log.Fatalf`.
unfoldable pub run_net_call : Network → NetCall → Option Network
run_net_call rn (call_reliable on) = some (set_reliable rn on)
run_net_call rn (call_reordering on) = some (set_long_reordering rn on)
run_net_call rn (call_long_delays on) = some (set_long_delays rn on)
run_net_call rn (call_drop_rate rate) = some (set_drop_rate rn rate)
run_net_call rn (call_short_delay ms) = some (set_short_delay_ms rn ms)
run_net_call rn (call_long_delay ms) = some (set_long_delay_ms rn ms)
run_net_call rn (call_make_end endname) = make_end rn endname >>= λ r. some r.0
run_net_call rn (call_delete_end endname) = delete_end rn endname
run_net_call rn (call_delete_server servername) = some (delete_server rn servername)
run_net_call rn (call_add_server servername rs) = some (add_server rn servername rs)
run_net_call rn (call_connect endname servername) = some (connect rn endname servername)
run_net_call rn (call_enable endname on) = some (enable rn endname on)
run_net_call rn call_cleanup = some (cleanup rn)

unfoldable pub run_net_calls : Network → List NetCall → Option Network
unfolding run_net_call
run_net_calls rn [] = some rn
run_net_calls rn (c ∷ cs) = run_net_call rn c >>= λ next. run_net_calls next cs

-- The values of an `int32`
abbrev pub FitsInt32 : ℤ → Type 0
FitsInt32 (pos n) = n < 2 ^ 31
FitsInt32 (negsuc n) = n < 2 ^ 31

-- A rate per 1000
abbrev pub IsRate : ℤ → Type 0
IsRate (pos n) = n ≤ 1000
IsRate (negsuc n) = ⊥

abbrev pub InRange : Network → Type 0
InRange rn = IsRate rn.drop_rate × FitsInt32 rn.short_delay_ms × FitsInt32 rn.long_delay_ms

-- What holds unless the call is fatal.
abbrev pub OrFatal : (Network → Type 0) → Option Network → Type 0
OrFatal P none = Unit
OrFatal P (some rn) = P rn

to_int32-FitsInt32 : (n : ℕ) → FitsInt32 (to_int32 n)
to_int32-FitsInt32 n = elim (Bool-cases (ltb (n % 2 ^ 32) (2 ^ 31))) [
  | inl low ↦ rw low (ground arith)
  | inr high ↦ rw high (ground arith)
]

delay_of-FitsInt32 : (ms : ℤ) → FitsInt32 (delay_of ms)
delay_of-FitsInt32 (pos ms) = to_int32-FitsInt32 ms
delay_of-FitsInt32 (negsuc ms) = omega arith

rate_of-IsRate : (rate : ℤ) → IsRate (rate_of rate)
rate_of-IsRate (pos rate) = elim (Bool-cases (ltb 1000 rate)) [
  | inl high ↦ rw high (omega arith)
  | inr low ↦
      let same : (rate % 2 ^ 32) ≡ rate = ground arith in
      let small : ltb rate (2 ^ 31) ≡ true = ground arith in
      rw low (rw same (rw small (ground arith)))
]
rate_of-IsRate (negsuc rate) = omega arith

run_net_call-InRange :
    (rn : Network) (c : NetCall) → InRange rn → OrFatal InRange (run_net_call rn c)
unfolding run_net_call set_reliable set_long_reordering set_long_delays set_drop_rate
    set_short_delay_ms set_long_delay_ms add_server delete_server connect enable cleanup make_end
    delete_end
run_net_call-InRange rn (call_reliable on) h = h
run_net_call-InRange rn (call_reordering on) h = h
run_net_call-InRange rn (call_long_delays on) h = h
run_net_call-InRange rn (call_drop_rate rate) (_, s, l) = (rate_of-IsRate rate, s, l)
run_net_call-InRange rn (call_short_delay ms) (d, _, l) = (d, delay_of-FitsInt32 ms, l)
run_net_call-InRange rn (call_long_delay ms) (d, s, _) = (d, s, delay_of-FitsInt32 ms)
run_net_call-InRange rn (call_make_end endname) h = elim (Option-cases (lookup endname rn.ends)) [
  | inl fresh ↦ rw (fresh, OrFatal, run_net_call) h
  | inr (e, known) ↦ rw (known, OrFatal, run_net_call) tt
]
run_net_call-InRange rn (call_delete_end endname) h = elim (Option-cases (lookup endname rn.ends)) [
  | inl fresh ↦ rw (fresh, OrFatal, run_net_call) tt
  | inr (e, known) ↦ rw (known, OrFatal, run_net_call) h
]
run_net_call-InRange rn (call_delete_server servername) h = h
run_net_call-InRange rn (call_add_server servername rs) h = h
run_net_call-InRange rn (call_connect endname servername) h = h
run_net_call-InRange rn (call_enable endname on) h = h
run_net_call-InRange rn call_cleanup h = h

pub run_net_calls-OrFatal :
    (P : Network → Type 0) (Q : NetCall → Type 0)
    → ((rn : Network) (c : NetCall) → Q c → P rn → OrFatal P (run_net_call rn c))
    → (rn : Network) (cs : List NetCall) → AllOf Q cs
    → P rn
    → OrFatal P (run_net_calls rn cs)
unfolding run_net_calls
run_net_calls-OrFatal P Q step rn [] q h = h
run_net_calls-OrFatal P Q step rn (c ∷ cs) (q, qs) h = elim (Option-cases (run_net_call rn c)) [
  | inl fatal ↦ rw fatal tt
  | inr (next, e) ↦
      rw e (run_net_calls-OrFatal P Q step next cs qs (subst (OrFatal P) e (step rn c q h)))
]

-- After any calls on a new network, none of them fatal, the drop rate is from 0 to 1000, and the two
-- delays are values of an int32.
pub InRange-run_net_calls :
    (cs : List NetCall) (rn : Network) → run_net_calls make_network cs ≡ some rn → InRange rn
unfolding make_network
InRange-run_net_calls cs rn e = subst (OrFatal InRange) e (
    run_net_calls-OrFatal InRange (λ c. Unit) (λ rn c q. run_net_call-InRange rn c) make_network cs
      (every cs) (omega arith, omega arith, omega arith))
  where
    every : (cs : List NetCall) → AllOf (λ c. Unit) cs
    every [] = tt
    every (c ∷ cs) = (tt, every cs)
