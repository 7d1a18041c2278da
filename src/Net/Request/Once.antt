-- ===== src/Net/Request/Once.antt =====
-- How often the handler of a request runs, and what the client gets.
use mit_distro_sys.Common.{
  ℕ, ◌+◌, ◌≤◌, ◌≡◌, true, [], ◌∷◌, length, suc, ap, subst, arith, String, refl, sym, ◌∙◌, ◌⊎◌, inl,
  inr, false, List, Bool-cases,
}
use mit_distro_sys.ShardCfg.{ℤ}
use mit_distro_sys.Net.{Network, is_server_dead}
use mit_distro_sys.Net.Request.{
  ReplyMsg, Admission, Phase, arrived, admitted, waiting, returned, replied, Request, failed,
  is_dropped, answer_with, RequestStep, enter, refuse, drop_request, dispatch, execute, take_result,
  stop_waiting, send_reply, RequestRun, arrive, proceed,
}

module _ {B : Type 0} where
  -- A good reply is the result of the only run of the handler.
  abbrev pub Genuine : Request B → ReplyMsg B → Type 0
  Genuine s m = m.ok ≡ true → (s.results ≡ m ∷ []) × (s.running ≡ 0)

  abbrev pub Fits : Request B → Phase B → Type 0
  Fits s arrived = (s.running ≡ 0) × (s.results ≡ [])
  Fits s (admitted a) = (s.running ≡ 0) × (s.results ≡ [])
  Fits s (waiting a rate) = s.running + length s.results ≡ 1
  Fits s (returned a rate r) = (s.running ≡ 0) × (s.results ≡ r ∷ [])
  Fits s (replied m) = (s.running + length s.results ≤ 1) × Genuine s m

  no_rest : (rest : List (ReplyMsg B)) → length rest ≡ 0 → rest ≡ []
  no_rest [] e = refl
  no_rest (r ∷ rest) e = absurd (ground arith)

  -- An answer is a failure, or the result from a server that is not dead.
  pub answer_with-cases :
      (rn : Network) (endname : String) (a : Admission) (rate : ℤ) (rand : ℕ) (r : ReplyMsg B)
      → (answer_with rn endname a rate rand r ≡ failed)
        ⊎ ((answer_with rn endname a rate rand r ≡ r)
            × (is_server_dead rn endname a.servername a.server ≡ false))
  unfolding answer_with
  answer_with-cases rn endname a rate rand r =
      elim (Bool-cases (is_server_dead rn endname a.servername a.server)) [
        | inl dead ↦ inl (rw dead refl)
        | inr alive ↦ elim (Bool-cases (is_dropped a.reliable rate rand)) [
          | inl dropped ↦ inl (rw (alive, dropped) refl)
          | inr kept ↦ inr (rw (alive, kept) refl, alive)
        ]
      ]

  -- A run of the handler
  execute-Fits :
      (s : Request B) (left : ℕ) (r : ReplyMsg B) (p : Phase B)
      → s.running ≡ suc left
      → Fits s p
      → Fits (record s { running = left; results = r ∷ s.results }) p
  execute-Fits s left r arrived on h = absurd (ground arith)
  execute-Fits s left r (admitted a) on h = absurd (ground arith)
  execute-Fits s left r (waiting a rate) on h = ground arith
  execute-Fits s left r (returned a rate q) on h = absurd (ground arith)
  execute-Fits s left r (replied m) on (h, g) =
      (ground arith, λ good. absurd (ground (arith, g good)))

  Fits-step :
      (rn : Network) {s t : Request B} → RequestStep rn s t → Fits s s.phase → Fits t t.phase
  unfolding answer_with
  Fits-step rn {s} (enter a at ad e) h = rw e (subst (Fits s) at h)
  Fits-step rn {s} (refuse at ad e) h =
      let f = subst (Fits s) at h in rw e (ground arith, λ good. absurd (ground arith))
  Fits-step rn {s} (drop_request a rand at dropped e) h =
      let f = subst (Fits s) at h in rw e (ground arith, λ good. absurd (ground arith))
  Fits-step rn {s} (dispatch a rand at kept e) h =
      let f = subst (Fits s) at h in rw e (ground arith)
  Fits-step rn {s} (execute left r on e) h = rw e (execute-Fits s left r s.phase on h)
  Fits-step rn {s} (take_result a rate r rest at got e) h =
      let f = subst (Fits s) at h in
      rw e (
        ground (arith, ap length got),
        got ∙ ap (λ xs. r ∷ xs) (no_rest rest (ground (arith, ap length got))),
      )
  Fits-step rn {s} (stop_waiting a rate at dead e) h =
      let f = subst (Fits s) at h in rw e (ground arith, λ good. absurd (ground arith))
  Fits-step rn {s} (send_reply a rate rand r at e) h =
      let (n, f) = subst (Fits s) at h in
      rw e (
        ground (arith, ap length f),
        λ good. elim (answer_with-cases rn s.endname a rate rand r) [
          | inl lost ↦ absurd (ground (arith, ap (λ (m : ReplyMsg B). m.ok) lost))
          | inr (same, _) ↦ (f ∙ ap (λ m. m ∷ []) (sym same), n)
        ],
      )

  pub RequestRun-Fits : {endname : String} {s : Request B} → RequestRun endname s → Fits s s.phase
  RequestRun-Fits arrive = (refl, refl)
  RequestRun-Fits (proceed rn run st) = Fits-step rn st (RequestRun-Fits run)

  Fits-once : (s : Request B) (p : Phase B) → Fits s p → s.running + length s.results ≤ 1
  Fits-once s arrived (n, e) = ground (arith, ap length e)
  Fits-once s (admitted a) (n, e) = ground (arith, ap length e)
  Fits-once s (waiting a rate) h = omega arith
  Fits-once s (returned a rate r) (n, e) = ground (arith, ap length e)
  Fits-once s (replied m) (le, g) = le

  -- Over any run of a request, while the network changes in any way, the handler runs at most once,
  -- counting a run that is still to come; and if the client gets a good reply, the handler has run
  -- exactly once and returned this reply.
  pub RequestRun-Genuine :
      {endname : String} {s : Request B}
      → RequestRun endname s
      → (s.running + length s.results ≤ 1) × ((m : ReplyMsg B) → s.phase ≡ replied m → Genuine s m)
  RequestRun-Genuine {endname} {s} run =
      let h = RequestRun-Fits run in (Fits-once s s.phase h, λ m e. (subst (Fits s) e h).1)
