-- ===== src/Net/Request/Progress.antt =====
-- How a request ends in a network that stays as it is (src/rpc/rpc.go, `processReq`).
use mit_distro_sys.Net.Request.Once.{Fits, RequestRun-Fits}
use mit_distro_sys.ShardCfg.{ℤ, pos, negsuc}
use mit_distro_sys.Common.{
  ℕ, suc, ◌≡◌, String, refl, ap, subst, ◌⊎◌, inl, inr, none, Bool, true, false, some, List, [], ◌∷◌,
  arith, Bool-cases,
}
use mit_distro_sys.Net.{Network, is_server_dead}
use mit_distro_sys.Net.Request.{
  ReplyMsg, Admission, Phase, arrived, admitted, waiting, returned, replied, Request, RequestStep,
  enter, refuse, drop_request, dispatch, execute, take_result, stop_waiting, send_reply, RequestRun,
  is_dropped, admit, failed, answer_with,
}

-- Requests come through the end to a server, and none is dropped.
abbrev pub IsOpen : Network → String → Type 0
IsOpen rn endname =
    (a : Admission) × (admit rn endname ≡ some a)
    × (is_server_dead rn endname a.servername a.server ≡ false)
    × (a.reliable ≡ true)

reliable-kept :
    (reliable : Bool) (rate : ℤ) (rand : ℕ)
    → reliable ≡ true
    → is_dropped reliable rate rand ≡ false
reliable-kept reliable (pos n) rand e = ground (arith, e)
reliable-kept reliable (negsuc n) rand e = refl

module _ {B : Type 0} where
  -- The request would not get in, or what it found when it got in is gone: its end is not enabled, or
  -- the server has been replaced or deleted.
  abbrev pub IsDead : Network → String → Phase B → Type 0
  IsDead rn endname arrived = admit rn endname ≡ none
  IsDead rn endname (admitted a) = is_server_dead rn endname a.servername a.server ≡ true
  IsDead rn endname (waiting a rate) = is_server_dead rn endname a.servername a.server ≡ true
  IsDead rn endname (returned a rate r) = is_server_dead rn endname a.servername a.server ≡ true
  IsDead rn endname (replied m) = Unit

  -- A step that is none of the handler.
  abbrev pub IsQuiet : {rn : Network} {s t : Request B} → RequestStep rn s t → Type 0
  IsQuiet (execute left r on e) = ⊥
  IsQuiet _ = Unit

  -- Steps of a request in a network that stays as it is, with what the handler returned in them
  pub data Leads (rn : Network) : List (ReplyMsg B) → Request B → Request B → Type 0 where
    stay : {s : Request B} → Leads rn [] s s
    go :
        {rs : List (ReplyMsg B)} {s t u : Request B} (st : RequestStep rn s t)
        → IsQuiet st
        → Leads rn rs t u
        → Leads rn rs s u
    handle :
        {rs : List (ReplyMsg B)} {s u : Request B} (left : ℕ) (r : ReplyMsg B)
        → s.running ≡ suc left
        → Leads rn rs (record s { running = left; results = r ∷ s.results }) u
        → Leads rn (r ∷ rs) s u

  -- It comes to this reply.
  abbrev pub Replies : Network → List (ReplyMsg B) → Request B → ReplyMsg B → Type 0
  Replies rn rs s m = (t : Request B) × Leads rn rs s t × (t.phase ≡ replied m)

  module _ (rn : Network) where
    Replies-go :
        {rs : List (ReplyMsg B)} {s t : Request B} {m : ReplyMsg B} (st : RequestStep rn s t)
        → IsQuiet st
        → Replies rn rs t m
        → Replies rn rs s m
    Replies-go st quiet (u, path, e) = (u, go st quiet path, e)

    returned-Replies :
        (s : Request B) (a : Admission) (rate : ℤ) (q : ReplyMsg B)
        → s.phase ≡ returned a rate q
        → Replies rn [] s (answer_with rn s.endname a rate 0 q)
    returned-Replies s a rate q e = Replies-go (send_reply a rate 0 q e refl) tt (_, stay, refl)

    executed-Replies :
        (s : Request B) (a : Admission) (rate : ℤ) (r : ReplyMsg B)
        → s.phase ≡ waiting a rate
        → s.running ≡ 1
        → Replies rn (r ∷ []) s (answer_with rn s.endname a rate 0 r)
    executed-Replies s a rate r e on =
        let (u, path, f) =
          Replies-go (take_result a rate r s.results e refl refl) tt
            (returned-Replies _ a rate r refl) in
        (u, handle 0 r on path, f)

    -- Without the handler, if the end is dead
    admitted-Fails :
        (s : Request B) (a : Admission)
        → is_server_dead rn s.endname a.servername a.server ≡ true
        → s.phase ≡ admitted a
        → Replies rn [] s failed
    admitted-Fails s a dead e = elim (Bool-cases (is_dropped a.reliable rn.drop_rate 0)) [
      | inl dropped ↦ Replies-go (drop_request a 0 e dropped refl) tt (_, stay, refl)
      | inr kept ↦
          Replies-go (dispatch a 0 e kept refl) tt
            (Replies-go (stop_waiting a rn.drop_rate refl dead refl) tt (_, stay, refl))
    ]

    phase-Fails :
        (s : Request B) (p : Phase B)
        → IsDead rn s.endname p
        → s.phase ≡ p
        → (m : ReplyMsg B) × Replies rn [] s m × ((m ≡ failed) ⊎ (s.phase ≡ replied m))
    unfolding answer_with
    phase-Fails s arrived dead e =
        (failed, Replies-go (refuse e dead refl) tt (_, stay, refl), inl refl)
    phase-Fails s (admitted a) dead e = (failed, admitted-Fails s a dead e, inl refl)
    phase-Fails s (waiting a rate) dead e =
        (failed, Replies-go (stop_waiting a rate e dead refl) tt (_, stay, refl), inl refl)
    phase-Fails s (returned a rate q) dead e =
        (_, returned-Replies s a rate q e, inl (rw dead refl))
    phase-Fails s (replied m) dead e = (m, (s, stay, e), inr e)

    open-Replies :
        (r : ReplyMsg B) (s : Request B)
        → IsOpen rn s.endname
        → s.phase ≡ arrived
        → s.running ≡ 0
        → Replies rn (r ∷ []) s r
    unfolding answer_with
    open-Replies r s (a, ad, alive, sure) e h =
        let kept = reliable-kept a.reliable rn.drop_rate 0 sure in
        let same : answer_with rn s.endname a rn.drop_rate 0 r ≡ r = rw (alive, kept) refl in
        subst (Replies rn (r ∷ []) s) same (
          Replies-go (enter a e ad refl) tt (
            Replies-go (dispatch a 0 refl kept refl) tt
              (executed-Replies _ a rn.drop_rate r refl (ap suc h))))

    -- From any state that a request can be in, and if from then on the network stays as it is, with the
    -- request's end dead: the client can get a reply while no handler returns, and this
    -- is a failure unless the request was replied to before.
    pub RequestRun-Fails :
        {endname : String} {s : Request B}
        → RequestRun endname s
        → IsDead rn s.endname s.phase
        → (m : ReplyMsg B) × Replies rn [] s m × ((m ≡ failed) ⊎ (s.phase ≡ replied m))
    RequestRun-Fails {endname} {s} run dead = phase-Fails s s.phase dead refl

    -- If a request has only arrived, its end is enabled and leads to a server that is not dead, the
    -- end is reliable, and the network stays as it is: whatever the handler returns, the client can
    -- get exactly this, after one run of the handler.
    pub RequestRun-Replies :
        {endname : String} {s : Request B} (r : ReplyMsg B)
        → RequestRun endname s
        → IsOpen rn s.endname
        → s.phase ≡ arrived
        → Replies rn (r ∷ []) s r
    RequestRun-Replies {endname} {s} r run way e =
        open-Replies r s way e (subst (Fits s) e (RequestRun-Fits run)).0
