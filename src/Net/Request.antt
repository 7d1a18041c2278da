-- ===== src/Net/Request.antt =====
-- One request on its way (src/rpc/rpc.go, `processReq`), while the network changes.
use mit_distro_sys.Common.{
  ℕ, suc, ◌%◌, String, ◌≡◌, Bool, true, false, not, ◌&&◌, Option, none, some, List, [], ◌∷◌, ltb,
  if◌then◌else◌, ◌>>=◌,
}
use mit_distro_sys.ShardCfg.{ℤ, pos, negsuc}
use mit_distro_sys.Net.{Network, read_endname_info, is_server_dead, Info}
pub mod Once
pub mod Progress

-- `none` is the reply `nil`.
pub record ReplyMsg (B : Type 0) : Type 0 where
  pub ok : Bool
  pub reply : Option B

-- What the request keeps of its end: the server that it found, and two options.
pub record Admission : Type 0 where
  pub servername : String
  pub server : ℕ
  pub reliable : Bool
  pub long_reordering : Bool

-- `waiting` and `returned` keep the drop rate that was read.
pub data Phase (B : Type 0) : Type 0 where
  arrived : Phase B
  admitted : Admission → Phase B
  waiting : Admission → ℤ → Phase B
  returned : Admission → ℤ → ReplyMsg B → Phase B
  replied : ReplyMsg B → Phase B

-- `running` counts the goroutines that have not called the handler yet, and `results` has what the
-- handler returned, the last one first.
pub record Request (B : Type 0) : Type 0 where
  pub endname : String
  pub phase : Phase B
  pub running : ℕ
  pub results : List (ReplyMsg B)

abbrev pub admission_of : Info → Option Admission
admission_of info = info.servername >>= λ servername. info.server >>= λ server. some (record {
  servername = servername;
  server = server;
  reliable = info.reliable;
  long_reordering = info.long_reordering;
})

-- The first test of `processReq`
unfoldable pub admit : Network → String → Option Admission
unfolding read_endname_info
admit rn endname =
    let info = read_endname_info rn endname in if info.enabled then admission_of info else none

-- Whether a message is dropped, with the random number
abbrev pub is_dropped : Bool → ℤ → ℕ → Bool
is_dropped reliable (pos rate) rand = not reliable && ltb (rand % 1000) rate
is_dropped reliable (negsuc rate) rand = false

module _ {B : Type 0} where
  abbrev pub failed : ReplyMsg B
  failed = record { ok = false; reply = none }

  -- What is sent back when the handler has returned; a long delay does not change it.
  unfoldable pub answer_with : Network → String → Admission → ℤ → ℕ → ReplyMsg B → ReplyMsg B
  answer_with rn endname a rate rand r =
      if is_server_dead rn endname a.servername a.server
      then failed
      else if is_dropped a.reliable rate rand
      then failed
      else r

  -- A step of the request, with the network at that time. The handler runs on its own.
  pub data RequestStep (rn : Network) (s t : Request B) : Type 0 where
    enter :
        (a : Admission)
        → s.phase ≡ arrived
        → admit rn s.endname ≡ some a
        → t ≡ record s { phase = admitted a }
        → RequestStep rn s t
    refuse :
        s.phase ≡ arrived
        → admit rn s.endname ≡ none
        → t ≡ record s { phase = replied failed }
        → RequestStep rn s t
    drop_request :
        (a : Admission) (rand : ℕ)
        → s.phase ≡ admitted a
        → is_dropped a.reliable rn.drop_rate rand ≡ true
        → t ≡ record s { phase = replied failed }
        → RequestStep rn s t
    dispatch :
        (a : Admission) (rand : ℕ)
        → s.phase ≡ admitted a
        → is_dropped a.reliable rn.drop_rate rand ≡ false
        → t ≡ record s { phase = waiting a rn.drop_rate; running = suc s.running }
        → RequestStep rn s t
    execute :
        (left : ℕ) (r : ReplyMsg B)
        → s.running ≡ suc left
        → t ≡ record s { running = left; results = r ∷ s.results }
        → RequestStep rn s t
    take_result :
        (a : Admission) (rate : ℤ) (r : ReplyMsg B) (rest : List (ReplyMsg B))
        → s.phase ≡ waiting a rate
        → s.results ≡ r ∷ rest
        → t ≡ record s { phase = returned a rate r }
        → RequestStep rn s t
    stop_waiting :
        (a : Admission) (rate : ℤ)
        → s.phase ≡ waiting a rate
        → is_server_dead rn s.endname a.servername a.server ≡ true
        → t ≡ record s { phase = replied failed }
        → RequestStep rn s t
    send_reply :
        (a : Admission) (rate : ℤ) (rand : ℕ) (r : ReplyMsg B)
        → s.phase ≡ returned a rate r
        → t ≡ record s { phase = replied (answer_with rn s.endname a rate rand r) }
        → RequestStep rn s t

  -- A request from its arrival, with any network at each step
  pub data RequestRun (endname : String) : Request B → Type 0 where
    arrive :
        RequestRun endname
          (record { endname = endname; phase = arrived; running = 0; results = [] })
    proceed :
        {s t : Request B} (rn : Network)
        → RequestRun endname s
        → RequestStep rn s t
        → RequestRun endname t
