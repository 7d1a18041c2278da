-- ===== src/Clerk/Single.antt =====
-- The clerk of the single server (src/kvsrv/client.go) over a network that loses requests and
-- replies, while other clients use the server.
use mit_distro_sys.Common.{Bool, true, false, Option, none, some, List, [], ◌∷◌, if◌then◌else◌}
use mit_distro_sys.Kv.Api.{Err, ok, err_maybe, err_no_key, GetArgs, GetReply, PutArgs, PutReply}
use mit_distro_sys.Kv.Server.{KvServer, get, put}
use mit_distro_sys.Kv.Model.Refinement.{Op}
use mit_distro_sys.Kv.Model.Once.{run_all}
pub mod Maybe

-- What becomes of one `Call`: it returns false unless its reply arrives.
pub data Fate : Type 0 where
  request_lost reply_lost delivered : Fate

-- An attempt: what others did since the one before, and the fate of the call.
abbrev pub Attempt : Type 0
Attempt = List Op × Fate

unfoldable pub call_put : Fate → KvServer → PutArgs → KvServer × Option PutReply
call_put request_lost kv args = (kv, none)
call_put reply_lost kv args = ((put kv args).0, none)
call_put delivered kv args = let r = put kv args in (r.0, some r.1)

-- The loop of `Put` after a first call that failed. `none` is a clerk that still tries.
unfoldable pub resend : KvServer → PutArgs → List Attempt → KvServer × Option Err
unfolding call_put
resend kv args [] = (kv, none)
resend kv args (a ∷ rest) =
    let r = call_put a.1 (run_all kv a.0) args in
    elim r.1 [ none ↦ resend r.0 args rest | some reply ↦ (r.0, some err_maybe) ]

unfoldable pub clerk_put : KvServer → PutArgs → List Attempt → KvServer × Option Err
unfolding call_put resend
clerk_put kv args [] = (kv, none)
clerk_put kv args (a ∷ rest) =
    let r = call_put a.1 (run_all kv a.0) args in
    elim r.1 [ none ↦ resend r.0 args rest | some reply ↦ (r.0, some reply.err) ]

unfoldable pub call_get : Fate → KvServer → GetArgs → Option GetReply
call_get delivered kv args = some (get kv args)
call_get _ kv args = none

-- `Get` returns on OK and on ErrNoKey.
abbrev pub is_final : Err → Bool
is_final ok = true
is_final err_no_key = true
is_final _ = false

unfoldable pub clerk_get : KvServer → GetArgs → List Attempt → KvServer × Option GetReply
unfolding call_get
clerk_get kv args [] = (kv, none)
clerk_get kv args (a ∷ rest) =
    let kv' = run_all kv a.0 in
    let next = clerk_get kv' args rest in
    elim (call_get a.1 kv' args) [
      | none ↦ next
      | some reply ↦ if is_final reply.err then (kv', some reply) else next
    ]
