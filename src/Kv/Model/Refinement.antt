-- ===== src/Kv/Model/Refinement.antt =====
-- The single server implements the specification, key by key.
use mit_distro_sys.Kv.Replica.Versions.{overwrite, put_into-lookup}
use mit_distro_sys.Common.{
  string_eq, String, ◌≡◌, ◌≢◌, true, Option, none, some, arith, beq_self, refl, subst, inl, inr,
  Bool, false, List, [], ◌∷◌, if◌then◌else◌, Bool-cases, ◌==◌,
}
use mit_distro_sys.Common.Assoc.{lookup}
use mit_distro_sys.Kv.Api.{
  err_no_key, KvMap, PutArgs, PutReply, GetArgs, GetReply, VersionedValue, check_version, get_found,
}
use mit_distro_sys.Kv.Server.{KvServer, get, put}
use mit_distro_sys.Kv.Model.{KvInput, KvOutput, KvState, step}

abbrev pub get_input : GetArgs → KvInput
get_input args = record { op = 0; key = args.key; value = ""; version = 0 }

abbrev pub put_input : PutArgs → KvInput
put_input args = record { op = 1; key = args.key; value = args.value; version = args.version }

abbrev pub get_output : GetReply → KvOutput
get_output r = record { value = r.value; version = r.version; err = r.err }

abbrev pub put_output : PutReply → KvOutput
put_output r = record { value = ""; version = 0; err = r.err }

-- The state of the specification that stands for what is found at a key: nothing is `Init`.
abbrev pub state_of : Option VersionedValue → KvState
state_of none = record { value = ""; version = 0 }
state_of (some v) = record { value = v.value; version = v.version }

abbrev pub view : KvMap → String → KvState
view kvm key = state_of (lookup key kvm)

step-get_found :
    (o : Option VersionedValue) (args : GetArgs)
    → step (state_of o) (get_input args) (get_output (get_found o)) ≡ (true, some (state_of o))
unfolding step
step-get_found none args = rw (beq_self {A = String} "")
step-get_found (some v) args = rw (beq_self v.value)

-- A Get is a step of the specification at its key.
get-step :
    (kv : KvServer) (args : GetArgs)
    → step (view kv.kvm args.key) (get_input args) (get_output (get kv args))
      ≡ (true, some (view kv.kvm args.key))
unfolding get
get-step kv args = step-get_found (lookup args.key kv.kvm) args

step-check_version :
    (o : Option VersionedValue) (args : PutArgs)
    → (check_version o args).1 ≢ err_no_key
    → step (state_of o) (put_input args) (put_output (record { err = (check_version o args).1 }))
      ≡ (true, some (state_of (overwrite o (check_version o args).0)))
unfolding step check_version
step-check_version none args h = ground arith
step-check_version (some v) args h = ground arith

-- A Put that is not answered with `ErrNoKey` is a step of the specification at its key.
put-step :
    (kv : KvServer) (args : PutArgs)
    → (put kv args).1.err ≢ err_no_key
    → step (view kv.kvm args.key) (put_input args) (put_output (put kv args).1)
      ≡ (true, some (view (put kv args).0.kvm args.key))
unfolding put
put-step kv args h =
    rw (put_into-lookup kv.kvm args args.key, beq_self args.key)
      (step-check_version (lookup args.key kv.kvm) args h)

-- A Put of another key does not move this key's state.
put_other :
    (kv : KvServer) (args : PutArgs) (j : String)
    → string_eq.beq args.key j ≡ false
    → view (put kv args).0.kvm j ≡ view kv.kvm j
unfolding put
put_other kv args j h = rw (put_into-lookup kv.kvm args j, h)

pub data Op : Type 0 where
  read : GetArgs → Op
  write : PutArgs → Op

abbrev pub key_of : Op → String
key_of (read args) = args.key
key_of (write args) = args.key

abbrev pub after : KvServer → Op → KvServer
after kv (read args) = kv
after kv (write args) = (put kv args).0

abbrev pub event : KvServer → Op → KvInput × KvOutput
event kv (read args) = (get_input args, get_output (get kv args))
event kv (write args) = (put_input args, put_output (put kv args).1)

-- What the server answers at one key, the operations in the order that its lock gave them.
abbrev pub history : String → KvServer → List Op → List (KvInput × KvOutput)
history j kv [] = []
history j kv (op ∷ ops) =
    let rest = history j (after kv op) ops in
    if string_eq.beq (key_of op) j then event kv op ∷ rest else rest

abbrev pub follow : Bool → Option KvState → (KvState → Bool) → Bool
follow true (some st) k = k st
follow true none k = false
follow false o k = false

-- The specification follows a history.
abbrev pub accepts : KvState → List (KvInput × KvOutput) → Bool
accepts st [] = true
accepts st ((i, o) ∷ h) = let r = step st i o in follow r.0 r.1 (λ st'. accepts st' h)

-- No Put is answered with `ErrNoKey`.
abbrev pub NeverMissing : KvServer → List Op → Type 0
NeverMissing kv [] = Unit
NeverMissing kv (read args ∷ ops) = NeverMissing kv ops
NeverMissing kv (write args ∷ ops) =
    ((put kv args).1.err ≢ err_no_key) × NeverMissing (put kv args).0 ops

accepts-cons :
    (st st' : KvState) (i : KvInput) (o : KvOutput) (h : List (KvInput × KvOutput))
    → step st i o ≡ (true, some st')
    → accepts st' h ≡ true
    → accepts st ((i, o) ∷ h) ≡ true
accepts-cons st st' i o h e t = rw e t

-- Whatever Gets and Puts the single server runs, in the order that its lock gives them, the answers
-- about each key are a legal history of the specification from the key's state, if no Put among them
-- is answered with `ErrNoKey`.
pub history-accepted :
    (j : String) (kv : KvServer) (ops : List Op)
    → NeverMissing kv ops
    → accepts (view kv.kvm j) (history j kv ops) ≡ true
history-accepted j kv [] h = refl
history-accepted j kv (read args ∷ ops) h =
    let ih = history-accepted j kv ops h in
    elim (Bool-cases (string_eq.beq args.key j)) [
      | inr other ↦ rw other ih
      | inl here ↦ rw here (
          accepts-cons (view kv.kvm j) (view kv.kvm j) (get_input args) (get_output (get kv args)) _
            (subst
              (λ k.
                step (view kv.kvm k) (get_input args) (get_output (get kv args))
                ≡ (true, some (view kv.kvm k)))
              ((string_eq.beq_iff args.key j).0 here) (get-step kv args))
            ih)
    ]
history-accepted j kv (write args ∷ ops) h =
    let kv' = (put kv args).0 in
    let ih = history-accepted j kv' ops h.1 in
    elim (Bool-cases (string_eq.beq args.key j)) [
      | inr other ↦
          rw other
            (subst (λ s. accepts s (history j kv' ops) ≡ true) (put_other kv args j other) ih)
      | inl here ↦ rw here (
          accepts-cons (view kv.kvm j) (view kv'.kvm j) (put_input args)
            (put_output (put kv args).1) _
            (subst
              (λ k.
                step (view kv.kvm k) (put_input args) (put_output (put kv args).1)
                ≡ (true, some (view kv'.kvm k)))
              ((string_eq.beq_iff args.key j).0 here) (put-step kv args h.0))
            ih)
    ]

-- A Put of a version other than 0 at a key that the server does not have is answered with
-- `ErrNoKey`, and the specification does not take that answer.
pub missing_key_rejected :
    (kv : KvServer) (args : PutArgs)
    → lookup args.key kv.kvm ≡ none
    → args.version ≢ 0
    → ((put kv args).1.err ≡ err_no_key)
      × ((step (view kv.kvm args.key) (put_input args) (put_output (put kv args).1)).0 ≡ false)
unfolding put step check_version
missing_key_rejected kv args e h =
    let new : (args.version == 0) ≡ false = ground arith in
    let old : (0 == args.version) ≡ false = ground arith in
    let err : (put kv args).1.err ≡ err_no_key = rw (e, check_version) (rw new) in
    (err, rw (e, check_version) (rw (new, old)))
