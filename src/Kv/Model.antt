-- ===== src/Kv/Model.antt =====
-- The specification that histories are checked against (src/models/kv.go, `KvModel`): one key's
-- value and version. The checker itself, which searches for an order, is a library.
use mit_distro_sys.Common.{
  ℕ, String, Bool, true, false, Option, none, some, ◌==◌, if◌then◌else◌, string_eq,
}
use mit_distro_sys.Kv.Api.{Err, ok, err_version, err_maybe, bump}
pub mod Refinement
pub mod Once

pub record KvInput : Type 0 where
  pub op : ℕ
  pub key : String
  pub value : String
  pub version : ℕ

pub record KvOutput : Type 0 where
  pub value : String
  pub version : ℕ
  pub err : Err

pub record KvState : Type 0 where
  pub value : String
  pub version : ℕ

-- `Init`
unfoldable pub init : KvState
init = record { value = ""; version = 0 }

abbrev pub is_one_of : Err → Err → Bool
is_one_of err_maybe e = true
is_one_of ok ok = true
is_one_of err_version err_version = true
is_one_of _ _ = false

-- `Step`: is the output legal, and the next state, `none` for "<invalid>"
unfoldable pub step : KvState → KvInput → KvOutput → Bool × Option KvState
step st inp out =
    if inp.op == 0
    then (string_eq.beq out.value st.value, some st)
    else if inp.op == 1
    then (if st.version == inp.version
        then (is_one_of out.err ok, some (record { value = inp.value; version = bump st.version }))
        else (is_one_of out.err err_version, some st))
    else (false, none)
