-- ===== src/Kv/Api.antt =====
-- Messages and errors (src/kvsrv/rpcapi/rpcapi.go), and the conditional write that every server has.
use mit_distro_sys.Common.{
  ℕ, ◌+◌, ◌%◌, ◌^◌, String, Option, none, some, ◌==◌, if◌then◌else◌, string_eq,
}
use mit_distro_sys.Common.Assoc.{Assoc, lookup, insert}

-- The error strings. `err_empty` is the zero value "" of a reply that was not filled in.
pub data Err : Type 0 where
  ok err_no_key err_version err_maybe err_wrong_leader err_wrong_group err_retry_exhausted : Err
  err_illegal_operation err_empty : Err

-- `Tversion` is a `uint64`, whose increment wraps.
abbrev pub bump : ℕ → ℕ
bump version = (version + 1) % 2 ^ 64

pub record PutArgs : Type 0 where
  pub client_id : ℕ
  pub request_id : ℕ
  pub key : String
  pub value : String
  pub version : ℕ

pub record PutReply : Type 0 where
  pub err : Err

pub record GetArgs : Type 0 where
  pub key : String

pub record GetReply : Type 0 where
  pub value : String
  pub version : ℕ
  pub err : Err

pub record VersionedValue : Type 0 where
  pub value : String
  pub version : ℕ

abbrev pub KvMap : Type 0
KvMap = Assoc String VersionedValue

abbrev pub get_found : Option VersionedValue → GetReply
get_found none = record { value = ""; version = 0; err = err_no_key }
get_found (some v) = record { value = v.value; version = v.version; err = ok }

-- The read that the servers have in common.
unfoldable pub get_from : KvMap → String → GetReply
get_from kvm key = get_found (lookup key kvm)

-- What a Put finds at its key decides: the value to store there, if any, and the error.
unfoldable pub check_version : Option VersionedValue → PutArgs → Option VersionedValue × Err
check_version (some v) args =
    if v.version == args.version
    then (some (record { value = args.value; version = bump v.version }), ok)
    else (none, err_version)
check_version none args =
    if args.version == 0
    then (some (record { value = args.value; version = 1 }), ok)
    else (none, err_no_key)

abbrev pub store_at : String → Option VersionedValue → KvMap → KvMap
store_at key none kvm = kvm
store_at key (some v) kvm = insert key v kvm

-- The conditional write that the servers have in common.
unfoldable pub put_into : KvMap → PutArgs → KvMap × Err
unfolding check_version
put_into kvm args =
    let r = check_version (lookup args.key kvm) args in (store_at args.key r.0 kvm, r.1)
