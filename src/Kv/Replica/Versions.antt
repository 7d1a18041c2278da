-- ===== src/Kv/Replica/Versions.antt =====
-- What a conditional write does, seen through lookups.
use mit_distro_sys.Common.{string_eq, String, ◌≡◌, Option, none, some, arith, if◌then◌else◌}
use mit_distro_sys.Common.Assoc.{lookup, lookup-insert}
use mit_distro_sys.Kv.Api.{KvMap, PutArgs, VersionedValue, check_version, put_into, store_at}

abbrev pub overwrite : Option VersionedValue → Option VersionedValue → Option VersionedValue
overwrite old none = old
overwrite old (some v) = some v

store_at-lookup :
    (key j : String) (v : Option VersionedValue) (kvm : KvMap)
    → lookup j (store_at key v kvm)
      ≡ (if string_eq.beq key j then overwrite (lookup j kvm) v else lookup j kvm)
store_at-lookup key j none kvm = ground arith
store_at-lookup key j (some v) kvm = lookup-insert key j v kvm

-- A conditional write changes at most its own key, to the value that the version check of that key
-- decided on; every other key reads as before.
pub put_into-lookup :
    (kvm : KvMap) (args : PutArgs) (j : String)
    → lookup j (put_into kvm args).0 ≡ (
        if string_eq.beq args.key j
        then overwrite (lookup j kvm) (check_version (lookup args.key kvm) args).0
        else lookup j kvm)
unfolding put_into
put_into-lookup kvm args j =
    store_at-lookup args.key j (check_version (lookup args.key kvm) args).0 kvm
