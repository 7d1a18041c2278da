-- ===== src/Kv/Model/Once.antt =====
-- A version is a ticket: of all Puts that name the same key and version, one at most succeeds.
use mit_distro_sys.Common.Assoc.{lookup}
use mit_distro_sys.Kv.Replica.Versions.{put_into-lookup}
use mit_distro_sys.Common.{
  string_eq, nat_eq, ℕ, suc, ◌+◌, ◌^◌, ◌<◌, String, ◌≡◌, refl, ◌⊎◌, inl, inr, Bool, true, false,
  ◌&&◌, Option, none, some, List, [], ◌∷◌, arith, ◌==◌, if◌then◌else◌, Bool-cases, ◌≤◌, sym, ap,
  ◌∙◌, subst, length,
}
use mit_distro_sys.Kv.Api.{bump, Err, ok, PutArgs, VersionedValue, check_version, put_into}
use mit_distro_sys.Kv.Server.{KvServer, put}
use mit_distro_sys.Kv.Model.Refinement.{after, Op, read, write}

abbrev pub is_ok : Err → Bool
is_ok ok = true
is_ok _ = false

-- The Puts of the key and version that succeed, whoever sends them and in whatever order.
abbrev pub successes : String → ℕ → KvServer → List Op → ℕ
successes key version kv [] = 0
successes key version kv (read args ∷ ops) = successes key version kv ops
successes key version kv (write args ∷ ops) =
    let rest = successes key version (put kv args).0 ops in
    if string_eq.beq args.key key && args.version == version && is_ok (put kv args).1.err
    then suc rest
    else rest

abbrev pub version_of : Option VersionedValue → ℕ
version_of none = 0
version_of (some v) = v.version

-- What a conditional write does to the version at its key.
check_version-cases :
    (o : Option VersionedValue) (args : PutArgs)
    → version_of o + 1 < 2 ^ 64
    → ((check_version o args).0 ≡ none) × (is_ok (check_version o args).1 ≡ false)
      ⊎ ((v : VersionedValue) × ((check_version o args).0 ≡ some v)
          × (version_of o ≡ args.version)
          × (v.version ≡ suc args.version))
unfolding check_version
check_version-cases none args room = elim (Bool-cases (args.version == 0)) [
  | inl y ↦ inr (record { value = args.value; version = 1 }, rw y refl, ground arith, ground arith)
  | inr n ↦ inl (rw n refl, rw n refl)
]
check_version-cases (some v) args room = elim (Bool-cases (v.version == args.version)) [
  | inl y ↦ inr (
    record { value = args.value; version = bump v.version },
    rw y refl,
    ground arith,
    ground arith,
  )
  | inr n ↦ inl (rw n refl, rw n refl)
]

-- A Put leaves the key as it is, without success there, or raises its version by one.
abbrev pub Kept : KvServer → PutArgs → String → Type 0
Kept kv args key =
    (lookup key (put kv args).0.kvm ≡ lookup key kv.kvm)
    × (string_eq.beq args.key key && is_ok (put kv args).1.err ≡ false)

abbrev pub Raised : KvServer → PutArgs → String → Type 0
Raised kv args key =
    (v : VersionedValue) × (lookup key (put kv args).0.kvm ≡ some v)
    × (version_of (lookup key kv.kvm) ≡ args.version)
    × (v.version ≡ suc args.version)

put-cases :
    (kv : KvServer) (args : PutArgs) (key : String)
    → version_of (lookup key kv.kvm) + 1 < 2 ^ 64
    → Kept kv args key ⊎ Raised kv args key
unfolding put put_into
put-cases kv args key room =
    let after = put_into-lookup kv.kvm args key in
    elim (Bool-cases (string_eq.beq args.key key)) [
      | inr other ↦ inl (after ∙ rw other refl, rw other refl)
      | inl same ↦
          let here : args.key ≡ key = (string_eq.beq_iff args.key key).0 same in
          elim (check_version-cases (lookup args.key kv.kvm) args
            (subst (λ k. version_of (lookup k kv.kvm) + 1 < 2 ^ 64) (sym here) room)) [
              | inl (p, q) ↦ inl (after ∙ rw (same, p) refl, rw (same, q) refl)
              | inr (v, p, q, r) ↦ inr (
                v,
                after ∙ rw (same, p) refl,
                subst (λ k. version_of (lookup k kv.kvm) ≡ args.version) here q,
                r,
              )
            ]
    ]

-- Once the key has a higher version, none succeeds.
successes_past :
    (key : String) (version : ℕ) (kv : KvServer) (ops : List Op) (x : VersionedValue)
    → lookup key kv.kvm ≡ some x
    → version < x.version
    → x.version + length ops < 2 ^ 64
    → successes key version kv ops ≡ 0
successes_past key version kv [] x e h room = refl
successes_past key version kv (read args ∷ ops) x e h room =
    successes_past key version kv ops x e h (omega (arith, room))
successes_past key version kv (write args ∷ ops) x e h room =
    let now : version_of (lookup key kv.kvm) ≡ x.version = rw e refl in
    elim (put-cases kv args key (omega (arith, now, room))) [
      | inl (p, q) ↦
          let rest =
            successes_past key version (put kv args).0 ops x (p ∙ e) h (omega (arith, room)) in
          ground (arith, q, rest)
      | inr (v, p, q, r) ↦
          let rest =
            successes_past key version (put kv args).0 ops v p (omega (arith, h, now, q, r))
              (omega (arith, room, now, q, r)) in
          ground (arith, rest, now, q, h)
    ]

-- Of all Puts that name the same key and version, in whatever order the server runs them and
-- whatever else it runs, at most one succeeds, while there is room for that many versions in 64 bits.
pub successes-le-one :
    (key : String) (version : ℕ) (kv : KvServer) (ops : List Op)
    → version_of (lookup key kv.kvm) + length ops < 2 ^ 64
    → successes key version kv ops ≤ 1
successes-le-one key version kv [] room = omega arith
successes-le-one key version kv (read args ∷ ops) room =
    successes-le-one key version kv ops (omega (arith, room))
successes-le-one key version kv (write args ∷ ops) room =
    elim (put-cases kv args key (omega (arith, room))) [
      | inl (p, q) ↦
          let rest =
            successes-le-one key version (put kv args).0 ops
              (omega (arith, ap version_of p, room)) in
          ground (arith, q, rest)
      | inr (v, p, q, r) ↦ elim (Bool-cases (args.version == version)) [
        | inl here ↦
            let rest =
              successes_past key version (put kv args).0 ops v p (ground (arith, r))
                (omega (arith, q, r, room)) in
            ground (arith, rest)
        | inr other ↦
            let rest =
              successes-le-one key version (put kv args).0 ops
                (omega (arith, ap version_of p, q, r, room)) in
            ground (arith, rest)
      ]
    ]

abbrev pub run_all : KvServer → List Op → KvServer
run_all kv [] = kv
run_all kv (op ∷ ops) = run_all (after kv op) ops

-- Over any sequence of operations that fits in 64 bits the version of a key does not fall, and it
-- rises by at most one for each operation.
pub version_of-run_all :
    (key : String) (kv : KvServer) (ops : List Op)
    → version_of (lookup key kv.kvm) + length ops < 2 ^ 64
    → (version_of (lookup key kv.kvm) ≤ version_of (lookup key (run_all kv ops).kvm))
      × (version_of (lookup key (run_all kv ops).kvm) ≤ version_of (lookup key kv.kvm) + length ops)
version_of-run_all key kv [] room = (omega arith, omega arith)
version_of-run_all key kv (read args ∷ ops) room =
    let rest = version_of-run_all key kv ops (omega (arith, room)) in
    (rest.0, omega (arith, rest.1))
version_of-run_all key kv (write args ∷ ops) room =
    let step : (version_of (lookup key kv.kvm) ≤ version_of (lookup key (put kv args).0.kvm))
        × (version_of (lookup key (put kv args).0.kvm) ≤ version_of (lookup key kv.kvm) + 1) =
      elim (put-cases kv args key (omega (arith, room))) [
        | inl (p, q) ↦ (omega (arith, ap version_of p), omega (arith, ap version_of p))
        | inr (v, p, q, r) ↦
            (omega (arith, ap version_of p, q, r), omega (arith, ap version_of p, q, r))
      ] in
    let rest = version_of-run_all key (put kv args).0 ops (omega (arith, step.1, room)) in
    (omega (arith, step.0, rest.0), omega (arith, step.1, rest.1))
