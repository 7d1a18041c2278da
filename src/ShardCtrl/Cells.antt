-- ===== src/ShardCtrl/Cells.antt =====
-- The config store seen through its two configurations.
use mit_distro_sys.Common.{
  ℕ, string_eq, nat_eq, suc, ◌+◌, ◌^◌, ◌<◌, String, ◌≡◌, ◌⊎◌, inl, inr, false, some, Option-cases,
  refl, sym, ◌∙◌, Option, none, arith, ◌==◌, if◌then◌else◌, Bool-cases, ◌>>=◌, >>=-eq-some, ap,
  beq_self,
}
use mit_distro_sys.Common.Assoc.{lookup}
use mit_distro_sys.Kv.Api.{
  PutArgs, ok, err_version, VersionedValue, put_into, check_version, get_from, bump,
}
use mit_distro_sys.Kv.Server.{KvServer, get, put}
use mit_distro_sys.Kv.Replica.Versions.{put_into-lookup, overwrite}
use mit_distro_sys.ShardCfg.{ShardConfig}
use mit_distro_sys.ShardCtrl.{ConfigText, query, put_config}

module _ (text : ConfigText) where
  open text use {to_text, of_text, of_text-to_text}

  abbrev pub of_cell : Option VersionedValue → Option (ShardConfig × ℕ)
  of_cell none = none
  of_cell (some v) = of_text v.value >>= λ cfg. some (cfg, v.version)

  query-of_cell :
      (store : KvServer) (key : String) → query text store key ≡ of_cell (lookup key store.kvm)
  unfolding query get get_from
  query-of_cell store key = elim (Option-cases (lookup key store.kvm)) [
    | inl e ↦ rw e refl
    | inr (v, e) ↦ rw e refl
  ]

  -- A configuration that is read stands in the store with its version.
  of_cell-version :
      (o : Option VersionedValue) (cfg : ShardConfig) (ver : ℕ)
      → of_cell o ≡ some (cfg, ver)
      → (v : VersionedValue) × (o ≡ some v) × (v.version ≡ ver)
  of_cell-version none cfg ver e = absurd (ground arith)
  of_cell-version (some v) cfg ver e =
      let (c, p, q) = >>=-eq-some (of_text v.value) _ e in (v, refl, ground arith)

  abbrev put_args : String → ShardConfig → ℕ → PutArgs
  put_args key new ver = record {
    client_id = 0;
    request_id = 0;
    key = key;
    value = to_text new;
    version = ver;
  }

  put_config-lookup :
      (store : KvServer) (key other : String) (new : ShardConfig) (ver : ℕ)
      → lookup other (put_config text store key new ver).0.kvm ≡ (
          if string_eq.beq key other
          then overwrite
              (lookup other store.kvm)
              (check_version (lookup key store.kvm) (put_args key new ver)).0
          else lookup other store.kvm)
  unfolding put_config put
  put_config-lookup store key other new ver = put_into-lookup store.kvm (put_args key new ver) other

  pub put_config-other :
      (store : KvServer) (key other : String) (new : ShardConfig) (ver : ℕ)
      → string_eq.beq key other ≡ false
      → query text (put_config text store key new ver).0 other ≡ query text store other
  put_config-other store key other new ver h =
      rw
        (
          query-of_cell (put_config text store key new ver).0 other,
          query-of_cell store other,
          put_config-lookup store key other new ver,
          h,
        )
        refl

  -- A conditional write of a configuration succeeds at the version that it names, with the next one,
  -- and otherwise changes nothing.
  pub put_config-cases :
      (store : KvServer) (key : String) (cfg new : ShardConfig) (cur ver : ℕ)
      → query text store key ≡ some (cfg, cur)
      → cur + 1 < 2 ^ 64
      → ((cur ≡ ver)
          × (query text (put_config text store key new ver).0 key ≡ some (new, suc cur))
          × ((put_config text store key new ver).1.err ≡ ok))
        ⊎ (query text (put_config text store key new ver).0 key ≡ some (cfg, cur))
          × ((put_config text store key new ver).1.err ≡ err_version)
  unfolding put_config put put_into check_version
  put_config-cases store key cfg new cur ver e room =
      let cell : of_cell (lookup key store.kvm) ≡ some (cfg, cur) =
        sym (query-of_cell store key) ∙ e in
      let (v, found, same) = of_cell-version (lookup key store.kvm) cfg cur cell in
      let after = put_config-lookup store key key new ver in
      let reads = query-of_cell (put_config text store key new ver).0 key in
      elim (Bool-cases (v.version == ver)) [
        | inl hit ↦
            let w : VersionedValue = record { value = to_text new; version = bump v.version } in
            let now : lookup key (put_config text store key new ver).0.kvm ≡ some w =
              after ∙ rw (beq_self key, found) (rw hit refl) in
            let next : bump v.version ≡ suc cur = omega (arith, same, room) in
            inl (
              ground arith,
              reads ∙ ap of_cell now ∙ rw (of_text-to_text new) (ap (λ n. some (new, n)) next),
              rw found (rw hit refl),
            )
        | inr miss ↦
            let now : lookup key (put_config text store key new ver).0.kvm ≡ lookup key store.kvm =
              after ∙ rw (beq_self key, found) (rw miss refl) in
            inr (reads ∙ ap of_cell now ∙ cell, rw found (rw miss refl))
      ]
