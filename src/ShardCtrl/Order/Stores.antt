-- ===== src/ShardCtrl/Order/Stores.antt =====
-- What the two Puts of a controller do to the configurations.
use mit_distro_sys.Common.{
  ℕ, string_eq, nat_eq, suc, ◌≤◌, ◌<◌, ◌≡◌, refl, arith, ◌+◌, ◌^◌, sym, ◌∙◌, ◌⊎◌, inl, inr, some,
}
use mit_distro_sys.Kv.Api.{ok, err_version}
use mit_distro_sys.Kv.Server.{KvServer}
use mit_distro_sys.ShardCfg.{ShardConfig}
use mit_distro_sys.ShardCtrl.{ConfigText, query, put_config, Progress, saving, migrating}
use mit_distro_sys.ShardCtrl.Cells.{put_config-cases, put_config-other}
use mit_distro_sys.ShardCtrl.Order.{
  Cells, WasNext, ProgressOk, Later, next-Ok, current-Ok, equal_to_refl,
}

module _ (text : ConfigText) where
  -- The store has these configurations, and the current one was the next one.
  pub record Holds (store : KvServer) (c : Cells) : Type 0 where
    pub reads_current : query text store "currentConfig" ≡ some (c.current, c.current_version)
    pub reads_next : query text store "nextConfig" ≡ some (c.next, c.next_version)
    pub ordered : WasNext c c.current

  -- A write that keeps what every controller relies on.
  pub record Moved (store : KvServer) (c d : Cells) : Type 0 where
    pub holds : Holds store d
    pub keeps : (p : Progress) → ProgressOk c p → ProgressOk d p
    pub is_later : Later c d
    pub current_room : d.current_version ≤ suc c.current_version
    pub next_room : d.next_version ≤ suc c.next_version

  stays : (store : KvServer) (c : Cells) → Holds store c → Moved store c c
  stays store c h = record {
    holds = h;
    keeps = λ p k. k;
    is_later = (omega arith, omega arith, omega arith, omega arith);
    current_room = omega arith;
    next_room = omega arith;
  }

  pub put_next :
      (store : KvServer) (c : Cells) (ver next_ver : ℕ) (new : ShardConfig)
      → Holds store c
      → c.next_version + 1 < 2 ^ 64
      → ProgressOk c (saving ver new next_ver)
      → (d : Cells) × Moved (put_config text store "nextConfig" new next_ver).0 c d
        × (((put_config text store "nextConfig" new next_ver).1.err ≡ ok)
              × ProgressOk d (migrating ver new)
            ⊎ ((put_config text store "nextConfig" new next_ver).1.err ≡ err_version))
  put_next store c ver next_ver new h room ok' =
      let other = put_config-other text store "nextConfig" "currentConfig" new next_ver refl in
      elim (put_config-cases text store "nextConfig" c.next new c.next_version next_ver h.reads_next
        room) [
          | inl (same, read, good) ↦
              let grows = ok'.2 (sym same) in
              let d : Cells = record c { next = new; next_version = suc c.next_version } in
              (
                d,
                record {
                  holds = record {
                    reads_current = other ∙ h.reads_current;
                    reads_next = read;
                    ordered = (
                      omega (arith, h.ordered.0, grows),
                      λ e. absurd (omega (arith, h.ordered.0, grows, e)),
                    );
                  };
                  keeps = λ p k. next-Ok c new p grows k;
                  is_later = (omega arith, omega arith, omega arith, omega (arith, grows));
                  current_room = omega arith;
                  next_room = omega arith;
                },
                inl (good, (ok'.0, (omega arith, λ e. equal_to_refl new))),
              )
          | inr (read, bad) ↦ (
            c,
            stays _ c (record {
              reads_current = other ∙ h.reads_current;
              reads_next = read;
              ordered = h.ordered;
            }),
            inr bad,
          )
        ]

  pub put_current :
      (store : KvServer) (c : Cells) (ver : ℕ) (new : ShardConfig)
      → Holds store c
      → c.current_version + 1 < 2 ^ 64
      → ProgressOk c (migrating ver new)
      → (d : Cells) × Moved (put_config text store "currentConfig" new ver).0 c d
  put_current store c ver new h room ok' =
      let other = put_config-other text store "currentConfig" "nextConfig" new ver refl in
      elim (put_config-cases text store "currentConfig" c.current new c.current_version ver
        h.reads_current room) [
          | inl (same, read, good) ↦
              let grows = ok'.0.1 (sym same) in
              (
                record c { current = new; current_version = suc c.current_version },
                record {
                  holds = record {
                    reads_current = read;
                    reads_next = other ∙ h.reads_next;
                    ordered = ok'.1;
                  };
                  keeps = λ p k. current-Ok c new p k;
                  is_later = (omega arith, omega arith, omega (arith, grows), omega arith);
                  current_room = omega arith;
                  next_room = omega arith;
                },
              )
          | inr (read, bad) ↦ (
            c,
            stays _ c (record {
              reads_current = read;
              reads_next = other ∙ h.reads_next;
              ordered = h.ordered;
            }),
          )
        ]
