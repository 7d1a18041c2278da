-- ===== src/ShardCtrl.antt =====
-- The shard controller (src/shardkv/shardctrler/shardctrler.go): changes of the configuration through
-- the two configurations in the config store, by any number of controllers that may crash.
use mit_distro_sys.Common.{
  ℕ, string_eq, nat_eq, suc, String, ◌≡◌, Bool, true, Option, none, some, ltb, leb, if◌then◌else◌,
  ◌>>=◌, update,
}
use mit_distro_sys.Kv.Api.{Err, ok, err_version, err_maybe, err_no_key, GetReply, PutReply}
use mit_distro_sys.Kv.Server.{KvServer, get, put, make_kv_server}
use mit_distro_sys.ShardCfg.{ShardConfig, equal_to}
pub mod Cells
pub mod Order
pub mod Migrate

-- `String` and `FromString` of a configuration (JSON). A text that is none stops the process.
pub record ConfigText : Type 0 where
  pub to_text : ShardConfig → String
  pub of_text : String → Option ShardConfig
  pub of_text-to_text : (cfg : ShardConfig) → of_text (to_text cfg) ≡ some cfg

-- Where a controller stands. `chosen`: the current configuration and its version are read, the new
-- one has a higher number. `saving`: so has the next one, read at the last version. `unsure`: the Put
-- was answered with ErrMaybe. `migrating`: the intention is saved, shards move. `recovering`: a new
-- controller has read the current configuration and its version, and not yet the next one.
pub data Progress : Type 0 where
  idle : Progress
  chosen : ℕ → ShardConfig → Progress
  saving : ℕ → ShardConfig → ℕ → Progress
  unsure : ℕ → ShardConfig → Progress
  migrating : ℕ → ShardConfig → Progress
  recovering : ShardConfig → ℕ → Progress

-- The start of `ChangeConfigTo`, with the current configuration
unfoldable pub change_config_to : ShardConfig → ℕ → ShardConfig → Progress
change_config_to old ver new = if leb new.num old.num then idle else chosen ver new

-- `saveNextConfig` up to its Put, with the next configuration
unfoldable pub save_next_config : ℕ → ShardConfig → ShardConfig → ℕ → Progress
save_next_config ver new existing next_ver =
    if leb new.num existing.num then idle else saving ver new next_ver

-- The `switch` after that Put: `none` is `log.Fatalf`.
unfoldable pub after_save : ℕ → ShardConfig → Err → Option Progress
after_save ver new ok = some (migrating ver new)
after_save ver new err_version = some idle
after_save ver new err_maybe = some (unsure ver new)
after_save ver new _ = none

unfoldable pub confirm : ℕ → ShardConfig → ShardConfig → Progress
confirm ver new written = if equal_to written new then migrating ver new else idle

unfoldable pub is_superseded : ShardConfig → ShardConfig → Bool
is_superseded new current = leb new.num current.num

-- `InitController` after its two calls, with what they read
unfoldable pub init_controller : ShardConfig → ℕ → ShardConfig → Progress
init_controller current ver next = if ltb current.num next.num then migrating ver next else idle

pub record Control : Type 0 where
  pub store : KvServer
  pub controllers : ℕ → Progress

module _ (text : ConfigText) where
  open text use {to_text, of_text}

  abbrev pub parse_reply : Err → GetReply → Option (ShardConfig × ℕ)
  parse_reply err_no_key r = none
  parse_reply _ r = of_text r.value >>= λ cfg. some (cfg, r.version)

  -- `queryCurrentConfig` and `queryNextConfig`
  unfoldable pub query : KvServer → String → Option (ShardConfig × ℕ)
  query store key = let r = get store (record { key = key }) in parse_reply r.err r

  unfoldable pub put_config : KvServer → String → ShardConfig → ℕ → KvServer × PutReply
  put_config store key cfg version =
      put store (record {
        client_id = 0;
        request_id = 0;
        key = key;
        value = to_text cfg;
        version = version;
      })

  unfoldable pub init_config : KvServer → ShardConfig → KvServer
  unfolding put_config
  init_config store cfg =
      (put_config (put_config store "currentConfig" cfg 0).0 "nextConfig" cfg 0).0

  -- `HasPendingMigration`, with the store at each of its two calls
  unfoldable pub has_pending_migration : KvServer → KvServer → Option Bool
  unfolding query
  has_pending_migration store later_store = query store "currentConfig" >>= λ cur.
      query later_store "nextConfig" >>= λ next. some (ltb cur.0.num next.0.num)

  -- A step of one controller: one call to the config store, or a crash. A Put whose reply is lost is
  -- performed and leaves the controller where it is, since its clerk sends it again.
  pub data ControlStep (s t : Control) : Type 0 where
    choose :
        (i ver : ℕ) (old new : ShardConfig)
        → query s.store "currentConfig" ≡ some (old, ver)
        → t ≡ record s { controllers = update s.controllers i (change_config_to old ver new) }
        → ControlStep s t
    check_next :
        (i ver next_ver : ℕ) (new existing : ShardConfig)
        → s.controllers i ≡ chosen ver new
        → query s.store "nextConfig" ≡ some (existing, next_ver)
        → t ≡ record s {
          controllers = update s.controllers i (save_next_config ver new existing next_ver);
        }
        → ControlStep s t
    save_lost :
        (i ver next_ver : ℕ) (new : ShardConfig)
        → s.controllers i ≡ saving ver new next_ver
        → t ≡ record s { store = (put_config s.store "nextConfig" new next_ver).0 }
        → ControlStep s t
    save :
        (i ver next_ver : ℕ) (new : ShardConfig) (p : Progress)
        → s.controllers i ≡ saving ver new next_ver
        → after_save ver new (put_config s.store "nextConfig" new next_ver).1.err ≡ some p
        → t ≡ record {
          store = (put_config s.store "nextConfig" new next_ver).0;
          controllers = update s.controllers i p;
        }
        → ControlStep s t
    save_maybe :
        (i ver next_ver : ℕ) (new : ShardConfig) (p : Progress)
        → s.controllers i ≡ saving ver new next_ver
        → after_save ver new err_maybe ≡ some p
        → t ≡ record s { controllers = update s.controllers i p }
        → ControlStep s t
    look_again :
        (i ver next_ver : ℕ) (new written : ShardConfig)
        → s.controllers i ≡ unsure ver new
        → query s.store "nextConfig" ≡ some (written, next_ver)
        → t ≡ record s { controllers = update s.controllers i (confirm ver new written) }
        → ControlStep s t
    give_way :
        (i ver cur_ver : ℕ) (new current : ShardConfig)
        → s.controllers i ≡ migrating ver new
        → query s.store "currentConfig" ≡ some (current, cur_ver)
        → is_superseded new current ≡ true
        → t ≡ record s { controllers = update s.controllers i idle }
        → ControlStep s t
    finish_lost :
        (i ver : ℕ) (new : ShardConfig)
        → s.controllers i ≡ migrating ver new
        → t ≡ record s { store = (put_config s.store "currentConfig" new ver).0 }
        → ControlStep s t
    finish :
        (i ver : ℕ) (new : ShardConfig)
        → s.controllers i ≡ migrating ver new
        → t ≡ record {
          store = (put_config s.store "currentConfig" new ver).0;
          controllers = update s.controllers i idle;
        }
        → ControlStep s t
    start_recovery :
        (i ver : ℕ) (current : ShardConfig)
        → query s.store "currentConfig" ≡ some (current, ver)
        → t ≡ record s { controllers = update s.controllers i (recovering current ver) }
        → ControlStep s t
    recover :
        (i ver next_ver : ℕ) (current next : ShardConfig)
        → s.controllers i ≡ recovering current ver
        → query s.store "nextConfig" ≡ some (next, next_ver)
        → t ≡ record s { controllers = update s.controllers i (init_controller current ver next) }
        → ControlStep s t
    crash : (i : ℕ) → t ≡ record s { controllers = update s.controllers i idle } → ControlStep s t

  abbrev pub start_control : ShardConfig → Control
  start_control cfg = record { store = init_config make_kv_server cfg; controllers = λ i. idle }

  -- Runs of the given number of steps
  pub data Changes (cfg : ShardConfig) : ℕ → Control → Type 0 where
    begin : Changes cfg 0 (start_control cfg)
    later : {k : ℕ} {s t : Control} → Changes cfg k s → ControlStep s t → Changes cfg (suc k) t
