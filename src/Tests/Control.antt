-- ===== src/Tests/Control.antt =====
-- Two controllers: one saves configuration 2 and crashes. The other one has read the current
-- configuration before that, and recovers after it.
use mit_distro_sys.Common.{string_eq, nat_eq, refl, [], ◌∷◌, arith, update}
use mit_distro_sys.Common.Assoc.{lookup, insert}
use mit_distro_sys.Kv.Api.{put_into, check_version, get_from}
use mit_distro_sys.Kv.Server.{get, put, make_kv_server}
use mit_distro_sys.ShardCfg.{ShardConfig, pos}
use mit_distro_sys.ShardCtrl.{
  query, put_config, init_config, idle, chosen, saving, migrating, recovering, Control, ControlStep,
  choose, check_next, save, finish, start_recovery, recover, crash, Changes, begin, later,
  start_control, change_config_to, save_next_config, after_save, init_controller,
}
use mit_distro_sys.ShardCtrl.Order.{Cells, Later}
use mit_distro_sys.ShardCtrl.Order.Stores.{Holds}
use mit_distro_sys.ShardCtrl.Order.Runs.{Changes-Holds, ControlStep-Later}
use mit_distro_sys.Tests.Text.{config_text}

abbrev old : ShardConfig
old = record { num = 1; shards = pos 1 ∷ []; groups = (pos 1, "a" ∷ []) ∷ [] }

abbrev new : ShardConfig
new = record { num = 2; shards = pos 2 ∷ []; groups = (pos 2, "b" ∷ []) ∷ [] }

abbrev start : Control
start = start_control config_text old

abbrev beginning : Control
beginning = record start { controllers = update start.controllers 1 (recovering old 1) }

abbrev choosing : Control
choosing = record beginning { controllers = update beginning.controllers 0 (chosen 1 new) }

abbrev about_to_save : Control
about_to_save = record choosing { controllers = update choosing.controllers 0 (saving 1 new 1) }

abbrev saved : Control
saved = record {
  store = (put_config config_text about_to_save.store "nextConfig" new 1).0;
  controllers = update about_to_save.controllers 0 (migrating 1 new);
}

abbrev crashed : Control
crashed = record saved { controllers = update saved.controllers 0 idle }

abbrev recovered : Control
recovered = record crashed { controllers = update crashed.controllers 1 (migrating 1 new) }

abbrev finished : Control
finished = record {
  store = (put_config config_text recovered.store "currentConfig" new 1).0;
  controllers = update recovered.controllers 1 idle;
}

start_step : ControlStep config_text start beginning
unfolding query init_config put_config get put put_into check_version get_from make_kv_server lookup
    insert
start_step = start_recovery 1 1 old refl refl

choose_step : ControlStep config_text beginning choosing
unfolding query init_config put_config get put put_into check_version get_from make_kv_server lookup
    insert change_config_to
choose_step = choose 0 1 old new refl refl

check_step : ControlStep config_text choosing about_to_save
unfolding query init_config put_config get put put_into check_version get_from make_kv_server lookup
    insert save_next_config
check_step = check_next 0 1 1 new old refl refl refl

save_step : ControlStep config_text about_to_save saved
unfolding query init_config put_config get put put_into check_version get_from make_kv_server lookup
    insert after_save
save_step = save 0 1 1 new (migrating 1 new) refl refl refl

crash_step : ControlStep config_text saved crashed
crash_step = crash 0 refl

recover_step : ControlStep config_text crashed recovered
unfolding query init_config put_config get put put_into check_version get_from make_kv_server lookup
    insert init_controller
recover_step = recover 1 1 2 old new refl refl refl

finish_step : ControlStep config_text recovered finished
finish_step = finish 1 1 new refl refl

abbrev run : Changes config_text old 6 recovered
run =
    later
      (later (later (later (later (later begin start_step) choose_step) check_step) save_step)
        crash_step)
      recover_step

Changes-Holds_example : (c : Cells) × Holds config_text finished.store c
Changes-Holds_example =
    Changes-Holds config_text old 7 finished (omega arith) (later run finish_step)

ControlStep-Later_example :
    (c d : Cells) × Holds config_text recovered.store c
    × Holds config_text finished.store d
    × Later c d
ControlStep-Later_example =
    ControlStep-Later config_text old 6 recovered finished (omega arith) run finish_step
