-- ===== src/Tests/Network.antt =====
-- A network with one end to one server.
use mit_distro_sys.Common.{
  ℕ, string_eq, ◌+◌, ◌≤◌, String, ◌≡◌, ◌⊎◌, refl, true, false, none, some, List, [], ◌∷◌, length,
}
use mit_distro_sys.Common.Assoc.{insert, lookup}
use mit_distro_sys.ShardCfg.{pos, negsuc}
use mit_distro_sys.Net.{
  Network, make_network, make_end, add_server, delete_server, connect, enable, set_drop_rate,
  set_long_delay_ms, is_server_dead, read_endname_info,
}
use mit_distro_sys.Net.Calls.{
  NetCall, call_make_end, call_connect, call_add_server, call_enable, call_drop_rate,
  call_long_delay, call_delete_server, run_net_call, run_net_calls,
}
use mit_distro_sys.Net.Disabled.{admit-enable}
use mit_distro_sys.Net.Request.{
  Request, RequestRun, arrive, proceed, enter, dispatch, execute, take_result, send_reply, waiting,
  replied, Admission, admit, answer_with, ReplyMsg, failed, arrived,
}
use mit_distro_sys.Net.Request.Once.{Genuine, RequestRun-Genuine}
use mit_distro_sys.Net.Request.Progress.{Replies, RequestRun-Replies, RequestRun-Fails}

abbrev one_end : Network
one_end = record make_network {
  ends = ("e", record { endname = "e" }) ∷ [];
  enabled = ("e", true) ∷ [];
  connections = ("e", some "s") ∷ [];
  servers = ("s", some 7) ∷ [];
}

abbrev admission : Admission
admission = record { servername = "s"; server = 7; reliable = true; long_reordering = false }

abbrev result : ReplyMsg ℕ
result = record { ok = true; reply = some 5 }

abbrev waits : Request ℕ
waits = record { endname = "e"; phase = waiting admission (pos 100); running = 1; results = [] }

abbrev answered : Request ℕ
answered = record { endname = "e"; phase = replied result; running = 0; results = result ∷ [] }

waits-RequestRun : RequestRun "e" waits
unfolding admit read_endname_info lookup make_network
waits-RequestRun =
    proceed one_end (proceed one_end arrive (enter admission refl refl refl))
      (dispatch admission 0 refl refl refl)

answered-RequestRun : RequestRun "e" answered
unfolding answer_with is_server_dead lookup make_network
answered-RequestRun =
    proceed one_end
      (proceed one_end (proceed one_end waits-RequestRun (execute 0 result refl refl))
        (take_result admission (pos 100) result [] refl refl refl))
      (send_reply admission (pos 100) 0 result refl refl)

RequestRun-Genuine_example :
    (answered.running + length answered.results ≤ 1)
    × ((m : ReplyMsg ℕ) → answered.phase ≡ replied m → Genuine answered m)
RequestRun-Genuine_example = RequestRun-Genuine answered-RequestRun

-- The server is deleted while the handler runs.
RequestRun-Fails_example :
    (m : ReplyMsg ℕ) × Replies (delete_server one_end "s") [] waits m
    × ((m ≡ failed) ⊎ (waits.phase ≡ replied m))
unfolding is_server_dead lookup insert delete_server make_network
RequestRun-Fails_example = RequestRun-Fails (delete_server one_end "s") waits-RequestRun refl

abbrev arrival : Request ℕ
arrival = record { endname = "e"; phase = arrived; running = 0; results = [] }

RequestRun-Replies_example : Replies one_end (result ∷ []) arrival result
unfolding admit read_endname_info is_server_dead lookup make_network
RequestRun-Replies_example =
    RequestRun-Replies one_end result arrive (admission, refl, refl, refl) refl

abbrev calls : List NetCall
calls =
    call_make_end "e"
    ∷ call_connect "e" "s"
    ∷ call_add_server "s" 7
    ∷ call_drop_rate (pos 2000)
    ∷ call_long_delay (pos 3000000000)
    ∷ call_enable "e" true
    ∷ []

abbrev called : Network
called = record one_end { drop_rate = pos 1000; long_delay_ms = negsuc 1294967295 }

-- A delay of more than 31 bits becomes negative.
calls_run : run_net_calls make_network calls ≡ some called
unfolding run_net_calls run_net_call make_network make_end connect add_server enable set_drop_rate
    set_long_delay_ms insert lookup
calls_run = refl

abbrev cut : Network
cut = record one_end { enabled = ("e", false) ∷ []; servers = ("s", none) ∷ [] }

admit-enable_example :
    (admit cut "e" ≡ none)
    × ((servername : String) (server : ℕ) → is_server_dead cut "e" servername server ≡ true)
unfolding run_net_calls run_net_call make_network enable delete_server insert
admit-enable_example = admit-enable one_end cut "e" (call_delete_server "s" ∷ []) (refl, tt) refl
