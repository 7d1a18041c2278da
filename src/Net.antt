-- ===== src/Net.antt =====
-- The simulated network (src/rpc/rpc.go): its tables of ends, connections and servers, and its options.
use mit_distro_sys.Common.{
  ℕ, string_eq, ◌%◌, ◌^◌, ◌-◌, String, Bool, true, false, not, ◌||◌, Option, none, some, [], ltb,
  ◌==◌, if◌then◌else◌, ◌>>=◌,
}
use mit_distro_sys.Common.Assoc.{Assoc, lookup, insert, delete}
use mit_distro_sys.ShardCfg.{ℤ, pos, negsuc}
pub mod Calls
pub mod Disabled
pub mod Request

pub record ClientEnd : Type 0 where
  pub endname : String

-- A server is the address of a `Server`, and `none` is `nil`; `closed` is whether `done` is closed.
pub record Network : Type 0 where
  pub reliable : Bool
  pub long_delays : Bool
  pub long_reordering : Bool
  pub ends : Assoc String ClientEnd
  pub enabled : Assoc String Bool
  pub servers : Assoc String (Option ℕ)
  pub connections : Assoc String (Option String)
  pub closed : Bool
  pub drop_rate : ℤ
  pub short_delay_ms : ℤ
  pub long_delay_ms : ℤ

unfoldable pub make_network : Network
make_network = record {
  reliable = true;
  long_delays = false;
  long_reordering = false;
  ends = [];
  enabled = [];
  servers = [];
  connections = [];
  closed = false;
  drop_rate = pos 100;
  short_delay_ms = pos 27;
  long_delay_ms = pos 7000;
}

unfoldable pub cleanup : Network → Network
cleanup rn = record rn { closed = true }

-- `Reliable`
unfoldable pub set_reliable : Network → Bool → Network
set_reliable rn on = record rn { reliable = on }

-- `LongReordering`
unfoldable pub set_long_reordering : Network → Bool → Network
set_long_reordering rn on = record rn { long_reordering = on }

-- `LongDelays`
unfoldable pub set_long_delays : Network → Bool → Network
set_long_delays rn on = record rn { long_delays = on }

-- The conversion of an `int` that is not negative to `int32`
abbrev pub to_int32 : ℕ → ℤ
to_int32 n = let low = n % 2 ^ 32 in if ltb low (2 ^ 31) then pos low else negsuc (2 ^ 32 - 1 - low)

-- A negative delay is 0.
abbrev pub delay_of : ℤ → ℤ
delay_of (pos ms) = to_int32 ms
delay_of (negsuc ms) = pos 0

-- The rate is kept from 0 to 1000.
abbrev pub rate_of : ℤ → ℤ
rate_of (pos rate) = if ltb 1000 rate then pos 1000 else to_int32 rate
rate_of (negsuc rate) = pos 0

unfoldable pub set_drop_rate : Network → ℤ → Network
set_drop_rate rn rate = record rn { drop_rate = rate_of rate }

unfoldable pub set_short_delay_ms : Network → ℤ → Network
set_short_delay_ms rn ms = record rn { short_delay_ms = delay_of ms }

unfoldable pub set_long_delay_ms : Network → ℤ → Network
set_long_delay_ms rn ms = record rn { long_delay_ms = delay_of ms }

-- The value of a Go map of Booleans
abbrev pub is_true : Option Bool → Bool
is_true none = false
is_true (some b) = b

-- The value of a Go map of pointers
abbrev pub flat {ℓ} : {A : Type ℓ} → Option (Option A) → Option A
flat none = none
flat (some a) = a

abbrev pub is_enabled : Network → String → Bool
is_enabled rn endname = is_true (lookup endname rn.enabled)

abbrev pub server_at : Network → String → Option ℕ
server_at rn servername = flat (lookup servername rn.servers)

-- `none` is `log.Fatalf`.
unfoldable pub make_end : Network → String → Option (Network × ClientEnd)
make_end rn endname = elim (lookup endname rn.ends) [
  | some e ↦ none
  | none ↦
      (let e : ClientEnd = record { endname = endname } in
        some (
          record rn {
            ends = insert endname e rn.ends;
            enabled = insert endname false rn.enabled;
            connections = insert endname none rn.connections;
          },
          e,
        ))
]

unfoldable pub lookup_end : Network → String → Option ClientEnd
lookup_end rn endname = lookup endname rn.ends

unfoldable pub delete_end : Network → String → Option Network
delete_end rn endname = elim (lookup endname rn.ends) [
  | none ↦ none
  | some e ↦ some (record rn {
    ends = delete endname rn.ends;
    enabled = delete endname rn.enabled;
    connections = delete endname rn.connections;
  })
]

unfoldable pub add_server : Network → String → ℕ → Network
add_server rn servername rs = record rn { servers = insert servername (some rs) rn.servers }

unfoldable pub delete_server : Network → String → Network
delete_server rn servername = record rn { servers = insert servername none rn.servers }

unfoldable pub connect : Network → String → String → Network
connect rn endname servername = record rn {
  connections = insert endname (some servername) rn.connections;
}

unfoldable pub enable : Network → String → Bool → Network
enable rn endname on = record rn { enabled = insert endname on rn.enabled }

-- What `readEndnameInfo` returns
pub record Info : Type 0 where
  pub enabled : Bool
  pub servername : Option String
  pub server : Option ℕ
  pub reliable : Bool
  pub long_reordering : Bool

unfoldable pub read_endname_info : Network → String → Info
read_endname_info rn endname =
    let servername = flat (lookup endname rn.connections) in
    record {
      enabled = is_enabled rn endname;
      servername = servername;
      server = servername >>= server_at rn;
      reliable = rn.reliable;
      long_reordering = rn.long_reordering;
    }

abbrev pub is_server : Option ℕ → ℕ → Bool
is_server none server = false
is_server (some other) server = other == server

unfoldable pub is_server_dead : Network → String → String → ℕ → Bool
is_server_dead rn endname servername server =
    not (is_enabled rn endname) || not (is_server (server_at rn servername) server)
