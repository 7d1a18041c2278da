-- ===== src/Tests/Store.antt =====
-- Puts and Gets on the key-value servers.
use mit_distro_sys.Common.{string_eq, nat_eq, ◌≡◌, refl, true, some, List, [], ◌∷◌, false, arith}
use mit_distro_sys.Common.Assoc.{lookup, insert}
use mit_distro_sys.Kv.Api.{KvMap, PutArgs, ok, err_no_key}
use mit_distro_sys.Kv.Replica.Replay.{replies, replies-restore}
use mit_distro_sys.Kv.Replica.{Request, empty_server, Codec, KvServer, do_put, snapshot, restore}
use mit_distro_sys.Kv.Replica.Dedup.{do_put-idempotent}
use mit_distro_sys.Kv.Model.{step}
use mit_distro_sys.Kv.Server.{make_kv_server, put}
use mit_distro_sys.Kv.Model.Refinement.{
  Op, read, write, view, accepts, history, history-accepted, put_input, put_output,
  missing_key_rejected,
}

abbrev plain : Codec KvServer
plain = record {
  Bytes = KvServer;
  encode = λ a. a;
  decode = λ b. some b;
  decode-encode = λ a. refl;
}

abbrev stored_map : KvMap
stored_map = ("a", record { value = "x"; version = 3 }) ∷ []

abbrev server : KvServer
server = record {
  kvm = stored_map;
  last_put_by_client_id = (8, record { request_id = 2; reply = record { err = ok } }) ∷ [];
}

abbrev put_a : PutArgs
put_a = record { client_id = 9; request_id = 1; key = "a"; value = "y"; version = 3 }

do_put-idempotent_example :
    do_put (do_put server put_a).0 put_a ≡ ((do_put server put_a).0, (do_put server put_a).1)
do_put-idempotent_example = do_put-idempotent server put_a

abbrev requests : List Request
requests =
    Request.get (record { key = "a" }) ∷ Request.put put_a ∷ Request.get (record { key = "a" }) ∷ []

replies-restore_example :
    (back : KvServer) × (restore plain empty_server (some (snapshot plain server)) ≡ some back)
    × (replies back requests ≡ replies server requests)
replies-restore_example = replies-restore plain server empty_server requests

abbrev script : List Op
script =
    write (record { client_id = 1; request_id = 1; key = "a"; value = "x"; version = 0 })
    ∷ write (record { client_id = 2; request_id = 1; key = "a"; value = "y"; version = 7 })
    ∷ read (record { key = "a" })
    ∷ []

history-accepted_example :
    accepts (view make_kv_server.kvm "a") (history "a" make_kv_server script) ≡ true
unfolding put make_kv_server lookup insert
history-accepted_example = history-accepted "a" make_kv_server script (λ e. cc, (λ e. cc, tt))

abbrev put_missing : PutArgs
put_missing = record { client_id = 9; request_id = 1; key = "b"; value = "y"; version = 3 }

missing_key_rejected_example :
    ((put (record { kvm = stored_map }) put_missing).1.err ≡ err_no_key)
    × ((step
          (view stored_map "b")
          (put_input put_missing)
          (put_output (put (record { kvm = stored_map }) put_missing).1)).0
        ≡ false)
unfolding lookup
missing_key_rejected_example =
    missing_key_rejected (record { kvm = stored_map }) put_missing refl (omega arith)
