-- ===== src/Tests/Submissions.antt =====
-- Submissions to the replicated key-value server.
use mit_distro_sys.Common.{nat_eq, string_eq, refl, true, none, some, [], ◌∷◌}
use mit_distro_sys.Common.Assoc.{lookup}
use mit_distro_sys.Kv.Api.{ok}
use mit_distro_sys.Kv.Replica.{
  Codec, KvServer, Request, Reply, put, empty_server, do_op, snapshot, restore,
}
use mit_distro_sys.Rsm.{Op, StateMachine, Rsm}
use mit_distro_sys.Rsm.Results.{Answered, apply_command-Answered}

abbrev plain : Codec KvServer
plain = record {
  Bytes = KvServer;
  encode = λ a. a;
  decode = λ b. some b;
  decode-encode = λ a. refl;
}

abbrev kv_machine : StateMachine Request Reply
kv_machine = record {
  State = KvServer;
  Bytes = KvServer;
  do_op = do_op;
  snapshot = snapshot plain;
  restore = λ kv b. restore plain kv (some b);
}

-- Server 0 waits at index 7 for its operation 5.
abbrev waiting : Rsm kv_machine
waiting = record { me = 0; sm = empty_server; result_by_command_id = (7, none) ∷ []; op_id = 5 }

abbrev put_b : Request
put_b = put (record { client_id = 3; request_id = 1; key = "b"; value = "z"; version = 0 })

abbrev own : Op Request
own = record { me = 0; id = 5; req = put_b }

apply_command-Answered_example :
    Answered kv_machine waiting true 7 own 5 (ok, some (do_op empty_server put_b).1)
unfolding lookup
apply_command-Answered_example = apply_command-Answered kv_machine waiting true 7 own 5 refl
