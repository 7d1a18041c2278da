-- ===== src/Kv/Replica/Dedup.antt =====
-- A Put that is submitted again changes nothing and gets the same answer.
use mit_distro_sys.Common.{◌≤◌, ◌≡◌, some, arith, nat_eq, inl, inr, Option-cases, le→leb}
use mit_distro_sys.Common.Assoc.{lookup, lookup-insert_self}
use mit_distro_sys.Kv.Api.{PutArgs}
use mit_distro_sys.Kv.Replica.{cached, KvServer, LastPut, run_put, do_put}

cached_after_run :
    (kv : KvServer) (args : PutArgs)
    → lookup args.client_id (run_put kv args).0.last_put_by_client_id
      ≡ some (record { request_id = args.request_id; reply = (run_put kv args).1 })
unfolding run_put
cached_after_run kv args = lookup-insert_self args.client_id _ kv.last_put_by_client_id

rerun_cached :
    (kv : KvServer) (args : PutArgs) {last : LastPut}
    → lookup args.client_id kv.last_put_by_client_id ≡ some last
    → args.request_id ≤ last.request_id
    → do_put kv args ≡ (kv, last.reply)
unfolding do_put
rerun_cached kv args {last} e h = rw (e, do_put) (rw (le→leb _ _ h))

-- A Put that is run a second time leaves the state of the first run and returns its reply, whether
-- or not the first one was itself a duplicate.
pub do_put-idempotent :
    (kv : KvServer) (args : PutArgs)
    → do_put (do_put kv args).0 args ≡ ((do_put kv args).0, (do_put kv args).1)
unfolding do_put
do_put-idempotent kv args =
    elim (Option-cases (cached (lookup args.client_id kv.last_put_by_client_id) args.request_id)) [
      | inl new ↦
          let ran : do_put kv args ≡ run_put kv args = rw (new, do_put) in
          rw ran (rerun_cached (run_put kv args).0 args (cached_after_run kv args) (omega arith))
      | inr (reply, old) ↦
          let kept : do_put kv args ≡ (kv, reply) = rw (old, do_put) in rw kept kept
    ]
