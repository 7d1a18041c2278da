-- ===== src/Kv/Replica/Saved.antt =====
-- A server restored from a snapshot answers as the one that took it.
use mit_distro_sys.Kv.Replica.Versions.{put_into-lookup}
use mit_distro_sys.Common.{
  nat_eq, string_eq, ℕ, String, ◌≡◌, refl, some, ap, inl, inr, Option, Option-cases,
}
use mit_distro_sys.Common.Assoc.{lookup, lookup-copy, lookup-insert}
use mit_distro_sys.Kv.Api.{VersionedValue, Err, check_version, PutArgs}
use mit_distro_sys.Kv.Replica.{
  put_reply, cached, Codec, KvServer, Request, get, put, unknown, snapshot_data, snapshot, restore,
  do_op, run_put, do_put,
}

-- Both servers find the same at every key and for every client.
pub record SameServer (a b : KvServer) : Type 0 where
  pub same_values : (k : String) → lookup k a.kvm ≡ lookup k b.kvm
  pub same_puts : (c : ℕ) → lookup c a.last_put_by_client_id ≡ lookup c b.last_put_by_client_id

SameServer-snapshot_data : (kv : KvServer) → SameServer (snapshot_data kv) kv
unfolding snapshot_data
SameServer-snapshot_data kv = record {
  same_values = λ k. lookup-copy k kv.kvm;
  same_puts = λ c. lookup-copy c kv.last_put_by_client_id;
}

run_put-SameServer :
    (a b : KvServer) (args : PutArgs)
    → SameServer a b
    → SameServer (run_put a args).0 (run_put b args).0 × ((run_put a args).1 ≡ (run_put b args).1)
unfolding run_put
run_put-SameServer a b args s =
    let e : (check_version (lookup args.key a.kvm) args)
        ≡ check_version (lookup args.key b.kvm) args =
      ap (λ o. check_version o args) (s.same_values args.key) in
    (
      record {
        same_values = λ k.
            rw (put_into-lookup a.kvm args k, put_into-lookup b.kvm args k, e, s.same_values k);
        same_puts = λ c. rw (
          lookup-insert args.client_id c _ a.last_put_by_client_id,
          lookup-insert args.client_id c _ b.last_put_by_client_id,
          e,
          s.same_puts c,
        );
      },
      ap (λ (r : Option VersionedValue × Err). record { err = r.1 }) e,
    )

do_put-SameServer :
    (a b : KvServer) (args : PutArgs)
    → SameServer a b
    → SameServer (do_put a args).0 (do_put b args).0 × ((do_put a args).1 ≡ (do_put b args).1)
unfolding do_put
do_put-SameServer a b args s =
    let e = s.same_puts args.client_id in
    elim (Option-cases (cached (lookup args.client_id b.last_put_by_client_id) args.request_id)) [
      | inl new ↦ rw (e, do_put) (rw (new, do_put) (run_put-SameServer a b args s))
      | inr (reply, old) ↦ rw (e, do_put) (rw (old, do_put) (s, refl))
    ]

-- Servers that find the same give the same replies and still find the same after any operation.
pub do_op-SameServer :
    (a b : KvServer) (req : Request)
    → SameServer a b
    → SameServer (do_op a req).0 (do_op b req).0 × ((do_op a req).1 ≡ (do_op b req).1)
unfolding do_op
do_op-SameServer a b (get args) s = (s, rw (s.same_values args.key))
do_op-SameServer a b (put args) s = let (t, e) = do_put-SameServer a b args s in (t, ap put_reply e)
do_op-SameServer a b unknown s = (s, refl)

-- `Restore` of what `Snapshot` saved runs to its end, in any server, and gives a server that finds
-- the same at every key and for every client.
pub restore-snapshot :
    (codec : Codec KvServer) (kv other : KvServer)
    → (back : KvServer) × (restore codec other (some (snapshot codec kv)) ≡ some back)
      × SameServer back kv
unfolding restore snapshot
restore-snapshot codec kv other =
    (snapshot_data kv, codec.decode-encode (snapshot_data kv), SameServer-snapshot_data kv)
