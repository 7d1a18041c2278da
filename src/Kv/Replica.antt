-- ===== src/Kv/Replica.antt =====
-- The replicated server (src/kvraft/server.go): `DoOp` runs a committed operation. It removes a
-- client's duplicate Puts; `Snapshot` and `Restore` save and load the whole state.
use mit_distro_sys.Common.{ℕ, ◌≡◌, Option, none, some, [], leb, if◌then◌else◌, nat_eq, string_eq}
use mit_distro_sys.Common.Assoc.{Assoc, lookup, insert, copy}
use mit_distro_sys.Kv.Api.{KvMap, PutArgs, PutReply, GetArgs, GetReply, Err, get_from, put_into}
pub mod Dedup
pub mod Versions
pub mod Saved
pub mod Replay

pub record LastPut : Type 0 where
  pub request_id : ℕ
  pub reply : PutReply

abbrev pub PutTable : Type 0
PutTable = Assoc ℕ LastPut

pub record KvServer : Type 0 where
  pub kvm : KvMap
  pub last_put_by_client_id : PutTable

-- `any`: the operations that `DoOp` knows, and everything else.
pub data Request : Type 0 where
  get : GetArgs → Request
  put : PutArgs → Request
  unknown : Request

pub data Reply : Type 0 where
  get_reply : GetReply → Reply
  put_reply : PutReply → Reply
  nil : Reply

unfoldable pub empty_server : KvServer
empty_server = record { kvm = []; last_put_by_client_id = [] }

-- The answer that is kept for a request that was already run.
unfoldable pub cached : Option LastPut → ℕ → Option PutReply
cached none request_id = none
cached (some last) request_id = if leb request_id last.request_id then some last.reply else none

unfoldable pub run_put : KvServer → PutArgs → KvServer × PutReply
unfolding put_into
run_put kv args =
    let r = put_into kv.kvm args in
    let reply : PutReply = record { err = r.1 } in
    (
      record {
        kvm = r.0;
        last_put_by_client_id =
            insert args.client_id (record { request_id = args.request_id; reply = reply })
              kv.last_put_by_client_id;
      },
      reply,
    )

unfoldable pub do_put : KvServer → PutArgs → KvServer × PutReply
unfolding cached run_put
do_put kv args = elim (cached (lookup args.client_id kv.last_put_by_client_id) args.request_id) [
  | some reply ↦ (kv, reply)
  | none ↦ run_put kv args
]

unfoldable pub do_op : KvServer → Request → KvServer × Reply
unfolding do_put get_from
do_op kv (get args) = (kv, get_reply (get_from kv.kvm args.key))
do_op kv (put args) = let r = do_put kv args in (r.0, put_reply r.1)
do_op kv unknown = (kv, nil)

-- The copies that `Snapshot` encodes. The encoded bytes are `labgob`'s, an argument below.
unfoldable pub snapshot_data : KvServer → KvServer
snapshot_data kv = record {
  kvm = copy kv.kvm;
  last_put_by_client_id = copy kv.last_put_by_client_id;
}

-- `labgob`: an encoder and a decoder of a type, over `encoding/gob`. Decoding fails on bytes that
-- are no encoding, and `log.Fatal` then stops the process.
pub record Codec (A : Type 0) : Type 1 where
  pub Bytes : Type 0
  pub encode : A → Bytes
  pub decode : Bytes → Option A
  pub decode-encode : (a : A) → decode (encode a) ≡ some a

module _ (codec : Codec KvServer) where
  open codec use {Bytes, encode, decode}

  unfoldable pub snapshot : KvServer → Bytes
  snapshot kv = encode (snapshot_data kv)

  -- No bytes (`nil`, or empty) leave the server as it is.
  unfoldable pub restore : KvServer → Option Bytes → Option KvServer
  restore kv none = some kv
  restore kv (some bytes) = decode bytes

-- `Get` and `Put` pass the request through `Submit`: `none` is a submission that was not confirmed,
-- whose reply carries the error; a reply of the wrong kind is a failed type assertion, a panic.
unfoldable pub get_rpc : Err → Option Reply → Option GetReply
get_rpc err none = some (record { value = ""; version = 0; err = err })
get_rpc err (some (get_reply r)) = some r
get_rpc err (some _) = none

unfoldable pub put_rpc : Err → Option Reply → Option PutReply
put_rpc err none = some (record { err = err })
put_rpc err (some (put_reply r)) = some r
put_rpc err (some _) = none
