-- ===== src/Kv/Server.antt =====
-- The single server (src/kvsrv/server.go): each handler is one critical section.
use mit_distro_sys.Common.{[]}
use mit_distro_sys.Kv.Api.{KvMap, PutArgs, PutReply, GetArgs, GetReply, get_from, put_into}

pub record KvServer : Type 0 where
  pub kvm : KvMap

unfoldable pub make_kv_server : KvServer
make_kv_server = record { kvm = [] }

unfoldable pub get : KvServer → GetArgs → GetReply
unfolding get_from
get kv args = get_from kv.kvm args.key

unfoldable pub put : KvServer → PutArgs → KvServer × PutReply
unfolding put_into
put kv args = let r = put_into kv.kvm args in (record { kvm = r.0 }, record { err = r.1 })
