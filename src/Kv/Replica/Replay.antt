-- ===== src/Kv/Replica/Replay.antt =====
-- A server that was restored from a snapshot goes on like the one that took it.
use mit_distro_sys.Common.{string_eq, nat_eq, ◌≡◌, refl, ap, subst, some, List, [], ◌∷◌}
use mit_distro_sys.Kv.Replica.{Codec, KvServer, Request, Reply, snapshot, restore, do_op}
use mit_distro_sys.Kv.Replica.Saved.{SameServer, do_op-SameServer, restore-snapshot}

-- The replies to operations that are executed one after the other.
abbrev pub replies : KvServer → List Request → List Reply
replies kv [] = []
replies kv (req ∷ reqs) = (do_op kv req).1 ∷ replies (do_op kv req).0 reqs

replies-SameServer :
    (a b : KvServer) (reqs : List Request) → SameServer a b → replies a reqs ≡ replies b reqs
replies-SameServer a b [] s = refl
replies-SameServer a b (req ∷ reqs) s =
    let r = do_op-SameServer a b req s in
    subst
      (λ reply.
        ((do_op a req).1 ∷ replies (do_op a req).0 reqs) ≡ (reply ∷ replies (do_op b req).0 reqs))
      r.1
      (ap (λ rest. (do_op a req).1 ∷ rest)
        (replies-SameServer (do_op a req).0 (do_op b req).0 reqs r.0))

-- A server that restores a snapshot then answers any operations, executed one after the other, as
-- the server that took the snapshot answers them.
pub replies-restore :
    (codec : Codec KvServer) (kv other : KvServer) (reqs : List Request)
    → (back : KvServer) × (restore codec other (some (snapshot codec kv)) ≡ some back)
      × (replies back reqs ≡ replies kv reqs)
replies-restore codec kv other reqs =
    let r = restore-snapshot codec kv other in (r.0, r.1, replies-SameServer r.0 kv reqs r.2)
