-- ===== src/Tests/Clerks.antt =====
-- Two clients write version 0 of one key, over a network that loses calls.
use mit_distro_sys.Common.{
  string_eq, nat_eq, ◌≡◌, ◌≤◌, refl, some, [], ◌∷◌, List, arith, length, ◌+◌,
}
use mit_distro_sys.Common.Assoc.{lookup, insert}
use mit_distro_sys.Kv.Api.{err_maybe, PutArgs, put_into, check_version}
use mit_distro_sys.Kv.Server.{put, make_kv_server}
use mit_distro_sys.Kv.Model.Refinement.{Op, write}
use mit_distro_sys.Kv.Model.Once.{
  successes, successes-le-one, version_of, version_of-run_all, run_all,
}
use mit_distro_sys.Clerk.Single.{
  Attempt, request_lost, reply_lost, delivered, clerk_put, call_put, resend,
}
use mit_distro_sys.Clerk.Single.Maybe.{clerk_put-Meant, Meant, performed, trace}

abbrev mine : PutArgs
mine = record { client_id = 1; request_id = 1; key = "k"; value = "a"; version = 0 }

abbrev theirs : PutArgs
theirs = record { client_id = 2; request_id = 1; key = "k"; value = "b"; version = 0 }

abbrev ops : List Op
ops = write mine ∷ write theirs ∷ []

successes-le-one_example : successes "k" 0 make_kv_server ops ≤ 1
unfolding make_kv_server lookup
successes-le-one_example = successes-le-one "k" 0 make_kv_server ops (omega arith)

version_of-run_all_example :
    (version_of (lookup "k" make_kv_server.kvm)
      ≤ version_of (lookup "k" (run_all make_kv_server ops).kvm))
    × (version_of (lookup "k" (run_all make_kv_server ops).kvm)
        ≤ version_of (lookup "k" make_kv_server.kvm) + length ops)
unfolding make_kv_server lookup
version_of-run_all_example = version_of-run_all "k" make_kv_server ops (omega arith)

-- The first request is lost, the second one's reply is, and the third call comes through after the
-- other client's Put.
abbrev attempts : List Attempt
attempts = ([], request_lost) ∷ ([], reply_lost) ∷ (write theirs ∷ [], delivered) ∷ []

answered : (clerk_put make_kv_server mine attempts).1 ≡ some err_maybe
unfolding clerk_put call_put resend make_kv_server put put_into check_version lookup insert
answered = refl

clerk_put-Meant_example :
    ((clerk_put make_kv_server mine attempts).0 ≡ run_all make_kv_server (trace mine attempts))
    × Meant err_maybe (performed make_kv_server mine attempts)
unfolding make_kv_server lookup
clerk_put-Meant_example =
    clerk_put-Meant make_kv_server mine attempts err_maybe answered (omega arith)
