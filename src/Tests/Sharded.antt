-- ===== src/Tests/Sharded.antt =====
-- A clerk that first finds no server, then the group that the fetched configuration names.
use mit_distro_sys.Common.{ℕ, ◌<◌, ◌≡◌, ◌≢◌, refl, true, none, some, [], ◌∷◌, ◌++◌, arith, subst}
use mit_distro_sys.Common.Assoc.{lookup}
use mit_distro_sys.Kv.Api.{ok, PutReply}
use mit_distro_sys.ShardCfg.{ShardConfig, ℤ, pos, gid_servers}
use mit_distro_sys.Clerk.Group.{accept, undefined, judge_put}
use mit_distro_sys.Clerk.Sharded.{ShardedClerk, Round, make_sharded, sharded_put, judge_sharded_put}
use mit_distro_sys.Clerk.Sharded.Known.{ClerkOk, IsKnown}
use mit_distro_sys.Clerk.Sharded.Puts.{PutRound, PutServes, sharded_put_returns}

abbrev one : ℤ → ℕ
one gid = 1

one_populated : (gid : ℤ) → 0 < one gid
one_populated gid = omega arith

abbrev config : ShardConfig
config = record { num = 1; shards = pos 1 ∷ []; groups = (pos 1, "a" ∷ []) ∷ [] }

config-IsKnown : IsKnown one 0 config
unfolding gid_servers lookup
config-IsKnown = (pos 1, "a" ∷ [], refl, refl)

abbrev silent : Round PutReply
silent = record { config = config; refreshed = config; answers = λ gid attempt s. none }

abbrev kind : Round PutReply
kind = record {
  config = config;
  refreshed = config;
  answers = λ gid attempt s. some (record { err = ok });
}

new-ClerkOk : ClerkOk one 0 (make_sharded 1)
unfolding make_sharded lookup
new-ClerkOk = record {
  groups = λ gid rck e. absurd (ground arith);
  cached = λ cfg e. absurd (ground arith);
}

silent-PutRound : PutRound one 0 one_populated silent
silent-PutRound = record {
  config = config-IsKnown;
  refreshed = config-IsKnown;
  safe = λ gid attempt s r e. absurd (ground arith);
}

kind_answer-ne-undefined :
    (r : PutReply) → some (record { err = ok }) ≡ some r → judge_put r.err ≢ undefined
kind_answer-ne-undefined r e =
    let same : ok ≡ r.err = ground arith in subst (λ x. judge_put x ≢ undefined) same (ground arith)

kind-PutRound : PutRound one 0 one_populated kind
kind-PutRound = record {
  config = config-IsKnown;
  refreshed = config-IsKnown;
  safe = λ gid attempt s r e. kind_answer-ne-undefined r e;
}

kind_answer-accept :
    (r : PutReply) → some (record { err = ok }) ≡ some r → judge_sharded_put r.err ≡ accept
kind_answer-accept r e =
    let same : ok ≡ r.err = ground arith in subst (λ x. judge_sharded_put x ≡ accept) same refl

kind-PutServes : PutServes one 0 one_populated (pos 1) kind
kind-PutServes = record {
  server = 0;
  is_member = omega arith;
  is_served = λ attempt. (record { err = ok }, refl, refl);
  accepts = λ attempt i r e h. kind_answer-accept r e;
}

named : gid_servers config 0 ≡ some (pos 1, "a" ∷ [], true)
unfolding gid_servers lookup
named = refl

sharded_put_returns_example :
    (ck' : ShardedClerk) × (r : PutReply) × (sharded_put
        (make_sharded 1)
        0
        ([] ++ silent ∷ kind ∷ [])
      ≡ some (ck', some r))
    × (judge_sharded_put r.err ≡ accept)
sharded_put_returns_example =
    sharded_put_returns one 0 one_populated (make_sharded 1) [] silent kind [] (pos 1) ("a" ∷ [])
      new-ClerkOk tt silent-PutRound kind-PutRound named refl kind-PutServes
