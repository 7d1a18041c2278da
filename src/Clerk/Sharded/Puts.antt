-- ===== src/Clerk/Sharded/Puts.antt =====
-- `Put` of the sharded clerk.
use mit_distro_sys.Common.{
  ℕ, ◌<◌, ◌≡◌, ◌≢◌, refl, true, some, List, ◌∷◌, ◌++◌, length, AllOf, String, arith,
}
use mit_distro_sys.Kv.Api.{
  Err, ok, err_no_key, err_version, err_wrong_leader, err_wrong_group, err_retry_exhausted,
  err_illegal_operation, err_empty, err_maybe, PutReply,
}
use mit_distro_sys.ShardCfg.{ℤ, gid_servers}
use mit_distro_sys.Clerk.Group.{accept, undefined, judge_put, put_err}
use mit_distro_sys.Clerk.Sharded.{ShardedClerk, Round, sharded_put, next_req_id, judge_sharded_put}
use mit_distro_sys.Clerk.Sharded.Known.{ClerkOk}
use mit_distro_sys.Clerk.Sharded.Returns.{Judges, RoundOk, Serves, ask_groups_returns}

put-Fits : (e : Err) → judge_put e ≡ accept → judge_sharded_put e ≢ undefined
put-Fits ok h = ground arith
put-Fits err_no_key h = ground arith
put-Fits err_version h = ground arith
put-Fits err_wrong_group h = ground arith
put-Fits err_wrong_leader h = absurd (ground arith)
put-Fits err_retry_exhausted h = absurd (ground arith)
put-Fits err_illegal_operation h = absurd (ground arith)
put-Fits err_empty h = absurd (ground arith)
put-Fits err_maybe h = absurd (ground arith)

pub put-Judges : Judges put_err judge_put judge_sharded_put (record { err = err_retry_exhausted })
put-Judges = record { fits = put-Fits; again = refl; no_answer = ground arith }

module _ (members : ℤ → ℕ) (shid : ℕ) (populated : (gid : ℤ) → 0 < members gid) where
  abbrev pub PutRound : Round PutReply → Type 0
  PutRound round =
      RoundOk put_err judge_put judge_sharded_put (record { err = err_retry_exhausted }) put-Judges
        members shid populated round

  abbrev pub PutServes : ℤ → Round PutReply → Type 0
  PutServes gid round =
      Serves put_err judge_put judge_sharded_put (record { err = err_retry_exhausted }) put-Judges
        members shid populated gid round

  -- The clerk's Put returns, with OK, ErrVersion or ErrNoKey, if in some round after the first one it
  -- asks a group that the configuration it just fetched names for the shard, and of which one server
  -- answers whenever it is asked and none answers ErrWrongGroup. All configurations that it fetches
  -- have a group for the shard, with the same servers for the same group, and no server of a group
  -- answers with an error that the group's clerk does not know.
  pub sharded_put_returns :
      (ck : ShardedClerk) (rounds : List (Round PutReply)) (read next : Round PutReply)
      (rest : List (Round PutReply)) (gid : ℤ) (srvs : List String)
      → ClerkOk members shid ck
      → AllOf PutRound rounds
      → PutRound read
      → PutRound next
      → gid_servers read.refreshed shid ≡ some (gid, srvs, true)
      → length srvs ≡ members gid
      → PutServes gid next
      → (ck' : ShardedClerk) × (r : PutReply) × (sharded_put ck shid (rounds ++ read ∷ next ∷ rest)
          ≡ some (ck', some r))
        × (judge_sharded_put r.err ≡ accept)
  unfolding sharded_put next_req_id
  sharded_put_returns ck rounds read next rest gid srvs good all fine fine2 e len serves =
      ask_groups_returns put_err judge_put judge_sharded_put (record { err = err_retry_exhausted })
        put-Judges members shid populated (next_req_id ck) rounds read next rest gid srvs
        (record { groups = good.groups; cached = good.cached }) all fine fine2 e len serves
