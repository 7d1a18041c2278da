-- ===== src/Clerk/Sharded.antt =====
-- The sharded clerk (src/shardkv/client.go): it asks the group that its cached configuration names, and
-- fetches the configuration again when that fails.
use mit_distro_sys.Common.{
  ℕ, ◌+◌, ◌%◌, ◌^◌, Option, none, some, List, [], ◌∷◌, length, if◌then◌else◌, ◌>>=◌, nat_eq,
}
use mit_distro_sys.Common.Assoc.{Assoc, lookup, insert}
use mit_distro_sys.Kv.Api.{
  Err, ok, err_no_key, err_version, err_wrong_group, err_retry_exhausted, GetReply, PutReply,
}
use mit_distro_sys.ShardCfg.{ShardConfig, ℤ, int_eq, gid_servers}
use mit_distro_sys.Clerk.Group.{
  Verdict, accept, try_next, undefined, Clerk, make_clerk, call_group, judge_get, judge_put,
  get_err, put_err,
}
pub mod Known
pub mod Returns
pub mod Puts

pub record ShardedClerk : Type 0 where
  pub rcks : Assoc ℤ Clerk
  pub clerk_id : ℕ
  pub request_id : ℕ
  pub cached_config : Option ShardConfig

unfoldable pub make_sharded : ℕ → ShardedClerk
make_sharded clerk_id = record {
  rcks = [];
  clerk_id = clerk_id;
  request_id = 0;
  cached_config = none;
}

unfoldable pub next_req_id : ShardedClerk → ShardedClerk
next_req_id ck = record ck { request_id = (ck.request_id + 1) % 2 ^ 64 }

-- `getConfig` and `refreshConfig`, with what `Query` answers. No other call of the clerk is fetching.
abbrev pub get_config : ShardedClerk → ShardConfig → ShardConfig
get_config ck answer = elim ck.cached_config [ none ↦ answer | some cfg ↦ cfg ]

abbrev pub refresh_config : ShardedClerk → ShardConfig → ShardedClerk
refresh_config ck answer = record ck { cached_config = some answer }

-- The clerk of a group, made when the group is first met.
unfoldable pub group_clerk : ShardedClerk → ℤ → ℕ → Clerk
unfolding make_clerk
group_clerk ck gid servers = elim (lookup gid ck.rcks) [
  | none ↦ make_clerk servers ck.clerk_id
  | some rck ↦ rck
]

abbrev pub judge_sharded_get : Err → Verdict
judge_sharded_get err_wrong_group = try_next
judge_sharded_get err_retry_exhausted = try_next
judge_sharded_get _ = accept

abbrev pub judge_sharded_put : Err → Verdict
judge_sharded_put err_wrong_group = try_next
judge_sharded_put err_retry_exhausted = try_next
judge_sharded_put ok = accept
judge_sharded_put err_version = accept
judge_sharded_put err_no_key = accept
judge_sharded_put _ = undefined

-- What a round of the loop meets: the answers of `Query` in it and after it, and by group what its
-- servers answer.
pub record Round (R : Type 0) : Type 0 where
  pub config : ShardConfig
  pub refreshed : ShardConfig
  pub answers : ℤ → ℕ → ℕ → Option R

module _ {R : Type 0} (err_of : R → Err) (judge_group : Err → Verdict) (judge : Err → Verdict)
    (otherwise : R) where
  -- `none` is a panic or `log.Fatal`, also of a configuration without the shard or its group.
  unfoldable pub ask_group : ShardedClerk → ℕ → Round R → Option (ShardedClerk × R)
  unfolding group_clerk gid_servers call_group
  ask_group ck shid round =
      let cfg = get_config ck round.config in
      gid_servers cfg shid >>= λ g.
      if g.2
      then (let rck = group_clerk ck g.0 (length g.1) in
          call_group err_of judge_group otherwise rck rck.max_attempts (round.answers g.0) >>= λ r.
          some (record ck { rcks = insert g.0 r.0 ck.rcks; cached_config = some cfg }, r.1))
      else none

  -- The loop for the shard of the key. Without a reply the clerk still tries when the rounds are over.
  unfoldable pub ask_groups : ShardedClerk → ℕ → List (Round R) → Option (ShardedClerk × Option R)
  unfolding ask_group
  ask_groups ck shid [] = some (ck, none)
  ask_groups ck shid (round ∷ rest) = ask_group ck shid round >>= λ r. elim (judge (err_of r.1)) [
    | accept ↦ some (r.0, some r.1)
    | try_next ↦ ask_groups (refresh_config r.0 round.refreshed) shid rest
    | undefined ↦ none
  ]

unfoldable pub sharded_get :
    ShardedClerk → ℕ → List (Round GetReply) → Option (ShardedClerk × Option GetReply)
unfolding ask_groups
sharded_get ck shid rounds =
    ask_groups get_err judge_get judge_sharded_get
      (record { value = ""; version = 0; err = err_retry_exhausted }) ck shid rounds

-- All rounds of a Put send the request id that it takes at its start.
unfoldable pub sharded_put :
    ShardedClerk → ℕ → List (Round PutReply) → Option (ShardedClerk × Option PutReply)
unfolding ask_groups next_req_id
sharded_put ck shid rounds =
    ask_groups put_err judge_put judge_sharded_put (record { err = err_retry_exhausted })
      (next_req_id ck) shid rounds
