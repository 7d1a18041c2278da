-- ===== src/Clerk/Group.antt =====
-- The clerks that look for the leader of a group: src/shardkv/shardgrp/client.go, whose loops give up
-- after two rounds, and src/kvraft/client.go, whose loops do not. What the servers answer is an
-- argument: by attempt and server, `none` for a call that fails.
use mit_distro_sys.Common.{
  ◌>>=◌, ◌^◌, ltb, if◌then◌else◌, ℕ, zero, suc, ◌+◌, ◌*◌, ◌%◌, Option, none, some,
}
use mit_distro_sys.Kv.Api.{
  Err, ok, err_no_key, err_version, err_wrong_leader, err_wrong_group, err_retry_exhausted,
  GetReply, PutReply,
}
use mit_distro_sys.ShardGrp.Types.{FreezeShardReply, InstallShardReply, DeleteShardReply}
pub mod Rounds

-- The three branches of each `switch` on an error.
pub data Verdict : Type 0 where
  accept try_next undefined : Verdict

abbrev pub judge_get : Err → Verdict
judge_get ok = accept
judge_get err_no_key = accept
judge_get err_wrong_group = accept
judge_get err_wrong_leader = try_next
judge_get _ = undefined

abbrev pub judge_put : Err → Verdict
judge_put ok = accept
judge_put err_no_key = accept
judge_put err_wrong_group = accept
judge_put err_version = accept
judge_put err_wrong_leader = try_next
judge_put _ = undefined

-- FreezeShard, InstallShard and DeleteShard
abbrev pub judge_shard : Err → Verdict
judge_shard ok = accept
judge_shard err_wrong_group = accept
judge_shard err_wrong_leader = try_next
judge_shard _ = undefined

-- The clerk of the replicated server
abbrev pub judge_kv_get : Err → Verdict
judge_kv_get ok = accept
judge_kv_get err_no_key = accept
judge_kv_get err_wrong_leader = try_next
judge_kv_get _ = undefined

abbrev pub judge_kv_put : Err → Verdict
judge_kv_put ok = accept
judge_kv_put err_no_key = accept
judge_kv_put err_version = accept
judge_kv_put err_wrong_leader = try_next
judge_kv_put _ = undefined

-- `servers` is `len(ck.servers)`.
pub record Clerk : Type 0 where
  pub servers : ℕ
  pub leader : ℕ
  pub client_id : ℕ
  pub max_attempts : ℕ

unfoldable pub make_clerk : ℕ → ℕ → Clerk
make_clerk servers client_id = record {
  servers = servers;
  leader = 0;
  client_id = client_id;
  max_attempts = servers * 2;
}

module _ {R : Type 0} (err_of : R → Err) (judge : Err → Verdict) where
  -- How a loop ends: with the reply of a server, with no attempts left, or in a panic.
  pub data Outcome : Type 0 where
    replied : ℕ → R → Outcome
    exhausted : Outcome
    panicked : Outcome

  abbrev pub Answers : Type 0
  Answers = ℕ → ℕ → Option R

  -- The loop from `leader` with `left` attempts left, the next one numbered `attempt`.
  unfoldable pub try_servers : ℕ → Answers → ℕ → ℕ → ℕ → Outcome
  try_servers n answers leader attempt zero = exhausted
  try_servers n answers leader attempt (suc left) =
      let next = try_servers n answers ((leader + 1) % n) (attempt + 1) left in
      elim (answers attempt leader) [
        | none ↦ next
        | some r ↦ elim (judge (err_of r)) [
          | accept ↦ replied leader r
          | try_next ↦ next
          | undefined ↦ panicked
        ]
      ]

  -- A call of the clerk: it remembers the server that replied, and gives `otherwise` when no attempt
  -- is left. `none` is a panic.
  unfoldable pub call_group : R → Clerk → ℕ → Answers → Option (Clerk × R)
  call_group otherwise ck attempts answers =
      elim (try_servers ck.servers answers ck.leader 0 attempts) [
        | replied leader r ↦ some (record ck { leader = leader }, r)
        | exhausted ↦ some (ck, otherwise)
        | panicked ↦ none
      ]

abbrev pub get_err : GetReply → Err
get_err r = r.err

abbrev pub put_err : PutReply → Err
put_err r = r.err

unfoldable pub group_get : Clerk → (ℕ → ℕ → Option GetReply) → Option (Clerk × GetReply)
unfolding call_group
group_get ck =
    call_group get_err judge_get (record { value = ""; version = 0; err = err_retry_exhausted }) ck
      ck.max_attempts

unfoldable pub group_put : Clerk → (ℕ → ℕ → Option PutReply) → Option (Clerk × PutReply)
unfolding call_group
group_put ck =
    call_group put_err judge_put (record { err = err_retry_exhausted }) ck ck.max_attempts

unfoldable pub group_freeze :
    {B : Type 0}
    → Clerk
    → (ℕ → ℕ → Option (FreezeShardReply B))
    → Option (Clerk × FreezeShardReply B)
unfolding call_group
group_freeze ck =
    call_group (λ r. r.err) judge_shard
      (record { state = none; num = 0; err = err_retry_exhausted }) ck ck.max_attempts

unfoldable pub group_install :
    Clerk → (ℕ → ℕ → Option InstallShardReply) → Option (Clerk × InstallShardReply)
unfolding call_group
group_install ck =
    call_group (λ r. r.err) judge_shard (record { err = err_retry_exhausted }) ck ck.max_attempts

unfoldable pub group_delete :
    Clerk → (ℕ → ℕ → Option DeleteShardReply) → Option (Clerk × DeleteShardReply)
unfolding call_group
group_delete ck =
    call_group (λ r. r.err) judge_shard (record { err = err_retry_exhausted }) ck ck.max_attempts

-- The clerk of the replicated server counts its Puts.
pub record KvClerk : Type 0 where
  pub group : Clerk
  pub request_id : ℕ

unfoldable pub make_kv_clerk : ℕ → ℕ → KvClerk
unfolding make_clerk
make_kv_clerk servers client_id = record { group = make_clerk servers client_id; request_id = 0 }

-- It has no bound on its attempts: `attempts` is how long it is watched, and ErrRetryExhausted here is
-- a clerk that still tries. Without servers its first index panics.
unfoldable pub kv_get : ℕ → KvClerk → (ℕ → ℕ → Option GetReply) → Option (KvClerk × GetReply)
unfolding call_group
kv_get attempts ck answers =
    if ltb ck.group.leader ck.group.servers
    then (call_group get_err judge_kv_get
          (record { value = ""; version = 0; err = err_retry_exhausted }) ck.group attempts answers
        >>= λ r. some (record ck { group = r.0 }, r.1))
    else none

-- All attempts of a Put send the request id that it takes at its start, which the answers may read.
unfoldable pub kv_put : ℕ → KvClerk → (ℕ → ℕ → ℕ → Option PutReply) → Option (KvClerk × PutReply)
unfolding call_group
kv_put attempts ck answers =
    let id = (ck.request_id + 1) % 2 ^ 64 in
    if ltb ck.group.leader ck.group.servers
    then (call_group put_err judge_kv_put (record { err = err_retry_exhausted }) ck.group attempts
          (answers id)
        >>= λ r. some (record { group = r.0; request_id = id }, r.1))
    else none
