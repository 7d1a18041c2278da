-- ===== src/Clerk/Sharded/Known.antt =====
-- What the rounds of the sharded clerk keep of its clerks and of its configuration.
use mit_distro_sys.Common.{
  ℕ, zero, suc, ◌+◌, ◌*◌, ◌%◌, ◌<◌, ◌≡◌, refl, sym, ap, ◌∙◌, subst, ◌⊎◌, inl, inr, true, some, List,
  length, arith, Option-cases, Bool-cases, nat_eq, String,
}
use mit_distro_sys.Common.Assoc.{lookup, insert, lookup-insert}
use mit_distro_sys.Kv.Api.{Err}
use mit_distro_sys.ShardCfg.{ShardConfig, ℤ, int_eq, gid_servers}
use mit_distro_sys.Clerk.Group.{
  Verdict, accept, Clerk, make_clerk, replied, exhausted, Answers, try_servers, call_group,
}
use mit_distro_sys.Clerk.Group.Rounds.{Verdict-cases, try_servers-replied, NoPanic}
use mit_distro_sys.Clerk.Sharded.{ShardedClerk, get_config, refresh_config, group_clerk}

-- A loop of a group's clerk that does not panic ends with a reply or without attempts.
try_servers_safe :
    {R : Type 0} (err_of : R → Err) (judge : Err → Verdict) (n : ℕ) (answers : Answers err_of judge)
    (leader attempt left : ℕ)
    → NoPanic err_of judge n answers
    → ((i : ℕ) × (r : R) × (try_servers err_of judge n answers leader attempt left ≡ replied i r))
      ⊎ (try_servers err_of judge n answers leader attempt left ≡ exhausted)
unfolding try_servers
try_servers_safe err_of judge n answers leader attempt zero safe = inr refl
try_servers_safe err_of judge n answers leader attempt (suc left) safe =
    let ih = try_servers_safe err_of judge n answers ((leader + 1) % n) (attempt + 1) left safe in
    elim (Option-cases (answers attempt leader)) [
      | inl lost ↦ rw (lost, try_servers) ih
      | inr (x, got) ↦ elim (Verdict-cases (judge (err_of x))) [
        | inl yes' ↦ inl (leader, x, rw (got, try_servers) (rw yes' refl))
        | inr (inl again) ↦ rw (got, try_servers) (rw again ih)
        | inr (inr bad) ↦ absurd (safe attempt leader x got bad)
      ]
    ]

-- The clerk of a group with `n` servers, and what its calls keep.
pub record GroupOk (n : ℕ) (rck : Clerk) : Type 0 where
  pub servers : rck.servers ≡ n
  pub leader : rck.leader < n
  pub attempts : rck.max_attempts ≡ n * 2

-- A reply is one of the answers.
try_servers-answers :
    {R : Type 0} (err_of : R → Err) (judge : Err → Verdict) (n : ℕ) (answers : Answers err_of judge)
    (leader attempt left i : ℕ) (r : R)
    → try_servers err_of judge n answers leader attempt left ≡ replied i r
    → (a : ℕ) × (j : ℕ) × (answers a j ≡ some r)
unfolding try_servers
try_servers-answers err_of judge n answers leader attempt zero i r e = absurd (ground arith)
try_servers-answers err_of judge n answers leader attempt (suc left) i r e =
    let ih = try_servers-answers err_of judge n answers ((leader + 1) % n) (attempt + 1) left i r in
    elim (Option-cases (answers attempt leader)) [
      | inl lost ↦ ih (rw (lost, try_servers) at e)
      | inr (x, got) ↦ elim (Verdict-cases (judge (err_of x))) [
        | inl yes' ↦
            let same : replied leader x ≡ replied i r = rw (got, try_servers, yes') at e in
            let what : x ≡ r = ground arith in
            (attempt, leader, subst (λ y. answers attempt leader ≡ some y) what got)
        | inr (inl again) ↦ ih (rw (got, try_servers, again) at e)
        | inr (inr bad) ↦ absurd (let f = rw (got, try_servers, bad) at e in ground arith)
      ]
    ]

pub call_group_safe :
    {R : Type 0} (err_of : R → Err) (judge : Err → Verdict) (otherwise : R) (n : ℕ) (rck : Clerk)
    (answers : Answers err_of judge)
    → GroupOk n rck
    → NoPanic err_of judge n answers
    → (rck' : Clerk) × (r : R) × (call_group err_of judge otherwise rck rck.max_attempts answers
        ≡ some (rck', r))
      × GroupOk n rck'
      × ((judge (err_of r) ≡ accept) × ((a : ℕ) × (j : ℕ) × (answers a j ≡ some r))
          ⊎ (r ≡ otherwise))
unfolding call_group
call_group_safe err_of judge otherwise n rck answers good safe =
    let low : rck.leader < rck.servers = omega (arith, good.servers, good.leader) in
    elim (try_servers_safe err_of judge rck.servers answers rck.leader 0 rck.max_attempts safe) [
      | inl (i, r, e) ↦
          let (lt, yes') =
            try_servers-replied err_of judge rck.servers answers rck.leader 0 rck.max_attempts i r
              low e in
          (
            record rck { leader = i },
            r,
            rw (e, call_group) refl,
            record {
              servers = good.servers;
              leader = omega (arith, lt, good.servers);
              attempts = good.attempts;
            },
            inl (
              yes',
              try_servers-answers err_of judge rck.servers answers rck.leader 0 rck.max_attempts i r
                  e,
            ),
          )
      | inr e ↦ (rck, otherwise, rw (e, call_group) refl, good, inr refl)
    ]

module _ (members : ℤ → ℕ) (shid : ℕ) where
  -- The configuration has a group for the shard, with that group's servers.
  abbrev pub IsKnown : ShardConfig → Type 0
  IsKnown cfg =
      (gid : ℤ) × (srvs : List String) × (gid_servers cfg shid ≡ some (gid, srvs, true))
      × (length srvs ≡ members gid)

  pub record ClerkOk (ck : ShardedClerk) : Type 0 where
    pub groups : (gid : ℤ) (rck : Clerk) → lookup gid ck.rcks ≡ some rck → GroupOk (members gid) rck
    pub cached : (cfg : ShardConfig) → ck.cached_config ≡ some cfg → IsKnown cfg

  module _ (populated : (gid : ℤ) → 0 < members gid) where
    pub group_clerk-GroupOk :
        (ck : ShardedClerk) (gid : ℤ) (n : ℕ)
        → ClerkOk ck
        → n ≡ members gid
        → GroupOk (members gid) (group_clerk ck gid n)
    unfolding group_clerk make_clerk
    group_clerk-GroupOk ck gid n good e = elim (Option-cases (lookup gid ck.rcks)) [
      | inl new ↦
          rw (new, group_clerk)
            (record { servers = e; leader = populated gid; attempts = ap (λ x. x * 2) e })
      | inr (rck, known) ↦ rw (known, group_clerk) (good.groups gid rck known)
    ]

    pub get_config-IsKnown :
        (ck : ShardedClerk) (answer : ShardConfig)
        → ClerkOk ck
        → IsKnown answer
        → IsKnown (get_config ck answer)
    get_config-IsKnown ck answer good known = elim (Option-cases ck.cached_config) [
      | inl e ↦ rw e known
      | inr (cfg, e) ↦ rw e (good.cached cfg e)
    ]

    pub insert-ClerkOk :
        (ck : ShardedClerk) (gid : ℤ) (rck : Clerk) (cfg : ShardConfig)
        → ClerkOk ck
        → GroupOk (members gid) rck
        → IsKnown cfg
        → ClerkOk (record ck { rcks = insert gid rck ck.rcks; cached_config = some cfg })
    insert-ClerkOk ck gid rck cfg good mine known = record {
      groups = λ g x e. (elim (Bool-cases (int_eq.beq gid g)) [
        | inl same ↦
            let here : gid ≡ g = (int_eq.beq_iff gid g).0 same in
            let found : some rck ≡ some x =
              sym (lookup-insert gid g rck ck.rcks ∙ rw same refl) ∙ e in
            let is : rck ≡ x = ground arith in
            subst (λ h. GroupOk (members h) x) here (subst (GroupOk (members gid)) is mine)
        | inr other ↦ good.groups g x (sym (lookup-insert gid g rck ck.rcks ∙ rw other refl) ∙ e)
      ]);
      cached = λ c e. subst IsKnown (let z : cfg ≡ c = ground arith in z) known;
    }

    pub refresh-ClerkOk :
        (ck : ShardedClerk) (cfg : ShardConfig)
        → ClerkOk ck
        → IsKnown cfg
        → ClerkOk (refresh_config ck cfg)
    refresh-ClerkOk ck cfg good known = record {
      groups = good.groups;
      cached = λ c e. subst IsKnown (let z : cfg ≡ c = ground arith in z) known;
    }
