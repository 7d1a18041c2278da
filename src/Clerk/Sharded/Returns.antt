-- ===== src/Clerk/Sharded/Returns.antt =====
-- The sharded clerk returns once it asks a group that serves the shard.
use mit_distro_sys.Common.Assoc.{insert}
use mit_distro_sys.Common.{
  ℕ, ◌<◌, ◌≡◌, ◌≢◌, refl, sym, ◌∙◌, subst, inl, inr, true, some, List, [], ◌∷◌, ◌++◌, length, arith,
  ◌>>=◌, nat_eq, AllOf, String,
}
use mit_distro_sys.Kv.Api.{Err}
use mit_distro_sys.ShardCfg.{ShardConfig, ℤ, int_eq, gid_servers}
use mit_distro_sys.Clerk.Group.{Verdict, accept, try_next, undefined}
use mit_distro_sys.Clerk.Group.Rounds.{Verdict-cases, NoPanic, IsServed, call_group_succeeds}
use mit_distro_sys.Clerk.Sharded.{
  ShardedClerk, Round, get_config, refresh_config, group_clerk, ask_group, ask_groups,
}
use mit_distro_sys.Clerk.Sharded.Known.{
  call_group_safe, IsKnown, ClerkOk, group_clerk-GroupOk, get_config-IsKnown, insert-ClerkOk,
  refresh-ClerkOk,
}

-- The clerk knows what to do with what the clerks of the groups return.
pub record Judges {R : Type 0} (err_of : R → Err) (judge_group judge : Err → Verdict)
    (otherwise : R) : Type 0 where
  pub fits : (e : Err) → judge_group e ≡ accept → judge e ≢ undefined
  pub again : judge (err_of otherwise) ≡ try_next
  pub no_answer : judge_group (err_of otherwise) ≢ accept

module _ {R : Type 0} (err_of : R → Err) (judge_group judge : Err → Verdict) (otherwise : R)
    (judges : Judges err_of judge_group judge otherwise) (members : ℤ → ℕ) (shid : ℕ)
    (populated : (gid : ℤ) → 0 < members gid) where
  -- The configurations have a group for the shard, and no server of a group answers with an error
  -- that the group's clerk does not know.
  pub record RoundOk (round : Round R) : Type 0 where
    pub config : IsKnown members shid round.config
    pub refreshed : IsKnown members shid round.refreshed
    pub safe : (gid : ℤ) → NoPanic err_of judge_group (members gid) (round.answers gid)

  -- A server of the group answers whenever it is asked, and no server sends the clerk elsewhere.
  pub record Serves (gid : ℤ) (round : Round R) : Type 0 where
    pub server : ℕ
    pub is_member : server < members gid
    pub is_served : IsServed err_of judge_group (members gid) (round.answers gid) server
    pub accepts :
        (attempt i : ℕ) (r : R)
        → round.answers gid attempt i ≡ some r
        → judge_group (err_of r) ≡ accept
        → judge (err_of r) ≡ accept

  ask_group_safe :
      (ck : ShardedClerk) (round : Round R)
      → ClerkOk members shid ck
      → RoundOk round
      → (ck' : ShardedClerk) × (r : R) × (ask_group err_of judge_group judge otherwise ck shid round
          ≡ some (ck', r))
        × ClerkOk members shid ck'
        × (judge (err_of r) ≢ undefined)
  unfolding ask_group
  ask_group_safe ck round good fine =
      let known = get_config-IsKnown members shid populated ck round.config good fine.config in
      let (gid, srvs, e, len) = known in
      let rck = group_clerk ck gid (length srvs) in
      let mine = group_clerk-GroupOk members shid populated ck gid (length srvs) good len in
      let (rck', r, c, kept, v) =
        call_group_safe err_of judge_group otherwise (members gid) rck (round.answers gid) mine
          (fine.safe gid) in
      (
        record ck {
          rcks = insert gid rck' ck.rcks;
          cached_config = some (get_config ck round.config);
        },
        r,
        rw (e, ◌>>=◌, c, ◌>>=◌) refl,
        insert-ClerkOk members shid populated ck gid rck' (get_config ck round.config) good kept
            known,
        elim v [
          | inl (yes', _) ↦ judges.fits (err_of r) yes'
          | inr other ↦
              subst (λ x. judge (err_of x) ≢ undefined) (sym other)
                (λ f. ground (arith, judges.again))
        ],
      )

  ask_group-Serves :
      (ck ck' : ShardedClerk) (round : Round R) (cfg : ShardConfig) (gid : ℤ) (srvs : List String)
      (r : R)
      → ClerkOk members shid ck
      → RoundOk round
      → get_config ck round.config ≡ cfg
      → gid_servers cfg shid ≡ some (gid, srvs, true)
      → length srvs ≡ members gid
      → Serves gid round
      → ask_group err_of judge_group judge otherwise ck shid round ≡ some (ck', r)
      → judge (err_of r) ≡ accept
  unfolding ask_group
  ask_group-Serves ck ck' round cfg gid srvs r good fine uses e len serves result =
      let rck = group_clerk ck gid (length srvs) in
      let mine = group_clerk-GroupOk members shid populated ck gid (length srvs) good len in
      let (rck', x, c, kept, v) =
        call_group_safe err_of judge_group otherwise (members gid) rck (round.answers gid) mine
          (fine.safe gid) in
      let (rck2, y, c2, yes', _, _) =
        call_group_succeeds err_of judge_group otherwise rck rck.max_attempts (round.answers gid)
          serves.server (fine.safe gid) serves.is_served
          (omega (arith, serves.is_member, mine.servers)) (omega (arith, mine.leader, mine.servers))
          (omega (arith, mine.attempts, mine.servers)) in
      let asked = rw (uses, e, ◌>>=◌, c, ◌>>=◌) at result in
      let is : x ≡ r = ground (arith, asked) in
      let same : y ≡ x = (let both = sym c2 ∙ c in ground (arith, both)) in
      let answer : judge (err_of x) ≡ accept = elim v [
        | inl (yes2, (a, j, got)) ↦ serves.accepts a j x got yes2
        | inr other ↦
            absurd
              (judges.no_answer (subst (λ z. judge_group (err_of z) ≡ accept) (same ∙ other) yes'))
      ] in
      subst (λ z. judge (err_of z) ≡ accept) is answer

  abbrev pub Returned : ShardedClerk → List (Round R) → Type 0
  Returned ck rounds =
      (ck' : ShardedClerk) × (r : R) × (ask_groups err_of judge_group judge otherwise ck shid rounds
        ≡ some (ck', some r))
      × (judge (err_of r) ≡ accept)

  -- A round that ends the loop, or leads to the next one.
  ask_groups_step :
      (ck : ShardedClerk) (round : Round R) (rest : List (Round R))
      → ClerkOk members shid ck
      → RoundOk round
      → ((ck' : ShardedClerk)
          → ClerkOk members shid ck'
          → ck'.cached_config ≡ some round.refreshed
          → Returned ck' rest)
      → Returned ck (round ∷ rest)
  unfolding ask_groups
  ask_groups_step ck round rest good fine next =
      let (ck', r, e, kept, known) = ask_group_safe ck round good fine in
      elim (Verdict-cases (judge (err_of r))) [
        | inl yes' ↦ (ck', r, rw (e, ◌>>=◌, yes') refl, yes')
        | inr (inl again) ↦
            let (ck2, r2, e2, yes') =
              next (refresh_config ck' round.refreshed)
                (refresh-ClerkOk members shid populated ck' round.refreshed kept fine.refreshed)
                refl in
            (ck2, r2, rw (e, ◌>>=◌, again) e2, yes')
        | inr (inr bad) ↦ absurd (known bad)
      ]

  last_returns :
      (ck : ShardedClerk) (round : Round R) (rest : List (Round R)) (gid : ℤ) (srvs : List String)
      (cfg : ShardConfig)
      → ClerkOk members shid ck
      → RoundOk round
      → ck.cached_config ≡ some cfg
      → gid_servers cfg shid ≡ some (gid, srvs, true)
      → length srvs ≡ members gid
      → Serves gid round
      → Returned ck (round ∷ rest)
  unfolding ask_groups
  last_returns ck round rest gid srvs cfg good fine cached e len serves =
      let (ck', r, f, kept, known) = ask_group_safe ck round good fine in
      let yes' =
        ask_group-Serves ck ck' round cfg gid srvs r good fine (rw cached refl) e len serves f in
      (ck', r, rw (f, ◌>>=◌, yes') refl, yes')

  -- The loop returns an accepted answer, in whatever rounds before, once a configuration that is
  -- fetched names a group that serves the shard in the round after.
  pub ask_groups_returns :
      (ck : ShardedClerk) (rounds : List (Round R)) (read next : Round R) (rest : List (Round R))
      (gid : ℤ) (srvs : List String)
      → ClerkOk members shid ck
      → AllOf RoundOk rounds
      → RoundOk read
      → RoundOk next
      → gid_servers read.refreshed shid ≡ some (gid, srvs, true)
      → length srvs ≡ members gid
      → Serves gid next
      → Returned ck (rounds ++ read ∷ next ∷ rest)
  ask_groups_returns ck [] read next rest gid srvs good all fine fine2 e len serves =
      ask_groups_step ck read (next ∷ rest) good fine (λ ck' kept cached.
        last_returns ck' next rest gid srvs read.refreshed kept fine2 cached e len serves)
  ask_groups_returns ck (round ∷ rounds) read next rest gid srvs good (p, all) fine fine2 e len
        serves =
      ask_groups_step ck round (rounds ++ read ∷ next ∷ rest) good p (λ ck' kept cached.
        ask_groups_returns ck' rounds read next rest gid srvs kept all fine fine2 e len serves)
