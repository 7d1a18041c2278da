-- ===== src/Clerk/Group/Rounds.antt =====
-- A clerk asks every server in each round.
use native.Mathlib.Nat.{mod-add-mod, mod-eq_of_lt, add-mod-mod, add-mod_right, mod-lt}
use mit_distro_sys.Common.{
  ℕ, zero, suc, ◌+◌, ◌-◌, ◌%◌, ◌≤◌, ◌<◌, ◌≡◌, refl, sym, ap, ◌∙◌, subst, ◌≢◌, ◌⊎◌, inl, inr, some,
  arith, Option-cases,
}
use mit_distro_sys.Kv.Api.{Err}
use mit_distro_sys.Clerk.Group.{
  Clerk, Verdict, accept, try_next, undefined, replied, Answers, try_servers, call_group,
}

pub Verdict-cases : (v : Verdict) → (v ≡ accept) ⊎ (v ≡ try_next) ⊎ (v ≡ undefined)
Verdict-cases accept = inl refl
Verdict-cases try_next = inr (inl refl)
Verdict-cases undefined = inr (inr refl)

pub next_server-lt : (n i : ℕ) → i < n → (i + 1) % n < n
next_server-lt n i h = omega arith

wrap_next : (n i d : ℕ) → i < n → ((i + 1) % n + d) % n ≡ (i + suc d) % n
wrap_next n i d h =
    mod-add-mod (i + 1) n d ∙ ap (λ x. x % n) {x = i + 1 + d} {y = i + suc d} (omega arith)

-- The way round from one server to another.
round_to : (n i s : ℕ) → i < n → s < n → (i + (s + n - i) % n) % n ≡ s
round_to n i s h k =
    add-mod-mod i (s + n - i) n
    ∙ ap (λ x. x % n) {x = i + (s + n - i)} {y = s + n} (omega arith)
    ∙ add-mod_right s n
    ∙ mod-eq_of_lt k

module _ {R : Type 0} (err_of : R → Err) (judge : Err → Verdict) (n : ℕ) where
  -- The server that replied is one of the group, and its reply was accepted.
  pub try_servers-replied :
      (answers : Answers err_of judge) (leader attempt left s : ℕ) (r : R)
      → leader < n
      → try_servers err_of judge n answers leader attempt left ≡ replied s r
      → (s < n) × (judge (err_of r) ≡ accept)
  unfolding try_servers
  try_servers-replied answers leader attempt zero s r h e = absurd (ground arith)
  try_servers-replied answers leader attempt (suc left) s r h e =
      let ih =
        try_servers-replied answers ((leader + 1) % n) (attempt + 1) left s r
          (next_server-lt n leader h) in
      elim (Option-cases (answers attempt leader)) [
        | inl lost ↦ ih (rw (lost, try_servers) at e)
        | inr (x, got) ↦ elim (Verdict-cases (judge (err_of x))) [
          | inl yes' ↦
              let same : replied leader x ≡ replied s r = rw (got, try_servers, yes') at e in
              let to : leader ≡ s = ground arith in
              let what : x ≡ r = ground arith in
              (omega (arith, h, to), subst (λ y. judge (err_of y) ≡ accept) what yes')
          | inr (inl again) ↦ ih (rw (got, try_servers, again) at e)
          | inr (inr bad) ↦ absurd (let f = rw (got, try_servers, bad) at e in ground arith)
        ]
      ]

  -- Some server of the group answers whenever it is asked, with a reply that is accepted.
  abbrev pub IsServed : Answers err_of judge → ℕ → Type 0
  IsServed answers s =
      (attempt : ℕ) → (r : R) × (answers attempt s ≡ some r) × (judge (err_of r) ≡ accept)

  abbrev pub NoPanic : Answers err_of judge → Type 0
  NoPanic answers =
      (attempt s : ℕ) (r : R) → answers attempt s ≡ some r → judge (err_of r) ≢ undefined

  -- The server `d` steps further round is asked within the next `d + 1` attempts.
  try_servers_reaches :
      (answers : Answers err_of judge) (s d leader attempt left : ℕ)
      → NoPanic answers
      → IsServed answers s
      → (leader + d) % n ≡ s
      → leader < n
      → d < left
      → (i : ℕ) × (r : R) × (try_servers err_of judge n answers leader attempt left ≡ replied i r)
  unfolding try_servers
  try_servers_reaches answers s d leader attempt zero safe served e h k = absurd (omega arith)
  try_servers_reaches answers s zero leader attempt (suc left) safe served e h k =
      let here : leader ≡ s =
        sym (mod-eq_of_lt h) ∙ ap (λ x. x % n) {x = leader} {y = leader + 0} (omega arith) ∙ e in
      let (r, got, yes') = served attempt in
      let got' : answers attempt leader ≡ some r =
        subst (λ x. answers attempt x ≡ some r) (sym here) got in
      (leader, r, rw (got', try_servers) (rw yes' refl))
  try_servers_reaches answers s (suc d) leader attempt (suc left) safe served e h k =
      let ih =
        try_servers_reaches answers s d ((leader + 1) % n) (attempt + 1) left safe served
          (wrap_next n leader d h ∙ e) (next_server-lt n leader h) (omega (arith, k)) in
      elim (Option-cases (answers attempt leader)) [
        | inl lost ↦ rw (lost, try_servers) ih
        | inr (x, got) ↦ elim (Verdict-cases (judge (err_of x))) [
          | inl yes' ↦ (leader, x, rw (got, try_servers) (rw yes' refl))
          | inr (inl again) ↦ rw (got, try_servers) (rw again ih)
          | inr (inr bad) ↦ absurd (safe attempt leader x got bad)
        ]
      ]

-- A call of a clerk that remembers a server of its group, with an attempt for each of them or more,
-- succeeds if some server of the group gives an accepted answer whenever it is asked and none answers
-- with an error that the clerk does not know. The clerk then remembers a server of the group, and
-- returns an accepted answer.
pub call_group_succeeds :
    {R : Type 0} (err_of : R → Err) (judge : Err → Verdict) (otherwise : R) (ck : Clerk)
    (attempts : ℕ) (answers : Answers err_of judge) (s : ℕ)
    → NoPanic err_of judge ck.servers answers
    → IsServed err_of judge ck.servers answers s
    → s < ck.servers
    → ck.leader < ck.servers
    → ck.servers ≤ attempts
    → (ck' : Clerk) × (r : R) × (call_group err_of judge otherwise ck attempts answers
        ≡ some (ck', r))
      × (judge (err_of r) ≡ accept)
      × (ck'.leader < ck.servers)
      × (ck'.servers ≡ ck.servers)
unfolding call_group
call_group_succeeds err_of judge otherwise ck attempts answers s safe served hs hl room =
    let n = ck.servers in
    let d = (s + n - ck.leader) % n in
    let (i, r, e) =
      try_servers_reaches err_of judge n answers s d ck.leader 0 attempts safe served
        (round_to n ck.leader s hl hs) hl
        (omega (arith, room, mod-lt (s + n - ck.leader) {m = n} (omega (arith, hl)))) in
    let (low, yes') = try_servers-replied err_of judge n answers ck.leader 0 attempts i r hl e in
    (record ck { leader = i }, r, rw (e, call_group) refl, yes', low, refl)
