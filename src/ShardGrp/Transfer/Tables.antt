-- ===== src/ShardGrp/Transfer/Tables.antt =====
-- The tables of last Puts: what is collected for a shard, and what a merge keeps.
use mit_distro_sys.Common.{
  nat_eq, ℕ, ◌≤◌, ◌≡◌, refl, sym, subst, inl, inr, false, some, [], ◌∷◌, arith, ltb, ◌==◌, ==_iff,
  Bool-cases, Option-cases, beq_self, ◌>>=◌,
}
use mit_distro_sys.Common.Assoc.{lookup, insert, lookup-insert, lookup-insert_self}
use mit_distro_sys.Kv.Replica.{LastPut, PutTable}
use mit_distro_sys.ShardGrp.Types.{ClientSet}
use mit_distro_sys.ShardGrp.Transfer.{collect, clients_of, keep_latest, merge_puts}

-- Each client of the set has a last Put in the table.
abbrev pub Known : ClientSet → PutTable → Type 0
Known cs table =
    (c : ℕ) (u : Unit {0}) → lookup c cs ≡ some u → (l : LastPut) × (lookup c table ≡ some l)

-- The table knows a Put of the client, of this request or a later one.
abbrev pub AtLeast : PutTable → ℕ → ℕ → Type 0
AtLeast table c request_id = (l : LastPut) × (lookup c table ≡ some l) × (request_id ≤ l.request_id)

Known-tail :
    (j : ℕ) (v : Unit {0}) (cs : ClientSet) (table : PutTable)
    → Known ((j, v) ∷ cs) table
    → Known cs table
unfolding lookup
Known-tail j v cs table h c u e = elim (Bool-cases (j == c)) [
  | inl same ↦ h c v (rw same)
  | inr other ↦ h c u (rw other e)
]

Known-head :
    (j : ℕ) (v : Unit {0}) (cs : ClientSet) (table : PutTable)
    → Known ((j, v) ∷ cs) table
    → (l : LastPut) × (lookup j table ≡ some l)
unfolding lookup
Known-head j v cs table h = h j v (rw (beq_self j))

-- If all clients are known, all their Puts are collected: each client of the set is found with the
-- Put that the table has.
pub collect_total :
    (cs : ClientSet) (table : PutTable)
    → Known cs table
    → (m : PutTable) × (collect cs table ≡ some m)
      × ((c : ℕ) (u : Unit {0}) → lookup c cs ≡ some u → lookup c m ≡ lookup c table)
unfolding collect
collect_total [] table h = ([], refl, λ c u e. unfold lookup in cc)
collect_total ((j, v) ∷ cs) table h =
    let (m, p, q) = collect_total cs table (Known-tail j v cs table h) in
    let (l, e) = Known-head j v cs table h in
    (
      insert j l m,
      rw (p, ◌>>=◌) (rw (e, ◌>>=◌)),
      λ c u f. elim (Bool-cases (j == c)) [
        | inl same ↦
            rw (lookup-insert j c l m, same)
              (subst (λ k. some l ≡ lookup k table) ((==_iff j c).0 same) (sym e))
        | inr other ↦ rw (lookup-insert j c l m, other) (q c u (tail_of c u other f))
      ],
    )
  where
    tail_of :
        (c : ℕ) (u : Unit {0})
        → (j == c) ≡ false
        → lookup c ((j, v) ∷ cs) ≡ some u
        → lookup c cs ≡ some u
    tail_of c u other f = unfold lookup in rw other at f

-- The clients of a table are those that it has a Put of.
pub clients_of-Known : (m : PutTable) → Known (clients_of m) m
unfolding clients_of lookup
clients_of-Known [] c u e = cc
clients_of-Known ((j, l) ∷ m) c u e = elim (Bool-cases (j == c)) [
  | inl same ↦ (l, rw same)
  | inr other ↦
      let (k, p) = clients_of-Known m c u (rw (lookup-insert j c tt (clients_of m), other) at e) in
      (k, rw other p)
]

keep_latest_self :
    (c : ℕ) (l : LastPut) (table : PutTable) → AtLeast (keep_latest c l table) c l.request_id
unfolding keep_latest
keep_latest_self c l table = elim (Option-cases (lookup c table)) [
  | inl new ↦ (l, rw (new, keep_latest) (lookup-insert_self c l table), omega arith)
  | inr (k, old) ↦ elim (Bool-cases (ltb k.request_id l.request_id)) [
    | inl later ↦ (l, rw (old, keep_latest) (rw later (lookup-insert_self c l table)), omega arith)
    | inr same ↦ (k, rw (old, keep_latest) (rw same old), ground arith)
  ]
]

keep_latest_later :
    (c : ℕ) (l : LastPut) (table : PutTable) (k : LastPut)
    → lookup c table ≡ some k
    → AtLeast (keep_latest c l table) c k.request_id
unfolding keep_latest
keep_latest_later c l table k old = elim (Bool-cases (ltb k.request_id l.request_id)) [
  | inl later ↦ (l, rw (old, keep_latest) (rw later (lookup-insert_self c l table)), ground arith)
  | inr same ↦ (k, rw (old, keep_latest) (rw same old), omega arith)
]

pub keep_latest_other :
    (c : ℕ) (l : LastPut) (table : PutTable) (j : ℕ)
    → (c == j) ≡ false
    → lookup j (keep_latest c l table) ≡ lookup j table
unfolding keep_latest
keep_latest_other c l table j other = ground (arith, lookup-insert c j l table)

keep_latest_keeps :
    (c : ℕ) (l : LastPut) (table : PutTable) (j n : ℕ)
    → AtLeast table j n
    → AtLeast (keep_latest c l table) j n
unfolding keep_latest
keep_latest_keeps c l table j n (k, e, h) = elim (Bool-cases (c == j)) [
  | inl same ↦
      let at : c ≡ j = (==_iff c j).0 same in
      let here : lookup c table ≡ some k = subst (λ i. lookup i table ≡ some k) (sym at) e in
      let (k', e', h') = keep_latest_later c l table k here in
      (k', subst (λ i. lookup i (keep_latest c l table) ≡ some k') at e', omega arith)
  | inr other ↦ (k, rw (keep_latest_other c l table j other) e, h)
]

-- A merge forgets nothing that the table knew.
pub merge_puts_keeps :
    (m table : PutTable) (j n : ℕ) → AtLeast table j n → AtLeast (merge_puts m table) j n
unfolding merge_puts
merge_puts_keeps [] table j n a = a
merge_puts_keeps ((c, l) ∷ m) table j n a =
    keep_latest_keeps c l (merge_puts m table) j n (merge_puts_keeps m table j n a)

-- And it learns every Put that is merged in.
pub merge_puts_learns :
    (m table : PutTable) (j : ℕ) (l : LastPut)
    → lookup j m ≡ some l
    → AtLeast (merge_puts m table) j l.request_id
unfolding merge_puts lookup
merge_puts_learns [] table j l e = cc
merge_puts_learns ((c, k) ∷ m) table j l e = elim (Bool-cases (c == j)) [
  | inl same ↦
      let q : k ≡ l = ground arith in
      subst (λ i. AtLeast (keep_latest c k (merge_puts m table)) i l.request_id)
        ((==_iff c j).0 same)
        (subst (λ (x : LastPut). AtLeast (keep_latest c k (merge_puts m table)) c x.request_id) q
          (keep_latest_self c k (merge_puts m table)))
  | inr other ↦
      keep_latest_keeps c k (merge_puts m table) j l.request_id
        (merge_puts_learns m table j l (rw other at e))
]
