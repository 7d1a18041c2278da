-- ===== src/ShardGrp/Transfer/Merged.antt =====
-- Exactly which last Puts and clients an installed shard brings with it.
use mit_distro_sys.Common.{
  nat_eq, ℕ, ◌≡◌, refl, sym, ap, ◌∙◌, subst, inl, inr, Option, none, some, [], ◌∷◌, arith, ltb,
  ◌==◌, ==_iff, if◌then◌else◌, Bool-cases, Option-cases, ◌>>=◌, >>=-eq-some,
}
use mit_distro_sys.Common.Assoc.{lookup, insert, lookup-insert, lookup-insert_self}
use mit_distro_sys.Kv.Replica.{LastPut, PutTable}
use mit_distro_sys.ShardGrp.Types.{ClientSet}
use mit_distro_sys.ShardGrp.Transfer.{collect, clients_of, keep_latest, merge_puts}
use mit_distro_sys.ShardGrp.Transfer.Tables.{keep_latest_other}

-- What is known of a client in the end, from what was known and what is moved: the moved Put only if
-- its request is a later one.
abbrev pub later_put : Option LastPut → Option LastPut → Option LastPut
later_put none moved = moved
later_put (some known) none = some known
later_put (some known) (some moved) =
    if ltb known.request_id moved.request_id then some moved else some known

-- The last Put of a client, if it is one of the set.
abbrev pub put_of : ClientSet → PutTable → ℕ → Option LastPut
put_of cs table c = lookup c cs >>= λ u. lookup c table

-- No client stands twice.
abbrev pub IsMap : PutTable → Type 0
IsMap [] = Unit
IsMap ((c, _) ∷ m) = (lookup c m ≡ none) × IsMap m

insert-IsMap : (c : ℕ) (l : LastPut) (m : PutTable) → IsMap m → IsMap (insert c l m)
unfolding insert
insert-IsMap c l [] h = (unfold lookup in refl, tt)
insert-IsMap c l ((j, k) ∷ m) (new, h) = elim (Bool-cases (j == c)) [
  | inl same ↦ rw same (subst (λ i. lookup i m ≡ none) ((==_iff j c).0 same) new, h)
  | inr other ↦ rw other (
    rw (lookup-insert c j l m) (ground (arith, new, ==_iff c j, ==_iff j c)),
    insert-IsMap c l m h,
  )
]

pub collect-IsMap :
    (cs : ClientSet) (table : PutTable) {m : PutTable} → collect cs table ≡ some m → IsMap m
unfolding collect
collect-IsMap [] table e = subst IsMap {x = []} (ground arith) tt
collect-IsMap ((c, u) ∷ cs) table e =
    let (rest, p, q) = >>=-eq-some (collect cs table) _ e in
    let (l, f, g) = >>=-eq-some (lookup c table) _ q in
    subst IsMap {x = insert c l rest} (ground arith)
      (insert-IsMap c l rest (collect-IsMap cs table p))

lookup-insert-put_of :
    (c j : ℕ) (u : Unit {0}) (l : LastPut) (cs : ClientSet) (table rest : PutTable)
    → lookup c table ≡ some l
    → lookup j rest ≡ put_of cs table j
    → lookup j (insert c l rest) ≡ put_of ((c, u) ∷ cs) table j
lookup-insert-put_of c j u l cs table rest f ih = elim (Bool-cases (c == j)) [
  | inl same ↦
      rw (lookup-insert c j l rest, same)
        (unfold lookup in
          rw same (subst (λ i. some l ≡ lookup i table) ((==_iff c j).0 same) (sym f)))
  | inr other ↦ rw (lookup-insert c j l rest, other) (ih ∙ (unfold lookup in rw other refl))
]

pub lookup-collect :
    (cs : ClientSet) (table : PutTable) {m : PutTable} (j : ℕ)
    → collect cs table ≡ some m
    → lookup j m ≡ put_of cs table j
unfolding collect
lookup-collect [] table j e =
    subst (λ x. lookup j x ≡ put_of [] table j) {x = []} (ground arith) (unfold lookup in refl)
lookup-collect ((c, u) ∷ cs) table {m} j e =
    let (rest, p, q) = >>=-eq-some (collect cs table) _ e in
    let (l, f, g) = >>=-eq-some (lookup c table) _ q in
    subst (λ x. lookup j x ≡ put_of ((c, u) ∷ cs) table j) {x = insert c l rest} (ground arith)
      (lookup-insert-put_of c j u l cs table rest f (lookup-collect cs table j p))

pub lookup-clients_of :
    (m : PutTable) (j : ℕ) → lookup j (clients_of m) ≡ (lookup j m >>= λ l. some tt)
unfolding clients_of lookup
lookup-clients_of [] j = refl
lookup-clients_of ((c, l) ∷ m) j = elim (Bool-cases (c == j)) [
  | inl same ↦ rw (lookup-insert c j tt (clients_of m), same) refl
  | inr other ↦ rw (lookup-insert c j tt (clients_of m), other) (lookup-clients_of m j)
]

lookup-keep_latest :
    (c : ℕ) (l : LastPut) (table : PutTable)
    → lookup c (keep_latest c l table) ≡ later_put (lookup c table) (some l)
unfolding keep_latest
lookup-keep_latest c l table = elim (Option-cases (lookup c table)) [
  | inl new ↦ rw (new, keep_latest) (lookup-insert_self c l table)
  | inr (k, old) ↦ elim (Bool-cases (ltb k.request_id l.request_id)) [
    | inl later ↦ rw (old, keep_latest) (rw later (lookup-insert_self c l table))
    | inr same ↦ rw (old, keep_latest) (rw same old)
  ]
]

later_put-none : (o : Option LastPut) → later_put o none ≡ o
later_put-none none = refl
later_put-none (some l) = refl

pub lookup-merge_puts :
    (m table : PutTable) (j : ℕ)
    → IsMap m
    → lookup j (merge_puts m table) ≡ later_put (lookup j table) (lookup j m)
unfolding merge_puts lookup
lookup-merge_puts [] table j h = sym (later_put-none (lookup j table))
lookup-merge_puts ((c, l) ∷ m) table j (new, h) = elim (Bool-cases (c == j)) [
  | inl same ↦
      (let here : lookup c (keep_latest c l (merge_puts m table))
            ≡ later_put (lookup c table) (some l) =
          lookup-keep_latest c l (merge_puts m table)
          ∙ ap (λ o. later_put o (some l))
              (lookup-merge_puts m table c h
                ∙ ap (later_put (lookup c table)) new
                ∙ later_put-none (lookup c table)) in
        rw same (
          subst
            (λ i.
              lookup i (keep_latest c l (merge_puts m table)) ≡ later_put (lookup i table) (some l))
            ((==_iff c j).0 same) here))
  | inr other ↦
      rw other (keep_latest_other c l (merge_puts m table) j other ∙ lookup-merge_puts m table j h)
]
