-- ===== src/ShardGrp/Invariant/Puts.antt =====
-- A Put runs to its end in a well-formed server, and leaves it well-formed.
use mit_distro_sys.ShardGrp.Transfer.{entries}
use mit_distro_sys.ShardGrp.Transfer.Tables.{Known}
use mit_distro_sys.Kv.Api.{PutArgs, PutReply, put_into, err_wrong_group}
use mit_distro_sys.Kv.Replica.{cached, LastPut, PutTable}
use mit_distro_sys.Common.{
  nat_eq, string_eq, ℕ, ◌≡◌, inl, inr, true, Option, some, ◌==◌, Bool-cases, update, String,
  Option-cases, subst,
}
use mit_distro_sys.Common.Assoc.{lookup-insert, lookup, insert}
use mit_distro_sys.ShardGrp.Types.{KvServer, ClientSet, key2shard}
use mit_distro_sys.ShardGrp.Ops.{do_put, is_serving, run_put, put_shard, add_client}
use mit_distro_sys.ShardGrp.Invariant.{Runs, IsWellFormed}

update_Has {ℓ} :
    {A : Type ℓ} (f : ℕ → Option A) (i j : ℕ) (v : A)
    → (a : A) × (f j ≡ some a)
    → (a : A) × (update f i (some v) j ≡ some a)
update_Has f i j v (a, e) = elim (Bool-cases (i == j)) [
  | inl same ↦ (v, rw same)
  | inr other ↦ (a, rw other e)
]

-- A property of a value at every index stays one when the array is written with such a value.
pub update_all {ℓ κ} :
    {A : Type ℓ} (P : A → Type κ) (f : ℕ → A) (i : ℕ) (v : A) (j : ℕ)
    → P v
    → P (f j)
    → P (update f i v j)
update_all P f i v j new old = elim (Bool-cases (i == j)) [
  | inl same ↦ rw same new
  | inr other ↦ rw other old
]

-- A Put of one more client keeps every client known.
Known-insert_table :
    (cs : ClientSet) (table : PutTable) (c : ℕ) (l : LastPut)
    → Known cs table
    → Known cs (insert c l table)
Known-insert_table cs table c l h j u e = elim (Bool-cases (c == j)) [
  | inl same ↦ (l, rw (lookup-insert c j l table, same))
  | inr other ↦ let (k, p) = h j u e in (k, rw (lookup-insert c j l table, other) p)
]

Known-insert :
    (cs : ClientSet) (table : PutTable) (c : ℕ) (l : LastPut)
    → Known cs table
    → Known (insert c tt cs) (insert c l table)
Known-insert cs table c l h j u e = elim (Bool-cases (c == j)) [
  | inl same ↦ (l, rw (lookup-insert c j l table, same))
  | inr other ↦
      let (k, p) = h j u (rw (lookup-insert c j tt cs, other) at e) in
      (k, rw (lookup-insert c j l table, other) p)
]

run_put-Runs :
    (kv : KvServer) (shid : ℕ) (args : PutArgs)
    → is_serving (kv.shard_statuses shid) ≡ true
    → IsWellFormed kv
    → Runs (run_put kv shid args)
unfolding run_put
run_put-Runs kv shid args on w =
    let (m, p) = w.has_map shid on in
    let (cs, q) = w.has_clients shid on in
    let r = put_into m args in
    let reply : PutReply = record { err = r.1 } in
    let last : LastPut = record { request_id = args.request_id; reply = reply } in
    (
      record kv {
        kvm = update kv.kvm shid (some r.0);
        last_put_by_client_id = insert args.client_id last kv.last_put_by_client_id;
        shard_clients = update kv.shard_clients shid (some (insert args.client_id tt cs));
      },
      reply,
      rw (p, put_shard) (rw (q, add_client)),
      record {
        has_map = λ s h. update_Has kv.kvm shid s r.0 (w.has_map s h);
        has_clients = λ s h.
            update_Has kv.shard_clients shid s (insert args.client_id tt cs) (w.has_clients s h);
        known = λ s.
            update_all
              (λ o. Known (entries o) (insert args.client_id last kv.last_put_by_client_id))
              kv.shard_clients shid (some (insert args.client_id tt cs)) s
              (Known-insert cs kv.last_put_by_client_id args.client_id last
                (subst (λ o. Known (entries o) kv.last_put_by_client_id) q (w.known shid)))
              (Known-insert_table (entries (kv.shard_clients s)) kv.last_put_by_client_id
                args.client_id last (w.known s));
      },
    )

-- A Put is answered, and keeps the server well-formed, whatever the shard's status.
pub do_put-Runs :
    (hash : String → ℕ) (kv : KvServer) (args : PutArgs)
    → IsWellFormed kv
    → Runs (do_put hash kv args)
unfolding do_put
do_put-Runs hash kv args w =
    let shid = key2shard hash args.key in
    elim (Bool-cases (is_serving (kv.shard_statuses shid))) [
      | inr off ↦ (kv, record { err = err_wrong_group }, rw off, w)
      | inl on ↦
          elim (Option-cases
            (cached (lookup args.client_id kv.last_put_by_client_id) args.request_id)) [
              | inr (reply, old) ↦ (kv, reply, rw on (rw (old, do_put)), w)
              | inl new ↦
                  let (kv', reply, p, w') = run_put-Runs kv shid args on w in
                  (kv', reply, rw on (rw (new, do_put) p), w')
            ]
    ]
