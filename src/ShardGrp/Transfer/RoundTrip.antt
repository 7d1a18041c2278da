-- ===== src/ShardGrp/Transfer/RoundTrip.antt =====
-- What a shard's data is after it was packed in one group and unpacked in another.
use mit_distro_sys.Common.{
  nat_eq, string_eq, ℕ, String, ◌≡◌, ◌∙◌, some, refl, false, ap, inl, inr, ◌==◌, Option-cases,
  ==_refl, ◌>>=◌,
}
use mit_distro_sys.Common.Assoc.{lookup, lookup-copy, copy}
use mit_distro_sys.Kv.Replica.{PutTable, Codec}
use mit_distro_sys.ShardGrp.Types.{KvServer, ShardState, ClientSet}
use mit_distro_sys.ShardGrp.Transfer.{
  entries, clients_of, shard_state, install_state, marshall_shard_state, install_shard_state,
}
use mit_distro_sys.ShardGrp.Transfer.Tables.{Known, collect_total}
use mit_distro_sys.ShardGrp.Transfer.Merged.{
  later_put, put_of, lookup-collect, collect-IsMap, lookup-clients_of, lookup-merge_puts,
}

-- What the destination `dst'` has of the shard, from the source and from what it had as `dst`: the
-- source's value at each key, exactly the source's clients, and of each of them the source's last Put
-- with its reply, unless it had a Put of the same or a later request. Its last Puts of other clients
-- and its other shards are as they were.
pub record Carries (src dst dst' : KvServer) (shid : ℕ) : Type 0 where
  pub same_values :
      (key : String) → lookup key (entries (dst'.kvm shid)) ≡ lookup key (entries (src.kvm shid))
  pub same_clients :
      (c : ℕ)
      → lookup c (entries (dst'.shard_clients shid)) ≡ lookup c (entries (src.shard_clients shid))
  pub puts :
      (c : ℕ)
      → lookup c dst'.last_put_by_client_id
        ≡ later_put
            (lookup c dst.last_put_by_client_id)
            (put_of (entries (src.shard_clients shid)) src.last_put_by_client_id c)
  pub others :
      (s : ℕ)
      → (shid == s) ≡ false
      → (dst'.kvm s ≡ dst.kvm s) × (dst'.shard_clients s ≡ dst.shard_clients s)

-- The clients of what was collected are those of the set.
collected-clients_of :
    (cs : ClientSet) (table m : PutTable) (c : ℕ)
    → Known cs table
    → lookup c m ≡ put_of cs table c
    → lookup c (clients_of m) ≡ lookup c cs
collected-clients_of cs table m c known e =
    lookup-clients_of m c ∙ ap (λ o. o >>= λ l. some tt) e ∙ elim (Option-cases (lookup c cs)) [
      | inl absent ↦ rw absent refl
      | inr (u, here) ↦ (let (l, q) = known c u here in rw here (rw q refl))
    ]

module _ (src dst : KvServer) (shid : ℕ)
    (known : Known (entries (src.shard_clients shid)) src.last_put_by_client_id) where
  pub shard_state-Carries :
      (st : ShardState) × (shard_state src shid ≡ some st)
      × Carries src dst (install_state dst shid st) shid
  unfolding shard_state install_state
  shard_state-Carries =
      let cs = entries (src.shard_clients shid) in
      let table = src.last_put_by_client_id in
      let (m, p, q) = collect_total cs table known in
      (
        record { kv = copy (entries (src.kvm shid)); last_put_by_client_id = m },
        rw (p, ◌>>=◌),
        record {
          same_values = λ key. rw (==_refl shid) (
              lookup-copy key (copy (entries (src.kvm shid)))
              ∙ lookup-copy key (entries (src.kvm shid)));
          same_clients = λ c.
              rw (==_refl shid)
                (collected-clients_of cs table m c known (lookup-collect cs table c p));
          puts = λ c.
              lookup-merge_puts m dst.last_put_by_client_id c (collect-IsMap cs table p)
              ∙ ap (later_put (lookup c dst.last_put_by_client_id)) (lookup-collect cs table c p);
          others = λ s other. (rw other refl, rw other refl);
        },
      )

  -- Packing the shard in the source and unpacking the bytes in any destination runs to its end, and
  -- the destination carries the shard.
  pub install_shard_state-marshall :
      (codec : Codec ShardState)
      → (bytes : codec.Bytes) × (dst' : KvServer) × (marshall_shard_state codec src shid
          ≡ some bytes)
        × (install_shard_state codec dst shid (some bytes) ≡ some dst')
        × Carries src dst dst' shid
  unfolding marshall_shard_state install_shard_state
  install_shard_state-marshall codec =
      let (st, p, carried) = shard_state-Carries in
      (
        codec.encode st,
        install_state dst shid st,
        rw (p, ◌>>=◌),
        rw (codec.decode-encode st, ◌>>=◌),
        carried,
      )
