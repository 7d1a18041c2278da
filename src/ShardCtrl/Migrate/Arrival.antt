-- ===== src/ShardCtrl/Migrate/Arrival.antt =====
-- A shard that controllers move is served by at most one of the two groups, and arrives.
use mit_distro_sys.Common.{
  ℕ, nat_eq, ◌<◌, Option, ◌≡◌, ◌≢◌, subst, sym, ◌∙◌, ap, arith, ==_refl, lt→ltb,
}
use mit_distro_sys.Kv.Replica.{Codec}
use mit_distro_sys.ShardGrp.Types.{
  KvServer, ShardState, ShardStatus, serving, frozen, absent, n_shards,
}
use mit_distro_sys.ShardGrp.Ops.{
  freeze_shard, install_shard, set_status, freeze_newer, install_newer,
}
use mit_distro_sys.ShardGrp.Invariant.{IsWellFormed}
use mit_distro_sys.ShardGrp.Invariant.Shards.{in_range}
use mit_distro_sys.ShardGrp.Migration.Again.{
  emptied, freeze_frozen, freeze_emptied, install_serving, delete_frozen, delete_emptied,
}
use mit_distro_sys.ShardGrp.Transfer.RoundTrip.{Carries, install_shard_state-marshall}
use mit_distro_sys.ShardCtrl.Migrate.{
  Stage, freezing, installing, deleting, moved, superseded, Handover, Moving,
}
use mit_distro_sys.ShardCtrl.Migrate.Route.{
  Phase, before, held, both, gone, Freezes, Installs, Deletes, Route, src_at, dst_at, StageOk,
  freeze_from, install_from, delete_from,
}
use mit_distro_sys.ShardCtrl.Migrate.Steps.{IsAt, Moving-After}

-- The source serves the shard, the destination does not have it, and the number is new to both.
pub record IsReady (src dst : KvServer) (shid num : ℕ) : Type 0 where
  pub is_shard : shid < n_shards
  pub well_formed : IsWellFormed src
  pub on : src.shard_statuses shid ≡ serving
  pub off : dst.shard_statuses shid ≡ absent
  pub new_to_src : src.cfg_num_by_shid shid < num
  pub new_to_dst : dst.cfg_num_by_shid shid < num

module _ (codec : Codec ShardState) (shid num : ℕ) where
  handover-Route : (src dst : KvServer) → IsReady src dst shid num → Route codec shid num src dst
  unfolding freeze_shard install_shard freeze_newer install_newer
  handover-Route src dst h =
      let stopped = set_status src shid frozen num in
      let (bytes, d1, p, q, carried) =
        install_shard_state-marshall stopped dst shid (h.well_formed.known shid) codec in
      let (empty, e) = freeze_emptied codec stopped shid num h.is_shard in
      record {
        held_src = stopped;
        gone_src = emptied stopped shid num;
        new_dst = set_status d1 shid serving num;
        bytes = bytes;
        empty = empty;
        freezes = rw (in_range shid h.is_shard, lt→ltb _ _ h.new_to_src, h.on, freeze_newer) (rw p);
        freezes_held =
            freeze_frozen codec stopped shid num bytes h.is_shard (rw (==_refl shid))
              (rw (==_refl shid)) p;
        freezes_gone = e;
        installs =
            rw (in_range shid h.is_shard, lt→ltb _ _ h.new_to_dst, h.off, install_newer) (rw q);
        installs_new = λ state.
            install_serving codec _ shid num state h.is_shard (rw (==_refl shid))
              (rw (==_refl shid));
        deletes = delete_frozen stopped shid num h.is_shard (rw (==_refl shid)) (rw (==_refl shid));
        deletes_gone = delete_emptied stopped shid num h.is_shard;
        off = h.off;
        is_held = rw (==_refl shid);
        is_gone = rw (==_refl shid);
        serves = rw (==_refl shid);
        carries = record {
          same_values = carried.same_values;
          same_clients = carried.same_clients;
          puts = carried.puts;
          others = carried.others;
        };
      }

  -- The next call of a controller is answered with OK.
  abbrev pub Answered : Handover codec shid num → Stage codec.Bytes → Type 0
  Answered s freezing =
      (kv : KvServer) × (state : Option codec.Bytes) × Freezes codec shid num s.src kv state
  Answered s (installing state) = (kv : KvServer) × Installs codec shid num s.dst state kv
  Answered s deleting = (kv : KvServer) × Deletes codec shid num s.src kv
  Answered s moved = Unit
  Answered s superseded = Unit

  pub record Arrives (src dst : KvServer) (s : Handover codec shid num) : Type 0 where
    pub not_both : s.dst.shard_statuses shid ≡ serving → s.src.shard_statuses shid ≢ serving
    pub carried : s.dst.shard_statuses shid ≡ serving → Carries src dst s.dst shid
    pub arrived :
        (i : ℕ)
        → s.movers i ≡ moved
        → (s.src.shard_statuses shid ≡ absent) × (s.dst.shard_statuses shid ≡ serving)
    pub answered : (i : ℕ) → Answered s (s.movers i)

  status_of :
      (a b : KvServer) (x : ShardStatus)
      → a ≡ b
      → b.shard_statuses shid ≡ x
      → a.shard_statuses shid ≡ x
  status_of a b x e h = ap (λ (y : KvServer). y.shard_statuses shid) e ∙ h

  off-ne-serving : (x : ShardStatus) → x ≡ absent → x ≢ serving
  off-ne-serving x e f = absurd (ground arith)

  frozen-ne-serving : (x : ShardStatus) → x ≡ frozen → x ≢ serving
  frozen-ne-serving x e f = absurd (ground arith)

  module _ {src dst : KvServer} (r : Route codec shid num src dst) where
    dst_off : (s : Handover codec shid num) → s.dst ≡ dst → s.dst.shard_statuses shid ≢ serving
    dst_off s e = off-ne-serving _ (status_of s.dst dst absent e r.off)

    dst-Carries : (s : Handover codec shid num) → s.dst ≡ r.new_dst → Carries src dst s.dst shid
    dst-Carries s e = subst (λ x. Carries src dst x shid) (sym e) r.carries

    src_held :
        (s : Handover codec shid num) → s.src ≡ r.held_src → s.src.shard_statuses shid ≢ serving
    src_held s e = frozen-ne-serving _ (status_of s.src r.held_src frozen e r.is_held)

    src_gone :
        (s : Handover codec shid num) → s.src ≡ r.gone_src → s.src.shard_statuses shid ≡ absent
    src_gone s e = status_of s.src r.gone_src absent e r.is_gone

    next_call :
        (s : Handover codec shid num) (ph : Phase) (p : Stage codec.Bytes)
        → IsAt codec shid num r s ph
        → StageOk codec shid num r ph p
        → Answered s p
    next_call s ph freezing a h =
        let f = freeze_from codec shid num r ph in
        (
          src_at codec shid num r f.0,
          f.1,
          subst (λ x. Freezes codec shid num x (src_at codec shid num r f.0) f.1) (sym a.src_is)
              f.2,
        )
    next_call s ph (installing state) a h =
        let f = install_from codec shid num r ph state h in
        (
          dst_at codec shid num r f.0,
          subst (λ x. Installs codec shid num x state (dst_at codec shid num r f.0)) (sym a.dst_is)
              f.1,
        )
    next_call s ph deleting a h =
        let f = delete_from codec shid num r ph h in
        (
          src_at codec shid num r f.0,
          subst (λ x. Deletes codec shid num x (src_at codec shid num r f.0)) (sym a.src_is) f.1,
        )
    next_call s ph moved a h = tt
    next_call s ph superseded a h = tt

    not_moved :
        (s : Handover codec shid num) (ph : Phase) (i : ℕ)
        → IsAt codec shid num r s ph
        → s.movers i ≡ moved
        → StageOk codec shid num r ph moved
    not_moved s ph i a e = subst (StageOk codec shid num r ph) e (a.stages i)

    IsAt-Arrives :
        (s : Handover codec shid num) (ph : Phase) → IsAt codec shid num r s ph → Arrives src dst s
    IsAt-Arrives s before a = record {
      not_both = λ e. absurd (dst_off s a.dst_is e);
      carried = λ e. absurd (dst_off s a.dst_is e);
      arrived = λ i e. absurd (not_moved s before i a e);
      answered = λ i. next_call s before (s.movers i) a (a.stages i);
    }
    IsAt-Arrives s held a = record {
      not_both = λ e. absurd (dst_off s a.dst_is e);
      carried = λ e. absurd (dst_off s a.dst_is e);
      arrived = λ i e. absurd (not_moved s held i a e);
      answered = λ i. next_call s held (s.movers i) a (a.stages i);
    }
    IsAt-Arrives s both a = record {
      not_both = λ e. src_held s a.src_is;
      carried = λ e. dst-Carries s a.dst_is;
      arrived = λ i e. absurd (not_moved s both i a e);
      answered = λ i. next_call s both (s.movers i) a (a.stages i);
    }
    IsAt-Arrives s gone a = record {
      not_both = λ e. off-ne-serving _ (src_gone s a.src_is);
      carried = λ e. dst-Carries s a.dst_is;
      arrived = λ i e. (src_gone s a.src_is, status_of s.dst r.new_dst serving a.dst_is r.serves);
      answered = λ i. next_call s gone (s.movers i) a (a.stages i);
    }

  -- Any number of controllers move a shard from a well-formed group that serves it to one that does
  -- not have it, for a configuration number new to both, with lost calls, crashes and restarts, and no
  -- other requests. Then the two groups never serve it both; when the destination serves it, it has
  -- the source's value at every key, the source's clients of the shard, and of each of them the source's
  -- last Put with its reply or one that it knew of the same or a later request; once a controller has
  -- moved it, the source has deleted it and the destination serves it; and the next call of every
  -- controller is answered OK by a group that runs it.
  pub Moving-Arrives :
      (src dst : KvServer)
      → IsReady src dst shid num
      → (s : Handover codec shid num) → Moving codec shid num src dst s
      → Arrives src dst s
  Moving-Arrives src dst h s run =
      let r = handover-Route src dst h in
      let (ph, a) = Moving-After codec shid num r s run in IsAt-Arrives r s ph a
