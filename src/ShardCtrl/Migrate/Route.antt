-- ===== src/ShardCtrl/Migrate/Route.antt =====
-- The phases of a handover, and what each request does in each of them.
use mit_distro_sys.Common.{ℕ, nat_eq, Option, some, ◌≡◌, refl, subst, sym}
use mit_distro_sys.Kv.Api.{ok}
use mit_distro_sys.Kv.Replica.{Codec}
use mit_distro_sys.ShardGrp.Types.{KvServer, ShardState, serving, frozen, absent}
use mit_distro_sys.ShardGrp.Ops.{freeze_shard, install_shard, delete_shard}
use mit_distro_sys.ShardGrp.Transfer.RoundTrip.{Carries}
use mit_distro_sys.ShardCtrl.Migrate.{Stage, freezing, installing, deleting, moved, superseded}

-- How far the shard is: still served, frozen, also installed, deleted.
pub data Phase : Type 0 where
  before held both gone : Phase

module _ (codec : Codec ShardState) (shid num : ℕ) where
  abbrev pub Freezes : KvServer → KvServer → Option codec.Bytes → Type 0
  Freezes kv kv' state =
      freeze_shard codec kv (record { shard = shid; num = num })
      ≡ some (kv', record { state = state; num = num; err = ok })

  abbrev pub Installs : KvServer → Option codec.Bytes → KvServer → Type 0
  Installs kv state kv' =
      install_shard codec kv (record { shard = shid; state = state; num = num })
      ≡ some (kv', record { err = ok })

  abbrev pub Deletes : KvServer → KvServer → Type 0
  Deletes kv kv' =
      delete_shard kv (record { shard = shid; num = num }) ≡ some (kv', record { err = ok })

  -- What the two groups do in a handover, whichever of its requests come again.
  pub record Route (src dst : KvServer) : Type 0 where
    pub held_src : KvServer
    pub gone_src : KvServer
    pub new_dst : KvServer
    pub bytes : codec.Bytes
    pub empty : codec.Bytes
    pub freezes : Freezes src held_src (some bytes)
    pub freezes_held : Freezes held_src held_src (some bytes)
    pub freezes_gone : Freezes gone_src gone_src (some empty)
    pub installs : Installs dst (some bytes) new_dst
    pub installs_new : (state : Option codec.Bytes) → Installs new_dst state new_dst
    pub deletes : Deletes held_src gone_src
    pub deletes_gone : Deletes gone_src gone_src
    pub off : dst.shard_statuses shid ≡ absent
    pub is_held : held_src.shard_statuses shid ≡ frozen
    pub is_gone : gone_src.shard_statuses shid ≡ absent
    pub serves : new_dst.shard_statuses shid ≡ serving
    pub carries : Carries src dst new_dst shid

  module _ {src dst : KvServer} (r : Route src dst) where
    abbrev pub src_at : Phase → KvServer
    src_at before = src
    src_at held = r.held_src
    src_at both = r.held_src
    src_at gone = r.gone_src

    abbrev pub dst_at : Phase → KvServer
    dst_at before = dst
    dst_at held = dst
    dst_at both = r.new_dst
    dst_at gone = r.new_dst

    abbrev pub InstallOk : Phase → Option codec.Bytes → Type 0
    InstallOk before state = ⊥
    InstallOk held state = state ≡ some r.bytes
    InstallOk both state = Unit
    InstallOk gone state = Unit

    abbrev pub DeleteOk : Phase → Type 0
    DeleteOk before = ⊥
    DeleteOk held = ⊥
    DeleteOk both = Unit
    DeleteOk gone = Unit

    abbrev pub MovedOk : Phase → Type 0
    MovedOk before = ⊥
    MovedOk held = ⊥
    MovedOk both = ⊥
    MovedOk gone = Unit

    abbrev pub StageOk : Phase → Stage codec.Bytes → Type 0
    StageOk ph freezing = Unit
    StageOk ph (installing state) = InstallOk ph state
    StageOk ph deleting = DeleteOk ph
    StageOk ph moved = MovedOk ph
    StageOk ph superseded = Unit

    abbrev pub Grows : Phase → Phase → Type 0
    Grows ph next = (p : Stage codec.Bytes) → StageOk ph p → StageOk next p

    freeze_grows : Grows before held
    freeze_grows freezing h = tt
    freeze_grows (installing state) h = absurd h
    freeze_grows deleting h = h
    freeze_grows moved h = h
    freeze_grows superseded h = tt

    install_grows : Grows held both
    install_grows freezing h = tt
    install_grows (installing state) h = tt
    install_grows deleting h = absurd h
    install_grows moved h = h
    install_grows superseded h = tt

    delete_grows : Grows both gone
    delete_grows freezing h = tt
    delete_grows (installing state) h = tt
    delete_grows deleting h = tt
    delete_grows moved h = absurd h
    delete_grows superseded h = tt

    pub freeze_from :
        (ph : Phase)
        → (next : Phase) × (state : Option codec.Bytes) × Freezes (src_at ph) (src_at next) state
          × (dst_at ph ≡ dst_at next)
          × InstallOk next state
          × Grows ph next
    freeze_from before = (held, some r.bytes, r.freezes, refl, refl, freeze_grows)
    freeze_from held = (held, some r.bytes, r.freezes_held, refl, refl, λ p h. h)
    freeze_from both = (both, some r.bytes, r.freezes_held, refl, tt, λ p h. h)
    freeze_from gone = (gone, some r.empty, r.freezes_gone, refl, tt, λ p h. h)

    pub install_from :
        (ph : Phase) (state : Option codec.Bytes)
        → InstallOk ph state
        → (next : Phase) × Installs (dst_at ph) state (dst_at next)
          × (src_at ph ≡ src_at next)
          × DeleteOk next
          × Grows ph next
    install_from before state h = absurd h
    install_from held state h =
        (both, subst (λ x. Installs dst x r.new_dst) (sym h) r.installs, refl, tt, install_grows)
    install_from both state h = (both, r.installs_new state, refl, tt, λ p h. h)
    install_from gone state h = (gone, r.installs_new state, refl, tt, λ p h. h)

    pub delete_from :
        (ph : Phase)
        → DeleteOk ph
        → (next : Phase) × Deletes (src_at ph) (src_at next)
          × (dst_at ph ≡ dst_at next)
          × MovedOk next
          × Grows ph next
    delete_from before h = absurd h
    delete_from held h = absurd h
    delete_from both h = (gone, r.deletes, refl, tt, delete_grows)
    delete_from gone h = (gone, r.deletes_gone, refl, tt, λ p h. h)
