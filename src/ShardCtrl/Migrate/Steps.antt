-- ===== src/ShardCtrl/Migrate/Steps.antt =====
-- Every step of a controller keeps to the phases of a handover.
use mit_distro_sys.Common.{
  ℕ, nat_eq, Bool, Option, none, some, ◌≡◌, refl, subst, sym, ◌∙◌, inl, inr, if◌then◌else◌, update,
  ◌==◌, Bool-cases, arith,
}
use mit_distro_sys.Kv.Api.{ok, err_retry_exhausted}
use mit_distro_sys.Kv.Replica.{Codec}
use mit_distro_sys.ShardGrp.Types.{
  KvServer, ShardState, FreezeShardReply, InstallShardReply, DeleteShardReply,
}
use mit_distro_sys.ShardGrp.Ops.{freeze_shard, install_shard, delete_shard}
use mit_distro_sys.ShardCtrl.Migrate.{
  Stage, freezing, installing, deleting, superseded, after_freeze, after_install, after_delete,
  Handover, MoveStep, start, freeze_answered, freeze_lost, freeze_exhausted, install_answered,
  install_lost, install_exhausted, delete_answered, delete_lost, delete_exhausted, Moving, begin,
  later,
}
use mit_distro_sys.ShardCtrl.Migrate.Route.{
  Phase, before, Route, src_at, dst_at, StageOk, Grows, freeze_from, install_from, delete_from,
}

same_result :
    {A B : Type 0} {o : Option (A × B)} {a a' : A} {b b' : B}
    → o ≡ some (a, b)
    → o ≡ some (a', b')
    → (a ≡ a') × (b ≡ b')
same_result e f = (ground arith, ground arith)

module _ (codec : Codec ShardState) (shid num : ℕ) {src dst : KvServer}
    (r : Route codec shid num src dst) where
  abbrev Ok : Phase → Stage codec.Bytes → Type 0
  Ok ph p = StageOk codec shid num r ph p

  pub record IsAt (s : Handover codec shid num) (ph : Phase) : Type 0 where
    pub src_is : s.src ≡ src_at codec shid num r ph
    pub dst_is : s.dst ≡ dst_at codec shid num r ph
    pub stages : (i : ℕ) → Ok ph (s.movers i)

  abbrev After : Handover codec shid num → Type 0
  After t = (next : Phase) × IsAt t next

  retry-Ok :
      (over : Bool) (ph : Phase) (p : Stage codec.Bytes)
      → Ok ph p
      → Ok ph (if over then superseded else p)
  retry-Ok over ph p h = elim (Bool-cases over) [ inl y ↦ rw y tt | inr n ↦ rw n h ]

  update_stage :
      (ph : Phase) (movers : ℕ → Stage codec.Bytes) (i : ℕ) (p : Stage codec.Bytes)
      → ((j : ℕ) → Ok ph (movers j))
      → Ok ph p
      → (j : ℕ) → Ok ph (update movers i p j)
  update_stage ph movers i p others mine j = elim (Bool-cases (i == j)) [
    | inl same ↦ rw same mine
    | inr other ↦ rw other (others j)
  ]

  -- A step that leaves the groups alone.
  stage_step :
      (s : Handover codec shid num) (ph : Phase) (i : ℕ) (p : Stage codec.Bytes)
      → IsAt s ph
      → Ok ph p
      → After (record s { movers = update s.movers i p })
  stage_step s ph i p a h = (
    ph,
    record {
      src_is = a.src_is;
      dst_is = a.dst_is;
      stages = update_stage ph s.movers i p a.stages h;
    },
  )

  src_step :
      (s : Handover codec shid num) (ph next : Phase) (i : ℕ) (p : Stage codec.Bytes)
      (new : KvServer)
      → IsAt s ph
      → new ≡ src_at codec shid num r next
      → dst_at codec shid num r ph ≡ dst_at codec shid num r next
      → Grows codec shid num r ph next
      → Ok next p
      → After (record s { src = new; movers = update s.movers i p })
  src_step s ph next i p new a e f grows h = (
    next,
    record {
      src_is = e;
      dst_is = a.dst_is ∙ f;
      stages = update_stage next s.movers i p (λ j. grows (s.movers j) (a.stages j)) h;
    },
  )

  dst_step :
      (s : Handover codec shid num) (ph next : Phase) (i : ℕ) (p : Stage codec.Bytes)
      (new : KvServer)
      → IsAt s ph
      → new ≡ dst_at codec shid num r next
      → src_at codec shid num r ph ≡ src_at codec shid num r next
      → Grows codec shid num r ph next
      → Ok next p
      → After (record s { dst = new; movers = update s.movers i p })
  dst_step s ph next i p new a e f grows h = (
    next,
    record {
      src_is = a.src_is ∙ f;
      dst_is = e;
      stages = update_stage next s.movers i p (λ j. grows (s.movers j) (a.stages j)) h;
    },
  )

  at :
      (s : Handover codec shid num) (ph : Phase) (i : ℕ) (p : Stage codec.Bytes)
      → IsAt s ph
      → s.movers i ≡ p
      → Ok ph p
  at s ph i p a e = subst (Ok ph) e (a.stages i)

  -- What is answered is what the phase says.
  freeze_result :
      (s : Handover codec shid num) (ph : Phase) (new : KvServer)
      (reply : FreezeShardReply codec.Bytes)
      → IsAt s ph
      → freeze_shard codec s.src (record { shard = shid; num = num }) ≡ some (new, reply)
      → (new ≡ src_at codec shid num r (freeze_from codec shid num r ph).0)
        × (record { state = (freeze_from codec shid num r ph).1; num = num; err = ok } ≡ reply)
  freeze_result s ph new reply a e =
      let f = freeze_from codec shid num r ph in
      let g =
        subst (λ x. freeze_shard codec x (record { shard = shid; num = num }) ≡ some (new, reply))
          a.src_is e in
      let (p, q) = same_result g f.2 in (p, sym q)

  after_freeze-Ok :
      (ph : Phase) (over : Bool) (state : Option codec.Bytes) (reply : FreezeShardReply codec.Bytes)
      → record { state = state; num = num; err = ok } ≡ reply
      → Ok ph (installing state)
      → Ok ph (after_freeze over reply.err reply.state)
  unfolding after_freeze
  after_freeze-Ok ph over state reply e h =
      subst (λ (x : FreezeShardReply codec.Bytes). Ok ph (after_freeze over x.err x.state)) e h

  freeze_lost-Ok : (ph : Phase) (over : Bool) → Ok ph (after_freeze over err_retry_exhausted none)
  unfolding after_freeze
  freeze_lost-Ok ph over = retry-Ok over ph freezing tt

  install_lost-Ok :
      (ph : Phase) (over : Bool) (state : Option codec.Bytes)
      → Ok ph (installing state)
      → Ok ph (after_install over state err_retry_exhausted)
  unfolding after_install
  install_lost-Ok ph over state h = retry-Ok over ph (installing state) h

  delete_lost-Ok :
      (ph : Phase) (over : Bool) → Ok ph deleting → Ok ph (after_delete over err_retry_exhausted)
  unfolding after_delete
  delete_lost-Ok ph over h = retry-Ok over ph deleting h

  Step-After :
      (s t : Handover codec shid num) (ph : Phase)
      → IsAt s ph
      → MoveStep codec shid num s t
      → After t
  unfolding after_install after_delete
  Step-After s t ph a (start i e) = subst After (sym e) (stage_step s ph i freezing a tt)
  Step-After s t ph a (freeze_answered i over new reply at_i e f) =
      let (next, state, _, same, h, grows) = freeze_from codec shid num r ph in
      let (p, q) = freeze_result s ph new reply a e in
      subst After (sym f)
        (src_step s ph next i _ new a p same grows (after_freeze-Ok next over state reply q h))
  Step-After s t ph a (freeze_lost i over new reply at_i e f) =
      let (next, state, _, same, h, grows) = freeze_from codec shid num r ph in
      let (p, q) = freeze_result s ph new reply a e in
      subst After (sym f) (src_step s ph next i _ new a p same grows (freeze_lost-Ok next over))
  Step-After s t ph a (freeze_exhausted i over at_i f) =
      subst After (sym f) (stage_step s ph i _ a (freeze_lost-Ok ph over))
  Step-After s t ph a (install_answered i over state new reply at_i e f) =
      let (next, g, same, h, grows) = install_from codec shid num r ph state (at s ph i _ a at_i) in
      let (p, q) =
        same_result
          (subst
            (λ x.
              install_shard codec x (record { shard = shid; state = state; num = num })
              ≡ some (new, reply))
            a.dst_is e)
          g in
      subst After (sym f) (
        dst_step s ph next i _ new a p same grows
          (subst (λ (x : InstallShardReply). Ok next (after_install over state x.err)) (sym q) h))
  Step-After s t ph a (install_lost i over state new reply at_i e f) =
      let mine = at s ph i _ a at_i in
      let (next, g, same, h, grows) = install_from codec shid num r ph state mine in
      let (p, q) =
        same_result
          (subst
            (λ x.
              install_shard codec x (record { shard = shid; state = state; num = num })
              ≡ some (new, reply))
            a.dst_is e)
          g in
      subst After (sym f) (
        dst_step s ph next i _ new a p same grows
          (install_lost-Ok next over state (grows (installing state) mine)))
  Step-After s t ph a (install_exhausted i over state at_i f) =
      subst After (sym f)
        (stage_step s ph i _ a (install_lost-Ok ph over state (at s ph i _ a at_i)))
  Step-After s t ph a (delete_answered i over new reply at_i e f) =
      let (next, g, same, h, grows) = delete_from codec shid num r ph (at s ph i _ a at_i) in
      let (p, q) =
        same_result
          (subst (λ x. delete_shard x (record { shard = shid; num = num }) ≡ some (new, reply))
            a.src_is e)
          g in
      subst After (sym f) (
        src_step s ph next i _ new a p same grows
          (subst (λ (x : DeleteShardReply). Ok next (after_delete over x.err)) (sym q) h))
  Step-After s t ph a (delete_lost i over new reply at_i e f) =
      let mine = at s ph i _ a at_i in
      let (next, g, same, h, grows) = delete_from codec shid num r ph mine in
      let (p, q) =
        same_result
          (subst (λ x. delete_shard x (record { shard = shid; num = num }) ≡ some (new, reply))
            a.src_is e)
          g in
      subst After (sym f)
        (src_step s ph next i _ new a p same grows (delete_lost-Ok next over (grows deleting mine)))
  Step-After s t ph a (delete_exhausted i over at_i f) =
      subst After (sym f) (stage_step s ph i _ a (delete_lost-Ok ph over (at s ph i _ a at_i)))

  pub Moving-After : (s : Handover codec shid num) → Moving codec shid num src dst s → After s
  Moving-After _ begin = (before, record { src_is = refl; dst_is = refl; stages = λ i. tt })
  Moving-After t (later {s = s} run step) =
      let (ph, a) = Moving-After s run in Step-After s t ph a step
