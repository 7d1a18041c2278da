-- ===== src/ShardCtrl/Order/Steps.antt =====
-- Every step of a controller keeps the order of the two configurations.
use mit_distro_sys.Common.{
  sym, ℕ, string_eq, nat_eq, suc, ◌≤◌, ◌≡◌, ap, subst, inl, inr, true, some, arith, ltb, leb, ◌==◌,
  Bool-cases, update,
}
use mit_distro_sys.Kv.Server.{KvServer}
use mit_distro_sys.ShardCfg.{ShardConfig, equal_to}
use mit_distro_sys.ShardCtrl.{
  ConfigText, query, Progress, Control, change_config_to, save_next_config, confirm,
  init_controller, recovering,
}
use mit_distro_sys.ShardCtrl.Order.{
  Cells, IsAhead, WasCurrent, ProgressOk, Later, equal_to_refl, equal_to-num,
}
use mit_distro_sys.ShardCtrl.Order.Stores.{Holds, Moved}

module _ (text : ConfigText) where
  -- The store after `k` steps, and what every controller relies on.
  pub record IsOrdered (s : Control) (c : Cells) (k : ℕ) : Type 0 where
    pub holds : Holds text s.store c
    pub progress : (i : ℕ) → ProgressOk c (s.controllers i)
    pub current_room : c.current_version ≤ suc k
    pub next_room : c.next_version ≤ suc k

  abbrev pub Follows : Control → Cells → ℕ → Type 0
  Follows t c k = (d : Cells) × IsOrdered t d (suc k) × Later c d

  update_progress :
      (c : Cells) (controllers : ℕ → Progress) (i : ℕ) (p : Progress)
      → ((j : ℕ) → ProgressOk c (controllers j))
      → ProgressOk c p
      → (j : ℕ) → ProgressOk c (update controllers i p j)
  update_progress c controllers i p others mine j = elim (Bool-cases (i == j)) [
    | inl same ↦ rw same mine
    | inr other ↦ rw other (others j)
  ]

  pub control_step :
      (s : Control) (c : Cells) (k i : ℕ) (p : Progress)
      → IsOrdered s c k
      → ProgressOk c p
      → Follows (record s { controllers = update s.controllers i p }) c k
  control_step s c k i p o mine = (
    c,
    record {
      holds = o.holds;
      progress = update_progress c s.controllers i p o.progress mine;
      current_room = omega (arith, o.current_room);
      next_room = omega (arith, o.next_room);
    },
    (omega arith, omega arith, omega arith, omega arith),
  )

  pub store_step :
      (s : Control) (c d : Cells) (k : ℕ) (store : KvServer)
      → IsOrdered s c k
      → Moved text store c d
      → IsOrdered (record s { store = store }) d (suc k)
  store_step s c d k store o m = record {
    holds = m.holds;
    progress = λ i. m.keeps (s.controllers i) (o.progress i);
    current_room = omega (arith, m.current_room, o.current_room);
    next_room = omega (arith, m.next_room, o.next_room);
  }

  pub both_step :
      (s : Control) (c d : Cells) (k i : ℕ) (p : Progress) (store : KvServer)
      → IsOrdered s c k
      → Moved text store c d
      → ProgressOk d p
      → IsOrdered (record { store = store; controllers = update s.controllers i p }) d (suc k)
  both_step s c d k i p store o m mine =
      let next = store_step s c d k store o m in
      record {
        holds = next.holds;
        progress = update_progress d s.controllers i p next.progress mine;
        current_room = next.current_room;
        next_room = next.next_room;
      }

  -- What is read is what the store holds.
  pub read_current :
      (store : KvServer) (c : Cells) (cfg : ShardConfig) (ver : ℕ)
      → Holds text store c
      → query text store "currentConfig" ≡ some (cfg, ver)
      → (cfg ≡ c.current) × (ver ≡ c.current_version)
  read_current store c cfg ver h e =
      (ground (arith, h.reads_current), ground (arith, h.reads_current))

  pub read_next :
      (store : KvServer) (c : Cells) (cfg : ShardConfig) (ver : ℕ)
      → Holds text store c
      → query text store "nextConfig" ≡ some (cfg, ver)
      → (cfg ≡ c.next) × (ver ≡ c.next_version)
  read_next store c cfg ver h e = (ground (arith, h.reads_next), ground (arith, h.reads_next))

  pub change_config_to-Ok :
      (c : Cells) (old new : ShardConfig) (ver : ℕ)
      → (old ≡ c.current) × (ver ≡ c.current_version)
      → ProgressOk c (change_config_to old ver new)
  unfolding change_config_to
  change_config_to-Ok c old new ver (e, f) = elim (Bool-cases (leb new.num old.num)) [
    | inl y ↦ rw y tt
    | inr n ↦
        rw n (omega (arith, f), λ g. (let z = ap (λ (x : ShardConfig). x.num) e in ground arith))
  ]

  pub save_next_config-Ok :
      (c : Cells) (new existing : ShardConfig) (ver next_ver : ℕ)
      → (existing ≡ c.next) × (next_ver ≡ c.next_version)
      → IsAhead c ver new
      → ProgressOk c (save_next_config ver new existing next_ver)
  unfolding save_next_config
  save_next_config-Ok c new existing ver next_ver (e, f) a =
      elim (Bool-cases (leb new.num existing.num)) [
        | inl y ↦ rw y tt
        | inr n ↦
            rw n (
              a,
              omega (arith, f),
              λ g. (let z = ap (λ (x : ShardConfig). x.num) e in ground arith),
            )
      ]

  pub confirm-Ok :
      (c : Cells) (new written : ShardConfig) (ver : ℕ)
      → written ≡ c.next
      → IsAhead c ver new
      → ProgressOk c (confirm ver new written)
  unfolding confirm
  confirm-Ok c new written ver e a = elim (Bool-cases (equal_to written new)) [
    | inl y ↦
        let y' : equal_to c.next new ≡ true = subst (λ x. equal_to x new ≡ true) e y in
        rw y (a, (omega (arith, equal_to-num c.next new y'), λ f. y'))
    | inr n ↦ rw n tt
  ]

  -- `InitController` has read the current configuration, which may have been replaced since.
  pub recovering-Ok :
      (c : Cells) (current : ShardConfig) (ver : ℕ)
      → (current ≡ c.current) × (ver ≡ c.current_version)
      → ProgressOk c (recovering current ver)
  recovering-Ok c current ver (e, f) =
      (omega (arith, f), λ g. sym (ap (λ (x : ShardConfig). x.num) e))

  pub init_controller-Ok :
      (c : Cells) (current next : ShardConfig) (ver : ℕ)
      → WasCurrent c current ver
      → next ≡ c.next
      → ProgressOk c (init_controller current ver next)
  unfolding init_controller
  init_controller-Ok c current next ver (e, f) g = elim (Bool-cases (ltb current.num next.num)) [
    | inl y ↦
        let w = ap (λ (x : ShardConfig). x.num) g in
        rw y (
          (e, λ h. (let z = f h in ground arith)),
          (omega (arith, w), λ h. subst (λ x. equal_to x next ≡ true) g (equal_to_refl next)),
        )
    | inr n ↦ rw n tt
  ]
