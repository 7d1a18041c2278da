-- ===== src/ShardCtrl/Order/Runs.antt =====
-- Runs of any number of controllers: the order of the two configurations holds throughout.
use mit_distro_sys.Common.{ℕ, ◌≡◌, ◌<◌, ◌+◌, ◌^◌, subst, sym, refl, inl, inr, some, arith, ◌⊎◌}
use mit_distro_sys.Common.Assoc.{lookup, insert}
use mit_distro_sys.Kv.Api.{Err, ok, err_version, err_maybe, put_into, check_version, get_from}
use mit_distro_sys.Kv.Server.{get, put, make_kv_server}
use mit_distro_sys.ShardCfg.{ShardConfig}
use mit_distro_sys.ShardCtrl.{
  ConfigText, query, put_config, init_config, Progress, idle, unsure, migrating, Control,
  ControlStep, choose, check_next, save_lost, save, save_maybe, look_again, give_way, finish_lost,
  finish, start_recovery, recover, crash, after_save, Changes, begin, later, start_control,
}
use mit_distro_sys.ShardCtrl.Order.{Cells, ProgressOk, Later, equal_to_refl}
use mit_distro_sys.ShardCtrl.Order.Stores.{Holds, put_next, put_current}
use mit_distro_sys.ShardCtrl.Order.Steps.{
  IsOrdered, Follows, control_step, store_step, both_step, read_current, read_next,
  change_config_to-Ok, save_next_config-Ok, confirm-Ok, recovering-Ok, init_controller-Ok,
}

module _ (text : ConfigText) where
  -- A controller that answers the store's reply to its Put of the next configuration.
  after_save-Ok :
      (d : Cells) (ver : ℕ) (new : ShardConfig) (e : Err) (p : Progress)
      → (e ≡ ok) × ProgressOk d (migrating ver new) ⊎ (e ≡ err_version)
      → after_save ver new e ≡ some p
      → ProgressOk d p
  unfolding after_save
  after_save-Ok d ver new e p (inl (good, mine)) r =
      let q : migrating ver new ≡ p =
        (let z : after_save ver new ok ≡ some p =
            subst (λ x. after_save ver new x ≡ some p) good r in
          ground arith) in
      subst (ProgressOk d) q mine
  after_save-Ok d ver new e p (inr bad) r =
      let q : idle ≡ p =
        (let z : after_save ver new err_version ≡ some p =
            subst (λ x. after_save ver new x ≡ some p) bad r in
          ground arith) in
      subst (ProgressOk d) q tt

  after_save-maybe :
      (ver : ℕ) (new : ShardConfig) (p : Progress)
      → after_save ver new err_maybe ≡ some p
      → unsure ver new ≡ p
  unfolding after_save
  after_save-maybe ver new p e = ground arith

  -- What is known of a controller that stands at `p`
  at :
      (s : Control) (c : Cells) (k i : ℕ) (p : Progress)
      → IsOrdered text s c k
      → s.controllers i ≡ p
      → ProgressOk c p
  at s c k i p o e = subst (ProgressOk c) e (o.progress i)

  Step-Follows :
      (s t : Control) (c : Cells) (k : ℕ)
      → k + 2 < 2 ^ 64
      → IsOrdered text s c k
      → ControlStep text s t
      → Follows text t c k
  Step-Follows s t c k room o (choose i ver old new e f) =
      subst (λ t. Follows text t c k) (sym f)
        (control_step text s c k i _ o
          (change_config_to-Ok text c old new ver (read_current text s.store c old ver o.holds e)))
  Step-Follows s t c k room o (check_next i ver next_ver new existing at_i e f) =
      subst (λ t. Follows text t c k) (sym f)
        (control_step text s c k i _ o (
          save_next_config-Ok text c new existing ver next_ver
            (read_next text s.store c existing next_ver o.holds e) (at s c k i _ o at_i)))
  Step-Follows s t c k room o (save_lost i ver next_ver new at_i f) =
      let (d, m, _) =
        put_next text s.store c ver next_ver new o.holds (omega (arith, room, o.next_room))
          (at s c k i _ o at_i) in
      subst (λ t. Follows text t c k) (sym f) (d, store_step text s c d k _ o m, m.is_later)
  Step-Follows s t c k room o (save i ver next_ver new p at_i e f) =
      let (d, m, r) =
        put_next text s.store c ver next_ver new o.holds (omega (arith, room, o.next_room))
          (at s c k i _ o at_i) in
      subst (λ t. Follows text t c k) (sym f)
        (d, both_step text s c d k i p _ o m (after_save-Ok d ver new _ p r e), m.is_later)
  Step-Follows s t c k room o (save_maybe i ver next_ver new p at_i e f) =
      subst (λ t. Follows text t c k) (sym f)
        (control_step text s c k i p o
          (subst (ProgressOk c) (after_save-maybe ver new p e) (at s c k i _ o at_i).0))
  Step-Follows s t c k room o (look_again i ver next_ver new written at_i e f) =
      subst (λ t. Follows text t c k) (sym f)
        (control_step text s c k i _ o (
          confirm-Ok text c new written ver (read_next text s.store c written next_ver o.holds e).0
            (at s c k i _ o at_i)))
  Step-Follows s t c k room o (give_way i ver cur_ver new current at_i e g f) =
      subst (λ t. Follows text t c k) (sym f) (control_step text s c k i idle o tt)
  Step-Follows s t c k room o (finish_lost i ver new at_i f) =
      let (d, m) =
        put_current text s.store c ver new o.holds (omega (arith, room, o.current_room))
          (at s c k i _ o at_i) in
      subst (λ t. Follows text t c k) (sym f) (d, store_step text s c d k _ o m, m.is_later)
  Step-Follows s t c k room o (finish i ver new at_i f) =
      let (d, m) =
        put_current text s.store c ver new o.holds (omega (arith, room, o.current_room))
          (at s c k i _ o at_i) in
      subst (λ t. Follows text t c k) (sym f)
        (d, both_step text s c d k i idle _ o m tt, m.is_later)
  Step-Follows s t c k room o (start_recovery i ver current e f) =
      subst (λ t. Follows text t c k) (sym f)
        (control_step text s c k i _ o
          (recovering-Ok text c current ver (read_current text s.store c current ver o.holds e)))
  Step-Follows s t c k room o (recover i ver next_ver current next at_i g f) =
      subst (λ t. Follows text t c k) (sym f)
        (control_step text s c k i _ o (
          init_controller-Ok text c current next ver (at s c k i _ o at_i)
            (read_next text s.store c next next_ver o.holds g).0))
  Step-Follows s t c k room o (crash i f) =
      subst (λ t. Follows text t c k) (sym f) (control_step text s c k i idle o tt)

  abbrev first : ShardConfig → Cells
  first cfg = record { current = cfg; current_version = 1; next = cfg; next_version = 1 }

  start-IsOrdered : (cfg : ShardConfig) → IsOrdered text (start_control text cfg) (first cfg) 0
  unfolding query init_config put_config get put put_into check_version get_from make_kv_server
      lookup insert
  start-IsOrdered cfg = record {
    holds = record {
      reads_current = rw (text.of_text-to_text cfg) refl;
      reads_next = rw (text.of_text-to_text cfg) refl;
      ordered = (omega arith, λ e. equal_to_refl cfg);
    };
    progress = λ i. tt;
    current_room = omega arith;
    next_room = omega arith;
  }

  Changes-IsOrdered :
      (cfg : ShardConfig) (k : ℕ) (s : Control)
      → k + 1 < 2 ^ 64
      → Changes text cfg k s
      → (c : Cells) × IsOrdered text s c k
  Changes-IsOrdered cfg _ _ room begin = (first cfg, start-IsOrdered cfg)
  Changes-IsOrdered cfg _ t room (later {k = k} {s = s} run step) =
      let (c, o) = Changes-IsOrdered cfg k s (omega (arith, room)) run in
      let (d, p, _) = Step-Follows s t c k (omega (arith, room)) o step in (d, p)

  -- After any run of fewer than 2^64 - 1 steps of any controllers, from a start at `cfg`, both
  -- configurations can be read. The current one has no higher number than the next one, and if the
  -- numbers are equal, `EqualTo` holds of the two.
  pub Changes-Holds :
      (cfg : ShardConfig) (k : ℕ) (s : Control)
      → k + 1 < 2 ^ 64
      → Changes text cfg k s
      → (c : Cells) × Holds text s.store c
  Changes-Holds cfg k s room run = let (c, o) = Changes-IsOrdered cfg k s room run in (c, o.holds)

  -- A step after a run of fewer than 2^64 - 2 steps finds and leaves both configurations readable.
  -- Neither the numbers nor the versions of the two fall.
  pub ControlStep-Later :
      (cfg : ShardConfig) (k : ℕ) (s t : Control)
      → k + 2 < 2 ^ 64
      → Changes text cfg k s
      → ControlStep text s t
      → (c d : Cells) × Holds text s.store c × Holds text t.store d × Later c d
  ControlStep-Later cfg k s t room run step =
      let (c, o) = Changes-IsOrdered cfg k s (omega (arith, room)) run in
      let (d, p, l) = Step-Follows s t c k room o step in (c, d, o.holds, p.holds, l)
