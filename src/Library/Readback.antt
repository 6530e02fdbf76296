-- ===== src/Library/Readback.antt =====
-- rstplib/stp_in.c: what is read from a bridge after its configuration has been set.
use rstp.Prelude.{
  ℕ, ◌≡◌, ◌≤◌, ◌⊎◌, inl, inr, refl, ap, ◌∙◌, sym, arith, Bool, true, false, not, ◌&&◌, Option, some,
  List, [], ◌∷◌, OnSome, OnSome-bind, OnSome-if, OnSome-else, ◌>>=◌, of_OnSome, if◌then◌else◌, ◌==◌,
  Bool-cases, ℤ, pos, negsuc, pos_part, to_unsigned,
}
use rstp.Stpm.{Bridge, Stpm}
use rstp.Start.{start_ports, init_data, is_enabled, check_bridge_priority}
use rstp.Update.{init_machines, update}
use rstp.Update.Setup.{StpmSetup, bridge_setup, stpm_setup, Setup}
use rstp.Update.Unchanged.{update-OnSome-setup, init_machines-setup}
use rstp.Library.{
  StpError, stp_ok, stp_nothing_to_do, is_ok, stp_invalid_bridge_priority, Library, Env, stpm_find,
  stpm_put, stpm_remove, stpms, stpm_update, update_after_bridge_management,
}
use rstp.Library.Config.{
  StpCfg, br_cfg_state, check_stpm_config, stpm_get_cfg, merge_cfg, set_prio, write_times,
}
use rstp.Library.Config.Checked.{IsChecked, check_stpm_config-IsChecked}
use rstp.Library.Create.{InitCfg}
use rstp.Library.Manage.{stp_in_stpm_create, old_cfg, write_cfg, in_stpm_set_cfg, put}

-- The four values that are checked.
pub record Settings : Type 0 where
  pub bridge_priority : ℤ
  pub max_age : ℤ
  pub hello_time : ℤ
  pub forward_delay : ℤ

abbrev pub settings : StpCfg → Settings
settings cfg = record {
  bridge_priority = cfg.bridge_priority;
  max_age = cfg.max_age;
  hello_time = cfg.hello_time;
  forward_delay = cfg.forward_delay;
}

-- What `STP_IN_stpm_get_cfg` reads of them.
abbrev pub read_settings : ℕ → Library → Option Settings
read_settings vlan_id lib =
    stpm_find vlan_id lib.bridges >>= (λ this. some (settings (stpm_get_cfg this.stpm)))

abbrev of_setup : StpmSetup → Settings
of_setup stpm = record {
  bridge_priority = pos stpm.bridge_identifier.prio;
  max_age = pos stpm.bridge_times.max_age;
  hello_time = pos stpm.bridge_times.hello_time;
  forward_delay = pos stpm.bridge_times.forward_delay;
}

find_step :
    (b : Bool) (p q : Bridge) (found : Option Bridge)
    → (if b then some p else found) ≡ some q
    → ((b ≡ true) × (p ≡ q)) ⊎ ((b ≡ false) × (found ≡ some q))
find_step true p q found e = inl (refl, cc)
find_step false p q found e = inr (refl, e)

pub stpm_find-vlan :
    (vlan_id : ℕ) (bridges : List Bridge) (this : Bridge)
    → stpm_find vlan_id bridges ≡ some this
    → (this.stpm.vlan_id == vlan_id) ≡ true
unfolding stpm_find
stpm_find-vlan vlan_id [] this e = cc
stpm_find-vlan vlan_id (b ∷ rest) this e =
    elim (find_step (b.stpm.vlan_id == vlan_id) b this (stpm_find vlan_id rest) e) [
      | inl (h, same) ↦ ap (λ (x : Bridge). x.stpm.vlan_id == vlan_id) (sym same) ∙ h
      | inr (h, e') ↦ stpm_find-vlan vlan_id rest this e'
    ]

put_step :
    (b : Bool) (vlan_id : ℕ) (p this new : Bridge) (rest later : List Bridge)
    → b ≡ (p.stpm.vlan_id == vlan_id)
    → (new.stpm.vlan_id == vlan_id) ≡ true
    → (if b then some p else stpm_find vlan_id rest) ≡ some this
    → (stpm_find vlan_id rest ≡ some this → stpm_find vlan_id later ≡ some new)
    → stpm_find vlan_id (if b then new ∷ rest else p ∷ later) ≡ some new
unfolding stpm_find
put_step true vlan_id p this new rest later s v e h = rw v refl
put_step false vlan_id p this new rest later s v e h = rw (sym s) (h e)

pub stpm_find-stpm_put :
    (vlan_id : ℕ) (new this : Bridge) (bridges : List Bridge)
    → (new.stpm.vlan_id == vlan_id) ≡ true
    → stpm_find vlan_id bridges ≡ some this
    → stpm_find vlan_id (stpm_put vlan_id new bridges) ≡ some new
unfolding stpm_find stpm_put
stpm_find-stpm_put vlan_id new this [] v e = cc
stpm_find-stpm_put vlan_id new this (p ∷ rest) v e =
    put_step (p.stpm.vlan_id == vlan_id) vlan_id p this new rest (stpm_put vlan_id new rest) refl v
      e (stpm_find-stpm_put vlan_id new this rest v)

of_checked : (n : ℤ) → n ≡ pos (pos_part n) → pos_part n ≤ 65535 → pos (to_unsigned 16 n) ≡ n
of_checked (pos n) e h = ap pos (omega arith)
of_checked (negsuc n) e h = cc

-- A checked configuration is written as it is.
written_settings :
    (cfg : StpCfg) (this : Stpm)
    → IsChecked cfg
    → of_setup (stpm_setup (write_times cfg (set_prio (to_unsigned 16 cfg.bridge_priority) this)))
      ≡ settings cfg
unfolding write_times
written_settings cfg this h =
    rw
      (
        of_checked cfg.bridge_priority h.prio_nat (omega (arith, h.prio_high)),
        of_checked cfg.max_age h.age_nat (omega (arith, h.range.age_high)),
        of_checked cfg.hello_time h.hello_nat (omega (arith, h.range.hello_high)),
        of_checked cfg.forward_delay h.delay_nat (omega (arith, h.range.delay_high)),
      )
      refl

module _ (env : Env) where
  updated_settings :
      (this : Bridge)
      → OnSome
          (λ (b : Bridge).
            (b.stpm.vlan_id ≡ this.stpm.vlan_id)
            × (settings (stpm_get_cfg b.stpm) ≡ of_setup (stpm_setup this.stpm)))
          (update_after_bridge_management env this)
  unfolding update_after_bridge_management start_ports init_data stpm_update stpm_get_cfg
  updated_settings this =
      let ready = init_machines env.out (start_ports env.out this) in
      OnSome-bind (λ (r : ℕ × Bridge). bridge_setup r.1 ≡ bridge_setup ready) _
        (update env.out env.rounds env.fuel 0 ready) _
        (update-OnSome-setup env.out env.rounds env.fuel 0 ready)
        (λ (loops, b) e.
          let same : bridge_setup b ≡ bridge_setup (start_ports env.out this) =
            e ∙ init_machines-setup env.out (start_ports env.out this) in
          (ap (λ (s : Setup). s.0.vlan_id) same, ap (λ (s : Setup). of_setup s.0) same))

-- What a command that succeeds owes: the settings that are then read.
abbrev Reads : ℕ → Settings → StpError × Library → Type 0
Reads vlan_id wanted (rc, lib) = is_ok rc ≡ true → read_settings vlan_id lib ≡ some wanted

put_Reads :
    (vlan_id : ℕ) (lib : Library) (this b : Bridge) (wanted : Settings)
    → stpm_find vlan_id lib.bridges ≡ some this
    → b.stpm.vlan_id ≡ this.stpm.vlan_id
    → settings (stpm_get_cfg b.stpm) ≡ wanted
    → Reads vlan_id wanted (stp_ok, put vlan_id b lib)
put_Reads vlan_id lib this b wanted found same e ok =
    let v = ap (λ n. n == vlan_id) same ∙ stpm_find-vlan vlan_id lib.bridges this found in
    rw (stpm_find-stpm_put vlan_id b this lib.bridges v found) (ap some e)

module _ (env : Env) (init : InitCfg) (vlan_id port_bmp : ℕ) (uid_cfg : StpCfg)
    (no_state : br_cfg_state uid_cfg.field_mask ≡ false) where
  write_cfg-Reads :
      (cfg : StpCfg) (lib : Library) (this : Bridge)
      → IsChecked cfg
      → stpm_find vlan_id lib.bridges ≡ some this
      → OnSome
          (Reads vlan_id (settings cfg))
          (write_cfg env init vlan_id port_bmp uid_cfg cfg this lib)
  unfolding write_cfg stpm_get_cfg write_times
  write_cfg-Reads cfg lib this checked found =
      let renamed = set_prio (to_unsigned 16 cfg.bridge_priority) this.stpm in
      let set = record this { stpm = write_times cfg renamed } in
      let e = written_settings cfg this.stpm checked in
      OnSome-if _
        (is_enabled this.stpm.admin_state
          && not (check_bridge_priority renamed (stpms (stpm_remove vlan_id lib.bridges))))
        (some (stp_invalid_bridge_priority, lib)) _ (λ ok. cc)
        (rw no_state (
          OnSome-if _ (is_enabled this.stpm.admin_state) _ (some (stp_ok, put vlan_id set lib))
            (OnSome-bind _ _ (update_after_bridge_management env set) _ (updated_settings env set)
              (λ b (same, read). put_Reads vlan_id lib this b (settings cfg) found same (read ∙ e)))
            (put_Reads vlan_id lib this set (settings cfg) found refl e)))

  old_cfg_found :
      (lib : Library) (this : Bridge)
      → stpm_find vlan_id lib.bridges ≡ some this
      → old_cfg env init vlan_id lib ≡ stpm_get_cfg this.stpm
  unfolding old_cfg
  old_cfg_found lib this found = rw (found, old_cfg) refl

  create_found :
      (lib : Library) (this : Bridge)
      → stpm_find vlan_id lib.bridges ≡ some this
      → stp_in_stpm_create init vlan_id port_bmp lib ≡ (stp_nothing_to_do, some this, lib)
  unfolding stp_in_stpm_create
  create_found lib this found = rw (found, stp_in_stpm_create) refl

  set_cfg-Reads :
      (lib : Library) (this : Bridge)
      → stpm_find vlan_id lib.bridges ≡ some this
      → OnSome
          (Reads vlan_id (settings (merge_cfg uid_cfg (old_cfg env init vlan_id lib))))
          (in_stpm_set_cfg env init vlan_id port_bmp uid_cfg lib)
  unfolding in_stpm_set_cfg
  set_cfg-Reads lib this found =
      let cfg = merge_cfg uid_cfg (old_cfg env init vlan_id lib) in
      let e = create_found lib this found in
      elim (Bool-cases (is_ok (check_stpm_config cfg))) [
        | inl ok ↦ OnSome-else _ (not (is_ok (check_stpm_config cfg))) _ _ (ap not ok) (
            OnSome-else _ (br_cfg_state uid_cfg.field_mask && not (is_enabled uid_cfg.stp_enabled))
              _ _ (ap (λ b. b && not (is_enabled uid_cfg.stp_enabled)) no_state)
              (rw (ap (λ r. r.1) e, ap (λ r. r.2) e)
                (write_cfg-Reads cfg lib this ((check_stpm_config-IsChecked cfg).0 ok) found)))
        | inr e ↦ rw e (λ ok. cc)
      ]

  -- A configuration that `STP_IN_stpm_set_cfg` accepts for a bridge, without a request to start or
  -- to stop it, is the one that `STP_IN_stpm_get_cfg` then reads: the priority and the three times
  -- that the mask names are those given, the others those of before.
  pub in_stpm_set_cfg-read :
      (lib lib' : Library) (this : Bridge)
      → stpm_find vlan_id lib.bridges ≡ some this
      → in_stpm_set_cfg env init vlan_id port_bmp uid_cfg lib ≡ some (stp_ok, lib')
      → read_settings vlan_id lib' ≡ some (settings (merge_cfg uid_cfg (stpm_get_cfg this.stpm)))
  in_stpm_set_cfg-read lib lib' this found e =
      of_OnSome (Reads vlan_id (settings (merge_cfg uid_cfg (old_cfg env init vlan_id lib)))) _
        (stp_ok, lib') (set_cfg-Reads lib this found) e refl
      ∙ ap (λ old. some (settings (merge_cfg uid_cfg old))) (old_cfg_found lib this found)
