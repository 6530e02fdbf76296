-- ===== src/Library/Manage.antt =====
-- rstplib/stp_in.c and stpmgmt.c: the commands of the management.
use rstp.Prelude.{
  ℕ, Bool, true, false, ◌&&◌, not, Option, none, some, ◌>>=◌, if◌then◌else◌, ◌==◌, leb, List, [],
  ◌∷◌, map, to_unsigned,
}
use rstp.Stpm.{Bridge, StpMode}
use rstp.Start.{check_bridge_priority, is_enabled}
use rstp.Library.{
  StpError, stp_ok, is_ok, stp_implicit_instance_create_failed, stp_vlan_had_not_yet_been_created,
  stp_cannot_create_instance_for_port, stp_invalid_bridge_priority, stp_nothing_to_do, Library, Env,
  stpm_find, stpm_put, stpm_remove, stpms, with_mode, same_mode, stpm_enable,
  update_after_bridge_management,
}
use rstp.Library.Config.{
  StpCfg, br_cfg_state, check_stpm_config, stpm_get_cfg, merge_cfg, set_prio, write_times,
}
use rstp.Library.Create.{InitCfg, stpm_create, create_ports}

abbrev pub with_bridges : List Bridge → Library → Library
with_bridges bridges lib = record lib { bridges = bridges }

abbrev pub put : ℕ → Bridge → Library → Library
put vlan_id this lib = with_bridges (stpm_put vlan_id this lib.bridges) lib

-- `STP_stpm_enable (stpm, STP_DISABLED)` for every bridge.
unfoldable pub disable_all : Library → Library
disable_all lib = with_bridges (map (with_mode StpMode.stp_disabled) lib.bridges) lib

-- `stp_in_stpm_create`, with the bridge that it returns.
unfoldable pub stp_in_stpm_create : InitCfg → ℕ → ℕ → Library → StpError × Option Bridge × Library
unfolding stpm_find stpm_create create_ports
stp_in_stpm_create init vlan_id port_bmp lib = elim (stpm_find vlan_id lib.bridges) [
  | some this ↦ (stp_nothing_to_do, some this, lib)
  | none ↦ elim (create_ports init port_bmp lib.max_port 1 (stpm_create vlan_id)) [
    | none ↦ (stp_cannot_create_instance_for_port, none, lib)
    | some this ↦ (stp_ok, some this, with_bridges (this ∷ lib.bridges) lib)
  ]
]

module _ (env : Env) (init : InitCfg) where
  -- `STP_stpm_enable` of a bridge of the list.
  unfoldable pub enable_in_place : ℕ → StpMode → Bridge → Library → Option (StpError × Library)
  unfolding stpm_enable stpm_put stpm_remove
  enable_in_place vlan_id admin_state this lib =
      stpm_enable env (stpm_remove vlan_id lib.bridges) admin_state this
      >>= (λ (rc, b). some (rc, put vlan_id b lib))

  -- The last part of `_stp_in_stpm_enable`: a bridge that was created here is deleted again if it
  -- cannot be enabled.
  unfoldable pub enable_found : Bool → ℕ → StpMode → Bridge → Library → Option (StpError × Library)
  unfolding enable_in_place stpm_remove
  enable_found created_here vlan_id admin_state this lib =
      if same_mode this.stpm.admin_state admin_state
      then some (stp_ok, lib)
      else enable_in_place vlan_id admin_state this lib >>= (λ (rc, lib'). some (
        rc,
        if not (is_ok rc) && created_here
            then with_bridges (stpm_remove vlan_id lib'.bridges) lib'
            else lib',
      ))

  -- `_stp_in_stpm_enable`. Enabling vlan 0 first disables every bridge.
  unfoldable pub in_stpm_enable : ℕ → ℕ → StpMode → Library → Option (StpError × Library)
  unfolding stpm_find disable_all stp_in_stpm_create enable_found
  in_stpm_enable vlan_id port_bmp admin_state lib =
      let lib1 = if is_enabled admin_state && vlan_id == 0 then disable_all lib else lib in
      let (rc, created, lib2) = stp_in_stpm_create init vlan_id port_bmp lib1 in
      elim (stpm_find vlan_id lib1.bridges) [
        | some this ↦ enable_found false vlan_id admin_state this lib1
        | none ↦ if not (is_enabled admin_state) then some (stp_ok, lib1) else elim created [
          | none ↦ some (stp_implicit_instance_create_failed, lib2)
          | some this ↦ enable_found true vlan_id admin_state this lib2
        ]
      ]

  -- `STP_IN_stpm_create`. The bridge that `stp_in_stpm_create` returns is used without a test for
  -- NULL, which the model answers by its error.
  unfoldable pub in_stpm_create : ℕ → ℕ → Library → Option (StpError × Library)
  unfolding stp_in_stpm_create write_times enable_in_place
  in_stpm_create vlan_id port_bmp lib =
      let cfg = init.get_init_stpm_cfg vlan_id in
      let (err_code, created, lib1) = stp_in_stpm_create init vlan_id port_bmp lib in
      elim created [
        | none ↦ some (err_code, lib1)
        | some this ↦
            let named = write_times cfg (set_prio (to_unsigned 16 cfg.bridge_priority) this.stpm) in
            let rapid = leb 2 named.force_version in
            let set = record this {
              stpm = record named { rstp_version = rapid; stp_version = not rapid };
            } in
            if is_enabled this.stpm.admin_state
            then some (err_code, put vlan_id set lib1)
            else enable_in_place vlan_id StpMode.stp_enabled set lib1
      ]

  -- `STP_IN_stpm_set_cfg` behind the checks, for the bridge that it has found or created.
  unfoldable pub write_cfg :
      ℕ → ℕ → StpCfg → StpCfg → Bridge → Library → Option (StpError × Library)
  unfolding stpm_remove write_times in_stpm_enable update_after_bridge_management stpm_put
      check_bridge_priority
  write_cfg vlan_id port_bmp uid_cfg cfg this lib =
      let renamed = set_prio (to_unsigned 16 cfg.bridge_priority) this.stpm in
      let set = record this { stpm = write_times cfg renamed } in
      let enabled = is_enabled this.stpm.admin_state in
      if enabled && not (check_bridge_priority renamed (stpms (stpm_remove vlan_id lib.bridges)))
      then some (stp_invalid_bridge_priority, lib)
      else if br_cfg_state uid_cfg.field_mask && is_enabled uid_cfg.stp_enabled && not enabled
      then in_stpm_enable vlan_id port_bmp uid_cfg.stp_enabled (put vlan_id set lib)
      else if enabled
      then update_after_bridge_management env set >>= (λ b. some (stp_ok, put vlan_id b lib))
      else some (stp_ok, put vlan_id set lib)

  -- What `STP_IN_stpm_set_cfg` fills in for the fields that are not named.
  unfoldable pub old_cfg : ℕ → Library → StpCfg
  unfolding stpm_find stpm_get_cfg
  old_cfg vlan_id lib = elim (stpm_find vlan_id lib.bridges) [
    | none ↦ init.get_init_stpm_cfg vlan_id
    | some this ↦ stpm_get_cfg this.stpm
  ]

  -- `STP_IN_stpm_set_cfg`. `field_mask &= ! BR_CFG_STATE` leaves 0, so a request to disable returns
  -- there. A bridge that is created here is kept if it cannot be enabled: `created_here` stays False.
  unfoldable pub in_stpm_set_cfg : ℕ → ℕ → StpCfg → Library → Option (StpError × Library)
  unfolding old_cfg merge_cfg check_stpm_config in_stpm_enable stp_in_stpm_create write_cfg
  in_stpm_set_cfg vlan_id port_bmp uid_cfg lib =
      let cfg = merge_cfg uid_cfg (old_cfg vlan_id lib) in
      let (err_code, created, lib1) = stp_in_stpm_create init vlan_id port_bmp lib in
      if not (is_ok (check_stpm_config cfg))
      then some (check_stpm_config cfg, lib)
      else if br_cfg_state uid_cfg.field_mask && not (is_enabled uid_cfg.stp_enabled)
      then in_stpm_enable vlan_id port_bmp StpMode.stp_disabled lib
      else elim created [
        | none ↦ some (err_code, lib1)
        | some this ↦ write_cfg vlan_id port_bmp uid_cfg cfg this lib1
      ]

-- `STP_IN_stpm_delete`: disabling cannot fail, so the bridge is always deleted.
unfoldable pub in_stpm_delete : ℕ → Library → StpError × Library
unfolding stpm_find stpm_remove
in_stpm_delete vlan_id lib = elim (stpm_find vlan_id lib.bridges) [
  | none ↦ (stp_vlan_had_not_yet_been_created, lib)
  | some this ↦ (stp_ok, with_bridges (stpm_remove vlan_id lib.bridges) lib)
]

-- `STP_IN_get_is_stpm_enabled`
unfoldable pub get_is_stpm_enabled : ℕ → Library → Bool
unfolding stpm_find
get_is_stpm_enabled vlan_id lib = elim (stpm_find vlan_id lib.bridges) [
  | none ↦ false
  | some this ↦ is_enabled this.stpm.admin_state
]

-- `STP_IN_stop_all`
unfoldable pub stop_all : Library → Library
unfolding disable_all
stop_all lib = disable_all lib

-- `STP_IN_delete_all`
unfoldable pub delete_all : Library → Library
delete_all lib = with_bridges [] lib

-- `STP_IN_instance_create`
unfoldable pub instance_create : Library
instance_create = record { bridges = []; dbg_rstp_deny = false; max_port = 1024; flushed = [] }
