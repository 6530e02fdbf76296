-- ===== src/Library/Ports.antt =====
-- rstplib/stp_in.c: the commands of the management on ports.
use rstp.Prelude.{ℕ, true, Option, none, some, ◌>>=◌, if◌then◌else◌, [], ◌∷◌}
use rstp.Stpm.{Bridge}
use rstp.Start.{compute_bridge_id, port_init}
use rstp.Library.{
  StpError, stp_ok, is_ok, stp_vlan_had_not_yet_been_created, stp_port_is_absent_in_the_vlan,
  stp_cannot_create_instance_for_port, Library, Env, stpm_find, stpm_put, port_find, port_put,
  port_remove, stpm_update, update_after_bridge_management,
}
use rstp.Library.PortConfig.{PortCfg, set_port}
use rstp.Library.Create.{InitCfg, port_create}
use rstp.Library.Manage.{put}

module _ (env : Env) where
  -- `STP_IN_set_port_cfg`
  unfoldable pub in_set_port_cfg : ℕ → ℕ → PortCfg → Library → Option (StpError × Library)
  unfolding stpm_find port_find port_put set_port stpm_update stpm_put
  in_set_port_cfg vlan_id port_index uid_cfg lib = elim (stpm_find vlan_id lib.bridges) [
    | none ↦ some (stp_vlan_had_not_yet_been_created, lib)
    | some this ↦ elim (port_find port_index this.ports) [
      | none ↦ some (stp_port_is_absent_in_the_vlan, lib)
      | some port ↦
          let (rc, set) = set_port this.stpm port_index uid_cfg port in
          let this' = record this { ports = port_put port_index set this.ports } in
          if is_ok rc
          then stpm_update env this' >>= (λ b. some (stp_ok, put vlan_id b lib))
          else some (rc, put vlan_id this' lib)
    ]
  ]

  -- What `STP_IN_port_create` and `STP_IN_port_delete` do with the bridge at the end.
  unfoldable pub ports_changed : Bridge → Option Bridge
  unfolding compute_bridge_id update_after_bridge_management stpm_update
  ports_changed this =
      update_after_bridge_management env (compute_bridge_id env.out this) >>= stpm_update env

  abbrev pub init_first : Bridge → Bridge
  init_first this = elim this.ports [
    | [] ↦ this
    | port ∷ ports ↦ record this { ports = port_init env.out this.stpm true port ∷ ports }
  ]

  -- `STP_IN_port_delete`
  unfoldable pub in_port_delete : ℕ → ℕ → Library → Option (StpError × Library)
  unfolding stpm_find port_find port_remove ports_changed stpm_put
  in_port_delete vlan_id port_index lib = elim (stpm_find vlan_id lib.bridges) [
    | none ↦ some (stp_vlan_had_not_yet_been_created, lib)
    | some this ↦ elim (port_find port_index this.ports) [
      | none ↦ some (stp_port_is_absent_in_the_vlan, lib)
      | some port ↦
          ports_changed (record this { ports = port_remove port_index this.ports })
          >>= (λ b. some (stp_ok, put vlan_id b lib))
    ]
  ]

module _ (env : Env) (init : InitCfg) where
  -- `STP_IN_port_create`
  unfoldable pub in_port_create : ℕ → ℕ → Library → Option (StpError × Library)
  unfolding stpm_find port_create port_init ports_changed stpm_put
  in_port_create vlan_id port_index lib = elim (stpm_find vlan_id lib.bridges) [
    | none ↦ some (stp_vlan_had_not_yet_been_created, lib)
    | some this ↦ elim (port_create init port_index this) [
      | none ↦ some (stp_cannot_create_instance_for_port, lib)
      | some this' ↦
          ports_changed env (init_first env this') >>= (λ b. some (stp_ok, put vlan_id b lib))
    ]
  ]
