-- ===== src/Library/Refines/Create.antt =====
-- rstplib/stp_in.c: `STP_IN_port_create` refines the table.
use rstp.Prelude.{
  ℕ, ◌≡◌, refl, sym, Option, none, some, ◌∷◌, if◌then◌else◌, OnSome, ◌>>=◌, of_OnSome,
}
use rstp.Port.{Port}
use rstp.Stpm.{Bridge}
use rstp.Start.{port_init, port_check_link, port_reset}
use rstp.Library.{
  StpError, stp_ok, Library, Env, stpm_find, port_find, stp_vlan_had_not_yet_been_created,
  stp_cannot_create_instance_for_port,
}
use rstp.Library.Table.{entry, put, add_port_at, add_port}
use rstp.Library.Entries.{opt_entry, is_some, ports_of, entries-find, ports_of-find}
use rstp.Library.Create.{InitCfg, port_create, new_port}
use rstp.Library.Manage.{in_stpm_delete}
use rstp.Library.Ports.{in_port_create, ports_changed, init_first}
use rstp.Library.Manage as Manage
use rstp.Library.Refines.{table, seen, ports_changed-entry, written}

module _ (env : Env) (init : InitCfg) where
  create_in :
      (vlan_id index : ℕ) (lib : Library) (this : Bridge) (found : Option Port)
      → OnSome
          (λ r. seen r ≡ (
            if is_some found then (stp_cannot_create_instance_for_port, table lib) else (
              stp_ok,
              put vlan_id (record (entry this) { ports = index ∷ ports_of this.ports }) (table lib),
            )))
          (let made : Option Bridge = elim found [
            | none ↦
                some (record this { ports = new_port init this.stpm.vlan_id index ∷ this.ports })
            | some port ↦ none
          ] in
            elim made [
              | none ↦ some (stp_cannot_create_instance_for_port, lib)
              | some this' ↦
                  ports_changed env (init_first env this')
                  >>= (λ b. some (stp_ok, Manage.put vlan_id b lib))
            ])
  unfolding new_port port_init port_check_link port_reset
  create_in vlan_id index lib this (some port) = refl
  create_in vlan_id index lib this none =
      let this' = record this { ports = new_port init this.stpm.vlan_id index ∷ this.ports } in
      written vlan_id _ lib (ports_changed env (init_first env this'))
        (ports_changed-entry env (init_first env this'))

  create_at :
      (vlan_id index : ℕ) (lib : Library) (found : Option Bridge)
      → OnSome
          (λ r. seen r ≡ add_port_at vlan_id index (table lib) (opt_entry found))
          (elim found [
            | none ↦ some (stp_vlan_had_not_yet_been_created, lib)
            | some this ↦ elim (port_create init index this) [
              | none ↦ some (stp_cannot_create_instance_for_port, lib)
              | some this' ↦
                  ports_changed env (init_first env this')
                  >>= (λ b. some (stp_ok, Manage.put vlan_id b lib))
            ]
          ])
  unfolding port_create add_port_at
  create_at vlan_id index lib none = refl
  create_at vlan_id index lib (some this) =
      rw (sym (ports_of-find index this.ports))
        (create_in vlan_id index lib this (port_find index this.ports))

  in_port_create-OnSome :
      (vlan_id index : ℕ) (lib : Library)
      → OnSome
          (λ r. seen r ≡ add_port vlan_id index (table lib))
          (in_port_create env init vlan_id index lib)
  unfolding in_port_create add_port
  in_port_create-OnSome vlan_id index lib =
      rw (entries-find vlan_id lib.bridges)
        (create_at vlan_id index lib (stpm_find vlan_id lib.bridges))

  -- Where `STP_IN_port_create` returns, its result and the table of its bridges are those of adding
  -- a port to the table: an error and the same table if the bridge does not exist or has the port,
  -- and otherwise the bridge's entry with the new port at the head.
  pub in_port_create-seen :
      (vlan_id index : ℕ) (lib : Library) (r : StpError × Library)
      → in_port_create env init vlan_id index lib ≡ some r
      → seen r ≡ add_port vlan_id index (table lib)
  in_port_create-seen vlan_id index lib r e =
      of_OnSome (λ r. seen r ≡ add_port vlan_id index (table lib)) _ r
        (in_port_create-OnSome vlan_id index lib) e
