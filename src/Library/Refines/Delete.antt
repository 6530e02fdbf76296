-- ===== src/Library/Refines/Delete.antt =====
-- rstplib/stp_in.c and stpmgmt.c: `STP_IN_port_delete` and `STP_IN_stpm_delete` refine the table.
use rstp.Prelude.{
  ℕ, ◌≡◌, refl, ap, sym, Option, none, some, if◌then◌else◌, OnSome, OnSome-trans, ◌>>=◌, of_OnSome,
}
use rstp.Port.{Port}
use rstp.Stpm.{Bridge}
use rstp.Library.{
  StpError, stp_ok, Library, Env, stpm_find, stpm_remove, port_find, port_remove,
  stp_vlan_had_not_yet_been_created, stp_port_is_absent_in_the_vlan,
}
use rstp.Library.Table.{
  entry, put, drop_port, delete_port_at, delete_bridge_at, delete_port, delete_bridge,
}
use rstp.Library.Entries.{
  opt_entry, is_some, ports_of, entries-find, entries-remove, ports_of-find, ports_of-remove,
}
use rstp.Library.Manage.{in_stpm_delete}
use rstp.Library.Ports.{in_port_delete, ports_changed}
use rstp.Library.Manage as Manage
use rstp.Library.Refines.{table, seen, ports_changed-entry, written}

module _ (env : Env) where
  delete_at :
      (vlan_id index : ℕ) (lib : Library) (this : Bridge) (found : Option Port)
      → OnSome
          (λ r. seen r ≡ (
            if is_some found
            then (
              stp_ok,
              put vlan_id
                  (record (entry this) { ports = drop_port index (ports_of this.ports) })
                  (table lib),
            )
            else (stp_port_is_absent_in_the_vlan, table lib)))
          (elim found [
            | none ↦ some (stp_port_is_absent_in_the_vlan, lib)
            | some port ↦
                ports_changed env (record this { ports = port_remove index this.ports })
                >>= (λ b. some (stp_ok, Manage.put vlan_id b lib))
          ])
  delete_at vlan_id index lib this none = refl
  delete_at vlan_id index lib this (some port) =
      let this' = record this { ports = port_remove index this.ports } in
      written vlan_id _ lib (ports_changed env this') (
        OnSome-trans entry _
          (ap (λ ports. record (entry this) { ports = ports }) (ports_of-remove index this.ports))
          (ports_changed-entry env this'))

  delete_from :
      (vlan_id index : ℕ) (lib : Library) (found : Option Bridge)
      → OnSome
          (λ r. seen r ≡ delete_port_at vlan_id index (table lib) (opt_entry found))
          (elim found [
            | none ↦ some (stp_vlan_had_not_yet_been_created, lib)
            | some this ↦ elim (port_find index this.ports) [
              | none ↦ some (stp_port_is_absent_in_the_vlan, lib)
              | some port ↦
                  ports_changed env (record this { ports = port_remove index this.ports })
                  >>= (λ b. some (stp_ok, Manage.put vlan_id b lib))
            ]
          ])
  unfolding delete_port_at
  delete_from vlan_id index lib none = refl
  delete_from vlan_id index lib (some this) =
      rw (sym (ports_of-find index this.ports))
        (delete_at vlan_id index lib this (port_find index this.ports))

  in_port_delete-OnSome :
      (vlan_id index : ℕ) (lib : Library)
      → OnSome
          (λ r. seen r ≡ delete_port vlan_id index (table lib))
          (in_port_delete env vlan_id index lib)
  unfolding in_port_delete delete_port
  in_port_delete-OnSome vlan_id index lib =
      rw (entries-find vlan_id lib.bridges)
        (delete_from vlan_id index lib (stpm_find vlan_id lib.bridges))

  -- Where `STP_IN_port_delete` returns, its result and the table are those of deleting the port from
  -- the table: an error and the same table if the bridge does not exist or lacks the port, and
  -- otherwise the bridge's entry without its first port of that index.
  pub in_port_delete-seen :
      (vlan_id index : ℕ) (lib : Library) (r : StpError × Library)
      → in_port_delete env vlan_id index lib ≡ some r
      → seen r ≡ delete_port vlan_id index (table lib)
  in_port_delete-seen vlan_id index lib r e =
      of_OnSome (λ r. seen r ≡ delete_port vlan_id index (table lib)) _ r
        (in_port_delete-OnSome vlan_id index lib) e

delete_found :
    (vlan_id : ℕ) (lib : Library) (found : Option Bridge)
    → seen (elim found [
      | none ↦ (stp_vlan_had_not_yet_been_created, lib)
      | some this ↦ (stp_ok, Manage.with_bridges (stpm_remove vlan_id lib.bridges) lib)
    ])
      ≡ delete_bridge_at vlan_id (table lib) (opt_entry found)
unfolding delete_bridge_at
delete_found vlan_id lib none = refl
delete_found vlan_id lib (some this) = ap (λ t. (stp_ok, t)) (entries-remove vlan_id lib.bridges)

-- `STP_IN_stpm_delete` refines the deletion of the entry from the table.
pub in_stpm_delete-seen :
    (vlan_id : ℕ) (lib : Library)
    → seen (in_stpm_delete vlan_id lib) ≡ delete_bridge vlan_id (table lib)
unfolding in_stpm_delete delete_bridge
in_stpm_delete-seen vlan_id lib =
    rw (entries-find vlan_id lib.bridges) (delete_found vlan_id lib (stpm_find vlan_id lib.bridges))
