-- ===== src/Library/Refines.antt =====
-- rstplib/stp_in.c: what the steps of the commands on ports do to the table.
use rstp.Prelude.{
  ℕ, ◌≡◌, refl, ap, ◌∙◌, sym, Bool, true, false, Option, none, some, List, [], ◌∷◌, map,
  if◌then◌else◌, OnSome, OnSome-trans, OnSome-bind, OnSome-elim, ◌>>=◌, of_OnSome,
}
use rstp.Port.{Port}
use rstp.Stpm.{Bridge, Stpm, StpOut}
use rstp.Start.{init_data, port_init, start_ports, port_check_link, port_reset, compute_bridge_id}
use rstp.Update.{init_machines, update}
use rstp.Update.Setup.{bridge_setup, port_setup}
use rstp.Update.Unchanged.{update-OnSome-setup, init_machines-setup}
use rstp.Library.{
  StpError, stp_ok, Library, Env, stpm_find, stpm_put, stpm_remove, port_find, port_remove,
  stpm_update, update_after_bridge_management, stp_vlan_had_not_yet_been_created,
  stp_port_is_absent_in_the_vlan, stp_cannot_create_instance_for_port,
}
use rstp.Library.Table.{
  Entry, Table, entry_of, entry, entries, find, put, remove, has, drop_port, add_port_at,
  delete_port_at, delete_bridge_at, add_port, delete_port, delete_bridge,
}
use rstp.Library.Entries.{
  opt_entry, is_some, ports_of, entries-find, entries-put, entries-remove, ports_of-find,
  ports_of-remove, ports_of-map,
}
use rstp.Library.Create.{InitCfg, port_create, new_port}
use rstp.Library.Manage.{in_stpm_delete}
use rstp.Library.Ports.{in_port_create, in_port_delete, ports_changed, init_first}
use rstp.Library.Manage as Manage
pub mod Create
pub mod Delete

-- The table of a library.
abbrev pub table : Library → Table
table lib = entries lib.bridges

-- What a command returns, seen through the table.
abbrev pub seen : StpError × Library → StpError × Table
seen (rc, lib) = (rc, table lib)

module _ (env : Env) where
  pub stpm_update-entry :
      (this : Bridge) → OnSome (λ b. entry b ≡ entry this) (stpm_update env this)
  unfolding stpm_update
  stpm_update-entry this =
      OnSome-bind (λ (r : ℕ × Bridge). bridge_setup r.1 ≡ bridge_setup this) _
        (update env.out env.rounds env.fuel 0 this) _
        (update-OnSome-setup env.out env.rounds env.fuel 0 this) (λ (loops, b) e. ap entry_of e)

  start_ports-entry : (this : Bridge) → entry (start_ports env.out this) ≡ entry this
  unfolding start_ports init_data port_init port_check_link port_reset
  start_ports-entry this =
      ap (λ ports. record (entry this) { ports = ports })
        (ports_of-map (port_init env.out (init_data this.stpm) true) (λ port. refl) this.ports)

  update_after-entry :
      (this : Bridge) → OnSome (λ b. entry b ≡ entry this) (update_after_bridge_management env this)
  unfolding update_after_bridge_management
  update_after-entry this =
      OnSome-trans entry _
        (ap entry_of (init_machines-setup env.out (start_ports env.out this))
          ∙ start_ports-entry this)
        (stpm_update-entry (init_machines env.out (start_ports env.out this)))

  pub ports_changed-entry :
      (this : Bridge) → OnSome (λ b. entry b ≡ entry this) (ports_changed env this)
  unfolding ports_changed compute_bridge_id
  ports_changed-entry this =
      OnSome-bind _ _ (update_after_bridge_management env (compute_bridge_id env.out this)) _
        (update_after-entry (compute_bridge_id env.out this))
        (λ b e. OnSome-trans entry _ e (stpm_update-entry b))

-- A bridge that is written back with that entry.
pub written :
    (vlan_id : ℕ) (e : Entry) (lib : Library) (o : Option Bridge)
    → OnSome (λ b. entry b ≡ e) o
    → OnSome
        (λ r. seen r ≡ (stp_ok, put vlan_id e (table lib)))
        (o >>= (λ b. some (stp_ok, Manage.put vlan_id b lib)))
written vlan_id e lib o h = OnSome-bind _ _ o _ h (λ b same.
    ap (λ t. (stp_ok, t))
      (entries-put vlan_id b lib.bridges ∙ ap (λ x. put vlan_id x (table lib)) same))
