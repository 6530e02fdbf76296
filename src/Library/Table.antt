-- ===== src/Library/Table.antt =====
-- rstplib/stpm.c and stp_in.c: what the list of bridges and their lists of ports promise, as a
-- table that knows each bridge by its vlan id and each port by its index.
use rstp.Prelude.{ℕ, Bool, Option, none, some, if◌then◌else◌, ◌==◌, List, [], ◌∷◌, map, any}
use rstp.Stpm.{Bridge}
use rstp.Start.{is_enabled}
use rstp.Update.Setup.{PortSetup, Setup, bridge_setup}
use rstp.Library.{
  StpError, stp_ok, stp_vlan_had_not_yet_been_created, stp_port_is_absent_in_the_vlan,
  stp_cannot_create_instance_for_port,
}

pub record Entry : Type 0 where
  pub vlan_id : ℕ
  pub enabled : Bool
  pub ports : List ℕ

abbrev pub Table : Type 0
Table = List Entry

abbrev pub indices : List PortSetup → List ℕ
indices ports = map (λ p. p.port_index) ports

abbrev pub entry_of : Setup → Entry
entry_of (stpm, ports) = record {
  vlan_id = stpm.vlan_id;
  enabled = is_enabled stpm.admin_state;
  ports = indices ports;
}

-- What the table keeps of a bridge.
abbrev pub entry : Bridge → Entry
entry this = entry_of (bridge_setup this)

abbrev pub entries : List Bridge → Table
entries bridges = map entry bridges

unfoldable pub find : ℕ → Table → Option Entry
find vlan_id [] = none
find vlan_id (e ∷ rest) =
    let later = find vlan_id rest in if e.vlan_id == vlan_id then some e else later

unfoldable pub put : ℕ → Entry → Table → Table
put vlan_id new [] = []
put vlan_id new (e ∷ rest) =
    let later = put vlan_id new rest in if e.vlan_id == vlan_id then new ∷ rest else e ∷ later

unfoldable pub remove : ℕ → Table → Table
remove vlan_id [] = []
remove vlan_id (e ∷ rest) =
    let later = remove vlan_id rest in if e.vlan_id == vlan_id then rest else e ∷ later

abbrev pub has : ℕ → List ℕ → Bool
has index ports = any (λ p. p == index) ports

unfoldable pub drop_port : ℕ → List ℕ → List ℕ
drop_port index [] = []
drop_port index (p ∷ rest) =
    let later = drop_port index rest in if p == index then rest else p ∷ later

-- What the commands do to the table, with the result that they return, by the entry of the bridge.
unfoldable pub add_port_at : ℕ → ℕ → Table → Option Entry → StpError × Table
unfolding put
add_port_at vlan_id index t none = (stp_vlan_had_not_yet_been_created, t)
add_port_at vlan_id index t (some e) =
    if has index e.ports
    then (stp_cannot_create_instance_for_port, t)
    else (stp_ok, put vlan_id (record e { ports = index ∷ e.ports }) t)

unfoldable pub add_port : ℕ → ℕ → Table → StpError × Table
unfolding find add_port_at
add_port vlan_id index t = add_port_at vlan_id index t (find vlan_id t)

unfoldable pub delete_port_at : ℕ → ℕ → Table → Option Entry → StpError × Table
unfolding put drop_port
delete_port_at vlan_id index t none = (stp_vlan_had_not_yet_been_created, t)
delete_port_at vlan_id index t (some e) =
    if has index e.ports
    then (stp_ok, put vlan_id (record e { ports = drop_port index e.ports }) t)
    else (stp_port_is_absent_in_the_vlan, t)

unfoldable pub delete_port : ℕ → ℕ → Table → StpError × Table
unfolding find delete_port_at
delete_port vlan_id index t = delete_port_at vlan_id index t (find vlan_id t)

unfoldable pub delete_bridge_at : ℕ → Table → Option Entry → StpError × Table
unfolding remove
delete_bridge_at vlan_id t none = (stp_vlan_had_not_yet_been_created, t)
delete_bridge_at vlan_id t (some e) = (stp_ok, remove vlan_id t)

unfoldable pub delete_bridge : ℕ → Table → StpError × Table
unfolding find delete_bridge_at
delete_bridge vlan_id t = delete_bridge_at vlan_id t (find vlan_id t)
