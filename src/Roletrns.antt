-- ===== src/Roletrns.antt =====
-- rstplib/roletrns.c: the Port Role Transitions machine (17.29).
use rstp.Prelude.{
  ℕ, ◌*◌, Bool, true, false, ◌&&◌, ◌||◌, not, Option, none, some, if◌then◌else◌, ◌==◌, all, map,
}
use rstp.StateMach.{Concrete}
use rstp.States.{RoletrnsState}
use rstp.Port.{Port, PortRole, migrate_time}
use rstp.Stpm.{Site, Stpm, on_port, on_ports}
pub mod Rank
pub mod Measure
pub mod Hubs
pub mod Settles

unfoldable pub set_sync_tree : Site → Site
set_sync_tree w = on_ports (λ port. record port { sync = true }) w

unfoldable pub set_re_root_tree : Site → Site
set_re_root_tree w = on_ports (λ port. record port { re_root = true }) w

-- The other ports; the port itself is skipped by its index.
abbrev synced_unless : Port → Port → Bool
synced_unless this port = port.port_index == this.port_index || port.synced

abbrev rerooted_unless : Port → Port → Bool
rerooted_unless this port = port.port_index == this.port_index || port.rr_while == 0

unfoldable pub compute_allsynced : Site → Bool
compute_allsynced w = all (synced_unless w.port) w.before && all (synced_unless w.port) w.after

unfoldable pub compute_rerooted : Site → Bool
compute_rerooted w = all (rerooted_unless w.port) w.before && all (rerooted_unless w.port) w.after

unfoldable pub compute_edgedelay : Port → Stpm → ℕ
compute_edgedelay port stpm =
    if port.oper_point_to_point_mac then migrate_time else stpm.root_times.max_age

abbrev pub is_backup : PortRole → Bool
is_backup PortRole.backup_port = true
is_backup _ = false

abbrev initialise : Stpm → Port → Port
initialise stpm port = record port {
  role = PortRole.disabled_port;
  learn = false;
  forward = false;
  synced = false;
  sync = false;
  re_root = false;
  rr_while = stpm.root_times.forward_delay;
  fd_while = stpm.root_times.forward_delay;
  rb_while = 0;
}

-- The states whose entry action changes the port alone; the three others are in `enter_site`.
unfoldable pub enter_port : RoletrnsState → Stpm → Port → Port
unfolding compute_edgedelay
enter_port RoletrnsState.begin stpm port = initialise stpm port
enter_port RoletrnsState.init_port stpm port = initialise stpm port
enter_port RoletrnsState.disable_port stpm port = record port {
  role = port.selected_role;
  learn = false;
  forward = false;
}
enter_port RoletrnsState.disabled_port stpm port = record port {
  fd_while = stpm.root_times.max_age;
  synced = true;
  rr_while = 0;
  sync = false;
  re_root = false;
}
enter_port RoletrnsState.root_port stpm port = record port {
  role = PortRole.root_port;
  rr_while = stpm.root_times.forward_delay;
}
enter_port RoletrnsState.root_proposed stpm port = record port { proposed = false }
enter_port RoletrnsState.root_forward stpm port = record port { fd_while = 0; forward = true }
enter_port RoletrnsState.root_agreed stpm port = record port {
  proposed = false;
  sync = false;
  agree = true;
  new_info = true;
}
enter_port RoletrnsState.root_learn stpm port = record port {
  fd_while = stpm.root_times.forward_delay;
  learn = true;
}
enter_port RoletrnsState.reroot stpm port = port
enter_port RoletrnsState.rerooted stpm port = record port { re_root = false }
enter_port RoletrnsState.designated_port stpm port = record port { role = PortRole.designated_port }
enter_port RoletrnsState.designated_propose stpm port = record port {
  proposing = true;
  edge_delay_while = compute_edgedelay port stpm;
  new_info = true;
}
enter_port RoletrnsState.designated_forward stpm port = record port {
  forward = true;
  fd_while = 0;
  agreed = port.send_rstp;
}
enter_port RoletrnsState.designated_synced stpm port = record port {
  rr_while = 0;
  synced = true;
  sync = false;
}
enter_port RoletrnsState.designated_learn stpm port = record port {
  learn = true;
  fd_while = stpm.root_times.forward_delay;
}
enter_port RoletrnsState.designated_retired stpm port = record port { re_root = false }
enter_port RoletrnsState.designated_discard stpm port = record port {
  learn = false;
  forward = false;
  disputed = false;
  fd_while = stpm.root_times.forward_delay;
}
enter_port RoletrnsState.alternate_port stpm port = record port {
  fd_while = stpm.root_times.forward_delay;
  synced = true;
  rr_while = 0;
  sync = false;
  re_root = false;
}
enter_port RoletrnsState.alternate_proposed stpm port = record port { proposed = false }
enter_port RoletrnsState.alternate_agreed stpm port = record port {
  proposed = false;
  agree = true;
  new_info = true;
}
enter_port RoletrnsState.block_port stpm port = record port {
  role = port.selected_role;
  learn = false;
  forward = false;
}
enter_port RoletrnsState.backup_port stpm port = record port {
  rb_while = 2 * stpm.root_times.hello_time;
}

unfoldable pub enter_site : RoletrnsState → Site → Site
unfolding enter_port set_sync_tree set_re_root_tree
enter_site RoletrnsState.root_proposed w =
    on_port (enter_port RoletrnsState.root_proposed w.stpm) (set_sync_tree w)
enter_site RoletrnsState.alternate_proposed w =
    on_port (enter_port RoletrnsState.alternate_proposed w.stpm) (set_sync_tree w)
enter_site RoletrnsState.reroot w = set_re_root_tree w
enter_site s w = on_port (enter_port s w.stpm) w

-- `port->role == port->selectedRole`.
abbrev pub role_eq : PortRole → PortRole → Bool
role_eq PortRole.disabled_port PortRole.disabled_port = true
role_eq PortRole.alternate_port PortRole.alternate_port = true
role_eq PortRole.backup_port PortRole.backup_port = true
role_eq PortRole.root_port PortRole.root_port = true
role_eq PortRole.designated_port PortRole.designated_port = true
role_eq PortRole.non_stp_port PortRole.non_stp_port = true
role_eq _ _ = false

-- The first switch: where a change of role leads.
abbrev pub entry_state : PortRole → Option RoletrnsState
entry_state PortRole.disabled_port = some RoletrnsState.disable_port
entry_state PortRole.alternate_port = some RoletrnsState.block_port
entry_state PortRole.backup_port = some RoletrnsState.block_port
entry_state PortRole.root_port = some RoletrnsState.root_port
entry_state PortRole.designated_port = some RoletrnsState.designated_port
entry_state PortRole.non_stp_port = none

-- The tests of ROOT_PORT, below `port->selected && !port->updtInfo`. The booleans are `allSynced`
-- and `allReRooted`, which do not depend on when they are computed.
unfoldable pub check_root : Bool → Bool → Stpm → Port → Option RoletrnsState
check_root all_synced all_rerooted stpm port =
    if not port.forward && not port.re_root
    then some RoletrnsState.reroot
    else if all_synced && not port.agree || port.proposed && port.agree
    then some RoletrnsState.root_agreed
    else if port.proposed && not port.agree
    then some RoletrnsState.root_proposed
    else if (port.fd_while == 0 || all_rerooted && port.rb_while == 0)
        && stpm.rstp_version
        && port.learn
        && not port.forward
    then some RoletrnsState.root_forward
    else if (port.fd_while == 0 || all_rerooted && port.rb_while == 0)
        && stpm.rstp_version
        && not port.learn
    then some RoletrnsState.root_learn
    else if port.re_root && port.forward
    then some RoletrnsState.rerooted
    else if not (port.rr_while == stpm.root_times.forward_delay)
    then some RoletrnsState.root_port
    else none

-- The last three tests of DESIGNATED_PORT: forward, learn or discard.
unfoldable pub check_proceed : Port → Option RoletrnsState
check_proceed port =
    if (port.fd_while == 0 || port.agreed || port.oper_edge)
      && (port.rr_while == 0 || not port.re_root)
      && not port.sync
      && (port.learn && not port.forward)
    then some RoletrnsState.designated_forward
    else if (port.fd_while == 0 || port.agreed || port.oper_edge)
        && (port.rr_while == 0 || not port.re_root)
        && not port.sync
        && not port.learn
    then some RoletrnsState.designated_learn
    else if (port.sync && not port.synced
          || port.re_root && not (port.rr_while == 0)
          || port.disputed)
        && not port.oper_edge
        && (port.learn || port.forward)
    then some RoletrnsState.designated_discard
    else none

-- The test for DESIGNATED_SYNCED.
unfoldable pub must_sync : Port → Bool
must_sync port =
    not port.learning && not port.forwarding && not port.synced
    || port.agreed && not port.synced
    || port.oper_edge && not port.synced
    || port.sync && port.synced

-- The tests of DESIGNATED_PORT, below `port->selected && !port->updtInfo`.
unfoldable pub check_designated : Port → Option RoletrnsState
check_designated port =
    if not port.forward && not port.agreed && not port.proposing && not port.oper_edge
    then some RoletrnsState.designated_propose
    else if must_sync port
    then some RoletrnsState.designated_synced
    else if port.rr_while == 0 && port.re_root
    then some RoletrnsState.designated_retired
    else check_proceed port

-- The tests of ALTERNATE_PORT, below `port->selected && !port->updtInfo`.
unfoldable pub check_alternate : Bool → Stpm → Port → Option RoletrnsState
check_alternate all_synced stpm port =
    if all_synced && not port.agree || port.proposed && port.agree
    then some RoletrnsState.alternate_agreed
    else if port.proposed && not port.agree
    then some RoletrnsState.alternate_proposed
    else if not (port.rb_while == 2 * stpm.root_times.hello_time) && is_backup port.role
    then some RoletrnsState.backup_port
    else if not (port.fd_while == stpm.root_times.forward_delay)
        || port.sync
        || port.re_root
        || not port.synced
    then some RoletrnsState.alternate_port
    else none

-- The second switch.
unfoldable pub check_switch : RoletrnsState → Site → Option RoletrnsState
unfolding check_root check_proceed must_sync check_designated check_alternate
check_switch RoletrnsState.begin w = none
check_switch RoletrnsState.init_port w = some RoletrnsState.disable_port
check_switch RoletrnsState.disable_port w =
    let port = w.port in
    if not port.learning && not port.forwarding && port.selected && not port.updt_info
    then some RoletrnsState.disabled_port
    else none
check_switch RoletrnsState.disabled_port w =
    let port = w.port in
    if (not (port.fd_while == w.stpm.root_times.max_age)
        || port.sync
        || port.re_root
        || not port.synced)
      && port.selected
      && not port.updt_info
    then some RoletrnsState.disabled_port
    else none
check_switch RoletrnsState.root_port w =
    if w.port.selected && not w.port.updt_info
    then check_root (compute_allsynced w) (compute_rerooted w) w.stpm w.port
    else none
check_switch RoletrnsState.root_proposed w = some RoletrnsState.root_port
check_switch RoletrnsState.root_agreed w = some RoletrnsState.root_port
check_switch RoletrnsState.reroot w = some RoletrnsState.root_port
check_switch RoletrnsState.rerooted w = some RoletrnsState.root_port
check_switch RoletrnsState.root_learn w = some RoletrnsState.root_port
check_switch RoletrnsState.root_forward w = some RoletrnsState.root_port
check_switch RoletrnsState.designated_propose w = some RoletrnsState.designated_port
check_switch RoletrnsState.designated_synced w = some RoletrnsState.designated_port
check_switch RoletrnsState.designated_retired w = some RoletrnsState.designated_port
check_switch RoletrnsState.designated_discard w = some RoletrnsState.designated_port
check_switch RoletrnsState.designated_learn w = some RoletrnsState.designated_port
check_switch RoletrnsState.designated_forward w = some RoletrnsState.designated_port
check_switch RoletrnsState.designated_port w =
    if w.port.selected && not w.port.updt_info then check_designated w.port else none
check_switch RoletrnsState.alternate_proposed w = some RoletrnsState.alternate_port
check_switch RoletrnsState.alternate_agreed w = some RoletrnsState.alternate_port
check_switch RoletrnsState.backup_port w = some RoletrnsState.alternate_port
check_switch RoletrnsState.block_port w =
    let port = w.port in
    if not port.learning && not port.forwarding && port.selected && not port.updt_info
    then some RoletrnsState.alternate_port
    else none
check_switch RoletrnsState.alternate_port w =
    if w.port.selected && not w.port.updt_info
    then check_alternate (compute_allsynced w) w.stpm w.port
    else none

abbrev is_begin : RoletrnsState → Bool
is_begin RoletrnsState.begin = true
is_begin _ = false

unfoldable pub check_site : RoletrnsState → Site → Option RoletrnsState
check_site s w =
    let port = w.port in
    if is_begin s
    then some RoletrnsState.init_port
    else if not (role_eq port.role port.selected_role) && port.selected && not port.updt_info
    then entry_state port.selected_role
    else check_switch s w

unfoldable pub machine : Concrete Site RoletrnsState
unfolding enter_site check_site check_switch
machine = record { enter_state = enter_site; check_conditions = check_site }
