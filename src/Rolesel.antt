-- ===== src/Rolesel.antt =====
-- rstplib/rolesel.c: the Port Role Selection machine (17.28), the one machine of the whole bridge.
use rstp.Prelude.{
  ℕ, ◌+◌, ◌/◌, ◌%◌, ◌^◌, Bool, true, false, ◌&&◌, ◌||◌, not, Option, none, some, if◌then◌else◌,
  ◌==◌, List, [], ◌∷◌, map, any,
}
use rstp.StateMach.{Concrete}
use rstp.States.{RoleselState}
use rstp.Vector.{PrioVector, compare_vector, compare_bridge_id, create, is_negative, is_zero}
use rstp.Times.{TimeValues, compare_times, differ}
use rstp.Port.{Port, PortRole, InfoIs}
use rstp.Stpm.{Stpm, Bridge}
pub mod Best
pub mod Roles

abbrev pub is_non_stp : PortRole → Bool
is_non_stp PortRole.non_stp_port = true
is_non_stp _ = false

unfoldable pub is_backup_port : Port → Stpm → Bool
is_backup_port port this =
    is_zero (compare_bridge_id port.port_priority.design_bridge this.bridge_identifier)
    && not (port.port_priority.design_port == this.root_port_id)

-- The names of the roles are only traced, so the one case that acts is NonStpPort.
unfoldable pub set_role_selected : Port → PortRole → Port
set_role_selected port new_role = record port {
  selected_role = new_role;
  role = if is_non_stp new_role then new_role else port.role;
}

unfoldable pub updt_role_disable_tree : List Port → List Port
updt_role_disable_tree ports =
    map {A = Port} (λ port. record port { selected_role = PortRole.disabled_port }) ports

unfoldable pub clear_reselect_tree : List Port → List Port
clear_reselect_tree ports = map {A = Port} (λ port. record port { reselect = false }) ports

abbrev pub is_received : InfoIs → Bool
is_received InfoIs.received = true
is_received _ = false

-- `rootPathPrio`: the cost is an `unsigned long`. The code adds `portId`.
unfoldable pub root_path_prio : Port → PrioVector
root_path_prio port =
    let copied = port.port_priority in
    record copied { root_path_cost = (copied.root_path_cost + port.port_id) % 2 ^ 64 }

-- `(8 + MaxAge) / 16`, at least 1.
abbrev age_increment : TimeValues → ℕ
age_increment t = let dm = (8 + t.max_age) / 16 in if dm == 0 then 1 else dm

-- The message age is an `unsigned short`.
unfoldable pub aged_times : TimeValues → TimeValues
aged_times t = record t { message_age = (t.message_age + age_increment t) % 65536 }

-- One round of the loop of `updtRootPriority`.
unfoldable pub consider_port : Stpm → Port → Stpm
consider_port stpm port =
    if not port.admin_non_stp
      && is_received port.info_is
      && is_negative (compare_vector (root_path_prio port) stpm.root_priority)
    then record stpm {
      root_priority = root_path_prio port;
      root_times = aged_times port.port_times;
    }
    else stpm

unfoldable pub updt_root_priority : Stpm → List Port → Stpm
updt_root_priority stpm [] = stpm
updt_root_priority stpm (port ∷ ports) = updt_root_priority (consider_port stpm port) ports

-- (d) and (e) of `updtRolesTree`.
unfoldable pub set_designated : Stpm → Port → Port
unfolding create
set_designated stpm port =
    let times = stpm.root_times in
    if port.admin_non_stp then port else record port {
      designated_priority =
          create stpm.root_priority.root_bridge stpm.root_priority.root_path_cost
            stpm.bridge_identifier port.port_id port.port_id;
      designated_times = record times { hello_time = stpm.bridge_times.hello_time };
    }

-- The case `Received` of (f) to (l).
unfoldable pub select_received : Stpm → Port → Port
unfolding set_role_selected is_backup_port
select_received stpm port =
    if stpm.root_port_id == port.port_id
    then record (set_role_selected port PortRole.root_port) { updt_info = false }
    else if is_negative (compare_vector port.designated_priority port.port_priority)
    then record (set_role_selected port PortRole.designated_port) { updt_info = true }
    else if is_backup_port port stpm
    then record (set_role_selected port PortRole.backup_port) { updt_info = false }
    else record (set_role_selected port PortRole.alternate_port) { updt_info = false }

-- The case `Mine`.
unfoldable pub select_mine : Stpm → Port → Port
unfolding set_role_selected
select_mine stpm port = record (set_role_selected port PortRole.designated_port) {
  updt_info =
      if not (is_zero (compare_vector port.port_priority port.designated_priority))
        || differ (compare_times port.port_times stpm.root_times)
      then true
      else port.updt_info;
}

-- The switch on `infoIs`.
unfoldable pub select_by_info : InfoIs → Stpm → Port → Port
unfolding select_received select_mine set_role_selected
select_by_info InfoIs.disabled stpm port = set_role_selected port PortRole.disabled_port
select_by_info InfoIs.aged stpm port = record (set_role_selected port PortRole.designated_port) {
  updt_info = true;
}
select_by_info InfoIs.mine stpm port = select_mine stpm port
select_by_info InfoIs.received stpm port = select_received stpm port

-- One round of the last loop of `updtRolesTree`.
unfoldable pub select_role : Stpm → Port → Port
unfolding select_by_info
select_role stpm port =
    if port.admin_non_stp
    then record (set_role_selected port PortRole.non_stp_port) { forward = true; learn = true }
    else select_by_info port.info_is stpm port

-- The bridge's own priority vector and times, from which the search for the root starts.
unfoldable pub assume_root : Stpm → Stpm
unfolding create
assume_root stpm = record stpm {
  root_priority = create stpm.bridge_identifier 0 stpm.bridge_identifier 0 0;
  root_times = stpm.bridge_times;
  root_port_id = 0;
}

abbrev pub record_root_port : Stpm → Stpm
record_root_port stpm = record stpm { root_port_id = stpm.root_priority.bridge_port }

unfoldable pub updt_roles_tree : Bridge → Bridge
updt_roles_tree this =
    let best = updt_root_priority (assume_root this.stpm) this.ports in
    let designated = map (set_designated best) this.ports in
    let stpm = record_root_port best in
    record { stpm = stpm; ports = map (select_role stpm) designated }

abbrev pub any_reselect : List Port → Bool
any_reselect = any (λ port. port.reselect)

unfoldable pub set_selected_tree : List Port → List Port
set_selected_tree ports =
    if any_reselect ports
    then ports
    else map {A = Port} (λ port. record port { selected = true }) ports

abbrev pub disable_tree : Bridge → Bridge
disable_tree this = record this { ports = updt_role_disable_tree this.ports }

unfoldable pub select_tree : Bridge → Bridge
select_tree this =
    let chosen = updt_roles_tree (record this { ports = clear_reselect_tree this.ports }) in
    record chosen { ports = set_selected_tree chosen.ports }

unfoldable pub enter_bridge : RoleselState → Bridge → Bridge
unfolding select_tree updt_role_disable_tree clear_reselect_tree updt_roles_tree set_selected_tree
    assume_root updt_root_priority consider_port root_path_prio aged_times set_designated
    select_role
enter_bridge RoleselState.begin this = disable_tree this
enter_bridge RoleselState.init_bridge this = disable_tree this
enter_bridge RoleselState.role_selection this = select_tree this

unfoldable pub check_bridge : RoleselState → Bridge → Option RoleselState
check_bridge RoleselState.begin this = some RoleselState.init_bridge
check_bridge RoleselState.init_bridge this = some RoleselState.role_selection
check_bridge RoleselState.role_selection this =
    if any_reselect this.ports then some RoleselState.role_selection else none

unfoldable pub machine : Concrete Bridge RoleselState
unfolding enter_bridge check_bridge
machine = record { enter_state = enter_bridge; check_conditions = check_bridge }
