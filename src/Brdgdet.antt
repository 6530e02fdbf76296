-- ===== src/Brdgdet.antt =====
-- rstplib/brdgdet.c: the Bridge Detection machine (17.25).
use rstp.Prelude.{true, false, ◌&&◌, ◌||◌, not, Option, none, some, if◌then◌else◌, ◌==◌}
use rstp.StateMach.{Concrete}
use rstp.States.{BrdgdetState}
use rstp.Port.{Port}
use rstp.Stpm.{Site, on_port}
pub mod Settles

unfoldable pub enter_port : BrdgdetState → Port → Port
enter_port BrdgdetState.begin port = port
enter_port BrdgdetState.edge port = record port { oper_edge = true }
enter_port BrdgdetState.not_edge port = record port { oper_edge = false }

unfoldable pub check_port : BrdgdetState → Port → Option BrdgdetState
check_port BrdgdetState.begin port =
    if port.admin_edge_port then some BrdgdetState.edge else some BrdgdetState.not_edge
check_port BrdgdetState.edge port =
    if not port.port_enabled && not port.admin_edge_port || not port.oper_edge
    then some BrdgdetState.not_edge
    else none
check_port BrdgdetState.not_edge port =
    if not port.port_enabled && port.admin_edge_port
      || port.edge_delay_while == 0 && port.auto_edge_port && port.send_rstp && port.proposing
    then some BrdgdetState.edge
    else none

unfoldable pub machine : Concrete Site BrdgdetState
unfolding enter_port check_port
machine = record {
  enter_state = λ s w. on_port (enter_port s) w;
  check_conditions = λ s w. check_port s w.port;
}
