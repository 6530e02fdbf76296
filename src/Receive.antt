-- ===== src/Receive.antt =====
-- rstplib/receive.c: the Port Receive machine (17.23).
use rstp.Prelude.{Bool, true, false, ◌&&◌, ◌||◌, not, Option, none, some, if◌then◌else◌, ◌==◌, ltb}
use rstp.StateMach.{Concrete}
use rstp.States.{ReceiveState}
use rstp.Bpdu.{bpdu_topo_change_type, bpdu_rstp}
use rstp.Port.{Port, migrate_time}
use rstp.Stpm.{Site, on_port}
pub mod Settles

-- `updtBPDUVersion` of rstplib/portinfo.c.
unfoldable pub updt_bpdu_version : Port → Port
updt_bpdu_version port = record port {
  rcvd_stp =
      if port.msg_bpdu_type == bpdu_topo_change_type
      then true
      else if ltb port.msg_bpdu_version 2
      then true
      else port.rcvd_stp;
  rcvd_rstp = if port.msg_bpdu_type == bpdu_rstp then true else port.rcvd_rstp;
}

abbrev discard : Port → Port
discard port = record port {
  rcvd_bpdu = false;
  rcvd_rstp = false;
  rcvd_stp = false;
  rcvd_msg = false;
  edge_delay_while = migrate_time;
}

unfoldable pub enter_port : ReceiveState → Port → Port
unfolding updt_bpdu_version
enter_port ReceiveState.begin port = discard port
enter_port ReceiveState.discard port = discard port
enter_port ReceiveState.receive port = record (updt_bpdu_version port) {
  oper_edge = false;
  rcvd_bpdu = false;
  rcvd_msg = true;
  edge_delay_while = migrate_time;
}

-- The switch of `STP_receive_check_conditions`, below its first test.
switch_port : ReceiveState → Port → Option ReceiveState
switch_port ReceiveState.begin port = none
switch_port ReceiveState.discard port =
    if port.rcvd_bpdu && port.port_enabled then some ReceiveState.receive else none
switch_port ReceiveState.receive port =
    if port.rcvd_bpdu && port.port_enabled && not port.rcvd_msg
    then some ReceiveState.receive
    else none

abbrev is_begin : ReceiveState → Bool
is_begin ReceiveState.begin = true
is_begin _ = false

unfoldable pub check_port : ReceiveState → Port → Option ReceiveState
unfolding switch_port
check_port s port =
    if is_begin s
      || (port.rcvd_bpdu || not (port.edge_delay_while == migrate_time)) && not port.port_enabled
    then some ReceiveState.discard
    else switch_port s port

unfoldable pub machine : Concrete Site ReceiveState
unfolding enter_port check_port
machine = record {
  enter_state = λ s w. on_port (enter_port s) w;
  check_conditions = λ s w. check_port s w.port;
}
