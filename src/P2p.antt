-- ===== src/P2p.antt =====
-- rstplib/p2p.c: the point-to-point resolution machine (6.4.3, 6.5.1).
use rstp.Prelude.{Bool, true, false, Option, none, some, if◌then◌else◌}
use rstp.StateMach.{Concrete}
use rstp.States.{P2pState}
use rstp.Port.{Port, AdminP2p}
use rstp.Stpm.{Site, on_port, StpOut}
pub mod Settles

unfoldable pub compute_p2p : StpOut → AdminP2p → Port → Bool
compute_p2p out AdminP2p.p2p_force_true port = true
compute_p2p out AdminP2p.p2p_force_false port = false
compute_p2p out AdminP2p.p2p_auto port = out.get_duplex port.port_index

unfoldable pub enter_port : StpOut → P2pState → Port → Port
unfolding compute_p2p
enter_port out P2pState.begin port = record port { p2p_recompute = true }
enter_port out P2pState.init port = record port { p2p_recompute = true }
enter_port out P2pState.recompute port = record port {
  oper_point_to_point_mac = compute_p2p out port.admin_point_to_point_mac port;
  p2p_recompute = false;
}
enter_port out P2pState.stable port = port

unfoldable pub check_port : P2pState → Port → Option P2pState
check_port P2pState.begin port = some P2pState.stable
check_port P2pState.init port = some P2pState.stable
check_port P2pState.recompute port = some P2pState.stable
check_port P2pState.stable port = if port.p2p_recompute then some P2pState.recompute else none

unfoldable pub machine : StpOut → Concrete Site P2pState
unfolding enter_port check_port
machine out = record {
  enter_state = λ s w. on_port (enter_port out s) w;
  check_conditions = λ s w. check_port s w.port;
}
