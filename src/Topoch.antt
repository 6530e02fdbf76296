-- ===== src/Topoch.antt =====
-- rstplib/topoch.c: the Topology Change machine (17.31), without STRONGLY_SPEC_802_1W.
use rstp.Prelude.{
  ℕ, ◌+◌, Bool, true, false, ◌&&◌, ◌||◌, not, Option, none, some, if◌then◌else◌, ◌==◌, map,
}
use rstp.StateMach.{Concrete}
use rstp.States.{TopochState}
use rstp.Port.{Port, PortRole}
use rstp.Stpm.{Site, Stpm, on_port}
pub mod Settles

abbrev pub is_root_or_designated : PortRole → Bool
is_root_or_designated PortRole.root_port = true
is_root_or_designated PortRole.designated_port = true
is_root_or_designated _ = false

abbrev pub is_designated : PortRole → Bool
is_designated PortRole.designated_port = true
is_designated _ = false

-- `tmp->tcProp = True` for a port with another index than the caller's.
abbrev pub prop_from : Port → Port → Port
prop_from port tmp =
    if tmp.port_index == port.port_index then tmp else record tmp { tc_prop = true }

unfoldable pub set_tc_prop_tree : Site → Site
set_tc_prop_tree w = record w {
  before = map (prop_from w.port) w.before;
  port = prop_from w.port w.port;
  after = map (prop_from w.port) w.after;
}

-- The second test of `newTcWhile`, after the first.
unfoldable pub new_tc_while_stp : Stpm → Port → Port
new_tc_while_stp stpm port =
    if port.tc_while == 0 && not port.send_rstp
    then record port { tc_while = stpm.root_times.max_age + stpm.root_times.forward_delay }
    else port

unfoldable pub new_tc_while : Stpm → Port → Port
unfolding new_tc_while_stp
new_tc_while stpm port = new_tc_while_stp stpm (
    if port.tc_while == 0 && port.send_rstp
    then record port { tc_while = port.designated_times.hello_time + 1; new_info = true }
    else port)

abbrev set_new_info : Port → Port
set_new_info port = record port { new_info = true }

abbrev deactivate : Port → Port
deactivate port = record port { fbd_flush = true; tc_while = 0; tc_ack = false }

unfoldable pub enter_site : TopochState → Site → Site
unfolding set_tc_prop_tree new_tc_while
enter_site TopochState.begin w = on_port deactivate w
enter_site TopochState.inactive w = on_port deactivate w
enter_site TopochState.learning w =
    on_port
      (λ port. record port {
        rcvd_tc = false;
        rcvd_tcn = false;
        rcvd_tc_ack = false;
        tc_prop = false;
      })
      w
enter_site TopochState.detected w =
    on_port set_new_info (set_tc_prop_tree (on_port (new_tc_while w.stpm) w))
enter_site TopochState.active w = w
enter_site TopochState.acknowledged w =
    on_port (λ port. record port { tc_while = 0; rcvd_tc_ack = false }) w
enter_site TopochState.propagating w =
    on_port (λ port. record (new_tc_while w.stpm port) { fbd_flush = true; tc_prop = false }) w
enter_site TopochState.notified_tc w = set_tc_prop_tree (
    on_port
      (λ port. record port {
        rcvd_tcn = false;
        rcvd_tc = false;
        tc_ack = if is_designated port.role then true else port.tc_ack;
      })
      w)
enter_site TopochState.notified_tcn w = on_port (new_tc_while w.stpm) w

abbrev pub rcvd_any : Port → Bool
rcvd_any port = port.rcvd_tc || port.rcvd_tcn || port.rcvd_tc_ack || port.tc_prop

unfoldable pub check_port : TopochState → Port → Option TopochState
check_port TopochState.begin port = some TopochState.inactive
check_port TopochState.inactive port =
    if port.learn && not port.fbd_flush then some TopochState.learning else none
check_port TopochState.learning port =
    if is_root_or_designated port.role && port.forward && not port.oper_edge
    then some TopochState.detected
    else if not (is_root_or_designated port.role)
        && not (port.learn || port.learning)
        && not (rcvd_any port)
    then some TopochState.inactive
    else if rcvd_any port
    then some TopochState.learning
    else none
check_port TopochState.active port =
    if not (is_root_or_designated port.role) || port.oper_edge
    then some TopochState.learning
    else if port.rcvd_tcn
    then some TopochState.notified_tcn
    else if port.rcvd_tc
    then some TopochState.notified_tc
    else if port.tc_prop && not port.oper_edge
    then some TopochState.propagating
    else if port.rcvd_tc_ack
    then some TopochState.acknowledged
    else none
check_port TopochState.detected port = some TopochState.notified_tc
check_port TopochState.acknowledged port = some TopochState.notified_tc
check_port TopochState.propagating port = some TopochState.notified_tc
check_port TopochState.notified_tc port = some TopochState.notified_tc
check_port TopochState.notified_tcn port = some TopochState.notified_tc

unfoldable pub machine : Concrete Site TopochState
unfolding enter_site check_port
machine = record { enter_state = enter_site; check_conditions = λ s w. check_port s w.port }
