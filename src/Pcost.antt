-- ===== src/Pcost.antt =====
-- rstplib/pcost.c: the path cost machine. Costs and speeds are 64-bit `unsigned long`.
use rstp.Prelude.{
  ℕ, ◌-◌, ◌^◌, true, false, ◌&&◌, not, Option, none, some, if◌then◌else◌, ◌==◌, ltb, leb,
}
use rstp.StateMach.{Concrete}
use rstp.States.{PcostState}
use rstp.Port.{Port}
use rstp.Stpm.{Site, on_port, StpOut}
pub mod Settles

unfoldable pub compute_auto_pcost : ℕ → ℕ
compute_auto_pcost used_speed =
    if ltb used_speed 10
    then 20000000
    else if leb used_speed 10
    then 2000000
    else if leb used_speed 100
    then 200000
    else if leb used_speed 1000
    then 20000
    else if leb used_speed 10000
    then 2000
    else if leb used_speed 100000
    then 200
    else if leb used_speed 1000000
    then 20
    else if leb used_speed 10000000
    then 2
    else 1

-- ADMIN_PORT_PATH_COST_AUTO of rstplib/uid_stp.h.
abbrev pub admin_port_path_cost_auto : ℕ
admin_port_path_cost_auto = 0

unfoldable pub upd_port_path_cost : Port → Port
upd_port_path_cost port = record port { reselect = true; selected = false }

-- `usedSpeed = -1` is the largest `unsigned long`.
unfoldable pub enter_port : StpOut → PcostState → Port → Port
unfolding upd_port_path_cost compute_auto_pcost
enter_port out PcostState.begin port = port
enter_port out PcostState.auto port =
    let speed = out.get_port_oper_speed port.port_index in
    record port { oper_speed = speed; used_speed = speed; oper_pcost = compute_auto_pcost speed }
enter_port out PcostState.force port = record port {
  oper_pcost = port.admin_pcost;
  used_speed = 2 ^ 64 - 1;
}
enter_port out PcostState.stable port = upd_port_path_cost port

unfoldable pub check_port : PcostState → Port → Option PcostState
check_port PcostState.begin port = some PcostState.auto
check_port PcostState.auto port = some PcostState.stable
check_port PcostState.force port = some PcostState.stable
check_port PcostState.stable port =
    if port.admin_pcost == admin_port_path_cost_auto && not (port.oper_speed == port.used_speed)
    then some PcostState.auto
    else if not (port.admin_pcost == admin_port_path_cost_auto)
        && not (port.oper_pcost == port.admin_pcost)
    then some PcostState.force
    else none

unfoldable pub machine : StpOut → Concrete Site PcostState
unfolding enter_port check_port
machine out = record {
  enter_state = λ s w. on_port (enter_port out s) w;
  check_conditions = λ s w. check_port s w.port;
}
