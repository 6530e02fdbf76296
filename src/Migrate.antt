-- ===== src/Migrate.antt =====
-- rstplib/migrate.c: the Port Protocol Migration machine (17.24).
use rstp.Prelude.{false, ◌&&◌, ◌||◌, not, Option, none, some, if◌then◌else◌, ◌==◌}
use rstp.StateMach.{Concrete}
use rstp.States.{MigrateState}
use rstp.Port.{Port, migrate_time}
use rstp.Stpm.{Site, on_port, Stpm}
pub mod Settles

abbrev checking : Stpm → Port → Port
checking stpm port = record port {
  mcheck = false;
  send_rstp = stpm.rstp_version;
  mdelay_while = migrate_time;
}

unfoldable pub enter_port : MigrateState → Stpm → Port → Port
enter_port MigrateState.begin stpm port = checking stpm port
enter_port MigrateState.checking_rstp stpm port = checking stpm port
enter_port MigrateState.selecting_stp stpm port = record port {
  send_rstp = false;
  mdelay_while = migrate_time;
}
enter_port MigrateState.sensing stpm port = record port { rcvd_rstp = false; rcvd_stp = false }

unfoldable pub check_port : MigrateState → Stpm → Port → Option MigrateState
check_port MigrateState.begin stpm port = some MigrateState.checking_rstp
check_port MigrateState.checking_rstp stpm port =
    if port.mdelay_while == 0
    then some MigrateState.sensing
    else if not (port.mdelay_while == migrate_time) && not port.port_enabled
    then some MigrateState.checking_rstp
    else none
check_port MigrateState.selecting_stp stpm port =
    if port.mdelay_while == 0 || not port.port_enabled || port.mcheck
    then some MigrateState.sensing
    else none
check_port MigrateState.sensing stpm port =
    if not port.port_enabled
      || port.mcheck
      || stpm.rstp_version && not port.send_rstp && port.rcvd_rstp
    then some MigrateState.checking_rstp
    else if port.send_rstp && port.rcvd_stp
    then some MigrateState.selecting_stp
    else none

unfoldable pub machine : Concrete Site MigrateState
unfolding enter_port check_port
machine = record {
  enter_state = λ s w. on_port (enter_port s w.stpm) w;
  check_conditions = λ s w. check_port s w.stpm w.port;
}
