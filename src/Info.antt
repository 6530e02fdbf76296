-- ===== src/Info.antt =====
-- rstplib/portinfo.c: the Port Information machine (17.27).
use rstp.Prelude.{
  ℕ, ◌+◌, ◌-◌, ◌*◌, ◌/◌, ◌%◌, ◌^◌, Bool, true, false, ◌&&◌, ◌||◌, not, Option, none, some,
  if◌then◌else◌, ◌==◌, ltb, leb,
}
use rstp.StateMach.{Concrete}
use rstp.States.{InfoState}
use rstp.Bpdu.{
  Bpdu, bpdu_topo_change_type, bpdu_config_type, bpdu_rstp, port_role_of, topology_change_bit,
  proposal_bit, learn_bit, agreement_bit, topology_change_ack_bit, rstp_port_role_unkn,
  rstp_port_role_altback, rstp_port_role_root, rstp_port_role_desgn,
}
use rstp.Vector.{
  compare_vector, compare_bridge_id, get_vector, is_negative, is_zero, is_positive, PrioVector,
}
use rstp.Times.{compare_times, differ, get_times}
use rstp.Port.{Port, InfoIs, RcvdInfo}
use rstp.Stpm.{Site, Stpm, on_port, normal_rstp}
pub mod Settles

-- The role that `rcvInfo` writes to `msgPortRole` before it tests it.
abbrev pub msg_role : Port → ℕ
msg_role port =
    if port.msg_bpdu_type == bpdu_config_type
    then rstp_port_role_desgn
    else port_role_of port.msg_flags

-- The returned value of `rcvInfo`, with the role that the message conveys.
unfoldable pub classify : ℕ → Port → RcvdInfo
classify role port =
    let bridcmp = compare_vector port.msg_priority port.port_priority in
    let times_differ = differ (compare_times port.msg_times port.port_times) in
    let same_designated =
      is_zero (compare_bridge_id port.msg_priority.design_bridge port.port_priority.design_bridge)
      && port.msg_priority.design_port == port.port_priority.design_port in
    let is_designated = role == rstp_port_role_desgn in
    if is_designated && (is_negative bridcmp || same_designated && times_differ)
    then RcvdInfo.superior_designated_info
    else if is_designated && is_zero bridcmp && not times_differ
    then RcvdInfo.repeated_designated_info
    else if is_designated && is_positive bridcmp
    then RcvdInfo.inferior_designated_info
    else if (role == rstp_port_role_root || role == rstp_port_role_altback)
        && not (is_negative bridcmp)
    then RcvdInfo.inferior_root_alternate_info
    else RcvdInfo.other_info

-- RECEIVE: `port->rcvdInfo = rcvInfo (this)`.
unfoldable pub rcv_info : Port → Port
unfolding classify
rcv_info port =
    let role = msg_role port in record port { msg_port_role = role; rcvd_info = classify role port }

abbrev is_mine : InfoIs → Bool
is_mine InfoIs.mine = true
is_mine _ = false

abbrev pub is_received : InfoIs → Bool
is_received InfoIs.received = true
is_received _ = false

abbrev pub is_disabled : InfoIs → Bool
is_disabled InfoIs.disabled = true
is_disabled _ = false

-- `port->newInfo` is a `Bool`, 0 or 1, and the code compares it with `Received`, which is 2, and
-- with `Mine`, which is 0.
abbrev bool_int : Bool → ℕ
bool_int b = if b then 1 else 0

unfoldable pub betterorsameinfo : Port → Bool
betterorsameinfo port =
    if bool_int port.new_info == 2
      && is_received port.info_is
      && not (is_positive (compare_vector port.msg_priority port.port_priority))
    then true
    else if bool_int port.new_info == 0
        && is_mine port.info_is
        && not (is_positive (compare_vector port.designated_priority port.port_priority))
    then true
    else false

unfoldable pub record_agreement : Stpm → Port → Port
record_agreement stpm port =
    if stpm.rstp_version && port.oper_point_to_point_mac && agreement_bit port.msg_flags
    then record port { agreed = true; proposing = false }
    else record port { agreed = false }

unfoldable pub record_dispute : Port → Port
record_dispute port =
    if learn_bit port.msg_flags then record port { agreed = true; proposing = false } else port

unfoldable pub record_proposal : Port → Port
record_proposal port =
    if port.msg_port_role == rstp_port_role_desgn && proposal_bit port.msg_flags
    then record port { proposed = true }
    else port

unfoldable pub record_priority : Port → Port
record_priority port = record port { port_priority = port.msg_priority }

unfoldable pub record_times : Port → Port
record_times port = record port { port_times = port.msg_times }

unfoldable pub set_tc_flags : Port → Port
set_tc_flags port =
    if port.msg_bpdu_type == bpdu_topo_change_type
    then record port { rcvd_tcn = true }
    else record port {
      rcvd_tc = if topology_change_bit port.msg_flags then true else port.rcvd_tc;
      rcvd_tc_ack = if topology_change_ack_bit port.msg_flags then true else port.rcvd_tc_ack;
    }

-- All in `int`; the operands are `unsigned short`, so nothing wraps.
unfoldable pub eff_age : Port → ℕ
eff_age port =
    let sixteenth = port.port_times.max_age / 16 in
    (if ltb sixteenth 1 then 1 else sixteenth) + port.port_times.message_age

unfoldable pub updt_rcvd_info_while : Port → Port
unfolding eff_age
updt_rcvd_info_while port =
    let hello3 = 3 * port.port_times.hello_time in
    let dm = port.port_times.max_age - eff_age port in
    record port {
      rcvd_info_while =
          if leb (eff_age port) port.port_times.max_age
          then if ltb hello3 dm then hello3 else dm
          else 0;
    }

-- `unsigned long` counters.
abbrev incr : ℕ → ℕ
incr n = (n + 1) % 2 ^ 64

-- The tail of `STP_info_rx_bpdu`, for a configuration or an RST BPDU that is taken.
unfoldable pub take_bpdu : Bpdu → Port → Port
take_bpdu bpdu port =
    let taken = get_vector bpdu.body port.msg_priority in
    record port {
      rcvd_bpdu = true;
      msg_bpdu_version = bpdu.hdr.version;
      msg_bpdu_type = bpdu.hdr.bpdu_type;
      msg_flags = bpdu.body.flags;
      msg_priority = record taken { bridge_port = port.port_id };
      msg_times = get_times bpdu.body;
    }

abbrev count_cfg : Port → Port
count_cfg port = record port { rx_cfg_bpdu_cnt = incr port.rx_cfg_bpdu_cnt }

abbrev count_tcn : Port → Port
count_tcn port = record port { rx_tcn_bpdu_cnt = incr port.rx_tcn_bpdu_cnt }

abbrev count_rstp : Port → Port
count_rstp port = record port { rx_rstp_bpdu_cnt = incr port.rx_rstp_bpdu_cnt }

-- `STP_info_rx_bpdu`. The three type codes differ, so the order of the tests does not matter.
unfoldable pub rx_bpdu : Stpm → Bpdu → Port → Port
unfolding take_bpdu
rx_bpdu stpm bpdu port =
    if bpdu.hdr.bpdu_type == bpdu_config_type
    then if port.admin_non_stp then count_cfg port else take_bpdu bpdu (count_cfg port)
    else if bpdu.hdr.bpdu_type == bpdu_topo_change_type
    then if port.admin_non_stp then count_tcn port else record (count_tcn port) {
      rcvd_bpdu = true;
      msg_bpdu_version = bpdu.hdr.version;
      msg_bpdu_type = bpdu.hdr.bpdu_type;
    }
    else if bpdu.hdr.bpdu_type == bpdu_rstp
    then if port.admin_non_stp
      then count_rstp port
      else if leb normal_rstp stpm.force_version
      then take_bpdu bpdu (count_rstp port)
      else count_rstp port
    else port

abbrev disable : Port → Port
disable port = record port {
  rcvd_msg = false;
  proposing = false;
  proposed = false;
  agree = false;
  agreed = false;
  rcvd_info_while = 0;
  info_is = InfoIs.disabled;
  reselect = true;
  selected = false;
}

-- UPDATE: `agreed`, then `synced`, are lowered before the priority is copied.
unfoldable pub update : Port → Port
unfolding betterorsameinfo
update port =
    let cleared = record port { proposing = false; proposed = false } in
    let agreed' = port.agreed && betterorsameinfo cleared in
    record cleared {
      agreed = agreed';
      synced = port.synced && agreed';
      port_priority = port.designated_priority;
      port_times = port.designated_times;
      updt_info = false;
      info_is = InfoIs.mine;
      new_info = true;
    }

abbrev lower_agree : Port → Port
unfolding betterorsameinfo
lower_agree port = record port { agree = port.agree && betterorsameinfo port }

unfoldable pub superior_designated : Port → Port
unfolding record_proposal set_tc_flags lower_agree record_priority record_times updt_rcvd_info_while
superior_designated port =
    record (updt_rcvd_info_while (
      record_times (
        record_priority (
          lower_agree (
            set_tc_flags
              (record_proposal (record port { agreed = false; proposing = false }))))))) {
                info_is = InfoIs.received;
                reselect = true;
                selected = false;
                rcvd_msg = false;
              }

-- BEGIN falls through to DISABLED. `msgBpduType = -1` is 255 in an `unsigned char`.
unfoldable pub enter_port : InfoState → Stpm → Port → Port
unfolding rcv_info update superior_designated record_proposal set_tc_flags updt_rcvd_info_while
    record_dispute record_agreement
enter_port InfoState.begin stpm port = disable (record port {
  msg_bpdu_type = 255;
  msg_port_role = rstp_port_role_unkn;
  msg_flags = 0;
  rx_cfg_bpdu_cnt = 0;
  rx_rstp_bpdu_cnt = 0;
  rx_tcn_bpdu_cnt = 0;
})
enter_port InfoState.disabled stpm port = disable port
enter_port InfoState.aged stpm port = record port {
  info_is = InfoIs.aged;
  reselect = true;
  selected = false;
}
enter_port InfoState.update stpm port = update port
enter_port InfoState.current stpm port = port
enter_port InfoState.receive stpm port = rcv_info port
enter_port InfoState.superior_designated stpm port = superior_designated port
enter_port InfoState.repeated_designated stpm port =
    record (updt_rcvd_info_while (set_tc_flags (record_proposal port))) { rcvd_msg = false }
enter_port InfoState.inferior_designated stpm port = record (record_dispute port) {
  rcvd_msg = false;
}
enter_port InfoState.not_designated stpm port = record (set_tc_flags (record_agreement stpm port)) {
  rcvd_msg = false;
}
enter_port InfoState.other stpm port = record port { rcvd_msg = false }

abbrev state_of_info : RcvdInfo → InfoState
state_of_info RcvdInfo.superior_designated_info = InfoState.superior_designated
state_of_info RcvdInfo.repeated_designated_info = InfoState.repeated_designated
state_of_info RcvdInfo.inferior_designated_info = InfoState.inferior_designated
state_of_info RcvdInfo.inferior_root_alternate_info = InfoState.not_designated
state_of_info RcvdInfo.other_info = InfoState.other

-- The switch of `STP_info_check_conditions`, below its first test.
switch_port : InfoState → Port → Option InfoState
switch_port InfoState.begin port = none
switch_port InfoState.disabled port =
    if port.port_enabled
    then some InfoState.aged
    else if port.rcvd_msg
    then some InfoState.disabled
    else none
switch_port InfoState.aged port =
    if port.selected && port.updt_info then some InfoState.update else none
switch_port InfoState.update port = some InfoState.current
switch_port InfoState.current port =
    if port.selected && port.updt_info
    then some InfoState.update
    else if is_received port.info_is
        && port.rcvd_info_while == 0
        && not port.updt_info
        && not port.rcvd_msg
    then some InfoState.aged
    else if port.rcvd_msg && not port.updt_info
    then some InfoState.receive
    else none
switch_port InfoState.receive port = some (state_of_info port.rcvd_info)
switch_port InfoState.superior_designated port = some InfoState.current
switch_port InfoState.repeated_designated port = some InfoState.current
switch_port InfoState.inferior_designated port = some InfoState.current
switch_port InfoState.not_designated port = some InfoState.current
switch_port InfoState.other port = some InfoState.current

abbrev is_begin : InfoState → Bool
is_begin InfoState.begin = true
is_begin _ = false

unfoldable pub check_port : InfoState → Port → Option InfoState
unfolding switch_port
check_port s port =
    if not port.port_enabled && not (is_disabled port.info_is) || is_begin s
    then some InfoState.disabled
    else switch_port s port

unfoldable pub machine : Concrete Site InfoState
unfolding enter_port check_port
machine = record {
  enter_state = λ s w. on_port (enter_port s w.stpm) w;
  check_conditions = λ s w. check_port s w.port;
}
