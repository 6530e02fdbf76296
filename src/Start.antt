-- ===== src/Start.antt =====
-- rstplib/stpm.c and port.c: how a bridge is started, and its second tick.
use rstp.Prelude.{
  ℕ, ◌+◌, ◌-◌, ◌%◌, ◌^◌, Bool, true, false, Option, none, some, if◌then◌else◌, ◌==◌, ◌&&◌, not,
  List, [], ◌∷◌, map, any,
}
use rstp.Bpdu.{rstp_port_role_unkn}
use rstp.Vector.{BridgeId, compare_bridge_id, create, memcmp, is_negative, is_zero}
use rstp.Times.{TimeValues}
use rstp.Port.{Port, PortRole}
use rstp.Stpm.{Stpm, Bridge, StpOut, StpMode}
use rstp.Update.{init_machines, update}
pub mod Identity
pub mod Outcome

abbrev pub is_enabled : StpMode → Bool
is_enabled StpMode.stp_enabled = true
is_enabled StpMode.stp_disabled = false

-- `_stp_stpm_init_data`
unfoldable pub init_data : Stpm → Stpm
unfolding create
init_data this =
    let times : TimeValues = record this.bridge_times { message_age = 0 } in
    record this {
      root_priority = create this.bridge_identifier 0 this.bridge_identifier 0 0;
      bridge_times = times;
      root_times = times;
    }

-- Nine timers count down to 0; `uptime` is an `unsigned long`.
unfoldable pub tick : Port → Port
tick port = record port {
  edge_delay_while = port.edge_delay_while - 1;
  fd_while = port.fd_while - 1;
  hello_when = port.hello_when - 1;
  mdelay_while = port.mdelay_while - 1;
  rb_while = port.rb_while - 1;
  rcvd_info_while = port.rcvd_info_while - 1;
  rr_while = port.rr_while - 1;
  tc_while = port.tc_while - 1;
  tx_count = port.tx_count - 1;
  uptime = (port.uptime + 1) % 2 ^ 64;
}

unfoldable pub check_topoch : List Port → Bool
check_topoch ports = any (λ port. not (port.tc_while == 0)) ports

-- What `STP_stpm_one_second` does after the update.
unfoldable pub count_topology_change : Bridge → Bridge
unfolding check_topoch
count_topology_change this =
    let stpm = this.stpm in
    if check_topoch this.ports
    then record this {
      stpm = record stpm {
        topology_change = true;
        topology_change_count = (stpm.topology_change_count + 1) % 2 ^ 64;
        time_since_topology_change = 0;
      };
    }
    else record this {
      stpm = record stpm {
        topology_change = false;
        topology_change_count = 0;
        time_since_topology_change = (stpm.time_since_topology_change + 1) % 2 ^ 64;
      };
    }

-- One round of the loop of `STP_compute_bridge_id`, and the loop from `old`.
unfoldable pub least_mac : StpOut → List ℕ → List Port → List ℕ
unfolding memcmp
least_mac out old [] = old
least_mac out old (port ∷ ports) =
    let new = out.get_port_mac port.port_index in
    let kept = if is_negative (memcmp new old) then new else old in least_mac out kept ports

abbrev pub no_mac : List ℕ
no_mac = 0xff ∷ 0xff ∷ 0xff ∷ 0xff ∷ 0xff ∷ 0xff ∷ []

unfoldable pub compute_bridge_id : StpOut → Bridge → Bridge
unfolding least_mac
compute_bridge_id out this =
    let stpm = this.stpm in
    let id : BridgeId = record stpm.bridge_identifier { addr = least_mac out no_mac this.ports } in
    record this { stpm = record stpm { bridge_identifier = id } }

-- `STP_stpm_check_bridge_priority` against the other bridges of the daemon: False is the error
-- `STP_Invalid_Bridge_Priority`.
unfoldable pub check_bridge_priority : Stpm → List Stpm → Bool
unfolding compare_bridge_id
check_bridge_priority this bridges = not (
    any
      (λ oth.
        is_enabled oth.admin_state
        && is_zero (compare_bridge_id this.bridge_identifier oth.bridge_identifier))
      bridges)

-- `STP_port_init`, in two steps: what `check_link` adds, and the rest.
unfoldable pub port_check_link : StpOut → Stpm → Port → Port
unfolding create
port_check_link out stpm port = record port {
  admin_enable = out.get_port_link_status port.port_index;
  designated_priority =
      create stpm.bridge_identifier 0 stpm.bridge_identifier port.port_id port.port_id;
  designated_times = stpm.root_times;
  fd_while = 0;
}

unfoldable pub port_reset : StpOut → Port → Port
port_reset out port = record port {
  hello_when = 0;
  mdelay_while = 0;
  rb_while = 0;
  rcvd_info_while = 0;
  rr_while = 0;
  tc_while = 0;
  tx_count = 0;
  port_enabled = true;
  msg_port_role = rstp_port_role_unkn;
  selected_role = PortRole.disabled_port;
  send_rstp = true;
  oper_speed = out.get_port_oper_speed port.port_index;
  p2p_recompute = true;
}

unfoldable pub port_init : StpOut → Stpm → Bool → Port → Port
unfolding port_check_link port_reset
port_init out stpm check_link port =
    port_reset out (if check_link then port_check_link out stpm port else port)

-- The bridge with its data and ports set, before its machines run.
unfoldable pub start_ports : StpOut → Bridge → Bridge
unfolding init_data port_init
start_ports out this =
    let stpm = init_data this.stpm in
    record { stpm = stpm; ports = map (port_init out stpm true) this.ports }

-- The results of `STP_stpm_start`. The bridge identifier is written before it is tested.
pub data StartResult : Type 0 where
  started : Bridge → StartResult
  invalid_bridge_priority : Bridge → StartResult

module _ (out : StpOut) (rounds fuel : ℕ) where
  unfoldable pub start : List Stpm → Bridge → Option StartResult
  unfolding compute_bridge_id check_bridge_priority start_ports
  start bridges this =
      let named = compute_bridge_id out this in
      let run = update out rounds fuel 0 (init_machines out (start_ports out named)) in
      if check_bridge_priority named.stpm bridges
      then elim run [ none ↦ none | some (loops, b) ↦ some (started b) ]
      else some (invalid_bridge_priority named)

  unfoldable pub one_second : Bridge → Option Bridge
  unfolding tick count_topology_change
  one_second this =
      let run = update out rounds fuel 0 (record this { ports = map tick this.ports }) in
      if is_enabled this.stpm.admin_state
      then elim run [ none ↦ none | some (loops, b) ↦ some (count_topology_change b) ]
      else some this
