-- ===== src/Library/State.antt =====
-- rstplib/uid_stp.h and stp_in.c: what the library tells of a bridge and of a port.
use rstp.Prelude.{
  ℕ, ◌+◌, ◌/◌, Bool, true, false, not, ◌&&◌, Option, none, some, if◌then◌else◌, ◌==◌, ℤ, pos,
}
use rstp.Vector.{BridgeId}
use rstp.Port.{Port, PortRole, AdminP2p}
use rstp.Stpm.{Stpm, Bridge, StpMode}
use rstp.Library.{
  StpError, stp_ok, stp_vlan_had_not_yet_been_created, stp_port_is_absent_in_the_vlan, Library,
  stpm_find, port_find,
}
use rstp.Library.Config.{StpCfg, stpm_get_cfg}
use rstp.Library.PortConfig.{PortCfg}
use rstp.Library.Create.{bridge_id_zero}
pub mod Reported
pub mod Configured

-- `RSTP_PORT_STATE`
pub data PortState : Type 0 where
  disabled discarding learning forwarding non_stp : PortState

-- `UID_STP_STATE_T`, without the name. A Boolean stands for its two bytes 0 and 1.
pub record UidStpState : Type 0 where
  pub vlan_id : ℕ
  pub stp_enabled : StpMode
  pub designated_root : BridgeId
  pub root_path_cost : ℕ
  pub time_since_topology_change : ℕ
  pub topology_change_count : ℕ
  pub topology_change : Bool
  pub root_port : ℕ
  pub max_age : ℕ
  pub hello_time : ℕ
  pub forward_delay : ℕ
  pub bridge_id : BridgeId

-- `UID_STP_PORT_STATE_T`, without the name and `tc`, which no code reads or writes. A role is its
-- character.
pub record UidPortState : Type 0 where
  pub port_no : ℤ
  pub port_id : ℕ
  pub state : PortState
  pub path_cost : ℕ
  pub designated_root : BridgeId
  pub designated_cost : ℕ
  pub designated_bridge : BridgeId
  pub designated_port : ℕ
  pub rx_cfg_bpdu_cnt : ℕ
  pub rx_rstp_bpdu_cnt : ℕ
  pub rx_tcn_bpdu_cnt : ℕ
  pub edge_delay_while : ℕ
  pub fd_while : ℕ
  pub hello_when : ℕ
  pub mdelay_while : ℕ
  pub rb_while : ℕ
  pub rcvd_info_while : ℕ
  pub rr_while : ℕ
  pub tc_while : ℕ
  pub tx_count : ℕ
  pub uptime : ℕ
  pub oper_port_path_cost : ℕ
  pub role : ℕ
  pub oper_point2point : Bool
  pub oper_edge : Bool
  pub oper_stp_neigb : Bool
  pub top_change_ack : Bool

-- The switch on the role.
unfoldable pub role_char : PortRole → ℕ
role_char PortRole.disabled_port = b' '
role_char PortRole.alternate_port = b'A'
role_char PortRole.backup_port = b'B'
role_char PortRole.root_port = b'R'
role_char PortRole.designated_port = b'D'
role_char PortRole.non_stp_port = b'-'

abbrev pub is_disabled : PortRole → Bool
is_disabled PortRole.disabled_port = true
is_disabled _ = false

-- A role in which the port takes no part in the protocol.
abbrev pub is_outside : PortRole → Bool
is_outside PortRole.disabled_port = true
is_outside PortRole.non_stp_port = true
is_outside _ = false

abbrev is_force_false : AdminP2p → Bool
is_force_false AdminP2p.p2p_force_false = true
is_force_false _ = false

abbrev pub is_auto : AdminP2p → Bool
is_auto AdminP2p.p2p_auto = true
is_auto _ = false

unfoldable pub port_state : Port → PortState
port_state port =
    if is_disabled port.role
    then PortState.disabled
    else if not port.forwarding && not port.learning
    then PortState.discarding
    else if not port.forwarding && port.learning
    then PortState.learning
    else PortState.forwarding

-- The body of `STP_IN_port_get_state`, for the port that it finds; the port number stays.
unfoldable pub port_get_state : Port → ℤ → UidPortState
unfolding role_char port_state
port_get_state port port_no =
    let outside = is_outside port.role in
    let disabled = is_disabled port.role in
    let vector = port.port_priority in
    record {
      port_no = port_no;
      port_id = port.port_id;
      state = port_state port;
      path_cost = port.oper_pcost;
      designated_root = if outside then bridge_id_zero else vector.root_bridge;
      designated_cost = if outside then 0 else vector.root_path_cost;
      designated_bridge = if outside then bridge_id_zero else vector.design_bridge;
      designated_port = if outside then port.port_id else vector.design_port;
      rx_cfg_bpdu_cnt = port.rx_cfg_bpdu_cnt;
      rx_rstp_bpdu_cnt = port.rx_rstp_bpdu_cnt;
      rx_tcn_bpdu_cnt = port.rx_tcn_bpdu_cnt;
      edge_delay_while = port.edge_delay_while;
      fd_while = port.fd_while;
      hello_when = port.hello_when;
      mdelay_while = port.mdelay_while;
      rb_while = port.rb_while;
      rcvd_info_while = port.rcvd_info_while;
      rr_while = port.rr_while;
      tc_while = port.tc_while;
      tx_count = port.tx_count;
      uptime = port.uptime;
      oper_port_path_cost = port.oper_pcost;
      role = role_char port.role;
      oper_point2point =
          if disabled
          then not (is_force_false port.admin_point_to_point_mac)
          else port.oper_point_to_point_mac;
      oper_edge = if disabled then port.admin_edge_port else port.oper_edge;
      oper_stp_neigb = if disabled then false else not port.send_rstp;
      top_change_ack = port.tc_ack;
    }

abbrev pub bit_unless : Bool → ℕ → ℕ
bit_unless b n = if b then 0 else n

-- The body of `STP_IN_port_get_cfg`, for the port that it finds: it leaves the rest of `uid_cfg` as
-- it was.
unfoldable pub port_get_cfg : Port → PortCfg → PortCfg
port_get_cfg port uid_cfg = record uid_cfg {
  field_mask =
      bit_unless (port.port_id / 256 == 128) 4
      + bit_unless (port.admin_pcost == 0) 2
      + bit_unless (is_auto port.admin_point_to_point_mac) 8
      + bit_unless port.admin_edge_port 16;
  port_priority = pos (port.port_id / 256);
  admin_port_path_cost = port.admin_pcost;
  admin_point2point = port.admin_point_to_point_mac;
  admin_edge = port.admin_edge_port;
}

-- The body of `STP_IN_stpm_get_state`, for the bridge that it finds.
unfoldable pub stpm_get_state : Stpm → UidStpState
stpm_get_state this = record {
  vlan_id = this.vlan_id;
  stp_enabled = this.admin_state;
  designated_root = this.root_priority.root_bridge;
  root_path_cost = this.root_priority.root_path_cost;
  time_since_topology_change = this.time_since_topology_change;
  topology_change_count = this.topology_change_count;
  topology_change = this.topology_change;
  root_port = this.root_port_id;
  max_age = this.root_times.max_age;
  hello_time = this.root_times.hello_time;
  forward_delay = this.root_times.forward_delay;
  bridge_id = this.bridge_identifier;
}

-- A lookup of a bridge, and of one of its ports, that only reads.
abbrev on_stpm : {A : Type 0} → ℕ → A → (Bridge → StpError × A) → Library → StpError × A
unfolding stpm_find
on_stpm vlan_id entry f lib = elim (stpm_find vlan_id lib.bridges) [
  | none ↦ (stp_vlan_had_not_yet_been_created, entry)
  | some this ↦ f this
]

abbrev on_stpm_port : {A : Type 0} → ℕ → ℕ → A → (Port → A) → Library → StpError × A
unfolding stpm_find port_find
on_stpm_port vlan_id port_index entry f lib =
    on_stpm vlan_id entry
      (λ this. elim (port_find port_index this.ports) [
        | none ↦ (stp_port_is_absent_in_the_vlan, entry)
        | some port ↦ (stp_ok, f port)
      ])
      lib

-- `STP_IN_stpm_get_cfg`. What the caller has is cleared in its mask even if there is no bridge.
unfoldable pub in_stpm_get_cfg : ℕ → StpCfg → Library → StpError × StpCfg
unfolding stpm_find stpm_get_cfg
in_stpm_get_cfg vlan_id uid_cfg lib =
    on_stpm vlan_id (record uid_cfg { field_mask = 0 }) (λ this. (stp_ok, stpm_get_cfg this.stpm))
      lib

-- `STP_IN_stpm_get_state`
unfoldable pub in_stpm_get_state : ℕ → UidStpState → Library → StpError × UidStpState
unfolding stpm_find stpm_get_state
in_stpm_get_state vlan_id entry lib =
    on_stpm vlan_id entry (λ this. (stp_ok, stpm_get_state this.stpm)) lib

-- `STP_IN_port_get_cfg`
unfoldable pub in_port_get_cfg : ℕ → ℕ → PortCfg → Library → StpError × PortCfg
unfolding stpm_find port_find port_get_cfg
in_port_get_cfg vlan_id port_index uid_cfg lib =
    on_stpm_port vlan_id port_index uid_cfg (λ port. port_get_cfg port uid_cfg) lib

-- `STP_IN_port_get_state`, for the port that `entry` names.
unfoldable pub in_port_get_state : ℕ → ℕ → UidPortState → Library → StpError × UidPortState
unfolding stpm_find port_find port_get_state
in_port_get_state vlan_id port_index entry lib =
    on_stpm_port vlan_id port_index entry (λ port. port_get_state port entry.port_no) lib
