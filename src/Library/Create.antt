-- ===== src/Library/Create.antt =====
-- rstplib/stpm.c and port.c: a new bridge and a new port, from `calloc`, which clears them.
use rstp.Prelude.{
  ℕ, zero, suc, ◌+◌, ◌-◌, ◌*◌, ◌%◌, ◌^◌, ◌/◌, ◌==◌, Bool, false, Option, none, some, ◌>>=◌,
  if◌then◌else◌, [], ◌∷◌, to_unsigned,
}
use rstp.StateMach.{StateMach}
use rstp.States.{
  ReceiveState, MigrateState, BrdgdetState, P2pState, PcostState, SttransState, TopochState,
  TransmitState, InfoState, RoletrnsState, RoleselState,
}
use rstp.Bpdu.{bpdu_l_sap, llc_ui}
use rstp.Vector.{BridgeId, PrioVector}
use rstp.Times.{TimeValues}
use rstp.Port.{Port, InfoIs, RcvdInfo, PortRole}
use rstp.Stpm.{Bridge, StpMode, Packet}
use rstp.Library.{port_find}
use rstp.Library.Config.{StpCfg}
use rstp.Library.PortConfig.{PortCfg}

-- STP_OUT_get_init_stpm_cfg and STP_OUT_get_init_port_cfg.
pub record InitCfg : Type 0 where
  pub get_init_stpm_cfg : ℕ → StpCfg
  pub get_init_port_cfg : ℕ → ℕ → PortCfg

-- `STP_state_mach_create`
abbrev pub begin_at : {S : Type 0} → S → StateMach S
begin_at s = record { state = s; change_state = false }

abbrev pub bridge_id_zero : BridgeId
bridge_id_zero = record { prio = 0; addr = 0 ∷ 0 ∷ 0 ∷ 0 ∷ 0 ∷ 0 ∷ [] }

abbrev pub vector_zero : PrioVector
vector_zero = record {
  root_bridge = bridge_id_zero;
  root_path_cost = 0;
  design_bridge = bridge_id_zero;
  design_port = 0;
  bridge_port = 0;
}

abbrev pub times_zero : TimeValues
times_zero = record { message_age = 0; max_age = 0; forward_delay = 0; hello_time = 0 }

-- `STP_port_create`, once it knows that the bridge has no such port.
unfoldable pub new_port : InitCfg → ℕ → ℕ → Port
new_port init vlan_id port_index =
    let cfg = init.get_init_port_cfg vlan_id port_index in
    record {
      receive = begin_at ReceiveState.begin;
      migrate = begin_at MigrateState.begin;
      brdgdet = begin_at BrdgdetState.begin;
      transmit = begin_at TransmitState.begin;
      info = begin_at InfoState.begin;
      roletrns = begin_at RoletrnsState.begin;
      sttrans = begin_at SttransState.begin;
      topoch = begin_at TopochState.begin;
      p2p = begin_at P2pState.begin;
      pcost = begin_at PcostState.begin;
      edge_delay_while = 0;
      fd_while = 0;
      hello_when = 0;
      mdelay_while = 0;
      rb_while = 0;
      rcvd_info_while = 0;
      rr_while = 0;
      tc_while = 0;
      tx_count = 0;
      agree = false;
      agreed = false;
      designated_priority = vector_zero;
      designated_times = times_zero;
      disputed = false;
      fbd_flush = false;
      forward = false;
      forwarding = false;
      info_is = InfoIs.mine;
      learn = false;
      learning = false;
      mcheck = false;
      msg_priority = vector_zero;
      msg_times = times_zero;
      new_info = false;
      oper_edge = false;
      port_enabled = false;
      port_id = (to_unsigned 16 cfg.port_priority * 256 + port_index) % 65536;
      port_priority = vector_zero;
      port_times = times_zero;
      proposed = false;
      proposing = false;
      rcvd_bpdu = false;
      rcvd_info = RcvdInfo.superior_designated_info;
      rcvd_msg = false;
      rcvd_rstp = false;
      rcvd_stp = false;
      rcvd_tc = false;
      rcvd_tc_ack = false;
      rcvd_tcn = false;
      re_root = false;
      reselect = false;
      role = PortRole.disabled_port;
      selected = false;
      selected_role = PortRole.disabled_port;
      send_rstp = false;
      sync = false;
      synced = false;
      tc_ack = false;
      tc_prop = false;
      updt_info = false;
      msg_bpdu_version = 0;
      msg_bpdu_type = 0;
      msg_port_role = 0;
      msg_flags = 0;
      admin_pcost = cfg.admin_port_path_cost;
      oper_pcost = 0;
      oper_speed = 0;
      used_speed = 0;
      admin_edge_port = cfg.admin_edge;
      auto_edge_port = false;
      admin_enable = false;
      was_init_bpdu = false;
      admin_non_stp = cfg.admin_non_stp;
      p2p_recompute = false;
      oper_point_to_point_mac = false;
      admin_point_to_point_mac = cfg.admin_point2point;
      rx_cfg_bpdu_cnt = 0;
      rx_rstp_bpdu_cnt = 0;
      rx_tcn_bpdu_cnt = 0;
      uptime = 0;
      port_index = port_index;
      skip_rx = 0;
      skip_tx = 0;
    }

-- `STP_port_create`; `none` if the port has just been added.
unfoldable pub port_create : InitCfg → ℕ → Bridge → Option Bridge
unfolding port_find new_port
port_create init port_index this = elim (port_find port_index this.ports) [
  | none ↦ some (record this { ports = new_port init this.stpm.vlan_id port_index ∷ this.ports })
  | some port ↦ none
]

-- `bpdu_packet` of transmit.c as the program starts; the bridges of the model have one each.
abbrev pub bpdu_packet_zero : Packet
bpdu_packet_zero = record {
  src_mac = 0 ∷ 0 ∷ 0 ∷ 0 ∷ 0 ∷ 0 ∷ [];
  bpdu = record {
    eth = record { len8023 = 0 ∷ 0 ∷ []; dsap = bpdu_l_sap; ssap = bpdu_l_sap; llc = llc_ui };
    hdr = record { protocol = 0 ∷ 0 ∷ []; version = 0; bpdu_type = 0 };
    body = record {
      flags = 0;
      root_id = 0 ∷ 0 ∷ 0 ∷ 0 ∷ 0 ∷ 0 ∷ 0 ∷ 0 ∷ [];
      root_path_cost = 0 ∷ 0 ∷ 0 ∷ 0 ∷ [];
      bridge_id = 0 ∷ 0 ∷ 0 ∷ 0 ∷ 0 ∷ 0 ∷ 0 ∷ 0 ∷ [];
      port_id = 0 ∷ 0 ∷ [];
      message_age = 0 ∷ 0 ∷ [];
      max_age = 0 ∷ 0 ∷ [];
      hello_time = 0 ∷ 0 ∷ [];
      forward_delay = 0 ∷ 0 ∷ [];
    };
    ver_1_len = 0 ∷ 0 ∷ [];
  };
}

-- `STP_stpm_create`
unfoldable pub stpm_create : ℕ → Bridge
stpm_create vlan_id = record {
  stpm = record {
    rolesel = begin_at RoleselState.begin;
    force_version = 0;
    bridge_identifier = bridge_id_zero;
    bridge_times = times_zero;
    root_port_id = 0;
    root_priority = vector_zero;
    root_times = times_zero;
    rstp_version = false;
    stp_version = false;
    vlan_id = vlan_id;
    admin_state = StpMode.stp_disabled;
    time_since_topology_change = 0;
    topology_change_count = 0;
    topology_change = false;
    bpdu_packet = bpdu_packet_zero;
    effects = [];
  };
  ports = [];
}

-- `BitmapGetBit` of bitmap.h: `1 << n` is an `int`, so n is below 31.
abbrev get_bit : ℕ → ℕ → Bool
get_bit port_bmp n = port_bmp / 2 ^ n % 2 == 1

-- The loop of `stp_in_stpm_create` over `left` ports, from `port_index`.
unfoldable pub create_ports : InitCfg → ℕ → ℕ → ℕ → Bridge → Option Bridge
unfolding port_create
create_ports init port_bmp zero port_index this = some this
create_ports init port_bmp (suc left) port_index this =
    (if get_bit port_bmp (port_index - 1) then port_create init port_index this else some this)
    >>= create_ports init port_bmp left (port_index + 1)
