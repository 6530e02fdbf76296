-- ===== src/Tests/Data.antt =====
-- The concrete bridge of the witnesses: one port of rstplib/port.h on one bridge of rstplib/stpm.h.
use rstp.Prelude.{ℕ, [], ◌∷◌, true, false}
use rstp.StateMach.{StateMach}
use rstp.States.{
  ReceiveState, MigrateState, BrdgdetState, P2pState, PcostState, SttransState, TopochState,
  TransmitState, InfoState, RoletrnsState, RoleselState,
}
use rstp.Bpdu.{Bpdu, BpduBody}
use rstp.Vector.{BridgeId, PrioVector}
use rstp.Times.{TimeValues}
use rstp.Port.{Port, InfoIs, RcvdInfo, PortRole, AdminP2p}
use rstp.Stpm.{Stpm, Bridge, Site, StpOut, StpMode}

abbrev pub at_rest : {S : Type 0} → S → StateMach S
at_rest s = record { state = s; change_state = false }

abbrev pub bridge_id : ℕ → BridgeId
bridge_id prio = record { prio = prio; addr = 0 ∷ 1 ∷ 2 ∷ 3 ∷ 4 ∷ 5 ∷ [] }

-- What a neighbour of priority 4096 sends, at that cost to the root.
abbrev pub vector_of : ℕ → PrioVector
vector_of cost = record {
  root_bridge = bridge_id 4096;
  root_path_cost = cost;
  design_bridge = bridge_id 4096;
  design_port = 32769;
  bridge_port = 32770;
}

abbrev pub default_times : TimeValues
default_times = record { message_age = 0; max_age = 20; forward_delay = 15; hello_time = 2 }

-- A port that has received the neighbour's vector, the machines in the states after BEGIN.
abbrev pub a_port : Port
a_port = record {
  receive = at_rest ReceiveState.discard;
  migrate = at_rest MigrateState.begin;
  brdgdet = at_rest BrdgdetState.begin;
  transmit = at_rest TransmitState.begin;
  info = at_rest InfoState.begin;
  roletrns = at_rest RoletrnsState.begin;
  sttrans = at_rest SttransState.begin;
  topoch = at_rest TopochState.begin;
  p2p = at_rest P2pState.begin;
  pcost = at_rest PcostState.begin;
  edge_delay_while = 0;
  fd_while = 15;
  hello_when = 0;
  mdelay_while = 0;
  rb_while = 0;
  rcvd_info_while = 6;
  rr_while = 15;
  tc_while = 0;
  tx_count = 0;
  agree = false;
  agreed = false;
  designated_priority = vector_of 20;
  designated_times = default_times;
  disputed = false;
  fbd_flush = true;
  forward = true;
  forwarding = false;
  info_is = InfoIs.received;
  learn = true;
  learning = false;
  mcheck = false;
  msg_priority = vector_of 10;
  msg_times = default_times;
  new_info = true;
  oper_edge = false;
  port_enabled = true;
  port_id = 32770;
  port_priority = vector_of 10;
  port_times = default_times;
  proposed = true;
  proposing = false;
  rcvd_bpdu = true;
  rcvd_info = RcvdInfo.superior_designated_info;
  rcvd_msg = true;
  rcvd_rstp = true;
  rcvd_stp = false;
  rcvd_tc = false;
  rcvd_tc_ack = false;
  rcvd_tcn = false;
  re_root = false;
  reselect = true;
  role = PortRole.designated_port;
  selected = true;
  selected_role = PortRole.root_port;
  send_rstp = true;
  sync = true;
  synced = false;
  tc_ack = false;
  tc_prop = false;
  updt_info = false;
  msg_bpdu_version = 2;
  msg_bpdu_type = 2;
  msg_port_role = 3;
  msg_flags = 62;
  admin_pcost = 0;
  oper_pcost = 200000;
  oper_speed = 100;
  used_speed = 0;
  admin_edge_port = false;
  auto_edge_port = false;
  admin_enable = true;
  was_init_bpdu = false;
  admin_non_stp = false;
  p2p_recompute = true;
  oper_point_to_point_mac = true;
  admin_point_to_point_mac = AdminP2p.p2p_auto;
  rx_cfg_bpdu_cnt = 0;
  rx_rstp_bpdu_cnt = 0;
  rx_tcn_bpdu_cnt = 0;
  uptime = 0;
  port_index = 2;
  skip_rx = 0;
  skip_tx = 0;
}

abbrev pub blank_body : BpduBody
blank_body = record {
  flags = 0;
  root_id = [];
  root_path_cost = [];
  bridge_id = [];
  port_id = [];
  message_age = [];
  max_age = [];
  hello_time = [];
  forward_delay = [];
}

abbrev pub blank_bpdu : Bpdu
blank_bpdu = record {
  eth = record { len8023 = []; dsap = 0; ssap = 0; llc = 0 };
  hdr = record { protocol = []; version = 0; bpdu_type = 0 };
  body = blank_body;
  ver_1_len = [];
}

-- A bridge of priority 32768 that takes itself for the root.
abbrev pub stpm_of : TimeValues → Stpm
stpm_of times = record {
  rolesel = at_rest RoleselState.begin;
  force_version = 2;
  bridge_identifier = bridge_id 32768;
  bridge_times = default_times;
  root_port_id = 0;
  root_priority = record {
    root_bridge = bridge_id 32768;
    root_path_cost = 0;
    design_bridge = bridge_id 32768;
    design_port = 0;
    bridge_port = 0;
  };
  root_times = times;
  rstp_version = true;
  stp_version = false;
  vlan_id = 0;
  admin_state = StpMode.stp_enabled;
  time_since_topology_change = 0;
  topology_change_count = 0;
  topology_change = false;
  bpdu_packet = record { src_mac = []; bpdu = blank_bpdu };
  effects = [];
}

abbrev pub a_site : Site
a_site = record { stpm = stpm_of default_times; before = []; port = a_port; after = [] }

-- The same where the root has announced no hello time.
abbrev pub restless_site : Site
restless_site =
    let no_hello = record default_times { hello_time = 0 } in
    record a_site { stpm = stpm_of no_hello }

abbrev pub a_bridge : Bridge
a_bridge = record { stpm = stpm_of default_times; ports = a_port ∷ [] }

-- An environment where every link is up.
abbrev pub an_out : StpOut
an_out = record {
  get_port_mac = λ i. 0 ∷ 1 ∷ 2 ∷ 3 ∷ 4 ∷ i ∷ [];
  get_port_oper_speed = λ i. 100;
  get_port_link_status = λ i. true;
  get_duplex = λ i. true;
}
