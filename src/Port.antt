-- ===== src/Port.antt =====
-- rstplib/port.h: `PORT_T`. A timer is an `unsigned int`, a `Bool` a truth value.
-- Left out: `next` and `owner` (a port stands in the list of its bridge), `port_name`, the list of
-- timers (`tick` of Start.antt goes through the nine fields), and the fields that no code
-- reads: `ageingTime`, `LinkDelay`, `PortPathCost`, `tc`, `tick`.
use rstp.Prelude.{ℕ, Bool}
use rstp.StateMach.{StateMach}
use rstp.Vector.{PrioVector}
use rstp.Times.{TimeValues}
use rstp.States.{
  ReceiveState, MigrateState, BrdgdetState, P2pState, PcostState, SttransState, TopochState,
  TransmitState, InfoState, RoletrnsState,
}

pub data InfoIs : Type 0 where
  mine aged received disabled : InfoIs

pub data RcvdInfo : Type 0 where
  superior_designated_info repeated_designated_info inferior_designated_info : RcvdInfo
  inferior_root_alternate_info other_info : RcvdInfo

pub data PortRole : Type 0 where
  disabled_port alternate_port backup_port root_port designated_port non_stp_port : PortRole

-- `ADMIN_P2P_T` of rstplib/uid_stp.h.
pub data AdminP2p : Type 0 where
  p2p_force_true p2p_force_false p2p_auto : AdminP2p

pub record Port : Type 0 where
  pub receive : StateMach ReceiveState
  pub migrate : StateMach MigrateState
  pub brdgdet : StateMach BrdgdetState
  pub transmit : StateMach TransmitState
  pub info : StateMach InfoState
  pub roletrns : StateMach RoletrnsState
  pub sttrans : StateMach SttransState
  pub topoch : StateMach TopochState
  pub p2p : StateMach P2pState
  pub pcost : StateMach PcostState
  pub edge_delay_while : ℕ
  pub fd_while : ℕ
  pub hello_when : ℕ
  pub mdelay_while : ℕ
  pub rb_while : ℕ
  pub rcvd_info_while : ℕ
  pub rr_while : ℕ
  pub tc_while : ℕ
  pub tx_count : ℕ
  pub agree : Bool
  pub agreed : Bool
  pub designated_priority : PrioVector
  pub designated_times : TimeValues
  pub disputed : Bool
  pub fbd_flush : Bool
  pub forward : Bool
  pub forwarding : Bool
  pub info_is : InfoIs
  pub learn : Bool
  pub learning : Bool
  pub mcheck : Bool
  pub msg_priority : PrioVector
  pub msg_times : TimeValues
  pub new_info : Bool
  pub oper_edge : Bool
  pub port_enabled : Bool
  pub port_id : ℕ  -- unsigned short
  pub port_priority : PrioVector
  pub port_times : TimeValues
  pub proposed : Bool
  pub proposing : Bool
  pub rcvd_bpdu : Bool
  pub rcvd_info : RcvdInfo
  pub rcvd_msg : Bool
  pub rcvd_rstp : Bool
  pub rcvd_stp : Bool
  pub rcvd_tc : Bool
  pub rcvd_tc_ack : Bool
  pub rcvd_tcn : Bool
  pub re_root : Bool
  pub reselect : Bool
  pub role : PortRole
  pub selected : Bool
  pub selected_role : PortRole
  pub send_rstp : Bool
  pub sync : Bool
  pub synced : Bool
  pub tc_ack : Bool
  pub tc_prop : Bool
  pub updt_info : Bool
  pub msg_bpdu_version : ℕ  -- unsigned char
  pub msg_bpdu_type : ℕ  -- unsigned char
  pub msg_port_role : ℕ  -- unsigned char
  pub msg_flags : ℕ  -- unsigned char
  pub admin_pcost : ℕ  -- unsigned long
  pub oper_pcost : ℕ  -- unsigned long
  pub oper_speed : ℕ  -- unsigned long
  pub used_speed : ℕ  -- unsigned long
  pub admin_edge_port : Bool
  pub auto_edge_port : Bool
  pub admin_enable : Bool
  pub was_init_bpdu : Bool
  pub admin_non_stp : Bool
  pub p2p_recompute : Bool
  pub oper_point_to_point_mac : Bool
  pub admin_point_to_point_mac : AdminP2p
  pub rx_cfg_bpdu_cnt : ℕ  -- unsigned long
  pub rx_rstp_bpdu_cnt : ℕ  -- unsigned long
  pub rx_tcn_bpdu_cnt : ℕ  -- unsigned long
  pub uptime : ℕ  -- unsigned long
  pub port_index : ℕ
  pub skip_rx : ℕ  -- STP_DBG is set in rstplib/Makefile
  pub skip_tx : ℕ

-- MigrateTime of rstplib/migrate.h.
abbrev pub migrate_time : ℕ
migrate_time = 3
