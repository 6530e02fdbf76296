-- ===== src/Stpm.antt =====
-- rstplib/stpm.h: `STPM_T`, the bridge, and what it shares with its environment.
-- The list `ports` stands beside the bridge: in a `Bridge`, or in a `Site` where one port's machine
-- runs. Left out: `next` and `machines`, `name`, `BridgePriority`, which no code reads.
use rstp.Prelude.{ℕ, Bool, List, map}
use rstp.StateMach.{StateMach}
use rstp.States.{RoleselState}
use rstp.Bpdu.{Bpdu}
use rstp.Vector.{BridgeId, PrioVector}
use rstp.Times.{TimeValues}
use rstp.Port.{Port}

-- What the library reads through the STP_OUT functions of rstplib/stp_to.h, by port index. They
-- ask the kernel (bridge_track.c), so their values are a parameter of the model.
pub record StpOut : Type 0 where
  pub get_port_mac : ℕ → List ℕ
  pub get_port_oper_speed : ℕ → ℕ
  pub get_port_link_status : ℕ → Bool
  pub get_duplex : ℕ → Bool

-- The frame buffer of rstplib/transmit.c.
pub record Packet : Type 0 where
  pub src_mac : List ℕ
  pub bpdu : Bpdu

-- The calls that change the outside, oldest first, each with its port index.
pub data Effect : Type 0 where
  set_learning : ℕ → Bool → Effect
  set_forwarding : ℕ → Bool → Effect
  tx_bpdu : ℕ → Packet → ℕ → Effect

-- `UID_STP_MODE_T` of rstplib/uid_stp.h.
pub data StpMode : Type 0 where
  stp_disabled stp_enabled : StpMode

pub record Stpm : Type 0 where
  pub rolesel : StateMach RoleselState
  pub force_version : ℕ
  pub bridge_identifier : BridgeId
  pub bridge_times : TimeValues
  pub root_port_id : ℕ  -- unsigned short
  pub root_priority : PrioVector
  pub root_times : TimeValues
  pub rstp_version : Bool
  pub stp_version : Bool
  pub vlan_id : ℕ
  pub admin_state : StpMode
  pub time_since_topology_change : ℕ  -- unsigned long
  pub topology_change_count : ℕ  -- unsigned long
  pub topology_change : Bool
  -- the globals of transmit.c and the calls made so far
  pub bpdu_packet : Packet
  pub effects : List Effect

pub record Bridge : Type 0 where
  pub stpm : Stpm
  pub ports : List Port

-- The list of ports at `port`: `before` are the ports ahead of it, the nearest first.
pub record Site : Type 0 where
  pub stpm : Stpm
  pub before : List Port
  pub port : Port
  pub after : List Port

abbrev pub on_port : (Port → Port) → Site → Site
on_port f w = record w { port = f w.port }

-- `for (port = stpm->ports; port; port = port->next) f (port);`
abbrev pub on_ports : (Port → Port) → Site → Site
on_ports f w = record w { before = map f w.before; port = f w.port; after = map f w.after }

abbrev pub normal_rstp : ℕ
normal_rstp = 2

abbrev pub tx_hold_count : ℕ
tx_hold_count = 6
