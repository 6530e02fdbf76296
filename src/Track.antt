-- ===== src/Track.antt =====
-- bridge_track.c: the interfaces that the daemon knows, and what it asks the kernel and the library.
use rstp.Prelude.{
  ℕ, Bool, true, false, not, ◌&&◌, Option, none, some, if◌then◌else◌, ◌==◌, List, [], ◌∷◌, map, ℤ,
  pos, negsuc,
}
use rstp.Bpdu.{Bpdu, bit}
use rstp.Vector.{BridgeId}
use rstp.Port.{AdminP2p}
use rstp.Stpm.{StpOut}
use rstp.Library.{StpError}
use rstp.Library.Config.{
  StpCfg, br_cfg_prio, br_cfg_age, br_cfg_hello, br_cfg_delay, br_cfg_force_ver,
}
use rstp.Library.PortConfig.{
  PortCfg, pt_cfg_prio, pt_cfg_non_stp, pt_cfg_edge, pt_cfg_cost, pt_cfg_p2p,
}
use rstp.Library.Create.{InitCfg, bridge_id_zero}
use rstp.Library.State.{UidStpState, UidPortState}
pub mod Out
pub mod Stp
pub mod Links
pub mod Notify
pub mod Frames
pub mod Commands
pub mod Show
pub mod Indices
pub mod Handle
pub mod Distinct
pub mod Known
pub mod Served
pub mod Notified
pub mod Invariant
pub mod Reached
pub mod Sends
pub mod Implementation

-- The characters of a name.
abbrev pub Name : Type 0
Name = List ℕ

-- What the daemon asks the kernel (netif_utils.c and brstate.c), at one moment. `get_port_mac` is
-- `get_hwaddr`; `ethtool_get_speed_duplex` gives what the two variables hold after the call, and
-- `stp_state` what sysfs says of the bridge, if it can be read.
pub record Kernel : Type 0 where
  pub if_indextoname : ℕ → Option Name
  pub is_bridge : Name → Bool
  pub is_bridge_slave : Name → Name → Bool
  pub get_bridge_portno : Name → ℤ
  pub get_hwaddr : Name → List ℕ
  pub ethtool_get_speed_duplex : Name → ℤ × ℤ
  pub stp_state : Name → Option ℕ
  -- the two bytes of an `unsigned short` in memory
  pub short_bytes : ℕ → List ℕ

-- The library as the daemon uses it, for its one vlan. A port has an `int` for its index; `none` is
-- a call that does not return within its bounds.
pub record Rstp : Type 1 where
  pub Instance : Type 0
  pub instance_create : Instance
  pub stpm_create : StpOut → InitCfg → Instance → Option (StpError × Instance)
  pub port_create : StpOut → InitCfg → ℤ → Instance → Option (StpError × Instance)
  pub port_delete : StpOut → InitCfg → ℤ → Instance → Option (StpError × Instance)
  pub changed_port_speed : ℤ → ℕ → Instance → Instance
  pub changed_port_duplex : ℤ → Instance → Instance
  pub enable_port : StpOut → ℤ → Bool → Instance → Instance
  pub rx_bpdu : StpOut → ℤ → Bpdu → Instance → Option (StpError × Instance)
  pub one_second : StpOut → Instance → Option Instance
  pub stpm_set_cfg : StpOut → InitCfg → StpCfg → Instance → Option (StpError × Instance)
  pub set_port_cfg : StpOut → ℤ → PortCfg → Instance → Option (StpError × Instance)
  pub bridge_id : Instance → Option BridgeId
  pub stpm_get_cfg : StpCfg → Instance → StpError × StpCfg
  pub stpm_get_state : UidStpState → Instance → StpError × UidStpState
  pub port_get_cfg : ℤ → PortCfg → Instance → StpError × PortCfg
  pub port_get_state : UidPortState → Instance → StpError × UidPortState

-- `struct ifdata`: `next`, `bridge_next`, `port_list` and `port_next` are the lists below, and a
-- `master` is named by its index. Left out: `stp_enabled`, `hold_time` and `event`, which no code
-- reads.
pub record IfData (I : Type 0) : Type 0 where
  pub if_index : ℕ
  pub up : Bool
  pub name : Name
  pub is_bridge : Bool
  pub do_stp : Bool
  pub stp_up : Bool
  pub stp : Option I
  pub bridge_id : BridgeId
  pub bridge_priority : ℤ
  pub max_age : ℤ
  pub hello_time : ℤ
  pub forward_delay : ℤ
  pub force_version : ℤ
  pub speed : ℕ
  pub duplex : ℕ
  pub master : Option ℕ
  pub port_index : ℤ
  pub port_priority : ℤ
  pub admin_port_path_cost : ℕ
  pub admin_point2point : AdminP2p
  pub admin_edge : Bool
  pub admin_non_stp : Bool

-- The globals. An interface is put at the head of each of its lists, so `br_head` and the lists of
-- ports have the order of `if_head`.
pub record Tracker (I : Type 0) : Type 0 where
  pub stp_up : Bool
  pub if_head : List (IfData I)
  pub count : ℕ

module _ {I : Type 0} where
  unfoldable pub find_if : ℕ → List (IfData I) → Option (IfData I)
  find_if if_index [] = none
  find_if if_index (p ∷ rest) =
      let later = find_if if_index rest in if p.if_index == if_index then some p else later

  abbrev pub has_master : ℕ → IfData I → Bool
  has_master br_index p = elim p.master [ none ↦ false | some m ↦ m == br_index ]

  -- `br->port_list`
  unfoldable pub port_list : ℕ → List (IfData I) → List (IfData I)
  port_list br_index [] = []
  port_list br_index (p ∷ rest) =
      let later = port_list br_index rest in if has_master br_index p then p ∷ later else later

  -- `br_head`
  unfoldable pub br_head : List (IfData I) → List (IfData I)
  br_head [] = []
  br_head (p ∷ rest) = let later = br_head rest in if p.is_bridge then p ∷ later else later

  -- A write through a pointer to the interface of that index.
  unfoldable pub modify : ℕ → (IfData I → IfData I) → List (IfData I) → List (IfData I)
  modify if_index f [] = []
  modify if_index f (p ∷ rest) =
      let later = modify if_index f rest in if p.if_index == if_index then f p ∷ rest else p ∷ later

  -- REMOVE_FROM_LIST
  unfoldable pub remove_if : ℕ → List (IfData I) → List (IfData I)
  remove_if if_index [] = []
  remove_if if_index (p ∷ rest) =
      let later = remove_if if_index rest in if p.if_index == if_index then rest else p ∷ later

  unfoldable pub update_bridge_stp_config : StpCfg → IfData I → IfData I
  update_bridge_stp_config cfg br =
      let mask = cfg.field_mask in
      record br {
        bridge_priority = if br_cfg_prio mask then cfg.bridge_priority else br.bridge_priority;
        max_age = if br_cfg_age mask then cfg.max_age else br.max_age;
        hello_time = if br_cfg_hello mask then cfg.hello_time else br.hello_time;
        forward_delay = if br_cfg_delay mask then cfg.forward_delay else br.forward_delay;
        force_version = if br_cfg_force_ver mask then cfg.force_version else br.force_version;
      }

  unfoldable pub update_port_stp_config : PortCfg → IfData I → IfData I
  update_port_stp_config cfg ifc =
      let mask = cfg.field_mask in
      record ifc {
        port_priority = if pt_cfg_prio mask then cfg.port_priority else ifc.port_priority;
        admin_non_stp = if pt_cfg_non_stp mask then cfg.admin_non_stp else ifc.admin_non_stp;
        admin_edge = if pt_cfg_edge mask then cfg.admin_edge else ifc.admin_edge;
        admin_port_path_cost =
            if pt_cfg_cost mask then cfg.admin_port_path_cost else ifc.admin_port_path_cost;
        admin_point2point =
            if pt_cfg_p2p mask then cfg.admin_point2point else ifc.admin_point2point;
      }
