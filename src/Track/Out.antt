-- ===== src/Track/Out.antt =====
-- bridge_track.c: the STP_OUT functions, which serve the library while a bridge is current.
use rstp.Prelude.{
  ℕ, Bool, false, not, ◌&&◌, Option, none, some, if◌then◌else◌, ◌==◌, ◌+◌, List, [], ◌∷◌, ℤ, pos,
  pos_part, neg_part,
}
use rstp.Port.{AdminP2p}
use rstp.Stpm.{StpOut, Effect, Packet, StpMode}
use rstp.Library.Config.{StpCfg}
use rstp.Library.PortConfig.{PortCfg}
use rstp.Library.Create.{InitCfg}
use rstp.Track.{Kernel, IfData, Name}

abbrev pub eq_ℤ : ℤ → ℤ → Bool
eq_ℤ a b = pos_part a == pos_part b && neg_part a == neg_part b

-- BR_STATE_BLOCKING, BR_STATE_LEARNING and BR_STATE_FORWARDING of linux/if_bridge.h.
pub data BrState : Type 0 where
  blocking learning forwarding : BrState

-- `LT_FLASH_TYPE_T` of rstplib/stp_to.h.
pub data FlashType : Type 0 where
  only_the_port all_ports_exclude_this : FlashType

-- A call to the kernel, with the interface: `bridge_set_state`, `packet_send` and `flush_port`.
pub data KernelCall : Type 0 where
  set_state : ℕ → BrState → KernelCall
  packet_send : ℕ → Packet → ℕ → KernelCall
  flush_port : Name → KernelCall
  flush_bridge : Name → KernelCall

abbrev no_port_cfg : PortCfg
no_port_cfg = record {
  field_mask = 0;
  port_priority = pos 0;
  admin_port_path_cost = 0;
  admin_point2point = AdminP2p.p2p_force_true;
  admin_edge = false;
  admin_non_stp = false;
  skip_rx = 0;
  skip_tx = 0;
}

module _ {I : Type 0} where
  unfoldable pub find_port : ℤ → List (IfData I) → Option (IfData I)
  find_port port_index [] = none
  find_port port_index (p ∷ rest) =
      let later = find_port port_index rest in
      if eq_ℤ p.port_index port_index then some p else later

  -- A value of the port of that index, or what is returned without one.
  abbrev pub of_port : {A : Type 0} → A → (IfData I → A) → List (IfData I) → ℕ → A
  unfolding find_port
  of_port other f ports port_index = elim (find_port (pos port_index) ports) [
    | none ↦ other
    | some port ↦ f port
  ]

  -- What the library reads of the ports; without the port `STP_OUT_get_port_mac` leaves `mac` as it
  -- is, which the model takes for no bytes. STP_OUT_get_port_mac, STP_OUT_get_port_oper_speed,
  -- STP_OUT_get_port_link_status and STP_OUT_get_duplex.
  unfoldable pub out_of : Kernel → List (IfData I) → StpOut
  unfolding of_port
  out_of kernel ports = record {
    get_port_mac = of_port [] (λ port. kernel.get_hwaddr port.name) ports;
    get_port_oper_speed = of_port 0 (λ port. port.speed) ports;
    get_port_link_status = of_port false (λ port. port.up) ports;
    get_duplex = of_port false (λ port. not (port.duplex == 0)) ports;
  }

  -- STP_OUT_get_init_stpm_cfg, which fills in five fields.
  unfoldable pub get_init_stpm_cfg : IfData I → StpCfg
  get_init_stpm_cfg br = record {
    field_mask = 0;
    stp_enabled = StpMode.stp_disabled;
    bridge_priority = br.bridge_priority;
    max_age = br.max_age;
    hello_time = br.hello_time;
    forward_delay = br.forward_delay;
    force_version = br.force_version;
  }

  -- STP_OUT_get_init_port_cfg, which fills in five fields of a port that it finds.
  unfoldable pub get_init_port_cfg : List (IfData I) → ℕ → PortCfg
  unfolding of_port
  get_init_port_cfg ports port_index =
      of_port no_port_cfg
        (λ port. record no_port_cfg {
          port_priority = port.port_priority;
          admin_non_stp = port.admin_non_stp;
          admin_edge = port.admin_edge;
          admin_port_path_cost = port.admin_port_path_cost;
          admin_point2point = port.admin_point2point;
        })
        ports port_index

  unfoldable pub init_of : IfData I → List (IfData I) → InitCfg
  unfolding get_init_stpm_cfg get_init_port_cfg
  init_of br ports = record {
    get_init_stpm_cfg = λ vlan_id. get_init_stpm_cfg br;
    get_init_port_cfg = λ vlan_id. get_init_port_cfg ports;
  }

  -- STP_OUT_set_port_state, for vlan 0.
  unfoldable pub set_port_state : List (IfData I) → ℕ → BrState → List KernelCall
  unfolding of_port
  set_port_state ports port_index state =
      of_port [] (λ port. if port.up then KernelCall.set_state port.if_index state ∷ [] else [])
        ports port_index

  -- The calls that an effect of the library leads to: STP_OUT_set_learning, STP_OUT_set_forwarding,
  -- and STP_OUT_tx_bpdu, which sends nothing before `stp_up` is set. To the length the two headers
  -- are added.
  unfoldable pub serve : Bool → List (IfData I) → Effect → List KernelCall
  unfolding set_port_state of_port
  serve stp_up ports (Effect.set_learning port_index enable) =
      set_port_state ports port_index (if enable then BrState.learning else BrState.blocking)
  serve stp_up ports (Effect.set_forwarding port_index enable) =
      set_port_state ports port_index (if enable then BrState.forwarding else BrState.blocking)
  serve stp_up ports (Effect.tx_bpdu port_index packet bpdu_len) =
      of_port []
        (λ port.
          if stp_up
          then KernelCall.packet_send port.if_index packet (bpdu_len + 12 + 5) ∷ []
          else [])
        ports port_index

  -- The loop of STP_OUT_flush_lt over the other ports.
  unfoldable pub flush_others : ℕ → List (IfData I) → List KernelCall
  flush_others port_index [] = []
  flush_others port_index (port ∷ rest) =
      let later = flush_others port_index rest in
      if eq_ℤ port.port_index (pos port_index)
      then later
      else KernelCall.flush_port port.name ∷ later

  -- STP_OUT_flush_lt, for vlan 0.
  unfoldable pub flush_lt : IfData I → List (IfData I) → ℕ → FlashType → List KernelCall
  unfolding of_port flush_others
  flush_lt br ports port_index FlashType.only_the_port =
      if port_index == 0
      then KernelCall.flush_bridge br.name ∷ []
      else of_port [] (λ port. KernelCall.flush_port port.name ∷ []) ports port_index
  flush_lt br ports port_index FlashType.all_ports_exclude_this =
      if port_index == 0
      then KernelCall.flush_bridge br.name ∷ []
      else flush_others port_index ports
