-- ===== src/Transmit.antt =====
-- rstplib/transmit.c: the Port Transmit machine (17.26). STP_DBG is set in rstplib/Makefile.
use rstp.Prelude.{
  ℕ, ◌+◌, ◌-◌, ◌*◌, Bool, true, false, ◌&&◌, ◌||◌, not, Option, none, some, if◌then◌else◌, ◌==◌,
  ltb, [], ◌∷◌, ◌++◌,
}
use rstp.StateMach.{Concrete}
use rstp.States.{TransmitState}
use rstp.Bpdu.{
  Bpdu, bpdu_topo_change_type, bpdu_config_type, bpdu_rstp, bpdu_version_id, bpdu_version_rapid_id,
  rstp_port_role_unkn, rstp_port_role_altback, rstp_port_role_root, rstp_port_role_desgn,
}
use rstp.Vector.{set_short, set_vector}
use rstp.Times.{set_times}
use rstp.Port.{Port, PortRole}
use rstp.Stpm.{Site, Stpm, StpOut, Packet, Effect, on_port, tx_hold_count}
pub mod Settles

-- sizeof (BPDU_HEADER_T) and sizeof (BPDU_BODY_T)
abbrev pub sizeof_header : ℕ
sizeof_header = 4

abbrev pub sizeof_body : ℕ
sizeof_body = 31

module _ (out : StpOut) where
  -- The new buffer; the length that the C function returns is its third argument.
  unfoldable pub build_bpdu_header : ℕ → ℕ → ℕ → Packet → Packet
  unfolding set_short
  build_bpdu_header port_index bpdu_type pkt_len packet =
      let bpdu = packet.bpdu in
      let eth = bpdu.eth in
      let hdr = bpdu.hdr in
      record {
        src_mac = out.get_port_mac port_index;
        bpdu = record bpdu {
          eth = record eth { len8023 = set_short (pkt_len + 3) };
          hdr = record hdr {
            bpdu_type = bpdu_type;
            version = if bpdu_type == bpdu_rstp then bpdu_version_rapid_id else bpdu_version_id;
          };
        };
      }

abbrev pub bit_if : Bool → ℕ → ℕ
bit_if b n = if b then n else 0

-- The flags start at 0 and each `|=` sets a bit of its own, so the union is a sum.
unfoldable pub build_config_bpdu : Port → Bool → Packet → Packet
unfolding set_vector set_times
build_config_bpdu port set_topo_ack_flag packet =
    let bpdu = packet.bpdu in
    let body = bpdu.body in
    let flagged = record body {
      flags =
          bit_if (not (port.tc_while == 0)) 0x01 + bit_if (set_topo_ack_flag && port.tc_ack) 0x80;
    } in
    record packet {
      bpdu = record bpdu {
        body = set_times port.port_times (set_vector port.port_priority flagged);
      };
    }

abbrev pub encode_role : PortRole → ℕ
encode_role PortRole.disabled_port = rstp_port_role_unkn
encode_role PortRole.alternate_port = rstp_port_role_altback
encode_role PortRole.backup_port = rstp_port_role_altback
encode_role PortRole.root_port = rstp_port_role_root
encode_role PortRole.designated_port = rstp_port_role_desgn
encode_role PortRole.non_stp_port = rstp_port_role_unkn

-- The flags that `txRstp` adds to those of `build_config_bpdu`.
unfoldable pub rstp_flags : Port → ℕ
rstp_flags port =
    encode_role port.selected_role * 4
    + bit_if port.forwarding 0x20
    + bit_if port.learning 0x10
    + bit_if port.synced 0x40
    + bit_if port.proposing 0x02

abbrev add_flags : ℕ → Packet → Packet
add_flags n packet =
    let bpdu = packet.bpdu in
    let body = bpdu.body in
    record packet { bpdu = record bpdu { body = record body { flags = body.flags + n } } }

-- STP_OUT_tx_bpdu of the first `pkt_len` bytes behind the Ethernet header; the buffer is kept.
abbrev send : Packet → ℕ → Site → Site
send packet pkt_len w =
    let stpm = w.stpm in
    record w {
      stpm = record stpm {
        bpdu_packet = packet;
        effects = stpm.effects ++ (Effect.tx_bpdu w.port.port_index packet pkt_len ∷ []);
      };
    }

-- What the three `tx` functions share: frames are skipped for debugging, or on a port that does
-- not take part. Their return values are not read.
abbrev unless_skipped : (Site → Site) → Site → Site
unless_skipped tx w =
    let port = w.port in
    if ltb 0 port.skip_tx
    then record w { port = record port { skip_tx = port.skip_tx - 1 } }
    else if port.admin_non_stp
    then w
    else tx w

module _ (out : StpOut) where
  unfoldable pub tx_tcn : Site → Site
  unfolding build_bpdu_header
  tx_tcn w =
      unless_skipped
        (λ w.
          send
            (build_bpdu_header out w.port.port_index bpdu_topo_change_type sizeof_header
              w.stpm.bpdu_packet)
            sizeof_header w)
        w

  unfoldable pub tx_config : Site → Site
  unfolding build_bpdu_header build_config_bpdu
  tx_config w =
      unless_skipped
        (λ w.
          let pkt_len = sizeof_header + sizeof_body in
          send
            (build_config_bpdu w.port true
              (build_bpdu_header out w.port.port_index bpdu_config_type pkt_len w.stpm.bpdu_packet))
            pkt_len w)
        w

  unfoldable pub tx_rstp : Site → Site
  unfolding build_bpdu_header build_config_bpdu rstp_flags
  tx_rstp w =
      unless_skipped
        (λ w.
          let pkt_len = sizeof_header + sizeof_body + 1 in
          send
            (add_flags (rstp_flags w.port) (
              build_config_bpdu w.port false
                (build_bpdu_header out w.port.port_index bpdu_rstp pkt_len w.stpm.bpdu_packet)))
            pkt_len w)
        w

abbrev pub clear_new_info : Port → Port
clear_new_info port = record port { new_info = false }

abbrev initialise : Port → Port
initialise port = record port { new_info = true; tx_count = 0 }

abbrev pub is_designated : PortRole → Bool
is_designated PortRole.designated_port = true
is_designated _ = false

abbrev pub is_root : PortRole → Bool
is_root PortRole.root_port = true
is_root _ = false

-- `txCount` is an `unsigned int` that stays at most TxHoldCount while it counts here.
unfoldable pub enter_site : StpOut → TransmitState → Site → Site
unfolding tx_tcn tx_config tx_rstp
enter_site out TransmitState.begin w = on_port initialise w
enter_site out TransmitState.transmit_init w = on_port initialise w
enter_site out TransmitState.transmit_periodic w =
    on_port
      (λ port. record port {
        new_info =
            port.new_info
            || is_designated port.role
            || is_root port.role && not (port.tc_while == 0);
      })
      w
enter_site out TransmitState.idle w =
    on_port (λ port. record port { hello_when = w.stpm.root_times.hello_time }) w
enter_site out TransmitState.transmit_rstp w =
    on_port (λ port. record port { tx_count = port.tx_count + 1; tc_ack = false })
      (tx_rstp out (on_port clear_new_info w))
enter_site out TransmitState.transmit_tcn w =
    on_port (λ port. record port { tx_count = port.tx_count + 1 })
      (tx_tcn out (on_port clear_new_info w))
enter_site out TransmitState.transmit_config w =
    on_port (λ port. record port { tx_count = port.tx_count + 1; tc_ack = false })
      (tx_config out (on_port clear_new_info w))

-- The tests of IDLE, below `port->selected && !port->updtInfo`.
check_idle : Port → Option TransmitState
check_idle port =
    if port.hello_when == 0
    then some TransmitState.transmit_periodic
    else if not port.send_rstp
        && port.new_info
        && ltb port.tx_count tx_hold_count
        && is_designated port.role
        && not (port.hello_when == 0)
    then some TransmitState.transmit_config
    else if not port.send_rstp
        && port.new_info
        && ltb port.tx_count tx_hold_count
        && is_root port.role
        && not (port.hello_when == 0)
    then some TransmitState.transmit_tcn
    else if port.send_rstp
        && port.new_info
        && ltb port.tx_count tx_hold_count
        && not (port.hello_when == 0)
    then some TransmitState.transmit_rstp
    else none

unfoldable pub check_port : TransmitState → Port → Option TransmitState
unfolding check_idle
check_port TransmitState.begin port = some TransmitState.transmit_init
check_port TransmitState.transmit_init port = some TransmitState.idle
check_port TransmitState.transmit_periodic port = some TransmitState.idle
check_port TransmitState.transmit_tcn port = some TransmitState.idle
check_port TransmitState.transmit_rstp port = some TransmitState.idle
check_port TransmitState.transmit_config port = some TransmitState.idle
check_port TransmitState.idle port =
    if port.selected && not port.updt_info then check_idle port else none

unfoldable pub machine : StpOut → Concrete Site TransmitState
unfolding enter_site check_port
machine out = record { enter_state = enter_site out; check_conditions = λ s w. check_port s w.port }
