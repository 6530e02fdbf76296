-- ===== src/Exchange.antt =====
-- From txRstp (rstplib/transmit.c) to STP_info_rx_bpdu (rstplib/portinfo.c): what the port at the
-- other end of the link learns from an RST BPDU.
use rstp.Prelude.{ℕ, ◌+◌, ◌*◌, ◌≤◌, ◌<◌, ◌≡◌, Bool, true, false, not, ◌==◌, arith, ap, refl, leb}
use rstp.Bpdu.{
  port_role_of, proposal_bit, learn_bit, forward_bit, agreement_bit, topology_change_bit,
  topology_change_ack_bit, bpdu_version_rapid_id, bpdu_rstp,
}
use rstp.Vector.Wire.{FitsBpdu, get_vector-set_vector}
use rstp.Times.Laws.{FitsByte, get_times-set_times}
use rstp.Vector.{PrioVector, get_vector, set_vector}
use rstp.Times.{get_times, set_times}
use rstp.Port.{Port, PortRole}
use rstp.Stpm.{Stpm, Site, StpOut, normal_rstp}
use rstp.Transmit.{tx_rstp, rstp_flags, encode_role, bit_if}
use rstp.Info.{rx_bpdu}

-- The flags of an RST BPDU: the topology change, the role, forwarding, learning, agreement and
-- proposal. The acknowledgement adds 0.
abbrev flags_of : Bool → ℕ → Bool → Bool → Bool → Bool → ℕ
flags_of tc role forwarding learning agreement proposal =
    bit_if tc 0x01
    + 0
    + (role * 4
        + bit_if forwarding 0x20
        + bit_if learning 0x10
        + bit_if agreement 0x40
        + bit_if proposal 0x02)

-- The flags read back.
pub record Decodes (flags : ℕ) (tc : Bool) (role : ℕ)
    (forwarding learning agreement proposal : Bool) : Type 0 where
  pub role_bits : port_role_of flags ≡ role
  pub proposal_flag : proposal_bit flags ≡ proposal
  pub learn_flag : learn_bit flags ≡ learning
  pub forward_flag : forward_bit flags ≡ forwarding
  pub agreement_flag : agreement_bit flags ≡ agreement
  pub tc_flag : topology_change_bit flags ≡ tc
  pub tc_ack_flag : topology_change_ack_bit flags ≡ false

decode-flags_of :
    (tc : Bool) (role : ℕ) (f l a p : Bool)
    → role < 4
    → Decodes (flags_of tc role f l a p) tc role f l a p
decode-flags_of tc role f l a p h = record {
  role_bits = ground arith;
  proposal_flag = ground arith;
  learn_flag = ground arith;
  forward_flag = ground arith;
  agreement_flag = ground arith;
  tc_flag = ground arith;
  tc_ack_flag = ground arith;
}

encode_role-lt : (role : PortRole) → encode_role role < 4
encode_role-lt PortRole.disabled_port = omega arith
encode_role-lt _ = omega arith

rstp_forced : (version : ℕ) → 2 ≤ version → leb normal_rstp version ≡ true
rstp_forced version h = ground arith

-- What a port knows after the BPDU of the port `from`.
pub record Heard (from to heard : Port) : Type 0 where
  pub received : heard.rcvd_bpdu ≡ true
  pub rstp_version : heard.msg_bpdu_version ≡ bpdu_version_rapid_id
  pub rstp_type : heard.msg_bpdu_type ≡ bpdu_rstp
  pub priority :
      heard.msg_priority ≡ (let v = from.port_priority in record v { bridge_port = to.port_id })
  pub times : heard.msg_times ≡ from.port_times
  pub flags :
      Decodes heard.msg_flags
        (not (from.tc_while == 0))
        (encode_role from.selected_role)
        from.forwarding
        from.learning
        from.synced
        from.proposing

-- If `txRstp` sends (the port takes part and skips no frame), its vector and times fit the fields
-- of a BPDU, and the receiving port takes part in a bridge that runs RSTP, then
-- `STP_info_rx_bpdu` of the frame leaves at the receiver: the sender's port priority vector with
-- the receiver's own port as bridge port, the sender's port times, the RSTP version and type, and
-- flags that decode to the sender's selected role (`selectedRole`), forwarding, learning, synced and
-- proposing, with the topology change flag set exactly while `tcWhile` runs and no acknowledgement.
pub rx_bpdu-tx_rstp :
    (out : StpOut) (w : Site) (stpm : Stpm) (to : Port)
    → w.port.skip_tx ≡ 0
    → w.port.admin_non_stp ≡ false
    → FitsBpdu w.port.port_priority
    → FitsByte w.port.port_times
    → to.admin_non_stp ≡ false
    → 2 ≤ stpm.force_version
    → Heard w.port to (rx_bpdu stpm (tx_rstp out w).stpm.bpdu_packet.bpdu to)
unfolding tx_rstp rx_bpdu rstp_flags set_times set_vector get_vector get_times
rx_bpdu-tx_rstp out w stpm to k n fv ft m g =
    let body = w.stpm.bpdu_packet.bpdu.body in
    rw (k, n, m, rstp_forced stpm.force_version g)
      (record {
        received = refl;
        rstp_version = refl;
        rstp_type = refl;
        priority =
            ap (λ (v : PrioVector). record v { bridge_port = to.port_id })
              (get_vector-set_vector w.port.port_priority to.msg_priority body fv);
        times = get_times-set_times w.port.port_times body ft;
        flags =
            decode-flags_of (not (w.port.tc_while == 0)) (encode_role w.port.selected_role)
              w.port.forwarding w.port.learning w.port.synced w.port.proposing
              (encode_role-lt w.port.selected_role);
      })
