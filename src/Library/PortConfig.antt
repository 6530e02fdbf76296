-- ===== src/Library/PortConfig.antt =====
-- rstplib/uid_stp.h and stp_in.c: the configuration of a port.
use rstp.Prelude.{
  ℕ, ◌+◌, ◌*◌, ◌/◌, ◌%◌, Bool, true, false, ◌&&◌, not, if◌then◌else◌, ◌==◌, ltb, leb, ℤ, pos,
  pos_part, ltb_ℤ,
}
use rstp.Bpdu.{bit}
use rstp.Port.{Port, AdminP2p}
use rstp.Stpm.{Stpm, normal_rstp}
use rstp.Library.{
  StpError, stp_ok, is_ok, stp_small_port_priority, stp_large_port_priority,
  stp_port_priority_not_a_multiple_of_16, stp_large_port_pcost,
}
pub mod Refused

-- `UID_STP_PORT_CFG_T`, without the name and the bitmap.
pub record PortCfg : Type 0 where
  pub field_mask : ℕ
  pub port_priority : ℤ
  pub admin_port_path_cost : ℕ
  pub admin_point2point : AdminP2p
  pub admin_edge : Bool
  pub admin_non_stp : Bool
  pub skip_rx : ℕ
  pub skip_tx : ℕ

-- The bits of the mask.
abbrev pub pt_cfg_cost : ℕ → Bool
pt_cfg_cost = bit 1

abbrev pub pt_cfg_prio : ℕ → Bool
pt_cfg_prio = bit 2

abbrev pub pt_cfg_p2p : ℕ → Bool
pt_cfg_p2p = bit 3

abbrev pub pt_cfg_edge : ℕ → Bool
pt_cfg_edge = bit 4

abbrev pub pt_cfg_mcheck : ℕ → Bool
pt_cfg_mcheck = bit 5

abbrev pub pt_cfg_non_stp : ℕ → Bool
pt_cfg_non_stp = bit 6

abbrev pub pt_cfg_dbg_skip_rx : ℕ → Bool
pt_cfg_dbg_skip_rx = bit 16

abbrev pub pt_cfg_dbg_skip_tx : ℕ → Bool
pt_cfg_dbg_skip_tx = bit 17

-- `PT_CFG_MCHECK`
unfoldable pub cfg_mcheck : Stpm → PortCfg → Port → Port
cfg_mcheck this cfg port =
    if pt_cfg_mcheck cfg.field_mask && leb normal_rstp this.force_version
    then record port { mcheck = true }
    else port

-- `PT_CFG_COST`: the limit is MAX_PORT_PCOST.
unfoldable pub cost_error : PortCfg → StpError
cost_error cfg =
    if pt_cfg_cost cfg.field_mask && ltb 200000000 cfg.admin_port_path_cost
    then stp_large_port_pcost
    else stp_ok

unfoldable pub cfg_cost : PortCfg → Port → Port
cfg_cost cfg port =
    if pt_cfg_cost cfg.field_mask
    then record port { admin_pcost = cfg.admin_port_path_cost }
    else port

-- `PT_CFG_PRIO`: at most 240, in steps of 16.
unfoldable pub prio_error : PortCfg → StpError
prio_error cfg =
    if not (pt_cfg_prio cfg.field_mask)
    then stp_ok
    else if ltb_ℤ cfg.port_priority (pos 0)
    then stp_small_port_priority
    else if ltb_ℤ (pos 240) cfg.port_priority
    then stp_large_port_priority
    else if not (pos_part cfg.port_priority % 16 == 0)
    then stp_port_priority_not_a_multiple_of_16
    else stp_ok

-- `portId` is an `unsigned short`.
unfoldable pub cfg_prio : ℕ → PortCfg → Port → Port
cfg_prio port_no cfg port =
    if pt_cfg_prio cfg.field_mask
    then record port { port_id = (pos_part cfg.port_priority * 256 + port_no) % 65536 }
    else port

unfoldable pub cfg_p2p : PortCfg → Port → Port
cfg_p2p cfg port =
    if pt_cfg_p2p cfg.field_mask
    then record port { admin_point_to_point_mac = cfg.admin_point2point; p2p_recompute = true }
    else port

unfoldable pub cfg_edge : PortCfg → Port → Port
cfg_edge cfg port =
    if pt_cfg_edge cfg.field_mask
    then record port { admin_edge_port = cfg.admin_edge; oper_edge = cfg.admin_edge }
    else port

unfoldable pub cfg_non_stp : PortCfg → Port → Port
cfg_non_stp cfg port =
    if pt_cfg_non_stp cfg.field_mask
    then record port { admin_non_stp = cfg.admin_non_stp }
    else port

unfoldable pub cfg_skip : PortCfg → Port → Port
cfg_skip cfg port = record port {
  skip_rx = if pt_cfg_dbg_skip_rx cfg.field_mask then cfg.skip_rx else port.skip_rx;
  skip_tx = if pt_cfg_dbg_skip_tx cfg.field_mask then cfg.skip_tx else port.skip_tx;
}

-- The fields behind the last check.
unfoldable pub cfg_rest : PortCfg → Port → Port
unfolding cfg_p2p cfg_edge cfg_non_stp cfg_skip
cfg_rest cfg port =
    let set = cfg_skip cfg (cfg_non_stp cfg (cfg_edge cfg (cfg_p2p cfg port))) in
    record set { reselect = true; selected = false }

-- The body of `STP_IN_set_port_cfg`, for the port that it finds: each check returns at once, and
-- leaves what has been written before it.
unfoldable pub set_port : Stpm → ℕ → PortCfg → Port → StpError × Port
unfolding cfg_mcheck cost_error cfg_cost prio_error cfg_prio cfg_rest
set_port this port_no cfg port =
    let checked = cfg_mcheck this cfg port in
    let priced = cfg_cost cfg checked in
    if not (is_ok (cost_error cfg))
    then (cost_error cfg, checked)
    else if not (is_ok (prio_error cfg))
    then (prio_error cfg, priced)
    else (stp_ok, cfg_rest cfg (cfg_prio port_no cfg priced))
