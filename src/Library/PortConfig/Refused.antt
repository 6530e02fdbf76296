-- ===== src/Library/PortConfig/Refused.antt =====
-- rstplib/stp_in.c: what is left of a port's configuration that is refused.
use rstp.Prelude.{◌≡◌, refl, true, false, not, ◌&&◌, leb, ℕ, if-both}
use rstp.Port.{Port}
use rstp.Stpm.{Stpm, normal_rstp}
use rstp.Library.{StpError, is_ok}
use rstp.Library.PortConfig.{
  PortCfg, pt_cfg_mcheck, pt_cfg_cost, cfg_mcheck, cfg_cost, cost_error, prio_error, set_port,
}

-- The two fields that are written before the last check.
abbrev pub undo_early : Port → Port → Port
undo_early port set = record set { mcheck = port.mcheck; admin_pcost = port.admin_pcost }

undo_mcheck :
    (this : Stpm) (cfg : PortCfg) (port : Port) → undo_early port (cfg_mcheck this cfg port) ≡ port
unfolding cfg_mcheck
undo_mcheck this cfg port =
    if-both (λ p. undo_early port p ≡ port)
      (pt_cfg_mcheck cfg.field_mask && leb normal_rstp this.force_version)
      (record port { mcheck = true }) port refl refl

undo_cost :
    (cfg : PortCfg) (port set : Port)
    → undo_early port set ≡ port
    → undo_early port (cfg_cost cfg set) ≡ port
unfolding cfg_cost
undo_cost cfg port set e =
    if-both (λ p. undo_early port p ≡ port) (pt_cfg_cost cfg.field_mask)
      (record set { admin_pcost = cfg.admin_port_path_cost }) set e e

-- A port configuration that `STP_IN_set_port_cfg` refuses, for its cost or its priority, changes
-- nothing of the port but `mcheck` and the administrative path cost: priority, point-to-point, edge
-- and the other settings are as before.
pub set_port-undo_early :
    (this : Stpm) (port_no : ℕ) (cfg : PortCfg) (port : Port)
    → is_ok (set_port this port_no cfg port).0 ≡ false
    → undo_early port (set_port this port_no cfg port).1 ≡ port
unfolding set_port
set_port-undo_early this port_no cfg port =
    let checked = cfg_mcheck this cfg port in
    let priced = cfg_cost cfg checked in
    let early = undo_mcheck this cfg port in
    let kept : StpError × Port → Type 0 = λ r. is_ok r.0 ≡ false → undo_early port r.1 ≡ port in
    if-both kept (not (is_ok (cost_error cfg))) (cost_error cfg, checked) _ (λ e. early)
      (if-both kept (not (is_ok (prio_error cfg))) (prio_error cfg, priced) _
        (λ e. undo_cost cfg port checked early) (λ e. cc))
