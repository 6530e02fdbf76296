-- ===== src/Library/State/Reported.antt =====
-- rstplib/stp_in.c: what is reported of a port after it has been configured.
use rstp.Prelude.{
  ℕ, ◌+◌, ◌*◌, ◌/◌, ◌%◌, ◌≤◌, ◌<◌, ◌≡◌, ap, ◌∙◌, true, Bool-cases, inl, inr, if◌then◌else◌, pos,
  pos_part, arith,
}
use rstp.Port.{Port}
use rstp.Stpm.{Stpm}
use rstp.Library.{is_ok}
use rstp.Library.PortConfig.{
  PortCfg, pt_cfg_cost, pt_cfg_prio, pt_cfg_p2p, pt_cfg_edge, cfg_mcheck, cfg_cost, cfg_prio,
  cfg_rest, prio_error, set_port,
}
use rstp.Library.State.{port_get_cfg}

-- An accepted priority is at most 240.
prio_bound :
    (cfg : PortCfg)
    → pt_cfg_prio cfg.field_mask ≡ true
    → is_ok (prio_error cfg) ≡ true
    → pos_part cfg.port_priority ≤ 240
unfolding prio_error
prio_bound cfg set ok = ground arith

-- The identifier of a port that keeps its twelve bits.
prio_of_id :
    (prio port_no : ℕ)
    → prio ≤ 240
    → port_no < 4096
    → (prio * 256 + port_no) % 65536 / 256 ≡ prio + port_no / 256
prio_of_id prio port_no b n = omega arith

-- `STP_IN_set_port_cfg` has not returned early.
pub set_port-ok :
    (this : Stpm) (port_no : ℕ) (cfg : PortCfg) (port : Port)
    → is_ok (set_port this port_no cfg port).0 ≡ true
    → (is_ok (prio_error cfg) ≡ true)
      × ((set_port this port_no cfg port).1
          ≡ cfg_rest cfg (cfg_prio port_no cfg (cfg_cost cfg (cfg_mcheck this cfg port))))
unfolding set_port
set_port-ok this port_no cfg port ok = ground arith

-- What the configuration reads back as.
pub record Reads (cfg : PortCfg) (port_no : ℕ) (port : Port) (read : PortCfg) : Type 0 where
  pub priority : read.port_priority ≡ (
      if pt_cfg_prio cfg.field_mask
      then pos (pos_part cfg.port_priority + port_no / 256)
      else pos (port.port_id / 256))
  pub cost :
      read.admin_port_path_cost
      ≡ (if pt_cfg_cost cfg.field_mask then cfg.admin_port_path_cost else port.admin_pcost)
  pub point2point :
      read.admin_point2point
      ≡ (if pt_cfg_p2p cfg.field_mask then cfg.admin_point2point else port.admin_point_to_point_mac)
  pub edge :
      read.admin_edge
      ≡ (if pt_cfg_edge cfg.field_mask then cfg.admin_edge else port.admin_edge_port)

-- The fields that are written, one by one.
module _ (this : Stpm) (port_no : ℕ) (cfg : PortCfg) (port : Port) where
  abbrev pub written : Port
  written = cfg_rest cfg (cfg_prio port_no cfg (cfg_cost cfg (cfg_mcheck this cfg port)))

  written_id : written.port_id ≡ (
      if pt_cfg_prio cfg.field_mask
      then (pos_part cfg.port_priority * 256 + port_no) % 65536
      else port.port_id)
  unfolding cfg_rest cfg_prio cfg_cost cfg_mcheck
  written_id = ground arith

  pub written_index : written.port_index ≡ port.port_index
  unfolding cfg_rest cfg_prio cfg_cost cfg_mcheck
  written_index = ground arith

  written_cost :
      written.admin_pcost
      ≡ (if pt_cfg_cost cfg.field_mask then cfg.admin_port_path_cost else port.admin_pcost)
  unfolding cfg_rest cfg_prio cfg_cost cfg_mcheck
  written_cost = ground arith

  written_p2p :
      written.admin_point_to_point_mac
      ≡ (if pt_cfg_p2p cfg.field_mask then cfg.admin_point2point else port.admin_point_to_point_mac)
  unfolding cfg_rest cfg_prio cfg_cost cfg_mcheck
  written_p2p = ground arith

  written_edge :
      written.admin_edge_port
      ≡ (if pt_cfg_edge cfg.field_mask then cfg.admin_edge else port.admin_edge_port)
  unfolding cfg_rest cfg_prio cfg_cost cfg_mcheck
  written_edge = ground arith

-- If `STP_IN_set_port_cfg` accepts a configuration for a port whose number fits twelve bits,
-- `STP_IN_port_get_cfg` reads back the cost, the kind of link and the edge flag that are named and
-- the old ones that are not; the priority is read back increased by the port's number divided by 256.
pub set_port-Reads :
    (this : Stpm) (port_no : ℕ) (cfg uid_cfg : PortCfg) (port : Port)
    → port_no < 4096
    → is_ok (set_port this port_no cfg port).0 ≡ true
    → Reads cfg port_no port (port_get_cfg (set_port this port_no cfg port).1 uid_cfg)
unfolding port_get_cfg
set_port-Reads this port_no cfg uid_cfg port small ok =
    let (prio, e) = set_port-ok this port_no cfg port ok in
    let mask = cfg.field_mask in
    rw e (record {
      priority =
          ap (λ (n : ℕ). pos (n / 256)) (written_id this port_no cfg port)
          ∙ elim (Bool-cases (pt_cfg_prio mask)) [
            | inl set ↦ rw set (ap pos (prio_of_id _ port_no (prio_bound cfg set prio) small))
            | inr unset ↦ rw unset
          ];
      cost = written_cost this port_no cfg port;
      point2point = written_p2p this port_no cfg port;
      edge = written_edge this port_no cfg port;
    })
