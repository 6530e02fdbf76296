-- ===== src/Tests/Commands.antt =====
-- The commands of rstplib/stp_in.c on a library with one bridge that has one port.
use rstp.Prelude.{Option, some, ◌≡◌, ◌↔◌, refl, [], ◌∷◌, true, false, pos, arith}
use rstp.StateMach.{change_state}
use rstp.Vector.{compare_vector}
use rstp.Times.{compare_times}
use rstp.Port.{AdminP2p}
use rstp.Stpm.{StpMode}
use rstp.Receive
use rstp.Topoch
use rstp.Migrate
use rstp.P2p
use rstp.Brdgdet
use rstp.Pcost
use rstp.Info
use rstp.Roletrns
use rstp.Sttrans
use rstp.Transmit
use rstp.Rolesel
use rstp.Update.{update, init_machines}
use rstp.Update.Setup.{bridge_setup}
use rstp.Update.Unchanged.{update-setup}
use rstp.Start.{start_ports}
use rstp.Library.{StpError, stp_ok, is_ok, Library, Env, stpm_find, port_find}
use rstp.Library.Config.{StpCfg, check_stpm_config, stpm_get_cfg, merge_cfg}
use rstp.Library.Config.Checked.{IsChecked, check_stpm_config-IsChecked}
use rstp.Library.PortConfig.{PortCfg, set_port}
use rstp.Library.PortConfig.Refused.{undo_early, set_port-undo_early}
use rstp.Library.Create.{InitCfg}
use rstp.Library.Events.{in_enable_port}
use rstp.Library.Manage.{in_stpm_set_cfg}
use rstp.Library.Ports.{in_port_create, in_port_delete, in_set_port_cfg}
use rstp.Library.State.{in_port_get_cfg}
use rstp.Library.State.Reported.{Reads}
use rstp.Library.State.Configured.{in_set_port_cfg-Reads}
use rstp.Library.Table.{add_port, delete_port}
use rstp.Library.Refines.{table, seen}
use rstp.Library.Refines.Create.{in_port_create-seen}
use rstp.Library.Refines.Delete.{in_port_delete-seen}
use rstp.Library.Unchanged.{links, in_enable_port-links}
use rstp.Library.Readback.{read_settings, settings, in_stpm_set_cfg-read}
use rstp.Tests.Data.{an_out, a_bridge, stpm_of, default_times, a_port}
use rstp.Tests.Running.{returns, value_of, some_of, result, begun, updated, started_returns}

abbrev an_env : Env
an_env = record { out = an_out; rounds = 40; fuel = 160 }

abbrev a_library : Library
a_library = record { bridges = a_bridge ∷ []; dbg_rstp_deny = false; max_port = 1024; flushed = [] }

-- A request for the priority 4096 and a hello time of 1 second.
abbrev a_request : StpCfg
a_request = record {
  field_mask = 10;
  stp_enabled = StpMode.stp_disabled;
  bridge_priority = pos 4096;
  max_age = pos 0;
  hello_time = pos 1;
  forward_delay = pos 0;
  force_version = pos 0;
}

-- A request for the port priority 300, which is too large, and a path cost.
abbrev a_port_request : PortCfg
a_port_request = record {
  field_mask = 6;
  port_priority = pos 300;
  admin_port_path_cost = 20000;
  admin_point2point = AdminP2p.p2p_auto;
  admin_edge = true;
  admin_non_stp = false;
  skip_rx = 0;
  skip_tx = 0;
}

abbrev an_init : InitCfg
an_init = record {
  get_init_stpm_cfg = λ vlan_id. a_request;
  get_init_port_cfg = λ vlan_id port_index. a_port_request;
}

abbrev checked_cfg : StpCfg
checked_cfg = record a_request { max_age = pos 20; forward_delay = pos 15 }

check_stpm_config-IsChecked_example :
    (is_ok (check_stpm_config checked_cfg) ≡ true) ↔ IsChecked checked_cfg
check_stpm_config-IsChecked_example = check_stpm_config-IsChecked checked_cfg

refused : is_ok (set_port (stpm_of default_times) 2 a_port_request a_port).0 ≡ false
unfolding set_port
refused = refl

set_port-undo_early_example :
    undo_early a_port (set_port (stpm_of default_times) 2 a_port_request a_port).1 ≡ a_port
set_port-undo_early_example =
    set_port-undo_early (stpm_of default_times) 2 a_port_request a_port refused

in_enable_port-links_example : links (in_enable_port an_env 2 false a_library) ≡ links a_library
in_enable_port-links_example = in_enable_port-links an_env 2 a_library

update-setup_example : bridge_setup updated.1 ≡ bridge_setup begun
update-setup_example =
    update-setup an_out 40 160 0 updated.0 begun updated.1
      (some_of (0, a_bridge) result started_returns)

abbrev other : StpError × Library
other = (stp_ok, a_library)

abbrev deleted : Option (StpError × Library)
deleted = in_port_delete an_env 0 2 a_library

delete_returns : returns deleted ≡ true
unfolding in_port_delete update init_machines Rolesel.machine change_state start_ports
delete_returns = refl

in_port_delete-seen_example : seen (value_of other deleted) ≡ delete_port 0 2 (table a_library)
in_port_delete-seen_example =
    in_port_delete-seen an_env 0 2 a_library (value_of other deleted)
      (some_of other deleted delete_returns)

abbrev created : Option (StpError × Library)
created = in_port_create an_env an_init 0 3 a_library

create_returns : returns created ≡ true
unfolding in_port_create start_ports update init_machines Rolesel.machine Receive.machine
    Topoch.machine Migrate.machine P2p.machine Brdgdet.machine Pcost.machine Info.machine
    Roletrns.machine Sttrans.machine Transmit.machine change_state compare_vector compare_times
create_returns = refl

in_port_create-seen_example : seen (value_of other created) ≡ add_port 0 3 (table a_library)
in_port_create-seen_example =
    in_port_create-seen an_env an_init 0 3 a_library (value_of other created)
      (some_of other created create_returns)

abbrev configured : Option (StpError × Library)
configured = in_stpm_set_cfg an_env an_init 0 0 a_request a_library

configured_returns : configured ≡ some (stp_ok, (value_of other configured).1)
unfolding in_stpm_set_cfg update init_machines Rolesel.machine Receive.machine Topoch.machine
    Migrate.machine P2p.machine Brdgdet.machine Pcost.machine Info.machine Roletrns.machine
    Sttrans.machine Transmit.machine change_state compare_vector compare_times
configured_returns = refl

found : stpm_find 0 a_library.bridges ≡ some a_bridge
unfolding stpm_find
found = refl

in_stpm_set_cfg-read_example :
    read_settings 0 (value_of other configured).1
    ≡ some (settings (merge_cfg a_request (stpm_get_cfg a_bridge.stpm)))
in_stpm_set_cfg-read_example =
    in_stpm_set_cfg-read an_env an_init 0 0 a_request refl a_library (value_of other configured).1
      a_bridge found configured_returns

-- The priority 16 and the same path cost.
abbrev port_request : PortCfg
port_request = record a_port_request { port_priority = pos 16 }

abbrev port_configured : Option (StpError × Library)
port_configured = in_set_port_cfg an_env 0 2 port_request a_library

port_configured_returns : port_configured ≡ some (stp_ok, (value_of other port_configured).1)
unfolding in_set_port_cfg update Rolesel.machine Receive.machine Topoch.machine Migrate.machine
    P2p.machine Brdgdet.machine Pcost.machine Info.machine Roletrns.machine Sttrans.machine
    Transmit.machine change_state compare_vector compare_times Roletrns.compute_allsynced
port_configured_returns = refl

found_port : port_find 2 a_bridge.ports ≡ some a_port
unfolding port_find
found_port = refl

in_set_port_cfg-Reads_example :
    ((in_port_get_cfg 0 2 a_port_request (value_of other port_configured).1).0 ≡ stp_ok)
    × Reads port_request 2 a_port
        (in_port_get_cfg 0 2 a_port_request (value_of other port_configured).1).1
in_set_port_cfg-Reads_example =
    in_set_port_cfg-Reads an_env 0 2 port_request a_port_request a_library a_bridge a_port found
      found_port (value_of other port_configured).1 (omega arith) port_configured_returns
