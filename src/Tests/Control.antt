-- ===== src/Tests/Control.antt =====
-- rstpctl and the daemon of Tests/Daemon.antt, joined by the socket.
use rstp.Prelude.{
  ℕ, zero, suc, ◌≡◌, refl, ap, Bool, true, false, Option, none, some, ◌>>=◌, OnSome, List, [], ◌∷◌,
  length, ℤ, pos, negsuc,
}
use rstp.StateMach.{change_state}
use rstp.StateMach.Loop.{Settled, Always, changing}
use rstp.States.{ReceiveState, MigrateState, P2pState, PcostState, SttransState}
use rstp.Receive
use rstp.Migrate
use rstp.P2p
use rstp.Pcost
use rstp.Sttrans
use rstp.Update.Settled.{machines-Settled}
use rstp.Port.{AdminP2p}
use rstp.Stpm.{StpMode}
use rstp.Library.Config.{StpCfg}
use rstp.Library.PortConfig.{PortCfg}
use rstp.Library.Create.{bridge_id_zero}
use rstp.Library.State.{PortState, UidStpState, UidPortState}
use rstp.Track.Handle.{initial}
use rstp.Control.{Command, Out, msg_buf_len}
use rstp.Control.Server.{Server, Datagram, Protocol, ctl, ctl_rcv_handler}
use rstp.Control.Client.{client_side_function, through}
use rstp.Control.Transparent.{seen, called, OutFits, client_side_function-ctl}
use rstp.Control.Bounds.{IsFull, IsReply, ctl_rcv_handler-IsReply}
use rstp.Daemon.{NlMsg, Ready, Status, Setup, Daemon, dump_all, round}
use rstp.Track.{Tracker}
use rstp.Daemon.Told.{ToldAll, dump_all-Told}
use rstp.Rstpctl.{System, Stack, Action}
use rstp.Rstpctl.Main.{main, main_command}
use rstp.Rstpctl.Run.{run, direct, socket}
use rstp.Rstpctl.Whole.{told, Fitting, run-socket}
use rstp.Track.Implementation.{Bounds}
use rstp.Rstpctl.Safe.{IsSafe, main-IsSafe}
use rstp.Rstpctl.Values.{R, run-main}
use rstp.Track.Handle.{handle}
use rstp.Update.{update, init_machines}
use rstp.Rolesel
use rstp.Vector.{compare_vector}
use rstp.Times.{compare_times}
use rstp.Tests.Data.{a_site, an_out, blank_bpdu}
use rstp.Tests.Running.{returns, value_of, some_of}
use rstp.Tests.Daemon.{a_kernel, a_rstp, first}
use rstp.Tests.Structs.{the_structs}

abbrev no_bridge_cfg : StpCfg
no_bridge_cfg = record {
  field_mask = 0;
  stp_enabled = StpMode.stp_disabled;
  bridge_priority = pos 0;
  max_age = pos 0;
  hello_time = pos 0;
  forward_delay = pos 0;
  force_version = pos 0;
}

abbrev other_bridge_cfg : StpCfg
other_bridge_cfg = record no_bridge_cfg { max_age = pos 77; force_version = negsuc 4 }

abbrev no_port_cfg : PortCfg
no_port_cfg = record {
  field_mask = 0;
  port_priority = pos 0;
  admin_port_path_cost = 0;
  admin_point2point = AdminP2p.p2p_force_true;
  admin_edge = false;
  admin_non_stp = false;
  skip_rx = 0;
  skip_tx = 0;
}

-- A priority, a cost and the edge flag.
abbrev a_port_cfg : PortCfg
a_port_cfg = record no_port_cfg {
  field_mask = 22;
  port_priority = pos 16;
  admin_port_path_cost = 500;
  admin_edge = true;
}

abbrev no_bridge_state : UidStpState
no_bridge_state = record {
  vlan_id = 0;
  stp_enabled = StpMode.stp_disabled;
  designated_root = bridge_id_zero;
  root_path_cost = 0;
  time_since_topology_change = 0;
  topology_change_count = 0;
  topology_change = false;
  root_port = 0;
  max_age = 0;
  hello_time = 0;
  forward_delay = 0;
  bridge_id = bridge_id_zero;
}

abbrev no_port_state : UidPortState
no_port_state = record {
  port_no = pos 0;
  port_id = 0;
  state = PortState.disabled;
  path_cost = 0;
  designated_root = bridge_id_zero;
  designated_cost = 0;
  designated_bridge = bridge_id_zero;
  designated_port = 0;
  rx_cfg_bpdu_cnt = 0;
  rx_rstp_bpdu_cnt = 0;
  rx_tcn_bpdu_cnt = 0;
  edge_delay_while = 0;
  fd_while = 0;
  hello_when = 0;
  mdelay_while = 0;
  rb_while = 0;
  rcvd_info_while = 0;
  rr_while = 0;
  tc_while = 0;
  tx_count = 0;
  uptime = 0;
  oper_port_path_cost = 0;
  role = 0;
  oper_point2point = false;
  oper_edge = false;
  oper_stp_neigb = false;
  top_change_ack = false;
}

abbrev fresh : (c : Command) → Out c
fresh Command.enable_bridge_rstp = tt
fresh Command.get_bridge_state = (no_bridge_cfg, no_bridge_state)
fresh Command.set_bridge_config = tt
fresh Command.get_port_state = (no_port_cfg, no_port_state)
fresh Command.set_port_config = tt
fresh Command.set_debug_level = tt

abbrev a_protocol : Protocol
a_protocol = record { structs = the_structs; fresh = fresh; fresh_res = pos 0 }

unfoldable zeros : ℕ → List ℕ
zeros zero = []
zeros (suc n) = 0 ∷ zeros n

length-zeros : (n : ℕ) → length (zeros n) ≡ n
unfolding zeros
length-zeros zero = refl
length-zeros (suc n) = ap suc (length-zeros n)

abbrev a_server : Server a_rstp.Instance
unfolding zeros
a_server = record {
  tracker = value_of initial first;
  log_level = pos 4;
  msg_outbuf = zeros msg_buf_len;
}

a_server-IsFull : IsFull a_server
unfolding a_server zeros
a_server-IsFull = length-zeros msg_buf_len

-- `rstp br on`
abbrev switched : Option (ℤ × Unit {0} × Server a_rstp.Instance)
switched = ctl a_rstp a_kernel Command.enable_bridge_rstp (1, pos 1) tt a_server

abbrev stp_server : Server a_rstp.Instance
stp_server = elim switched [ none ↦ a_server | some (r, out, s) ↦ s ]

stp_server-IsFull : IsFull stp_server
unfolding ctl a_server zeros a_rstp first handle update init_machines Rolesel.machine change_state
    compare_vector compare_times
stp_server-IsFull = length-zeros msg_buf_len

state_fits :
    OnSome
      (OutFits a_rstp a_kernel a_protocol Command.get_bridge_state)
      (ctl a_rstp a_kernel Command.get_bridge_state 1 (fresh Command.get_bridge_state) stp_server)
unfolding ctl a_server a_rstp first handle update init_machines Rolesel.machine change_state
    compare_vector compare_times
state_fits = refl

-- `showbridge br`
client_side_function-ctl_example :
    (client_side_function a_protocol
        (through a_protocol a_rstp a_kernel)
        Command.get_bridge_state
        1
        (other_bridge_cfg, no_bridge_state)
        stp_server
      >>= (λ result. some (seen a_rstp a_kernel a_protocol Command.get_bridge_state result)))
    ≡ (ctl a_rstp a_kernel Command.get_bridge_state 1 (fresh Command.get_bridge_state) stp_server
        >>= (λ result. some (
            called a_rstp a_kernel a_protocol Command.get_bridge_state
              (other_bridge_cfg, no_bridge_state)
              result)))
client_side_function-ctl_example =
    client_side_function-ctl a_rstp a_kernel a_protocol Command.get_bridge_state 1
      (other_bridge_cfg, no_bridge_state) stp_server stp_server-IsFull refl state_fits

-- The same request, as it may come from elsewhere.
abbrev a_datagram : Datagram
a_datagram =
    Datagram.message true (record { cmd = pos 102; lin = pos 1; lout = pos 36; res = pos 7 })
      (1 ∷ [])

ctl_rcv_handler-IsReply_example :
    OnSome
      (IsReply a_rstp a_kernel a_protocol)
      (ctl_rcv_handler a_rstp a_kernel a_protocol a_datagram stp_server)
ctl_rcv_handler-IsReply_example =
    ctl_rcv_handler-IsReply a_rstp a_kernel a_protocol a_datagram stp_server stp_server-IsFull

abbrev a_setup : Setup
a_setup = record { protocol = a_protocol; bpdu_of = λ frame. blank_bpdu }

abbrev a_daemon : Daemon a_rstp.Instance
a_daemon = record {
  server = record { tracker = initial; log_level = pos 4; msg_outbuf = zeros msg_buf_len };
  nexttimeout = record { tv_sec = 1; tv_usec = 0 };
}

-- A link appears, and is the bridge 1.
abbrev a_link : NlMsg
a_link = record {
  nlmsg_len = 60;
  nlmsg_type = 16;
  ifi_family = 7;
  ifi_index = 1;
  ifla_master = none;
  ifla_priority = none;
  ifla_ifname = some (1 ∷ []);
  ifla_operstate = some (pos 6);
}

abbrev a_round : Option (Status (Daemon a_rstp.Instance))
a_round =
    round a_rstp a_setup (record { tv_sec = 2; tv_usec = 5 }) a_kernel
      ((a_kernel, Ready.br_event (a_link ∷ []) false) ∷ (a_kernel, Ready.ctl_event a_datagram) ∷ [])
      a_daemon

abbrev runs {ℓ} : {A : Type ℓ} → Option (Status A) → Bool
runs none = false
runs (some Status.exited) = false
runs (some (Status.running d)) = true

-- A second passes, the link appears, and rstpctl asks.
a_round-runs : runs a_round ≡ true
unfolding round a_rstp zeros
a_round-runs = refl

-- A message of the family AF_INET, which is passed over, and then the link.
abbrev messages : List NlMsg
messages = record a_link { ifi_family = 2 } ∷ a_link ∷ []

abbrev dumped : Option (Bool × Tracker a_rstp.Instance)
dumped = dump_all a_rstp a_setup a_kernel messages initial

abbrev dumped_to : Bool × Tracker a_rstp.Instance
dumped_to = value_of (false, initial) dumped

dumped-returns : returns dumped ≡ true
unfolding dump_all a_rstp
dumped-returns = refl

dump_all-Told_example : ToldAll a_rstp a_setup a_kernel messages initial dumped_to.0 dumped_to.1
dump_all-Told_example =
    dump_all-Told a_rstp a_setup a_kernel messages initial dumped_to.1 dumped_to.0
      (some_of (false, initial) dumped dumped-returns)

abbrev a_system : System
a_system = record {
  if_nametoindex = λ name. 1;
  strtoul = λ text. (4096, true);
  all_bridges = some ("br" ∷ []);
  all_ports = λ name. some ("eth0" ∷ []);
}

abbrev a_stack : Stack
a_stack = record { bridge_cfg = other_bridge_cfg; port_cfg = no_port_cfg }

main-IsSafe_example : IsSafe (main a_system a_stack [] true ("setbridgeprio" ∷ "br" ∷ "4096" ∷ []))
main-IsSafe_example = main-IsSafe a_system a_stack [] true ("setbridgeprio" ∷ "br" ∷ "4096" ∷ [])

abbrev other_stack : Stack
other_stack = record { bridge_cfg = no_bridge_cfg; port_cfg = a_port_cfg }

abbrev a_bounds : Bounds
a_bounds = record { rounds = 40; fuel = 160 }

abbrev empty_server : Server (R a_bounds).Instance
unfolding zeros
empty_server = record { tracker = initial; log_level = pos 4; msg_outbuf = zeros msg_buf_len }

-- What variables of rstpctl may hold otherwise.
abbrev other_held : (c : Command) → Out c
other_held Command.enable_bridge_rstp = tt
other_held Command.get_bridge_state = (other_bridge_cfg, no_bridge_state)
other_held Command.set_bridge_config = tt
other_held Command.get_port_state = (a_port_cfg, no_port_state)
other_held Command.set_port_config = tt
other_held Command.set_debug_level = tt

run-main_example :
    run
      (direct (R a_bounds) a_kernel a_protocol)
      fresh
      (main a_system a_stack [] true ("setbridgeprio" ∷ "br" ∷ "4096" ∷ []))
      empty_server
    ≡ run
        (direct (R a_bounds) a_kernel a_protocol)
        other_held
        (main a_system other_stack [] true ("setbridgeprio" ∷ "br" ∷ "4096" ∷ []))
        empty_server
run-main_example =
    run-main a_bounds a_kernel a_protocol fresh other_held a_system a_stack other_stack [] true
      ("setbridgeprio" ∷ "br" ∷ "4096" ∷ []) empty_server

-- `showbridge`, of the one bridge that there is.
abbrev showing : Action
showing = main a_system a_stack [] true ("showbridge" ∷ [])

showing-Fitting : Fitting a_rstp a_kernel a_protocol fresh showing stp_server
unfolding ctl a_server a_rstp first handle update init_machines Rolesel.machine change_state
    compare_vector compare_times main main_command
showing-Fitting = (refl, (refl, tt))

run-socket_example :
    (run (socket a_rstp a_kernel a_protocol) fresh showing stp_server
      >>= (λ q. some (told a_rstp a_kernel a_protocol q)))
    ≡ (run (direct a_rstp a_kernel a_protocol) fresh showing stp_server
        >>= (λ q. some (told a_rstp a_kernel a_protocol q)))
run-socket_example =
    run-socket a_rstp a_kernel a_protocol fresh showing stp_server stp_server-IsFull showing-Fitting

machines-Settled_example :
    Settled Receive.machine Always 2
      (change_state Receive.machine 3 0 (changing Receive.machine ReceiveState.discard) a_site)
    × Settled Migrate.machine Always 3
        (change_state Migrate.machine 4 0 (changing Migrate.machine MigrateState.begin) a_site)
    × Settled (P2p.machine an_out) Always 4 (
        change_state (P2p.machine an_out) 5 0 (changing (P2p.machine an_out) P2pState.begin) a_site)
    × Settled (Pcost.machine an_out) Always 5 (
        change_state
          (Pcost.machine an_out)
          6
          0
          (changing (Pcost.machine an_out) PcostState.begin)
          a_site)
    × Settled Sttrans.machine Always 4
        (change_state Sttrans.machine 5 0 (changing Sttrans.machine SttransState.discarding) a_site)
machines-Settled_example =
    machines-Settled an_out a_site ReceiveState.discard MigrateState.begin P2pState.begin
      PcostState.begin SttransState.discarding
