-- ===== src/Lib.antt =====
-- The Rapid Spanning Tree library of the repository (rstplib, IEEE 802.1D-2004 clause 17), and the
-- daemon around it that follows the bridges of the kernel (bridge_track.c, epoll_loop.c, brmon.c), and
-- rstpctl, which commands the daemon over a socket (ctl_main.c, ctl_socket.c, ctl_socket_client.c).
--
-- A bridge (`STPM_T`) owns a list of ports (`PORT_T`). One state machine belongs to the bridge, ten
-- to each port. A machine is two functions: the entry action of a state, which writes to the port
-- and the bridge, and the test of the conditions, which names the next state. They interact only
-- through the fields they share. `STP_stpm_update` runs them until no condition holds; within one
-- round `STP_change_state` runs a machine until its own conditions all fail.
--
-- Where the code is modelled:
--   StateMach    rstplib/statmch.c: STP_check_condition, STP_change_state; StateMach/Loop says when
--                the loop of STP_change_state ends and when it does not
--   States       the states of the machines; Port: rstplib/port.h; Stpm: rstplib/stpm.h
--   Bpdu         rstplib/stp_bpdu.h
--   Vector       rstplib/vector.c: priority vectors; Vector/Order, Vector/Wire
--   Times        rstplib/times.c; Times/Laws
--   Receive, Migrate, Brdgdet, P2p, Pcost, Sttrans, Topoch, Transmit: the file of that name
--   Info         rstplib/portinfo.c: the Port Information machine and STP_info_rx_bpdu
--   Roletrns     rstplib/roletrns.c; Roletrns/Rank measures how far a port is from rest,
--                Roletrns/Measure how far the machine is, Roletrns/Hubs is about the states that test
--                most
--   Rolesel      rstplib/rolesel.c; Rolesel/Best is about the choice of the root, Rolesel/Roles
--                about the roles
--   Update       rstplib/stpm.c: the passes over the machines, STP_stpm_update; Update/Rest says what
--                holds of the bridge that it returns; Update/Setup, Update/Keeps, the modules beside
--                them whose names end in Keeps, and Update/Unchanged are about what the machines do
--                not write to; Update/Settled joins the machines that always come to rest
--   Start        rstplib/stpm.c, port.c: STP_stpm_start, STP_port_init, STP_stpm_one_second;
--                Start/Identity is about the bridge identifier, Start/Outcome about the start
--   Exchange     from txRstp of one bridge to STP_info_rx_bpdu of the next
--   Library      rstplib/stp_in.c, stpmgmt.c, stpm.c: the bridges of one instance of the library, and
--                the commands on them: Library/Events (links, frames, seconds), Library/Config and
--                Library/PortConfig (what is checked and written), Library/Create, Library/Manage
--                (bridges), Library/Ports and Library/State (what is told of a bridge and of a port)
--                Library/Table is the abstract view: each bridge by its vlan id, each port by its
--                index; Library/Entries and Library/Refines relate the code to it, Library/Unchanged,
--                Library/Readback, Library/State/Reported and Library/State/Configured are about what
--                commands keep and what is read afterwards
--   Track        bridge_track.c: the interfaces that the daemon knows; Track/Out (the STP_OUT
--                functions), Track/Stp (STP on a bridge and its ports), Track/Links (create_if,
--                delete_if, set_br_up, set_if_up), Track/Notify (bridge_notify), Track/Frames (frames
--                and seconds), Track/Commands and Track/Show (the CTL functions), Track/Handle (all
--                that change the state, as events). They use the library through the record `Rstp`, which
--                Track/Implementation fills. Track/Indices, Distinct, Known, Served, Notified,
--                Invariant and Reached lead to the invariant of the lists, Track/Sends is about the
--                calls to the kernel
--   Control      ctl_socket.h, ctl_functions.h: the commands and their structs; Control/Server
--                (ctl_socket.c), Control/Client (ctl_socket_client.c), Control/Explain
--                (ctl_cli_wrap.c). Control/Delivery and Control/Transparent are about a command from
--                end to end, Control/Bounds about the buffer of the answers
--   Daemon       epoll_loop.c, brmon.c, packet.c: the loop and its handlers; Daemon/Reports
--                says which messages of the kernel concern a bridge, Daemon/Told what they come to
--   Rstpctl      ctl_main.c: the commands of rstpctl; Rstpctl/Main (the table and main), Rstpctl/Run (a
--                run, with the CTL functions called at once or over the socket). Rstpctl/Related goes
--                through the commands once, for Rstpctl/Safe (the arguments) and Rstpctl/Values (what
--                variables hold before they are written); Rstpctl/Whole is about whole runs
--   Tests        the theorems at concrete inputs; Tests/Running runs a bridge with two ports,
--                Tests/Commands the library, Tests/Daemon the daemon, Tests/Control rstpctl and the
--                loop, with the structs of Tests/Structs
-- In each machine `enter_port` or `enter_site` is STP_..._enter_state, `check_port` or `check_site`
-- is STP_..._check_conditions, and `machine` is the pair of them. X/Settles has the theorems about
-- the loop of machine X.
--
-- A machine is at rest when its state has been entered last and none of its conditions holds.
--
-- State. The ports stand in a list: a `Bridge` is the bridge with its ports, a `Site` is the same
-- seen from one port, with the ports before and after it. What the library asks the outside
-- (STP_OUT_get_..., answered by the kernel) is the parameter `StpOut`; what it tells the outside
-- (STP_OUT_set_learning, set_forwarding, tx_bpdu) is a list of effects in the bridge. The build is
-- the one of rstplib/Makefile: STP_DBG is defined, ORIG and STRONGLY_SPEC_802_1W are not.
--
-- Numbers. A machine integer is a natural number, with its wrap-around written out where the code
-- can reach it. An `int` that a compare function returns is its sign.
--
-- Fuel. STP_change_state and STP_stpm_update are loops without a bound, so they run on fuel, and
-- `none` means that the fuel ran out. For each machine a theorem gives the fuel that is enough, with
-- the condition under which the machine comes to rest where it can run for ever; the number of rounds
-- of STP_stpm_update is left open.
--
-- The daemon. Its interfaces are one list, as `if_head`; `br_head` and the lists of ports are the
-- parts of it, in the same order, since an interface is put at the head of each. A pointer to an
-- interface is its index. What it asks the kernel (netif_utils.c, brstate.c, sysfs) is the parameter
-- `Kernel`, which may differ from event to event. `none` is also the use of an instance that is NULL.
-- `malloc` is taken to succeed.
--
-- rstpctl. A run is a tree of the questions that it asks the daemon, which ends with its exit status;
-- what it prints is left out. How a struct lies in memory is the parameter `Layout` of each command:
-- its bytes, whose number is that of the struct, and the law that a value in the range of its C types
-- is read back from them. The socket hands on a message whole or cuts it to the buffer, and the
-- failures of the transport are constructors of `Sent`. The fields skip_rx and skip_tx of a port's
-- configuration stand in the model only, since the daemon and rstpctl are built without STP_DBG.
--
-- The loop. A round is given the time, what the handlers find and what the kernel answers to each of
-- them. No handler closes a descriptor, so `ref_ev` and remove_epoll have no part in it.
--
-- Not modelled: tracing and printing; the names of bridges and ports; how sockets and descriptors are
-- opened, the packet filter and sending a packet (ctl_socket.c, epoll_loop.c, packet.c, brmon.c),
-- main.c, brstate.c and netif_utils.c, which talk to the kernel; libnetlink.c and the headers under
-- include, copies of other projects; the demonstration programs of rstplib.
pub mod Prelude
pub mod StateMach
pub mod Bpdu
pub mod Vector
pub mod Times
pub mod States
pub mod Port
pub mod Stpm
pub mod Receive
pub mod Migrate
pub mod Brdgdet
pub mod P2p
pub mod Pcost
pub mod Sttrans
pub mod Topoch
pub mod Track
pub mod Control
pub mod Daemon
pub mod Rstpctl
pub mod Transmit
pub mod Info
pub mod Roletrns
pub mod Rolesel
pub mod Update
pub mod Start
pub mod Library
pub mod Exchange
pub mod Tests
