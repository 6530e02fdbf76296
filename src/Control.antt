-- ===== src/Control.antt =====
-- ctl_socket.h, ctl_functions.h: the commands that rstpctl sends to the daemon, and their codes.
use rstp.Prelude.{Bool, true, ℕ, ◌+◌, ◌≤◌, ◌≡◌, List, length, ℤ, pos, negsuc}
use rstp.Library.{
  StpError, stp_ok, stp_implicit_instance_create_failed, stp_small_bridge_priority,
  stp_large_bridge_priority, stp_bridge_priority_not_a_multiple_of_4096, stp_small_hello_time,
  stp_large_hello_time, stp_small_max_age, stp_large_max_age, stp_small_forward_delay,
  stp_large_forward_delay, stp_forward_delay_and_max_age_are_inconsistent,
  stp_hello_time_and_max_age_are_inconsistent, stp_small_port_priority, stp_large_port_priority,
  stp_port_priority_not_a_multiple_of_16, stp_large_port_pcost, stp_vlan_had_not_yet_been_created,
  stp_port_is_absent_in_the_vlan, stp_big_len8023_format, stp_small_len8023_format,
  stp_len8023_format_gt_len, stp_not_proper_802_3_packet, stp_invalid_protocol,
  stp_had_not_yet_been_enabled_on_the_vlan, stp_cannot_create_instance_for_port,
  stp_invalid_bridge_priority, stp_another_error, stp_nothing_to_do,
}
use rstp.Library.Config.{StpCfg}
use rstp.Library.PortConfig.{PortCfg}
use rstp.Library.State.{UidStpState, UidPortState}
use rstp.Track.Commands.{CtlResult}
pub mod Server
pub mod Client
pub mod Delivery
pub mod Transparent
pub mod Bounds
pub mod Explain

-- `struct ctl_msg_hdr`: four `int`.
pub record MsgHdr : Type 0 where
  pub cmd : ℤ
  pub lin : ℤ
  pub lout : ℤ
  pub res : ℤ

pub data Command : Type 0 where
  enable_bridge_rstp get_bridge_state set_bridge_config get_port_state set_port_config : Command
  set_debug_level : Command

-- `CMD_CODE_...`
unfoldable pub cmd_code : Command → ℕ
cmd_code Command.enable_bridge_rstp = 101
cmd_code Command.get_bridge_state = 102
cmd_code Command.set_bridge_config = 103
cmd_code Command.get_port_state = 104
cmd_code Command.set_port_config = 105
cmd_code Command.set_debug_level = 106

-- `struct ..._IN`. The index of an interface is positive.
abbrev pub In : Command → Type 0
In Command.enable_bridge_rstp = ℕ × ℤ
In Command.get_bridge_state = ℕ
In Command.set_bridge_config = ℕ × StpCfg
In Command.get_port_state = ℕ × ℕ
In Command.set_port_config = ℕ × ℕ × PortCfg
In Command.set_debug_level = ℤ

-- `struct ..._OUT`
abbrev pub Out : Command → Type 0
Out Command.enable_bridge_rstp = Unit {0}
Out Command.get_bridge_state = StpCfg × UidStpState
Out Command.set_bridge_config = Unit {0}
Out Command.get_port_state = PortCfg × UidPortState
Out Command.set_port_config = Unit {0}
Out Command.set_debug_level = Unit {0}

-- How the compiler lays a struct out: what `memcpy` copies, and that values that `fits` finds in
-- the range of their C types can be copied back.
pub record Layout (A : Type 0) : Type 0 where
  pub size : ℕ
  pub bytes : A → List ℕ
  pub object : List ℕ → A
  pub fits : A → Bool
  pub length-bytes : (a : A) → length (bytes a) ≡ size
  pub object-bytes : (a : A) → fits a ≡ true → object (bytes a) ≡ a

abbrev pub msg_buf_len : ℕ
msg_buf_len = 1024

-- The structs of the commands, which fit the buffers.
pub record Structs : Type 0 where
  pub layout_in : (c : Command) → Layout (In c)
  pub layout_out : (c : Command) → Layout (Out c)
  pub in-le : (c : Command) → (layout_in c).size ≤ msg_buf_len
  pub out-le : (c : Command) → (layout_out c).size ≤ msg_buf_len

-- The place of an error in `RSTP_ERRORS` of rstplib/base.h.
unfoldable pub stp_code : StpError → ℕ
stp_code stp_ok = 0
stp_code stp_implicit_instance_create_failed = 2
stp_code stp_small_bridge_priority = 3
stp_code stp_large_bridge_priority = 4
stp_code stp_bridge_priority_not_a_multiple_of_4096 = 5
stp_code stp_small_hello_time = 6
stp_code stp_large_hello_time = 7
stp_code stp_small_max_age = 8
stp_code stp_large_max_age = 9
stp_code stp_small_forward_delay = 10
stp_code stp_large_forward_delay = 11
stp_code stp_forward_delay_and_max_age_are_inconsistent = 12
stp_code stp_hello_time_and_max_age_are_inconsistent = 13
stp_code stp_small_port_priority = 14
stp_code stp_large_port_priority = 15
stp_code stp_port_priority_not_a_multiple_of_16 = 16
stp_code stp_large_port_pcost = 17
stp_code stp_vlan_had_not_yet_been_created = 18
stp_code stp_port_is_absent_in_the_vlan = 19
stp_code stp_big_len8023_format = 20
stp_code stp_small_len8023_format = 21
stp_code stp_len8023_format_gt_len = 22
stp_code stp_not_proper_802_3_packet = 23
stp_code stp_invalid_protocol = 24
stp_code stp_had_not_yet_been_enabled_on_the_vlan = 26
stp_code stp_cannot_create_instance_for_port = 28
stp_code stp_invalid_bridge_priority = 29
stp_code stp_another_error = 32
stp_code stp_nothing_to_do = 33

-- The `int` that a CTL function returns: 0, an error of the library, one of `enum Errors`, or -1.
unfoldable pub result_code : CtlResult → ℤ
unfolding stp_code
result_code CtlResult.done = pos 0
result_code CtlResult.interface_not_a_bridge = pos 1001
result_code CtlResult.bridge_rstp_not_enabled = pos 1002
result_code CtlResult.bridge_is_down = pos 1003
result_code CtlResult.port_does_not_belong_to_bridge = pos 1004
result_code (CtlResult.library_error e) = pos (stp_code e)
result_code CtlResult.init_failed = negsuc 0
