-- ===== src/Library.antt =====
-- rstplib/stpm.c, stp_in.c and base.h: the list of bridges of one instance of the library, and
-- their creation, deletion and enabling.
use rstp.Prelude.{
  ℕ, ◌+◌, ◌%◌, ◌^◌, Bool, true, false, Option, none, some, ◌>>=◌, if◌then◌else◌, ◌==◌, List, [],
  ◌∷◌, ◌++◌, map,
}
use rstp.Port.{Port}
use rstp.Stpm.{Stpm, Bridge, StpOut, StpMode}
use rstp.Update.{init_machines, update}
use rstp.Start.{start, StartResult, started, invalid_bridge_priority, start_ports, is_enabled}
pub mod Events
pub mod Create
pub mod Manage
pub mod Ports
pub mod Config
pub mod PortConfig
pub mod State
pub mod Table
pub mod Entries
pub mod Refines
pub mod Unchanged
pub mod Readback

-- `RSTP_ERRORS` of base.h. Not listed: what no code under rstplib returns.
pub data StpError : Type 0 where
  stp_ok stp_implicit_instance_create_failed : StpError
  stp_small_bridge_priority stp_large_bridge_priority : StpError
  stp_bridge_priority_not_a_multiple_of_4096 : StpError
  stp_small_hello_time stp_large_hello_time stp_small_max_age stp_large_max_age : StpError
  stp_small_forward_delay stp_large_forward_delay : StpError
  stp_forward_delay_and_max_age_are_inconsistent : StpError
  stp_hello_time_and_max_age_are_inconsistent : StpError
  stp_small_port_priority stp_large_port_priority stp_port_priority_not_a_multiple_of_16 : StpError
  stp_large_port_pcost : StpError
  stp_vlan_had_not_yet_been_created stp_port_is_absent_in_the_vlan : StpError
  stp_big_len8023_format stp_small_len8023_format stp_len8023_format_gt_len : StpError
  stp_not_proper_802_3_packet stp_invalid_protocol : StpError
  stp_had_not_yet_been_enabled_on_the_vlan : StpError
  stp_cannot_create_instance_for_port stp_invalid_bridge_priority : StpError
  stp_another_error stp_nothing_to_do : StpError

abbrev pub is_ok : StpError → Bool
is_ok stp_ok = true
is_ok _ = false

-- The globals of the library, `struct stp_instance`; `tev` and `nev`, which no code reads, are left
-- out. STP_OUT_set_hardware_mode only traces (bridge_track.c), so its calls are left out too.
pub record Library : Type 0 where
  pub bridges : List Bridge
  pub dbg_rstp_deny : Bool
  pub max_port : ℕ
  -- the ports of the calls of STP_OUT_flush_lt so far, oldest last
  pub flushed : List ℕ

-- `stpapi_stpm_find`
unfoldable pub stpm_find : ℕ → List Bridge → Option Bridge
stpm_find vlan_id [] = none
stpm_find vlan_id (this ∷ rest) =
    let later = stpm_find vlan_id rest in if this.stpm.vlan_id == vlan_id then some this else later

-- The list after `this`, found under its vlan id, has been written to.
unfoldable pub stpm_put : ℕ → Bridge → List Bridge → List Bridge
stpm_put vlan_id this [] = []
stpm_put vlan_id this (b ∷ rest) =
    let later = stpm_put vlan_id this rest in
    if b.stpm.vlan_id == vlan_id then this ∷ rest else b ∷ later

-- The list without it, which is also what `oth != this` leaves.
unfoldable pub stpm_remove : ℕ → List Bridge → List Bridge
stpm_remove vlan_id [] = []
stpm_remove vlan_id (b ∷ rest) =
    let later = stpm_remove vlan_id rest in if b.stpm.vlan_id == vlan_id then rest else b ∷ later

abbrev pub stpms : List Bridge → List Stpm
stpms bridges = map (λ b. b.stpm) bridges

-- `_stpapi_port_find`
unfoldable pub port_find : ℕ → List Port → Option Port
port_find port_index [] = none
port_find port_index (port ∷ rest) =
    let later = port_find port_index rest in
    if port.port_index == port_index then some port else later

unfoldable pub port_put : ℕ → Port → List Port → List Port
port_put port_index port [] = []
port_put port_index port (p ∷ rest) =
    let later = port_put port_index port rest in
    if p.port_index == port_index then port ∷ rest else p ∷ later

unfoldable pub port_remove : ℕ → List Port → List Port
port_remove port_index [] = []
port_remove port_index (p ∷ rest) =
    let later = port_remove port_index rest in
    if p.port_index == port_index then rest else p ∷ later

-- What the library is run with: the environment, and the bounds of the loops of `update`.
pub record Env : Type 0 where
  pub out : StpOut
  pub rounds : ℕ
  pub fuel : ℕ

abbrev pub with_mode : StpMode → Bridge → Bridge
with_mode mode this =
    let stpm = this.stpm in record this { stpm = record stpm { admin_state = mode } }

-- What `STP_stpm_enable` makes of the result of a start: the state is set even if that failed.
abbrev enabled : StartResult → StpError × Bridge
enabled (started this) = (stp_ok, with_mode StpMode.stp_enabled this)
enabled (invalid_bridge_priority this) =
    (stp_invalid_bridge_priority, with_mode StpMode.stp_enabled this)

abbrev pub same_mode : StpMode → StpMode → Bool
same_mode StpMode.stp_enabled StpMode.stp_enabled = true
same_mode StpMode.stp_disabled StpMode.stp_disabled = true
same_mode _ _ = false

-- `STP_stpm_enable`; `bridges` are the other bridges of the list.
unfoldable pub stpm_enable : Env → List Bridge → StpMode → Bridge → Option (StpError × Bridge)
unfolding start
stpm_enable env bridges admin_state this =
    if same_mode admin_state this.stpm.admin_state
    then some (stp_ok, this)
    else if is_enabled admin_state
    then start env.out env.rounds env.fuel (stpms bridges) this
      >>= (λ result. some (enabled result))
    else some (stp_ok, with_mode StpMode.stp_disabled this)

-- `STP_stpm_update` of a bridge on which something has been set.
unfoldable pub stpm_update : Env → Bridge → Option Bridge
stpm_update env this = do (loops, b) ← update env.out env.rounds env.fuel 0 this; some b

-- `STP_stpm_update_after_bridge_management`
unfoldable pub update_after_bridge_management : Env → Bridge → Option Bridge
unfolding stpm_update
update_after_bridge_management env this =
    stpm_update env (init_machines env.out (start_ports env.out this))
