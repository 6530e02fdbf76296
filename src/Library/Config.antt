-- ===== src/Library/Config.antt =====
-- rstplib/uid_stp.h and stp_in.c: the configuration of a bridge.
use rstp.Prelude.{
  ℕ, ◌+◌, ◌-◌, ◌*◌, ◌/◌, ◌%◌, ◌^◌, Bool, true, false, not, Option, none, some, if◌then◌else◌, ◌==◌,
  ltb, ℤ, pos, negsuc, pos_part, ltb_ℤ, to_unsigned,
}
use rstp.Bpdu.{bit}
use rstp.Vector.{BridgeId}
use rstp.Times.{TimeValues}
use rstp.Stpm.{Stpm, Bridge, StpMode, normal_rstp}
use rstp.Start.{is_enabled}
use rstp.Library.{
  StpError, stp_ok, stp_small_bridge_priority, stp_large_bridge_priority,
  stp_bridge_priority_not_a_multiple_of_4096, stp_small_hello_time, stp_large_hello_time,
  stp_small_max_age, stp_large_max_age, stp_small_forward_delay, stp_large_forward_delay,
  stp_forward_delay_and_max_age_are_inconsistent, stp_hello_time_and_max_age_are_inconsistent,
}
pub mod Checked

-- `UID_STP_CFG_T`, without the name and `hold_time`, which no code reads.
pub record StpCfg : Type 0 where
  pub field_mask : ℕ
  pub stp_enabled : StpMode
  pub bridge_priority : ℤ
  pub max_age : ℤ
  pub hello_time : ℤ
  pub forward_delay : ℤ
  pub force_version : ℤ

-- The bits of the mask.
abbrev pub br_cfg_state : ℕ → Bool
br_cfg_state = bit 0

abbrev pub br_cfg_prio : ℕ → Bool
br_cfg_prio = bit 1

abbrev pub br_cfg_age : ℕ → Bool
br_cfg_age = bit 2

abbrev pub br_cfg_hello : ℕ → Bool
br_cfg_hello = bit 3

abbrev pub br_cfg_delay : ℕ → Bool
br_cfg_delay = bit 4

abbrev pub br_cfg_force_ver : ℕ → Bool
br_cfg_force_ver = bit 5

-- `_check_stpm_config`. Where the bits below 4096 and the two products are computed the numbers
-- are known not to be negative.
unfoldable pub check_stpm_config : StpCfg → StpError
check_stpm_config cfg =
    if ltb_ℤ cfg.bridge_priority (pos 0)
    then stp_small_bridge_priority
    else if ltb_ℤ (pos 61440) cfg.bridge_priority
    then stp_large_bridge_priority
    else if not (pos_part cfg.bridge_priority % 4096 == 0)
    then stp_bridge_priority_not_a_multiple_of_4096
    else if ltb_ℤ cfg.hello_time (pos 1)
    then stp_small_hello_time
    else if ltb_ℤ (pos 10) cfg.hello_time
    then stp_large_hello_time
    else if ltb_ℤ cfg.max_age (pos 6)
    then stp_small_max_age
    else if ltb_ℤ (pos 40) cfg.max_age
    then stp_large_max_age
    else if ltb_ℤ cfg.forward_delay (pos 4)
    then stp_small_forward_delay
    else if ltb_ℤ (pos 30) cfg.forward_delay
    then stp_large_forward_delay
    else if ltb (2 * (pos_part cfg.forward_delay - 1)) (pos_part cfg.max_age)
    then stp_forward_delay_and_max_age_are_inconsistent
    else if ltb (pos_part cfg.max_age) (2 * (pos_part cfg.hello_time + 1))
    then stp_hello_time_and_max_age_are_inconsistent
    else stp_ok

abbrev bit_unless : Bool → ℕ → ℕ
bit_unless b n = if b then 0 else n

-- `STP_IN_stpm_get_cfg`, for the bridge that it finds. The mask names what is not the default;
-- the conversion of the unsigned `ForceVersion` to `int` keeps what is below 2^31.
unfoldable pub stpm_get_cfg : Stpm → StpCfg
stpm_get_cfg this = record {
  field_mask =
      bit_unless (not (is_enabled this.admin_state)) 1
      + bit_unless (this.bridge_identifier.prio == 32768) 2
      + bit_unless (this.bridge_times.max_age == 20) 4
      + bit_unless (this.bridge_times.hello_time == 2) 8
      + bit_unless (this.bridge_times.forward_delay == 15) 16
      + bit_unless (this.force_version == 2) 32;
  stp_enabled = this.admin_state;
  bridge_priority = pos this.bridge_identifier.prio;
  max_age = pos this.bridge_times.max_age;
  hello_time = pos this.bridge_times.hello_time;
  forward_delay = pos this.bridge_times.forward_delay;
  force_version =
      if ltb this.force_version (2 ^ 31)
      then pos this.force_version
      else negsuc (2 ^ 32 - 1 - this.force_version);
}

-- The fields of `uid_cfg` that its mask names, over those of `old`.
unfoldable pub merge_cfg : StpCfg → StpCfg → StpCfg
merge_cfg uid_cfg old =
    let mask = uid_cfg.field_mask in
    record old {
      bridge_priority = if br_cfg_prio mask then uid_cfg.bridge_priority else old.bridge_priority;
      max_age = if br_cfg_age mask then uid_cfg.max_age else old.max_age;
      hello_time = if br_cfg_hello mask then uid_cfg.hello_time else old.hello_time;
      forward_delay = if br_cfg_delay mask then uid_cfg.forward_delay else old.forward_delay;
      force_version = if br_cfg_force_ver mask then uid_cfg.force_version else old.force_version;
    }

-- `this->BridgeIdentifier.prio = prio`, an `unsigned short`.
abbrev pub set_prio : ℕ → Stpm → Stpm
set_prio prio this =
    let id = this.bridge_identifier in record this { bridge_identifier = record id { prio = prio } }

-- The three times and the version, as `STP_IN_stpm_set_cfg` writes them.
unfoldable pub write_times : StpCfg → Stpm → Stpm
write_times cfg this =
    let times = this.bridge_times in
    record this {
      bridge_times = record times {
        max_age = to_unsigned 16 cfg.max_age;
        hello_time = to_unsigned 16 cfg.hello_time;
        forward_delay = to_unsigned 16 cfg.forward_delay;
      };
      force_version = to_unsigned 32 cfg.force_version;
    }
