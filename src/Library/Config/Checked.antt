-- ===== src/Library/Config/Checked.antt =====
-- rstplib/stp_in.c: what `_check_stpm_config` lets through.
use rstp.Prelude.{ℕ, ◌+◌, ◌*◌, ◌%◌, ◌≤◌, ◌≡◌, ◌↔◌, arith, true, pos, pos_part}
use rstp.Library.{is_ok}
use rstp.Library.Config.{StpCfg, check_stpm_config}

-- The ranges of 802.1D-2004, table 17-1, and the relations of 17.14.
pub record InRange (hello_time max_age forward_delay : ℕ) : Type 0 where
  pub hello_low : 1 ≤ hello_time
  pub hello_high : hello_time ≤ 10
  pub age_low : 6 ≤ max_age
  pub age_high : max_age ≤ 40
  pub delay_low : 4 ≤ forward_delay
  pub delay_high : forward_delay ≤ 30
  pub age_delay : max_age + 2 ≤ 2 * forward_delay
  pub hello_age : 2 * hello_time + 2 ≤ max_age

-- A configuration of natural numbers, the priority in steps of 4096 and the times in range.
pub record IsChecked (cfg : StpCfg) : Type 0 where
  pub prio_nat : cfg.bridge_priority ≡ pos (pos_part cfg.bridge_priority)
  pub prio_high : pos_part cfg.bridge_priority ≤ 61440
  pub prio_step : pos_part cfg.bridge_priority % 4096 ≡ 0
  pub hello_nat : cfg.hello_time ≡ pos (pos_part cfg.hello_time)
  pub age_nat : cfg.max_age ≡ pos (pos_part cfg.max_age)
  pub delay_nat : cfg.forward_delay ≡ pos (pos_part cfg.forward_delay)
  pub range : InRange (pos_part cfg.hello_time) (pos_part cfg.max_age) (pos_part cfg.forward_delay)

-- `_check_stpm_config` accepts a configuration exactly if its priority is one of the sixteen
-- multiples of 4096 below 65536 and its times are in range and consistent.
pub check_stpm_config-IsChecked :
    (cfg : StpCfg) → (is_ok (check_stpm_config cfg) ≡ true) ↔ IsChecked cfg
unfolding check_stpm_config
check_stpm_config-IsChecked cfg = (λ e. ground arith, λ h. ground arith)
