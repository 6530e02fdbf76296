-- ===== src/Times/Laws.antt =====
-- rstplib/times.c: the timer values in a BPDU, and their comparison.
use rstp.Prelude.{◌<◌, ◌≡◌, ◌↔◌, false, arith}
use rstp.Bpdu.{BpduBody}
use rstp.Times.{TimeValues, get_times, set_times, compare_times, differ}

-- Whole seconds that fit the high byte of a field.
pub record FitsByte (v : TimeValues) : Type 0 where
  pub message_age : v.message_age < 256
  pub max_age : v.max_age < 256
  pub forward_delay : v.forward_delay < 256
  pub hello_time : v.hello_time < 256

-- `STP_get_times` reads back the four values that `STP_set_times` has written, if each is below
-- 256.
pub get_times-set_times :
    (v : TimeValues) (b : BpduBody) → FitsByte v → get_times (set_times v b) ≡ v
unfolding get_times set_times
get_times-set_times v b h = ground arith

-- `STP_compare_times` returns 0 exactly when the four values are the same.
pub compare_times-same : (v w : TimeValues) → (differ (compare_times v w) ≡ false) ↔ (v ≡ w)
unfolding compare_times
compare_times-same v w = (λ e. ground arith, λ e. ground arith)
