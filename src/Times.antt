-- ===== src/Times.antt =====
-- rstplib/times.h and times.c: the four timer values, each an `unsigned short`.
use rstp.Prelude.{ℕ, ◌*◌, ◌/◌, ◌%◌, ltb, if◌then◌else◌, Bool, true, false}
use rstp.Bpdu.{BpduBody}
use rstp.Vector.{get_short, set_short}
pub mod Laws

pub record TimeValues : Type 0 where
  pub message_age : ℕ
  pub max_age : ℕ
  pub forward_delay : ℕ
  pub hello_time : ℕ

-- The `int` that `STP_compare_times` returns.
pub data Difference : Type 0 where
  same : Difference
  less : ℕ → Difference  -- minus that number
  more : ℕ → Difference

unfoldable pub compare_times : TimeValues → TimeValues → Difference
compare_times t1 t2 =
    if ltb t1.message_age t2.message_age
    then less 1
    else if ltb t2.message_age t1.message_age
    then more 1
    else if ltb t1.max_age t2.max_age
    then less 2
    else if ltb t2.max_age t1.max_age
    then more 2
    else if ltb t1.forward_delay t2.forward_delay
    then less 3
    else if ltb t2.forward_delay t1.forward_delay
    then more 3
    else if ltb t1.hello_time t2.hello_time
    then less 4
    else if ltb t2.hello_time t1.hello_time
    then more 4
    else same

abbrev pub differ : Difference → Bool
differ same = false
differ (less n) = true
differ (more n) = true

unfoldable pub get_times : BpduBody → TimeValues
unfolding get_short
get_times b = record {
  message_age = get_short b.message_age / 256;
  max_age = get_short b.max_age / 256;
  forward_delay = get_short b.forward_delay / 256;
  hello_time = get_short b.hello_time / 256;
}

-- `htons (f << 8)` converts to `unsigned short` first.
abbrev pub shift_8 : ℕ → ℕ
shift_8 f = f * 256 % 65536

unfoldable pub set_times : TimeValues → BpduBody → BpduBody
unfolding set_short
set_times v b = record b {
  message_age = set_short (shift_8 v.message_age);
  max_age = set_short (shift_8 v.max_age);
  forward_delay = set_short (shift_8 v.forward_delay);
  hello_time = set_short (shift_8 v.hello_time);
}
