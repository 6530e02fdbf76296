-- ===== src/StateMach.antt =====
-- rstplib/statmch.h and statmch.c: the generic state machine.
-- `C` is what a concrete machine works on, `S` its states. The two function pointers of
-- `STATE_MACH_T` are the fields of `Concrete`; a check function that returns
-- `STP_hop_2_state (this, X)` returns `some X`, and one that returns False returns `none`.
use rstp.Prelude.{ℕ, zero, suc, ◌+◌, Bool, true, false, Option, none, some, if◌then◌else◌}
pub mod Loop

-- The mutable part of `STATE_MACH_T`.
pub record StateMach (S : Type 0) : Type 0 where
  pub state : S
  pub change_state : Bool

pub record Concrete (C : Type 0) (S : Type 0) : Type 0 where
  pub enter_state : S → C → C
  pub check_conditions : S → C → Option S

module _ {S : Type 0} where
  unfoldable pub hop_2_state : S → StateMach S
  hop_2_state new_state = record { state = new_state; change_state = true }

module _ {C : Type 0} {S : Type 0} (m : Concrete C S) where
  -- The new machine, and whether a condition held.
  unfoldable pub check_condition : StateMach S → C → StateMach S
  unfolding hop_2_state
  check_condition this c = elim (m.check_conditions this.state c) [
    | none ↦ this
    | some new_state ↦ hop_2_state new_state
  ]

  -- `STP_change_state`, with the number of loops in `number_of_loops`. `none` means that the
  -- fuel ran out before the C loop would have returned.
  unfoldable pub change_state : ℕ → ℕ → StateMach S → C → Option (ℕ × StateMach S × C)
  unfolding check_condition
  change_state zero number_of_loops this c = none
  change_state (suc fuel) number_of_loops this c =
      let c' = m.enter_state this.state c in
      let this' = check_condition (record this { change_state = false }) c' in
      let rest = change_state fuel (number_of_loops + 1) this' c' in
      if this.change_state then rest else some (number_of_loops, this, c)
