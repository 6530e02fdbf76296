-- ===== src/StateMach/Loop.antt =====
-- rstplib/statmch.c: when the loop of `STP_change_state` ends, and when it never does.
use rstp.Prelude.{
  ℕ, zero, suc, ◌+◌, ◌≤◌, ◌<◌, ◌≡◌, refl, Bool, true, false, Option, none, some, arith,
  Option-cases, inl, inr, ◌∙◌, if◌then◌else◌,
}
use rstp.StateMach.{StateMach, Concrete, check_condition, change_state}

-- No condition on where the loop starts.
abbrev pub Always : {C : Type 0} {S : Type 0} → S → C → Type 0
Always s c = Unit

-- A test as a number, for ranks.
abbrev pub flag : Bool → ℕ
flag b = if b then 1 else 0

module _ {C : Type 0} {S : Type 0} (m : Concrete C S) where
  -- Where the loop can stop: in a state whose condition fails, after its entry action.
  pub record Settled (Inv : S → C → Type 0) (bound : ℕ) (out : Option (ℕ × StateMach S × C))
      : Type 0 where
    pub loops : ℕ
    pub state : S
    pub entered_at : C
    pub returned :
        out
        ≡ some
            (loops, record { state = state; change_state = false }, m.enter_state state entered_at)
    pub entered_Inv : Inv state entered_at
    pub quiescent : m.check_conditions state (m.enter_state state entered_at) ≡ none
    pub loops_bound : loops ≤ bound

  -- The start of the loop: a machine whose `changeState` is set.
  abbrev pub changing : S → StateMach S
  changing s = record { state = s; change_state = true }

  step_none :
      (fuel n : ℕ) (s : S) (c : C)
      → m.check_conditions s (m.enter_state s c) ≡ none
      → change_state m (suc (suc fuel)) n (changing s) c
        ≡ some (n + 1, record { state = s; change_state = false }, m.enter_state s c)
  unfolding change_state
  step_none fuel n s c e = rw (e, check_condition)

  step_some :
      (fuel n : ℕ) (s t : S) (c : C)
      → m.check_conditions s (m.enter_state s c) ≡ some t
      → change_state m (suc fuel) n (changing s) c
        ≡ change_state m fuel (n + 1) (changing t) (m.enter_state s c)
  unfolding change_state
  step_some fuel n s t c e = rw (e, check_condition)

  -- If each round of the loop keeps `Inv` and lowers `rank`, then the loop returns, in a state
  -- whose entry action has just run and whose conditions all fail.
  module _ (Inv : S → C → Type 0) (rank : S → C → ℕ)
      (progress : (s : S) (c : C) (t : S)
        → Inv s c
        → m.check_conditions s (m.enter_state s c) ≡ some t
        → Inv t (m.enter_state s c) × (rank t (m.enter_state s c) < rank s c)) where
    pub change_state-Settled :
        (fuel n bound : ℕ) (s : S) (c : C)
        → Inv s c
        → suc (rank s c) < fuel
        → n + rank s c + 1 ≤ bound
        → Settled Inv bound (change_state m fuel n (changing s) c)
    change_state-Settled zero n bound s c i h b = absurd (omega arith)
    change_state-Settled (suc zero) n bound s c i h b = absurd (omega arith)
    change_state-Settled (suc (suc fuel)) n bound s c i h b =
        elim (Option-cases (m.check_conditions s (m.enter_state s c))) [
          | inl e ↦ record {
            loops = n + 1;
            state = s;
            entered_at = c;
            returned = step_none fuel n s c e;
            entered_Inv = i;
            quiescent = e;
            loops_bound = omega arith;
          }
          | inr (t, e) ↦
              let (j, lt) = progress s c t i e in
              rw (step_some (suc fuel) n s t c e) (
                change_state-Settled (suc fuel) (n + 1) bound t (m.enter_state s c) j (omega arith)
                  (omega arith))
        ]

    -- With one bound on the rank, from the first round on.
    pub settles :
        (bound : ℕ)
        → ((s : S) (c : C) → rank s c ≤ bound)
        → (s : S) (c : C) → Inv s c
        → Settled Inv (bound + 1) (change_state m (bound + 2) 0 (changing s) c)
    settles bound le s c i =
        change_state-Settled (bound + 2) 0 (bound + 1) s c i (omega (arith, le s c))
          (omega (arith, le s c))

  -- If `Inv` holds on entry and each round leads to a new round with `Inv`, then the loop never
  -- returns: no fuel is enough.
  module _ (Inv : S → C → Type 0)
      (again : (s : S) (c : C)
        → Inv s c
        → (t : S) × (m.check_conditions s (m.enter_state s c) ≡ some t)
          × Inv t (m.enter_state s c)) where
    pub change_state_diverges :
        (fuel n : ℕ) (s : S) (c : C) → Inv s c → change_state m fuel n (changing s) c ≡ none
    unfolding change_state
    change_state_diverges zero n s c i = refl
    change_state_diverges (suc fuel) n s c i =
        let (t, e, j) = again s c i in
        step_some fuel n s t c e ∙ change_state_diverges fuel (n + 1) t (m.enter_state s c) j
