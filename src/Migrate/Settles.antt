-- ===== src/Migrate/Settles.antt =====
-- The Port Protocol Migration machine (rstplib/migrate.c) comes to rest.
use rstp.Prelude.{ℕ, ◌≤◌, ◌<◌, ◌≡◌, some, arith}
use rstp.StateMach.{change_state}
use rstp.StateMach.Loop.{Settled, Always, changing, settles}
use rstp.States.{MigrateState}
use rstp.Stpm.{Site}
use rstp.Migrate.{machine}

abbrev rank : MigrateState → Site → ℕ
rank MigrateState.begin w = 1
rank MigrateState.checking_rstp w = 0
rank MigrateState.selecting_stp w = 2
rank MigrateState.sensing w = 1

rank-le : (s : MigrateState) (w : Site) → rank s w ≤ 2
rank-le MigrateState.begin w = ground arith
rank-le _ w = ground arith

progress :
    (s : MigrateState) (w : Site) (t : MigrateState)
    → Unit {0}
    → machine.check_conditions s (machine.enter_state s w) ≡ some t
    → Unit {0} × (rank t (machine.enter_state s w) < rank s w)
unfolding machine
progress MigrateState.begin w t i e = ground arith
progress _ w t i e = ground arith

-- From any state and port the loop of `STP_change_state` returns within 3 rounds, in a
-- state whose entry action has run last and none of whose conditions holds.
pub migrate-Settled :
    (s : MigrateState) (w : Site)
    → Settled machine Always 3 (change_state machine 4 0 (changing machine s) w)
migrate-Settled s w = settles machine Always rank progress 2 rank-le s w tt
