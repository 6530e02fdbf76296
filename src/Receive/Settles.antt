-- ===== src/Receive/Settles.antt =====
-- The Port Receive machine (rstplib/receive.c) comes to rest.
use rstp.Prelude.{ℕ, ◌≤◌, ◌<◌, ◌≡◌, some, arith}
use rstp.StateMach.{change_state}
use rstp.StateMach.Loop.{Settled, Always, changing, settles}
use rstp.States.{ReceiveState}
use rstp.Stpm.{Site}
use rstp.Receive.{machine}

abbrev rank : ReceiveState → Site → ℕ
rank ReceiveState.begin w = 1
rank _ w = 0

rank-le : (s : ReceiveState) (w : Site) → rank s w ≤ 1
rank-le ReceiveState.begin w = ground arith
rank-le _ w = ground arith

progress :
    (s : ReceiveState) (w : Site) (t : ReceiveState)
    → Unit {0}
    → machine.check_conditions s (machine.enter_state s w) ≡ some t
    → Unit {0} × (rank t (machine.enter_state s w) < rank s w)
unfolding machine
progress ReceiveState.begin w t i e = ground arith
progress _ w t i e = ground arith

-- From any state and port the loop of `STP_change_state` returns within 2 rounds, in a
-- state whose entry action has run last and none of whose conditions holds.
pub receive-Settled :
    (s : ReceiveState) (w : Site)
    → Settled machine Always 2 (change_state machine 3 0 (changing machine s) w)
receive-Settled s w = settles machine Always rank progress 1 rank-le s w tt
