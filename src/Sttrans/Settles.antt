-- ===== src/Sttrans/Settles.antt =====
-- The Port State Transition machine (rstplib/sttrans.c) comes to rest.
use rstp.Prelude.{ℕ, ◌≤◌, ◌<◌, ◌≡◌, some, arith, not, ◌||◌, if◌then◌else◌}
use rstp.StateMach.{change_state}
use rstp.StateMach.Loop.{Settled, Always, flag, changing, settles}
use rstp.States.{SttransState}
use rstp.Stpm.{Site}
use rstp.Sttrans.{machine}

abbrev rank : SttransState → Site → ℕ
rank SttransState.begin w = 3
rank SttransState.discarding w = if w.port.learn then (if w.port.forward then 2 else 1) else 0
rank SttransState.learning w = flag (w.port.forward || not w.port.learn)
rank SttransState.forwarding w = if w.port.forward then 0 else 2

rank-le : (s : SttransState) (w : Site) → rank s w ≤ 3
rank-le SttransState.begin w = ground arith
rank-le _ w = ground arith

progress :
    (s : SttransState) (w : Site) (t : SttransState)
    → Unit {0}
    → machine.check_conditions s (machine.enter_state s w) ≡ some t
    → Unit {0} × (rank t (machine.enter_state s w) < rank s w)
unfolding machine
progress SttransState.begin w t i e = ground arith
progress _ w t i e = ground arith

-- From any state and port the loop of `STP_change_state` returns within 4 rounds, in a
-- state whose entry action has run last and none of whose conditions holds.
pub sttrans-Settled :
    (s : SttransState) (w : Site)
    → Settled machine Always 4 (change_state machine 5 0 (changing machine s) w)
sttrans-Settled s w = settles machine Always rank progress 3 rank-le s w tt
