-- ===== src/Transmit/Settles.antt =====
-- The Port Transmit machine (rstplib/transmit.c): when it comes to rest, and when it never does.
use rstp.Prelude.{ℕ, ◌≤◌, ◌<◌, ◌≡◌, none, some, arith, true, false, if◌then◌else◌}
use rstp.StateMach.{change_state}
use rstp.StateMach.Loop.{Settled, changing, settles, change_state_diverges}
use rstp.States.{TransmitState}
use rstp.Stpm.{Site, StpOut}
use rstp.Transmit.{machine}

abbrev pub HelloPositive : TransmitState → Site → Type 0
HelloPositive s w = 0 < w.stpm.root_times.hello_time

abbrev rank : TransmitState → Site → ℕ
rank TransmitState.begin w = 4
rank TransmitState.transmit_init w = 3
rank TransmitState.transmit_periodic w = 3
rank TransmitState.idle w = if w.port.new_info then 2 else 0
rank _ w = 1

rank-le : (s : TransmitState) (w : Site) → rank s w ≤ 4
rank-le TransmitState.begin w = ground arith
rank-le _ w = ground arith

progress :
    (out : StpOut) (s : TransmitState) (w : Site) (t : TransmitState)
    → HelloPositive s w
    → (machine out).check_conditions s ((machine out).enter_state s w) ≡ some t
    → HelloPositive t ((machine out).enter_state s w)
      × (rank t ((machine out).enter_state s w) < rank s w)
unfolding machine
progress out TransmitState.begin w t i e = ground arith
progress out _ w t i e = ground arith

-- If the bridge's hello time is not 0, the loop of `STP_change_state` returns within 5 rounds from
-- any state and port, in a state whose entry action has run last and none of whose conditions
-- holds.
pub transmit-Settled :
    (out : StpOut) (s : TransmitState) (w : Site)
    → 0 < w.stpm.root_times.hello_time
    → Settled
        (machine out)
        HelloPositive
        5
        (change_state (machine out) 6 0 (changing (machine out) s) w)
transmit-Settled out s w i = settles (machine out) HelloPositive rank (progress out) 4 rank-le s w i

-- What makes the machine go round: no hello time, on a port whose role is settled.
abbrev pub Restless : TransmitState → Site → Type 0
Restless s w =
    (w.stpm.root_times.hello_time ≡ 0) × (w.port.selected ≡ true) × (w.port.updt_info ≡ false)

-- The state that follows: IDLE, and after it TRANSMIT_PERIODIC.
abbrev following : TransmitState → TransmitState
following TransmitState.begin = TransmitState.transmit_init
following TransmitState.idle = TransmitState.transmit_periodic
following _ = TransmitState.idle

again :
    (out : StpOut) (s : TransmitState) (w : Site)
    → Restless s w
    → (t : TransmitState) × ((machine out).check_conditions s ((machine out).enter_state s w)
        ≡ some t)
      × Restless t ((machine out).enter_state s w)
unfolding machine
again out TransmitState.begin w i = (following TransmitState.begin, ground arith, ground arith)
again out TransmitState.idle w i = (following TransmitState.idle, ground arith, ground arith)
again out s w i = (TransmitState.idle, ground arith, ground arith)

-- If the bridge's hello time is 0, then on a port that is selected and has no pending update the
-- loop never returns, from any state: IDLE and TRANSMIT_PERIODIC lead to one another for ever.
pub transmit-diverges :
    (out : StpOut) (fuel : ℕ) (s : TransmitState) (w : Site)
    → w.stpm.root_times.hello_time ≡ 0
    → w.port.selected ≡ true
    → w.port.updt_info ≡ false
    → change_state (machine out) fuel 0 (changing (machine out) s) w ≡ none
transmit-diverges out fuel s w h p q =
    change_state_diverges (machine out) Restless (again out) fuel 0 s w (h, p, q)
