-- ===== src/Info/Settles.antt =====
-- The Port Information machine (rstplib/portinfo.c) comes to rest.
use rstp.Prelude.{ℕ, ◌≤◌, ◌<◌, ◌≡◌, some, arith, ◌&&◌, if◌then◌else◌}
use rstp.StateMach.{change_state}
use rstp.StateMach.Loop.{Settled, Always, changing, settles}
use rstp.States.{InfoState}
use rstp.Port.{Port}
use rstp.Stpm.{Site}
use rstp.Info.{machine}

abbrev pending : Port → ℕ → ℕ → ℕ
pending port a b = if port.selected && port.updt_info then a else b

-- How many rounds can follow, from a port in the state, before its entry action.
abbrev port_rank : InfoState → Port → ℕ
port_rank InfoState.begin port = 2
port_rank InfoState.disabled port = if port.port_enabled then 1 else 0
port_rank InfoState.aged port = if port.port_enabled then 0 else 1
port_rank InfoState.update port = 5
port_rank InfoState.current port = pending port 6 (if port.rcvd_msg then 4 else 1)
port_rank InfoState.receive port = pending port 8 3
port_rank _ port = pending port 7 2

abbrev rank : InfoState → Site → ℕ
rank s w = port_rank s w.port

rank-le : (s : InfoState) (w : Site) → rank s w ≤ 8
rank-le InfoState.begin w = ground arith
rank-le _ w = ground arith

progress :
    (s : InfoState) (w : Site) (t : InfoState)
    → Unit {0}
    → machine.check_conditions s (machine.enter_state s w) ≡ some t
    → Unit {0} × (rank t (machine.enter_state s w) < rank s w)
unfolding machine
progress InfoState.begin w t i e = ground arith
progress _ w t i e = ground arith

-- From any state and port the loop of `STP_change_state` returns within 9 rounds, in a state whose
-- entry action has run last and none of whose conditions holds.
pub info-Settled :
    (s : InfoState) (w : Site)
    → Settled machine Always 9 (change_state machine 10 0 (changing machine s) w)
info-Settled s w = settles machine Always rank progress 8 rank-le s w tt
