-- ===== src/Brdgdet/Settles.antt =====
-- The Bridge Detection machine (rstplib/brdgdet.c): when it comes to rest.
use rstp.Prelude.{◌≤◌, ◌<◌, ◌≡◌, ℕ, some, arith, Bool, false, not, ◌&&◌, ◌==◌, if◌then◌else◌}
use rstp.StateMach.{change_state}
use rstp.StateMach.Loop.{Settled, flag, changing, settles}
use rstp.States.{BrdgdetState}
use rstp.Port.{Port}
use rstp.Stpm.{Site}
use rstp.Brdgdet.{machine}

-- The test that leads from EDGE to NOT_EDGE and the one that leads back hold at once: the port is
-- disabled and no administrative edge port, and its timer, flags and protocol allow automatic edge
-- detection.
abbrev oscillates : Port → Bool
oscillates port =
    not port.port_enabled
    && not port.admin_edge_port
    && port.edge_delay_while == 0
    && port.auto_edge_port
    && port.send_rstp
    && port.proposing

abbrev pub Calm : BrdgdetState → Site → Type 0
Calm s w = oscillates w.port ≡ false

abbrev rank : BrdgdetState → Site → ℕ
rank BrdgdetState.begin w = 2
rank BrdgdetState.edge w = flag (not w.port.port_enabled && not w.port.admin_edge_port)
rank BrdgdetState.not_edge w =
    if not w.port.port_enabled && not w.port.admin_edge_port then 0 else 1

rank-le : (s : BrdgdetState) (w : Site) → rank s w ≤ 2
rank-le BrdgdetState.begin w = ground arith
rank-le _ w = ground arith

progress :
    (s : BrdgdetState) (w : Site) (t : BrdgdetState)
    → Calm s w
    → machine.check_conditions s (machine.enter_state s w) ≡ some t
    → Calm t (machine.enter_state s w) × (rank t (machine.enter_state s w) < rank s w)
unfolding machine
progress BrdgdetState.begin w t i e = ground arith
progress _ w t i e = ground arith

-- Unless the test that leads from EDGE to NOT_EDGE and the one that leads back hold at once, the
-- loop of `STP_change_state` returns within 3 rounds from any state, in a state whose entry action
-- has run last and none of whose conditions holds.
pub brdgdet-Settled :
    (s : BrdgdetState) (w : Site)
    → Calm s w
    → Settled machine Calm 3 (change_state machine 4 0 (changing machine s) w)
brdgdet-Settled s w i = settles machine Calm rank progress 2 rank-le s w i
