-- ===== src/P2p/Settles.antt =====
-- The point-to-point machine (rstplib/p2p.c) comes to rest.
use rstp.Prelude.{ℕ, ◌≤◌, ◌<◌, ◌≡◌, some, arith, if◌then◌else◌}
use rstp.StateMach.{change_state}
use rstp.StateMach.Loop.{Settled, Always, changing, settles}
use rstp.States.{P2pState}
use rstp.Stpm.{Site, StpOut}
use rstp.P2p.{machine}

abbrev rank : P2pState → Site → ℕ
rank P2pState.begin w = 3
rank P2pState.init w = 3
rank P2pState.recompute w = 1
rank P2pState.stable w = if w.port.p2p_recompute then 2 else 0

rank-le : (s : P2pState) (w : Site) → rank s w ≤ 3
rank-le P2pState.begin w = ground arith
rank-le _ w = ground arith

progress :
    (out : StpOut) (s : P2pState) (w : Site) (t : P2pState)
    → Unit {0}
    → (machine out).check_conditions s ((machine out).enter_state s w) ≡ some t
    → Unit {0} × (rank t ((machine out).enter_state s w) < rank s w)
unfolding machine
progress out P2pState.begin w t i e = ground arith
progress out _ w t i e = ground arith

-- From any state and port the loop of `STP_change_state` returns within 4 rounds, in a
-- state whose entry action has run last and none of whose conditions holds.
pub p2p-Settled :
    (out : StpOut) (s : P2pState) (w : Site)
    → Settled (machine out) Always 4 (change_state (machine out) 5 0 (changing (machine out) s) w)
p2p-Settled out s w = settles (machine out) Always rank (progress out) 3 rank-le s w tt
