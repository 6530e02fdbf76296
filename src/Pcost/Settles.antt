-- ===== src/Pcost/Settles.antt =====
-- The path cost machine (rstplib/pcost.c) comes to rest.
use rstp.Prelude.{ℕ, ◌*◌, ◌≤◌, ◌<◌, ◌≡◌, some, arith, not, if◌then◌else◌, ◌==◌}
use rstp.StateMach.{change_state}
use rstp.StateMach.Loop.{Settled, Always, flag, changing, settles}
use rstp.States.{PcostState}
use rstp.Stpm.{Site, StpOut}
use rstp.Pcost.{machine}

abbrev rank : PcostState → Site → ℕ
rank PcostState.begin w = 4
rank PcostState.auto w = if w.port.admin_pcost == 0 then 1 else 3
rank PcostState.force w = if w.port.admin_pcost == 0 then 3 else 1
rank PcostState.stable w =
    if w.port.admin_pcost == 0
    then flag (not (w.port.oper_speed == w.port.used_speed)) * 2
    else flag (not (w.port.oper_pcost == w.port.admin_pcost)) * 2

rank-le : (s : PcostState) (w : Site) → rank s w ≤ 4
rank-le PcostState.begin w = ground arith
rank-le _ w = ground arith

progress :
    (out : StpOut) (s : PcostState) (w : Site) (t : PcostState)
    → Unit {0}
    → (machine out).check_conditions s ((machine out).enter_state s w) ≡ some t
    → Unit {0} × (rank t ((machine out).enter_state s w) < rank s w)
unfolding machine
progress out PcostState.begin w t i e = ground arith
progress out _ w t i e = ground arith

-- From any state and port the loop of `STP_change_state` returns within 5 rounds, in a
-- state whose entry action has run last and none of whose conditions holds.
pub pcost-Settled :
    (out : StpOut) (s : PcostState) (w : Site)
    → Settled (machine out) Always 5 (change_state (machine out) 6 0 (changing (machine out) s) w)
pcost-Settled out s w = settles (machine out) Always rank (progress out) 4 rank-le s w tt
