-- ===== src/Topoch/Settles.antt =====
-- The Topology Change machine (rstplib/topoch.c): the states that it stays in, at rest.
use rstp.Prelude.{ℕ, ◌≤◌, ◌<◌, ◌≡◌, ◌⊎◌, some, arith}
use rstp.StateMach.{change_state}
use rstp.StateMach.Loop.{Settled, changing, settles}
use rstp.States.{TopochState}
use rstp.Stpm.{Site}
use rstp.Topoch.{machine}

-- The two states before a port learns.
abbrev pub Dormant : TopochState → Site → Type 0
Dormant s w = (s ≡ TopochState.begin) ⊎ (s ≡ TopochState.inactive)

abbrev rank : TopochState → Site → ℕ
rank TopochState.begin w = 1
rank _ w = 0

rank-le : (s : TopochState) (w : Site) → rank s w ≤ 1
rank-le TopochState.begin w = ground arith
rank-le _ w = ground arith

progress :
    (s : TopochState) (w : Site) (t : TopochState)
    → Dormant s w
    → machine.check_conditions s (machine.enter_state s w) ≡ some t
    → Dormant t (machine.enter_state s w) × (rank t (machine.enter_state s w) < rank s w)
unfolding machine
progress TopochState.begin w t i e = ground arith
progress TopochState.inactive w t i e = ground arith
progress s w t i e = ground arith

-- From BEGIN or INACTIVE the loop of `STP_change_state` returns within 2 rounds, in BEGIN or
-- INACTIVE, with the entry action run last and no condition that holds.
pub topoch-Settled :
    (s : TopochState) (w : Site)
    → Dormant s w
    → Settled machine Dormant 2 (change_state machine 3 0 (changing machine s) w)
topoch-Settled s w i = settles machine Dormant rank progress 1 rank-le s w i
