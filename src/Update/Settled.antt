-- ===== src/Update/Settled.antt =====
-- The machines of a port that always come to rest: receive.c, migrate.c, p2p.c, pcost.c, sttrans.c.
use rstp.StateMach.{change_state}
use rstp.StateMach.Loop.{Settled, Always, changing}
use rstp.States.{ReceiveState, MigrateState, P2pState, PcostState, SttransState}
use rstp.Stpm.{Site, StpOut}
use rstp.Receive
use rstp.Migrate
use rstp.P2p
use rstp.Pcost
use rstp.Sttrans
use rstp.Receive.Settles.{receive-Settled}
use rstp.Migrate.Settles.{migrate-Settled}
use rstp.P2p.Settles.{p2p-Settled}
use rstp.Pcost.Settles.{pcost-Settled}
use rstp.Sttrans.Settles.{sttrans-Settled}

-- From any state, port and environment the loop of `STP_change_state` returns, in a state whose entry
-- action has run last and none of whose conditions holds: within 2 rounds on the Port Receive
-- machine, 3 on Port Protocol Migration, 4 on the point to point machine and on Port State
-- Transition, and 5 on the path cost machine.
pub machines-Settled :
    (out : StpOut) (w : Site) (rcv : ReceiveState) (mig : MigrateState) (link : P2pState)
    (pco : PcostState) (trans : SttransState)
    → Settled Receive.machine Always 2
        (change_state Receive.machine 3 0 (changing Receive.machine rcv) w)
      × Settled Migrate.machine Always 3
          (change_state Migrate.machine 4 0 (changing Migrate.machine mig) w)
      × Settled
          (P2p.machine out)
          Always
          4
          (change_state (P2p.machine out) 5 0 (changing (P2p.machine out) link) w)
      × Settled
          (Pcost.machine out)
          Always
          5
          (change_state (Pcost.machine out) 6 0 (changing (Pcost.machine out) pco) w)
      × Settled Sttrans.machine Always 4
          (change_state Sttrans.machine 5 0 (changing Sttrans.machine trans) w)
machines-Settled out w rcv mig link pco trans = (
  receive-Settled rcv w,
  migrate-Settled mig w,
  p2p-Settled out link w,
  pcost-Settled out pco w,
  sttrans-Settled trans w,
)
