-- ===== src/Update/Keeps.antt =====
-- rstplib/stpm.c and the machines: none of them writes to what the management has set.
use rstp.Prelude.{◌≡◌, refl, All}
use rstp.States.{MigrateState, PcostState, P2pState, BrdgdetState, SttransState, ReceiveState}
use rstp.Port.{Port}
use rstp.Stpm.{Stpm, Site, StpOut}
use rstp.Receive
use rstp.Migrate
use rstp.P2p
use rstp.Brdgdet
use rstp.Pcost
use rstp.Sttrans
use rstp.Update.{
  slots, sttrans_slot, pcost_slot, brdgdet_slot, p2p_slot, migrate_slot, receive_slot,
}
use rstp.Update.Setup.{site_setup, SamePort, Keeps, at_site}
use rstp.Update.InfoKeeps.{info-Keeps}
use rstp.Update.TopochKeeps.{topoch-Keeps}
use rstp.Update.TransmitKeeps.{transmit-Keeps}
use rstp.Update.RoletrnsKeeps.{roletrns-Keeps}

receive-Keeps : Keeps receive_slot
unfolding Receive.machine Receive.enter_port
receive-Keeps = record {
  enter = λ s w. at_site w (Receive.enter_port s w.port) (enter s w.port);
  put = λ m port. refl;
}
  where
    enter : (s : ReceiveState) (port : Port) → SamePort (Receive.enter_port s port) port
    enter ReceiveState.begin port = refl
    enter ReceiveState.discard port = refl
    enter ReceiveState.receive port = refl

migrate-Keeps : Keeps migrate_slot
unfolding Migrate.machine Migrate.enter_port
migrate-Keeps = record {
  enter = λ s w. at_site w (Migrate.enter_port s w.stpm w.port) (enter s w.stpm w.port);
  put = λ m port. refl;
}
  where
    enter :
        (s : MigrateState) (stpm : Stpm) (port : Port)
        → SamePort (Migrate.enter_port s stpm port) port
    enter MigrateState.begin stpm port = refl
    enter MigrateState.checking_rstp stpm port = refl
    enter MigrateState.selecting_stp stpm port = refl
    enter MigrateState.sensing stpm port = refl

brdgdet-Keeps : Keeps brdgdet_slot
unfolding Brdgdet.machine Brdgdet.enter_port
brdgdet-Keeps = record {
  enter = λ s w. at_site w (Brdgdet.enter_port s w.port) (enter s w.port);
  put = λ m port. refl;
}
  where
    enter : (s : BrdgdetState) (port : Port) → SamePort (Brdgdet.enter_port s port) port
    enter BrdgdetState.begin port = refl
    enter BrdgdetState.edge port = refl
    enter BrdgdetState.not_edge port = refl

p2p-Keeps : (out : StpOut) → Keeps (p2p_slot out)
unfolding P2p.machine P2p.enter_port
p2p-Keeps out = record {
  enter = λ s w. at_site w (P2p.enter_port out s w.port) (enter s w.port);
  put = λ m port. refl;
}
  where
    enter : (s : P2pState) (port : Port) → SamePort (P2p.enter_port out s port) port
    enter P2pState.begin port = refl
    enter P2pState.init port = refl
    enter P2pState.recompute port = refl
    enter P2pState.stable port = refl

pcost-Keeps : (out : StpOut) → Keeps (pcost_slot out)
unfolding Pcost.machine Pcost.enter_port Pcost.upd_port_path_cost
pcost-Keeps out = record {
  enter = λ s w. at_site w (Pcost.enter_port out s w.port) (enter s w.port);
  put = λ m port. refl;
}
  where
    enter : (s : PcostState) (port : Port) → SamePort (Pcost.enter_port out s port) port
    enter PcostState.begin port = refl
    enter PcostState.auto port = refl
    enter PcostState.force port = refl
    enter PcostState.stable port = refl

sttrans-Keeps : Keeps sttrans_slot
unfolding Sttrans.machine Sttrans.enter_site Sttrans.emit
sttrans-Keeps = record { enter = enter; put = λ m port. refl }
  where
    enter : (s : SttransState) (w : Site) → site_setup (Sttrans.enter_site s w) ≡ site_setup w
    enter SttransState.begin w = refl
    enter SttransState.discarding w = refl
    enter SttransState.learning w = refl
    enter SttransState.forwarding w = refl

-- Every machine of a port keeps the setup.
pub slots-Keeps : (out : StpOut) → All Keeps (slots out)
slots-Keeps out = (
  transmit-Keeps out,
  (
    sttrans-Keeps,
    (
      roletrns-Keeps,
      (
        info-Keeps,
        (
          pcost-Keeps out,
          (brdgdet-Keeps, (p2p-Keeps out, (migrate-Keeps, (topoch-Keeps, (receive-Keeps, tt))))),
        ),
      ),
    ),
  ),
)
