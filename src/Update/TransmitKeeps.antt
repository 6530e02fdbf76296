-- ===== src/Update/TransmitKeeps.antt =====
-- rstplib/transmit.c: Port Transmit does not write to what the management has set.
use rstp.Prelude.{view-if, ◌-◌, ◌≡◌, refl, ltb}
use rstp.States.{TransmitState}
use rstp.Stpm.{Site, StpOut, on_port}
use rstp.Transmit
use rstp.Update.{transmit_slot}
use rstp.Update.Setup.{site_setup, Keeps}

abbrev skip_one : Site → Site
skip_one w = let port = w.port in record w { port = record port { skip_tx = port.skip_tx - 1 } }

tx_rstp-keeps : (out : StpOut) (w : Site) → site_setup (Transmit.tx_rstp out w) ≡ site_setup w
unfolding Transmit.tx_rstp
tx_rstp-keeps out w =
    view-if site_setup (ltb 0 w.port.skip_tx) (skip_one w) _ refl
      (view-if site_setup w.port.admin_non_stp w _ refl refl)

tx_tcn-keeps : (out : StpOut) (w : Site) → site_setup (Transmit.tx_tcn out w) ≡ site_setup w
unfolding Transmit.tx_tcn
tx_tcn-keeps out w =
    view-if site_setup (ltb 0 w.port.skip_tx) (skip_one w) _ refl
      (view-if site_setup w.port.admin_non_stp w _ refl refl)

tx_config-keeps : (out : StpOut) (w : Site) → site_setup (Transmit.tx_config out w) ≡ site_setup w
unfolding Transmit.tx_config
tx_config-keeps out w =
    view-if site_setup (ltb 0 w.port.skip_tx) (skip_one w) _ refl
      (view-if site_setup w.port.admin_non_stp w _ refl refl)

pub transmit-Keeps : (out : StpOut) → Keeps (transmit_slot out)
unfolding Transmit.machine Transmit.enter_site
transmit-Keeps out = record { enter = enter; put = λ m port. refl }
  where
    enter : (s : TransmitState) (w : Site) → site_setup (Transmit.enter_site out s w) ≡ site_setup w
    enter TransmitState.begin w = refl
    enter TransmitState.transmit_init w = refl
    enter TransmitState.transmit_periodic w = refl
    enter TransmitState.idle w = refl
    enter TransmitState.transmit_rstp w = tx_rstp-keeps out (on_port Transmit.clear_new_info w)
    enter TransmitState.transmit_tcn w = tx_tcn-keeps out (on_port Transmit.clear_new_info w)
    enter TransmitState.transmit_config w = tx_config-keeps out (on_port Transmit.clear_new_info w)
