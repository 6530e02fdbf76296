-- ===== src/Update/TopochKeeps.antt =====
-- rstplib/topoch.c: Topology Change does not write to what the management has set.
use rstp.Prelude.{view-if, ◌+◌, ◌≡◌, refl, ◌∙◌, true, false, ◌==◌, ◌&&◌, if◌then◌else◌}
use rstp.States.{TopochState}
use rstp.Port.{Port}
use rstp.Stpm.{Stpm, Site, on_port}
use rstp.Topoch
use rstp.Update.{topoch_slot}
use rstp.Update.Setup.{port_setup, site_setup, SamePort, on_ports-keeps, Keeps, at_site}

new_tc_while_stp-keeps :
    (stpm : Stpm) (port : Port) → SamePort (Topoch.new_tc_while_stp stpm port) port
unfolding Topoch.new_tc_while_stp
new_tc_while_stp-keeps stpm port = view-if port_setup _ _ port refl refl

new_tc_while-keeps : (stpm : Stpm) (port : Port) → SamePort (Topoch.new_tc_while stpm port) port
unfolding Topoch.new_tc_while
new_tc_while-keeps stpm port =
    let first = port.tc_while == 0 && port.send_rstp in
    let set : Port = record port {
      tc_while = port.designated_times.hello_time + 1;
      new_info = true;
    } in
    new_tc_while_stp-keeps stpm (if first then set else port)
    ∙ view-if port_setup first set port refl refl

set_tc_prop_tree-keeps : (w : Site) → site_setup (Topoch.set_tc_prop_tree w) ≡ site_setup w
unfolding Topoch.set_tc_prop_tree
set_tc_prop_tree-keeps w =
    on_ports-keeps (Topoch.prop_from w.port) (λ tmp. view-if port_setup _ tmp _ refl refl) w

pub topoch-Keeps : Keeps topoch_slot
unfolding Topoch.machine Topoch.enter_site
topoch-Keeps = record { enter = enter; put = λ m port. refl }
  where
    enter : (s : TopochState) (w : Site) → site_setup (Topoch.enter_site s w) ≡ site_setup w
    enter TopochState.begin w = refl
    enter TopochState.inactive w = refl
    enter TopochState.learning w = refl
    enter TopochState.detected w =
        set_tc_prop_tree-keeps (record w { port = Topoch.new_tc_while w.stpm w.port })
        ∙ at_site w (Topoch.new_tc_while w.stpm w.port) (new_tc_while-keeps w.stpm w.port)
    enter TopochState.active w = refl
    enter TopochState.acknowledged w = refl
    enter TopochState.propagating w =
        at_site w (record (Topoch.new_tc_while w.stpm w.port) { fbd_flush = true; tc_prop = false })
          (new_tc_while-keeps w.stpm w.port)
    enter TopochState.notified_tc w = set_tc_prop_tree-keeps (
        on_port
          (λ port. record port {
            rcvd_tcn = false;
            rcvd_tc = false;
            tc_ack = if Topoch.is_designated port.role then true else port.tc_ack;
          })
          w)
    enter TopochState.notified_tcn w =
        at_site w (Topoch.new_tc_while w.stpm w.port) (new_tc_while-keeps w.stpm w.port)
