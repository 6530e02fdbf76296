-- ===== src/Update/RoletrnsKeeps.antt =====
-- rstplib/roletrns.c: Port Role Transitions does not write to what the management has set.
use rstp.Prelude.{◌≡◌, refl, true}
use rstp.States.{RoletrnsState}
use rstp.Port.{Port}
use rstp.Stpm.{Stpm, Site}
use rstp.Roletrns
use rstp.Update.{roletrns_slot}
use rstp.Update.Setup.{site_setup, SamePort, on_ports-keeps, Keeps, at_site}

set_sync_tree-keeps : (w : Site) → site_setup (Roletrns.set_sync_tree w) ≡ site_setup w
unfolding Roletrns.set_sync_tree
set_sync_tree-keeps w = on_ports-keeps (λ port. record port { sync = true }) (λ port. refl) w

set_re_root_tree-keeps : (w : Site) → site_setup (Roletrns.set_re_root_tree w) ≡ site_setup w
unfolding Roletrns.set_re_root_tree
set_re_root_tree-keeps w = on_ports-keeps (λ port. record port { re_root = true }) (λ port. refl) w

roletrns_port-keeps :
    (s : RoletrnsState) (stpm : Stpm) (port : Port)
    → SamePort (Roletrns.enter_port s stpm port) port
unfolding Roletrns.enter_port
roletrns_port-keeps RoletrnsState.begin stpm port = refl
roletrns_port-keeps RoletrnsState.init_port stpm port = refl
roletrns_port-keeps RoletrnsState.disable_port stpm port = refl
roletrns_port-keeps RoletrnsState.disabled_port stpm port = refl
roletrns_port-keeps RoletrnsState.root_port stpm port = refl
roletrns_port-keeps RoletrnsState.root_proposed stpm port = refl
roletrns_port-keeps RoletrnsState.root_forward stpm port = refl
roletrns_port-keeps RoletrnsState.root_agreed stpm port = refl
roletrns_port-keeps RoletrnsState.root_learn stpm port = refl
roletrns_port-keeps RoletrnsState.reroot stpm port = refl
roletrns_port-keeps RoletrnsState.rerooted stpm port = refl
roletrns_port-keeps RoletrnsState.designated_port stpm port = refl
roletrns_port-keeps RoletrnsState.designated_propose stpm port = refl
roletrns_port-keeps RoletrnsState.designated_forward stpm port = refl
roletrns_port-keeps RoletrnsState.designated_synced stpm port = refl
roletrns_port-keeps RoletrnsState.designated_learn stpm port = refl
roletrns_port-keeps RoletrnsState.designated_retired stpm port = refl
roletrns_port-keeps RoletrnsState.designated_discard stpm port = refl
roletrns_port-keeps RoletrnsState.alternate_port stpm port = refl
roletrns_port-keeps RoletrnsState.alternate_proposed stpm port = refl
roletrns_port-keeps RoletrnsState.alternate_agreed stpm port = refl
roletrns_port-keeps RoletrnsState.block_port stpm port = refl
roletrns_port-keeps RoletrnsState.backup_port stpm port = refl

pub roletrns-Keeps : Keeps roletrns_slot
unfolding Roletrns.machine Roletrns.enter_site Roletrns.enter_port
roletrns-Keeps = record { enter = enter; put = λ m port. refl }
  where
    enter : (s : RoletrnsState) (w : Site) → site_setup (Roletrns.enter_site s w) ≡ site_setup w
    enter RoletrnsState.root_proposed w = set_sync_tree-keeps w
    enter RoletrnsState.alternate_proposed w = set_sync_tree-keeps w
    enter RoletrnsState.reroot w = set_re_root_tree-keeps w
    enter s w =
        at_site w (Roletrns.enter_port s w.stpm w.port) (roletrns_port-keeps s w.stpm w.port)
