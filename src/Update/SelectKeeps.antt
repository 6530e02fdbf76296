-- ===== src/Update/SelectKeeps.antt =====
-- rstplib/rolesel.c: the Port Role Selection machine keeps what the management has set.
use rstp.Prelude.{view-if, ◌≡◌, refl, ap, ◌∙◌, Bool, true, false, ◌==◌, List, [], ◌∷◌, map}
use rstp.States.{RoleselState}
use rstp.Vector.{compare_vector, is_negative}
use rstp.Port.{Port, InfoIs, PortRole}
use rstp.Stpm.{Stpm, Bridge}
use rstp.Rolesel
use rstp.Update.Setup.{port_setup, stpm_setup, bridge_setup, SamePort, setup-map}

set_role_selected-keeps :
    (role : PortRole) (port : Port) → SamePort (Rolesel.set_role_selected port role) port
unfolding Rolesel.set_role_selected
set_role_selected-keeps role port = refl

select_received-keeps :
    (stpm : Stpm) (port : Port) → SamePort (Rolesel.select_received stpm port) port
unfolding Rolesel.select_received Rolesel.set_role_selected
select_received-keeps stpm port =
    let with_role : PortRole → Bool → Port =
      λ role updt_info. record (Rolesel.set_role_selected port role) { updt_info = updt_info } in
    view-if port_setup (stpm.root_port_id == port.port_id) (with_role PortRole.root_port false) _
      refl
      (view-if port_setup (is_negative (compare_vector port.designated_priority port.port_priority))
        (with_role PortRole.designated_port true) _ refl
        (view-if port_setup (Rolesel.is_backup_port port stpm)
          (with_role PortRole.backup_port false) (with_role PortRole.alternate_port false) refl
          refl))

select_by_info-keeps :
    (info : InfoIs) (stpm : Stpm) (port : Port)
    → SamePort (Rolesel.select_by_info info stpm port) port
unfolding Rolesel.select_by_info Rolesel.select_mine Rolesel.set_role_selected
select_by_info-keeps InfoIs.disabled stpm port = refl
select_by_info-keeps InfoIs.aged stpm port = refl
select_by_info-keeps InfoIs.mine stpm port = refl
select_by_info-keeps InfoIs.received stpm port = select_received-keeps stpm port

select_role-keeps : (stpm : Stpm) (port : Port) → SamePort (Rolesel.select_role stpm port) port
unfolding Rolesel.select_role Rolesel.set_role_selected
select_role-keeps stpm port =
    view-if port_setup _ _ _ refl (select_by_info-keeps port.info_is stpm port)

set_designated-keeps :
    (stpm : Stpm) (port : Port) → SamePort (Rolesel.set_designated stpm port) port
unfolding Rolesel.set_designated
set_designated-keeps stpm port = view-if port_setup _ port _ refl refl

updt_root_priority-keeps :
    (stpm : Stpm) (ports : List Port)
    → stpm_setup (Rolesel.updt_root_priority stpm ports) ≡ stpm_setup stpm
unfolding Rolesel.updt_root_priority Rolesel.consider_port
updt_root_priority-keeps stpm [] = refl
updt_root_priority-keeps stpm (port ∷ ports) =
    updt_root_priority-keeps (Rolesel.consider_port stpm port) ports
    ∙ view-if stpm_setup _ _ stpm refl refl

set_selected_tree-keeps :
    (ports : List Port) → map port_setup (Rolesel.set_selected_tree ports) ≡ map port_setup ports
unfolding Rolesel.set_selected_tree
set_selected_tree-keeps ports =
    view-if (map port_setup) _ ports _ refl (setup-map _ (λ port. refl) ports)

updt_roles_tree-keeps :
    (this : Bridge) → bridge_setup (Rolesel.updt_roles_tree this) ≡ bridge_setup this
unfolding Rolesel.updt_roles_tree Rolesel.assume_root
updt_roles_tree-keeps this =
    let best = Rolesel.updt_root_priority (Rolesel.assume_root this.stpm) this.ports in
    let stpm = Rolesel.record_root_port best in
    rw
      (
        setup-map (Rolesel.select_role stpm) (select_role-keeps stpm)
            (map (Rolesel.set_designated best) this.ports),
        setup-map (Rolesel.set_designated best) (set_designated-keeps best) this.ports,
      )
      (ap (λ s. (s, map port_setup this.ports))
        (updt_root_priority-keeps (Rolesel.assume_root this.stpm) this.ports))

clear_reselect_tree-keeps :
    (ports : List Port) → map port_setup (Rolesel.clear_reselect_tree ports) ≡ map port_setup ports
unfolding Rolesel.clear_reselect_tree
clear_reselect_tree-keeps ports = setup-map _ (λ port. refl) ports

disable_tree-keeps : (this : Bridge) → bridge_setup (Rolesel.disable_tree this) ≡ bridge_setup this
unfolding Rolesel.updt_role_disable_tree
disable_tree-keeps this =
    ap (λ ports. (stpm_setup this.stpm, ports)) (setup-map _ (λ port. refl) this.ports)

pub rolesel-keeps :
    (s : RoleselState) (this : Bridge)
    → bridge_setup (Rolesel.machine.enter_state s this) ≡ bridge_setup this
unfolding Rolesel.machine Rolesel.enter_bridge Rolesel.select_tree
rolesel-keeps RoleselState.begin this = disable_tree-keeps this
rolesel-keeps RoleselState.init_bridge this = disable_tree-keeps this
rolesel-keeps RoleselState.role_selection this =
    let cleared = record this { ports = Rolesel.clear_reselect_tree this.ports } in
    let chosen = Rolesel.updt_roles_tree cleared in
    ap (λ ports. (stpm_setup chosen.stpm, ports)) (set_selected_tree-keeps chosen.ports)
    ∙ updt_roles_tree-keeps cleared
    ∙ ap (λ ports. (stpm_setup this.stpm, ports)) (clear_reselect_tree-keeps this.ports)
