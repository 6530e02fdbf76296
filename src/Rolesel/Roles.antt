-- ===== src/Rolesel/Roles.antt =====
-- rstplib/rolesel.c: the roles that `updtRolesTree` selects, and the rounds of the machine.
use rstp.Prelude.{
  ◌<◌, ◌≤◌, ◌≡◌, ◌≢◌, ◌↔◌, ◌⊎◌, ◌∙◌, ℕ, refl, ap, List, [], ◌∷◌, map, Ordering, true, false, arith,
  All, some,
}
use rstp.StateMach.{change_state}
use rstp.StateMach.Loop.{Settled, Always, changing, settles}
use rstp.States.{RoleselState}
use rstp.Vector.{compare_vector}
use rstp.Port.{Port, PortRole, InfoIs}
use rstp.Stpm.{Stpm, Bridge}
use rstp.Rolesel.{
  machine, check_bridge, select_tree, select_role, set_designated, clear_reselect_tree,
  set_selected_tree, any_reselect, enter_bridge, updt_roles_tree, root_path_prio,
  updt_root_priority, consider_port,
}

-- The case in which each role is selected, for a port that takes part.
pub record Selects (stpm : Stpm) (port : Port) (role : PortRole) : Type 0 where
  pub disabled : (role ≡ PortRole.disabled_port) ↔ (port.info_is ≡ InfoIs.disabled)
  pub root :
      (role ≡ PortRole.root_port)
      ↔ ((port.info_is ≡ InfoIs.received) × (stpm.root_port_id ≡ port.port_id))
  pub blocked : ((role ≡ PortRole.alternate_port) ⊎ (role ≡ PortRole.backup_port)) ↔ (
      (port.info_is ≡ InfoIs.received)
      × (stpm.root_port_id ≢ port.port_id)
      × (compare_vector port.designated_priority port.port_priority ≢ Ordering.lt))
  pub takes_part : role ≢ PortRole.non_stp_port

-- On a port that takes part, `updtRolesTree` selects: Disabled exactly if the port's information
-- is disabled; Root exactly if it is received and the port is the bridge's root port; Alternate or
-- Backup exactly if it is received, the port is not the root port and its designated vector is
-- not better than the vector received. So it selects Designated in all other cases, and never
-- NonStp.
pub select_role-Selects :
    (stpm : Stpm) (port : Port)
    → port.admin_non_stp ≡ false
    → Selects stpm port (select_role stpm port).selected_role
unfolding select_role
select_role-Selects stpm port h = record {
  disabled = (λ e. ground arith, λ e. ground arith);
  root = (λ e. ground arith, λ e. ground arith);
  blocked = (λ e. ground arith, λ e. ground arith);
  takes_part = λ e. ground arith;
}

-- A port after ROLE_SELECTION: nothing to reselect, and selected.
abbrev pub IsSelected : Port → Type 0
IsSelected port = (port.reselect ≡ false) × (port.selected ≡ true)

any_reselect-map :
    (f : Port → Port)
    → ((port : Port) → (f port).reselect ≡ port.reselect)
    → (ports : List Port) → any_reselect (map f ports) ≡ any_reselect ports
any_reselect-map f keep [] = refl
any_reselect-map f keep (port ∷ ports) = rw (keep port, any_reselect-map f keep ports)

reselect-select_role :
    (stpm : Stpm) (port : Port) → (select_role stpm port).reselect ≡ port.reselect
unfolding select_role
reselect-select_role stpm port = ground arith

reselect-set_designated :
    (stpm : Stpm) (port : Port) → (set_designated stpm port).reselect ≡ port.reselect
unfolding set_designated
reselect-set_designated stpm port = ground arith

any_reselect-clear : (ports : List Port) → any_reselect (clear_reselect_tree ports) ≡ false
unfolding clear_reselect_tree
any_reselect-clear [] = refl
any_reselect-clear (port ∷ ports) = any_reselect-clear ports

any_reselect-updt_roles_tree :
    (this : Bridge) → any_reselect (updt_roles_tree this).ports ≡ any_reselect this.ports
unfolding updt_roles_tree
any_reselect-updt_roles_tree this =
    any_reselect-map _ (reselect-select_role _) _
    ∙ any_reselect-map _ (reselect-set_designated _) this.ports

select-All :
    (ports : List Port) → any_reselect ports ≡ false → All IsSelected (set_selected_tree ports)
unfolding set_selected_tree
select-All ports e = rw e (go ports e)
  where
    go :
        (ports : List Port)
        → any_reselect ports ≡ false
        → All IsSelected (map {A = Port} (λ port. record port { selected = true }) ports)
    go [] e = tt
    go (port ∷ ports) e = (ground arith, go ports (ground arith))

enter_selection : (this : Bridge) → enter_bridge RoleselState.role_selection this ≡ select_tree this
unfolding enter_bridge
enter_selection this = refl

-- ROLE_SELECTION leaves every port of the bridge selected, with none to be reselected.
pub role_selection-All :
    (this : Bridge) → All IsSelected (enter_bridge RoleselState.role_selection this).ports
unfolding select_tree
role_selection-All this =
    rw (enter_selection this)
      (select-All _ (any_reselect-updt_roles_tree _ ∙ any_reselect-clear this.ports))

not_reselect_of_All : (ports : List Port) → All IsSelected ports → any_reselect ports ≡ false
not_reselect_of_All [] h = refl
not_reselect_of_All (port ∷ ports) h = ground (arith, not_reselect_of_All ports h.1)

abbrev rank : RoleselState → Bridge → ℕ
rank RoleselState.begin this = 2
rank RoleselState.init_bridge this = 1
rank RoleselState.role_selection this = 0

rank-le : (s : RoleselState) (this : Bridge) → rank s this ≤ 2
rank-le RoleselState.begin this = ground arith
rank-le _ this = ground arith

progress :
    (s : RoleselState) (this : Bridge) (t : RoleselState)
    → Unit {0}
    → check_bridge s (enter_bridge s this) ≡ some t
    → Unit {0} × (rank t (enter_bridge s this) < rank s this)
unfolding check_bridge
progress RoleselState.begin this t i e = ground arith
progress RoleselState.init_bridge this t i e = ground arith
progress RoleselState.role_selection this t i e =
    ground (arith, not_reselect_of_All _ (role_selection-All this))

-- From any state and bridge the loop of `STP_change_state` returns within 3 rounds, in a state
-- whose entry action has run last and none of whose conditions holds.
pub rolesel-Settled :
    (s : RoleselState) (this : Bridge)
    → Settled machine Always 3 (change_state machine 4 0 (changing machine s) this)
unfolding machine
rolesel-Settled s this = settles machine Always rank progress 2 rank-le s this tt

-- What a port would be with another path cost.
abbrev pub with_cost : ℕ → Port → Port
with_cost cost port = record port { oper_pcost = cost }

consider_port-cost :
    (cost : Port → ℕ) (stpm : Stpm) (port : Port)
    → consider_port stpm (with_cost (cost port) port) ≡ consider_port stpm port
unfolding consider_port root_path_prio
consider_port-cost cost stpm port = refl

-- The root priority vector and times that `updtRootPriority` chooses do not depend on the path
-- costs of the ports: whatever costs they are given, the result is the same.
pub updt_root_priority-cost :
    (cost : Port → ℕ) (stpm : Stpm) (ports : List Port)
    → updt_root_priority stpm (map (λ port. with_cost (cost port) port) ports)
      ≡ updt_root_priority stpm ports
unfolding updt_root_priority
updt_root_priority-cost cost stpm [] = refl
updt_root_priority-cost cost stpm (port ∷ ports) =
    ap (λ s. updt_root_priority s (map (λ port. with_cost (cost port) port) ports))
      (consider_port-cost cost stpm port)
    ∙ updt_root_priority-cost cost (consider_port stpm port) ports
