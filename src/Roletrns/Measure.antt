-- ===== src/Roletrns/Measure.antt =====
-- The measure that goes down while the Port Role Transitions machine (rstplib/roletrns.c) runs.
use rstp.Prelude.{ℕ, ◌≤◌, ◌<◌, Bool, false, arith, not, ◌&&◌, if◌then◌else◌}
use rstp.States.{RoletrnsState}
use rstp.Port.{Port, PortRole}
use rstp.Stpm.{Site}
use rstp.Roletrns.{enter_site, role_eq}
use rstp.Roletrns.Rank.{base, root_rank-lt, designated_rank-lt, alternate_rank-lt}

-- The role after the entry action.
abbrev role_after : RoletrnsState → Port → PortRole
role_after RoletrnsState.begin port = PortRole.disabled_port
role_after RoletrnsState.init_port port = PortRole.disabled_port
role_after RoletrnsState.disable_port port = port.selected_role
role_after RoletrnsState.block_port port = port.selected_role
role_after RoletrnsState.root_port port = PortRole.root_port
role_after RoletrnsState.designated_port port = PortRole.designated_port
role_after s port = port.role

-- Whether the first switch will be taken then.
abbrev pub moves : RoletrnsState → Port → Bool
moves s port =
    not (role_eq (role_after s port) port.selected_role) && port.selected && not port.updt_info

-- The test of the first switch.
abbrev pub moved : Port → Bool
moved port = not (role_eq port.role port.selected_role) && port.selected && not port.updt_info

-- A state that leads back to `hub`, which sets the role: one more change of role may follow.
abbrev pub inner_rank : RoletrnsState → RoletrnsState → Site → ℕ
inner_rank hub s w = if moves s w.port then 100 else if moves hub w.port then 150 else base s w

abbrev pub outer_rank : RoletrnsState → Site → ℕ
outer_rank s w = if moves s w.port then 100 else base s w

abbrev pub rank : RoletrnsState → Site → ℕ
rank RoletrnsState.begin w = 102
rank RoletrnsState.init_port w = 101
rank RoletrnsState.root_proposed w =
    inner_rank RoletrnsState.root_port RoletrnsState.root_proposed w
rank RoletrnsState.root_forward w = inner_rank RoletrnsState.root_port RoletrnsState.root_forward w
rank RoletrnsState.root_agreed w = inner_rank RoletrnsState.root_port RoletrnsState.root_agreed w
rank RoletrnsState.root_learn w = inner_rank RoletrnsState.root_port RoletrnsState.root_learn w
rank RoletrnsState.reroot w = inner_rank RoletrnsState.root_port RoletrnsState.reroot w
rank RoletrnsState.rerooted w = inner_rank RoletrnsState.root_port RoletrnsState.rerooted w
rank RoletrnsState.designated_propose w =
    inner_rank RoletrnsState.designated_port RoletrnsState.designated_propose w
rank RoletrnsState.designated_forward w =
    inner_rank RoletrnsState.designated_port RoletrnsState.designated_forward w
rank RoletrnsState.designated_synced w =
    inner_rank RoletrnsState.designated_port RoletrnsState.designated_synced w
rank RoletrnsState.designated_learn w =
    inner_rank RoletrnsState.designated_port RoletrnsState.designated_learn w
rank RoletrnsState.designated_retired w =
    inner_rank RoletrnsState.designated_port RoletrnsState.designated_retired w
rank RoletrnsState.designated_discard w =
    inner_rank RoletrnsState.designated_port RoletrnsState.designated_discard w
rank s w = outer_rank s w

pub base-lt : (s : RoletrnsState) (w : Site) → base s w < 100
base-lt RoletrnsState.root_port w = omega (arith, root_rank-lt w.port)
base-lt RoletrnsState.designated_port w = omega (arith, designated_rank-lt w.port)
base-lt RoletrnsState.alternate_port w = omega (arith, alternate_rank-lt w.stpm w.port)
base-lt RoletrnsState.block_port w = omega (arith, alternate_rank-lt w.stpm w.port)
base-lt RoletrnsState.root_proposed w =
    omega (arith, root_rank-lt (enter_site RoletrnsState.root_proposed w).port)
base-lt RoletrnsState.root_forward w =
    omega (arith, root_rank-lt (enter_site RoletrnsState.root_forward w).port)
base-lt RoletrnsState.root_agreed w =
    omega (arith, root_rank-lt (enter_site RoletrnsState.root_agreed w).port)
base-lt RoletrnsState.root_learn w =
    omega (arith, root_rank-lt (enter_site RoletrnsState.root_learn w).port)
base-lt RoletrnsState.reroot w =
    omega (arith, root_rank-lt (enter_site RoletrnsState.reroot w).port)
base-lt RoletrnsState.rerooted w =
    omega (arith, root_rank-lt (enter_site RoletrnsState.rerooted w).port)
base-lt RoletrnsState.designated_propose w =
    omega (arith, designated_rank-lt (enter_site RoletrnsState.designated_propose w).port)
base-lt RoletrnsState.designated_forward w =
    omega (arith, designated_rank-lt (enter_site RoletrnsState.designated_forward w).port)
base-lt RoletrnsState.designated_synced w =
    omega (arith, designated_rank-lt (enter_site RoletrnsState.designated_synced w).port)
base-lt RoletrnsState.designated_learn w =
    omega (arith, designated_rank-lt (enter_site RoletrnsState.designated_learn w).port)
base-lt RoletrnsState.designated_retired w =
    omega (arith, designated_rank-lt (enter_site RoletrnsState.designated_retired w).port)
base-lt RoletrnsState.designated_discard w =
    omega (arith, designated_rank-lt (enter_site RoletrnsState.designated_discard w).port)
base-lt RoletrnsState.alternate_proposed w =
    omega (arith, alternate_rank-lt w.stpm (enter_site RoletrnsState.alternate_proposed w).port)
base-lt RoletrnsState.alternate_agreed w =
    omega (arith, alternate_rank-lt w.stpm (enter_site RoletrnsState.alternate_agreed w).port)
base-lt RoletrnsState.backup_port w =
    omega (arith, alternate_rank-lt w.stpm (enter_site RoletrnsState.backup_port w).port)
base-lt _ w = omega arith

choice_le : (a b : Bool) (n : ℕ) → n < 100 → (if a then 100 else if b then 150 else n) ≤ 150
choice_le a b n h = ground arith

inner_rank-le : (hub s : RoletrnsState) (w : Site) → inner_rank hub s w ≤ 150
inner_rank-le hub s w = choice_le (moves s w.port) (moves hub w.port) (base s w) (base-lt s w)

outer_rank-le : (s : RoletrnsState) (w : Site) → outer_rank s w ≤ 150
outer_rank-le s w = choice_le (moves s w.port) false (base s w) (base-lt s w)

pub rank-le : (s : RoletrnsState) (w : Site) → rank s w ≤ 150
rank-le RoletrnsState.begin w = ground arith
rank-le RoletrnsState.init_port w = ground arith
rank-le RoletrnsState.root_proposed w =
    inner_rank-le RoletrnsState.root_port RoletrnsState.root_proposed w
rank-le RoletrnsState.root_forward w =
    inner_rank-le RoletrnsState.root_port RoletrnsState.root_forward w
rank-le RoletrnsState.root_agreed w =
    inner_rank-le RoletrnsState.root_port RoletrnsState.root_agreed w
rank-le RoletrnsState.root_learn w =
    inner_rank-le RoletrnsState.root_port RoletrnsState.root_learn w
rank-le RoletrnsState.reroot w = inner_rank-le RoletrnsState.root_port RoletrnsState.reroot w
rank-le RoletrnsState.rerooted w = inner_rank-le RoletrnsState.root_port RoletrnsState.rerooted w
rank-le RoletrnsState.designated_propose w =
    inner_rank-le RoletrnsState.designated_port RoletrnsState.designated_propose w
rank-le RoletrnsState.designated_forward w =
    inner_rank-le RoletrnsState.designated_port RoletrnsState.designated_forward w
rank-le RoletrnsState.designated_synced w =
    inner_rank-le RoletrnsState.designated_port RoletrnsState.designated_synced w
rank-le RoletrnsState.designated_learn w =
    inner_rank-le RoletrnsState.designated_port RoletrnsState.designated_learn w
rank-le RoletrnsState.designated_retired w =
    inner_rank-le RoletrnsState.designated_port RoletrnsState.designated_retired w
rank-le RoletrnsState.designated_discard w =
    inner_rank-le RoletrnsState.designated_port RoletrnsState.designated_discard w
rank-le s w = outer_rank-le s w
