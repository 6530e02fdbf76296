-- ===== src/Roletrns/Rank.antt =====
-- How many rounds of the Port Role Transitions machine (rstplib/roletrns.c) can follow: a measure
-- of each group of states, and that each step within the group lowers it.
use rstp.Prelude.{
  ℕ, ◌+◌, ◌*◌, ◌<◌, ◌≡◌, Bool, arith, true, false, not, ◌&&◌, ◌||◌, OnSome, if◌then◌else◌, ◌==◌,
}
use rstp.StateMach.Loop.{flag}
use rstp.States.{RoletrnsState}
use rstp.Port.{Port}
use rstp.Stpm.{Site, Stpm}
use rstp.Roletrns.{
  enter_site, check_root, check_proceed, must_sync, check_designated, check_alternate,
}

-- A reroot sets `reRoot` and, once the port forwards, REROOTED clears it.
abbrev reroot_rank : Port → ℕ
reroot_rank port = if port.forward then flag port.re_root else if port.re_root then 1 else 2

abbrev pub root_rank : Port → ℕ
root_rank port =
    flag (not port.agree)
    + flag port.proposed
    + flag (not port.learn)
    + flag (not port.forward)
    + reroot_rank port

-- What keeps a designated port from learning and forwarding.
abbrev blocked : Port → Bool
blocked port = port.sync && not port.synced || port.re_root && not (port.rr_while == 0)

abbrev pub designated_rank : Port → ℕ
designated_rank port =
    20 * flag (not port.synced || port.sync)
    + 10 * flag port.disputed
    + flag (not port.proposing)
    + flag port.re_root
    + (if blocked port
        then flag (port.learn || port.forward)
        else flag (not port.learn) + flag (not port.forward))

abbrev pub alternate_rank : Stpm → Port → ℕ
alternate_rank stpm port =
    flag (not port.agree)
    + flag port.proposed
    + flag (not (port.rb_while == 2 * stpm.root_times.hello_time))

-- The measure of a group at the state's own entry action.
abbrev pub base : RoletrnsState → Site → ℕ
base RoletrnsState.begin w = 0
base RoletrnsState.init_port w = 2
base RoletrnsState.disable_port w = 1
base RoletrnsState.disabled_port w = 0
base RoletrnsState.root_port w = 2 * root_rank w.port
base RoletrnsState.root_proposed w =
    1 + 2 * root_rank (enter_site RoletrnsState.root_proposed w).port
base RoletrnsState.root_forward w = 1 + 2 * root_rank (enter_site RoletrnsState.root_forward w).port
base RoletrnsState.root_agreed w = 1 + 2 * root_rank (enter_site RoletrnsState.root_agreed w).port
base RoletrnsState.root_learn w = 1 + 2 * root_rank (enter_site RoletrnsState.root_learn w).port
base RoletrnsState.reroot w = 1 + 2 * root_rank (enter_site RoletrnsState.reroot w).port
base RoletrnsState.rerooted w = 1 + 2 * root_rank (enter_site RoletrnsState.rerooted w).port
base RoletrnsState.designated_port w = 2 * designated_rank w.port
base RoletrnsState.designated_propose w =
    1 + 2 * designated_rank (enter_site RoletrnsState.designated_propose w).port
base RoletrnsState.designated_forward w =
    1 + 2 * designated_rank (enter_site RoletrnsState.designated_forward w).port
base RoletrnsState.designated_synced w =
    1 + 2 * designated_rank (enter_site RoletrnsState.designated_synced w).port
base RoletrnsState.designated_learn w =
    1 + 2 * designated_rank (enter_site RoletrnsState.designated_learn w).port
base RoletrnsState.designated_retired w =
    1 + 2 * designated_rank (enter_site RoletrnsState.designated_retired w).port
base RoletrnsState.designated_discard w =
    1 + 2 * designated_rank (enter_site RoletrnsState.designated_discard w).port
base RoletrnsState.alternate_port w = 2 * alternate_rank w.stpm w.port
base RoletrnsState.alternate_proposed w =
    1 + 2 * alternate_rank w.stpm (enter_site RoletrnsState.alternate_proposed w).port
base RoletrnsState.alternate_agreed w =
    1 + 2 * alternate_rank w.stpm (enter_site RoletrnsState.alternate_agreed w).port
base RoletrnsState.backup_port w =
    1 + 2 * alternate_rank w.stpm (enter_site RoletrnsState.backup_port w).port
base RoletrnsState.block_port w = 1 + 2 * alternate_rank w.stpm w.port

pub root_rank-lt : (port : Port) → root_rank port < 40
root_rank-lt port = ground arith

pub designated_rank-lt : (port : Port) → designated_rank port < 40
designated_rank-lt port = ground arith

pub alternate_rank-lt : (stpm : Stpm) (port : Port) → alternate_rank stpm port < 40
alternate_rank-lt stpm port = ground arith

-- Each test that ROOT_PORT makes leads to a lower state.
pub base-check_root :
    (synced rerooted : Bool) (w : Site)
    → w.port.rr_while ≡ w.stpm.root_times.forward_delay
    → OnSome (λ t. base t w < 2 * root_rank w.port) (check_root synced rerooted w.stpm w.port)
unfolding check_root enter_site
base-check_root synced rerooted w r = ground arith

pub base-check_alternate :
    (synced : Bool) (w : Site)
    → w.port.fd_while ≡ w.stpm.root_times.forward_delay
    → (w.port.sync || w.port.re_root || not w.port.synced) ≡ false
    → OnSome
        (λ t. base t w < 2 * alternate_rank w.stpm w.port)
        (check_alternate synced w.stpm w.port)
unfolding check_alternate enter_site
base-check_alternate synced w r q = ground arith

pub base-check_proceed :
    (w : Site) → OnSome (λ t. base t w < 2 * designated_rank w.port) (check_proceed w.port)
unfolding check_proceed enter_site
base-check_proceed w = ground arith

base-propose :
    (w : Site)
    → w.port.proposing ≡ false
    → base RoletrnsState.designated_propose w < 2 * designated_rank w.port
unfolding enter_site
base-propose w e = ground arith

base-synced :
    (w : Site)
    → must_sync w.port ≡ true
    → base RoletrnsState.designated_synced w < 2 * designated_rank w.port
unfolding enter_site must_sync
base-synced w e = ground arith

base-retired :
    (w : Site)
    → (w.port.rr_while == 0 && w.port.re_root) ≡ true
    → base RoletrnsState.designated_retired w < 2 * designated_rank w.port
unfolding enter_site
base-retired w e = ground arith

pub base-check_designated :
    (w : Site) → OnSome (λ t. base t w < 2 * designated_rank w.port) (check_designated w.port)
unfolding check_designated
base-check_designated w =
    ground (arith, base-check_proceed w, base-propose w, base-synced w, base-retired w)
