-- ===== src/Roletrns/Hubs.antt =====
-- The Port Role Transitions machine (rstplib/roletrns.c): the states ROOT_PORT, DESIGNATED_PORT and
-- ALTERNATE_PORT, which test most.
use rstp.Prelude.{
  ℕ, ◌*◌, ◌<◌, ◌≡◌, refl, none, Option, Bool, true, false, some, arith, OnSome, OnSome-guard,
  of_OnSome, if◌then◌else◌,
}
use rstp.States.{RoletrnsState}
use rstp.Port.{Port, PortRole}
use rstp.Stpm.{Site}
use rstp.Roletrns.{
  enter_site, check_switch, check_root, check_designated, check_proceed, check_alternate,
  compute_allsynced, compute_rerooted,
}
use rstp.Roletrns.Rank.{
  base, base-check_root, base-check_alternate, base-check_designated, root_rank, designated_rank,
  alternate_rank,
}
use rstp.Roletrns.Measure.{moves, moved, rank}

abbrev is_root_state : RoletrnsState → Bool
is_root_state RoletrnsState.root_port = true
is_root_state RoletrnsState.root_proposed = true
is_root_state RoletrnsState.root_forward = true
is_root_state RoletrnsState.root_agreed = true
is_root_state RoletrnsState.root_learn = true
is_root_state RoletrnsState.reroot = true
is_root_state RoletrnsState.rerooted = true
is_root_state _ = false

abbrev is_designated_inner : RoletrnsState → Bool
is_designated_inner RoletrnsState.designated_propose = true
is_designated_inner RoletrnsState.designated_forward = true
is_designated_inner RoletrnsState.designated_synced = true
is_designated_inner RoletrnsState.designated_learn = true
is_designated_inner RoletrnsState.designated_retired = true
is_designated_inner RoletrnsState.designated_discard = true
is_designated_inner _ = false

abbrev is_alternate_state : RoletrnsState → Bool
is_alternate_state RoletrnsState.alternate_port = true
is_alternate_state RoletrnsState.alternate_proposed = true
is_alternate_state RoletrnsState.alternate_agreed = true
is_alternate_state RoletrnsState.backup_port = true
is_alternate_state _ = false

-- The states that the tests of a hub lead to.
group-check_root :
    (synced rerooted : Bool) (w : Site)
    → OnSome (λ t. is_root_state t ≡ true) (check_root synced rerooted w.stpm w.port)
unfolding check_root
group-check_root synced rerooted w = ground arith

group-check_proceed :
    (port : Port) → OnSome (λ t. is_designated_inner t ≡ true) (check_proceed port)
unfolding check_proceed
group-check_proceed port = ground arith

group-check_designated :
    (port : Port) → OnSome (λ t. is_designated_inner t ≡ true) (check_designated port)
unfolding check_designated
group-check_designated port = ground (arith, group-check_proceed port)

group-check_alternate :
    (synced : Bool) (w : Site)
    → OnSome (λ t. is_alternate_state t ≡ true) (check_alternate synced w.stpm w.port)
unfolding check_alternate
group-check_alternate synced w = ground arith

-- In a group, the states that follow the hub are measured by `base`.
rank-root :
    (w : Site)
    → w.port.role ≡ PortRole.root_port
    → moved w.port ≡ false
    → (t : RoletrnsState) → is_root_state t ≡ true
    → rank t w ≡ base t w
rank-root w r m t e = ground arith

rank-designated :
    (w : Site)
    → w.port.role ≡ PortRole.designated_port
    → moved w.port ≡ false
    → (t : RoletrnsState) → is_designated_inner t ≡ true
    → rank t w ≡ base t w
rank-designated w r m t e = ground arith

rank-alternate :
    (w : Site)
    → moved w.port ≡ false
    → (t : RoletrnsState) → is_alternate_state t ≡ true
    → rank t w ≡ base t w
rank-alternate w m t e = ground arith

-- A hub's rank goes down if the tests lead to states of its group with a lower `base`.
lower :
    (b : Bool) (o : Option RoletrnsState) (w : Site) (t : RoletrnsState) (n : ℕ)
    (group : RoletrnsState → Bool)
    → ((t : RoletrnsState) → group t ≡ true → rank t w ≡ base t w)
    → OnSome (λ t. group t ≡ true) o
    → OnSome (λ t. base t w < n) o
    → (if b then o else none) ≡ some t
    → rank t w < n
lower b o w t n group r g h e =
    rw (r t (of_OnSome (λ t. group t ≡ true) _ t (OnSome-guard _ b o g) e))
      (of_OnSome (λ t. base t w < n) _ t (OnSome-guard _ b o h) e)

-- The three hubs, whose conditions are tested in a port that their entry action has prepared.
rank_root :
    (w : Site)
    → moves RoletrnsState.root_port w.port ≡ false
    → rank RoletrnsState.root_port w ≡ 2 * root_rank (enter_site RoletrnsState.root_port w).port
unfolding enter_site
rank_root w m = rw m

rank_designated :
    (w : Site)
    → moves RoletrnsState.designated_port w.port ≡ false
    → rank RoletrnsState.designated_port w
      ≡ 2 * designated_rank (enter_site RoletrnsState.designated_port w).port
unfolding enter_site
rank_designated w m = rw m

rank_alternate :
    (w : Site)
    → moves RoletrnsState.alternate_port w.port ≡ false
    → rank RoletrnsState.alternate_port w
      ≡ 2 * alternate_rank w.stpm (enter_site RoletrnsState.alternate_port w).port
unfolding enter_site
rank_alternate w m = rw m

pub stay_root :
    (w : Site) (t : RoletrnsState)
    → moves RoletrnsState.root_port w.port ≡ false
    → check_switch RoletrnsState.root_port (enter_site RoletrnsState.root_port w) ≡ some t
    → rank t (enter_site RoletrnsState.root_port w) < rank RoletrnsState.root_port w
unfolding check_switch enter_site
stay_root w t m e =
    let w' = enter_site RoletrnsState.root_port w in
    let synced = compute_allsynced w' in
    let rerooted = compute_rerooted w' in
    rw (rank_root w m) (
      lower _ _ w' t _ is_root_state (rank-root w' refl m) (group-check_root synced rerooted w')
        (base-check_root synced rerooted w' refl) e)

pub stay_designated :
    (w : Site) (t : RoletrnsState)
    → moves RoletrnsState.designated_port w.port ≡ false
    → check_switch RoletrnsState.designated_port (enter_site RoletrnsState.designated_port w)
      ≡ some t
    → rank t (enter_site RoletrnsState.designated_port w) < rank RoletrnsState.designated_port w
unfolding check_switch enter_site
stay_designated w t m e =
    let w' = enter_site RoletrnsState.designated_port w in
    rw (rank_designated w m) (
      lower _ _ w' t _ is_designated_inner (rank-designated w' refl m)
        (group-check_designated w'.port) (base-check_designated w') e)

pub stay_alternate :
    (w : Site) (t : RoletrnsState)
    → moves RoletrnsState.alternate_port w.port ≡ false
    → check_switch RoletrnsState.alternate_port (enter_site RoletrnsState.alternate_port w) ≡ some t
    → rank t (enter_site RoletrnsState.alternate_port w) < rank RoletrnsState.alternate_port w
unfolding check_switch enter_site
stay_alternate w t m e =
    let w' = enter_site RoletrnsState.alternate_port w in
    let synced = compute_allsynced w' in
    rw (rank_alternate w m) (
      lower _ _ w' t _ is_alternate_state (rank-alternate w' m) (group-check_alternate synced w')
        (base-check_alternate synced w' refl refl) e)
