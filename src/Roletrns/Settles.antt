-- ===== src/Roletrns/Settles.antt =====
-- The Port Role Transitions machine (rstplib/roletrns.c) comes to rest.
use rstp.Prelude.{
  ◌+◌, ◌≤◌, ◌<◌, ◌≡◌, ◌≢◌, ◌⊎◌, inl, inr, refl, sym, ◌∙◌, Bool-cases, true, false, some, arith,
}
use rstp.StateMach.{change_state}
use rstp.StateMach.Loop.{Settled, Always, changing, settles}
use rstp.States.{RoletrnsState}
use rstp.Stpm.{Site}
use rstp.Roletrns.{machine, enter_site, check_site, check_switch, entry_state}
use rstp.Roletrns.Rank.{base}
use rstp.Roletrns.Measure.{moves, moved, inner_rank, outer_rank, rank, base-lt, rank-le}
use rstp.Roletrns.Hubs.{stay_root, stay_designated, stay_alternate}

moved-enter : (s : RoletrnsState) (w : Site) → moved (enter_site s w).port ≡ moves s w.port
unfolding enter_site
moved-enter RoletrnsState.begin w = refl
moved-enter _ w = refl

-- Where the first switch leads, the role will be the selected one.
rank_entry :
    (w : Site) (t : RoletrnsState) → entry_state w.port.selected_role ≡ some t → rank t w < 100
rank_entry w t e = ground (arith, base-lt t w)

-- The two ways on from a state other than BEGIN.
check_site-cases :
    (s : RoletrnsState) (w : Site) (t : RoletrnsState)
    → s ≢ RoletrnsState.begin
    → check_site s w ≡ some t
    → ((moved w.port ≡ true) × (rank t w < 100))
      ⊎ ((moved w.port ≡ false) × (check_switch s w ≡ some t))
unfolding check_site
check_site-cases RoletrnsState.begin w t n e = absurd (n refl)
check_site-cases s w t n e = elim (Bool-cases (moved w.port)) [
  | inl m ↦ inl (m, rank_entry w t (rw m at e))
  | inr m ↦ inr (m, rw m at e)
]

-- An entry action leaves alone what the roles of the two hubs are compared with.
moves_root-enter :
    (s : RoletrnsState) (w : Site)
    → moves RoletrnsState.root_port (enter_site s w).port ≡ moves RoletrnsState.root_port w.port
unfolding enter_site
moves_root-enter RoletrnsState.begin w = refl
moves_root-enter _ w = refl

moves_designated-enter :
    (s : RoletrnsState) (w : Site)
    → moves RoletrnsState.designated_port (enter_site s w).port
      ≡ moves RoletrnsState.designated_port w.port
unfolding enter_site
moves_designated-enter RoletrnsState.begin w = refl
moves_designated-enter _ w = refl

inner_step :
    (hub s : RoletrnsState) (w w' : Site)
    → moves s w.port ≡ false
    → moves hub w'.port ≡ moves hub w.port
    → base s w ≡ 1 + base hub w'
    → outer_rank hub w' < inner_rank hub s w
inner_step hub s w w' m h b = ground (arith, base-lt hub w')

-- A state whose only test leads back to its hub.
root_step :
    (s : RoletrnsState) (w : Site) (t : RoletrnsState)
    → moves s w.port ≡ false
    → base s w ≡ 1 + base RoletrnsState.root_port (enter_site s w)
    → some RoletrnsState.root_port ≡ some t
    → rank t (enter_site s w) < inner_rank RoletrnsState.root_port s w
root_step s w t m b e =
    ground
      (arith, inner_step RoletrnsState.root_port s w (enter_site s w) m (moves_root-enter s w) b)

designated_step :
    (s : RoletrnsState) (w : Site) (t : RoletrnsState)
    → moves s w.port ≡ false
    → base s w ≡ 1 + base RoletrnsState.designated_port (enter_site s w)
    → some RoletrnsState.designated_port ≡ some t
    → rank t (enter_site s w) < inner_rank RoletrnsState.designated_port s w
designated_step s w t m b e = ground (
  arith,
  inner_step RoletrnsState.designated_port s w (enter_site s w) m (moves_designated-enter s w) b,
)

stay :
    (s : RoletrnsState) (w : Site) (t : RoletrnsState)
    → moves s w.port ≡ false
    → check_switch s (enter_site s w) ≡ some t
    → rank t (enter_site s w) < rank s w
unfolding check_switch
stay RoletrnsState.begin w t m e = cc
stay RoletrnsState.init_port w t m e = unfold enter_site in ground arith
stay RoletrnsState.disable_port w t m e = unfold enter_site in ground arith
stay RoletrnsState.disabled_port w t m e = unfold enter_site in ground arith
stay RoletrnsState.block_port w t m e = unfold enter_site in ground arith
stay RoletrnsState.alternate_port w t m e = stay_alternate w t m e
stay RoletrnsState.root_port w t m e = stay_root w t m e
stay RoletrnsState.designated_port w t m e = stay_designated w t m e
stay RoletrnsState.root_proposed w t m e =
    unfold enter_site in root_step RoletrnsState.root_proposed w t m refl e
stay RoletrnsState.root_forward w t m e =
    unfold enter_site in root_step RoletrnsState.root_forward w t m refl e
stay RoletrnsState.root_agreed w t m e =
    unfold enter_site in root_step RoletrnsState.root_agreed w t m refl e
stay RoletrnsState.root_learn w t m e =
    unfold enter_site in root_step RoletrnsState.root_learn w t m refl e
stay RoletrnsState.reroot w t m e = unfold enter_site in root_step RoletrnsState.reroot w t m refl e
stay RoletrnsState.rerooted w t m e =
    unfold enter_site in root_step RoletrnsState.rerooted w t m refl e
stay RoletrnsState.designated_propose w t m e =
    unfold enter_site in designated_step RoletrnsState.designated_propose w t m refl e
stay RoletrnsState.designated_forward w t m e =
    unfold enter_site in designated_step RoletrnsState.designated_forward w t m refl e
stay RoletrnsState.designated_synced w t m e =
    unfold enter_site in designated_step RoletrnsState.designated_synced w t m refl e
stay RoletrnsState.designated_learn w t m e =
    unfold enter_site in designated_step RoletrnsState.designated_learn w t m refl e
stay RoletrnsState.designated_retired w t m e =
    unfold enter_site in designated_step RoletrnsState.designated_retired w t m refl e
stay RoletrnsState.designated_discard w t m e =
    unfold enter_site in designated_step RoletrnsState.designated_discard w t m refl e
stay RoletrnsState.alternate_proposed w t m e = unfold enter_site in ground arith
stay RoletrnsState.alternate_agreed w t m e = unfold enter_site in ground arith
stay RoletrnsState.backup_port w t m e = unfold enter_site in ground arith

rank_moving : (s : RoletrnsState) (w : Site) → moves s w.port ≡ true → 100 ≤ rank s w
rank_moving RoletrnsState.begin w m = ground arith
rank_moving _ w m = ground arith

progress :
    (s : RoletrnsState) (w : Site) (t : RoletrnsState)
    → Unit {0}
    → machine.check_conditions s (machine.enter_state s w) ≡ some t
    → Unit {0} × (rank t (machine.enter_state s w) < rank s w)
unfolding machine
progress RoletrnsState.begin w t i e = (tt, unfold check_site in ground arith)
progress s w t i e = (
  tt,
  elim (check_site-cases s (enter_site s w) t (λ p. cc) e) [
    | inl (m, lt) ↦ omega (arith, rank_moving s w (sym (moved-enter s w) ∙ m))
    | inr (m, sw) ↦ stay s w t (sym (moved-enter s w) ∙ m) sw
  ],
)

-- From any state and port the loop of `STP_change_state` returns within 151 rounds, in a state whose
-- entry action has run last and none of whose conditions holds.
pub roletrns-Settled :
    (s : RoletrnsState) (w : Site)
    → Settled machine Always 151 (change_state machine 152 0 (changing machine s) w)
roletrns-Settled s w = settles machine Always rank progress 150 rank-le s w tt
