-- ===== src/Update/Unchanged.antt =====
-- rstplib/stpm.c: the passes and `STP_stpm_update` leave most of what the management sets as it is.
use rstp.Prelude.{
  view-if, ℕ, zero, suc, ◌+◌, ◌≡◌, refl, ap, ◌∙◌, Bool, true, false, Option, none, some, OnSome,
  of_OnSome, OnSome-trans, OnSome-elim, List, [], ◌∷◌, All, length,
}
use rstp.StateMach.{change_state, check_condition}
use rstp.States.{RoleselState}
use rstp.Port.{Port}
use rstp.Stpm.{Stpm, Bridge, Site, StpOut}
use rstp.Rolesel
use rstp.Update.{
  Slot, slots, init_slots, check_slots, change_slots, rewind, bridge_of, init_ports, check_ports,
  change_ports, write_rolesel, rolesel_hit, init_machines, check_machines, change_machines, update,
}
use rstp.Update.Setup.{
  stpm_setup, halves_setup, bridge_setup, setup-rewind, Keeps, at_site, change_state-keeps,
  init_slots-keeps, check_slots-keeps, change_slots-keeps,
}
use rstp.Update.Keeps.{slots-Keeps}
use rstp.Update.SelectKeeps.{rolesel-keeps}

bridge_of-setup :
    (stpm : Stpm) (before ports : List Port)
    → bridge_setup (bridge_of stpm before ports) ≡ halves_setup stpm before ports
unfolding rewind
bridge_of-setup stpm before ports = ap (λ l. (stpm_setup stpm, l)) (setup-rewind before ports)

module _ (ms : List Slot) (h : All Keeps ms) where
  init_ports-setup :
      (n : ℕ) (stpm : Stpm) (before ports : List Port)
      → bridge_setup (init_ports ms n stpm before ports) ≡ halves_setup stpm before ports
  unfolding init_ports
  init_ports-setup zero stpm before ports = bridge_of-setup stpm before ports
  init_ports-setup (suc n) stpm before [] = bridge_of-setup stpm before []
  init_ports-setup (suc n) stpm before (port ∷ after) =
      let w0 : Site = record { stpm = stpm; before = before; port = port; after = after } in
      let w = init_slots ms w0 in
      init_ports-setup n w.stpm (w.port ∷ w.before) w.after ∙ init_slots-keeps ms h w0

  check_ports-setup :
      (stpm : Stpm) (before ports : List Port)
      → bridge_setup (check_ports ms stpm before ports).0 ≡ halves_setup stpm before ports
  unfolding check_ports
  check_ports-setup stpm before [] = bridge_of-setup stpm before []
  check_ports-setup stpm before (port ∷ after) =
      let site : Site = record { stpm = stpm; before = before; port = port; after = after } in
      let w = (check_slots ms site).0 in
      let same : halves_setup stpm before (w.port ∷ after)
          ≡ halves_setup stpm before (port ∷ after) =
        at_site site w.port (check_slots-keeps ms h site) in
      view-if (λ (r : Bridge × Bool). bridge_setup r.0) (check_slots ms site).1
        (bridge_of stpm before (w.port ∷ after), true) (check_ports ms stpm (w.port ∷ before) after)
        (bridge_of-setup stpm before (w.port ∷ after) ∙ same)
        (check_ports-setup stpm (w.port ∷ before) after ∙ same)

  change_ports-setup :
      (fuel n loops : ℕ) (stpm : Stpm) (before ports : List Port)
      → OnSome
          (λ (r : ℕ × Bridge). bridge_setup r.1 ≡ halves_setup stpm before ports)
          (change_ports fuel ms n loops stpm before ports)
  unfolding change_ports
  change_ports-setup fuel zero loops stpm before ports = bridge_of-setup stpm before ports
  change_ports-setup fuel (suc n) loops stpm before [] = bridge_of-setup stpm before []
  change_ports-setup fuel (suc n) loops stpm before (port ∷ after) =
      let site : Site = record { stpm = stpm; before = before; port = port; after = after } in
      OnSome-elim _ _ (change_slots fuel ms loops site) _ (change_slots-keeps fuel ms h loops site)
        (λ (loops', w) e.
          OnSome-trans (λ r. bridge_setup r.1) _ e
            (change_ports-setup fuel n loops' w.stpm (w.port ∷ w.before) w.after))

round_OnSome :
    (P Q : ℕ × Bridge → Type 0) (found : Bool) (last : ℕ × Bridge) (changed : Option (ℕ × Bridge))
    (next : ℕ → Bridge → Option (ℕ × Bridge))
    → P last
    → OnSome Q changed
    → ((loops : ℕ) (b : Bridge) → Q (loops, b) → OnSome P (next loops b))
    → OnSome P (elim found [
      | false ↦ some last
      | true ↦ elim changed [ none ↦ none | some (loops, b) ↦ next loops b ]
    ])
round_OnSome P Q false last changed next h q g = h
round_OnSome P Q true last none next h q g = tt
round_OnSome P Q true last (some (loops, b)) next h q g = g loops b q

module _ (out : StpOut) where
  -- The bridge with its machine at BEGIN, and every port's, has the setup that it had.
  pub init_machines-setup :
      (this : Bridge) → bridge_setup (init_machines out this) ≡ bridge_setup this
  unfolding init_machines
  init_machines-setup this =
      let m = this.stpm.rolesel in
      let this' = write_rolesel (record m { state = RoleselState.begin }) this in
      let b = Rolesel.machine.enter_state RoleselState.begin this' in
      init_ports-setup (slots out) (slots-Keeps out) (length b.ports) b.stpm [] b.ports
      ∙ rolesel-keeps RoleselState.begin this'

  check_machines-setup :
      (this : Bridge) → bridge_setup (check_machines out this).0 ≡ bridge_setup this
  unfolding check_machines
  check_machines-setup this =
      view-if (λ (r : Bridge × Bool). bridge_setup r.0) (rolesel_hit out this)
        (write_rolesel (check_condition Rolesel.machine this.stpm.rolesel this) this, true)
        (check_ports (slots out) this.stpm [] this.ports) refl
        (check_ports-setup (slots out) (slots-Keeps out) this.stpm [] this.ports)

  change_machines-setup :
      (fuel : ℕ) (this : Bridge)
      → OnSome
          (λ (r : ℕ × Bridge). bridge_setup r.1 ≡ bridge_setup this)
          (change_machines out fuel this)
  unfolding change_machines
  change_machines-setup fuel this =
      OnSome-elim _ _ (change_state Rolesel.machine fuel 0 this.stpm.rolesel this) _
        (change_state-keeps Rolesel.machine bridge_setup rolesel-keeps fuel 0 this.stpm.rolesel
          this)
        (λ (loops, m, this') e.
          OnSome-trans (λ r. bridge_setup r.1) _ e
            (change_ports-setup (slots out) (slots-Keeps out) fuel (length this'.ports) loops
              (write_rolesel m this').stpm [] this'.ports))

  pub update-OnSome-setup :
      (rounds fuel n : ℕ) (this : Bridge)
      → OnSome
          (λ (r : ℕ × Bridge). bridge_setup r.1 ≡ bridge_setup this)
          (update out rounds fuel n this)
  unfolding update
  update-OnSome-setup zero fuel n this = tt
  update-OnSome-setup (suc rounds) fuel n this =
      let b = (check_machines out this).0 in
      round_OnSome _ _ (check_machines out this).1 (n, b) (change_machines out fuel b)
        (λ loops b'. update out rounds fuel (n + 1 + loops) b') (check_machines-setup this)
        (OnSome-trans (λ r. bridge_setup r.1) _ (check_machines-setup this)
          (change_machines-setup fuel b))
        (λ loops b' e.
          OnSome-trans (λ r. bridge_setup r.1) _ e
            (update-OnSome-setup rounds fuel (n + 1 + loops) b'))

  -- Where `STP_stpm_update` returns, the vlan id, the administrative state, the protocol version, the
  -- identifier and the times (BridgeTimes) of the bridge are as before, and so are, for each port in
  -- its order, the index, portId, portEnabled, adminEnable, the administrative path cost, the
  -- administrative edge flag, admin_non_stp and the administrative kind of link.
  pub update-setup :
      (rounds fuel n k : ℕ) (this b : Bridge)
      → update out rounds fuel n this ≡ some (k, b)
      → bridge_setup b ≡ bridge_setup this
  update-setup rounds fuel n k this b e =
      of_OnSome (λ (r : ℕ × Bridge). bridge_setup r.1 ≡ bridge_setup this) _ (k, b)
        (update-OnSome-setup rounds fuel n this) e
