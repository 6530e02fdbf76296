-- ===== src/Start/Outcome.antt =====
-- rstplib/stpm.c: what `STP_stpm_start` comes to.
use rstp.Prelude.{
  ℕ, ◌≡◌, inl, inr, refl, ap, ◌∙◌, List, Option, none, some, All, OnSome, OnSome-both, of_OnSome,
  [], ◌∷◌, Bool-cases,
}
use rstp.Stpm.{Stpm, Bridge, StpOut}
use rstp.Update.{update, init_machines}
use rstp.Update.Rest.{AtRest, update-OnSome}
use rstp.Update.Setup.{Setup, bridge_setup}
use rstp.Update.Unchanged.{update-OnSome-setup, init_machines-setup}
use rstp.Start.{
  StartResult, started, invalid_bridge_priority, start, compute_bridge_id, check_bridge_priority,
  start_ports,
}
use rstp.Start.Identity.{Distinct, check_bridge_priority-Distinct}

-- A result of a start, from the bridge and the other bridges of the daemon.
abbrev pub IsOutcome : StpOut → List Stpm → Bridge → StartResult → Type 0
IsOutcome out bridges this (started b) =
    AtRest out b
    × (b.stpm.bridge_identifier ≡ (compute_bridge_id out this).stpm.bridge_identifier)
    × All (Distinct b.stpm) bridges
IsOutcome out bridges this (invalid_bridge_priority b) =
    (b ≡ compute_bridge_id out this) × (All (Distinct b.stpm) bridges → ⊥)

Distinct-same :
    (a b : Stpm) (bridges : List Stpm)
    → a.bridge_identifier ≡ b.bridge_identifier
    → All (Distinct b) bridges
    → All (Distinct a) bridges
Distinct-same a b [] e h = tt
Distinct-same a b (oth ∷ bridges) e (h, hs) = (rw e h, Distinct-same a b bridges e hs)

module _ (out : StpOut) (bridges : List Stpm) (this : Bridge) where
  abbrev named : Bridge
  unfolding compute_bridge_id
  named = compute_bridge_id out this

  abbrev ready : Bridge
  unfolding compute_bridge_id init_machines start_ports
  ready = init_machines out (start_ports out named)

  -- The machines and the start of the ports leave the identifier.
  ready-identifier :
      (b : Bridge)
      → bridge_setup b ≡ bridge_setup ready
      → b.stpm.bridge_identifier ≡ named.stpm.bridge_identifier
  unfolding start_ports named ready
  ready-identifier b e =
      ap (λ (s : Setup). s.0.bridge_identifier)
        (e ∙ init_machines-setup out (start_ports out (compute_bridge_id out this)))

  started_OnSome :
      (run : Option (ℕ × Bridge))
      → OnSome (λ (r : ℕ × Bridge). AtRest out r.1 × (bridge_setup r.1 ≡ bridge_setup ready)) run
      → All (Distinct (compute_bridge_id out this).stpm) bridges
      → OnSome
          (IsOutcome out bridges this)
          (elim run [ none ↦ none | some (loops, b) ↦ some (started b) ])
  unfolding named
  started_OnSome none h d = tt
  started_OnSome (some (loops, b)) (rest, e) d =
      let same = ready-identifier b e in
      (rest, same, Distinct-same b.stpm named.stpm bridges same d)

  start-OnSome :
      (rounds fuel : ℕ) → OnSome (IsOutcome out bridges this) (start out rounds fuel bridges this)
  unfolding start named ready
  start-OnSome rounds fuel =
      let distinct = check_bridge_priority-Distinct named.stpm bridges in
      let run = update out rounds fuel 0 ready in
      elim (Bool-cases (check_bridge_priority named.stpm bridges)) [
        | inl c ↦ rw c (
            started_OnSome run
              (OnSome-both _ _ run (update-OnSome out rounds fuel 0 ready)
                (update-OnSome-setup out rounds fuel 0 ready))
              (distinct.0 c))
        | inr c ↦ rw c (refl, λ h. let accepted = distinct.1 h in cc)
      ]

-- Whenever `STP_stpm_start` returns, it has either started the bridge, which is then at rest, has the
-- identifier that was computed for it, and differs in it from every other enabled bridge; or it has
-- refused with an invalid bridge priority, which means that another enabled bridge has the
-- identifier, and nothing of the bridge but its identifier has changed.
pub start-IsOutcome :
    (out : StpOut) (rounds fuel : ℕ) (bridges : List Stpm) (this : Bridge) (r : StartResult)
    → start out rounds fuel bridges this ≡ some r
    → IsOutcome out bridges this r
start-IsOutcome out rounds fuel bridges this r e =
    of_OnSome (IsOutcome out bridges this) _ r (start-OnSome out bridges this rounds fuel) e
