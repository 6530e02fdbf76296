-- ===== src/Update/Rest.antt =====
-- rstplib/stpm.c: `STP_stpm_update` leaves a bridge on which it has nothing more to do.
use rstp.Prelude.{
  ℕ, zero, suc, ◌≡◌, refl, ap, ◌∙◌, List, [], ◌∷◌, Bool, true, false, Option, none, some, OnSome,
  of_OnSome, ◌+◌, if◌then◌else◌,
}
use rstp.StateMach.{check_condition}
use rstp.Port.{Port}
use rstp.Stpm.{Stpm, Bridge, Site, StpOut}
use rstp.Update.{
  Slot, slots, hit, check_slot, check_slots, check_ports, check_machines, change_machines,
  bridge_of, rewind, rolesel_hit, write_rolesel, update,
}
use rstp.Rolesel
use rstp.Receive
use rstp.Migrate
use rstp.Brdgdet
use rstp.P2p
use rstp.Pcost
use rstp.Sttrans
use rstp.Topoch
use rstp.Transmit
use rstp.Info
use rstp.Roletrns

-- No machine of the list has a condition that holds.
abbrev pub IdleSlots : List Slot → Site → Type 0
IdleSlots [] w = Unit
IdleSlots (slot ∷ rest) w = (hit slot w ≡ false) × IdleSlots rest w

-- The same for every port of a list, at its place.
abbrev pub IdlePorts : List Slot → Stpm → List Port → List Port → Type 0
IdlePorts ms stpm before [] = Unit
IdlePorts ms stpm before (port ∷ after) =
    IdleSlots ms (record { stpm = stpm; before = before; port = port; after = after })
    × IdlePorts ms stpm (port ∷ before) after

-- What the passes find of such a bridge.
record Idle (out : StpOut) (this : Bridge) : Type 0 where
  bridge : rolesel_hit out this ≡ false
  ports : IdlePorts (slots out) this.stpm [] this.ports

-- A port on which no condition of any of its ten machines holds.
pub record PortAtRest (out : StpOut) (w : Site) : Type 0 where
  pub receive : Receive.machine.check_conditions w.port.receive.state w ≡ none
  pub migrate : Migrate.machine.check_conditions w.port.migrate.state w ≡ none
  pub brdgdet : Brdgdet.machine.check_conditions w.port.brdgdet.state w ≡ none
  pub p2p : (P2p.machine out).check_conditions w.port.p2p.state w ≡ none
  pub pcost : (Pcost.machine out).check_conditions w.port.pcost.state w ≡ none
  pub sttrans : Sttrans.machine.check_conditions w.port.sttrans.state w ≡ none
  pub topoch : Topoch.machine.check_conditions w.port.topoch.state w ≡ none
  pub transmit : (Transmit.machine out).check_conditions w.port.transmit.state w ≡ none
  pub info : Info.machine.check_conditions w.port.info.state w ≡ none
  pub roletrns : Roletrns.machine.check_conditions w.port.roletrns.state w ≡ none

-- A predicate of each port at its place.
abbrev pub EachPort : (Site → Type 0) → Stpm → List Port → List Port → Type 0
EachPort P stpm before [] = Unit
EachPort P stpm before (port ∷ after) =
    P (record { stpm = stpm; before = before; port = port; after = after })
    × EachPort P stpm (port ∷ before) after

-- A bridge on which no condition of its machine or of any machine of any port holds.
pub record AtRest (out : StpOut) (this : Bridge) : Type 0 where
  pub bridge : Rolesel.machine.check_conditions this.stpm.rolesel.state this ≡ none
  pub ports : EachPort (PortAtRest out) this.stpm [] this.ports

none_of_hit :
    {A : Type 0} (o : Option A) → (elim o [ none ↦ false | some t ↦ true ]) ≡ false → o ≡ none
none_of_hit none e = refl
none_of_hit (some t) e = cc

slots-PortAtRest : (out : StpOut) (w : Site) → IdleSlots (slots out) w → PortAtRest out w
unfolding hit
slots-PortAtRest out w (tr, (st, (ro, (inf, (pc, (br, (pp, (mi, (to, (re, u)))))))))) = record {
  receive = none_of_hit _ re;
  migrate = none_of_hit _ mi;
  brdgdet = none_of_hit _ br;
  p2p = none_of_hit _ pp;
  pcost = none_of_hit _ pc;
  sttrans = none_of_hit _ st;
  topoch = none_of_hit _ to;
  transmit = none_of_hit _ tr;
  info = none_of_hit _ inf;
  roletrns = none_of_hit _ ro;
}

ports-AtRest :
    (out : StpOut) (stpm : Stpm) (before ports : List Port)
    → IdlePorts (slots out) stpm before ports
    → EachPort (PortAtRest out) stpm before ports
ports-AtRest out stpm before [] h = tt
ports-AtRest out stpm before (port ∷ after) (h, hs) =
    (slots-PortAtRest out _ h, ports-AtRest out stpm (port ∷ before) after hs)

of_Idle : (out : StpOut) (this : Bridge) → Idle out this → AtRest out this
of_Idle out this h = record {
  bridge = none_of_hit _ h.bridge;
  ports = ports-AtRest out this.stpm [] this.ports h.ports;
}

-- What a pass that ended with False went through.
if_false :
    {A : Type 0} (b : Bool) (x : A) (y : A × Bool)
    → (let r : A × Bool = if b then (x, true) else y in r.1) ≡ false
    → (b ≡ false) × (y.1 ≡ false) × ((if b then (x, true) else y) ≡ y)
if_false true x y e = cc
if_false false x y e = (refl, e, refl)

check_slots-idle :
    (ms : List Slot) (w : Site)
    → (check_slots ms w).1 ≡ false
    → ((check_slots ms w).0 ≡ w) × IdleSlots ms w
unfolding check_slots
check_slots-idle [] w e = (refl, tt)
check_slots-idle (slot ∷ rest) w e =
    let (h, e', same) = if_false (hit slot w) (check_slot slot w) (check_slots rest w) e in
    let (p, q) = check_slots-idle rest w e' in (ap (λ r. r.0) same ∙ p, (h, q))

check_ports-idle :
    (ms : List Slot) (stpm : Stpm) (before ports : List Port)
    → (check_ports ms stpm before ports).1 ≡ false
    → ((check_ports ms stpm before ports).0 ≡ bridge_of stpm before ports)
      × IdlePorts ms stpm before ports
unfolding check_ports rewind
check_ports-idle ms stpm before [] e = (refl, tt)
check_ports-idle ms stpm before (port ∷ after) e =
    let site : Site = record { stpm = stpm; before = before; port = port; after = after } in
    let w = (check_slots ms site).0 in
    let (h, e', same) =
      if_false (check_slots ms site).1 (bridge_of stpm before (w.port ∷ after))
        (check_ports ms stpm (w.port ∷ before) after) e in
    let (p, idle) = check_slots-idle ms site h in
    let port_same : w.port ≡ port = ap (λ (s : Site). s.port) p in
    let (q, rest) = check_ports-idle ms stpm (port ∷ before) after (rw port_same at e') in
    (ap (λ r. r.0) same ∙ rw port_same q, (idle, rest))

-- The two ways that a round goes on.
round_OnSome :
    (P : ℕ × Bridge → Type 0) (found : Bool) (last : ℕ × Bridge) (changed : Option (ℕ × Bridge))
    (next : ℕ → Bridge → Option (ℕ × Bridge))
    → (found ≡ false → P last)
    → ((loops : ℕ) (b : Bridge) → OnSome P (next loops b))
    → OnSome P (elim found [
      | false ↦ some last
      | true ↦ elim changed [ none ↦ none | some (loops, b) ↦ next loops b ]
    ])
round_OnSome P false last changed next h g = h refl
round_OnSome P true last none next h g = tt
round_OnSome P true last (some (loops, b)) next h g = g loops b

module _ (out : StpOut) where
  check_machines-Idle :
      (this : Bridge)
      → (check_machines out this).1 ≡ false
      → ((check_machines out this).0 ≡ this) × Idle out this
  unfolding check_machines rewind
  check_machines-Idle this e =
      let (h, e', same) =
        if_false (rolesel_hit out this)
          (write_rolesel (check_condition Rolesel.machine this.stpm.rolesel this) this)
          (check_ports (slots out) this.stpm [] this.ports) e in
      let (p, q) = check_ports-idle (slots out) this.stpm [] this.ports e' in
      (ap (λ r. r.0) same ∙ p, record { bridge = h; ports = q })

  pub update-OnSome :
      (rounds fuel n : ℕ) (this : Bridge)
      → OnSome (λ (r : ℕ × Bridge). AtRest out r.1) (update out rounds fuel n this)
  unfolding update
  update-OnSome zero fuel n this = tt
  update-OnSome (suc rounds) fuel n this =
      let b = (check_machines out this).0 in
      round_OnSome _ (check_machines out this).1 (n, b) (change_machines out fuel b)
        (λ loops b'. update out rounds fuel (n + 1 + loops) b')
        (λ e. let (p, h) = check_machines-Idle this e in rw p (of_Idle out this h))
        (λ loops b'. update-OnSome rounds fuel (n + 1 + loops) b')

  -- On every bridge that `STP_stpm_update` returns no condition of the machine of the bridge holds,
  -- and none of any of the ten machines of any port.
  pub update-AtRest :
      (rounds fuel n k : ℕ) (this b : Bridge)
      → update out rounds fuel n this ≡ some (k, b)
      → AtRest out b
  update-AtRest rounds fuel n k this b e =
      of_OnSome (λ (r : ℕ × Bridge). AtRest out r.1) _ (k, b) (update-OnSome rounds fuel n this) e
