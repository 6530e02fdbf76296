-- ===== src/Update.antt =====
-- rstplib/stpm.c: the passes over the machines of a bridge, and `STP_stpm_update`.
-- rstplib/port.c binds the ten machines of a port, and each is put at the head of the list, so they
-- run in the order of `slots`.
use rstp.Prelude.{
  ℕ, zero, suc, ◌+◌, Bool, true, false, Option, none, some, if◌then◌else◌, List, [], ◌∷◌, length,
}
use rstp.StateMach.{StateMach, Concrete, check_condition, change_state}
use rstp.States.{
  ReceiveState, MigrateState, BrdgdetState, P2pState, PcostState, SttransState, TopochState,
  TransmitState, InfoState, RoletrnsState, RoleselState,
}
use rstp.Port.{Port}
use rstp.Stpm.{Stpm, Bridge, Site, StpOut}
use rstp.Receive
use rstp.Topoch
use rstp.Migrate
use rstp.P2p
use rstp.Brdgdet
use rstp.Pcost
use rstp.Info
use rstp.Roletrns
use rstp.Sttrans
use rstp.Transmit
use rstp.Rolesel
pub mod Rest
pub mod Settled
pub mod Setup
pub mod InfoKeeps
pub mod TopochKeeps
pub mod TransmitKeeps
pub mod RoletrnsKeeps
pub mod Keeps
pub mod SelectKeeps
pub mod Unchanged

-- A machine of a port: its functions, its BEGIN, and where the port keeps it.
pub record Slot : Type 1 where
  pub S : Type 0
  pub begin : S
  pub concrete : Concrete Site S
  pub get : Port → StateMach S
  pub put : StateMach S → Port → Port

abbrev pub transmit_slot : StpOut → Slot
transmit_slot out = record {
  S = TransmitState;
  begin = TransmitState.begin;
  concrete = Transmit.machine out;
  get = λ p. p.transmit;
  put = λ m p. record p { transmit = m };
}

abbrev pub sttrans_slot : Slot
sttrans_slot = record {
  S = SttransState;
  begin = SttransState.begin;
  concrete = Sttrans.machine;
  get = λ p. p.sttrans;
  put = λ m p. record p { sttrans = m };
}

abbrev pub roletrns_slot : Slot
roletrns_slot = record {
  S = RoletrnsState;
  begin = RoletrnsState.begin;
  concrete = Roletrns.machine;
  get = λ p. p.roletrns;
  put = λ m p. record p { roletrns = m };
}

abbrev pub info_slot : Slot
info_slot = record {
  S = InfoState;
  begin = InfoState.begin;
  concrete = Info.machine;
  get = λ p. p.info;
  put = λ m p. record p { info = m };
}

abbrev pub pcost_slot : StpOut → Slot
pcost_slot out = record {
  S = PcostState;
  begin = PcostState.begin;
  concrete = Pcost.machine out;
  get = λ p. p.pcost;
  put = λ m p. record p { pcost = m };
}

abbrev pub brdgdet_slot : Slot
brdgdet_slot = record {
  S = BrdgdetState;
  begin = BrdgdetState.begin;
  concrete = Brdgdet.machine;
  get = λ p. p.brdgdet;
  put = λ m p. record p { brdgdet = m };
}

abbrev pub p2p_slot : StpOut → Slot
p2p_slot out = record {
  S = P2pState;
  begin = P2pState.begin;
  concrete = P2p.machine out;
  get = λ p. p.p2p;
  put = λ m p. record p { p2p = m };
}

abbrev pub migrate_slot : Slot
migrate_slot = record {
  S = MigrateState;
  begin = MigrateState.begin;
  concrete = Migrate.machine;
  get = λ p. p.migrate;
  put = λ m p. record p { migrate = m };
}

abbrev pub topoch_slot : Slot
topoch_slot = record {
  S = TopochState;
  begin = TopochState.begin;
  concrete = Topoch.machine;
  get = λ p. p.topoch;
  put = λ m p. record p { topoch = m };
}

abbrev pub receive_slot : Slot
receive_slot = record {
  S = ReceiveState;
  begin = ReceiveState.begin;
  concrete = Receive.machine;
  get = λ p. p.receive;
  put = λ m p. record p { receive = m };
}

abbrev pub slots : StpOut → List Slot
slots out =
    transmit_slot out
    ∷ sttrans_slot
    ∷ roletrns_slot
    ∷ info_slot
    ∷ pcost_slot out
    ∷ brdgdet_slot
    ∷ p2p_slot out
    ∷ migrate_slot
    ∷ topoch_slot
    ∷ receive_slot
    ∷ []

-- The port's machine written back.
abbrev pub write : (slot : Slot) → StateMach slot.S → Site → Site
write slot m w = let port = w.port in record w { port = slot.put m port }

-- `_stp_stpm_init_machine`: State = BEGIN, then the entry action. `changeState` is kept.
unfoldable pub init_slot : Slot → Site → Site
init_slot slot w =
    let m = slot.get w.port in
    slot.concrete.enter_state slot.begin (write slot (record m { state = slot.begin }) w)

-- `STP_check_condition` with the value it returns.
unfoldable pub hit : Slot → Site → Bool
hit slot w = elim (slot.concrete.check_conditions (slot.get w.port).state w) [
  | none ↦ false
  | some t ↦ true
]

unfoldable pub check_slot : Slot → Site → Site
check_slot slot w = write slot (check_condition slot.concrete (slot.get w.port) w) w

-- `STP_change_state` on the machine.
unfoldable pub change_slot : ℕ → Slot → Site → Option (ℕ × Site)
change_slot fuel slot w = elim (change_state slot.concrete fuel 0 (slot.get w.port) w) [
  | none ↦ none
  | some (loops, m, w') ↦ some (loops, write slot m w')
]

unfoldable pub init_slots : List Slot → Site → Site
unfolding init_slot
init_slots [] w = w
init_slots (slot ∷ rest) w = init_slots rest (init_slot slot w)

-- The first machine that has a condition ends the pass.
unfoldable pub check_slots : List Slot → Site → Site × Bool
unfolding hit check_slot
check_slots [] w = (w, false)
check_slots (slot ∷ rest) w =
    let later = check_slots rest w in if hit slot w then (check_slot slot w, true) else later

unfoldable pub change_slots : ℕ → List Slot → ℕ → Site → Option (ℕ × Site)
unfolding change_slot
change_slots fuel [] loops w = some (loops, w)
change_slots fuel (slot ∷ rest) loops w = elim (change_slot fuel slot w) [
  | none ↦ none
  | some (n, w') ↦ change_slots fuel rest (loops + n) w'
]

-- The list of a site again, from its two halves.
unfoldable pub rewind : List Port → List Port → List Port
rewind [] ports = ports
rewind (port ∷ before) ports = rewind before (port ∷ ports)

abbrev pub bridge_of : Stpm → List Port → List Port → Bridge
bridge_of stpm before ports = record { stpm = stpm; ports = rewind before ports }

-- A pass that may write to every port: `n` is the number of ports that are left.
unfoldable pub init_ports : List Slot → ℕ → Stpm → List Port → List Port → Bridge
unfolding init_slots rewind
init_ports ms zero stpm before ports = bridge_of stpm before ports
init_ports ms (suc n) stpm before [] = bridge_of stpm before []
init_ports ms (suc n) stpm before (port ∷ after) =
    let w = init_slots ms (record { stpm = stpm; before = before; port = port; after = after }) in
    init_ports ms n w.stpm (w.port ∷ w.before) w.after

-- Checking writes to the port alone.
unfoldable pub check_ports : List Slot → Stpm → List Port → List Port → Bridge × Bool
unfolding check_slots rewind
check_ports ms stpm before [] = (bridge_of stpm before [], false)
check_ports ms stpm before (port ∷ after) =
    let site : Site = record { stpm = stpm; before = before; port = port; after = after } in
    let (w, found) = check_slots ms site in
    let later = check_ports ms stpm (w.port ∷ before) after in
    if found then (bridge_of stpm before (w.port ∷ after), true) else later

unfoldable pub change_ports :
    ℕ → List Slot → ℕ → ℕ → Stpm → List Port → List Port → Option (ℕ × Bridge)
unfolding change_slots rewind
change_ports fuel ms zero loops stpm before ports = some (loops, bridge_of stpm before ports)
change_ports fuel ms (suc n) loops stpm before [] = some (loops, bridge_of stpm before [])
change_ports fuel ms (suc n) loops stpm before (port ∷ after) =
    elim (change_slots fuel ms loops
      (record { stpm = stpm; before = before; port = port; after = after })) [
        | none ↦ none
        | some (loops', w) ↦ change_ports fuel ms n loops' w.stpm (w.port ∷ w.before) w.after
      ]

abbrev pub write_rolesel : StateMach RoleselState → Bridge → Bridge
write_rolesel m this = let stpm = this.stpm in record this { stpm = record stpm { rolesel = m } }

module _ (out : StpOut) where
  -- `_stp_stpm_iterate_machines (this, _stp_stpm_init_machine, False)`
  unfoldable pub init_machines : Bridge → Bridge
  unfolding init_ports
  init_machines this =
      let m = this.stpm.rolesel in
      let b =
        Rolesel.machine.enter_state RoleselState.begin
          (write_rolesel (record m { state = RoleselState.begin }) this) in
      init_ports (slots out) (length b.ports) b.stpm [] b.ports

  abbrev pub rolesel_hit : Bridge → Bool
  rolesel_hit this = elim (Rolesel.machine.check_conditions this.stpm.rolesel.state this) [
    | none ↦ false
    | some t ↦ true
  ]

  -- `_stp_stpm_iterate_machines (this, STP_check_condition, True)`
  unfoldable pub check_machines : Bridge → Bridge × Bool
  unfolding check_ports
  check_machines this =
      if rolesel_hit this
      then (write_rolesel (check_condition Rolesel.machine this.stpm.rolesel this) this, true)
      else check_ports (slots out) this.stpm [] this.ports

  -- `_stp_stpm_iterate_machines (this, STP_change_state, False)`, with the sum of the loops.
  unfoldable pub change_machines : ℕ → Bridge → Option (ℕ × Bridge)
  unfolding change_ports
  change_machines fuel this = elim (change_state Rolesel.machine fuel 0 this.stpm.rolesel this) [
    | none ↦ none
    | some (loops, m, this') ↦
        let b = write_rolesel m this' in
        change_ports fuel (slots out) (length b.ports) loops b.stpm [] b.ports
  ]

  -- `STP_stpm_update`: rounds until no condition holds, at most `rounds` of them, with `fuel` for
  -- each loop of `STP_change_state`. `none` means that the rounds or the fuel ran out.
  unfoldable pub update : ℕ → ℕ → ℕ → Bridge → Option (ℕ × Bridge)
  unfolding check_machines change_machines
  update zero fuel number_of_loops this = none
  update (suc rounds) fuel number_of_loops this =
      let (b, found) = check_machines this in
      elim found [
        | false ↦ some (number_of_loops, b)
        | true ↦ elim (change_machines fuel b) [
          | none ↦ none
          | some (loops, b') ↦ update rounds fuel (number_of_loops + 1 + loops) b'
        ]
      ]
