-- ===== src/Update/Setup.antt =====
-- rstplib/stpm.c: what the management sets on a bridge and its ports and the passes over the machines
-- leave as it is. Of the settings of a port mcheck, skip_rx and skip_tx are not among it: a machine
-- clears mcheck, and one counts skip_tx down.
use rstp.Prelude.{
  view-if, ℕ, zero, suc, ◌+◌, ◌≡◌, refl, ap, ◌∙◌, Bool, true, false, OnSome, OnSome-trans,
  OnSome-if, OnSome-elim, List, [], ◌∷◌, map, All,
}
use rstp.StateMach.{StateMach, Concrete, check_condition, change_state}
use rstp.Vector.{BridgeId}
use rstp.Times.{TimeValues}
use rstp.Port.{Port, AdminP2p}
use rstp.Stpm.{Stpm, Bridge, Site, StpMode, on_ports}
use rstp.Update.{
  Slot, hit, init_slot, check_slot, change_slot, init_slots, check_slots, change_slots, rewind,
  write,
}

pub record PortSetup : Type 0 where
  pub port_index : ℕ
  pub port_id : ℕ
  pub port_enabled : Bool
  pub admin_enable : Bool
  pub admin_pcost : ℕ
  pub admin_edge_port : Bool
  pub admin_non_stp : Bool
  pub admin_point_to_point_mac : AdminP2p

pub record StpmSetup : Type 0 where
  pub vlan_id : ℕ
  pub admin_state : StpMode
  pub force_version : ℕ
  pub bridge_identifier : BridgeId
  pub bridge_times : TimeValues

abbrev pub port_setup : Port → PortSetup
port_setup port = record {
  port_index = port.port_index;
  port_id = port.port_id;
  port_enabled = port.port_enabled;
  admin_enable = port.admin_enable;
  admin_pcost = port.admin_pcost;
  admin_edge_port = port.admin_edge_port;
  admin_non_stp = port.admin_non_stp;
  admin_point_to_point_mac = port.admin_point_to_point_mac;
}

abbrev pub stpm_setup : Stpm → StpmSetup
stpm_setup stpm = record {
  vlan_id = stpm.vlan_id;
  admin_state = stpm.admin_state;
  force_version = stpm.force_version;
  bridge_identifier = stpm.bridge_identifier;
  bridge_times = stpm.bridge_times;
}

-- The setup of a bridge: its own, and that of its ports in their order.
abbrev pub Setup : Type 0
Setup = StpmSetup × List PortSetup

abbrev pub bridge_setup : Bridge → Setup
bridge_setup this = (stpm_setup this.stpm, map port_setup this.ports)

abbrev pub onto : List PortSetup → List PortSetup → List PortSetup
onto [] ports = ports
onto (port ∷ before) ports = onto before (port ∷ ports)

abbrev pub halves_setup : Stpm → List Port → List Port → Setup
halves_setup stpm before ports =
    (stpm_setup stpm, onto (map port_setup before) (map port_setup ports))

abbrev pub site_setup : Site → Setup
site_setup w = halves_setup w.stpm w.before (w.port ∷ w.after)

abbrev pub SamePort : Port → Port → Type 0
SamePort a b = port_setup a ≡ port_setup b

pub setup-map :
    (f : Port → Port)
    → ((port : Port) → SamePort (f port) port)
    → (ports : List Port) → map port_setup (map f ports) ≡ map port_setup ports
setup-map f h [] = refl
setup-map f h (port ∷ ports) = rw (h port, setup-map f h ports) refl

pub setup-rewind :
    (before ports : List Port)
    → map port_setup (rewind before ports) ≡ onto (map port_setup before) (map port_setup ports)
unfolding rewind
setup-rewind [] ports = refl
setup-rewind (port ∷ before) ports = setup-rewind before (port ∷ ports)

-- A loop of `STP_change_state` keeps what its entry actions keep.
pub change_state-keeps :
    {C : Type 0} {S : Type 0} {A : Type 0} (m : Concrete C S) (f : C → A)
    → ((s : S) (c : C) → f (m.enter_state s c) ≡ f c)
    → (fuel n : ℕ) (this : StateMach S) (c : C)
    → OnSome (λ (r : ℕ × StateMach S × C). f r.2 ≡ f c) (change_state m fuel n this c)
unfolding change_state
change_state-keeps m f keep zero n this c = tt
change_state-keeps m f keep (suc fuel) n this c =
    OnSome-if _ this.change_state _ _
      (OnSome-trans (λ r. f r.2) _ (keep this.state c)
        (change_state-keeps m f keep fuel (n + 1)
          (check_condition m (record this { change_state = false }) (m.enter_state this.state c))
          (m.enter_state this.state c)))
      refl

-- What a machine owes to the setup.
pub record Keeps (slot : Slot) : Type 1 where
  pub enter : (s : slot.S) (w : Site) → site_setup (slot.concrete.enter_state s w) ≡ site_setup w
  pub put : (m : StateMach slot.S) (port : Port) → SamePort (slot.put m port) port

-- Another port at the place of the site.
pub at_site :
    (w : Site) (port : Port)
    → SamePort port w.port
    → site_setup (record w { port = port }) ≡ site_setup w
at_site w port e =
    ap (λ p. (stpm_setup w.stpm, onto (map port_setup w.before) (p ∷ map port_setup w.after))) e

-- The same action on every port.
pub on_ports-keeps :
    (f : Port → Port)
    → ((port : Port) → SamePort (f port) port)
    → (w : Site) → site_setup (on_ports f w) ≡ site_setup w
on_ports-keeps f h w = rw (setup-map f h w.before, h w.port, setup-map f h w.after) refl

module _ (slot : Slot) (h : Keeps slot) where
  write-keeps : (m : StateMach slot.S) (w : Site) → site_setup (write slot m w) ≡ site_setup w
  write-keeps m w = at_site w (slot.put m w.port) (h.put m w.port)

  init_slot-keeps : (w : Site) → site_setup (init_slot slot w) ≡ site_setup w
  unfolding init_slot
  init_slot-keeps w = h.enter slot.begin _ ∙ write-keeps _ w

  change_slot-keeps :
      (fuel : ℕ) (w : Site)
      → OnSome (λ (r : ℕ × Site). site_setup r.1 ≡ site_setup w) (change_slot fuel slot w)
  unfolding change_slot
  change_slot-keeps fuel w =
      OnSome-elim _ _ (change_state slot.concrete fuel 0 (slot.get w.port) w) _
        (change_state-keeps slot.concrete site_setup h.enter fuel 0 (slot.get w.port) w)
        (λ (n, m, w') e. write-keeps m w' ∙ e)

pub init_slots-keeps :
    (ms : List Slot) → All Keeps ms → (w : Site) → site_setup (init_slots ms w) ≡ site_setup w
unfolding init_slots
init_slots-keeps [] h w = refl
init_slots-keeps (slot ∷ rest) h w =
    init_slots-keeps rest h.1 (init_slot slot w) ∙ init_slot-keeps slot h.0 w

-- A check writes to the port alone.
pub check_slots-keeps :
    (ms : List Slot) → All Keeps ms → (w : Site) → SamePort (check_slots ms w).0.port w.port
unfolding check_slots check_slot
check_slots-keeps [] h w = refl
check_slots-keeps (slot ∷ rest) h w =
    view-if (λ (r : Site × Bool). port_setup r.0.port) (hit slot w) (check_slot slot w, true)
      (check_slots rest w) (h.0.put _ w.port) (check_slots-keeps rest h.1 w)

pub change_slots-keeps :
    (fuel : ℕ) (ms : List Slot)
    → All Keeps ms
    → (n : ℕ) (w : Site)
    → OnSome (λ (r : ℕ × Site). site_setup r.1 ≡ site_setup w) (change_slots fuel ms n w)
unfolding change_slots
change_slots-keeps fuel [] h n w = refl
change_slots-keeps fuel (slot ∷ rest) h n w =
    OnSome-elim _ _ (change_slot fuel slot w) _ (change_slot-keeps slot h.0 fuel w) (λ (k, w') e.
      OnSome-trans (λ r. site_setup r.1) _ e (change_slots-keeps fuel rest h.1 (n + k) w'))
