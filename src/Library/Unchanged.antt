-- ===== src/Library/Unchanged.antt =====
-- rstplib/stp_in.c and stpm.c: the seconds, the links and the frames leave the table as it is.
use rstp.Prelude.{
  view-if, ℕ, ◌≡◌, refl, ap, ◌∙◌, Bool, true, false, Option, none, some, List, [], ◌∷◌, map, OnSome,
  OnSome-bind, OnSome-elim, OnSome-if, of_OnSome, if◌then◌else◌, if_ap, ◌==◌,
}
use rstp.Port.{Port}
use rstp.Stpm.{Bridge, Stpm}
use rstp.Start.{tick, count_topology_change, one_second, is_enabled, port_init, port_reset}
use rstp.Update.{update}
use rstp.Update.Setup.{bridge_setup, stpm_setup, setup-map}
use rstp.Update.Unchanged.{update-OnSome-setup}
use rstp.Library.{Library, Env, port_find, port_put}
use rstp.Library.Events.{
  same_bool, enable_port_on, with_port, on_enabled, in_enable_port, seconds, in_one_second,
}

count_topology_change-setup :
    (this : Bridge) → bridge_setup (count_topology_change this) ≡ bridge_setup this
unfolding count_topology_change
count_topology_change-setup this = view-if bridge_setup _ _ _ refl refl

module _ (env : Env) where
  -- The setup of a bridge after its second: where it is not enabled nothing is run.
  pub one_second-setup :
      (this : Bridge)
      → OnSome
          (λ b. bridge_setup b ≡ bridge_setup this)
          (one_second env.out env.rounds env.fuel this)
  unfolding one_second tick
  one_second-setup this =
      let ticked = record this { ports = map tick this.ports } in
      OnSome-if _ (is_enabled this.stpm.admin_state) _ (some this)
        (OnSome-elim (λ (r : ℕ × Bridge). bridge_setup r.1 ≡ bridge_setup ticked) _
          (update env.out env.rounds env.fuel 0 ticked) _
          (update-OnSome-setup env.out env.rounds env.fuel 0 ticked)
          (λ (loops, b) e.
            count_topology_change-setup b
            ∙ e
            ∙ ap (λ ports. (stpm_setup this.stpm, ports))
                (setup-map tick (λ port. refl) this.ports)))
        refl

  seconds-setup :
      (bridges : List Bridge)
      → OnSome
          (λ (r : ℕ × List Bridge). map bridge_setup r.1 ≡ map bridge_setup bridges)
          (seconds env bridges)
  unfolding seconds
  seconds-setup [] = refl
  seconds-setup (b ∷ rest) =
      OnSome-bind _ _ (one_second env.out env.rounds env.fuel b) _ (one_second-setup b) (λ b' e.
        OnSome-bind _ _ (seconds env rest) _ (seconds-setup rest) (λ (n, rest') f. rw (e, f) refl))

  -- The seconds leave every bridge in its place, with the ports that it had, each enabled or not as
  -- before, and with what the management has set on them.
  pub in_one_second-setup :
      (n : ℕ) (lib lib' : Library)
      → in_one_second env lib ≡ some (n, lib')
      → map bridge_setup lib'.bridges ≡ map bridge_setup lib.bridges
  unfolding in_one_second
  in_one_second-setup n lib lib' e =
      of_OnSome (λ (r : ℕ × Library). map bridge_setup r.1.bridges ≡ map bridge_setup lib.bridges) _
        (n, lib')
        (OnSome-bind _ _ (seconds env lib.bridges) _ (seconds-setup lib.bridges)
          (λ (n, bridges) f. f))
        e

-- The port of that index, written back with the same view.
put_at :
    {V : Type 0} (view : Port → V) (b : Bool) (p new q : Port) (rest later : List Port)
    (found : Option Port)
    → (if b then some p else found) ≡ some q
    → view new ≡ view q
    → (found ≡ some q → map view later ≡ map view rest)
    → map view (if b then new ∷ rest else p ∷ later) ≡ map view (p ∷ rest)
put_at view true p new q rest later found e same h = cc
put_at view false p new q rest later found e same h = ap (λ l. view p ∷ l) (h e)

pub port_put-view :
    {V : Type 0} (view : Port → V) (index : ℕ) (new q : Port) (ports : List Port)
    → port_find index ports ≡ some q
    → view new ≡ view q
    → map view (port_put index new ports) ≡ map view ports
unfolding port_find port_put
port_put-view view index new q [] e same = refl
port_put-view view index new q (p ∷ rest) e same =
    put_at view (p.port_index == index) p new q rest (port_put index new rest)
      (port_find index rest) e same (λ e'. port_put-view view index new q rest e' same)

with_port-view :
    {V : Type 0} (view : Port → V) (index : ℕ) (f : Port → Port) (this : Bridge)
    → ((port : Port) → view (f port) ≡ view port)
    → map view (with_port index f this).ports ≡ map view this.ports
unfolding with_port
with_port-view view index f this keep = found (port_find index this.ports) refl
  where
    found :
        (o : Option Port)
        → port_find index this.ports ≡ o
        → map view (
            let b : Bridge = elim o [
              | none ↦ this
              | some port ↦ record this { ports = port_put index (f port) this.ports }
            ] in
            b.ports)
          ≡ map view this.ports
    found none e = refl
    found (some q) e = port_put-view view index (f q) q this.ports e (keep q)

-- What the library knows of a link.
abbrev pub link : Port → ℕ × Bool
link port = (port.port_index, port.port_enabled)

abbrev pub links : Library → List (List (ℕ × Bool))
links lib = map (λ b. map link b.ports) lib.bridges

stays_up :
    (b : Bool) (index : ℕ)
    → ◌≡◌ {A = ℕ × Bool} (if same_bool b false then (index, b) else (index, true)) (index, b)
stays_up true index = refl
stays_up false index = refl

enable_port_on-link :
    (env : Env) (stpm : Stpm) (port : Port) → link (enable_port_on env stpm false port) ≡ link port
unfolding enable_port_on port_init port_reset
enable_port_on-link env stpm port =
    if_ap link (same_bool port.port_enabled false) port _
    ∙ stays_up port.port_enabled port.port_index

on_enabled-view :
    {V : Type 0} (view : Bridge → V) (f : Bridge → Bridge)
    → ((b : Bridge) → view (f b) ≡ view b)
    → (bridges : List Bridge) → map view (on_enabled f bridges) ≡ map view bridges
unfolding on_enabled
on_enabled-view view f keep [] = refl
on_enabled-view view f keep (b ∷ rest) =
    rw
      (
        view-if view (is_enabled b.stpm.admin_state) (f b) b (keep b) refl,
        on_enabled-view view f keep rest,
      )
      refl

-- When a link goes down the library marks no port as disabled: after `STP_IN_enable_port` with
-- False every port of every bridge is enabled exactly if it was before.
pub in_enable_port-links :
    (env : Env) (index : ℕ) (lib : Library) → links (in_enable_port env index false lib) ≡ links lib
unfolding in_enable_port
in_enable_port-links env index lib =
    on_enabled-view (λ b. map link b.ports) _
      (λ b.
        with_port-view link index (enable_port_on env b.stpm false) b
          (enable_port_on-link env b.stpm))
      lib.bridges
