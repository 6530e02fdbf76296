-- ===== src/Library/State/Configured.antt =====
-- rstplib/stp_in.c: what is read from a port after its configuration has been set.
use rstp.Prelude.{
  ℕ, ◌/◌, ◌+◌, ◌<◌, ◌≡◌, refl, ap, ◌∙◌, sym, arith, Bool, true, false, Option, none, some, List, [],
  ◌∷◌, map, OnSome, OnSome-bind, OnSome-test, ◌>>=◌, of_OnSome, if◌then◌else◌, ◌==◌, pos,
}
use rstp.Port.{Port}
use rstp.Stpm.{Bridge}
use rstp.Update.{update}
use rstp.Update.Setup.{PortSetup, port_setup, bridge_setup, Setup}
use rstp.Update.Unchanged.{update-OnSome-setup}
use rstp.Library.{
  StpError, stp_ok, is_ok, stp_port_is_absent_in_the_vlan, stp_vlan_had_not_yet_been_created,
  Library, Env, stpm_find, port_find, port_put, stpm_update,
}
use rstp.Library.Manage.{put}
use rstp.Library.PortConfig.{PortCfg, set_port}
use rstp.Library.Ports.{in_set_port_cfg}
use rstp.Library.Readback.{stpm_find-vlan, stpm_find-stpm_put}
use rstp.Library.State.{port_get_cfg, in_port_get_cfg, bit_unless, is_auto}
use rstp.Library.State.Reported.{Reads, set_port-Reads, set_port-ok, written_index}

-- The search for a port, on what the management has set of each.
abbrev find_setup : ℕ → List PortSetup → Option PortSetup
find_setup port_index [] = none
find_setup port_index (port ∷ rest) =
    let later = find_setup port_index rest in
    if port.port_index == port_index then some port else later

abbrev setup_of : Option Port → Option PortSetup
setup_of o = o >>= (λ port. some (port_setup port))

setup_of-if :
    (b : Bool) (p : Port) (o : Option Port) (later : Option PortSetup)
    → setup_of o ≡ later
    → setup_of (if b then some p else o) ≡ (if b then some (port_setup p) else later)
setup_of-if true p o later e = refl
setup_of-if false p o later e = e

setup_of-port_find :
    (port_index : ℕ) (ports : List Port)
    → setup_of (port_find port_index ports) ≡ find_setup port_index (map port_setup ports)
unfolding port_find
setup_of-port_find port_index [] = refl
setup_of-port_find port_index (p ∷ rest) =
    setup_of-if (p.port_index == port_index) p (port_find port_index rest) _
      (setup_of-port_find port_index rest)

-- `STP_IN_port_get_cfg` reads only what the management sets.
abbrev cfg_of : PortSetup → PortCfg → PortCfg
cfg_of port uid_cfg = record uid_cfg {
  field_mask =
      bit_unless (port.port_id / 256 == 128) 4
      + bit_unless (port.admin_pcost == 0) 2
      + bit_unless (is_auto port.admin_point_to_point_mac) 8
      + bit_unless port.admin_edge_port 16;
  port_priority = pos (port.port_id / 256);
  admin_port_path_cost = port.admin_pcost;
  admin_point2point = port.admin_point_to_point_mac;
  admin_edge = port.admin_edge_port;
}

port_get_cfg-cfg_of :
    (port : Port) (uid_cfg : PortCfg) → port_get_cfg port uid_cfg ≡ cfg_of (port_setup port) uid_cfg
unfolding port_get_cfg
port_get_cfg-cfg_of port uid_cfg = refl

put_step :
    (b : Bool) (i : ℕ) (p port set : Port) (rest later : List Port)
    → b ≡ (p.port_index == i)
    → (set.port_index == i) ≡ true
    → (if b then some p else port_find i rest) ≡ some port
    → (port_find i rest ≡ some port → port_find i later ≡ some set)
    → port_find i (if b then set ∷ rest else p ∷ later) ≡ some set
unfolding port_find
put_step true i p port set rest later s v e h = rw v refl
put_step false i p port set rest later s v e h = rw (sym s) (h e)

port_find-port_put :
    (i : ℕ) (set port : Port) (ports : List Port)
    → (set.port_index == i) ≡ true
    → port_find i ports ≡ some port
    → port_find i (port_put i set ports) ≡ some set
unfolding port_find port_put
port_find-port_put i set port [] v e = cc
port_find-port_put i set port (p ∷ rest) v e =
    put_step (p.port_index == i) i p port set rest (port_put i set rest) refl v e
      (port_find-port_put i set port rest v)

index_step :
    (b : Bool) (i : ℕ) (p port : Port) (o : Option Port)
    → b ≡ (p.port_index == i)
    → (if b then some p else o) ≡ some port
    → (o ≡ some port → (port.port_index == i) ≡ true)
    → (port.port_index == i) ≡ true
index_step true i p port o s e h =
    let same : p ≡ port = cc in ap (λ (q : Port). q.port_index == i) (sym same) ∙ sym s
index_step false i p port o s e h = h e

port_find-index :
    (i : ℕ) (ports : List Port) (port : Port)
    → port_find i ports ≡ some port
    → (port.port_index == i) ≡ true
unfolding port_find
port_find-index i [] port e = cc
port_find-index i (p ∷ rest) port e =
    index_step (p.port_index == i) i p port (port_find i rest) refl e (port_find-index i rest port)

-- What is read of a port, by what the management has set.
abbrev answer_of : PortCfg → Option PortSetup → StpError × PortCfg
answer_of uid_cfg none = (stp_port_is_absent_in_the_vlan, uid_cfg)
answer_of uid_cfg (some port) = (stp_ok, cfg_of port uid_cfg)

answer_of-setup_of :
    (uid_cfg : PortCfg) (o : Option Port)
    → (elim o [
      | none ↦ (stp_port_is_absent_in_the_vlan, uid_cfg)
      | some port ↦ (stp_ok, port_get_cfg port uid_cfg)
    ])
      ≡ answer_of uid_cfg (setup_of o)
unfolding port_get_cfg
answer_of-setup_of uid_cfg none = refl
answer_of-setup_of uid_cfg (some port) = refl

-- `STP_IN_port_get_cfg`, by the bridge that it finds.
abbrev looked : ℕ → ℕ → PortCfg → Option Bridge → StpError × PortCfg
unfolding port_get_cfg
looked vlan_id i uid_cfg o = elim o [
  | none ↦ (stp_vlan_had_not_yet_been_created, uid_cfg)
  | some this ↦ elim (port_find i this.ports) [
    | none ↦ (stp_port_is_absent_in_the_vlan, uid_cfg)
    | some port ↦ (stp_ok, port_get_cfg port uid_cfg)
  ]
]

module _ (env : Env) where
  stpm_update-setup :
      (this : Bridge)
      → OnSome (λ (b : Bridge). bridge_setup b ≡ bridge_setup this) (stpm_update env this)
  unfolding stpm_update
  stpm_update-setup this =
      OnSome-bind (λ (r : ℕ × Bridge). bridge_setup r.1 ≡ bridge_setup this) _
        (update env.out env.rounds env.fuel 0 this) _
        (update-OnSome-setup env.out env.rounds env.fuel 0 this) (λ (loops, b) e. e)

  module _ (vlan_id i : ℕ) (cfg uid_cfg : PortCfg) (lib : Library) (this : Bridge) (port : Port)
      (found : stpm_find vlan_id lib.bridges ≡ some this)
      (has : port_find i this.ports ≡ some port) where
    abbrev set : Port
    set = (set_port this.stpm i cfg port).1

    abbrev changed : Bridge
    changed = record this { ports = port_put i set this.ports }

    set_index : is_ok (set_port this.stpm i cfg port).0 ≡ true → (set.port_index == i) ≡ true
    set_index ok =
        ap (λ (q : Port). q.port_index == i) (set_port-ok this.stpm i cfg port ok).1
        ∙ ap (λ n. n == i) (written_index this.stpm i cfg port)
        ∙ port_find-index i this.ports port has

    -- What is read of a bridge with the setup of the changed one.
    read_changed :
        (b : Bridge)
        → is_ok (set_port this.stpm i cfg port).0 ≡ true
        → bridge_setup b ≡ bridge_setup changed
        → in_port_get_cfg vlan_id i uid_cfg (put vlan_id b lib) ≡ (stp_ok, port_get_cfg set uid_cfg)
    unfolding in_port_get_cfg looked
    read_changed b ok e =
        let v =
          ap (λ (s : Setup). s.0.vlan_id == vlan_id) e
          ∙ stpm_find-vlan vlan_id lib.bridges this found in
        let same : setup_of (port_find i b.ports) ≡ some (port_setup set) =
          setup_of-port_find i b.ports
          ∙ ap (λ (s : Setup). find_setup i s.1) e
          ∙ sym (setup_of-port_find i changed.ports)
          ∙ ap setup_of (port_find-port_put i set port this.ports (set_index ok) has) in
        ap (looked vlan_id i uid_cfg) (stpm_find-stpm_put vlan_id b this lib.bridges v found)
        ∙ answer_of-setup_of uid_cfg (port_find i b.ports)
        ∙ ap (answer_of uid_cfg) same
        ∙ ap (λ (c : PortCfg). (stp_ok, c)) (sym (port_get_cfg-cfg_of set uid_cfg))

    -- What a command that succeeds owes.
    abbrev IsRead : StpError × Library → Type 0
    IsRead (rc, lib') =
        is_ok rc ≡ true
        → ((in_port_get_cfg vlan_id i uid_cfg lib').0 ≡ stp_ok)
          × Reads cfg i port (in_port_get_cfg vlan_id i uid_cfg lib').1

    -- The branch of a bridge that has the port.
    in_set_port_cfg-changed : in_set_port_cfg env vlan_id i cfg lib ≡ (
        if is_ok (set_port this.stpm i cfg port).0
        then stpm_update env changed >>= (λ b. some (stp_ok, put vlan_id b lib))
        else some ((set_port this.stpm i cfg port).0, put vlan_id changed lib))
    unfolding in_set_port_cfg
    in_set_port_cfg-changed = rw (found, in_set_port_cfg) (rw has refl)

    in_set_port_cfg-IsRead : i < 4096 → OnSome IsRead (in_set_port_cfg env vlan_id i cfg lib)
    in_set_port_cfg-IsRead small =
        let rc = (set_port this.stpm i cfg port).0 in
        rw in_set_port_cfg-changed (
          OnSome-test IsRead (is_ok rc) _ (some (rc, put vlan_id changed lib))
            (λ ok.
              OnSome-bind _ IsRead (stpm_update env changed) _ (stpm_update-setup changed)
                (λ b e done.
                  rw (read_changed b ok e)
                    (refl, set_port-Reads this.stpm i cfg uid_cfg port small ok)))
            (λ refused ok. absurd (ground arith)))

    -- If `STP_IN_set_port_cfg` accepts a configuration for a port that a bridge has, and whose number
    -- fits twelve bits, `STP_IN_port_get_cfg` then succeeds, and reads the cost, the kind of link and
    -- the edge flag that are named as given and the others as before; the priority is read back
    -- increased by the number of the port divided by 256.
    pub in_set_port_cfg-Reads :
        (lib' : Library)
        → i < 4096
        → in_set_port_cfg env vlan_id i cfg lib ≡ some (stp_ok, lib')
        → ((in_port_get_cfg vlan_id i uid_cfg lib').0 ≡ stp_ok)
          × Reads cfg i port (in_port_get_cfg vlan_id i uid_cfg lib').1
    in_set_port_cfg-Reads lib' small e =
        of_OnSome IsRead (in_set_port_cfg env vlan_id i cfg lib) (stp_ok, lib')
          (in_set_port_cfg-IsRead small) e refl
