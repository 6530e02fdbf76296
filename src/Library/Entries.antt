-- ===== src/Library/Entries.antt =====
-- rstplib/stpm.c and stp_in.c: the lists, seen as the table.
use rstp.Prelude.{
  ℕ, ◌≡◌, refl, ◌∙◌, sym, Bool, true, false, Option, none, some, ◌==◌, List, [], ◌∷◌, map, if_ap,
  if_or,
}
use rstp.Port.{Port}
use rstp.Stpm.{Bridge}
use rstp.Update.Setup.{port_setup}
use rstp.Library.{stpm_find, stpm_put, stpm_remove, port_find, port_remove}
use rstp.Library.Table.{Entry, indices, entry, entries, find, put, remove, has, drop_port}

abbrev pub opt_entry : Option Bridge → Option Entry
opt_entry none = none
opt_entry (some this) = some (entry this)

pub entries-find :
    (vlan_id : ℕ) (bridges : List Bridge)
    → find vlan_id (entries bridges) ≡ opt_entry (stpm_find vlan_id bridges)
unfolding find stpm_find
entries-find vlan_id [] = refl
entries-find vlan_id (this ∷ rest) =
    rw (entries-find vlan_id rest)
      (sym (if_ap opt_entry (this.stpm.vlan_id == vlan_id) (some this) (stpm_find vlan_id rest)))

pub entries-put :
    (vlan_id : ℕ) (this : Bridge) (bridges : List Bridge)
    → entries (stpm_put vlan_id this bridges) ≡ put vlan_id (entry this) (entries bridges)
unfolding put stpm_put
entries-put vlan_id this [] = refl
entries-put vlan_id this (b ∷ rest) =
    if_ap entries (b.stpm.vlan_id == vlan_id) (this ∷ rest) (b ∷ stpm_put vlan_id this rest)
    ∙ rw (entries-put vlan_id this rest) refl

pub entries-remove :
    (vlan_id : ℕ) (bridges : List Bridge)
    → entries (stpm_remove vlan_id bridges) ≡ remove vlan_id (entries bridges)
unfolding remove stpm_remove
entries-remove vlan_id [] = refl
entries-remove vlan_id (b ∷ rest) =
    if_ap entries (b.stpm.vlan_id == vlan_id) rest (b ∷ stpm_remove vlan_id rest)
    ∙ rw (entries-remove vlan_id rest) refl

abbrev pub is_some : {A : Type 0} → Option A → Bool
is_some none = false
is_some (some a) = true

abbrev pub ports_of : List Port → List ℕ
ports_of ports = indices (map port_setup ports)

pub ports_of-find :
    (index : ℕ) (ports : List Port) → is_some (port_find index ports) ≡ has index (ports_of ports)
unfolding port_find
ports_of-find index [] = refl
ports_of-find index (port ∷ rest) =
    if_ap is_some (port.port_index == index) (some port) (port_find index rest)
    ∙ rw (ports_of-find index rest) (if_or (port.port_index == index) (has index (ports_of rest)))

pub ports_of-remove :
    (index : ℕ) (ports : List Port)
    → ports_of (port_remove index ports) ≡ drop_port index (ports_of ports)
unfolding port_remove drop_port
ports_of-remove index [] = refl
ports_of-remove index (port ∷ rest) =
    if_ap ports_of (port.port_index == index) rest (port ∷ port_remove index rest)
    ∙ rw (ports_of-remove index rest) refl

pub ports_of-map :
    (f : Port → Port)
    → ((port : Port) → (f port).port_index ≡ port.port_index)
    → (ports : List Port) → ports_of (map f ports) ≡ ports_of ports
ports_of-map f h [] = refl
ports_of-map f h (port ∷ ports) = rw (h port, ports_of-map f h ports) refl
