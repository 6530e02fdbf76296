-- ===== src/Track/Known.antt =====
-- bridge_track.c: every event leaves each interface known once.
use rstp.Prelude.{
  ℕ, ◌≡◌, refl, ap, ◌∙◌, some, if◌then◌else◌, List, [], ◌∷◌, OnSome, OnSome-map, OnSome-bind,
  OnSome-if, OnSome-each,
}
use rstp.Library.Table.{drop_port}
use rstp.Track.{Kernel, Rstp, IfData, Tracker, find_if}
use rstp.Track.Stp.{remove_port_stp, port_indices, clear_bridge_stp}
use rstp.Track.Links.{delete_port, delete_ports, delete_bridge, delete_if}
use rstp.Track.Indices.{indices, Keeps, remove_port_stp-Keeps, clear_bridge_stp-Keeps}
use rstp.Track.Distinct.{Unique, remove_if-drop, drop_port-Unique}

module _ (rstp : Rstp) (kernel : Kernel) where
  -- No two interfaces have the same index.
  abbrev pub Distinct : Tracker rstp.Instance → Type 0
  Distinct t = Unique (indices t)

  pub of_Keeps : (t t' : Tracker rstp.Instance) → Keeps rstp kernel t t' → Distinct t → Distinct t'
  of_Keeps t t' e d = rw e d

  pub delete_port-drop :
      (if_index : ℕ) (t : Tracker rstp.Instance)
      → OnSome
          (λ t'. indices t' ≡ drop_port if_index (indices t))
          (delete_port rstp kernel if_index t)
  unfolding delete_port
  delete_port-drop if_index t = OnSome-each _ (find_if if_index t.if_head) _ (λ ifc.
      OnSome-each _ ifc.master _ (λ br_index. OnSome-each _ (find_if br_index t.if_head) _ (λ br.
        OnSome-bind (Keeps rstp kernel t) _
          (if br.stp_up then remove_port_stp rstp kernel br_index if_index t else some t) _
          (OnSome-if (Keeps rstp kernel t) br.stp_up
            (remove_port_stp rstp kernel br_index if_index t) (some t)
            (remove_port_stp-Keeps rstp kernel br_index if_index t) refl)
          (λ t' e. remove_if-drop if_index t'.if_head ∙ ap (drop_port if_index) e))))

  delete_ports-Distinct :
      (ports : List ℕ) (t : Tracker rstp.Instance)
      → Distinct t
      → OnSome Distinct (delete_ports rstp kernel ports t)
  unfolding delete_ports
  delete_ports-Distinct [] t d = d
  delete_ports-Distinct (p ∷ rest) t d =
      OnSome-bind (λ t'. indices t' ≡ drop_port p (indices t)) _ (delete_port rstp kernel p t) _
        (delete_port-drop p t)
        (λ t' e. delete_ports-Distinct rest t' (rw e (drop_port-Unique p (indices t) d)))

  delete_bridge-Distinct :
      (br_index : ℕ) (t : Tracker rstp.Instance)
      → Distinct t
      → OnSome Distinct (delete_bridge rstp kernel br_index t)
  unfolding delete_bridge
  delete_bridge-Distinct br_index t d =
      OnSome-bind (Keeps rstp kernel t) _ (clear_bridge_stp rstp kernel br_index t) _
        (clear_bridge_stp-Keeps rstp kernel br_index t)
        (λ t' e.
          OnSome-bind Distinct _
            (delete_ports rstp kernel (port_indices rstp kernel br_index t') t') _
            (delete_ports-Distinct (port_indices rstp kernel br_index t') t' (of_Keeps t t' e d))
            (λ t2 d2.
              rw (remove_if-drop br_index t2.if_head) (drop_port-Unique br_index (indices t2) d2)))

  pub delete_if-Distinct :
      (ifc : IfData rstp.Instance) (t : Tracker rstp.Instance)
      → Distinct t
      → OnSome Distinct (delete_if rstp kernel ifc t)
  unfolding delete_if
  delete_if-Distinct ifc t d =
      OnSome-if Distinct ifc.is_bridge (delete_bridge rstp kernel ifc.if_index t)
        (delete_port rstp kernel ifc.if_index t) (delete_bridge-Distinct ifc.if_index t d)
        (OnSome-map (λ t'. indices t' ≡ drop_port ifc.if_index (indices t)) Distinct
          (delete_port rstp kernel ifc.if_index t)
          (λ t' e. rw e (drop_port-Unique ifc.if_index (indices t) d))
          (delete_port-drop ifc.if_index t))
