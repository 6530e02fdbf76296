-- ===== src/Track/Served.antt =====
-- bridge_track.c: every event leaves each interface known once: the handlers.
use rstp.Prelude.{
  ℕ, ◌≡◌, refl, ap, ◌∙◌, sym, Bool, true, false, Option, none, some, ◌>>=◌, if◌then◌else◌, ◌==◌,
  List, [], ◌∷◌, OnSome, inl, inr, Bool-cases, OnSome-else, OnSome-bind, OnSome-if, OnSome-each,
}
use rstp.Library.Table.{has, drop_port}
use rstp.Library.Entries.{is_some}
use rstp.Track.{
  Kernel, Rstp, IfData, Tracker, find_if, update_bridge_stp_config, update_port_stp_config,
}
use rstp.Track.Stp.{add_port_stp}
use rstp.Track.Links.{
  create_bridge, create_port, delete_port, delete_if, new_slave, add_if, set_if_up, same, blank_if,
}
use rstp.Track.Notify.{
  NotifyResult, notified, failed, notify_port, notify_new_port, notify_slave, in_bridge,
}
use rstp.Track.Indices.{indices, Keeps, add_port_stp-Keeps, set_if_up-Keeps}
use rstp.Track.Distinct.{has-find_if, drop_port-Unique, has-drop_port, eq_of}
use rstp.Track.Known.{Distinct, of_Keeps, delete_port-drop, delete_if-Distinct}

module _ (rstp : Rstp) (kernel : Kernel) where
  abbrev pub On : {A : Type 0} → Option (A × Tracker rstp.Instance) → Type 0
  On {A = A} o = OnSome (λ (r : A × Tracker rstp.Instance). Distinct rstp kernel r.1) o

  abbrev index_of : Option (IfData rstp.Instance) → ℕ
  index_of none = 0
  index_of (some p) = p.if_index

  abbrev pub Good : NotifyResult × Tracker rstp.Instance → Type 0
  Good r = Distinct rstp kernel r.1

  -- A state, with an answer put before it.
  pub answered :
      {A : Type 0} (answer : A) (o : Option (Tracker rstp.Instance))
      → OnSome (Distinct rstp kernel) o
      → On (o >>= (λ t'. some (answer, t')))
  answered answer none h = tt
  answered answer (some t) h = h

  pub kept :
      (t : Tracker rstp.Instance) (o : Option (Tracker rstp.Instance))
      → Distinct rstp kernel t
      → OnSome (Keeps rstp kernel t) o
      → OnSome (Distinct rstp kernel) o
  kept t none d h = tt
  kept t (some t') d h = of_Keeps rstp kernel t t' h d

  pub create_bridge-Distinct :
      (if_index : ℕ) (t : Tracker rstp.Instance)
      → Distinct rstp kernel t
      → find_if if_index t.if_head ≡ none
      → Distinct rstp kernel (create_bridge rstp kernel if_index t)
  unfolding create_bridge update_bridge_stp_config blank_if
  create_bridge-Distinct if_index t d e = (has-find_if if_index t.if_head ∙ ap is_some e, d)

  create_port-Distinct :
      (br_index if_index : ℕ) (t : Tracker rstp.Instance)
      → Distinct rstp kernel t
      → has if_index (indices t) ≡ false
      → OnSome (Distinct rstp kernel) (create_port rstp kernel br_index if_index t)
  unfolding create_port update_port_stp_config blank_if
  create_port-Distinct br_index if_index t d e =
      let t' = add_if rstp kernel (new_slave rstp kernel br_index if_index) t in
      OnSome-each _ (find_if br_index t.if_head) _ (λ br.
        OnSome-if _ br.stp_up _ (some t')
          (OnSome-bind (λ (r : Bool × Tracker rstp.Instance). Keeps rstp kernel t' r.1) _
            (add_port_stp rstp kernel br_index if_index t') _
            (add_port_stp-Keeps rstp kernel br_index if_index t')
            (λ (added, t2) same. of_Keeps rstp kernel t' t2 same (e, d)))
          (e, d))

  notify_port-Distinct :
      (br ifc : IfData rstp.Instance) (newlink up : Bool) (t : Tracker rstp.Instance)
      → Distinct rstp kernel t
      → On (notify_port rstp kernel br ifc newlink up t)
  unfolding notify_port
  notify_port-Distinct br ifc newlink up t d =
      OnSome-if Good _ (delete_if rstp kernel ifc t >>= (λ t'. some (notified, t'))) _
        (answered notified (delete_if rstp kernel ifc t) (delete_if-Distinct rstp kernel ifc t d))
        (OnSome-if Good (same ifc.up up) (some (notified, t)) _ d (
          answered notified (set_if_up rstp kernel ifc up t)
            (kept t (set_if_up rstp kernel ifc up t) d (set_if_up-Keeps rstp kernel ifc up t))))

  notify_new_port-Distinct :
      (br : IfData rstp.Instance) (if_index : ℕ) (newlink up : Bool) (t : Tracker rstp.Instance)
      → Distinct rstp kernel t
      → has if_index (indices t) ≡ false
      → On (notify_new_port rstp kernel br if_index newlink up t)
  unfolding notify_new_port
  notify_new_port-Distinct br if_index newlink up t d e =
      OnSome-bind (Distinct rstp kernel) _ (create_port rstp kernel br.if_index if_index t) _
        (create_port-Distinct br.if_index if_index t d e)
        (λ t' d'.
          OnSome-each Good (find_if if_index t'.if_head) _
            (λ ifc. notify_port-Distinct br ifc newlink up t' d'))

  find_index :
      (if_index : ℕ) (ifs : List (IfData rstp.Instance)) (ifc : IfData rstp.Instance)
      → find_if if_index ifs ≡ some ifc
      → ifc.if_index ≡ if_index
  unfolding find_if
  find_index if_index [] ifc e = cc
  find_index if_index (p ∷ rest) ifc e =
      found_at (p.if_index == if_index) refl e (find_index if_index rest ifc)
    where
      found_at :
          (b : Bool)
          → b ≡ (p.if_index == if_index)
          → (if b then some p else find_if if_index rest) ≡ some ifc
          → (find_if if_index rest ≡ some ifc → ifc.if_index ≡ if_index)
          → ifc.if_index ≡ if_index
      found_at true h e' later = ap index_of (sym e') ∙ eq_of p.if_index if_index (sym h)
      found_at false h e' later = later e'

  -- A port of another bridge is deleted before it is created again.
  moved-Distinct :
      (br ifc : IfData rstp.Instance) (if_index : ℕ) (newlink up : Bool) (t : Tracker rstp.Instance)
      → Distinct rstp kernel t
      → ifc.if_index ≡ if_index
      → ifc.is_bridge ≡ false
      → OnSome Good
          (delete_if rstp kernel ifc t >>= notify_new_port rstp kernel br if_index newlink up)
  unfolding delete_if
  moved-Distinct br ifc if_index newlink up t d e port =
      rw (port, e)
        (OnSome-bind (λ t'. indices t' ≡ drop_port if_index (indices t)) Good
          (delete_port rstp kernel if_index t) _ (delete_port-drop rstp kernel if_index t)
          (λ t' same.
            notify_new_port-Distinct br if_index newlink up t'
              (rw same (drop_port-Unique if_index (indices t) d))
              (rw same (has-drop_port if_index (indices t) d))))

  pub notify_slave-Distinct :
      (br : IfData rstp.Instance) (if_index : ℕ) (newlink up : Bool) (t : Tracker rstp.Instance)
      → Distinct rstp kernel t
      → OnSome Good (notify_slave rstp kernel br if_index newlink up t)
  unfolding notify_slave
  notify_slave-Distinct br if_index newlink up t d = found (find_if if_index t.if_head) refl
    where
      found :
          (o : Option (IfData rstp.Instance))
          → find_if if_index t.if_head ≡ o
          → OnSome Good (elim o [
            | none ↦ notify_new_port rstp kernel br if_index newlink up t
            | some ifc ↦
                if ifc.is_bridge
                then some (failed, t)
                else if in_bridge rstp kernel ifc br
                then notify_port rstp kernel br ifc newlink up t
                else delete_if rstp kernel ifc t
                  >>= notify_new_port rstp kernel br if_index newlink up
          ])
      found none e =
          notify_new_port-Distinct br if_index newlink up t d
            (has-find_if if_index t.if_head ∙ ap is_some e)
      found (some ifc) e = elim (Bool-cases ifc.is_bridge) [
        | inl b ↦ rw b d
        | inr b ↦ OnSome-else Good ifc.is_bridge (some (failed, t)) _ b (
            OnSome-if Good (in_bridge rstp kernel ifc br)
              (notify_port rstp kernel br ifc newlink up t) _
              (notify_port-Distinct br ifc newlink up t d)
              (moved-Distinct br ifc if_index newlink up t d (find_index if_index t.if_head ifc e)
                b))
      ]
