-- ===== src/Track/Notified.antt =====
-- bridge_track.c: `bridge_notify` leaves each interface known once.
use rstp.Prelude.{
  ℕ, ◌≡◌, refl, Bool, true, false, not, Option, none, some, ◌>>=◌, if◌then◌else◌, OnSome,
  OnSome-bind, OnSome-if, OnSome-each,
}
use rstp.Track.{Kernel, Rstp, IfData, Tracker, find_if}
use rstp.Track.Links.{create_bridge, delete_if, set_br_up, set_if_up, same}
use rstp.Track.Notify.{
  notified, failed, notify_bridge, notify_link, notify_alone, bridge_notify, is_new_bridge,
}
use rstp.Track.Indices.{Keeps, set_br_up-Keeps, set_if_up-Keeps}
use rstp.Track.Known.{Distinct, delete_if-Distinct}
use rstp.Track.Served.{Good, answered, kept, create_bridge-Distinct, notify_slave-Distinct}

module _ (rstp : Rstp) (kernel : Kernel) where
  abbrev pub known : Option (IfData rstp.Instance) → Bool
  known none = false
  known (some p) = true

  -- A bridge is created where none has its index.
  pub bridge_for :
      (br_index : ℕ) (t : Tracker rstp.Instance) (o : Option (IfData rstp.Instance))
      → find_if br_index t.if_head ≡ o
      → Distinct rstp kernel t
      → Distinct rstp kernel (if known o then t else create_bridge rstp kernel br_index t)
  bridge_for br_index t none e d = create_bridge-Distinct rstp kernel br_index t d e
  bridge_for br_index t (some br) e d = d

  notify_bridge-Distinct :
      (br_index if_index : ℕ) (newlink up : Bool) (t : Tracker rstp.Instance)
      → Distinct rstp kernel t
      → OnSome (Good rstp kernel) (notify_bridge rstp kernel br_index if_index newlink up t)
  unfolding notify_bridge
  notify_bridge-Distinct br_index if_index newlink up t d =
      let t1 =
        if known (find_if br_index t.if_head) then t else create_bridge rstp kernel br_index t in
      let d1 = bridge_for br_index t (find_if br_index t.if_head) refl d in
      OnSome-each _ (find_if br_index t1.if_head) _ (λ br.
        OnSome-if (Good rstp kernel) (not br.is_bridge) (some (failed, t1)) _ d1 (
          OnSome-bind (Distinct rstp kernel) _
            (if br.up then some t1 else set_br_up rstp kernel br true t1) _
            (OnSome-if (Distinct rstp kernel) br.up (some t1) (set_br_up rstp kernel br true t1) d1
              (kept rstp kernel t1 (set_br_up rstp kernel br true t1) d1
                (set_br_up-Keeps rstp kernel br true t1)))
            (λ t2 d2. notify_slave-Distinct rstp kernel br if_index newlink up t2 d2)))

  notify_link-Distinct :
      (ifc : IfData rstp.Instance) (up : Bool) (t : Tracker rstp.Instance)
      → Distinct rstp kernel t
      → OnSome (Good rstp kernel) (notify_link rstp kernel ifc up t)
  unfolding notify_link
  notify_link-Distinct ifc up t d =
      let set =
        if ifc.is_bridge then set_br_up rstp kernel ifc up t else set_if_up rstp kernel ifc up t in
      OnSome-if (Good rstp kernel) _ (delete_if rstp kernel ifc t >>= (λ t'. some (notified, t'))) _
        (answered rstp kernel notified (delete_if rstp kernel ifc t)
          (delete_if-Distinct rstp kernel ifc t d))
        (OnSome-if (Good rstp kernel) (same ifc.up up) (some (notified, t))
          (set >>= (λ t'. some (notified, t'))) d
          (answered rstp kernel notified set (
            kept rstp kernel t set d (
              OnSome-if (Keeps rstp kernel t) ifc.is_bridge (set_br_up rstp kernel ifc up t)
                (set_if_up rstp kernel ifc up t) (set_br_up-Keeps rstp kernel ifc up t)
                (set_if_up-Keeps rstp kernel ifc up t)))))

  notify_alone-Distinct :
      (if_index : ℕ) (newlink up : Bool) (t : Tracker rstp.Instance)
      → Distinct rstp kernel t
      → OnSome (Good rstp kernel) (notify_alone rstp kernel if_index newlink up t)
  unfolding notify_alone
  notify_alone-Distinct if_index newlink up t d = found (find_if if_index t.if_head) refl newlink
    where
      found :
          (o : Option (IfData rstp.Instance))
          → find_if if_index t.if_head ≡ o
          → (new : Bool)
          → OnSome (Good rstp kernel) (
              if not new
              then (elim o [
                | none ↦ some (notified, t)
                | some ifc ↦ delete_if rstp kernel ifc t >>= (λ t'. some (notified, t'))
              ])
              else (elim o [
                | some ifc ↦ notify_link rstp kernel ifc up t
                | none ↦
                    if is_new_bridge rstp kernel if_index
                    then (let t' = create_bridge rstp kernel if_index t in
                        find_if if_index t'.if_head >>= (λ ifc. notify_link rstp kernel ifc up t'))
                    else some (notified, t)
              ]))
      found none e false = d
      found none e true =
          let t' = create_bridge rstp kernel if_index t in
          let d' = create_bridge-Distinct rstp kernel if_index t d e in
          OnSome-if (Good rstp kernel) (is_new_bridge rstp kernel if_index)
            (find_if if_index t'.if_head >>= (λ ifc. notify_link rstp kernel ifc up t'))
            (some (notified, t))
            (OnSome-each (Good rstp kernel) (find_if if_index t'.if_head) _
              (λ ifc. notify_link-Distinct ifc up t' d'))
            d
      found (some ifc) e false =
          answered rstp kernel notified (delete_if rstp kernel ifc t)
            (delete_if-Distinct rstp kernel ifc t d)
      found (some ifc) e true = notify_link-Distinct ifc up t d

  pub bridge_notify-Distinct :
      (br_index : Option ℕ) (if_index : ℕ) (newlink up : Bool) (t : Tracker rstp.Instance)
      → Distinct rstp kernel t
      → OnSome (Good rstp kernel) (bridge_notify rstp kernel br_index if_index newlink up t)
  unfolding bridge_notify
  bridge_notify-Distinct none if_index newlink up t d =
      notify_alone-Distinct if_index newlink up t d
  bridge_notify-Distinct (some br_index) if_index newlink up t d =
      notify_bridge-Distinct br_index if_index newlink up t d
