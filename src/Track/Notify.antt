-- ===== src/Track/Notify.antt =====
-- bridge_track.c: the messages of the kernel on links.
use rstp.Prelude.{ℕ, Bool, true, false, not, ◌&&◌, Option, none, some, ◌>>=◌, if◌then◌else◌, ◌==◌}
use rstp.Track.{Kernel, Rstp, IfData, Tracker, find_if}
use rstp.Track.Links.{create_bridge, create_port, delete_if, set_br_up, set_if_up, same}

-- The 0 and the -1 that `bridge_notify` returns.
pub data NotifyResult : Type 0 where
  notified failed : NotifyResult

module _ (rstp : Rstp) (kernel : Kernel) where
  -- The end of `bridge_notify` with a bridge, once the interface is one of its ports.
  unfoldable pub notify_port :
      IfData rstp.Instance
      → IfData rstp.Instance
      → Bool
      → Bool
      → Tracker rstp.Instance
      → Option (NotifyResult × Tracker rstp.Instance)
  unfolding delete_if set_if_up
  notify_port br ifc newlink up t =
      if not newlink && not (kernel.is_bridge_slave br.name ifc.name)
      then delete_if rstp kernel ifc t >>= (λ t'. some (NotifyResult.notified, t'))
      else if same ifc.up up
      then some (NotifyResult.notified, t)
      else set_if_up rstp kernel ifc up t >>= (λ t'. some (NotifyResult.notified, t'))

  -- A port that is not known, or no longer, of the bridge.
  unfoldable pub notify_new_port :
      IfData rstp.Instance
      → ℕ
      → Bool
      → Bool
      → Tracker rstp.Instance
      → Option (NotifyResult × Tracker rstp.Instance)
  unfolding create_port find_if notify_port
  notify_new_port br if_index newlink up t =
      create_port rstp kernel br.if_index if_index t
      >>= (λ t'. find_if if_index t'.if_head >>= (λ ifc. notify_port br ifc newlink up t'))

  abbrev pub in_bridge : IfData rstp.Instance → IfData rstp.Instance → Bool
  in_bridge ifc br = elim ifc.master [ none ↦ false | some m ↦ m == br.if_index ]

  -- `bridge_notify` with a bridge, which is up by now.
  unfoldable pub notify_slave :
      IfData rstp.Instance
      → ℕ
      → Bool
      → Bool
      → Tracker rstp.Instance
      → Option (NotifyResult × Tracker rstp.Instance)
  unfolding find_if delete_if notify_new_port notify_port
  notify_slave br if_index newlink up t = elim (find_if if_index t.if_head) [
    | none ↦ notify_new_port br if_index newlink up t
    | some ifc ↦
        if ifc.is_bridge
        then some (NotifyResult.failed, t)
        else if in_bridge ifc br
        then notify_port br ifc newlink up t
        else delete_if rstp kernel ifc t >>= notify_new_port br if_index newlink up
  ]

  -- The first part of `bridge_notify`: the bridge, created where it is not known, and set up.
  unfoldable pub notify_bridge :
      ℕ → ℕ → Bool → Bool → Tracker rstp.Instance → Option (NotifyResult × Tracker rstp.Instance)
  unfolding find_if create_bridge set_br_up notify_slave
  notify_bridge br_index if_index newlink up t =
      let known : Bool = elim (find_if br_index t.if_head) [ none ↦ false | some br ↦ true ] in
      let t1 = if known then t else create_bridge rstp kernel br_index t in
      find_if br_index t1.if_head >>= (λ br.
        if not br.is_bridge
        then some (NotifyResult.failed, t1)
        else (if br.up then some t1 else set_br_up rstp kernel br true t1)
          >>= notify_slave br if_index newlink up)

  -- A name that the kernel takes for a bridge's.
  abbrev pub is_new_bridge : ℕ → Bool
  is_new_bridge if_index = elim (kernel.if_indextoname if_index) [
    | none ↦ false
    | some name ↦ kernel.is_bridge name
  ]

  -- The interface of `bridge_notify` without a bridge, as a link that may be new.
  unfoldable pub notify_link :
      IfData rstp.Instance
      → Bool
      → Tracker rstp.Instance
      → Option (NotifyResult × Tracker rstp.Instance)
  unfolding find_if delete_if set_br_up set_if_up
  notify_link ifc up t =
      let left : Bool = elim (ifc.master >>= (λ m. find_if m t.if_head)) [
        | none ↦ false
        | some br ↦ not (kernel.is_bridge_slave br.name ifc.name)
      ] in
      if not ifc.is_bridge && left
      then delete_if rstp kernel ifc t >>= (λ t'. some (NotifyResult.notified, t'))
      else if same ifc.up up
      then some (NotifyResult.notified, t)
      else (if ifc.is_bridge
          then set_br_up rstp kernel ifc up t
          else set_if_up rstp kernel ifc up t)
        >>= (λ t'. some (NotifyResult.notified, t'))

  -- `bridge_notify` without a bridge.
  unfoldable pub notify_alone :
      ℕ → Bool → Bool → Tracker rstp.Instance → Option (NotifyResult × Tracker rstp.Instance)
  unfolding find_if create_bridge delete_if notify_link
  notify_alone if_index newlink up t =
      let found = find_if if_index t.if_head in
      if not newlink
      then elim found [
        | none ↦ some (NotifyResult.notified, t)
        | some ifc ↦ delete_if rstp kernel ifc t >>= (λ t'. some (NotifyResult.notified, t'))
      ]
      else elim found [
        | some ifc ↦ notify_link ifc up t
        | none ↦
            if is_new_bridge if_index
            then (let t' = create_bridge rstp kernel if_index t in
                find_if if_index t'.if_head >>= (λ ifc. notify_link ifc up t'))
            else some (NotifyResult.notified, t)
      ]

  -- `bridge_notify`: a negative `br_index` is none.
  unfoldable pub bridge_notify :
      Option ℕ
      → ℕ
      → Bool
      → Bool
      → Tracker rstp.Instance
      → Option (NotifyResult × Tracker rstp.Instance)
  unfolding notify_bridge notify_alone
  bridge_notify none if_index newlink up t = notify_alone if_index newlink up t
  bridge_notify (some br_index) if_index newlink up t = notify_bridge br_index if_index newlink up t
