-- ===== src/Track/Handle.antt =====
-- bridge_track.c: the entries of the daemon, as the events that its loop serves one after the other.
use rstp.Prelude.{ℕ, ◌≡◌, Bool, false, Option, some, ◌>>=◌, []}
use rstp.Bpdu.{Bpdu}
use rstp.Library.Config.{StpCfg}
use rstp.Library.PortConfig.{PortCfg}
use rstp.Track.{Kernel, Rstp, Tracker}
use rstp.Track.Notify.{bridge_notify}
use rstp.Track.Frames.{bridge_bpdu_rcv, bridge_one_second}
use rstp.Track.Commands.{enable_bridge_rstp, set_bridge_config, set_port_config}

pub data Event : Type 0 where
  notify : Option ℕ → ℕ → Bool → Bool → Event
  bpdu_rcv : ℕ → Bpdu → ℕ → Event
  one_second : Event
  enable_rstp : ℕ → Bool → Event
  bridge_config : ℕ → StpCfg → Event
  port_config : ℕ → ℕ → PortCfg → Event

-- The state of the daemon before its first event.
abbrev pub initial : {I : Type 0} → Tracker I
initial = record { stp_up = false; if_head = []; count = 0 }

module _ (rstp : Rstp) where
  unfoldable pub handle : Kernel → Event → Tracker rstp.Instance → Option (Tracker rstp.Instance)
  unfolding bridge_notify bridge_bpdu_rcv bridge_one_second enable_bridge_rstp set_bridge_config
      set_port_config
  handle kernel (Event.notify br_index if_index newlink up) t =
      bridge_notify rstp kernel br_index if_index newlink up t >>= (λ (r, t'). some t')
  handle kernel (Event.bpdu_rcv if_index bpdu len) t =
      bridge_bpdu_rcv rstp kernel if_index bpdu len t
  handle kernel Event.one_second t = bridge_one_second rstp kernel t >>= (λ (asks, t'). some t')
  handle kernel (Event.enable_rstp br_index enable) t =
      enable_bridge_rstp rstp kernel br_index enable t >>= (λ (r, t'). some t')
  handle kernel (Event.bridge_config br_index cfg) t =
      set_bridge_config rstp kernel br_index cfg t >>= (λ (r, t'). some t')
  handle kernel (Event.port_config br_index port_index cfg) t =
      set_port_config rstp kernel br_index port_index cfg t >>= (λ (r, t'). some t')

  -- The states that the daemon can be in; the kernel may answer otherwise at each event.
  pub data Reachable : Tracker rstp.Instance → Type 0 where
    start : Reachable initial
    step :
        {t t' : Tracker rstp.Instance} (kernel : Kernel) (event : Event)
        → Reachable t
        → handle kernel event t ≡ some t'
        → Reachable t'
