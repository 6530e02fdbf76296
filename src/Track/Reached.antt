-- ===== src/Track/Reached.antt =====
-- bridge_track.c: in every state that the daemon reaches it knows each interface once.
use rstp.Prelude.{Option, some, ◌>>=◌, OnSome, of_OnSome, OnSome-map, OnSome-bind}
use rstp.Track.{Kernel, Rstp, Tracker}
use rstp.Track.Notify.{bridge_notify}
use rstp.Track.Frames.{bridge_bpdu_rcv, bridge_one_second}
use rstp.Track.Commands.{enable_bridge_rstp, set_bridge_config, set_port_config}
use rstp.Track.Handle.{Event, handle, Reachable, start, step}
use rstp.Track.Indices.{indices, Keeps}
use rstp.Track.Distinct.{Unique}
use rstp.Track.Known.{Distinct, of_Keeps}
use rstp.Track.Notified.{bridge_notify-Distinct}
use rstp.Track.Invariant.{
  KeepsAll, bpdu_rcv-Keeps, one_second-Keeps, bridge_config-Keeps, port_config-Keeps,
  enable_rstp-Distinct,
}

module _ (rstp : Rstp) where
  module _ (kernel : Kernel) (t : Tracker rstp.Instance) (d : Distinct rstp kernel t) where
    abbrev D : Tracker rstp.Instance → Type 0
    D = Distinct rstp kernel

    -- The state that an event leaves, from one with its answer.
    state_of :
        {A : Type 0} (o : Option (A × Tracker rstp.Instance))
        → OnSome (λ (r : A × Tracker rstp.Instance). D r.1) o
        → OnSome D (o >>= (λ (r, t'). some t'))
    state_of {A = A} o h =
        OnSome-bind (λ (r : A × Tracker rstp.Instance). D r.1) D o _ h (λ (r, t') e. e)

    kept_state :
        {A : Type 0} (o : Option (A × Tracker rstp.Instance))
        → KeepsAll rstp kernel t o
        → OnSome D (o >>= (λ (r, t'). some t'))
    kept_state {A = A} o h =
        OnSome-bind (λ (r : A × Tracker rstp.Instance). Keeps rstp kernel t r.1) D o _ h
          (λ (r, t') e. of_Keeps rstp kernel t t' e d)

    handle-Distinct : (event : Event) → OnSome D (handle rstp kernel event t)
    unfolding handle
    handle-Distinct (Event.notify br_index if_index newlink up) =
        state_of (bridge_notify rstp kernel br_index if_index newlink up t)
          (bridge_notify-Distinct rstp kernel br_index if_index newlink up t d)
    handle-Distinct (Event.bpdu_rcv if_index bpdu len) =
        OnSome-map (Keeps rstp kernel t) D (bridge_bpdu_rcv rstp kernel if_index bpdu len t)
          (λ t' e. of_Keeps rstp kernel t t' e d) (bpdu_rcv-Keeps rstp kernel if_index bpdu len t)
    handle-Distinct Event.one_second =
        kept_state (bridge_one_second rstp kernel t) (one_second-Keeps rstp kernel t)
    handle-Distinct (Event.enable_rstp br_index enable) =
        state_of (enable_bridge_rstp rstp kernel br_index enable t)
          (enable_rstp-Distinct rstp kernel br_index enable t d)
    handle-Distinct (Event.bridge_config br_index cfg) =
        kept_state (set_bridge_config rstp kernel br_index cfg t)
          (bridge_config-Keeps rstp kernel br_index cfg t)
    handle-Distinct (Event.port_config br_index port_index cfg) =
        kept_state (set_port_config rstp kernel br_index port_index cfg t)
          (port_config-Keeps rstp kernel br_index port_index cfg t)

  -- In every state that the daemon reaches from its start, by whatever messages of the kernel,
  -- frames, seconds and commands, no two of the interfaces that it knows have the same index.
  pub reachable-Unique : (t : Tracker rstp.Instance) → Reachable rstp t → Unique (indices t)
  reachable-Unique t start = tt
  reachable-Unique after (step {t = before} now event from e) =
      of_OnSome (Distinct rstp now) _ after
        (handle-Distinct now before (reachable-Unique before from) event) e
