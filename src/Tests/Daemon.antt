-- ===== src/Tests/Daemon.antt =====
-- The daemon of bridge_track.c, from its start: a bridge, without STP, and its first port.
use rstp.Prelude.{Option, none, some, ◌≡◌, refl, [], ◌∷◌, true, false, pos, All, List}
use rstp.Stpm.{Effect}
use rstp.Track.{Kernel, Rstp, Tracker, IfData}
use rstp.Track.Out.{FlashType, serve, flush_lt}
use rstp.Track.Links.{new_slave}
use rstp.Track.Handle.{Event, initial, handle, Reachable, start, step}
use rstp.Track.Indices.{indices}
use rstp.Track.Distinct.{Unique}
use rstp.Track.Reached.{reachable-Unique}
use rstp.Track.Sends.{IsServed, IsFlushed, serve-IsServed}
use rstp.Track.Implementation.{rstp_of}
use rstp.Tests.Running.{returns, value_of, some_of}

abbrev pub a_kernel : Kernel
a_kernel = record {
  if_indextoname = λ i. some (i ∷ []);
  is_bridge = λ name. true;
  is_bridge_slave = λ br name. true;
  get_bridge_portno = λ name. pos 1;
  get_hwaddr = λ name. 0 ∷ 1 ∷ 2 ∷ 3 ∷ 4 ∷ 5 ∷ [];
  ethtool_get_speed_duplex = λ name. (pos 100, pos 1);
  stp_state = λ name. some 0;
  short_bytes = λ n. 0 ∷ 128 ∷ [];
}

unfoldable pub a_rstp : Rstp
unfolding rstp_of
a_rstp = rstp_of (record { rounds = 40; fuel = 160 })

-- The kernel tells of the bridge 1, and then of its port 2.
abbrev pub first : Option (Tracker a_rstp.Instance)
first = handle a_rstp a_kernel (Event.notify none 1 true false) initial

first-returns : returns first ≡ true
unfolding handle
first-returns = refl

abbrev pub second : Option (Tracker a_rstp.Instance)
second = handle a_rstp a_kernel (Event.notify (some 1) 2 true true) (value_of initial first)

second-returns : returns second ≡ true
unfolding handle
second-returns = refl

reached : Reachable a_rstp (value_of initial second)
reached =
    step a_kernel (Event.notify (some 1) 2 true true)
      (step a_kernel (Event.notify none 1 true false) start (some_of initial first first-returns))
      (some_of initial second second-returns)

reachable-Unique_example : Unique (indices (value_of initial second))
reachable-Unique_example = reachable-Unique a_rstp (value_of initial second) reached

abbrev a_slave : IfData a_rstp.Instance
a_slave = record (new_slave a_rstp a_kernel 1 2) { port_index = pos 1; up = true }

abbrev other_slave : IfData a_rstp.Instance
other_slave = record a_slave { if_index = 3; port_index = pos 2; name = 3 ∷ [] }

abbrev slaves : List (IfData a_rstp.Instance)
slaves = a_slave ∷ other_slave ∷ []

abbrev their_bridge : IfData a_rstp.Instance
their_bridge = record a_slave { if_index = 1; port_index = pos 0; name = 1 ∷ [] }

serve-IsServed_example :
    All (IsServed false slaves 2) (serve false slaves (Effect.set_learning 2 true))
    × All
        (IsFlushed their_bridge slaves 1 FlashType.all_ports_exclude_this)
        (flush_lt their_bridge slaves 1 FlashType.all_ports_exclude_this)
serve-IsServed_example =
    serve-IsServed false their_bridge slaves (Effect.set_learning 2 true) 1
      FlashType.all_ports_exclude_this
