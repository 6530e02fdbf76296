-- ===== src/Daemon.antt =====
-- brmon.c, packet.c, ctl_socket.c and epoll_loop.c: the loop of the daemon and its handlers.
use rstp.Prelude.{
  ℕ, ◌+◌, ◌-◌, ◌*◌, ◌/◌, Bool, true, false, not, ◌&&◌, ◌||◌, Option, none, some, ◌>>=◌,
  if◌then◌else◌, ◌==◌, ltb, List, [], ◌∷◌, length, ℤ, pos, negsuc, ltb_ℤ,
}
use rstp.Bpdu.{Bpdu}
use rstp.Track.{Kernel, Rstp, Tracker}
use rstp.Track.Out.{eq_ℤ}
use rstp.Track.Notify.{bridge_notify}
use rstp.Track.Frames.{bridge_bpdu_rcv, bridge_one_second}
use rstp.Control.{MsgHdr, Command}
use rstp.Control.Server.{Server, Protocol, Datagram, ctl_rcv_handler}
pub mod Reports
pub mod Told

-- A message of the kernel: the fields of `struct nlmsghdr` and `struct ifinfomsg`, and what
-- `parse_rtattr` of libnetlink.c finds.
pub record NlMsg : Type 0 where
  pub nlmsg_len : ℕ
  pub nlmsg_type : ℕ
  pub ifi_family : ℕ
  pub ifi_index : ℕ
  pub ifla_master : Option ℕ
  pub ifla_priority : Option (List ℕ)
  pub ifla_ifname : Option (List ℕ)
  pub ifla_operstate : Option ℤ

-- linux/netlink.h, linux/rtnetlink.h and sys/socket.h.
abbrev nlmsg_done : ℕ
nlmsg_done = 3

abbrev rtm_newlink : ℕ
rtm_newlink = 16

abbrev rtm_dellink : ℕ
rtm_dellink = 17

abbrev af_unspec : ℕ
af_unspec = 0

abbrev af_bridge : ℕ
af_bridge = 7

-- NLMSG_LENGTH (sizeof (struct ifinfomsg))
abbrev ifinfomsg_length : ℕ
ifinfomsg_length = 16 + 16

abbrev if_oper_unknown : ℤ
if_oper_unknown = pos 0

abbrev if_oper_up : ℤ
if_oper_up = pos 6

abbrev is_given : {A : Type 0} → Option A → Bool
is_given none = false
is_given (some a) = true

-- `up`, as `dump_msg` computes it.
unfoldable pub oper_up : NlMsg → Bool
oper_up n = n.nlmsg_type == rtm_newlink && elim n.ifla_operstate [
  | none ↦ false
  | some state ↦ eq_ℤ state if_oper_up || eq_ℤ state if_oper_unknown
]

-- A message that `dump_msg` leaves aside with 0 before it looks for the name.
unfoldable pub ignored : NlMsg → Bool
ignored n =
    (not (n.ifi_family == af_bridge) && not (n.ifi_family == af_unspec))
    || (not (n.nlmsg_type == rtm_newlink) && not (n.nlmsg_type == rtm_dellink))
    || (is_given n.ifla_master && not (n.ifi_family == af_bridge))

-- A BPDU that the kernel hands on in a message.
abbrev handed_bpdu : NlMsg → Option (List ℕ)
handed_bpdu n = if n.ifi_family == af_bridge then n.ifla_priority else none

-- `struct timeval`, of a moment after the epoch.
pub record TimeVal : Type 0 where
  pub tv_sec : ℕ
  pub tv_usec : ℕ

-- `time_diff`, in milliseconds: the division of C drops the fraction towards 0.
unfoldable pub time_diff : TimeVal → TimeVal → ℤ
time_diff second first =
    let plus = second.tv_sec * 1000 + (second.tv_usec - first.tv_usec) / 1000 in
    let minus = first.tv_sec * 1000 + (first.tv_usec - second.tv_usec) / 1000 in
    if ltb plus minus then negsuc (minus - plus - 1) else pos (plus - minus)

-- What a handler finds when its descriptor is ready: the messages that `rtnl_listen` passes on and
-- whether it then fails; a packet with its interface, if `recvfrom` gives one; a datagram.
pub data Ready : Type 0 where
  br_event : List NlMsg → Bool → Ready
  packet : Option (ℕ × List ℕ) → Ready
  ctl_event : Datagram → Ready

-- The daemon runs on, or leaves its loop by `exit`.
pub data Status {ℓ} (A : Type ℓ) : Type ℓ where
  running : A → Status A
  exited : Status A

-- What the loop is run with: the protocol of rstpctl, and how the bytes of a frame lie in
-- `struct BPDU_T`.
pub record Setup : Type 0 where
  pub protocol : Protocol
  pub bpdu_of : List ℕ → Bpdu

pub record Daemon (I : Type 0) : Type 0 where
  pub server : Server I
  pub nexttimeout : TimeVal

module _ (rstp : Rstp) (setup : Setup) where
  open setup use {protocol, bpdu_of}

  abbrev pub T : Type 0
  T = Tracker rstp.Instance

  abbrev pub D : Type 0
  D = Daemon rstp.Instance

  abbrev pub with_tracker : D → T → D
  with_tracker d t = let s = d.server in record d { server = record s { tracker = t } }

  -- `dump_msg`, without its output: whether it returned 0, and the daemon after it.
  unfoldable pub dump_msg : Kernel → NlMsg → T → Option (Bool × T)
  unfolding ignored oper_up bridge_notify bridge_bpdu_rcv
  dump_msg kernel n t =
      if n.nlmsg_type == nlmsg_done
      then some (true, t)
      else if ltb n.nlmsg_len ifinfomsg_length
      then some (false, t)
      else if ignored n
      then some (true, t)
      else elim (handed_bpdu n) [
        | some frame ↦
            bridge_bpdu_rcv rstp kernel n.ifi_index (bpdu_of frame) (length frame) t
            >>= (λ t'. some (true, t'))
        | none ↦
            if not (is_given n.ifla_ifname)
            then some (false, t)
            else bridge_notify rstp kernel n.ifla_master n.ifi_index (n.nlmsg_type == rtm_newlink)
                (oper_up n) t
              >>= (λ (r, t'). some (true, t'))
      ]

  -- The calls of `rtnl_listen`, which stops at a message that is refused.
  unfoldable pub dump_all : Kernel → List NlMsg → T → Option (Bool × T)
  unfolding dump_msg
  dump_all kernel [] t = some (true, t)
  dump_all kernel (n ∷ rest) t = dump_msg kernel n t >>= (λ (ok, t').
      let later = dump_all kernel rest t' in if ok then later else some (false, t'))

  -- The handlers: `br_ev_handler`, `packet_rcv` and `ctl_rcv_handler`.
  unfoldable pub handler : Kernel → Ready → D → Option (Status D)
  unfolding dump_all bridge_bpdu_rcv ctl_rcv_handler
  handler kernel (Ready.br_event messages failed) d =
      dump_all kernel messages d.server.tracker >>= (λ (ok, t).
        some (if ok && not failed then Status.running (with_tracker d t) else Status.exited))
  handler kernel (Ready.packet none) d = some (Status.running d)
  handler kernel (Ready.packet (some (if_index, buf))) d =
      bridge_bpdu_rcv rstp kernel if_index (bpdu_of buf) (length buf) d.server.tracker
      >>= (λ t. some (Status.running (with_tracker d t)))
  handler kernel (Ready.ctl_event datagram) d =
      ctl_rcv_handler rstp kernel protocol datagram d.server
      >>= (λ (reply, s). some (Status.running (record d { server = s })))

  -- `run_timeouts`
  unfoldable pub run_timeouts : Kernel → D → Option D
  unfolding bridge_one_second
  run_timeouts kernel d = bridge_one_second rstp kernel d.server.tracker >>= (λ (asks, t).
      let next = d.nexttimeout in
      let d' = with_tracker d t in
      some (record d' { nexttimeout = record next { tv_sec = next.tv_sec + 1 } }))

  -- The calls of the handlers, in the order of the events.
  unfoldable pub handle_ready : List (Kernel × Ready) → D → Option (Status D)
  unfolding handler
  handle_ready [] d = some (Status.running d)
  handle_ready ((kernel, r) ∷ rest) d = handler kernel r d >>= (λ status. elim status [
    | Status.running d' ↦ handle_ready rest d'
    | Status.exited ↦ some Status.exited
  ])

  -- A round of `epoll_main_loop`: the time, what the kernel would answer at the tick, and the events.
  unfoldable pub round : TimeVal → Kernel → List (Kernel × Ready) → D → Option (Status D)
  unfolding time_diff run_timeouts handle_ready
  round now kernel ready d =
      (if ltb_ℤ (time_diff d.nexttimeout now) (pos 0) then run_timeouts kernel d else some d)
      >>= handle_ready ready
