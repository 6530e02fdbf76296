-- ===== src/Daemon/Told.antt =====
-- brmon.c: what `dump_msg` makes of the messages of the kernel, against a description of the messages
-- that concern a bridge.
use rstp.Prelude.{
  ℕ, ◌≤◌, ◌<◌, ◌≡◌, ◌⊎◌, ◌↔◌, inl, inr, ap, Bool, true, false, not, Option, none, some, ◌>>=◌,
  if◌then◌else◌, ◌==◌, ltb, List, [], ◌∷◌, length, OnSome, of_OnSome, OnSome-test, OnSome-bind,
  OnSome-self, OnSome-sought, OnSome-map,
}
use rstp.Track.{Kernel, Rstp, Tracker}
use rstp.Track.Notify.{NotifyResult, bridge_notify}
use rstp.Track.Frames.{bridge_bpdu_rcv}
use rstp.Track.Handle.{Event, handle}
use rstp.Daemon.Reports.{
  IsReport, IsUp, IsBare, given, not_given, ignored-IsReport, ignored_lem, equal_iff, is_equal,
  is_other, is_less, is_enough, negated, affirmed, done_is_none, oper_up-IsUp, bare, handed,
}
use rstp.Daemon.{NlMsg, Setup, is_given, ignored, oper_up, handed_bpdu, dump_msg, dump_all}

module _ (rstp : Rstp) (setup : Setup) (kernel : Kernel) where
  open setup use {bpdu_of}

  abbrev T : Type 0
  T = Tracker rstp.Instance

  -- What a message comes to, from the interfaces of the daemon: whether it is accepted, and the
  -- interfaces after it.
  pub data Told (n : NlMsg) (t : T) : Bool → T → Type 0 where
    short : ¬ (n.nlmsg_type ≡ 3) → n.nlmsg_len < 32 → Told n t false t
    passed : (n.nlmsg_type ≡ 3) ⊎ (32 ≤ n.nlmsg_len) → ¬ IsReport n → Told n t true t
    bpdu_handed :
        {t' : T} (buf : List ℕ)
        → 32 ≤ n.nlmsg_len
        → IsReport n
        → n.ifi_family ≡ 7
        → n.ifla_priority ≡ some buf
        → handle rstp kernel (Event.bpdu_rcv n.ifi_index (bpdu_of buf) (length buf)) t ≡ some t'
        → Told n t true t'
    nameless : 32 ≤ n.nlmsg_len → IsReport n → IsBare n → n.ifla_ifname ≡ none → Told n t false t
    link :
        {t' : T} (newlink up : Bool)
        → 32 ≤ n.nlmsg_len
        → IsReport n
        → IsBare n
        → ¬ (n.ifla_ifname ≡ none)
        → (newlink ≡ true) ↔ (n.nlmsg_type ≡ 16)
        → (up ≡ true) ↔ IsUp n
        → handle rstp kernel (Event.notify n.ifla_master n.ifi_index newlink up) t ≡ some t'
        → Told n t true t'

  -- The messages in their order, up to the first that is refused.
  pub data ToldAll : List NlMsg → T → Bool → T → Type 0 where
    all_told : {t : T} → ToldAll [] t true t
    refused :
        {n : NlMsg} {rest : List NlMsg} {t t' : T}
        → Told n t false t'
        → ToldAll (n ∷ rest) t false t'
    accepted :
        {n : NlMsg} {rest : List NlMsg} {t t' t'' : T} {ok : Bool}
        → Told n t true t'
        → ToldAll rest t' ok t''
        → ToldAll (n ∷ rest) t ok t''

  abbrev By : NlMsg → T → Bool × T → Type 0
  By n t (ok, t') = Told n t ok t'

  -- The event that a message about a link stands for.
  abbrev event_of : NlMsg → Event
  event_of n = Event.notify n.ifla_master n.ifi_index (n.nlmsg_type == 16) (oper_up n)

  -- The event that a BPDU in a message stands for.
  abbrev bpdu_event : NlMsg → List ℕ → Event
  bpdu_event n buf = Event.bpdu_rcv n.ifi_index (bpdu_of buf) (length buf)

  abbrev told_link : NlMsg → T → Option (NotifyResult × T)
  told_link n t =
      bridge_notify rstp kernel n.ifla_master n.ifi_index (n.nlmsg_type == 16) (oper_up n) t

  notified :
      (n : NlMsg) (t : T)
      → OnSome (λ q. handle rstp kernel (event_of n) t ≡ some q.1) (told_link n t)
  unfolding handle
  notified n t =
      OnSome-self (λ q. handle rstp kernel (event_of n) t ≡ some q.1) _
        (λ q same. ap (λ o. o >>= (λ (r, t'). some t')) same)

  received :
      (n : NlMsg) (buf : List ℕ) (t : T)
      → OnSome
          (λ t'. handle rstp kernel (bpdu_event n buf) t ≡ some t')
          (bridge_bpdu_rcv rstp kernel n.ifi_index (bpdu_of buf) (length buf) t)
  unfolding handle
  received n buf t = OnSome-self _ _ (λ t' same. same)

  -- A message that concerns a bridge.
  report-OnSome :
      (n : NlMsg) (t : T)
      → 32 ≤ n.nlmsg_len
      → IsReport n
      → OnSome (By n t) (elim (handed_bpdu n) [
        | some frame ↦
            bridge_bpdu_rcv rstp kernel n.ifi_index (bpdu_of frame) (length frame) t
            >>= (λ t'. some (true, t'))
        | none ↦
            if not (is_given n.ifla_ifname)
            then some (false, t)
            else bridge_notify rstp kernel n.ifla_master n.ifi_index
                (n.nlmsg_type == 16)
                (oper_up n)
                t
              >>= (λ (r, t'). some (true, t'))
      ])
  report-OnSome n t l i =
      OnSome-sought (By n t) (handed_bpdu n) _ _
        (λ e.
          let no_buf = bare n.ifi_family n.ifla_priority e in
          OnSome-test (By n t) (not (is_given n.ifla_ifname)) _ _
            (λ d. nameless l i no_buf (given n.ifla_ifname (negated _ d)))
            (λ d.
              OnSome-bind (λ q. handle rstp kernel (event_of n) t ≡ some q.1) (By n t)
                (told_link n t) _ (notified n t)
                (λ (r, t') same.
                  link (n.nlmsg_type == 16) (oper_up n) l i no_buf
                    (not_given n.ifla_ifname (affirmed _ d)) (equal_iff n.nlmsg_type 16)
                    (oper_up-IsUp n) same)))
        (λ buf e.
          let (family, priority) = handed n.ifi_family n.ifla_priority buf e in
          OnSome-bind (λ t'. handle rstp kernel (bpdu_event n buf) t ≡ some t') (By n t)
            (bridge_bpdu_rcv rstp kernel n.ifi_index (bpdu_of buf) (length buf) t) _
            (received n buf t) (λ t' same. bpdu_handed buf l i family priority same))

  dump_msg-OnSome : (n : NlMsg) (t : T) → OnSome (By n t) (dump_msg rstp setup kernel n t)
  unfolding dump_msg
  dump_msg-OnSome n t =
      OnSome-test (By n t) (n.nlmsg_type == 3) _ _
        (λ e. passed (inl (is_equal n.nlmsg_type 3 e)) (done_is_none n e))
        (λ e.
          OnSome-test (By n t) (ltb n.nlmsg_len 32) _ _
            (λ g. short (is_other n.nlmsg_type 3 e) (is_less n.nlmsg_len 32 g))
            (λ g.
              let enough = is_enough n.nlmsg_len 32 g in
              OnSome-test (By n t) (ignored n) _ _ (λ i. passed (inr enough) (ignored_lem n i))
                (λ i. report-OnSome n t enough (ignored-IsReport n i))))

  abbrev AllBy : List NlMsg → T → Bool × T → Type 0
  AllBy messages t (ok, t') = ToldAll messages t ok t'

  -- After the first message, the others, or a refusal.
  and_then :
      (n : NlMsg) (rest : List NlMsg) (t t' : T) (ok : Bool)
      → Told n t ok t'
      → ((s : T) → OnSome (AllBy rest s) (dump_all rstp setup kernel rest s))
      → OnSome
          (AllBy (n ∷ rest) t)
          (if ok then dump_all rstp setup kernel rest t' else some (false, t'))
  and_then n rest t t' true told h =
      OnSome-map (AllBy rest t') (AllBy (n ∷ rest) t) _ (λ q later. accepted told later) (h t')
  and_then n rest t t' false told h = refused told

  dump_all-OnSome :
      (messages : List NlMsg) (t : T)
      → OnSome (AllBy messages t) (dump_all rstp setup kernel messages t)
  unfolding dump_all
  dump_all-OnSome [] t = all_told
  dump_all-OnSome (n ∷ rest) t =
      OnSome-bind (By n t) (AllBy (n ∷ rest) t) _ _ (dump_msg-OnSome n t)
        (λ (ok, t') told. and_then n rest t t' ok told (dump_all-OnSome rest))

  -- Where the calls of `dump_msg` return, each message in its order, up to the first that is refused,
  -- is treated as described. Too short a message that is not NLMSG_DONE is refused. One that is no
  -- RTM_NEWLINK or RTM_DELLINK of the family AF_BRIDGE, or of AF_UNSPEC without a master, changes
  -- nothing. A BPDU that comes with AF_BRIDGE is given to `bridge_bpdu_rcv` for the interface of the
  -- message. Any other is refused without a name of the interface, and given to `bridge_notify` with
  -- one: as a new link exactly for RTM_NEWLINK, and as up exactly if it is a new link whose operational
  -- state is up or unknown.
  pub dump_all-Told :
      (messages : List NlMsg) (t t' : T) (ok : Bool)
      → dump_all rstp setup kernel messages t ≡ some (ok, t')
      → ToldAll messages t ok t'
  dump_all-Told messages t t' ok e =
      of_OnSome (AllBy messages t) _ (ok, t') (dump_all-OnSome messages t) e
