-- ===== src/Rstpctl/Whole.antt =====
-- ctl_main.c, ctl_cli_wrap.c, ctl_socket.c: a run of rstpctl over the socket is a run beside the
-- daemon.
use rstp.Prelude.{
  >>=-some, >>=-through, ℕ, ◌≡◌, refl, sym, ap, ◌∙◌, true, not, some, ◌>>=◌, if◌then◌else◌, OnSome,
  OnSome-bind, OnSome-map, OnBoth, OnBoth-bind, OnBoth-join, OnBoth-view, view-OnBoth, List, length,
  take, leb, ℤ, pos,
}
use rstp.Track.{Kernel, Rstp, Tracker}
use rstp.Track.Out.{eq_ℤ}
use rstp.Track.Commands.{enable_bridge_rstp, set_bridge_config, set_port_config}
use rstp.Track.Show.{get_bridge_state, get_port_state}
use rstp.Control.{MsgHdr, Command, In, Out, msg_buf_len}
use rstp.Control.Server.{Server, Protocol, Datagram, ctl, ctl_rcv_handler}
use rstp.Control.Client.{Sent, client_side_function, through, request}
use rstp.Control.Transparent.{seen, called, OutFits, client_side_function-ctl}
use rstp.Control.Bounds.{IsFull, IsReply, ctl_rcv_handler-IsReply}
use rstp.Rstpctl.{Action}
use rstp.Rstpctl.Run.{run, direct, socket}

moved {ℓ} : {V : Type ℓ} (P : V → Type 0) {v w : V} → v ≡ w → P w → P v
moved P e h = rw e h

module _ (rstp : Rstp) (kernel : Kernel) (p : Protocol) where
  open p use {structs, fresh}

  abbrev S : Type 0
  S = Server rstp.Instance

  abbrev with_buffer : List ℕ → S → S
  with_buffer b s = record s { msg_outbuf = b }

  -- A result with another buffer.
  abbrev rebuffered : (c : Command) → List ℕ → ℤ × Out c × S → ℤ × Out c × S
  rebuffered c b (r, out, s) = (r, out, with_buffer b s)

  -- A CTL function does not look at the buffer.
  ctl-with_buffer :
      (c : Command) (x : In c) (out : Out c) (b : List ℕ) (s : S)
      → ctl rstp kernel c x out (with_buffer b s)
        ≡ (ctl rstp kernel c x out s >>= (λ q. some (rebuffered c b q)))
  unfolding ctl
  ctl-with_buffer Command.enable_bridge_rstp (br_index, enable) out b s =
      >>=-through (enable_bridge_rstp rstp kernel br_index (not (eq_ℤ enable (pos 0))) s.tracker) _
        _ _ (λ (r, t). refl)
  ctl-with_buffer Command.get_bridge_state br_index (cfg, state) b s =
      >>=-through (get_bridge_state rstp kernel br_index cfg state s.tracker) _ _ _
        (λ (r, cfg', state'). refl)
  ctl-with_buffer Command.set_bridge_config (br_index, cfg) out b s =
      >>=-through (set_bridge_config rstp kernel br_index cfg s.tracker) _ _ _ (λ (r, t). refl)
  ctl-with_buffer Command.get_port_state (br_index, port_index) (cfg, state) b s =
      >>=-through (get_port_state rstp kernel br_index port_index cfg state s.tracker) _ _ _
        (λ (r, cfg', state'). refl)
  ctl-with_buffer Command.set_port_config (br_index, port_index, cfg) out b s =
      >>=-through (set_port_config rstp kernel br_index port_index cfg s.tracker) _ _ _
        (λ (r, t). refl)
  ctl-with_buffer Command.set_debug_level level out b s = refl

  -- A command over the socket leaves the buffer whole.
  through-IsFull :
      (mhdr : MsgHdr) (body : List ℕ) (s : S)
      → IsFull s
      → OnSome (λ (q : Sent × S). IsFull q.1) (through p rstp kernel mhdr body s)
  unfolding through
  through-IsFull mhdr body s full =
      let d = Datagram.message (leb (length body) msg_buf_len) mhdr (take msg_buf_len body) in
      OnSome-bind (IsReply rstp kernel p) (λ (q : Sent × S). IsFull q.1)
        (ctl_rcv_handler rstp kernel p d s) _ (ctl_rcv_handler-IsReply rstp kernel p d s full)
        (λ (reply, s') (whole, ok). whole)

  socket-IsFull :
      (c : Command) (x : In c) (args : Out c) (s : S)
      → IsFull s
      → OnSome (λ (q : ℤ × Out c × S). IsFull q.2) (socket rstp kernel p c x args s)
  unfolding socket client_side_function
  socket-IsFull c x args s full =
      let bytes = (structs.layout_in c).bytes x in
      OnSome-bind (λ (q : Sent × S). IsFull q.1) (λ (q : ℤ × Out c × S). IsFull q.2)
        (through p rstp kernel (request p c) bytes s) _ (through-IsFull (request p c) bytes s full)
        (λ (sent, s') whole. whole)

  -- The same call over the socket and at once, the buffers aside.
  socket-direct :
      (c : Command) (x : In c) (args : Out c) (b : List ℕ) (s : S)
      → length b ≡ msg_buf_len
      → (structs.layout_in c).fits x ≡ true
      → OnSome (OutFits rstp kernel p c) (ctl rstp kernel c x (fresh c) s)
      → (socket rstp kernel p c x args (with_buffer b s) >>= (λ q. some (seen rstp kernel p c q)))
        ≡ (direct rstp kernel p c x args s >>= (λ q. some (seen rstp kernel p c q)))
  unfolding socket direct
  socket-direct c x args b s full fits out_fits =
      let o = ctl rstp kernel c x (fresh c) s in
      let same = ctl-with_buffer c x (fresh c) b s in
      client_side_function-ctl rstp kernel p c x args (with_buffer b s) full fits (
        rw same (
          OnSome-bind (OutFits rstp kernel p c) (OutFits rstp kernel p c) o _ out_fits
            (λ (r, out, s') h. h)))
      ∙ ap (λ r. r >>= (λ q. some (called rstp kernel p c args q))) same
      ∙ >>=-some o (rebuffered c b) _
      ∙ sym (>>=-some o _ _)

  -- What holds of the result that the caller sees.
  direct-seen :
      (c : Command) (x : In c) (args : Out c) (s : S) (P : ℤ × Out c × S → Type 0)
      → OnSome
          (λ (r, out, s'). P (r, if eq_ℤ r (pos 0) then out else args, s'))
          (ctl rstp kernel c x (fresh c) s)
      → OnSome P (direct rstp kernel p c x args s)
  unfolding direct
  direct-seen c x args s P h =
      OnSome-bind (λ (r, out, s'). P (r, if eq_ℤ r (pos 0) then out else args, s')) P
        (ctl rstp kernel c x (fresh c) s) _ h (λ (r, out, s') g. g)

  -- What is left of a run, without the buffer.
  abbrev pub told : ℤ × S → ℤ × Tracker rstp.Instance × ℤ
  told (n, s) = (n, s.tracker, s.log_level)

  module _ (held : (c : Command) → Out c) where
    -- A run whose inputs and outputs all fit the C types of their structs.
    abbrev pub Fitting : Action → S → Type 0
    Fitting Action.fault s = Unit
    Fitting (Action.exit n) s = Unit
    Fitting (Action.ask c x k) s =
        ((structs.layout_in c).fits x ≡ true)
        × OnSome
            (λ (r, out, s').
              ((structs.layout_out c).fits out ≡ true)
              × Fitting (k r (if eq_ℤ r (pos 0) then out else held c)) s')
            (ctl rstp kernel c x (fresh c) s)

    -- From states that differ in the buffer.
    alike :
        (a : Action) (b : List ℕ) (s : S)
        → length b ≡ msg_buf_len
        → Fitting a s
        → OnBoth
            (λ q1 q2. told q1 ≡ told q2)
            (run (socket rstp kernel p) held a (with_buffer b s))
            (run (direct rstp kernel p) held a s)
    unfolding run
    alike Action.fault b s full fitting = tt
    alike (Action.exit n) b s full fitting = refl
    alike (Action.ask c x k) b s full (fits, later) =
        let o = ctl rstp kernel c x (fresh c) s in
        let called_alike =
          OnBoth-view (seen rstp kernel p c) (seen rstp kernel p c)
            (socket rstp kernel p c x (held c) (with_buffer b s))
            (direct rstp kernel p c x (held c) s)
            (socket-direct c x (held c) b s full fits
              (OnSome-map _ (OutFits rstp kernel p c) o (λ (r, out, s') h. h.0) later)) in
        OnBoth-bind _ (λ q1 q2. told q1 ≡ told q2)
          (socket rstp kernel p c x (held c) (with_buffer b s))
          (direct rstp kernel p c x (held c) s) _ _
          (OnBoth-join _ _ _ _ _ called_alike (socket-IsFull c x (held c) (with_buffer b s) full) (
            direct-seen c x (held c) s (λ (r, out, s'). Fitting (k r out) s')
              (OnSome-map _ _ o (λ (r, out, s') h. h.1) later)))
          (λ (r1, out1, s1) (r2, out2, s2) (e, whole, fitting).
            moved
              (λ (r, out, t, l).
                OnBoth (λ q1 q2. told q1 ≡ told q2)
                  (run (socket rstp kernel p) held (k r out)
                    (record s1 { tracker = t; log_level = l }))
                  (run (direct rstp kernel p) held (k r2 out2) s2))
              e (alike (k r2 out2) s1.msg_outbuf s2 whole fitting))

    -- A run of rstpctl over the socket leaves the daemon as the run that calls the CTL functions at
    -- once, and ends with the same status, if the buffer of the daemon has its 1024 bytes and the
    -- inputs and outputs of the run fit the C types of their structs.
    pub run-socket :
        (a : Action) (s : S)
        → length s.msg_outbuf ≡ msg_buf_len
        → Fitting a s
        → (run (socket rstp kernel p) held a s >>= (λ q. some (told q)))
          ≡ (run (direct rstp kernel p) held a s >>= (λ q. some (told q)))
    run-socket a s full fitting =
        view-OnBoth told told (run (socket rstp kernel p) held a s)
          (run (direct rstp kernel p) held a s) (alike a s.msg_outbuf s full fitting)
