-- ===== src/Control/Delivery.antt =====
-- ctl_socket.c, ctl_socket_client.c: a command sent over the socket reaches its CTL function.
use rstp.Prelude.{
  >>=-some, ℕ, ◌≡◌, refl, ap, ◌∙◌, true, false, not, Option, none, some, ◌>>=◌, OnSome, OnSome-each,
  if◌then◌else◌, List, take, length, take-of_le, ℤ, pos, arith, leb,
}
use rstp.Track.{Kernel, Rstp}
use rstp.Track.Out.{eq_ℤ}
use rstp.Track.Commands.{enable_bridge_rstp, set_bridge_config, set_port_config}
use rstp.Track.Show.{get_bridge_state, get_port_state}
use rstp.Control.{Command, cmd_code, In, Out, msg_buf_len}
use rstp.Control.Server.{
  Server, Protocol, Datagram, ctl, command_of, keep_out, server_message_case, handle_message,
  answer, unexpected, ctl_rcv_handler,
}
use rstp.Control.Client.{Sent, request, as_sent, through}

pub eq_self : (n : ℕ) → eq_ℤ (pos n) (pos n) ≡ true
eq_self n = ground arith

command_of_code : (c : Command) → command_of (pos (cmd_code c)) ≡ some c
unfolding command_of
command_of_code Command.enable_bridge_rstp = refl
command_of_code Command.get_bridge_state = refl
command_of_code Command.set_bridge_config = refl
command_of_code Command.get_port_state = refl
command_of_code Command.set_port_config = refl
command_of_code Command.set_debug_level = refl

module _ (rstp : Rstp) (kernel : Kernel) (p : Protocol) where
  open p use {structs, fresh, fresh_res}

  abbrev S : Type 0
  S = Server rstp.Instance

  -- A CTL function does not touch the buffer.
  abbrev pub SameBuffer : (c : Command) → S → ℤ × Out c × S → Type 0
  SameBuffer c s (r, out, s') = s'.msg_outbuf ≡ s.msg_outbuf

  pub ctl-buffer :
      (c : Command) (x : In c) (out : Out c) (s : S)
      → OnSome (SameBuffer c s) (ctl rstp kernel c x out s)
  unfolding ctl
  ctl-buffer Command.enable_bridge_rstp (br_index, enable) out s =
      OnSome-each _ (enable_bridge_rstp rstp kernel br_index (not (eq_ℤ enable (pos 0))) s.tracker)
        _ (λ (r, t). refl)
  ctl-buffer Command.get_bridge_state br_index (cfg, state) s =
      OnSome-each _ (get_bridge_state rstp kernel br_index cfg state s.tracker) _
        (λ (r, cfg', state'). refl)
  ctl-buffer Command.set_bridge_config (br_index, cfg) out s =
      OnSome-each _ (set_bridge_config rstp kernel br_index cfg s.tracker) _ (λ (r, t). refl)
  ctl-buffer Command.get_port_state (br_index, port_index) (cfg, state) s =
      OnSome-each _ (get_port_state rstp kernel br_index port_index cfg state s.tracker) _
        (λ (r, cfg', state'). refl)
  ctl-buffer Command.set_port_config (br_index, port_index, cfg) out s =
      OnSome-each _ (set_port_config rstp kernel br_index port_index cfg s.tracker) _
        (λ (r, t). refl)
  ctl-buffer Command.set_debug_level level out s = refl

  module _ (c : Command) where
    abbrev pub size_in : ℕ
    size_in = (structs.layout_in c).size

    abbrev pub size_out : ℕ
    size_out = (structs.layout_out c).size

    -- `outbuf` is NULL for a command without output.
    abbrev pub lout_of : Option ℤ
    lout_of = if eq_ℤ (pos size_out) (pos 0) then none else some (pos size_out)

    given_size : elim lout_of [ none ↦ pos 0 | some l ↦ l ] ≡ pos size_out
    given_size = ground arith

    abbrev bytes_in : In c → List ℕ
    bytes_in x = (structs.layout_in c).bytes x

    -- The daemon reads the input that was sent.
    input_read :
        (x : In c)
        → (structs.layout_in c).fits x ≡ true
        → (structs.layout_in c).object (take size_in (bytes_in x)) ≡ x
    input_read x fits =
        ap (structs.layout_in c).object
          (take-of_le size_in (bytes_in x) (omega (arith, (structs.layout_in c).length-bytes x)))
        ∙ (structs.layout_in c).object-bytes x fits

    -- The message of a command passes the tests, and is handled by its case.
    handled :
        (x : In c) (s : S)
        → (structs.layout_in c).fits x ≡ true
        → handle_message rstp kernel p (pos (cmd_code c)) (bytes_in x) (pos size_in) lout_of s ≡ (
            ctl rstp kernel c x (fresh c) s
            >>= (λ result. some (keep_out rstp kernel p c lout_of result)))
    unfolding handle_message server_message_case
    handled x s fits =
        rw (command_of_code c, handle_message)
          (rw (given_size, eq_self size_in, eq_self size_out, input_read x fits) refl)

    -- The tests of the handler hold for the message of a command.
    expected : (x : In c) → unexpected rstp kernel p (request p c) (bytes_in x) ≡ false
    unfolding cmd_code
    expected x =
        ground (arith, (structs.layout_in c).length-bytes x, structs.out-le c, eq_self size_in)

    whole : (x : In c) → leb (length (bytes_in x)) msg_buf_len ≡ true
    whole x = ground (arith, (structs.layout_in c).length-bytes x, structs.in-le c)

    uncut : (x : In c) → take msg_buf_len (bytes_in x) ≡ bytes_in x
    uncut x =
        take-of_le msg_buf_len (bytes_in x)
          (omega (arith, (structs.layout_in c).length-bytes x, structs.in-le c))

    received :
        (x : In c) (s : S)
        → ctl_rcv_handler rstp kernel p (Datagram.message true (request p c) (bytes_in x)) s ≡ (
            handle_message rstp kernel p (pos (cmd_code c)) (bytes_in x) (pos size_in) lout_of s
            >>= (λ result. some (answer rstp kernel p (request p c) result)))
    unfolding ctl_rcv_handler handle_message
    received x s = rw (expected x, ctl_rcv_handler) refl

    abbrev pub answered : ℤ × Out c × S → Option (Sent × S)
    answered result =
        let (reply, s') =
          answer rstp kernel p (request p c) (keep_out rstp kernel p c lout_of result) in
        some (as_sent p reply, s')

    pub delivered :
        (x : In c) (s : S)
        → (structs.layout_in c).fits x ≡ true
        → through p rstp kernel (request p c) (bytes_in x) s
          ≡ (ctl rstp kernel c x (fresh c) s >>= answered)
    unfolding through ctl
    delivered x s fits =
        rw (through, whole x, uncut x, received x s, handled x s fits)
          (>>=-some
              (ctl rstp kernel c x (fresh c) s
                >>= (λ result. some (keep_out rstp kernel p c lout_of result)))
              (answer rstp kernel p (request p c)) _
            ∙ >>=-some (ctl rstp kernel c x (fresh c) s) (keep_out rstp kernel p c lout_of) _)
