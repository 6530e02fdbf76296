-- ===== src/Control/Server.antt =====
-- ctl_socket.h and ctl_socket.c: how the daemon answers a message of rstpctl.
use rstp.Prelude.{
  ℕ, Bool, not, ◌||◌, Option, none, some, ◌>>=◌, if◌then◌else◌, List, ◌++◌, take, drop, length, ℤ,
  pos, negsuc, pos_part, ltb_ℤ,
}
use rstp.Track.{Kernel, Rstp, Tracker}
use rstp.Track.Out.{eq_ℤ}
use rstp.Track.Commands.{enable_bridge_rstp, set_bridge_config, set_port_config}
use rstp.Track.Show.{get_bridge_state, get_port_state}
use rstp.Control.{MsgHdr, Command, cmd_code, In, Out, Structs, msg_buf_len, result_code}

-- The daemon, with `log_level` of main.c and the global buffer of the answers.
pub record Server (I : Type 0) : Type 0 where
  pub tracker : Tracker I
  pub log_level : ℤ
  pub msg_outbuf : List ℕ

-- A datagram as `recvmsg` gives it: shorter than a header, or a header with the bytes behind it and
-- whether `msg_flags` is 0.
pub data Datagram : Type 0 where
  runt : Datagram
  message : Bool → MsgHdr → List ℕ → Datagram

-- The switch of `handle_message`.
unfoldable pub command_of : ℤ → Option Command
unfolding cmd_code
command_of cmd =
    if eq_ℤ cmd (pos (cmd_code Command.enable_bridge_rstp))
    then some Command.enable_bridge_rstp
    else if eq_ℤ cmd (pos (cmd_code Command.get_bridge_state))
    then some Command.get_bridge_state
    else if eq_ℤ cmd (pos (cmd_code Command.set_bridge_config))
    then some Command.set_bridge_config
    else if eq_ℤ cmd (pos (cmd_code Command.get_port_state))
    then some Command.get_port_state
    else if eq_ℤ cmd (pos (cmd_code Command.set_port_config))
    then some Command.set_port_config
    else if eq_ℤ cmd (pos (cmd_code Command.set_debug_level))
    then some Command.set_debug_level
    else none

-- `memcpy` to the front of a buffer.
abbrev pub overwrite : List ℕ → List ℕ → List ℕ
overwrite bytes buffer = bytes ++ drop (length bytes) buffer

-- The parts of the protocol that do not depend on the daemon: the structs, and what variables hold
-- before they are written: `out0` of the server and of the client, and `mhdr.res` of the client.
pub record Protocol : Type 0 where
  pub structs : Structs
  pub fresh : (c : Command) → Out c
  pub fresh_res : ℤ

module _ (rstp : Rstp) (kernel : Kernel) where
  abbrev pub S : Type 0
  S = Server rstp.Instance

  abbrev pub with_tracker : S → Tracker rstp.Instance → S
  with_tracker s t = record s { tracker = t }

  -- The call of a CTL function: its result, what it has written to `out`, and the daemon after it.
  unfoldable pub ctl : (c : Command) → In c → Out c → S → Option (ℤ × Out c × S)
  unfolding enable_bridge_rstp get_bridge_state set_bridge_config get_port_state set_port_config
      result_code
  ctl Command.enable_bridge_rstp (br_index, enable) out s =
      enable_bridge_rstp rstp kernel br_index (not (eq_ℤ enable (pos 0))) s.tracker
      >>= (λ (r, t). some (result_code r, out, with_tracker s t))
  ctl Command.get_bridge_state br_index (cfg, state) s =
      get_bridge_state rstp kernel br_index cfg state s.tracker
      >>= (λ (r, cfg', state'). some (result_code r, (cfg', state'), s))
  ctl Command.set_bridge_config (br_index, cfg) out s =
      set_bridge_config rstp kernel br_index cfg s.tracker
      >>= (λ (r, t). some (result_code r, out, with_tracker s t))
  ctl Command.get_port_state (br_index, port_index) (cfg, state) s =
      get_port_state rstp kernel br_index port_index cfg state s.tracker
      >>= (λ (r, cfg', state'). some (result_code r, (cfg', state'), s))
  ctl Command.set_port_config (br_index, port_index, cfg) out s =
      set_port_config rstp kernel br_index port_index cfg s.tracker
      >>= (λ (r, t). some (result_code r, out, with_tracker s t))
  ctl Command.set_debug_level level out s = some (pos 0, out, record s { log_level = level })

  module _ (p : Protocol) where
    open p use {structs, fresh}

    -- What `SERVER_MESSAGE_CASE` does with the results of the call. `lout` is none where `outbuf`
    -- is NULL.
    unfoldable pub keep_out : (c : Command) → Option ℤ → ℤ × Out c × S → ℤ × S
    keep_out c lout (r, out, s) = if not (eq_ℤ r (pos 0)) then (r, s) else elim lout [
      | none ↦ (r, s)
      | some l ↦ (
        r,
        record s {
          msg_outbuf =
              overwrite (take (pos_part l) ((structs.layout_out c).bytes out)) s.msg_outbuf;
        },
      )
    ]

    -- `SERVER_MESSAGE_CASE`
    unfoldable pub server_message_case : (c : Command) → List ℕ → ℤ → Option ℤ → S → Option (ℤ × S)
    unfolding ctl keep_out
    server_message_case c inbuf lin lout s =
        let size_in = (structs.layout_in c).size in
        let given : ℤ = elim lout [ none ↦ pos 0 | some l ↦ l ] in
        if not (eq_ℤ (pos size_in) lin) || not (eq_ℤ (pos (structs.layout_out c).size) given)
        then some (negsuc 0, s)
        else ctl c ((structs.layout_in c).object (take size_in inbuf)) (fresh c) s
          >>= (λ result. some (keep_out c lout result))

    -- `handle_message`
    unfoldable pub handle_message : ℤ → List ℕ → ℤ → Option ℤ → S → Option (ℤ × S)
    unfolding command_of server_message_case
    handle_message cmd inbuf lin lout s = elim (command_of cmd) [
      | none ↦ some (negsuc 0, s)
      | some c ↦ server_message_case c inbuf lin lout s
    ]

    -- The answer of `ctl_rcv_handler` once the message has been handled.
    unfoldable pub answer : MsgHdr → ℤ × S → Option (MsgHdr × List ℕ) × S
    answer mhdr (res, s) =
        let lout = if ltb_ℤ res (pos 0) then pos 0 else mhdr.lout in
        (some (record mhdr { res = res; lout = lout }, take (pos_part lout) s.msg_outbuf), s)

    -- The tests of `ctl_rcv_handler`.
    abbrev pub unexpected : MsgHdr → List ℕ → Bool
    unexpected mhdr body =
        not (eq_ℤ mhdr.lin (pos (length body)))
        || ltb_ℤ (pos msg_buf_len) mhdr.lout
        || ltb_ℤ mhdr.cmd (pos 0)

    -- `ctl_rcv_handler`: what is sent back, if the message is not ignored.
    unfoldable pub ctl_rcv_handler : Datagram → S → Option (Option (MsgHdr × List ℕ) × S)
    unfolding handle_message answer
    ctl_rcv_handler Datagram.runt s = some (none, s)
    ctl_rcv_handler (Datagram.message no_flags mhdr body) s =
        if not no_flags || unexpected mhdr body
        then some (none, s)
        else handle_message mhdr.cmd body mhdr.lin
            (if eq_ℤ mhdr.lout (pos 0) then none else some mhdr.lout) s
          >>= (λ result. some (answer mhdr result))
