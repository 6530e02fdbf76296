-- ===== src/Control/Client.antt =====
-- ctl_socket.h and ctl_socket_client.c: how rstpctl sends a command.
use rstp.Prelude.{
  ℕ, not, ◌||◌, Option, none, some, ◌>>=◌, if◌then◌else◌, leb, List, take, length, ℤ, pos, negsuc,
}
use rstp.Track.{Kernel, Rstp}
use rstp.Track.Out.{eq_ℤ}
use rstp.Control.{MsgHdr, Command, cmd_code, In, Out, msg_buf_len}
use rstp.Control.Server.{Server, Protocol, Datagram, overwrite, ctl_rcv_handler}

-- What comes of a message: it cannot be sent; no answer comes in time, or none can be received; the
-- answer is shorter than a header; or a header with bytes behind it.
pub data Sent : Type 0 where
  not_sent no_answer runt_answer : Sent
  answered : MsgHdr → List ℕ → Sent

-- What `send_ctl_message` leaves: its result, the buffer of the output, and `*res`.
pub record Received : Type 0 where
  pub r : ℤ
  pub outbuf : List ℕ
  pub res : ℤ

-- The end of `send_ctl_message`: of the answer it takes the header and at most `lout` bytes.
unfoldable pub receive_answer : ℤ → List ℕ → ℕ → Sent → Received
receive_answer cmd outbuf lout Sent.not_sent = record { r = negsuc 0; outbuf = outbuf; res = pos 0 }
receive_answer cmd outbuf lout Sent.no_answer = record {
  r = negsuc 0;
  outbuf = outbuf;
  res = pos 0;
}
receive_answer cmd outbuf lout Sent.runt_answer = record {
  r = negsuc 0;
  outbuf = outbuf;
  res = pos 0;
}
receive_answer cmd outbuf lout (Sent.answered mhdr body) =
    let got = take lout body in
    if not (eq_ℤ mhdr.lout (pos (length got))) || not (eq_ℤ mhdr.cmd cmd)
    then record { r = negsuc 0; outbuf = overwrite got outbuf; res = pos 0 }
    else record { r = pos 0; outbuf = overwrite got outbuf; res = mhdr.res }

module _ (p : Protocol) where
  open p use {structs, fresh, fresh_res}

  -- The header of a command.
  abbrev pub request : Command → MsgHdr
  unfolding cmd_code
  request c = record {
    cmd = pos (cmd_code c);
    lin = pos (structs.layout_in c).size;
    lout = pos (structs.layout_out c).size;
    res = fresh_res;
  }

  -- `CLIENT_SIDE_FUNCTION` behind the call of `send_ctl_message`: `args` is what the pointers of the
  -- caller lead to.
  unfoldable pub copy_out : (c : Command) → Out c → Received → ℤ × Out c
  copy_out c args got =
      if not (eq_ℤ got.r (pos 0))
      then (got.r, args)
      else if not (eq_ℤ got.res (pos 0))
      then (got.res, args)
      else (got.r, (structs.layout_out c).object got.outbuf)

  -- `CLIENT_SIDE_FUNCTION`, over a way to deliver a message.
  unfoldable pub client_side_function :
      {S : Type 0}
      → (MsgHdr → List ℕ → S → Option (Sent × S))
      → (c : Command) → In c
      → Out c
      → S
      → Option (ℤ × Out c × S)
  unfolding cmd_code receive_answer copy_out
  client_side_function deliver c x args s =
      deliver (request c) ((structs.layout_in c).bytes x) s >>= (λ (sent, s').
        let layout = structs.layout_out c in
        let got = receive_answer (pos (cmd_code c)) (layout.bytes (fresh c)) layout.size sent in
        let (r, out) = copy_out c args got in some (r, out, s'))

  -- What the client sees of the answer.
  abbrev pub as_sent : Option (MsgHdr × List ℕ) → Sent
  as_sent none = Sent.no_answer
  as_sent (some (mhdr, body)) = Sent.answered mhdr body

  -- The socket between rstpctl and the daemon: a longer message is cut to the buffer, and flagged.
  unfoldable pub through :
      (rstp : Rstp)
      → Kernel
      → MsgHdr
      → List ℕ
      → Server rstp.Instance
      → Option (Sent × Server rstp.Instance)
  unfolding ctl_rcv_handler
  through rstp kernel mhdr body s =
      ctl_rcv_handler rstp kernel p
        (Datagram.message (leb (length body) msg_buf_len) mhdr (take msg_buf_len body)) s
      >>= (λ (reply, s'). some (as_sent reply, s'))
