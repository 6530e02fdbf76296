-- ===== src/Control/Bounds.antt =====
-- ctl_socket.c: the buffer of the answers, whatever message arrives.
use rstp.Prelude.{
  ℕ, ◌≤◌, ◌≡◌, ap, ◌∙◌, sym, Bool, true, false, not, ◌||◌, Bool-cases, inl, inr, ◌⊎◌, Option, none,
  some, ◌>>=◌, OnSome, OnSome-bind, OnSome-if, OnSome-test, if◌then◌else◌, List, take, drop, length,
  length-take, length-take_le, length-append, length-drop, ℤ, pos, negsuc, pos_part, ltb_ℤ, arith,
}
use rstp.Track.{Kernel, Rstp}
use rstp.Track.Out.{eq_ℤ}
use rstp.Control.{MsgHdr, Command, Out, msg_buf_len}
use rstp.Control.Server.{
  Server, Protocol, Datagram, overwrite, ctl, command_of, keep_out, server_message_case,
  handle_message, answer, unexpected, ctl_rcv_handler,
}
use rstp.Control.Delivery.{ctl-buffer, SameBuffer}

length-overwrite :
    (xs buffer : List ℕ) → length xs ≤ length buffer → length (overwrite xs buffer) ≡ length buffer
length-overwrite xs buffer h =
    length-append xs (drop (length xs) buffer) ∙ length-drop (length xs) buffer h

eq_of_eq_ℤ : (a b : ℤ) → eq_ℤ a b ≡ true → a ≡ b
eq_of_eq_ℤ a b e = ground arith

-- The buffer of the answers has its bytes.
abbrev pub IsFull : {I : Type 0} → Server I → Type 0
IsFull s = length s.msg_outbuf ≡ msg_buf_len

sizes_agree : (a b : Bool) → (not a || not b) ≡ false → b ≡ true
sizes_agree a b e = ground arith

module _ (rstp : Rstp) (kernel : Kernel) (p : Protocol) where
  open p use {structs, fresh}

  abbrev S : Type 0
  S = Server rstp.Instance

  abbrev given : Option ℤ → ℤ
  given lout = elim lout [ none ↦ pos 0 | some l ↦ l ]

  -- What the handling of a message leaves: a full buffer, and an error or an output that fits it.
  abbrev IsHandled : Option ℤ → ℤ × S → Type 0
  IsHandled lout (r, s) =
      IsFull s × ((ltb_ℤ r (pos 0) ≡ true) ⊎ ((n : ℕ) × (given lout ≡ pos n) × (n ≤ msg_buf_len)))

  keep_out-IsFull :
      (c : Command) (lout : Option ℤ) (r : ℤ) (out : Out c) (s : S)
      → IsFull s
      → IsFull (keep_out rstp kernel p c lout (r, out, s)).1
  unfolding keep_out
  keep_out-IsFull c none r out s full = ground arith
  keep_out-IsFull c (some l) r out s full =
      let layout = structs.layout_out c in
      let written = take (pos_part l) (layout.bytes out) in
      let fits : length written ≤ length s.msg_outbuf = omega (
        arith,
        length-take_le (pos_part l) (layout.bytes out),
        layout.length-bytes out,
        structs.out-le c,
      ) in
      ground (arith, length-overwrite written s.msg_outbuf fits)

  keep_out-code :
      (c : Command) (lout : Option ℤ) (result : ℤ × Out c × S)
      → (keep_out rstp kernel p c lout result).0 ≡ result.0
  unfolding keep_out
  keep_out-code c lout (r, out, s) = ground arith

  server_message_case-IsHandled :
      (c : Command) (inbuf : List ℕ) (lin : ℤ) (lout : Option ℤ) (s : S)
      → IsFull s
      → OnSome (IsHandled lout) (server_message_case rstp kernel p c inbuf lin lout s)
  unfolding server_message_case
  server_message_case-IsHandled c inbuf lin lout s full =
      let a = eq_ℤ (pos (structs.layout_in c).size) lin in
      let b = eq_ℤ (pos (structs.layout_out c).size) (given lout) in
      let x = (structs.layout_in c).object (take (structs.layout_in c).size inbuf) in
      let called = ctl rstp kernel c x (fresh c) s in
      OnSome-test (IsHandled lout) (not a || not b) (some (negsuc 0, s))
        (called >>= (λ result. some (keep_out rstp kernel p c lout result)))
        (λ bad. (full, inl (ground arith)))
        (λ good.
          let size =
            eq_of_eq_ℤ (pos (structs.layout_out c).size) (given lout) (sizes_agree a b good) in
          OnSome-bind (SameBuffer rstp kernel p c s) (IsHandled lout) called _
            (ctl-buffer rstp kernel p c x (fresh c) s)
            (λ (r, out, s') same. (
              keep_out-IsFull c lout r out s' (ap length same ∙ full),
              inr ((structs.layout_out c).size, sym size, structs.out-le c),
            )))

  handle_message-IsHandled :
      (cmd : ℤ) (inbuf : List ℕ) (lin : ℤ) (lout : Option ℤ) (s : S)
      → IsFull s
      → OnSome (IsHandled lout) (handle_message rstp kernel p cmd inbuf lin lout s)
  unfolding handle_message
  handle_message-IsHandled cmd inbuf lin lout s full =
      of_command (command_of cmd) inbuf lin lout s full
    where
      of_command :
          (o : Option Command) (inbuf : List ℕ) (lin : ℤ) (lout : Option ℤ) (s : S)
          → IsFull s
          → OnSome (IsHandled lout) (elim o [
            | none ↦ some (negsuc 0, s)
            | some c ↦ server_message_case rstp kernel p c inbuf lin lout s
          ])
      of_command none inbuf lin lout s full = (full, inl (ground arith))
      of_command (some c) inbuf lin lout s full =
          server_message_case-IsHandled c inbuf lin lout s full

  -- An answer whose header gives the number of the bytes behind it, which come from the buffer.
  abbrev pub IsAnswer : Option (MsgHdr × List ℕ) → Type 0
  IsAnswer none = Unit {0}
  IsAnswer (some (mhdr, body)) = (mhdr.lout ≡ pos (length body)) × (length body ≤ msg_buf_len)

  abbrev pub IsReply : Option (MsgHdr × List ℕ) × S → Type 0
  IsReply (reply, s) = IsFull s × IsAnswer reply

  given_lout : (l : ℤ) → given (if eq_ℤ l (pos 0) then none else some l) ≡ l
  given_lout l = ground (arith, eq_of_eq_ℤ l (pos 0))

  abbrev sent_lout : MsgHdr → ℤ → ℤ
  sent_lout mhdr r = if ltb_ℤ r (pos 0) then pos 0 else mhdr.lout

  -- What is sent back has a length that fits the buffer, so that many bytes are taken from it.
  sent_length :
      (mhdr : MsgHdr) (r : ℤ)
      → (ltb_ℤ r (pos 0) ≡ true)
        ⊎ ((n : ℕ) × (given (if eq_ℤ mhdr.lout (pos 0) then none else some mhdr.lout) ≡ pos n)
            × (n ≤ msg_buf_len))
      → (n : ℕ) × (sent_lout mhdr r ≡ pos n) × (n ≤ msg_buf_len)
  sent_length mhdr r (inl failed) = (0, rw failed, omega arith)
  sent_length mhdr r (inr (n, e, le)) = elim (Bool-cases (ltb_ℤ r (pos 0))) [
    | inl failed ↦ (0, rw failed, omega arith)
    | inr done ↦ (n, rw done (sym (given_lout mhdr.lout) ∙ e), le)
  ]

  sent :
      (s : S) (l : ℤ) (n : ℕ)
      → IsFull s
      → l ≡ pos n
      → n ≤ msg_buf_len
      → (l ≡ pos (length (take (pos_part l) s.msg_outbuf)))
        × (length (take (pos_part l) s.msg_outbuf) ≤ msg_buf_len)
  sent s l n full e le =
      let k = length-take n s.msg_outbuf (omega arith) in rw e (ap pos (sym k), omega (arith, k))

  answer-IsReply :
      (mhdr : MsgHdr) (r : ℤ) (s : S)
      → IsHandled (if eq_ℤ mhdr.lout (pos 0) then none else some mhdr.lout) (r, s)
      → IsReply (answer rstp kernel p mhdr (r, s))
  unfolding answer
  answer-IsReply mhdr r s (full, h) =
      let (n, e, le) = sent_length mhdr r h in (full, sent s (sent_lout mhdr r) n full e le)

  -- Whatever datagram arrives, the daemon stays within its buffer for answers, which keeps its 1024
  -- bytes, and an answer has as many bytes behind its header as the header says, at most 1024.
  pub ctl_rcv_handler-IsReply :
      (d : Datagram) (s : S) → IsFull s → OnSome IsReply (ctl_rcv_handler rstp kernel p d s)
  unfolding ctl_rcv_handler
  ctl_rcv_handler-IsReply Datagram.runt s full = (full, tt)
  ctl_rcv_handler-IsReply (Datagram.message no_flags mhdr body) s full =
      let lout : Option ℤ = if eq_ℤ mhdr.lout (pos 0) then none else some mhdr.lout in
      OnSome-if IsReply (not no_flags || unexpected rstp kernel p mhdr body) (some (none, s)) _
        (full, tt)
        (OnSome-bind (IsHandled lout) IsReply
          (handle_message rstp kernel p mhdr.cmd body mhdr.lin lout s) _
          (handle_message-IsHandled mhdr.cmd body mhdr.lin lout s full)
          (λ (r, s') h. answer-IsReply mhdr r s' h))
