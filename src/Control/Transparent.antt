-- ===== src/Control/Transparent.antt =====
-- ctl_socket.c, ctl_socket_client.c: a command sent over the socket is the command called.
use rstp.Prelude.{
  >>=-assoc, >>=-ext, ℕ, ◌≤◌, ◌≡◌, refl, sym, ap, ◌∙◌, Bool, true, false, Bool-cases, inl, inr,
  Option, some, ◌>>=◌, OnSome, OnSome-both, if◌then◌else◌, List, [], take, drop, length,
  take-append, drop-length, take-of_le, length-take, nil_of_length, ℤ, pos, pos_part, arith, ltb_ℤ,
}
use mathlib.Core.List.{append-nil}
use rstp.Track.{Kernel, Rstp, Tracker}
use rstp.Track.Out.{eq_ℤ}
use rstp.Control.{Command, cmd_code, In, Out, msg_buf_len}
use rstp.Control.Server.{Server, Protocol, overwrite, ctl, keep_out, answer}
use rstp.Control.Client.{
  Sent, Received, receive_answer, request, copy_out, client_side_function, as_sent, through,
}
use rstp.Control.Delivery
use rstp.Control.Delivery.{eq_self, SameBuffer, ctl-buffer, delivered}

module _ (rstp : Rstp) (kernel : Kernel) (p : Protocol) where
  open p use {structs, fresh, fresh_res}

  abbrev S : Type 0
  S = Server rstp.Instance

  module _ (c : Command) where
    abbrev size_in : ℕ
    size_in = Delivery.size_in rstp kernel p c

    abbrev size_out : ℕ
    size_out = Delivery.size_out rstp kernel p c

    abbrev lout_of : Option ℤ
    lout_of = Delivery.lout_of rstp kernel p c

    abbrev answered : ℤ × Out c × S → Option (Sent × S)
    answered = Delivery.answered rstp kernel p c

    -- What the client makes of an answer with its whole output, and of one without any.
    whole_answer :
        (lin res : ℤ) (body : List ℕ)
        → length body ≡ size_out
        → receive_answer (pos (cmd_code c)) ((structs.layout_out c).bytes (fresh c)) size_out (
            Sent.answered
              (record { cmd = pos (cmd_code c); lin = lin; lout = pos size_out; res = res })
              body)
          ≡ record { r = pos 0; outbuf = body; res = res }
    unfolding receive_answer
    whole_answer lin res body e =
        let old = (structs.layout_out c).bytes (fresh c) in
        let same : take size_out body ≡ body = take-of_le size_out body (omega arith) in
        let gone : drop (length body) old ≡ [] =
          ap (λ n. drop n old) (e ∙ sym ((structs.layout_out c).length-bytes (fresh c)))
          ∙ drop-length old in
        rw (same, e, eq_self size_out, eq_self (cmd_code c), sym e, gone, append-nil body) refl

    empty_answer :
        (lin res : ℤ)
        → receive_answer (pos (cmd_code c)) ((structs.layout_out c).bytes (fresh c)) size_out (
            Sent.answered
              (record { cmd = pos (cmd_code c); lin = lin; lout = pos 0; res = res })
              [])
          ≡ record { r = pos 0; outbuf = (structs.layout_out c).bytes (fresh c); res = res }
    unfolding receive_answer
    empty_answer lin res =
        rw (take-of_le {A = ℕ} size_out [] (omega arith), eq_self (cmd_code c)) refl

    abbrev bytes_out : Out c → List ℕ
    bytes_out out = (structs.layout_out c).bytes out

    abbrev kept : ℤ × Out c × S → S
    unfolding keep_out
    kept result = (keep_out rstp kernel p c lout_of result).1

    -- A call that succeeds leaves its output at the front of the buffer.
    kept_out :
        (out : Out c) (s : S) → take size_out (kept (pos 0, out, s)).msg_outbuf ≡ bytes_out out
    unfolding keep_out
    kept_out out s =
        let n = (structs.layout_out c).length-bytes out in
        elim (Bool-cases (eq_ℤ (pos size_out) (pos 0))) [
          | inl z ↦
              let e : size_out ≡ 0 = ground arith in
              rw (z, kept)
                (ap (λ k. take k s.msg_outbuf) e ∙ sym (nil_of_length (bytes_out out) (n ∙ e)))
          | inr some_out ↦
              rw (some_out, kept)
                (rw (take-of_le size_out (bytes_out out) (omega arith)) (
                  ap (λ k. take k (overwrite (bytes_out out) s.msg_outbuf)) (sym n)
                  ∙ take-append (bytes_out out) _))
        ]

    -- The end of `client_side_function`.
    abbrev told : Out c → S → Received → Option (ℤ × Out c × S)
    unfolding copy_out
    told args s got = let (r, out) = copy_out p c args got in some (r, out, s)

    abbrev taken : ℤ → ℤ → List ℕ → Received
    unfolding receive_answer cmd_code
    taken lout res body = receive_answer (pos (cmd_code c)) (bytes_out (fresh c)) size_out (
        Sent.answered (record { cmd = pos (cmd_code c); lin = pos size_in; lout = lout; res = res })
          body)

    abbrev finish : Out c → Sent × S → Option (ℤ × Out c × S)
    unfolding receive_answer copy_out cmd_code
    finish args (sent, s) =
        told args s (receive_answer (pos (cmd_code c)) (bytes_out (fresh c)) size_out sent)

    abbrev answer_to : ℤ × S → Option (Sent × S)
    unfolding answer cmd_code
    answer_to result =
        let (reply, s') = answer rstp kernel p (request p c) result in some (as_sent p reply, s')

    -- The three kinds of result: success, an error code, and -1.
    seen_done :
        (args out : Out c) (s : S)
        → (structs.layout_out c).fits out ≡ true
        → take size_out s.msg_outbuf ≡ bytes_out out
        → (answer_to (pos 0, s) >>= finish args) ≡ some (pos 0, out, s)
    unfolding answer copy_out answer_to finish
    seen_done args out s fits e =
        ap (λ (body : List ℕ). told args s (taken (pos size_out) (pos 0) body)) e
        ∙ ap (told args s) (
            whole_answer (pos size_in) (pos 0) (bytes_out out)
              ((structs.layout_out c).length-bytes out))
        ∙ ap (λ (o : Out c). some (pos 0, o, s)) ((structs.layout_out c).object-bytes out fits)

    told_error :
        (args : Out c) (outbuf : List ℕ) (r : ℤ) (s : S)
        → eq_ℤ r (pos 0) ≡ false
        → told args s (record { r = pos 0; outbuf = outbuf; res = r }) ≡ some (r, args, s)
    unfolding copy_out
    told_error args outbuf r s e = rw (e, told) refl

    -- The answer, by the sign of the result.
    abbrev signed : Out c → ℤ → S → Bool → Option (ℤ × Out c × S)
    unfolding receive_answer copy_out cmd_code
    signed args r s b =
        let lout : ℤ = if b then pos 0 else pos size_out in
        told args s (taken lout r (take (pos_part lout) s.msg_outbuf))

    seen_error :
        (args : Out c) (r : ℤ) (s : S)
        → size_out ≤ length s.msg_outbuf
        → eq_ℤ r (pos 0) ≡ false
        → (answer_to (r, s) >>= finish args) ≡ some (r, args, s)
    unfolding answer copy_out answer_to finish
    seen_error args r s h e = elim (Bool-cases (ltb_ℤ r (pos 0))) [
      | inl negative ↦
          ap (signed args r s) negative
          ∙ ap (told args s) (empty_answer (pos size_in) r)
          ∙ told_error args (bytes_out (fresh c)) r s e
      | inr positive ↦
          ap (signed args r s) positive
          ∙ ap (told args s) (
              whole_answer (pos size_in) r (take size_out s.msg_outbuf)
                (length-take size_out s.msg_outbuf h))
          ∙ told_error args (take size_out s.msg_outbuf) r s e
    ]

    keep_out-done :
        (out : Out c) (s : S)
        → keep_out rstp kernel p c lout_of (pos 0, out, s) ≡ (pos 0, kept (pos 0, out, s))
    unfolding keep_out
    keep_out-done out s = elim (Bool-cases (eq_ℤ (pos size_out) (pos 0))) [
      | inl z ↦ rw (z, keep_out, kept) refl
      | inr nz ↦ rw (nz, keep_out, kept) refl
    ]

    keep_out-error :
        (r : ℤ) (out : Out c) (s : S)
        → eq_ℤ r (pos 0) ≡ false
        → keep_out rstp kernel p c lout_of (r, out, s) ≡ (r, s)
    unfolding keep_out
    keep_out-error r out s e = rw (e, keep_out) refl

    kept-fields :
        (out : Out c) (s : S)
        → ((kept (pos 0, out, s)).tracker ≡ s.tracker)
          × ((kept (pos 0, out, s)).log_level ≡ s.log_level)
    unfolding keep_out kept
    kept-fields out s = elim (Bool-cases (eq_ℤ (pos size_out) (pos 0))) [
      | inl z ↦ rw (z, kept) (refl, refl)
      | inr nz ↦ rw (nz, kept) (refl, refl)
    ]

    -- What the caller has afterwards, and the daemon without its buffer.
    abbrev pub seen : ℤ × Out c × S → ℤ × Out c × Tracker rstp.Instance × ℤ
    seen (r, out, s) = (r, out, s.tracker, s.log_level)

    abbrev pub called : Out c → ℤ × Out c × S → ℤ × Out c × Tracker rstp.Instance × ℤ
    called args (r, out, s) = (r, if eq_ℤ r (pos 0) then out else args, s.tracker, s.log_level)

    view : ℤ × Out c × S → Option (ℤ × Out c × Tracker rstp.Instance × ℤ)
    view result = some (seen result)

    abbrev after : Out c → ℤ × S → Option (ℤ × Out c × Tracker rstp.Instance × ℤ)
    unfolding answer_to finish view
    after args q = (answer_to q >>= finish args) >>= view

    abbrev viewed : Option (ℤ × Out c × S) → Option (ℤ × Out c × Tracker rstp.Instance × ℤ)
    unfolding view
    viewed o = o >>= view

    answered_done :
        (args out : Out c) (s : S)
        → (structs.layout_out c).fits out ≡ true
        → ((answered (pos 0, out, s) >>= finish args) >>= view) ≡ some (called args (pos 0, out, s))
    unfolding after answer_to viewed view
    answered_done args out s fits =
        let s1 = kept (pos 0, out, s) in
        let (t, l) = kept-fields out s in
        ap (after args) (keep_out-done out s)
        ∙ ap viewed (seen_done args out s1 fits (kept_out out s))
        ∙ ap (λ (f : Tracker rstp.Instance × ℤ). some (pos 0, out, f.0, f.1)) (λ i. (t i, l i))

    answered_error :
        (args : Out c) (r : ℤ) (out : Out c) (s : S)
        → size_out ≤ length s.msg_outbuf
        → eq_ℤ r (pos 0) ≡ false
        → ((answered (r, out, s) >>= finish args) >>= view) ≡ some (called args (r, out, s))
    unfolding after answer_to viewed view
    answered_error args r out s h e =
        ap (after args) (keep_out-error r out s e) ∙ ap viewed (seen_error args r s h e) ∙ rw e

    zero_of : (r : ℤ) → eq_ℤ r (pos 0) ≡ true → r ≡ pos 0
    zero_of r e = ground arith

    answered-called :
        (args : Out c) (r : ℤ) (out : Out c) (s : S)
        → size_out ≤ length s.msg_outbuf
        → (structs.layout_out c).fits out ≡ true
        → ((answered (r, out, s) >>= finish args) >>= view) ≡ some (called args (r, out, s))
    answered-called args r out s h fits = elim (Bool-cases (eq_ℤ r (pos 0))) [
      | inl e ↦ rw (zero_of r e) (answered_done args out s fits)
      | inr e ↦ answered_error args r out s h e
    ]

    -- A result whose output fits its struct.
    abbrev pub OutFits : ℤ × Out c × S → Type 0
    OutFits (r, out, s) = (structs.layout_out c).fits out ≡ true

    -- A command of rstpctl over the socket, with any arguments, does to the daemon what a call of its
    -- CTL function does, and the caller gets its result, and on success its output, if the input and
    -- the output fit the C types of their structs and the daemon's buffer has its 1024 bytes.
    pub client_side_function-ctl :
        (x : In c) (args : Out c) (s : S)
        → length s.msg_outbuf ≡ msg_buf_len
        → (structs.layout_in c).fits x ≡ true
        → OnSome OutFits (ctl rstp kernel c x (fresh c) s)
        → (client_side_function p (through p rstp kernel) c x args s
            >>= (λ result. some (seen result)))
          ≡ (ctl rstp kernel c x (fresh c) s >>= (λ result. some (called args result)))
    unfolding client_side_function finish view
    client_side_function-ctl x args s full fits out_fits =
        rw (client_side_function, delivered rstp kernel p c x s fits)
          (ap viewed (>>=-assoc (ctl rstp kernel c x (fresh c) s) answered (finish args))
            ∙ >>=-assoc (ctl rstp kernel c x (fresh c) s) _ view
            ∙ >>=-ext (λ q. SameBuffer rstp kernel p c s q × OutFits q)
                (ctl rstp kernel c x (fresh c) s) _ _
                (OnSome-both (SameBuffer rstp kernel p c s) OutFits _
                  (ctl-buffer rstp kernel p c x (fresh c) s) out_fits)
                (λ (r, out, s') (same, fits').
                  answered-called args r out s' (omega (arith, structs.out-le c, ap length same))
                    fits'))
