-- ===== src/Rstpctl/Run.antt =====
-- ctl_main.c: a run of rstpctl, over a way to call the CTL functions.
use rstp.Prelude.{Option, none, some, ◌>>=◌, if◌then◌else◌, ℤ, pos}
use rstp.Track.{Kernel, Rstp}
use rstp.Track.Out.{eq_ℤ}
use rstp.Control.{Command, In, Out}
use rstp.Control.Server.{Server, Protocol, ctl}
use rstp.Control.Client.{client_side_function, through}
use rstp.Rstpctl.{Action}

-- A way to call the CTL functions: the arguments, what the variables of the caller hold, and the
-- state of the daemon.
abbrev pub Calls : Type 0 → Type 0
Calls S = (c : Command) → In c → Out c → S → Option (ℤ × Out c × S)

module _ {S : Type 0} (call : Calls S) (held : (c : Command) → Out c) where
  -- The exit status and the state that is left. A fault has no result.
  unfoldable pub run : Action → S → Option (ℤ × S)
  run Action.fault s = none
  run (Action.exit n) s = some (n, s)
  run (Action.ask c x k) s = call c x (held c) s >>= (λ (r, out, s'). run (k r out) s')

module _ (rstp : Rstp) (kernel : Kernel) (p : Protocol) where
  open p use {fresh}

  abbrev pub S : Type 0
  S = Server rstp.Instance

  -- The function called at once: it writes to the variables of the caller if it succeeds.
  unfoldable pub direct : Calls S
  unfolding ctl
  direct c x args s =
      ctl rstp kernel c x (fresh c) s
      >>= (λ (r, out, s'). some (r, if eq_ℤ r (pos 0) then out else args, s'))

  -- The function of ctl_cli_wrap.c, which sends a message.
  unfoldable pub socket : Calls S
  unfolding client_side_function through
  socket c x args s = client_side_function p (through p rstp kernel) c x args s
