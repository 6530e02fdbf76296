-- ===== src/Rstpctl/Safe.antt =====
-- ctl_main.c: rstpctl reads no argument that is not there.
use Prim.Native.String.{String}
use rstp.Prelude.{ℕ, Bool, Option, none, some, List, ℤ, negsuc}
use rstp.Control.{Command, In, Out}
use rstp.Rstpctl.{
  System, Stack, Action, set_bridge_cfg_value, set_port_cfg_value, bridge_value, port_value,
}
use rstp.Rstpctl.Related.{main-Alike}
use rstp.Rstpctl.Main.{Opt, main}

-- No fault, whatever the daemon answers.
pub data IsSafe : Action → Type 0 where
  exits : {n : ℤ} → IsSafe (Action.exit n)
  asks :
      {c : Command} {x : In c} {k : ℤ → Out c → Action}
      → ((r : ℤ) (out : Out c) → IsSafe (k r out))
      → IsSafe (Action.ask c x k)

found_IsSafe :
    {A : Type 0} (o : Option A) (n : ℤ) (f : A → Action)
    → ((a : A) → IsSafe (f a))
    → IsSafe (elim o [ none ↦ Action.exit n | some a ↦ f a ])
found_IsSafe none n f h = exits
found_IsSafe (some a) n f h = h a

module _ (system : System) (stack : Stack) where
  set_bridge-IsSafe :
      (br_index value val_mask : ℕ)
      → IsSafe (set_bridge_cfg_value system stack br_index value val_mask)
  unfolding set_bridge_cfg_value
  set_bridge-IsSafe br_index value val_mask =
      found_IsSafe (bridge_value stack.bridge_cfg value val_mask) (negsuc 0) _
        (λ uid_cfg. asks (λ r out. exits))

  set_port-IsSafe :
      (br_index port_index value val_mask : ℕ)
      → IsSafe (set_port_cfg_value system stack br_index port_index value val_mask)
  unfolding set_port_cfg_value
  set_port-IsSafe br_index port_index value val_mask =
      found_IsSafe (port_value stack.port_cfg value val_mask) (negsuc 0) _
        (λ uid_cfg. asks (λ r out. exits))

  -- Whatever the options, the arguments and the answers of the daemon, rstpctl reads no argument
  -- that it was not given: each command has as many as its entry in the table promises.
  pub main-IsSafe :
      (opts : List Opt) (connected : Bool) (argv : List String)
      → IsSafe (main system stack opts connected argv)
  main-IsSafe =
      main-Alike system stack stack (λ a b. IsSafe a) (λ n. exits)
        (λ c x k k' h. asks (λ r out. h r out out)) set_bridge-IsSafe set_port-IsSafe
