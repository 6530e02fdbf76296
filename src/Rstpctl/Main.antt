-- ===== src/Rstpctl/Main.antt =====
-- ctl_main.c: the table of the commands, and `main`.
use Prim.Native.String.{String}
use text.Mathlib.Text.{◌==◌ as same_text}
use rstp.Prelude.{
  ℕ, ◌+◌, Bool, ◌||◌, not, Option, none, some, if◌then◌else◌, ltb, List, [], ◌∷◌, length, pos,
}
use rstp.Rstpctl.{
  System, Stack, Action, cmd_rstp, cmd_setbridge_uint, cmd_setbridgestate, cmd_setbridgeforcevers,
  cmd_setport_uint, cmd_setport_yesno, cmd_setportp2p, cmd_portmcheck, cmd_debuglevel,
  cmd_showbridge, cmd_showport,
}

-- `struct command`, without the help.
pub record CommandEntry : Type 0 where
  pub nargs : ℕ
  pub optargs : ℕ
  pub name : String
  pub func : List String → Action

abbrev entry : ℕ → ℕ → String → (List String → Action) → CommandEntry
entry nargs optargs name func = record {
  nargs = nargs;
  optargs = optargs;
  name = name;
  func = func;
}

-- An option that getopt_long has found.
pub data Opt : Type 0 where
  help version unknown : Opt

module _ (system : System) (stack : Stack) where
  -- `commands`
  unfoldable pub commands : List CommandEntry
  unfolding cmd_rstp cmd_setbridge_uint cmd_setbridgestate cmd_setbridgeforcevers cmd_setport_uint
      cmd_setport_yesno cmd_setportp2p cmd_portmcheck cmd_debuglevel cmd_showbridge cmd_showport
  commands =
      entry 0 32 "showbridge" (cmd_showbridge system stack)
      ∷ entry 1 32 "showport" (cmd_showport system stack)
      ∷ entry 1 32 "showportdetail" (cmd_showport system stack)
      ∷ entry 2 0 "rstp" (cmd_rstp system stack)
      ∷ entry 2 0 "setbridgestate" (cmd_setbridgestate system stack)
      ∷ entry 2 0 "setbridgeprio" (cmd_setbridge_uint system stack 2)
      ∷ entry 2 0 "sethello" (cmd_setbridge_uint system stack 8)
      ∷ entry 2 0 "setmaxage" (cmd_setbridge_uint system stack 4)
      ∷ entry 2 0 "setfdelay" (cmd_setbridge_uint system stack 16)
      ∷ entry 2 0 "setforcevers" (cmd_setbridgeforcevers system stack)
      ∷ entry 3 0 "setportprio" (cmd_setport_uint system stack 4)
      ∷ entry 3 0 "setportpathcost" (cmd_setport_uint system stack 2)
      ∷ entry 3 0 "setportedge" (cmd_setport_yesno system stack 16)
      ∷ entry 3 0 "setportnonstp" (cmd_setport_yesno system stack 64)
      ∷ entry 3 0 "setportp2p" (cmd_setportp2p system stack)
      ∷ entry 2 0 "portmcheck" (cmd_portmcheck system stack)
      ∷ entry 1 0 "debuglevel" (cmd_debuglevel system stack)
      ∷ []

  -- `command_lookup`, in a table.
  unfoldable pub command_lookup : String → List CommandEntry → Option CommandEntry
  command_lookup cmd [] = none
  command_lookup cmd (c ∷ rest) =
      let later = command_lookup cmd rest in if same_text cmd c.name then some c else later

  -- The end of `main`: the number of the arguments is tested, and the command is run.
  unfoldable pub run_command : CommandEntry → List String → Action
  run_command c argv =
      let argc = length argv in
      if ltb argc (c.nargs + 1) || ltb (c.nargs + c.optargs + 1) argc
      then Action.exit (pos 1)
      else c.func argv

  -- `main` behind the options, with the arguments that are left and whether the connection stands.
  unfoldable pub main_command : Bool → List String → Action
  unfolding commands command_lookup run_command
  main_command connected [] = Action.exit (pos 1)
  main_command connected (cmd ∷ args) =
      if not connected then Action.exit (pos 1) else elim (command_lookup cmd commands) [
        | none ↦ Action.exit (pos 1)
        | some c ↦ run_command c (cmd ∷ args)
      ]

  -- `main`: the first option ends it.
  unfoldable pub main : List Opt → Bool → List String → Action
  unfolding main_command
  main (Opt.help ∷ rest) connected argv = Action.exit (pos 0)
  main (Opt.version ∷ rest) connected argv = Action.exit (pos 0)
  main (Opt.unknown ∷ rest) connected argv = Action.exit (pos 1)
  main [] connected argv = main_command connected argv
