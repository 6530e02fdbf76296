-- ===== src/Rstpctl.antt =====
-- ctl_main.c: the commands of rstpctl. What it prints is left out.
use Prim.Native.String.{String}
use text.Mathlib.Text.{◌==◌ as same_text}
use rstp.Prelude.{
  ℕ, zero, suc, ◌+◌, ◌-◌, ◌*◌, ◌%◌, ◌^◌, Bool, true, false, not, ◌&&◌, ◌||◌, Option, none, some,
  if◌then◌else◌, ◌==◌, ltb, List, [], ◌∷◌, length, drop, ℤ, pos, negsuc,
}
use rstp.Track.Out.{eq_ℤ}
use rstp.Port.{AdminP2p}
use rstp.Stpm.{StpMode}
use rstp.Library.Config.{StpCfg}
use rstp.Library.PortConfig.{PortCfg}
use rstp.Control.{Command, In, Out}
pub mod Main
pub mod Related
pub mod Safe
pub mod Values
pub mod Run
pub mod Whole

-- What rstpctl asks of the system: if_nametoindex, with 0 for no interface; the value of strtoul, at
-- most ULONG_MAX, and whether it has read a whole text that is not empty; the two uses of scandir.
pub record System : Type 0 where
  pub if_nametoindex : String → ℕ
  pub strtoul : String → ℕ × Bool
  pub all_bridges : Option (List String)
  pub all_ports : String → Option (List String)

-- A run of rstpctl: it asks the daemon, and goes on with the result and the output, or ends with its
-- status. `fault` is an argument read that is not there.
pub data Action : Type 0 where
  fault : Action
  exit : ℤ → Action
  ask : (c : Command) → In c → (ℤ → Out c → Action) → Action

abbrev pub succeeded : ℤ → Bool
succeeded r = eq_ℤ r (pos 0)

-- `argv[i]`
unfoldable pub arg : List String → ℕ → (String → Action) → Action
arg [] i k = Action.fault
arg (s ∷ argv) zero k = k s
arg (s ∷ argv) (suc i) k = arg argv i k

-- The end of a command that only sets: its status by the result.
abbrev pub status_of : {A : Type 0} → ℤ → A → Action
status_of r out = Action.exit (if succeeded r then pos 0 else negsuc 0)

-- An `int` from the lower 32 bits of an `unsigned long`.
unfoldable pub to_int : ℕ → ℤ
to_int v = let r = v % 2 ^ 32 in if ltb r (2 ^ 31) then pos r else negsuc (2 ^ 32 - 1 - r)

abbrev int_max : ℕ
int_max = 2 ^ 31 - 1

-- `getuint`, by the value of strtoul: the test compares it as a signed `long`.
unfoldable pub getuint : ℕ × Bool → Option ℕ
getuint (v, whole) =
    if not whole || (ltb int_max v && ltb v (2 ^ 63)) then none else some (v % 2 ^ 32)

-- `getenum`, from the place `i` on.
unfoldable pub getenum : String → List String → ℕ → Option ℕ
getenum s [] i = none
getenum s (o ∷ opt) i = let later = getenum s opt (i + 1) in if same_text s o then some i else later

-- `getyesno`
unfoldable pub getyesno : String → String → String → Option ℕ
unfolding getenum
getyesno s yes_word no_word = elim (getenum s (yes_word ∷ no_word ∷ []) 0) [
  | none ↦ none
  | some i ↦ some (1 - i)
]

-- An argument that does not parse ends the program.
abbrev pub or_die : Option ℕ → (ℕ → Action) → Action
or_die none k = Action.exit (pos 1)
or_die (some v) k = k v

-- The configuration that `set_bridge_cfg_value` sends, over what its variable happens to hold.
unfoldable pub bridge_value : StpCfg → ℕ → ℕ → Option StpCfg
unfolding to_int
bridge_value uid_cfg value val_mask =
    let cfg = record uid_cfg { field_mask = val_mask } in
    if val_mask == 1
    then some (record cfg {
      stp_enabled = if value == 0 then StpMode.stp_disabled else StpMode.stp_enabled;
    })
    else if val_mask == 2
    then some (record cfg { bridge_priority = to_int value })
    else if val_mask == 4
    then some (record cfg { max_age = to_int value })
    else if val_mask == 8
    then some (record cfg { hello_time = to_int value })
    else if val_mask == 16
    then some (record cfg { forward_delay = to_int value })
    else if val_mask == 32
    then some (record cfg { force_version = to_int value })
    else none

-- `(ADMIN_P2P_T) value`, for a value of the table of `cmd_setportp2p`.
abbrev p2p_of : ℕ → AdminP2p
p2p_of value =
    if value == 0
    then AdminP2p.p2p_force_true
    else if value == 1
    then AdminP2p.p2p_force_false
    else AdminP2p.p2p_auto

-- The configuration that `set_port_cfg_value` sends; the Makefile of the daemon and of rstpctl does
-- not set STP_DBG. A flag of the configuration is a byte of the value.
unfoldable pub port_value : PortCfg → ℕ → ℕ → Option PortCfg
unfolding to_int
port_value uid_cfg value val_mask =
    let cfg = record uid_cfg { field_mask = val_mask } in
    if val_mask == 32
    then some cfg
    else if val_mask == 2
    then some (record cfg { admin_port_path_cost = value })
    else if val_mask == 4
    then some (record cfg { port_priority = to_int value })
    else if val_mask == 8
    then some (record cfg { admin_point2point = p2p_of value })
    else if val_mask == 16
    then some (record cfg { admin_edge = not (value % 256 == 0) })
    else if val_mask == 64
    then some (record cfg { admin_non_stp = not (value % 256 == 0) })
    else none

-- The uninitialised `uid_cfg` of the two functions.
pub record Stack : Type 0 where
  pub bridge_cfg : StpCfg
  pub port_cfg : PortCfg

module _ (system : System) (stack : Stack) where
  -- `get_index`
  unfoldable pub get_index : String → (ℕ → Action) → Action
  get_index ifname k =
      let r = system.if_nametoindex ifname in if r == 0 then Action.exit (pos 1) else k r

  -- `set_bridge_cfg_value`
  unfoldable pub set_bridge_cfg_value : ℕ → ℕ → ℕ → Action
  unfolding bridge_value
  set_bridge_cfg_value br_index value val_mask =
      elim (bridge_value stack.bridge_cfg value val_mask) [
        | none ↦ Action.exit (negsuc 0)
        | some uid_cfg ↦ Action.ask Command.set_bridge_config (br_index, uid_cfg) status_of
      ]

  -- `set_port_cfg_value`
  unfoldable pub set_port_cfg_value : ℕ → ℕ → ℕ → ℕ → Action
  unfolding port_value
  set_port_cfg_value br_index port_index value val_mask =
      elim (port_value stack.port_cfg value val_mask) [
        | none ↦ Action.exit (negsuc 0)
        | some uid_cfg ↦
            Action.ask Command.set_port_config (br_index, port_index, uid_cfg) status_of
      ]

  -- The bridge of `argv[1]`; the bridge and the port of `argv[1]` and `argv[2]`.
  abbrev pub on_bridge : List String → (ℕ → Action) → Action
  unfolding arg get_index
  on_bridge argv k = arg argv 1 (λ name. get_index name k)

  abbrev pub on_port : List String → (ℕ → ℕ → Action) → Action
  unfolding arg get_index
  on_port argv k =
      on_bridge argv
        (λ br_index. arg argv 2 (λ name. get_index name (λ port_index. k br_index port_index)))

  abbrev pub is_one_of : String → String → String → String → Bool
  is_one_of s a b c = same_text s a || same_text s b || same_text s c

  -- `cmd_rstp`
  unfoldable pub cmd_rstp : List String → Action
  unfolding arg get_index
  cmd_rstp argv = on_bridge argv (λ br_index. arg argv 2 (λ word.
      if is_one_of word "on" "yes" "1"
      then Action.ask Command.enable_bridge_rstp (br_index, pos 1) status_of
      else if is_one_of word "off" "no" "0"
      then Action.ask Command.enable_bridge_rstp (br_index, pos 0) status_of
      else Action.exit (pos 1)))

  -- The commands that set one value of a bridge, from a number or from one of two words.
  unfoldable pub cmd_setbridge_uint : ℕ → List String → Action
  unfolding arg get_index getuint set_bridge_cfg_value
  cmd_setbridge_uint val_mask argv = on_bridge argv (λ br_index. arg argv 2 (λ word.
      or_die (getuint (system.strtoul word))
        (λ value. set_bridge_cfg_value br_index value val_mask)))

  unfoldable pub cmd_setbridgestate : List String → Action
  unfolding arg get_index getyesno set_bridge_cfg_value
  cmd_setbridgestate argv = on_bridge argv (λ br_index.
      arg argv 2 (λ word.
        or_die (getyesno word "on" "off") (λ value. set_bridge_cfg_value br_index value 1)))

  unfoldable pub cmd_setbridgeforcevers : List String → Action
  unfolding arg get_index getyesno set_bridge_cfg_value
  cmd_setbridgeforcevers argv = on_bridge argv (λ br_index. arg argv 2 (λ word.
      or_die (getyesno word "normal" "slow")
        (λ value. set_bridge_cfg_value br_index (2 * value) 32)))

  -- The same for a port.
  unfoldable pub cmd_setport_uint : ℕ → List String → Action
  unfolding arg get_index getuint set_port_cfg_value
  cmd_setport_uint val_mask argv = on_port argv (λ br_index port_index. arg argv 3 (λ word.
      or_die (getuint (system.strtoul word))
        (λ value. set_port_cfg_value br_index port_index value val_mask)))

  unfoldable pub cmd_setport_yesno : ℕ → List String → Action
  unfolding arg get_index getyesno set_port_cfg_value
  cmd_setport_yesno val_mask argv = on_port argv (λ br_index port_index. arg argv 3 (λ word.
      or_die (getyesno word "yes" "no")
        (λ value. set_port_cfg_value br_index port_index value val_mask)))

  unfoldable pub cmd_setportp2p : List String → Action
  unfolding arg get_index getenum set_port_cfg_value
  cmd_setportp2p argv = on_port argv (λ br_index port_index. arg argv 3 (λ word.
      or_die (getenum word ("yes" ∷ "no" ∷ "auto" ∷ []) 0)
        (λ value. set_port_cfg_value br_index port_index value 8)))

  unfoldable pub cmd_portmcheck : List String → Action
  unfolding arg get_index set_port_cfg_value
  cmd_portmcheck argv =
      on_port argv (λ br_index port_index. set_port_cfg_value br_index port_index 0 32)

  unfoldable pub cmd_debuglevel : List String → Action
  unfolding arg getuint to_int
  cmd_debuglevel argv = arg argv 1 (λ word.
      or_die (getuint (system.strtoul word))
        (λ level. Action.ask Command.set_debug_level (to_int level) (λ r out. Action.exit r)))

  -- The loop of `cmd_showbridge` with `do_showbridge`: the last failure is kept, and is -1.
  unfoldable pub show_bridges : List String → ℤ → Action
  show_bridges [] r = Action.exit r
  show_bridges (name ∷ rest) r =
      let failed = show_bridges rest (negsuc 0) in
      let shown = show_bridges rest r in
      let br_index = system.if_nametoindex name in
      if br_index == 0
      then failed
      else Action.ask Command.get_bridge_state br_index
          (λ res out. if succeeded res then shown else failed)

  unfoldable pub cmd_showbridge : List String → Action
  unfolding show_bridges
  cmd_showbridge argv =
      if ltb 1 (length argv) then show_bridges (drop 1 argv) (pos 0) else elim system.all_bridges [
        | none ↦ Action.exit (negsuc 0)
        | some names ↦ show_bridges names (pos 0)
      ]

  -- The loop of `cmd_showport` with `do_showport`.
  unfoldable pub show_ports : ℕ → List String → ℤ → Action
  show_ports br_index [] r = Action.exit r
  show_ports br_index (name ∷ rest) r =
      let failed = show_ports br_index rest (negsuc 0) in
      let shown = show_ports br_index rest r in
      let port_index = system.if_nametoindex name in
      if port_index == 0
      then failed
      else Action.ask Command.get_port_state (br_index, port_index)
          (λ res out. if succeeded res then shown else failed)

  unfoldable pub cmd_showport : List String → Action
  unfolding arg get_index show_ports
  cmd_showport argv = arg argv 1 (λ br_name. get_index br_name (λ br_index.
      Action.ask Command.get_bridge_state br_index (λ res out.
        if not (succeeded res)
        then Action.exit (negsuc 0)
        else if ltb 2 (length argv)
        then show_ports br_index (drop 2 argv) (pos 0)
        else elim (system.all_ports br_name) [
          | none ↦ Action.exit (negsuc 0)
          | some names ↦ show_ports br_index names (pos 0)
        ])))
