-- ===== src/Rstpctl/Related.antt =====
-- ctl_main.c: two runs of rstpctl that differ in what its variables hold before they are written, by
-- a relation that goes through the commands.
use Prim.Native.String.{String}
use text.Mathlib.Text.{◌==◌ as same_text}
use rstp.Prelude.{
  ap, refl, sym, ◌≡◌, OnBoth, ℕ, zero, suc, ◌+◌, ◌*◌, ◌≤◌, ◌<◌, Bool, true, false, ◌||◌, Bool-cases,
  inl, inr, not, Option, none, some, if◌then◌else◌, ltb, ◌==◌, List, [], ◌∷◌, length, drop, ℤ, pos,
  negsuc, arith,
}
use rstp.Control.{Command, In, Out}
use rstp.Rstpctl.{
  System, Stack, Action, arg, get_index, or_die, succeeded, status_of, is_one_of, on_bridge,
  on_port, set_bridge_cfg_value, set_port_cfg_value, show_bridges, show_ports, getuint, getyesno,
  getenum, cmd_rstp, cmd_setbridge_uint, cmd_setbridgestate, cmd_setbridgeforcevers,
  cmd_setport_uint, cmd_setport_yesno, cmd_setportp2p, cmd_portmcheck, cmd_debuglevel,
  cmd_showbridge, cmd_showport,
}
use rstp.Rstpctl.Main.{CommandEntry, Opt, commands, command_lookup, run_command, main_command, main}

module _ (system : System) (st1 st2 : Stack) (Alike : Action → Action → Type 0)
    (exits : (n : ℤ) → Alike (Action.exit n) (Action.exit n))
    (asks : (c : Command) (x : In c) (k k' : ℤ → Out c → Action)
      → ((r : ℤ) (out out' : Out c) → Alike (k r out) (k' r out'))
      → Alike (Action.ask c x k) (Action.ask c x k'))
    (sets_bridge : (br_index value val_mask : ℕ)
      → Alike
          (set_bridge_cfg_value system st1 br_index value val_mask)
          (set_bridge_cfg_value system st2 br_index value val_mask))
    (sets_port : (br_index port_index value val_mask : ℕ)
      → Alike
          (set_port_cfg_value system st1 br_index port_index value val_mask)
          (set_port_cfg_value system st2 br_index port_index value val_mask)) where
  sent : (c : Command) (x : In c) → Alike (Action.ask c x status_of) (Action.ask c x status_of)
  sent c x = asks c x status_of status_of (λ r out out'. exits _)

  if-Alike :
      (b : Bool) (x y x' y' : Action)
      → Alike x x'
      → Alike y y'
      → Alike (if b then x else y) (if b then x' else y')
  if-Alike true x y x' y' p q = p
  if-Alike false x y x' y' p q = q

  found-Alike :
      {A : Type 0} (o : Option A) (x x' : Action) (f f' : A → Action)
      → Alike x x'
      → ((a : A) → Alike (f a) (f' a))
      → Alike (elim o [ none ↦ x | some a ↦ f a ]) (elim o [ none ↦ x' | some a ↦ f' a ])
  found-Alike none x x' f f' p q = p
  found-Alike (some a) x x' f f' p q = q a

  arg-Alike :
      (argv : List String) (i : ℕ) (k k' : String → Action)
      → i < length argv
      → ((s : String) → Alike (k s) (k' s))
      → Alike (arg argv i k) (arg argv i k')
  unfolding arg
  arg-Alike [] i k k' h f = absurd (omega arith)
  arg-Alike (s ∷ argv) zero k k' h f = f s
  arg-Alike (s ∷ argv) (suc i) k k' h f = arg-Alike argv i k k' (omega arith) f

  or_die-Alike :
      (o : Option ℕ) (k k' : ℕ → Action)
      → ((v : ℕ) → Alike (k v) (k' v))
      → Alike (or_die o k) (or_die o k')
  or_die-Alike none k k' h = exits _
  or_die-Alike (some v) k k' h = h v

  get_index-Alike :
      (name : String) (k k' : ℕ → Action)
      → ((i : ℕ) → Alike (k i) (k' i))
      → Alike (get_index system st1 name k) (get_index system st2 name k')
  unfolding get_index
  get_index-Alike name k k' h =
      let r = system.if_nametoindex name in if-Alike (r == 0) _ (k r) _ (k' r) (exits _) (h r)

  on_bridge-Alike :
      (argv : List String) (k k' : ℕ → Action)
      → 2 ≤ length argv
      → ((br_index : ℕ) → Alike (k br_index) (k' br_index))
      → Alike (on_bridge system st1 argv k) (on_bridge system st2 argv k')
  unfolding on_bridge
  on_bridge-Alike argv k k' h f =
      arg-Alike argv 1 _ _ (omega arith) (λ name. get_index-Alike name k k' f)

  on_port-Alike :
      (argv : List String) (k k' : ℕ → ℕ → Action)
      → 3 ≤ length argv
      → ((br_index port_index : ℕ) → Alike (k br_index port_index) (k' br_index port_index))
      → Alike (on_port system st1 argv k) (on_port system st2 argv k')
  unfolding on_port
  on_port-Alike argv k k' h f = on_bridge-Alike argv _ _ (omega arith) (λ br_index.
      arg-Alike argv 2 _ _ (omega arith) (λ name. get_index-Alike name _ _ (f br_index)))

  show_bridges-Alike :
      (names : List String) (r : ℤ)
      → Alike (show_bridges system st1 names r) (show_bridges system st2 names r)
  unfolding show_bridges
  show_bridges-Alike [] r = exits _
  show_bridges-Alike (name ∷ rest) r =
      let failed = show_bridges-Alike rest (negsuc 0) in
      if-Alike (system.if_nametoindex name == 0) _ _ _ _ failed (
        asks _ _ _ _
          (λ res out out'. if-Alike (succeeded res) _ _ _ _ (show_bridges-Alike rest r) failed))

  show_ports-Alike :
      (br_index : ℕ) (names : List String) (r : ℤ)
      → Alike (show_ports system st1 br_index names r) (show_ports system st2 br_index names r)
  unfolding show_ports
  show_ports-Alike br_index [] r = exits _
  show_ports-Alike br_index (name ∷ rest) r =
      let failed = show_ports-Alike br_index rest (negsuc 0) in
      if-Alike (system.if_nametoindex name == 0) _ _ _ _ failed (
        asks _ _ _ _ (λ res out out'.
          if-Alike (succeeded res) _ _ _ _ (show_ports-Alike br_index rest r) failed))

  -- A command that has its arguments.
  abbrev Serves : ℕ → (List String → Action) → (List String → Action) → Type 0
  Serves n func func' = (argv : List String) → n + 1 ≤ length argv → Alike (func argv) (func' argv)

  cmd_rstp-Serves : Serves 2 (cmd_rstp system st1) (cmd_rstp system st2)
  unfolding cmd_rstp
  cmd_rstp-Serves argv h = on_bridge-Alike argv _ _ (omega arith) (λ br_index.
      arg-Alike argv 2 _ _ (omega arith) (λ word.
        if-Alike (is_one_of system st1 word "on" "yes" "1") _ _ _ _
          (sent Command.enable_bridge_rstp (br_index, pos 1))
          (if-Alike (is_one_of system st1 word "off" "no" "0") _ _ _ _
            (sent Command.enable_bridge_rstp (br_index, pos 0)) (exits (pos 1)))))

  cmd_setbridge_uint-Serves :
      (m : ℕ) → Serves 2 (cmd_setbridge_uint system st1 m) (cmd_setbridge_uint system st2 m)
  unfolding cmd_setbridge_uint
  cmd_setbridge_uint-Serves m argv h = on_bridge-Alike argv _ _ (omega arith) (λ br_index.
      arg-Alike argv 2 _ _ (omega arith)
        (λ word. or_die-Alike (getuint (system.strtoul word)) _ _ (λ v. sets_bridge br_index v m)))

  cmd_setbridgestate-Serves :
      Serves 2 (cmd_setbridgestate system st1) (cmd_setbridgestate system st2)
  unfolding cmd_setbridgestate
  cmd_setbridgestate-Serves argv h = on_bridge-Alike argv _ _ (omega arith) (λ br_index.
      arg-Alike argv 2 _ _ (omega arith)
        (λ word. or_die-Alike (getyesno word "on" "off") _ _ (λ v. sets_bridge br_index v 1)))

  cmd_setbridgeforcevers-Serves :
      Serves 2 (cmd_setbridgeforcevers system st1) (cmd_setbridgeforcevers system st2)
  unfolding cmd_setbridgeforcevers
  cmd_setbridgeforcevers-Serves argv h = on_bridge-Alike argv _ _ (omega arith) (λ br_index.
      arg-Alike argv 2 _ _ (omega arith) (λ word.
        or_die-Alike (getyesno word "normal" "slow") _ _ (λ v. sets_bridge br_index (2 * v) 32)))

  cmd_setport_uint-Serves :
      (m : ℕ) → Serves 3 (cmd_setport_uint system st1 m) (cmd_setport_uint system st2 m)
  unfolding cmd_setport_uint
  cmd_setport_uint-Serves m argv h = on_port-Alike argv _ _ (omega arith) (λ br_index port_index.
      arg-Alike argv 3 _ _ (omega arith) (λ word.
        or_die-Alike (getuint (system.strtoul word)) _ _ (λ v. sets_port br_index port_index v m)))

  cmd_setport_yesno-Serves :
      (m : ℕ) → Serves 3 (cmd_setport_yesno system st1 m) (cmd_setport_yesno system st2 m)
  unfolding cmd_setport_yesno
  cmd_setport_yesno-Serves m argv h = on_port-Alike argv _ _ (omega arith) (λ br_index port_index.
      arg-Alike argv 3 _ _ (omega arith) (λ word.
        or_die-Alike (getyesno word "yes" "no") _ _ (λ v. sets_port br_index port_index v m)))

  cmd_setportp2p-Serves : Serves 3 (cmd_setportp2p system st1) (cmd_setportp2p system st2)
  unfolding cmd_setportp2p
  cmd_setportp2p-Serves argv h = on_port-Alike argv _ _ (omega arith) (λ br_index port_index.
      arg-Alike argv 3 _ _ (omega arith) (λ word.
        or_die-Alike (getenum word ("yes" ∷ "no" ∷ "auto" ∷ []) 0) _ _
          (λ v. sets_port br_index port_index v 8)))

  cmd_portmcheck-Serves : Serves 2 (cmd_portmcheck system st1) (cmd_portmcheck system st2)
  unfolding cmd_portmcheck
  cmd_portmcheck-Serves argv h =
      on_port-Alike argv _ _ (omega arith)
        (λ br_index port_index. sets_port br_index port_index 0 32)

  cmd_debuglevel-Serves : Serves 1 (cmd_debuglevel system st1) (cmd_debuglevel system st2)
  unfolding cmd_debuglevel
  cmd_debuglevel-Serves argv h = arg-Alike argv 1 _ _ (omega arith) (λ word.
      or_die-Alike (getuint (system.strtoul word)) _ _ (λ v. asks _ _ _ _ (λ r out out'. exits _)))

  cmd_showbridge-Serves : Serves 0 (cmd_showbridge system st1) (cmd_showbridge system st2)
  unfolding cmd_showbridge
  cmd_showbridge-Serves argv h =
      if-Alike (ltb 1 (length argv)) _ _ _ _ (show_bridges-Alike (drop 1 argv) (pos 0)) (
        found-Alike system.all_bridges _ _ _ _ (exits _)
          (λ names. show_bridges-Alike names (pos 0)))

  cmd_showport-Serves : Serves 1 (cmd_showport system st1) (cmd_showport system st2)
  unfolding cmd_showport
  cmd_showport-Serves argv h = arg-Alike argv 1 _ _ (omega arith) (λ br_name.
      get_index-Alike br_name _ _ (λ br_index.
        asks Command.get_bridge_state br_index _ _ (λ res out out'.
          if-Alike (not (succeeded res)) _ _ _ _ (exits (negsuc 0)) (
            if-Alike (ltb 2 (length argv)) _ _ _ _ (show_ports-Alike br_index (drop 2 argv) (pos 0))
              (found-Alike (system.all_ports br_name) _ _ _ _ (exits (negsuc 0))
                (λ names. show_ports-Alike br_index names (pos 0)))))))

  -- Entries of two tables.
  pub record IsEntry (c d : CommandEntry) : Type 0 where
    pub name : c.name ≡ d.name
    pub nargs : c.nargs ≡ d.nargs
    pub optargs : c.optargs ≡ d.optargs
    pub func : Serves c.nargs c.func d.func

  of_func :
      (nargs optargs : ℕ) (name : String) (func func' : List String → Action)
      → Serves nargs func func'
      → IsEntry
          (record { nargs = nargs; optargs = optargs; name = name; func = func })
          (record { nargs = nargs; optargs = optargs; name = name; func = func' })
  of_func nargs optargs name func func' h = record {
    name = refl;
    nargs = refl;
    optargs = refl;
    func = h;
  }

  abbrev Entries : List CommandEntry → List CommandEntry → Type 0
  Entries [] [] = Unit
  Entries (c ∷ cs) (d ∷ ds) = IsEntry c d × Entries cs ds
  Entries [] (d ∷ ds) = ⊥
  Entries (c ∷ cs) [] = ⊥

  commands-Entries : Entries (commands system st1) (commands system st2)
  unfolding commands
  commands-Entries = (
    of_func _ _ _ _ _ cmd_showbridge-Serves,
    (
      of_func _ _ _ _ _ cmd_showport-Serves,
      (
        of_func _ _ _ _ _ cmd_showport-Serves,
        (
          of_func _ _ _ _ _ cmd_rstp-Serves,
          (
            of_func _ _ _ _ _ cmd_setbridgestate-Serves,
            (
              of_func _ _ _ _ _ (cmd_setbridge_uint-Serves 2),
              (
                of_func _ _ _ _ _ (cmd_setbridge_uint-Serves 8),
                (
                  of_func _ _ _ _ _ (cmd_setbridge_uint-Serves 4),
                  (
                    of_func _ _ _ _ _ (cmd_setbridge_uint-Serves 16),
                    (
                      of_func _ _ _ _ _ cmd_setbridgeforcevers-Serves,
                      (
                        of_func _ _ _ _ _ (cmd_setport_uint-Serves 4),
                        (
                          of_func _ _ _ _ _ (cmd_setport_uint-Serves 2),
                          (
                            of_func _ _ _ _ _ (cmd_setport_yesno-Serves 16),
                            (
                              of_func _ _ _ _ _ (cmd_setport_yesno-Serves 64),
                              (
                                of_func _ _ _ _ _ cmd_setportp2p-Serves,
                                (
                                  of_func _ _ _ _ _ cmd_portmcheck-Serves,
                                  (of_func _ _ _ _ _ cmd_debuglevel-Serves, tt),
                                ),
                              ),
                            ),
                          ),
                        ),
                      ),
                    ),
                  ),
                ),
              ),
            ),
          ),
        ),
      ),
    ),
  )

  run_command-Alike :
      (c d : CommandEntry) (argv : List String)
      → IsEntry c d
      → Alike (run_command system st1 c argv) (run_command system st2 d argv)
  unfolding run_command
  run_command-Alike c d argv h =
      rw (sym h.nargs, sym h.optargs)
        (elim (Bool-cases
          (ltb (length argv) (c.nargs + 1) || ltb (c.nargs + c.optargs + 1) (length argv))) [
            | inl bad ↦ rw bad (exits _)
            | inr good ↦ rw good (h.func argv (ground arith))
          ])

  chosen :
      (a b : Bool) (c d : CommandEntry) (o r : Option CommandEntry)
      → a ≡ b
      → IsEntry c d
      → OnBoth IsEntry o r
      → OnBoth IsEntry (if a then some c else o) (if b then some d else r)
  chosen true true c d o r e h g = h
  chosen false false c d o r e h g = g
  chosen true false c d o r e h g = cc
  chosen false true c d o r e h g = cc

  lookup-Entries :
      (cmd : String) (cs ds : List CommandEntry)
      → Entries cs ds
      → OnBoth IsEntry (command_lookup system st1 cmd cs) (command_lookup system st2 cmd ds)
  unfolding command_lookup
  lookup-Entries cmd [] [] h = tt
  lookup-Entries cmd [] (d ∷ ds) h = absurd h
  lookup-Entries cmd (c ∷ cs) [] h = absurd h
  lookup-Entries cmd (c ∷ cs) (d ∷ ds) (h, hs) =
      chosen (same_text cmd c.name) (same_text cmd d.name) c d _ _ (ap (same_text cmd) h.name) h
        (lookup-Entries cmd cs ds hs)

  found_entry :
      (o r : Option CommandEntry) (argv : List String)
      → OnBoth IsEntry o r
      → Alike
          (elim o [ none ↦ Action.exit (pos 1) | some c ↦ run_command system st1 c argv ])
          (elim r [ none ↦ Action.exit (pos 1) | some c ↦ run_command system st2 c argv ])
  found_entry none none argv h = exits _
  found_entry (some c) (some d) argv h = run_command-Alike c d argv h
  found_entry none (some d) argv h = absurd h
  found_entry (some c) none argv h = absurd h

  pub main-Alike :
      (opts : List Opt) (connected : Bool) (argv : List String)
      → Alike (main system st1 opts connected argv) (main system st2 opts connected argv)
  unfolding main main_command
  main-Alike (Opt.help ∷ rest) connected argv = exits _
  main-Alike (Opt.version ∷ rest) connected argv = exits _
  main-Alike (Opt.unknown ∷ rest) connected argv = exits _
  main-Alike [] connected [] = exits _
  main-Alike [] connected (cmd ∷ args) = if-Alike (not connected) _ _ _ _ (exits _) (
      found_entry (command_lookup system st1 cmd (commands system st1))
        (command_lookup system st2 cmd (commands system st2)) (cmd ∷ args)
        (lookup-Entries cmd (commands system st1) (commands system st2) commands-Entries))
