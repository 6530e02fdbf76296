-- ===== src/Rstpctl/Values.antt =====
-- ctl_main.c: the configurations that rstpctl sends stand in variables of which it sets one field.
use Prim.Native.String.{String}
use rstp.Prelude.{
  pos, ℤ, >>=-some, sym, ◌∙◌, ℕ, ◌≡◌, refl, ap, Bool, true, Bool-cases, inl, inr, Option, none,
  some, ◌>>=◌, ◌==◌, if◌then◌else◌, List, negsuc, arith,
}
use rstp.Library.Config.{StpCfg}
use rstp.Library.PortConfig.{PortCfg}
use rstp.Track.{Kernel, Rstp}
use rstp.Track.Out.{eq_ℤ}
use rstp.Track.Commands.{set_bridge_config, set_port_config}
use rstp.Track.Implementation.{Bounds, rstp_of}
use rstp.Control.{Command, In, Out}
use rstp.Control.Server.{Server, Protocol, ctl}
use rstp.Rstpctl.{
  System, Stack, Action, status_of, bridge_value, port_value, set_bridge_cfg_value,
  set_port_cfg_value,
}
use rstp.Rstpctl.Main.{Opt, main}
use rstp.Rstpctl.Related.{main-Alike}
use rstp.Rstpctl.Run.{run, direct}

eq_of_test : (a b : ℕ) → (a == b) ≡ true → a ≡ b
eq_of_test a b e = ground arith

-- Two chains of tests of one number, by what holds at each number that is tested.
choose :
    {A B : Type 0} (f : Option A → B) (m n : ℕ) (x y : A) (p q : Option A)
    → (m ≡ n → f (some x) ≡ f (some y))
    → f p ≡ f q
    → f (if m == n then some x else p) ≡ f (if m == n then some y else q)
choose f m n x y p q h r = elim (Bool-cases (m == n)) [
  | inl e ↦ rw e (h (eq_of_test m n e))
  | inr e ↦ rw e r
]

module _ (bounds : Bounds) where
  abbrev pub R : Rstp
  unfolding rstp_of
  R = rstp_of bounds

module _ (bounds : Bounds) (kernel : Kernel) (p : Protocol)
    (held1 held2 : (c : Command) → Out c) where
  abbrev pub S : Type 0
  S = Server (R bounds).Instance

  -- Runs that end alike from every state of the daemon.
  abbrev Alike : Action → Action → Type 0
  Alike a b =
      (s : S)
      → run (direct (R bounds) kernel p) held1 a s ≡ run (direct (R bounds) kernel p) held2 b s

  module _ (system : System) (st1 st2 : Stack) where
    -- A command without output does not depend on the variables of the caller.
    sets_bridge-held :
        (br_index : ℕ) (o : Option StpCfg) (s : S)
        → run
            (direct (R bounds) kernel p)
            held1
            (elim o [
              | none ↦ Action.exit (negsuc 0)
              | some uid_cfg ↦ Action.ask Command.set_bridge_config (br_index, uid_cfg) status_of
            ])
            s
          ≡ run
              (direct (R bounds) kernel p)
              held2
              (elim o [
                | none ↦ Action.exit (negsuc 0)
                | some uid_cfg ↦ Action.ask Command.set_bridge_config (br_index, uid_cfg) status_of
              ])
              s
    unfolding run direct
    sets_bridge-held br_index none s = refl
    sets_bridge-held br_index (some uid_cfg) s = refl

    sets_port-held :
        (br_index port_index : ℕ) (o : Option PortCfg) (s : S)
        → run
            (direct (R bounds) kernel p)
            held1
            (elim o [
              | none ↦ Action.exit (negsuc 0)
              | some uid_cfg ↦
                  Action.ask Command.set_port_config (br_index, port_index, uid_cfg) status_of
            ])
            s
          ≡ run
              (direct (R bounds) kernel p)
              held2
              (elim o [
                | none ↦ Action.exit (negsuc 0)
                | some uid_cfg ↦
                    Action.ask Command.set_port_config (br_index, port_index, uid_cfg) status_of
              ])
              s
    unfolding run direct
    sets_port-held br_index port_index none s = refl
    sets_port-held br_index port_index (some uid_cfg) s = refl

    sets_bridge :
        (br_index value val_mask : ℕ)
        → Alike
            (set_bridge_cfg_value system st1 br_index value val_mask)
            (set_bridge_cfg_value system st2 br_index value val_mask)
    unfolding set_bridge_cfg_value bridge_value run direct ctl R set_bridge_config
    sets_bridge br_index value val_mask s =
        let f = λ (o : Option StpCfg).
          run (direct (R bounds) kernel p) held1
            (elim o [
              | none ↦ Action.exit (negsuc 0)
              | some uid_cfg ↦ Action.ask Command.set_bridge_config (br_index, uid_cfg) status_of
            ])
            s in
        (choose f val_mask 1 _ _ _ _
          (λ e. rw e (elim (Bool-cases (value == 0)) [ inl z ↦ rw z refl | inr z ↦ rw z refl ]))
          (choose f val_mask 2 _ _ _ _ (λ e. rw e refl)
            (choose f val_mask 4 _ _ _ _ (λ e. rw e refl)
              (choose f val_mask 8 _ _ _ _ (λ e. rw e refl)
                (choose f val_mask 16 _ _ _ _ (λ e. rw e refl)
                  (choose f val_mask 32 _ _ none none (λ e. rw e refl) refl))))))
        ∙ sets_bridge-held br_index (bridge_value st2.bridge_cfg value val_mask) s

    sets_port :
        (br_index port_index value val_mask : ℕ)
        → Alike
            (set_port_cfg_value system st1 br_index port_index value val_mask)
            (set_port_cfg_value system st2 br_index port_index value val_mask)
    unfolding set_port_cfg_value port_value run direct ctl R set_port_config
    sets_port br_index port_index value val_mask s =
        let f = λ (o : Option PortCfg).
          run (direct (R bounds) kernel p) held1
            (elim o [
              | none ↦ Action.exit (negsuc 0)
              | some uid_cfg ↦
                  Action.ask Command.set_port_config (br_index, port_index, uid_cfg) status_of
            ])
            s in
        (choose f val_mask 32 _ _ _ _ (λ e. rw e refl)
          (choose f val_mask 2 _ _ _ _ (λ e. rw e refl)
            (choose f val_mask 4 _ _ _ _ (λ e. rw e refl)
              (choose f val_mask 8 _ _ _ _ (λ e. rw e refl)
                (choose f val_mask 16 _ _ _ _ (λ e. rw e refl)
                  (choose f val_mask 64 _ _ none none (λ e. rw e refl) refl))))))
        ∙ sets_port-held br_index port_index (port_value st2.port_cfg value val_mask) s

    asks-Alike :
        (c : Command) (x : In c) (k k' : ℤ → Out c → Action)
        → ((r : ℤ) (out out' : Out c) → Alike (k r out) (k' r out'))
        → Alike (Action.ask c x k) (Action.ask c x k')
    unfolding run direct
    asks-Alike c x k k' h s =
        let o = ctl (R bounds) kernel c x (p.fresh c) s in
        >>=-some o _ _
        ∙ ap (λ f. o >>= f)
            (λ i (r, out, s').
              h r (if eq_ℤ r (pos 0) then out else held1 c)
                (if eq_ℤ r (pos 0) then out else held2 c) s' i)
        ∙ sym (>>=-some o _ _)

    -- Whatever the variables of rstpctl hold before they are written, those of the configurations
    -- that it sends and those that answers are written to, a run of it with the CTL functions leaves
    -- the same daemon and ends with the same status.
    pub run-main :
        (opts : List Opt) (connected : Bool) (argv : List String) (s : S)
        → run (direct (R bounds) kernel p) held1 (main system st1 opts connected argv) s
          ≡ run (direct (R bounds) kernel p) held2 (main system st2 opts connected argv) s
    unfolding run
    run-main = main-Alike system st1 st2 Alike (λ n s. refl) asks-Alike sets_bridge sets_port
