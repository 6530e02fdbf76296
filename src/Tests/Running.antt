-- ===== src/Tests/Running.antt =====
-- The run of `STP_stpm_update` (rstplib/stpm.c) on a started bridge with two ports.
use rstp.Prelude.{ℕ, Bool, Option, none, some, ◌≡◌, refl, [], ◌∷◌, true, false}
use rstp.StateMach.{change_state}
use rstp.Vector.{compare_vector}
use rstp.Times.{compare_times}
use rstp.Port.{Port}
use rstp.Stpm.{Bridge}
use rstp.Receive
use rstp.Topoch
use rstp.Migrate
use rstp.P2p
use rstp.Brdgdet
use rstp.Pcost
use rstp.Info
use rstp.Roletrns
use rstp.Sttrans
use rstp.Transmit
use rstp.Rolesel
use rstp.Update.{update, init_machines}
use rstp.Update.Rest.{AtRest, update-AtRest}
use rstp.Start.{StartResult, started, start}
use rstp.Start.Outcome.{IsOutcome, start-IsOutcome}
use rstp.Tests.Data.{an_out, a_bridge, stpm_of, default_times, a_port}

abbrev other_port : Port
other_port = record a_port { port_id = 32771; port_index = 3; rcvd_bpdu = false }

abbrev two_ports : Bridge
two_ports = record { stpm = stpm_of default_times; ports = a_port ∷ other_port ∷ [] }

-- The bridge after `_stp_stpm_init_machine` on every machine.
abbrev pub begun : Bridge
begun = init_machines an_out two_ports

abbrev pub result : Option (ℕ × Bridge)
result = update an_out 40 160 0 begun

abbrev pub returns {ℓ} : {A : Type ℓ} → Option A → Bool
returns none = false
returns (some r) = true

abbrev pub value_of {ℓ} : {A : Type ℓ} → A → Option A → A
value_of other none = other
value_of other (some r) = r

pub some_of {ℓ} :
    {A : Type ℓ} (other : A) (o : Option A) → returns o ≡ true → o ≡ some (value_of other o)
some_of other none e = cc
some_of other (some r) e = refl

abbrev pub updated : ℕ × Bridge
updated = value_of (0, a_bridge) result

pub started_returns : returns result ≡ true
unfolding update init_machines Rolesel.machine Receive.machine Topoch.machine Migrate.machine
    P2p.machine Brdgdet.machine Pcost.machine Info.machine Roletrns.machine Sttrans.machine
    Transmit.machine change_state compare_vector compare_times
started_returns = refl

update-AtRest_example : AtRest an_out updated.1
update-AtRest_example =
    update-AtRest an_out 40 160 0 updated.0 begun updated.1
      (some_of (0, a_bridge) result started_returns)

abbrev start_result : Option StartResult
start_result = start an_out 40 160 (stpm_of default_times ∷ []) two_ports

start_returns : returns start_result ≡ true
unfolding start update init_machines Rolesel.machine Receive.machine Topoch.machine Migrate.machine
    P2p.machine Brdgdet.machine Pcost.machine Info.machine Roletrns.machine Sttrans.machine
    Transmit.machine change_state compare_vector compare_times
start_returns = refl

abbrev outcome : StartResult
outcome = value_of (started a_bridge) start_result

start-IsOutcome_example : IsOutcome an_out (stpm_of default_times ∷ []) two_ports outcome
start-IsOutcome_example =
    start-IsOutcome an_out 40 160 (stpm_of default_times ∷ []) two_ports outcome
      (some_of (started a_bridge) start_result start_returns)
