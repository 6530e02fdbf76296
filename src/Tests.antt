-- ===== src/Tests.antt =====
-- The theorems at concrete inputs: a bridge of rstplib with one port that has heard a better root.
use rstp.Prelude.{
  ℕ, ◌+◌, ◌^◌, ◌≡◌, ◌↔◌, List, [], ◌∷◌, none, true, false, refl, inr, arith, map, Ordering, All,
}
use rstp.StateMach.{change_state}
use rstp.StateMach.Loop.{Settled, Always, changing}
use rstp.States.{
  ReceiveState, MigrateState, BrdgdetState, P2pState, PcostState, SttransState, TopochState,
  TransmitState, InfoState, RoletrnsState, RoleselState,
}
use rstp.Vector.{PrioVector, compare_vector, compare_bridge_id, get_vector, set_vector}
use rstp.Vector.Order.{
  swap, lexicographic, compare_vector_order, compare_vector-lexicographic, compare_vector_both_less,
  eq_of_compare_bridge_id,
}
use rstp.Vector.Wire.{FitsBpdu, get_vector-set_vector}
use rstp.Times.{compare_times, differ, get_times, set_times}
use rstp.Times.Laws.{FitsByte, get_times-set_times, compare_times-same}
use rstp.Receive
use rstp.Migrate
use rstp.Brdgdet
use rstp.P2p
use rstp.Pcost
use rstp.Sttrans
use rstp.Topoch
use rstp.Transmit
use rstp.Info
use rstp.Roletrns
use rstp.Rolesel.{updt_root_priority, select_role, enter_bridge}
use rstp.Rolesel
use rstp.Port.{Port}
use rstp.Stpm.{Site}
use rstp.Receive.Settles.{receive-Settled}
use rstp.Migrate.Settles.{migrate-Settled}
use rstp.Brdgdet.Settles.{Calm, brdgdet-Settled}
use rstp.P2p.Settles.{p2p-Settled}
use rstp.Pcost.Settles.{pcost-Settled}
use rstp.Sttrans.Settles.{sttrans-Settled}
use rstp.Topoch.Settles.{Dormant, topoch-Settled}
use rstp.Transmit.Settles.{HelloPositive, transmit-Settled, transmit-diverges}
use rstp.Info.Settles.{info-Settled}
use rstp.Roletrns.Settles.{roletrns-Settled}
use rstp.Rolesel.Best.{IsBest, updt_root_priority-IsBest}
use rstp.Rolesel.Roles.{
  Selects, IsSelected, with_cost, select_role-Selects, role_selection-All, rolesel-Settled,
  updt_root_priority-cost,
}
use rstp.Start.{least_mac, check_bridge_priority, no_mac}
use rstp.Start.Identity.{IsLeast, Distinct, least_mac-IsLeast, check_bridge_priority-Distinct}
use rstp.Exchange.{Heard, rx_bpdu-tx_rstp}
use rstp.Tests.Data.{
  a_port, a_site, restless_site, a_bridge, an_out, stpm_of, vector_of, bridge_id, default_times,
  blank_body,
}
mod Data
mod Running
mod Commands
mod Daemon
mod Control
mod Structs

compare_vector_order_example :
    (compare_vector (vector_of 20) (vector_of 10)
      ≡ swap (compare_vector (vector_of 10) (vector_of 20)))
    × ((compare_vector (vector_of 10) (vector_of 20) ≡ Ordering.eq) ↔ (vector_of 10 ≡ vector_of 20))
    × (compare_vector (vector_of 10) (vector_of 20) ≡ Ordering.lt
        → compare_vector (vector_of 20) (vector_of 30) ≡ Ordering.lt
        → compare_vector (vector_of 10) (vector_of 30) ≡ Ordering.lt)
compare_vector_order_example =
    compare_vector_order (vector_of 10) (vector_of 20) (vector_of 30) (omega arith) (omega arith)
      (omega arith)

compare_vector-lexicographic_example :
    compare_vector (vector_of 10) (vector_of 20) ≡ lexicographic (vector_of 10) (vector_of 20)
compare_vector-lexicographic_example =
    compare_vector-lexicographic (vector_of 10) (vector_of 20) (omega arith) (omega arith)

compare_vector_both_less_example :
    (compare_vector (vector_of 10) (vector_of (10 + 2 ^ 31)) ≡ Ordering.lt)
    × (compare_vector (vector_of (10 + 2 ^ 31)) (vector_of 10) ≡ Ordering.lt)
compare_vector_both_less_example = compare_vector_both_less (vector_of 10) (omega arith)

vector_FitsBpdu : FitsBpdu (vector_of 10)
vector_FitsBpdu = record {
  root = record { short = omega arith; six = refl };
  cost = omega arith;
  design = record { short = omega arith; six = refl };
  port = omega arith;
}

times_FitsByte : FitsByte default_times
times_FitsByte = record {
  message_age = omega arith;
  max_age = omega arith;
  forward_delay = omega arith;
  hello_time = omega arith;
}

get_vector-set_vector_example :
    get_vector (set_vector (vector_of 10) blank_body) (vector_of 20) ≡ vector_of 10
get_vector-set_vector_example =
    get_vector-set_vector (vector_of 10) (vector_of 20) blank_body vector_FitsBpdu

get_times-set_times_example : get_times (set_times default_times blank_body) ≡ default_times
get_times-set_times_example = get_times-set_times default_times blank_body times_FitsByte

updt_root_priority-IsBest_example :
    IsBest
      (stpm_of default_times).root_priority
      (a_port ∷ [])
      (updt_root_priority (stpm_of default_times) (a_port ∷ [])).root_priority
unfolding Rolesel.root_path_prio
updt_root_priority-IsBest_example =
    updt_root_priority-IsBest (a_port ∷ []) (stpm_of default_times) (omega arith) (omega arith, tt)

updt_root_priority-cost_example :
    updt_root_priority (stpm_of default_times) (with_cost 1 a_port ∷ [])
    ≡ updt_root_priority (stpm_of default_times) (a_port ∷ [])
updt_root_priority-cost_example =
    updt_root_priority-cost (λ port. 1) (stpm_of default_times) (a_port ∷ [])

select_role-Selects_example :
    Selects
      (stpm_of default_times)
      a_port
      (select_role (stpm_of default_times) a_port).selected_role
select_role-Selects_example = select_role-Selects (stpm_of default_times) a_port refl

rolesel-Settled_example :
    Settled Rolesel.machine Always 3
      (change_state Rolesel.machine 4 0 (changing Rolesel.machine RoleselState.begin) a_bridge)
rolesel-Settled_example = rolesel-Settled RoleselState.begin a_bridge

roletrns-Settled_example :
    Settled Roletrns.machine Always 151 (
      change_state Roletrns.machine 152 0
        (changing Roletrns.machine RoletrnsState.root_port)
        a_site)
roletrns-Settled_example = roletrns-Settled RoletrnsState.root_port a_site

info-Settled_example :
    Settled Info.machine Always 9
      (change_state Info.machine 10 0 (changing Info.machine InfoState.current) a_site)
info-Settled_example = info-Settled InfoState.current a_site

brdgdet-Settled_example :
    Settled Brdgdet.machine Calm 3
      (change_state Brdgdet.machine 4 0 (changing Brdgdet.machine BrdgdetState.begin) a_site)
brdgdet-Settled_example = brdgdet-Settled BrdgdetState.begin a_site refl

topoch-Settled_example :
    Settled Topoch.machine Dormant 2
      (change_state Topoch.machine 3 0 (changing Topoch.machine TopochState.inactive) a_site)
topoch-Settled_example = topoch-Settled TopochState.inactive a_site (inr refl)

transmit-Settled_example : Settled (Transmit.machine an_out) HelloPositive 5 (
    change_state
      (Transmit.machine an_out)
      6
      0
      (changing (Transmit.machine an_out) TransmitState.idle)
      a_site)
transmit-Settled_example = transmit-Settled an_out TransmitState.idle a_site (omega arith)

transmit-diverges_example :
    change_state
      (Transmit.machine an_out)
      100
      0
      (changing (Transmit.machine an_out) TransmitState.idle)
      restless_site
    ≡ none
transmit-diverges_example =
    transmit-diverges an_out 100 TransmitState.idle restless_site refl refl refl

rx_bpdu-tx_rstp_example : Heard a_port a_port (
    Info.rx_bpdu
      (stpm_of default_times)
      (Transmit.tx_rstp an_out a_site).stpm.bpdu_packet.bpdu
      a_port)
rx_bpdu-tx_rstp_example =
    rx_bpdu-tx_rstp an_out a_site (stpm_of default_times) a_port refl refl vector_FitsBpdu
      times_FitsByte refl (omega arith)

check_bridge_priority-Distinct_example :
    (check_bridge_priority (stpm_of default_times) (stpm_of default_times ∷ []) ≡ true)
    ↔ All (Distinct (stpm_of default_times)) (stpm_of default_times ∷ [])
check_bridge_priority-Distinct_example =
    check_bridge_priority-Distinct (stpm_of default_times) (stpm_of default_times ∷ [])
