-- ===== src/Update/InfoKeeps.antt =====
-- rstplib/info.c: Port Information does not write to what the management has set.
use rstp.Prelude.{view-if, refl, ◌∙◌, false}
use rstp.States.{InfoState}
use rstp.Port.{Port}
use rstp.Stpm.{Stpm}
use rstp.Info
use rstp.Update.{info_slot}
use rstp.Update.Setup.{port_setup, SamePort, Keeps, at_site}

set_tc_flags-keeps : (port : Port) → SamePort (Info.set_tc_flags port) port
unfolding Info.set_tc_flags
set_tc_flags-keeps port = view-if port_setup _ _ _ refl refl

record_proposal-keeps : (port : Port) → SamePort (Info.record_proposal port) port
unfolding Info.record_proposal
record_proposal-keeps port = view-if port_setup _ _ _ refl refl

-- Where a message is better, it is recorded after two steps that depend on it.
superior_designated-keeps : (port : Port) → SamePort (Info.superior_designated port) port
unfolding Info.superior_designated Info.record_priority Info.record_times Info.updt_rcvd_info_while
superior_designated-keeps port =
    set_tc_flags-keeps (Info.record_proposal (record port { agreed = false; proposing = false }))
    ∙ record_proposal-keeps (record port { agreed = false; proposing = false })

pub info-Keeps : Keeps info_slot
unfolding Info.machine Info.enter_port Info.rcv_info Info.update Info.updt_rcvd_info_while
    Info.record_dispute Info.record_agreement
info-Keeps = record {
  enter = λ s w. at_site w (Info.enter_port s w.stpm w.port) (enter s w.stpm w.port);
  put = λ m port. refl;
}
  where
    enter :
        (s : InfoState) (stpm : Stpm) (port : Port) → SamePort (Info.enter_port s stpm port) port
    enter InfoState.begin stpm port = refl
    enter InfoState.disabled stpm port = refl
    enter InfoState.aged stpm port = refl
    enter InfoState.update stpm port = refl
    enter InfoState.current stpm port = refl
    enter InfoState.receive stpm port = refl
    enter InfoState.superior_designated stpm port = superior_designated-keeps port
    enter InfoState.repeated_designated stpm port =
        set_tc_flags-keeps (Info.record_proposal port) ∙ record_proposal-keeps port
    enter InfoState.inferior_designated stpm port = view-if port_setup _ _ port refl refl
    enter InfoState.not_designated stpm port =
        set_tc_flags-keeps (Info.record_agreement stpm port) ∙ view-if port_setup _ _ _ refl refl
    enter InfoState.other stpm port = refl
