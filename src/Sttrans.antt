-- ===== src/Sttrans.antt =====
-- rstplib/sttrans.c: the Port State Transition machine (17.30).
use rstp.Prelude.{Bool, true, false, not, Option, none, some, if◌then◌else◌, [], ◌∷◌, ◌++◌}
use rstp.StateMach.{Concrete}
use rstp.States.{SttransState}
use rstp.Port.{Port}
use rstp.Stpm.{Site, Stpm, Effect}
pub mod Settles

-- A call of an STP_OUT function, whose result no caller in this file reads.
unfoldable pub emit : Effect → Site → Site
emit e w =
    let stpm = w.stpm in record w { stpm = record stpm { effects = stpm.effects ++ (e ∷ []) } }

unfoldable pub disable_learning : Site → Site
unfolding emit
disable_learning w = emit (Effect.set_learning w.port.port_index false) w

unfoldable pub enable_learning : Site → Site
unfolding emit
enable_learning w = emit (Effect.set_learning w.port.port_index true) w

unfoldable pub disable_forwarding : Site → Site
unfolding emit
disable_forwarding w = emit (Effect.set_forwarding w.port.port_index false) w

unfoldable pub enable_forwarding : Site → Site
unfolding emit
enable_forwarding w = emit (Effect.set_forwarding w.port.port_index true) w

abbrev set_learning : Bool → Site → Site
set_learning b w = let port = w.port in record w { port = record port { learning = b } }

abbrev set_forwarding : Bool → Site → Site
set_forwarding b w = let port = w.port in record w { port = record port { forwarding = b } }

abbrev discard : Site → Site
unfolding disable_learning disable_forwarding
discard w = set_forwarding false (disable_forwarding (set_learning false (disable_learning w)))

unfoldable pub enter_site : SttransState → Site → Site
unfolding disable_learning enable_learning disable_forwarding enable_forwarding
enter_site SttransState.begin w = discard w
enter_site SttransState.discarding w = discard w
enter_site SttransState.learning w = set_learning true (enable_learning w)
enter_site SttransState.forwarding w = set_forwarding true (enable_forwarding w)

unfoldable pub check_port : SttransState → Port → Option SttransState
check_port SttransState.begin port = some SttransState.discarding
check_port SttransState.discarding port = if port.learn then some SttransState.learning else none
check_port SttransState.learning port =
    if port.forward
    then some SttransState.forwarding
    else if not port.learn
    then some SttransState.discarding
    else none
check_port SttransState.forwarding port =
    if not port.forward then some SttransState.discarding else none

unfoldable pub machine : Concrete Site SttransState
unfolding enter_site check_port
machine = record { enter_state = enter_site; check_conditions = λ s w. check_port s w.port }
