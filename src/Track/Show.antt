-- ===== src/Track/Show.antt =====
-- bridge_track.c: the commands of rstpctl that read. They leave the daemon as it is.
use rstp.Prelude.{ℕ, Option, some, ◌>>=◌, if◌then◌else◌}
use rstp.Library.{StpError, is_ok}
use rstp.Library.Config.{StpCfg}
use rstp.Library.PortConfig.{PortCfg}
use rstp.Library.State.{UidStpState, UidPortState}
use rstp.Track.{Kernel, Rstp, Tracker, find_if}
use rstp.Track.Commands.{CtlResult, check_bridge, check_bridge_port}

-- The code that `r` is answered by.
abbrev result_of : StpError → CtlResult
result_of r = if is_ok r then CtlResult.done else CtlResult.library_error r

module _ (rstp : Rstp) (kernel : Kernel) where
  -- The instance of a bridge that has been checked; `none` is the use of NULL.
  abbrev the_instance : ℕ → Tracker rstp.Instance → Option rstp.Instance
  unfolding find_if
  the_instance br_index t = find_if br_index t.if_head >>= (λ br. br.stp)

  -- `CTL_get_bridge_state`: the state is read first, and the configuration if that has succeeded.
  unfoldable pub get_bridge_state :
      ℕ → StpCfg → UidStpState → Tracker rstp.Instance → Option (CtlResult × StpCfg × UidStpState)
  unfolding find_if check_bridge
  get_bridge_state br_index cfg state t = elim (check_bridge rstp kernel br_index t) [
    | CtlResult.done ↦ the_instance br_index t >>= (λ stp.
        let (r, state') = rstp.stpm_get_state state stp in
        let (r2, cfg') = rstp.stpm_get_cfg cfg stp in
        if is_ok r
        then some (result_of r2, cfg', state')
        else some (CtlResult.library_error r, cfg, state'))
    | r ↦ some (r, cfg, state)
  ]

  -- `CTL_get_port_state`, in the same order.
  unfoldable pub get_port_state :
      ℕ
      → ℕ
      → PortCfg
      → UidPortState
      → Tracker rstp.Instance
      → Option (CtlResult × PortCfg × UidPortState)
  unfolding find_if check_bridge_port
  get_port_state br_index port_index cfg state t =
      elim (check_bridge_port rstp kernel br_index port_index t) [
        | CtlResult.done ↦ find_if port_index t.if_head >>= (λ port.
            the_instance br_index t >>= (λ stp.
              let asked = record state { port_no = port.port_index } in
              let (r, state') = rstp.port_get_state asked stp in
              let (r2, cfg') = rstp.port_get_cfg port.port_index cfg stp in
              if is_ok r
              then some (result_of r2, cfg', state')
              else some (CtlResult.library_error r, cfg, state')))
        | r ↦ some (r, cfg, state)
      ]
