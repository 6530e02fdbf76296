-- ===== src/Track/Commands.antt =====
-- bridge_track.c: the commands of rstpctl.
use rstp.Prelude.{
  ℕ, Bool, true, false, not, ◌&&◌, ◌||◌, Option, none, some, ◌>>=◌, if◌then◌else◌, ◌==◌,
}
use rstp.Library.{StpError, is_ok}
use rstp.Library.Config.{StpCfg, br_cfg_state}
use rstp.Start.{is_enabled}
use rstp.Library.PortConfig.{PortCfg}
use rstp.Track.{
  Kernel, Rstp, IfData, Tracker, find_if, modify, update_bridge_stp_config, update_port_stp_config,
}
use rstp.Track.Stp.{write_if, in_instance, init_bridge_stp, clear_bridge_stp}
use rstp.Track.Links.{create_bridge, same}
use rstp.Track.Notify.{is_new_bridge}

-- What a command returns: the errors of ctl_functions.h, those of the library, or the -1 of
-- `init_bridge_stp`.
pub data CtlResult : Type 0 where
  done : CtlResult
  interface_not_a_bridge bridge_rstp_not_enabled bridge_is_down : CtlResult
  port_does_not_belong_to_bridge : CtlResult
  library_error : StpError → CtlResult
  init_failed : CtlResult

-- The configuration as `STP_IN_stpm_set_cfg` leaves it: a request to stop STP clears the mask.
abbrev pub left_cfg : StpCfg → StpCfg
left_cfg cfg = record cfg {
  field_mask =
      if br_cfg_state cfg.field_mask && not (is_enabled cfg.stp_enabled) then 0 else cfg.field_mask;
}

module _ (rstp : Rstp) (kernel : Kernel) where
  -- CTL_CHECK_BRIDGE: `done` is a bridge that runs STP.
  unfoldable pub check_bridge : ℕ → Tracker rstp.Instance → CtlResult
  unfolding find_if
  check_bridge br_index t = elim (find_if br_index t.if_head) [
    | none ↦ CtlResult.interface_not_a_bridge
    | some br ↦
        if not br.is_bridge
        then CtlResult.interface_not_a_bridge
        else if not br.do_stp
        then CtlResult.bridge_rstp_not_enabled
        else if not br.stp_up
        then CtlResult.bridge_is_down
        else CtlResult.done
  ]

  abbrev belongs_to : ℕ → IfData rstp.Instance → Bool
  belongs_to br_index port = elim port.master [ none ↦ false | some m ↦ m == br_index ]

  -- CTL_CHECK_BRIDGE_PORT
  unfoldable pub check_bridge_port : ℕ → ℕ → Tracker rstp.Instance → CtlResult
  unfolding find_if check_bridge
  check_bridge_port br_index port_index t = elim (check_bridge br_index t) [
    | CtlResult.done ↦ elim (find_if port_index t.if_head) [
      | none ↦ CtlResult.port_does_not_belong_to_bridge
      | some port ↦
          if port.is_bridge || not (belongs_to br_index port)
          then CtlResult.port_does_not_belong_to_bridge
          else CtlResult.done
    ]
    | r ↦ r
  ]

  -- The part of `CTL_enable_bridge_rstp` behind its checks.
  unfoldable pub set_do_stp :
      IfData rstp.Instance
      → Bool
      → Tracker rstp.Instance
      → Option (CtlResult × Tracker rstp.Instance)
  unfolding modify init_bridge_stp clear_bridge_stp
  set_do_stp br enable t =
      let t' = write_if rstp kernel br.if_index (λ b. record b { do_stp = enable }) t in
      if same br.do_stp enable
      then some (CtlResult.done, t)
      else if not br.up
      then some (CtlResult.done, t')
      else if enable
      then init_bridge_stp rstp kernel br.if_index t'
        >>= (λ (ok, t2). some (if ok then CtlResult.done else CtlResult.init_failed, t2))
      else clear_bridge_stp rstp kernel br.if_index t' >>= (λ t2. some (CtlResult.done, t2))

  -- `CTL_enable_bridge_rstp`
  unfoldable pub enable_bridge_rstp :
      ℕ → Bool → Tracker rstp.Instance → Option (CtlResult × Tracker rstp.Instance)
  unfolding find_if create_bridge set_do_stp
  enable_bridge_rstp br_index enable t =
      let known : Bool = elim (find_if br_index t.if_head) [ none ↦ false | some br ↦ true ] in
      let t1 =
        if not known && is_new_bridge rstp kernel br_index
        then create_bridge rstp kernel br_index t
        else t in
      elim (find_if br_index t1.if_head) [
        | none ↦ some (CtlResult.interface_not_a_bridge, t1)
        | some br ↦
            if not br.is_bridge
            then some (CtlResult.interface_not_a_bridge, t1)
            else set_do_stp br enable t1 >>= (λ (r, t2). some (r, record t2 { stp_up = true }))
      ]

  -- The configuration of a bridge is kept where the library takes it.
  abbrev pub keep_bridge_cfg :
      ℕ → StpCfg → StpError → Tracker rstp.Instance → CtlResult × Tracker rstp.Instance
  unfolding modify update_bridge_stp_config
  keep_bridge_cfg br_index cfg r t =
      if is_ok r
      then (
        CtlResult.done,
        write_if rstp kernel br_index (update_bridge_stp_config (left_cfg cfg)) t,
      )
      else (CtlResult.library_error r, t)

  -- `CTL_set_bridge_config`
  unfoldable pub set_bridge_config :
      ℕ → StpCfg → Tracker rstp.Instance → Option (CtlResult × Tracker rstp.Instance)
  unfolding check_bridge in_instance modify update_bridge_stp_config
  set_bridge_config br_index cfg t = elim (check_bridge br_index t) [
    | CtlResult.done ↦
        in_instance rstp kernel br_index (λ out init. rstp.stpm_set_cfg out init cfg) t
        >>= (λ (r, t'). some (keep_bridge_cfg br_index cfg r t'))
    | r ↦ some (r, t)
  ]

  abbrev pub keep_port_cfg :
      ℕ → PortCfg → StpError → Tracker rstp.Instance → CtlResult × Tracker rstp.Instance
  unfolding modify update_port_stp_config
  keep_port_cfg port_index cfg r t =
      if is_ok r
      then (CtlResult.done, write_if rstp kernel port_index (update_port_stp_config cfg) t)
      else (CtlResult.library_error r, t)

  -- `CTL_set_port_config`
  unfoldable pub set_port_config :
      ℕ → ℕ → PortCfg → Tracker rstp.Instance → Option (CtlResult × Tracker rstp.Instance)
  unfolding check_bridge_port find_if in_instance modify update_port_stp_config
  set_port_config br_index port_index cfg t = elim (check_bridge_port br_index port_index t) [
    | CtlResult.done ↦ find_if port_index t.if_head >>= (λ port.
        in_instance rstp kernel br_index (λ out init. rstp.set_port_cfg out port.port_index cfg) t
        >>= (λ (r, t'). some (keep_port_cfg port_index cfg r t')))
    | r ↦ some (r, t)
  ]
