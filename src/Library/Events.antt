-- ===== src/Library/Events.antt =====
-- rstplib/stp_in.c: what the daemon tells the library: links, received frames, seconds.
use rstp.Prelude.{
  ℕ, ◌+◌, ◌-◌, Bool, true, false, ◌&&◌, ◌||◌, not, Option, none, some, ◌>>=◌, if◌then◌else◌, ◌==◌,
  ltb, List, [], ◌∷◌, map,
}
use rstp.Bpdu.{Bpdu, min_bpdu, bpdu_l_sap, llc_ui}
use rstp.Vector.{get_short}
use rstp.Port.{Port}
use rstp.Stpm.{Stpm, Bridge}
use rstp.Info.{rx_bpdu}
use rstp.Start.{port_init, one_second, is_enabled}
use rstp.Library.{
  StpError, stp_ok, stp_vlan_had_not_yet_been_created, stp_port_is_absent_in_the_vlan,
  stp_had_not_yet_been_enabled_on_the_vlan, stp_nothing_to_do, stp_big_len8023_format,
  stp_small_len8023_format, stp_len8023_format_gt_len, stp_not_proper_802_3_packet,
  stp_invalid_protocol, Library, Env, stpm_find, stpm_put, port_find, port_put, stpm_update,
}

abbrev pub same_bool : Bool → Bool → Bool
same_bool true b = b
same_bool false b = not b

abbrev reselect_port : Port → Port
reselect_port port = record port { reselect = true; selected = false }

abbrev clear_counters : Port → Port
clear_counters port = record port { rx_cfg_bpdu_cnt = 0; rx_rstp_bpdu_cnt = 0; rx_tcn_bpdu_cnt = 0 }

-- `_stp_in_enable_port_on_stpm`, for the port that it finds.
unfoldable pub enable_port_on : Env → Stpm → Bool → Port → Port
unfolding port_init
enable_port_on env stpm enable port =
    let reset : Port = record port { uptime = 0 } in
    let cleared = if enable then clear_counters reset else reset in
    if same_bool port.port_enabled enable
    then port
    else reselect_port (port_init env.out stpm false (record cleared { admin_enable = enable }))

-- `f` on the port of that index, if the bridge has one.
unfoldable pub with_port : ℕ → (Port → Port) → Bridge → Bridge
unfolding port_find port_put
with_port port_index f this = elim (port_find port_index this.ports) [
  | none ↦ this
  | some port ↦ record this { ports = port_put port_index (f port) this.ports }
]

-- `f` on the bridges that are enabled.
unfoldable pub on_enabled : (Bridge → Bridge) → List Bridge → List Bridge
on_enabled f bridges = map (λ b. if is_enabled b.stpm.admin_state then f b else b) bridges

-- `STP_IN_enable_port`; there the machines do not run.
unfoldable pub in_enable_port : Env → ℕ → Bool → Library → Library
unfolding on_enabled with_port enable_port_on
in_enable_port env port_index enable lib = record lib {
  flushed = if enable then lib.flushed else port_index ∷ lib.flushed;
  bridges = on_enabled (λ b. with_port port_index (enable_port_on env b.stpm enable) b) lib.bridges;
}

-- `STP_IN_changed_port_speed`; a `long` is stored in an `unsigned long`.
unfoldable pub in_changed_port_speed : ℕ → ℕ → Library → Library
unfolding on_enabled with_port
in_changed_port_speed port_index speed lib = record lib {
  bridges =
      on_enabled (with_port port_index (λ port. reselect_port (record port { oper_speed = speed })))
        lib.bridges;
}

-- `STP_IN_changed_port_duplex`
unfoldable pub in_changed_port_duplex : ℕ → Library → Library
unfolding on_enabled with_port
in_changed_port_duplex port_index lib = record lib {
  bridges =
      on_enabled
        (with_port port_index (λ port. reselect_port (record port { p2p_recompute = true })))
        lib.bridges;
}

abbrev first_two_zero : List ℕ → Bool
first_two_zero [] = true
first_two_zero (a ∷ []) = a == 0
first_two_zero (a ∷ b ∷ rest) = a == 0 && b == 0

-- `STP_IN_check_bpdu_header`
unfoldable pub check_bpdu_header : Bpdu → ℕ → StpError
unfolding get_short
check_bpdu_header bpdu len =
    let len8023 = get_short bpdu.eth.len8023 in
    if ltb 1500 len8023
    then stp_big_len8023_format
    else if ltb len8023 min_bpdu
    then stp_small_len8023_format
    else if ltb len (len8023 + 14)
    then stp_len8023_format_gt_len
    else if not (bpdu.eth.dsap == bpdu_l_sap)
        || not (bpdu.eth.ssap == bpdu_l_sap)
        || not (bpdu.eth.llc == llc_ui)
    then stp_not_proper_802_3_packet
    else if not (first_two_zero bpdu.hdr.protocol)
    then stp_invalid_protocol
    else stp_ok

-- A frame for a port that the library takes: the port is enabled first if it was not.
unfoldable pub receive_on : Env → Stpm → Bpdu → Port → Port
unfolding enable_port_on rx_bpdu
receive_on env stpm bpdu port =
    let up = if port.port_enabled then port else enable_port_on env stpm true port in
    rx_bpdu stpm bpdu (record up { oper_edge = false; was_init_bpdu = true })

-- What `STP_IN_rx_bpdu` does with the bridge and the port that it has found.
unfoldable pub rx_bpdu_on : Env → ℕ → Bpdu → Bridge → Port → Option (StpError × Bridge)
unfolding port_put receive_on stpm_update
rx_bpdu_on env port_index bpdu this port =
    let skipped : Port = record port { skip_rx = port.skip_rx - 1 } in
    let taken = receive_on env this.stpm bpdu port in
    if ltb 0 port.skip_rx
    then some (stp_nothing_to_do, record this { ports = port_put port_index skipped this.ports })
    else stpm_update env (record this { ports = port_put port_index taken this.ports })
      >>= (λ b. some (stp_ok, b))

-- `STP_IN_rx_bpdu`
unfoldable pub in_rx_bpdu : Env → ℕ → ℕ → Bpdu → Library → Option (StpError × Library)
unfolding stpm_find stpm_put port_find rx_bpdu_on
in_rx_bpdu env vlan_id port_index bpdu lib =
    if lib.dbg_rstp_deny then some (stp_ok, lib) else elim (stpm_find vlan_id lib.bridges) [
      | none ↦ some (stp_vlan_had_not_yet_been_created, lib)
      | some this ↦
          if not (is_enabled this.stpm.admin_state)
          then some (stp_had_not_yet_been_enabled_on_the_vlan, lib)
          else elim (port_find port_index this.ports) [
            | none ↦ some (stp_port_is_absent_in_the_vlan, lib)
            | some port ↦ rx_bpdu_on env port_index bpdu this port >>= (λ (err, b).
                some (err, record lib { bridges = stpm_put vlan_id b lib.bridges }))
          ]
    ]

-- The loop of `STP_IN_one_second`, with the number of bridges that it has run.
unfoldable pub seconds : Env → List Bridge → Option (ℕ × List Bridge)
unfolding one_second
seconds env [] = some (0, [])
seconds env (b ∷ rest) = one_second env.out env.rounds env.fuel b >>= (λ b'.
    seconds env rest
    >>= (λ (n, rest'). some ((if is_enabled b.stpm.admin_state then n + 1 else n), b' ∷ rest')))

-- `STP_IN_one_second`
unfoldable pub in_one_second : Env → Library → Option (ℕ × Library)
unfolding seconds
in_one_second env lib =
    seconds env lib.bridges >>= (λ (n, bridges). some (n, record lib { bridges = bridges }))
