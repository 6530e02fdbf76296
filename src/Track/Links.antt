-- ===== src/Track/Links.antt =====
-- bridge_track.c: interfaces that come, go and change, as the kernel tells the daemon.
use rstp.Prelude.{
  ℕ, Bool, true, false, not, Option, none, some, ◌>>=◌, if◌then◌else◌, ◌==◌, List, [], ◌∷◌, pos,
  ltb_ℤ, pos_part,
}
use rstp.Port.{AdminP2p}
use rstp.Stpm.{StpMode}
use rstp.Library.Config.{StpCfg}
use rstp.Library.PortConfig.{PortCfg}
use rstp.Library.Create.{bridge_id_zero}
use rstp.Track.{
  Kernel, Rstp, IfData, Tracker, find_if, port_list, modify, remove_if, update_bridge_stp_config,
  update_port_stp_config,
}
use rstp.Track.Out.{out_of}
use rstp.Track.Stp.{
  write_if, out_at, add_port_stp, remove_port_stp, init_bridge_stp, clear_bridge_stp, port_indices,
}

-- The defaults of rstplib/stp_in.h, with the masks BR_CFG_ALL and PT_CFG_ALL.
abbrev pub default_bridge_stp_cfg : StpCfg
default_bridge_stp_cfg = record {
  field_mask = 511;
  stp_enabled = StpMode.stp_disabled;
  bridge_priority = pos 32768;
  max_age = pos 20;
  hello_time = pos 2;
  forward_delay = pos 15;
  force_version = pos 2;
}

abbrev pub default_port_stp_cfg : PortCfg
default_port_stp_cfg = record {
  field_mask = 127;
  port_priority = pos 128;
  admin_port_path_cost = 0;
  admin_point2point = AdminP2p.p2p_auto;
  admin_edge = false;
  admin_non_stp = false;
  skip_rx = 0;
  skip_tx = 0;
}

-- What `memset` leaves, with the index, the name and the master.
unfoldable pub blank_if : {I : Type 0} → ℕ → List ℕ → Option ℕ → IfData I
blank_if if_index name master = record {
  if_index = if_index;
  up = false;
  name = name;
  is_bridge = elim master [ none ↦ true | some br ↦ false ];
  do_stp = false;
  stp_up = false;
  stp = none;
  bridge_id = bridge_id_zero;
  bridge_priority = pos 0;
  max_age = pos 0;
  hello_time = pos 0;
  forward_delay = pos 0;
  force_version = pos 0;
  speed = 0;
  duplex = 0;
  master = master;
  port_index = pos 0;
  port_priority = pos 0;
  admin_port_path_cost = 0;
  admin_point2point = AdminP2p.p2p_force_true;
  admin_edge = false;
  admin_non_stp = false;
}

abbrev pub same : Bool → Bool → Bool
same true b = b
same false b = not b

module _ (rstp : Rstp) (kernel : Kernel) where
  abbrev name_of : ℕ → List ℕ
  name_of if_index = elim (kernel.if_indextoname if_index) [ none ↦ [] | some name ↦ name ]

  abbrev pub new_bridge : ℕ → IfData rstp.Instance
  unfolding update_bridge_stp_config blank_if
  new_bridge if_index =
      update_bridge_stp_config default_bridge_stp_cfg (blank_if if_index (name_of if_index) none)

  abbrev pub new_slave : ℕ → ℕ → IfData rstp.Instance
  unfolding update_port_stp_config blank_if
  new_slave br_index if_index =
      update_port_stp_config default_port_stp_cfg
        (blank_if if_index (name_of if_index) (some br_index))

  abbrev pub add_if : IfData rstp.Instance → Tracker rstp.Instance → Tracker rstp.Instance
  add_if p t = record t { if_head = p ∷ t.if_head }

  -- `create_if` without a bridge. `malloc` is taken to succeed.
  unfoldable pub create_bridge : ℕ → Tracker rstp.Instance → Tracker rstp.Instance
  unfolding update_bridge_stp_config blank_if
  create_bridge if_index t = add_if (new_bridge if_index) t

  -- `create_if` with a bridge: the port is bound to STP if the bridge runs it. The port is in the
  -- bridge's list by then, and in `if_head` only afterwards, which the library does not see.
  unfoldable pub create_port : ℕ → ℕ → Tracker rstp.Instance → Option (Tracker rstp.Instance)
  unfolding find_if add_port_stp update_port_stp_config blank_if
  create_port br_index if_index t = find_if br_index t.if_head >>= (λ br.
      let t' = add_if (new_slave br_index if_index) t in
      if br.stp_up
      then add_port_stp rstp kernel br_index if_index t' >>= (λ (added, t2). some t2)
      else some t')

  abbrev pub drop_if : ℕ → Tracker rstp.Instance → Tracker rstp.Instance
  unfolding remove_if
  drop_if if_index t = record t { if_head = remove_if if_index t.if_head }

  -- `delete_if` for a port.
  unfoldable pub delete_port : ℕ → Tracker rstp.Instance → Option (Tracker rstp.Instance)
  unfolding find_if remove_if remove_port_stp
  delete_port if_index t = find_if if_index t.if_head >>= (λ ifc. ifc.master >>= (λ br_index.
      find_if br_index t.if_head >>= (λ br.
        (if br.stp_up then remove_port_stp rstp kernel br_index if_index t else some t)
        >>= (λ t'. some (drop_if if_index t')))))

  -- `while (ifc->port_list) delete_if (ifc->port_list)`
  unfoldable pub delete_ports : List ℕ → Tracker rstp.Instance → Option (Tracker rstp.Instance)
  unfolding delete_port
  delete_ports [] t = some t
  delete_ports (p ∷ rest) t = delete_port p t >>= delete_ports rest

  -- `delete_if` for a bridge.
  unfoldable pub delete_bridge : ℕ → Tracker rstp.Instance → Option (Tracker rstp.Instance)
  unfolding clear_bridge_stp delete_ports remove_if
  delete_bridge br_index t = clear_bridge_stp rstp kernel br_index t >>= (λ t'.
      delete_ports (port_indices rstp kernel br_index t') t' >>= (λ t2. some (drop_if br_index t2)))

  unfoldable pub delete_if :
      IfData rstp.Instance → Tracker rstp.Instance → Option (Tracker rstp.Instance)
  unfolding delete_bridge delete_port
  delete_if ifc t =
      let as_bridge = delete_bridge ifc.if_index t in
      let as_port = delete_port ifc.if_index t in if ifc.is_bridge then as_bridge else as_port

  -- `stp_enabled`: 2 is STP in user space.
  unfoldable pub stp_enabled : IfData rstp.Instance → Bool
  stp_enabled br = elim (kernel.stp_state br.name) [ none ↦ false | some state ↦ state == 2 ]

  -- `set_br_up`; the result of `init_bridge_stp` is not read.
  unfoldable pub set_br_up :
      IfData rstp.Instance → Bool → Tracker rstp.Instance → Option (Tracker rstp.Instance)
  unfolding modify stp_enabled init_bridge_stp clear_bridge_stp
  set_br_up br up t =
      let t' = write_if rstp kernel br.if_index (λ b. record b { up = up }) t in
      let stp_up = stp_enabled br in
      if same br.stp_up stp_up
      then some t'
      else if stp_up
      then init_bridge_stp rstp kernel br.if_index t' >>= (λ (r, t2). some t2)
      else clear_bridge_stp rstp kernel br.if_index t'

  -- The speed and the duplex of a link that is up: unknown ones are 10 and half.
  abbrev link_speed : IfData rstp.Instance → ℕ
  link_speed ifc =
      let (speed, duplex) = kernel.ethtool_get_speed_duplex ifc.name in
      if ltb_ℤ speed (pos 0) then 10 else pos_part speed

  abbrev link_duplex : IfData rstp.Instance → ℕ
  link_duplex ifc =
      let (speed, duplex) = kernel.ethtool_get_speed_duplex ifc.name in
      if ltb_ℤ duplex (pos 0) then 0 else pos_part duplex

  -- The interface after the first half of `set_if_up`.
  unfoldable pub link_set : Bool → IfData rstp.Instance → IfData rstp.Instance
  link_set true ifc = record ifc { up = true; speed = link_speed ifc; duplex = link_duplex ifc }
  link_set false ifc = record ifc { up = false }

  -- The second half: what has changed is told to the library.
  unfoldable pub notify :
      IfData rstp.Instance
      → IfData rstp.Instance
      → ℕ
      → Tracker rstp.Instance
      → rstp.Instance
      → rstp.Instance
  unfolding out_of port_list
  notify old new br_index t stp =
      let stp1 =
        if old.speed == new.speed
        then stp
        else rstp.changed_port_speed new.port_index new.speed stp in
      let stp2 =
        if old.duplex == new.duplex then stp1 else rstp.changed_port_duplex new.port_index stp1 in
      if same old.up new.up
      then stp2
      else rstp.enable_port (out_at rstp kernel br_index t) new.port_index new.up stp2

  -- `set_if_up`
  unfoldable pub set_if_up :
      IfData rstp.Instance → Bool → Tracker rstp.Instance → Option (Tracker rstp.Instance)
  unfolding find_if modify link_set notify
  set_if_up ifc up t =
      let new = link_set up ifc in
      let t' = write_if rstp kernel ifc.if_index (link_set up) t in
      ifc.master >>= (λ br_index. find_if br_index t'.if_head >>= (λ br.
        if not br.stp_up
        then some t'
        else br.stp >>= (λ stp. some (
            write_if rstp kernel br_index
              (λ b. record b { stp = some (notify ifc new br_index t' stp) }) t'))))
