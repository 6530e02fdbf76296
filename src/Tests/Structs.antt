-- ===== src/Tests/Structs.antt =====
-- The structs of the control protocol on a machine where a byte holds any number.
use rstp.Prelude.{
  ℕ, zero, suc, ◌+◌, ◌≤◌, ◌≡◌, refl, sym, ap, ◌∙◌, Bool, true, false, ◌&&◌, ◌==◌, List, [], ◌∷◌,
  ◌++◌, length, take, drop, take-append, length-append, length-take, ℤ, pos, negsuc, arith,
}
use rstp.Vector.{BridgeId}
use rstp.Port.{AdminP2p}
use rstp.Stpm.{StpMode}
use rstp.Library.Config.{StpCfg}
use rstp.Library.PortConfig.{PortCfg}
use rstp.Library.State.{PortState, UidStpState, UidPortState}
use rstp.Control.{Command, In, Out, Layout, Structs, msg_buf_len}

pub drop-append : (xs ys : List ℕ) → drop (length xs) (xs ++ ys) ≡ ys
drop-append [] ys = refl
drop-append (x ∷ xs) ys = drop-append xs ys

pub both : (a b : Bool) → (a && b) ≡ true → (a ≡ true) × (b ≡ true)
both a b e = ground arith

pub eq_of_test : (m n : ℕ) → (m == n) ≡ true → m ≡ n
eq_of_test m n e = ground arith

-- A struct of two parts.
abbrev pair_of : {A B : Type 0} → Layout A → Layout B → Layout (A × B)
pair_of a b = record {
  size = a.size + b.size;
  bytes = λ (x, y). a.bytes x ++ b.bytes y;
  object = λ bytes. (a.object (take a.size bytes), b.object (drop a.size bytes));
  fits = λ (x, y). a.fits x && b.fits y;
  length-bytes = λ (x, y).
      length-append (a.bytes x) (b.bytes y) ∙ (λ i. a.length-bytes x i + b.length-bytes y i);
  object-bytes = λ (x, y) e.
      let (left, right) = both (a.fits x) (b.fits y) e in
      let n = a.length-bytes x in
      let whole = a.bytes x ++ b.bytes y in
      (λ i. (
        (ap (λ k. a.object (take k whole)) (sym n)
              ∙ ap a.object (take-append (a.bytes x) (b.bytes y))
              ∙ a.object-bytes x left)
            i,
        (ap (λ k. b.object (drop k whole)) (sym n)
              ∙ ap b.object (drop-append (a.bytes x) (b.bytes y))
              ∙ b.object-bytes y right)
            i,
      ));
}

-- A struct laid out as another one that has its fields.
abbrev via :
    {A B : Type 0} → Layout B → (f : A → B) (g : B → A) → ((a : A) → g (f a) ≡ a) → Layout A
via b f g e = record {
  size = b.size;
  bytes = λ a. b.bytes (f a);
  object = λ bytes. g (b.object bytes);
  fits = λ a. b.fits (f a);
  length-bytes = λ a. b.length-bytes (f a);
  object-bytes = λ a h. ap g (b.object-bytes (f a) h) ∙ e a;
}

abbrev of_unit : Layout (Unit {0})
of_unit = record {
  size = 0;
  bytes = λ x. [];
  object = λ bytes. tt;
  fits = λ x. true;
  length-bytes = λ x. refl;
  object-bytes = λ x e. refl;
}

abbrev first_byte : List ℕ → ℕ
first_byte [] = 0
first_byte (n ∷ bytes) = n

abbrev of_nat : Layout ℕ
of_nat = record {
  size = 1;
  bytes = λ n. n ∷ [];
  object = first_byte;
  fits = λ n. true;
  length-bytes = λ n. refl;
  object-bytes = λ n e. refl;
}

abbrev int_code : ℤ → ℕ × ℕ
int_code (pos n) = (0, n)
int_code (negsuc n) = (1, n)

abbrev int_value : ℕ × ℕ → ℤ
int_value (zero, n) = pos n
int_value (suc s, n) = negsuc n

pub int_value-int_code : (n : ℤ) → int_value (int_code n) ≡ n
int_value-int_code (pos n) = refl
int_value-int_code (negsuc n) = refl

abbrev of_int : Layout ℤ
of_int = via (pair_of of_nat of_nat) int_code int_value int_value-int_code

abbrev bool_code : Bool → ℕ
bool_code true = 0
bool_code false = 1

abbrev bool_value : ℕ → Bool
bool_value zero = true
bool_value (suc k) = false

pub bool_value-bool_code : (x : Bool) → bool_value (bool_code x) ≡ x
bool_value-bool_code true = refl
bool_value-bool_code false = refl

abbrev of_bool : Layout Bool
of_bool = via of_nat bool_code bool_value bool_value-bool_code

abbrev mode_code : StpMode → ℕ
mode_code StpMode.stp_disabled = 0
mode_code StpMode.stp_enabled = 1

abbrev mode_value : ℕ → StpMode
mode_value zero = StpMode.stp_disabled
mode_value (suc k) = StpMode.stp_enabled

pub mode_value-mode_code : (x : StpMode) → mode_value (mode_code x) ≡ x
mode_value-mode_code StpMode.stp_disabled = refl
mode_value-mode_code StpMode.stp_enabled = refl

abbrev of_mode : Layout StpMode
of_mode = via of_nat mode_code mode_value mode_value-mode_code

abbrev p2p_code : AdminP2p → ℕ
p2p_code AdminP2p.p2p_force_true = 0
p2p_code AdminP2p.p2p_force_false = 1
p2p_code AdminP2p.p2p_auto = 2

abbrev p2p_value : ℕ → AdminP2p
p2p_value zero = AdminP2p.p2p_force_true
p2p_value (suc zero) = AdminP2p.p2p_force_false
p2p_value (suc (suc k)) = AdminP2p.p2p_auto

pub p2p_value-p2p_code : (x : AdminP2p) → p2p_value (p2p_code x) ≡ x
p2p_value-p2p_code AdminP2p.p2p_force_true = refl
p2p_value-p2p_code AdminP2p.p2p_force_false = refl
p2p_value-p2p_code AdminP2p.p2p_auto = refl

abbrev of_p2p : Layout AdminP2p
of_p2p = via of_nat p2p_code p2p_value p2p_value-p2p_code

abbrev state_code : PortState → ℕ
state_code PortState.disabled = 0
state_code PortState.discarding = 1
state_code PortState.learning = 2
state_code PortState.forwarding = 3
state_code PortState.non_stp = 4

abbrev state_value : ℕ → PortState
state_value zero = PortState.disabled
state_value (suc zero) = PortState.discarding
state_value (suc (suc zero)) = PortState.learning
state_value (suc (suc (suc zero))) = PortState.forwarding
state_value (suc (suc (suc (suc k)))) = PortState.non_stp

pub state_value-state_code : (x : PortState) → state_value (state_code x) ≡ x
state_value-state_code PortState.disabled = refl
state_value-state_code PortState.discarding = refl
state_value-state_code PortState.learning = refl
state_value-state_code PortState.forwarding = refl
state_value-state_code PortState.non_stp = refl

abbrev of_port_state : Layout PortState
of_port_state = via of_nat state_code state_value state_value-state_code

-- Six bytes of an address.
abbrev padded : List ℕ → List ℕ
padded addr = take 6 (addr ++ 0 ∷ 0 ∷ 0 ∷ 0 ∷ 0 ∷ 0 ∷ [])

abbrev of_addr : Layout (List ℕ)
of_addr = record {
  size = 6;
  bytes = padded;
  object = λ bytes. bytes;
  fits = λ addr. length addr == 6;
  length-bytes = λ addr.
      length-take 6 (addr ++ 0 ∷ 0 ∷ 0 ∷ 0 ∷ 0 ∷ 0 ∷ [])
        (omega (arith, length-append addr (0 ∷ 0 ∷ 0 ∷ 0 ∷ 0 ∷ 0 ∷ [])));
  object-bytes = λ addr e.
      ap (λ k. take k (addr ++ 0 ∷ 0 ∷ 0 ∷ 0 ∷ 0 ∷ 0 ∷ [])) (sym (eq_of_test (length addr) 6 e))
      ∙ take-append addr (0 ∷ 0 ∷ 0 ∷ 0 ∷ 0 ∷ 0 ∷ []);
}

abbrev of_bridge_id : Layout BridgeId
of_bridge_id =
    via (pair_of of_nat of_addr) (λ id. (id.prio, id.addr))
      (λ (prio, addr). record { prio = prio; addr = addr }) (λ id. refl)

abbrev of_bridge_cfg : Layout StpCfg
of_bridge_cfg =
    via
      (pair_of (pair_of of_nat (pair_of of_mode of_int))
        (pair_of (pair_of of_int of_int) (pair_of of_int of_int)))
      (λ x. (
        (x.field_mask, (x.stp_enabled, x.bridge_priority)),
        ((x.max_age, x.hello_time), (x.forward_delay, x.force_version)),
      ))
      (λ (
        (field_mask, (stp_enabled, bridge_priority)),
        ((max_age, hello_time), (forward_delay, force_version)),
      ).
        record {
          field_mask = field_mask;
          stp_enabled = stp_enabled;
          bridge_priority = bridge_priority;
          max_age = max_age;
          hello_time = hello_time;
          forward_delay = forward_delay;
          force_version = force_version;
        })
      (λ x. refl)

abbrev of_port_cfg : Layout PortCfg
of_port_cfg =
    via
      (pair_of (pair_of (pair_of of_nat of_int) (pair_of of_nat of_p2p))
        (pair_of (pair_of of_bool of_bool) (pair_of of_nat of_nat)))
      (λ x. (
        ((x.field_mask, x.port_priority), (x.admin_port_path_cost, x.admin_point2point)),
        ((x.admin_edge, x.admin_non_stp), (x.skip_rx, x.skip_tx)),
      ))
      (λ (
        ((field_mask, port_priority), (admin_port_path_cost, admin_point2point)),
        ((admin_edge, admin_non_stp), (skip_rx, skip_tx)),
      ).
        record {
          field_mask = field_mask;
          port_priority = port_priority;
          admin_port_path_cost = admin_port_path_cost;
          admin_point2point = admin_point2point;
          admin_edge = admin_edge;
          admin_non_stp = admin_non_stp;
          skip_rx = skip_rx;
          skip_tx = skip_tx;
        })
      (λ x. refl)

abbrev of_bridge_state : Layout UidStpState
of_bridge_state =
    via
      (pair_of
        (pair_of (pair_of of_nat (pair_of of_mode of_bridge_id))
          (pair_of of_nat (pair_of of_nat of_nat)))
        (pair_of (pair_of of_bool (pair_of of_nat of_nat))
          (pair_of of_nat (pair_of of_nat of_bridge_id))))
      (λ x. (
        (
          (x.vlan_id, (x.stp_enabled, x.designated_root)),
          (x.root_path_cost, (x.time_since_topology_change, x.topology_change_count)),
        ),
        (
          (x.topology_change, (x.root_port, x.max_age)),
          (x.hello_time, (x.forward_delay, x.bridge_id)),
        ),
      ))
      (λ (
        (
          (vlan_id, (stp_enabled, designated_root)),
          (root_path_cost, (time_since_topology_change, topology_change_count)),
        ),
        ((topology_change, (root_port, max_age)), (hello_time, (forward_delay, bridge_id))),
      ).
        record {
          vlan_id = vlan_id;
          stp_enabled = stp_enabled;
          designated_root = designated_root;
          root_path_cost = root_path_cost;
          time_since_topology_change = time_since_topology_change;
          topology_change_count = topology_change_count;
          topology_change = topology_change;
          root_port = root_port;
          max_age = max_age;
          hello_time = hello_time;
          forward_delay = forward_delay;
          bridge_id = bridge_id;
        })
      (λ x. refl)

abbrev of_port_details : Layout UidPortState
of_port_details =
    via
      (pair_of
        (pair_of
          (pair_of (pair_of of_int (pair_of of_nat of_port_state))
            (pair_of of_nat (pair_of of_bridge_id of_nat)))
          (pair_of (pair_of of_bridge_id (pair_of of_nat of_nat))
            (pair_of (pair_of of_nat of_nat) (pair_of of_nat of_nat))))
        (pair_of
          (pair_of (pair_of of_nat (pair_of of_nat of_nat))
            (pair_of (pair_of of_nat of_nat) (pair_of of_nat of_nat)))
          (pair_of (pair_of of_nat (pair_of of_nat of_nat))
            (pair_of (pair_of of_bool of_bool) (pair_of of_bool of_bool)))))
      (λ x. (
        (
          (
            (x.port_no, (x.port_id, x.state)),
            (x.path_cost, (x.designated_root, x.designated_cost)),
          ),
          (
            (x.designated_bridge, (x.designated_port, x.rx_cfg_bpdu_cnt)),
            ((x.rx_rstp_bpdu_cnt, x.rx_tcn_bpdu_cnt), (x.edge_delay_while, x.fd_while)),
          ),
        ),
        (
          (
            (x.hello_when, (x.mdelay_while, x.rb_while)),
            ((x.rcvd_info_while, x.rr_while), (x.tc_while, x.tx_count)),
          ),
          (
            (x.uptime, (x.oper_port_path_cost, x.role)),
            ((x.oper_point2point, x.oper_edge), (x.oper_stp_neigb, x.top_change_ack)),
          ),
        ),
      ))
      (λ (
        (
          ((port_no, (port_id, state)), (path_cost, (designated_root, designated_cost))),
          (
            (designated_bridge, (designated_port, rx_cfg_bpdu_cnt)),
            ((rx_rstp_bpdu_cnt, rx_tcn_bpdu_cnt), (edge_delay_while, fd_while)),
          ),
        ),
        (
          (
            (hello_when, (mdelay_while, rb_while)),
            ((rcvd_info_while, rr_while), (tc_while, tx_count)),
          ),
          (
            (uptime, (oper_port_path_cost, role)),
            ((oper_point2point, oper_edge), (oper_stp_neigb, top_change_ack)),
          ),
        ),
      ).
        record {
          port_no = port_no;
          port_id = port_id;
          state = state;
          path_cost = path_cost;
          designated_root = designated_root;
          designated_cost = designated_cost;
          designated_bridge = designated_bridge;
          designated_port = designated_port;
          rx_cfg_bpdu_cnt = rx_cfg_bpdu_cnt;
          rx_rstp_bpdu_cnt = rx_rstp_bpdu_cnt;
          rx_tcn_bpdu_cnt = rx_tcn_bpdu_cnt;
          edge_delay_while = edge_delay_while;
          fd_while = fd_while;
          hello_when = hello_when;
          mdelay_while = mdelay_while;
          rb_while = rb_while;
          rcvd_info_while = rcvd_info_while;
          rr_while = rr_while;
          tc_while = tc_while;
          tx_count = tx_count;
          uptime = uptime;
          oper_port_path_cost = oper_port_path_cost;
          role = role;
          oper_point2point = oper_point2point;
          oper_edge = oper_edge;
          oper_stp_neigb = oper_stp_neigb;
          top_change_ack = top_change_ack;
        })
      (λ x. refl)

abbrev layout_in : (c : Command) → Layout (In c)
layout_in Command.enable_bridge_rstp = pair_of of_nat of_int
layout_in Command.get_bridge_state = of_nat
layout_in Command.set_bridge_config = pair_of of_nat of_bridge_cfg
layout_in Command.get_port_state = pair_of of_nat of_nat
layout_in Command.set_port_config =
    via (pair_of of_nat (pair_of of_nat of_port_cfg)) (λ (i, j, cfg). (i, (j, cfg)))
      (λ (i, (j, cfg)). (i, j, cfg)) (λ x. refl)
layout_in Command.set_debug_level = of_int

abbrev layout_out : (c : Command) → Layout (Out c)
layout_out Command.enable_bridge_rstp = of_unit
layout_out Command.get_bridge_state = pair_of of_bridge_cfg of_bridge_state
layout_out Command.set_bridge_config = of_unit
layout_out Command.get_port_state = pair_of of_port_cfg of_port_details
layout_out Command.set_port_config = of_unit
layout_out Command.set_debug_level = of_unit

pub layout_in-le : (c : Command) → (layout_in c).size ≤ msg_buf_len
layout_in-le Command.enable_bridge_rstp = omega arith
layout_in-le Command.get_bridge_state = omega arith
layout_in-le Command.set_bridge_config = omega arith
layout_in-le Command.get_port_state = omega arith
layout_in-le Command.set_port_config = omega arith
layout_in-le Command.set_debug_level = omega arith

pub layout_out-le : (c : Command) → (layout_out c).size ≤ msg_buf_len
layout_out-le Command.enable_bridge_rstp = omega arith
layout_out-le Command.get_bridge_state = omega arith
layout_out-le Command.set_bridge_config = omega arith
layout_out-le Command.get_port_state = omega arith
layout_out-le Command.set_port_config = omega arith
layout_out-le Command.set_debug_level = omega arith

abbrev pub the_structs : Structs
the_structs = record {
  layout_in = layout_in;
  layout_out = layout_out;
  in-le = layout_in-le;
  out-le = layout_out-le;
}
