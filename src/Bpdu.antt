-- ===== src/Bpdu.antt =====
-- rstplib/stp_bpdu.h: the layout of a BPDU. A C array of bytes is a list of numbers.
use rstp.Prelude.{ℕ, List, Bool, ◌/◌, ◌%◌, ◌^◌, ◌==◌}

pub record EthHeader : Type 0 where
  pub len8023 : List ℕ  -- [2]
  pub dsap : ℕ
  pub ssap : ℕ
  pub llc : ℕ

pub record BpduHeader : Type 0 where
  pub protocol : List ℕ  -- [2]
  pub version : ℕ
  pub bpdu_type : ℕ

pub record BpduBody : Type 0 where
  pub flags : ℕ
  pub root_id : List ℕ  -- [8]
  pub root_path_cost : List ℕ  -- [4]
  pub bridge_id : List ℕ  -- [8]
  pub port_id : List ℕ  -- [2]
  pub message_age : List ℕ  -- [2]
  pub max_age : List ℕ  -- [2]
  pub hello_time : List ℕ  -- [2]
  pub forward_delay : List ℕ  -- [2]

pub record Bpdu : Type 0 where
  pub eth : EthHeader
  pub hdr : BpduHeader
  pub body : BpduBody
  pub ver_1_len : List ℕ  -- [2]

abbrev pub min_bpdu : ℕ
min_bpdu = 7

abbrev pub bpdu_l_sap : ℕ
bpdu_l_sap = 0x42

abbrev pub llc_ui : ℕ
llc_ui = 0x03

abbrev pub bpdu_version_id : ℕ
bpdu_version_id = 0x00

abbrev pub bpdu_version_rapid_id : ℕ
bpdu_version_rapid_id = 0x02

abbrev pub bpdu_topo_change_type : ℕ
bpdu_topo_change_type = 0x80

abbrev pub bpdu_config_type : ℕ
bpdu_config_type = 0x00

abbrev pub bpdu_rstp : ℕ
bpdu_rstp = 0x02

-- `flags & BIT` for the eight bits, as a test.
abbrev pub bit : ℕ → ℕ → Bool
bit n flags = flags / 2 ^ n % 2 == 1

-- `PORT_ROLE_MASK` and `PORT_ROLE_OFFS`: bits 2 and 3.
abbrev pub port_role_of : ℕ → ℕ
port_role_of flags = flags / 4 % 4

abbrev pub topology_change_bit : ℕ → Bool
topology_change_bit = bit 0

abbrev pub proposal_bit : ℕ → Bool
proposal_bit = bit 1

abbrev pub learn_bit : ℕ → Bool
learn_bit = bit 4

abbrev pub forward_bit : ℕ → Bool
forward_bit = bit 5

abbrev pub agreement_bit : ℕ → Bool
agreement_bit = bit 6

abbrev pub topology_change_ack_bit : ℕ → Bool
topology_change_ack_bit = bit 7

abbrev pub rstp_port_role_unkn : ℕ
rstp_port_role_unkn = 0x00

abbrev pub rstp_port_role_altback : ℕ
rstp_port_role_altback = 0x01

abbrev pub rstp_port_role_root : ℕ
rstp_port_role_root = 0x02

abbrev pub rstp_port_role_desgn : ℕ
rstp_port_role_desgn = 0x03
