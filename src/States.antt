-- ===== src/States.antt =====
-- The states of the eleven machines: the `STATES` list of each rstplib file, with BEGIN
-- (rstplib/statmch.h), the value 9999 that every machine starts from.

-- rstplib/receive.c
pub data ReceiveState : Type 0 where
  begin discard receive : ReceiveState

-- rstplib/migrate.c
pub data MigrateState : Type 0 where
  begin checking_rstp selecting_stp sensing : MigrateState

-- rstplib/brdgdet.c
pub data BrdgdetState : Type 0 where
  begin edge not_edge : BrdgdetState

-- rstplib/p2p.c
pub data P2pState : Type 0 where
  begin init recompute stable : P2pState

-- rstplib/pcost.c
pub data PcostState : Type 0 where
  begin auto force stable : PcostState

-- rstplib/sttrans.c
pub data SttransState : Type 0 where
  begin discarding learning forwarding : SttransState

-- rstplib/topoch.c
pub data TopochState : Type 0 where
  begin inactive learning detected active acknowledged propagating : TopochState
  notified_tc notified_tcn : TopochState

-- rstplib/transmit.c
pub data TransmitState : Type 0 where
  begin transmit_init transmit_periodic idle : TransmitState
  transmit_rstp transmit_tcn transmit_config : TransmitState

-- rstplib/portinfo.c
pub data InfoState : Type 0 where
  begin disabled aged update current receive : InfoState
  superior_designated repeated_designated inferior_designated not_designated other : InfoState

-- rstplib/roletrns.c
pub data RoletrnsState : Type 0 where
  begin init_port disable_port disabled_port : RoletrnsState
  root_port root_proposed root_forward root_agreed root_learn reroot rerooted : RoletrnsState
  designated_port designated_propose designated_forward designated_synced : RoletrnsState
  designated_learn designated_retired designated_discard : RoletrnsState
  alternate_port alternate_proposed alternate_agreed block_port backup_port : RoletrnsState

-- rstplib/rolesel.c
pub data RoleselState : Type 0 where
  begin init_bridge role_selection : RoleselState
