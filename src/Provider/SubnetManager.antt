-- ===== src/Provider/SubnetManager.antt =====
-- ipc/provider/src/manager/subnet.rs: what a client asks of the manager of one subnet, that is of
-- the traits `SubnetManager`, `TopDownFinalityQuery` and `BottomUpCheckpointRelayer`. A method may
-- read and change the world. ipc/sdk/src/subnet.rs: the parameters of a new subnet.
use ipc_client.Base.{ℕ, Bool, Option, List}
use ipc_client.Base.Exec.{Exec}
use ipc_client.Base.Int.{ℤ}
use ipc_client.Base.Map.{Map}
use ipc_client.Base.Text.{Text}
use ipc_client.Sdk.SubnetId.{SubnetId}
use ipc_client.Sdk.Cross.{CrossMsg}
use ipc_client.Provider.Relayer.{QuorumReachedEvent}

pub data ConsensusType : Type 0 where
  mir : ConsensusType

pub record ConstructParams (Address : Type 0) : Type 0 where
  pub parent : SubnetId Address
  pub ipc_gateway_addr : Address
  pub consensus : ConsensusType
  pub min_validators : ℕ
  pub min_validator_stake : ℤ
  pub bottomup_check_period : ℤ
  pub active_validators_limit : ℕ
  pub min_cross_msg_fee : ℤ

pub record TopDownQueryPayload (T : Type 0) : Type 0 where
  pub value : T
  pub block_hash : List ℕ

pub record GetBlockHashResult : Type 0 where
  pub parent_block_hash : List ℕ
  pub block_hash : List ℕ

-- Types of answers that a client only passes on.
pub record Payloads : Type 1 where
  pub SubnetInfo : Type 0
  pub SubnetGenesisInfo : Type 0
  pub ValidatorInfo : Type 0
  pub StakingChangeRequest : Type 0
  pub Bundle : Type 0

pub record SubnetManager (Address World : Type 0) (P : Payloads) : Type 0 where
  pub create_subnet : Address → ConstructParams Address → Exec Text World Address
  pub join_subnet : SubnetId Address → Address → ℤ → List ℕ → Exec Text World ℤ
  pub pre_fund : SubnetId Address → Address → ℤ → Exec Text World (Unit {0})
  pub pre_release : SubnetId Address → Address → ℤ → Exec Text World (Unit {0})
  pub stake : SubnetId Address → Address → ℤ → Exec Text World (Unit {0})
  pub unstake : SubnetId Address → Address → ℤ → Exec Text World (Unit {0})
  pub leave_subnet : SubnetId Address → Address → Exec Text World (Unit {0})
  pub kill_subnet : SubnetId Address → Address → Exec Text World (Unit {0})
  pub list_child_subnets : Address → Exec Text World (Map (SubnetId Address) P.SubnetInfo)
  pub claim_collateral : SubnetId Address → Address → Exec Text World (Unit {0})
  pub claim_relayer_reward : SubnetId Address → Address → Exec Text World (Unit {0})
  pub fund : SubnetId Address → Address → Address → Address → ℤ → Exec Text World ℤ
  pub release : Address → Address → Address → ℤ → Option ℤ → Exec Text World ℤ
  pub send_value : Address → Address → ℤ → Exec Text World (Unit {0})
  pub wallet_balance : Address → Exec Text World ℤ
  pub get_chain_id : Exec Text World Text
  pub get_genesis_info : SubnetId Address → Exec Text World P.SubnetGenesisInfo
  pub add_bootstrap : SubnetId Address → Address → Text → Exec Text World (Unit {0})
  pub list_bootstrap_nodes : SubnetId Address → Exec Text World (List Text)
  pub get_validator_info : SubnetId Address → Address → Exec Text World P.ValidatorInfo
  pub genesis_epoch : SubnetId Address → Exec Text World ℤ
  pub chain_head_height : Exec Text World ℤ
  pub get_top_down_msgs : SubnetId Address → ℤ → List ℕ → Exec Text World (List (CrossMsg Address))
  pub get_block_hash : ℤ → Exec Text World GetBlockHashResult
  pub get_validator_changeset :
      SubnetId Address → ℤ → Exec Text World (TopDownQueryPayload (List P.StakingChangeRequest))
  pub latest_parent_finality : Exec Text World ℤ
  pub checkpoint_bundle_at : ℤ → Exec Text World P.Bundle
  pub has_submitted_in_last_checkpoint_height : SubnetId Address → Address → Exec Text World Bool
  pub last_bottom_up_checkpoint_height : SubnetId Address → Exec Text World ℤ
  pub quorum_reached_events : ℤ → Exec Text World (List QuorumReachedEvent)
