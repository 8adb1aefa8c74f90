-- ===== src/Provider/Client/Queries.antt =====
-- ipc/provider/src/lib.rs: the methods of the provider that ask a subnet, or its parent.
use ipc_client.Base.{ℕ, Bool, Option, List, Eq}
use ipc_client.Base.Exec.{Exec, ◌>>=◌}
use ipc_client.Base.Int.{ℤ}
use ipc_client.Base.Map.{Map}
use ipc_client.Base.Text.{Text, codes}
use ipc_client.Sdk.Cross.{CrossMsg}
use ipc_client.Sdk.SubnetId.{SubnetId}
use ipc_client.Provider.Config.{gateway_addr}
use ipc_client.Provider.Relayer.{QuorumReachedEvent}
use ipc_client.Provider.SubnetManager.{Payloads, TopDownQueryPayload, GetBlockHashResult}
use ipc_client.Provider.Client.{
  Connector, State, on_world, connection_or, parent_connection, unwrap_or,
}

module _ {Address Eth World : Type 0} {P : Payloads} ⦃e : Eq Address⦄
    (connector : Connector Address Eth World P) where
  -- The methods below act on a provider and its world.
  abbrev Method : Type 0 → Type 0
  Method A = Exec Text (State connector) A

  unfoldable pub list_child_subnets :
      Option Address → SubnetId Address → Method (Map (SubnetId Address) P.SubnetInfo)
  unfolding on_world
  list_child_subnets gateway subnet = do
    conn ← connection_or connector (codes "target subnet not found") subnet
    on_world connector
        (conn.manager.list_child_subnets (unwrap_or gateway (gateway_addr conn.subnet)))

  unfoldable pub wallet_balance : SubnetId Address → Address → Method ℤ
  unfolding on_world
  wallet_balance subnet address = do
    conn ← connection_or connector (codes "target subnet not found") subnet
    on_world connector (conn.manager.wallet_balance address)

  unfoldable pub chain_head : SubnetId Address → Method ℤ
  unfolding on_world
  chain_head subnet = do
    conn ← connection_or connector (codes "target subnet not found") subnet
    on_world connector (conn.manager.chain_head_height)

  unfoldable pub genesis_epoch : SubnetId Address → Method ℤ
  unfolding on_world
  genesis_epoch subnet = do
    conn ← parent_connection connector (codes "parent subnet config not found") subnet
    on_world connector (conn.manager.genesis_epoch subnet)

  unfoldable pub get_validator_info : SubnetId Address → Address → Method P.ValidatorInfo
  unfolding on_world
  get_validator_info subnet validator = do
    conn ← parent_connection connector (codes "target subnet parent not found") subnet
    on_world connector (conn.manager.get_validator_info subnet validator)

  unfoldable pub get_validator_changeset :
      SubnetId Address → ℤ → Method (TopDownQueryPayload (List P.StakingChangeRequest))
  unfolding on_world
  get_validator_changeset subnet epoch = do
    conn ← parent_connection connector (codes "target subnet parent not found") subnet
    on_world connector (conn.manager.get_validator_changeset subnet epoch)

  unfoldable pub get_genesis_info : SubnetId Address → Method P.SubnetGenesisInfo
  unfolding on_world
  get_genesis_info subnet = do
    conn ← parent_connection connector (codes "parent subnet config not found") subnet
    on_world connector (conn.manager.get_genesis_info subnet)

  unfoldable pub get_top_down_msgs :
      SubnetId Address → ℤ → List ℕ → Method (List (CrossMsg Address))
  unfolding on_world
  get_top_down_msgs subnet epoch block_hash = do
    conn ← parent_connection connector (codes "target parent subnet not found") subnet
    on_world connector (conn.manager.get_top_down_msgs subnet epoch block_hash)

  unfoldable pub get_block_hash : SubnetId Address → ℤ → Method GetBlockHashResult
  unfolding on_world
  get_block_hash subnet height = do
    conn ← connection_or connector (codes "target subnet not found") subnet
    on_world connector (conn.manager.get_block_hash height)

  unfoldable pub get_chain_id : SubnetId Address → Method Text
  unfolding on_world
  get_chain_id subnet = do
    conn ← connection_or connector (codes "target subnet not found") subnet
    on_world connector (conn.manager.get_chain_id)

  unfoldable pub get_chain_head_height : SubnetId Address → Method ℤ
  unfolding on_world
  get_chain_head_height subnet = do
    conn ← connection_or connector (codes "target subnet not found") subnet
    on_world connector (conn.manager.chain_head_height)

  unfoldable pub get_bottom_up_bundle : SubnetId Address → ℤ → Method P.Bundle
  unfolding on_world
  get_bottom_up_bundle subnet height = do
    conn ← connection_or connector (codes "target subnet not found") subnet
    on_world connector (conn.manager.checkpoint_bundle_at height)

  unfoldable pub has_submitted_in_last_checkpoint_height : SubnetId Address → Address → Method Bool
  unfolding on_world
  has_submitted_in_last_checkpoint_height subnet addr = do
    conn ← parent_connection connector (codes "parent subnet not found") subnet
    on_world connector (conn.manager.has_submitted_in_last_checkpoint_height subnet addr)

  unfoldable pub last_bottom_up_checkpoint_height : SubnetId Address → Method ℤ
  unfolding on_world
  last_bottom_up_checkpoint_height subnet = do
    conn ← parent_connection connector (codes "parent subnet not found") subnet
    on_world connector (conn.manager.last_bottom_up_checkpoint_height subnet)

  unfoldable pub quorum_reached_events : SubnetId Address → ℤ → Method (List QuorumReachedEvent)
  unfolding on_world
  quorum_reached_events subnet height = do
    conn ← connection_or connector (codes "target subnet not found") subnet
    on_world connector (conn.manager.quorum_reached_events height)

  unfoldable pub list_bootstrap_nodes : SubnetId Address → Method (List Text)
  unfolding on_world
  list_bootstrap_nodes subnet = do
    conn ← parent_connection connector (codes "target parent subnet not found") subnet
    on_world connector (conn.manager.list_bootstrap_nodes subnet)

  unfoldable pub latest_parent_finality : SubnetId Address → Method ℤ
  unfolding on_world
  latest_parent_finality subnet = do
    conn ← connection_or connector (codes "target subnet not found") subnet
    on_world connector (conn.manager.latest_parent_finality)
