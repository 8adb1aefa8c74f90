-- ===== src/Provider/Evm/Interface.antt =====
-- ipc/provider/src/manager/evm/manager.rs: `EthSubnetManager` as a manager of subnets, and how it is
-- made of the configuration of a subnet.
pub mod Funding
mod Tests
use ipc_client.Base.{ℕ, Option, none, some, List, Result, ok, err, panic, ◌>>=◌, Eq}
use ipc_client.Base.Exec.{Exec}
use ipc_client.Base.Text.{Text}
use ipc_client.Identity.Evm.{KeyInfo}
use ipc_client.Sdk.Fvm.{AddressLib}
use ipc_client.Sdk.SubnetId.{chain_id}
use ipc_client.Sdk.Contract.{ContractLib, payload_to_evm_address}
use ipc_client.Sdk.Staking.{StakingChangeRequest}
use ipc_client.Provider.Config.{Subnet, fevm, auth_token, rpc_http}
use ipc_client.Provider.SubnetManager.{SubnetManager, Payloads}
use ipc_client.Provider.Client.{EvmWallet, Connector}
use ipc_client.Provider.Evm as Evm
use ipc_client.Provider.Evm.{Chain}
use ipc_client.Provider.Evm.Answers.{SubnetInfo, SubnetGenesisInfo, ValidatorInfo}
use ipc_client.Provider.Evm.Manager.{Node, EthSubnetManager}
use ipc_client.Provider.Evm.Manager.Transactions as Transactions
use ipc_client.Provider.Evm.Manager.Transactions.{Bundle}
use ipc_client.Provider.Evm.Views as Views
use ipc_client.Provider.Evm.Views.{Getters}

-- `EthSubnetManager::new`, the connection left out
abbrev pub new :
    {World : Type 0}
    → List ℕ
    → List ℕ
    → ℕ
    → Option (List ℕ → Exec Text World (Option KeyInfo))
    → EthSubnetManager World
new gateway_addr registry_addr chain_id keystore = record {
  keystore = keystore;
  gateway_addr = gateway_addr;
  registry_addr = registry_addr;
  chain_id = chain_id;
}

-- The crates: the transport of a URL with a token, the hash of a subnet's text; and `get` of the
-- shared store of keys.
pub record Connecting (Eth World : Type 0) : Type 0 where
  pub open_http : Text → Option Text → Result Text (Unit {0})
  pub hasher : Text → ℕ
  pub get : EvmWallet Eth World → List ℕ → Exec Text World (Option KeyInfo)

abbrev pub EvmPayloads : Type 0 → Payloads
EvmPayloads Address = record {
  SubnetInfo = SubnetInfo Address;
  SubnetGenesisInfo = SubnetGenesisInfo Address;
  ValidatorInfo = ValidatorInfo;
  StakingChangeRequest = StakingChangeRequest Address;
  Bundle = Bundle Address;
}

abbrev pub shared : {A B : Type 0} → (A → B) → Option A → Option B
shared f none = none
shared f (some a) = some (f a)

module _ {Address FvmAddress Eth World : Type 0} ⦃fvm : AddressLib Address⦄
    (lib : ContractLib Address FvmAddress) (connecting : Connecting Eth World) where
  unfoldable pub from_subnet_with_wallet_store :
      Subnet Address → Option (EvmWallet Eth World) → Result Text (EthSubnetManager World)
  from_subnet_with_wallet_store subnet keystore = elim subnet.config [
    | fevm config ↦ connecting.open_http (rpc_http subnet) (auth_token subnet) >>= λ _.
        payload_to_evm_address lib config.gateway_addr >>= λ gateway_address.
        payload_to_evm_address lib config.registry_addr >>= λ registry_address. ok (
          new gateway_address registry_address (chain_id connecting.hasher subnet.id)
            (shared connecting.get keystore))
  ]

module _ {Address FvmAddress Raw LogRaw QuorumRaw Pending World : Type 0} ⦃e : Eq Address⦄
    ⦃fvm : AddressLib Address⦄ (lib : ContractLib Address FvmAddress)
    (node : Node FvmAddress Raw Pending World) (getters : Getters FvmAddress QuorumRaw World)
    (chain : World → Chain LogRaw FvmAddress) where
  -- `impl SubnetManager`, `TopDownFinalityQuery` and `BottomUpCheckpointRelayer`
  unfoldable pub as_manager :
      EthSubnetManager World → SubnetManager Address World (EvmPayloads Address)
  as_manager self = record {
    create_subnet = Transactions.create_subnet lib node self;
    join_subnet = Transactions.join_subnet lib node self;
    pre_fund = Transactions.pre_fund lib node self;
    pre_release = Transactions.pre_release lib node self;
    stake = Transactions.stake lib node self;
    unstake = Transactions.unstake lib node self;
    leave_subnet = Transactions.leave_subnet lib node self;
    kill_subnet = Transactions.kill_subnet lib node self;
    list_child_subnets = Views.list_child_subnets lib getters self;
    claim_collateral = Transactions.claim_collateral lib node self;
    claim_relayer_reward = Transactions.claim_relayer_reward lib node self;
    fund = Transactions.fund lib node self;
    release = Transactions.release lib node self;
    send_value = Transactions.send_value lib node self;
    wallet_balance = Transactions.wallet_balance lib node self;
    get_chain_id = Views.get_chain_id lib getters self;
    get_genesis_info = Views.get_genesis_info lib getters self;
    add_bootstrap = Transactions.add_bootstrap lib node self;
    list_bootstrap_nodes = Views.list_bootstrap_nodes lib getters self;
    get_validator_info = Views.get_validator_info lib getters self;
    genesis_epoch = Views.genesis_epoch lib getters self;
    chain_head_height = Views.chain_head_height lib getters self;
    get_top_down_msgs = λ id epoch hash w. (Evm.get_top_down_msgs lib (chain w) id epoch hash, w);
    get_block_hash = λ height w. (Evm.get_block_hash lib (chain w) height, w);
    get_validator_changeset = λ id epoch w. (Evm.get_validator_changeset lib (chain w) id epoch, w);
    latest_parent_finality = Views.latest_parent_finality lib getters self;
    checkpoint_bundle_at = Views.checkpoint_bundle_at lib getters self;
    has_submitted_in_last_checkpoint_height =
        Views.has_submitted_in_last_checkpoint_height lib getters self;
    last_bottom_up_checkpoint_height = Views.last_bottom_up_checkpoint_height lib getters self;
    quorum_reached_events = Views.quorum_reached_events lib getters self;
  }

  -- The managers that a provider connects with.
  abbrev pub connector :
      {Eth : Type 0}
      → Connecting Eth World
      → (Eth → Result Text Address)
      → Connector Address Eth World (EvmPayloads Address)
  connector connecting to_address = record {
    from_subnet_with_wallet_store = λ subnet keystore.
        from_subnet_with_wallet_store lib connecting subnet keystore >>= λ self.
        ok (as_manager self);
    to_address = to_address;
  }
