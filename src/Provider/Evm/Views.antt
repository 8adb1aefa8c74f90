-- ===== src/Provider/Evm/Views.antt =====
-- ipc/provider/src/manager/evm/manager.rs: the methods of `EthSubnetManager` that read the contracts.
use ipc_client.Base.{ℕ, Bool, List, [], ◌∷◌, ◌++◌, Result, map_err, if◌then◌else◌, Eq}
use ipc_client.Base.Exec.{Exec, ◌>>=◌, ◌>>◌, pure, fail, lift, context}
use ipc_client.Base.Int.{ℤ}
use ipc_client.Base.Map.{Map}
use ipc_client.Base.Text.{Text, codes}
use ipc_client.Sdk.Fvm.{AddressLib}
use ipc_client.Sdk.SubnetId.{SubnetId, to_string}
use ipc_client.Sdk.Contract.{
  ContractLib, ContractSubnetId, ContractCrossMsg, ContractCheckpoint, collect, as_u64, as_i64,
  payload_to_evm_address, ethers_address_to_fil_address, eth_to_fil_amount,
  subnet_id_to_evm_addresses, to_contract_subnet, of_contract_cross_msg, of_contract_checkpoint,
}
use ipc_client.Sdk.Staking.{ContractValidator, of_contract_validator}
use ipc_client.Sdk.Validator.{ContractWeight, from_contract_validators}
use ipc_client.Provider.Relayer.{QuorumReachedEvent}
use ipc_client.Provider.Relayer as Relayer
use ipc_client.Provider.Evm.{contract_address_from_subnet, Log, kept}
use ipc_client.Provider.Evm.Answers.{
  ContractSubnet, SubnetInfo, SubnetGenesisInfo, ValidatorInfo, QuorumReached, u256_as_u64,
  insert_infos, into_genesis_balance_map, to_quorum_event,
}
use ipc_client.Provider.Evm.Manager.{EthSubnetManager, ensure_same_gateway}
use ipc_client.Provider.Evm.Manager.Transactions.{Bundle}

-- The contracts' getters: of the gateway first, then of the subnet actor at an address; last the
-- node's own. Each is a call of its own, and the world may change between two.
pub record Getters (FvmAddress Raw World : Type 0) : Type 0 where
  pub get_subnet : List ℕ → ContractSubnetId → Exec Text World (Bool × ContractSubnet)
  pub list_subnets : List ℕ → Exec Text World (List ContractSubnet)
  pub latest_parent_finality : List ℕ → Exec Text World ℕ
  pub gateway_checkpoint : List ℕ → ℕ → Exec Text World ContractCheckpoint
  pub applied_top_down_nonce : List ℕ → ContractSubnetId → Exec Text World (Bool × ℕ)
  pub signature_bundle :
      List ℕ → ℕ → Exec Text World (ContractCheckpoint × List (List ℕ) × List (List ℕ))
  pub bottom_up_messages : List ℕ → ℕ → Exec Text World (List (ContractCrossMsg FvmAddress))
  pub quorum_logs : List ℕ → ℕ → ℕ → Exec Text World (List (Log Raw))
  pub parse_quorum : Raw → Result Text QuorumReached
  pub bottom_up_check_period : List ℕ → Exec Text World ℕ
  pub checkpoint_hash_at : List ℕ → ℕ → Exec Text World (Bool × List ℕ)
  pub min_validators_of : List ℕ → Exec Text World ℕ
  pub active_validators_limit : List ℕ → Exec Text World ℕ
  pub majority_percentage : List ℕ → Exec Text World ℕ
  pub min_activation_collateral : List ℕ → Exec Text World ℕ
  pub min_cross_msg_fee : List ℕ → Exec Text World ℕ
  pub genesis_validators : List ℕ → Exec Text World (List ContractWeight)
  pub genesis_balances : List ℕ → Exec Text World (List (List ℕ) × List ℕ)
  pub bootstrap_nodes : List ℕ → Exec Text World (List Text)
  pub get_validator : List ℕ → List ℕ → Exec Text World ContractValidator
  pub is_active_validator : List ℕ → List ℕ → Exec Text World Bool
  pub is_waiting_validator : List ℕ → List ℕ → Exec Text World Bool
  pub last_checkpoint_height : List ℕ → Exec Text World ℕ
  pub has_submitted_in_last : List ℕ → List ℕ → Exec Text World Bool
  pub epoch_text : ℤ → Text
  pub get_block_number : Exec Text World ℕ
  pub get_chainid : Exec Text World Text

-- The `context` of anyhow: the error's message is the context.
abbrev pub with_context : {S A : Type 0} → Text → Exec Text S A → Exec Text S A
with_context message m s = (map_err (λ _. message) (m s).0, (m s).1)

-- `[0u8; 32]`
abbrev pub zero_hash : List ℕ
zero_hash =
    0 ∷ 0 ∷ 0 ∷ 0 ∷ 0 ∷ 0 ∷ 0 ∷ 0 ∷ 0 ∷ 0 ∷ 0 ∷ 0 ∷ 0 ∷ 0 ∷ 0 ∷ 0 ∷ 0 ∷ 0 ∷ 0 ∷ 0 ∷ 0 ∷ 0 ∷ 0 ∷ 0
    ∷ 0 ∷ 0 ∷ 0 ∷ 0 ∷ 0 ∷ 0 ∷ 0 ∷ 0 ∷ []

module _ {Address FvmAddress Raw World : Type 0} ⦃fvm : AddressLib Address⦄
    (lib : ContractLib Address FvmAddress) (getters : Getters FvmAddress Raw World)
    (self : EthSubnetManager World) where
  abbrev pub contract_of : SubnetId Address → Exec Text World (List ℕ)
  contract_of subnet = lift (contract_address_from_subnet lib subnet)

  unfoldable pub genesis_epoch : SubnetId Address → Exec Text World ℤ
  genesis_epoch subnet_id = do
    contract_of subnet_id
    evm_subnet_id ← lift (to_contract_subnet lib subnet_id)
    found ← getters.get_subnet self.gateway_addr evm_subnet_id
    epoch ←
        if found.0
        then lift (u256_as_u64 found.1.genesis_epoch)
        else fail (codes "subnet: " ++ to_string subnet_id ++ codes " does not exists")
    pure (as_i64 epoch)

  unfoldable pub chain_head_height : Exec Text World ℤ
  chain_head_height = do
    block ← with_context (codes "cannot get evm block number") getters.get_block_number
    pure (as_i64 block)

  unfoldable pub latest_parent_finality : Exec Text World ℤ
  latest_parent_finality = do
    height ← getters.latest_parent_finality self.gateway_addr
    height ← lift (u256_as_u64 height)
    pure (as_i64 height)

  unfoldable pub get_chain_id : Exec Text World Text
  get_chain_id = getters.get_chainid

  unfoldable pub list_bootstrap_nodes : SubnetId Address → Exec Text World (List Text)
  list_bootstrap_nodes subnet = do address ← contract_of subnet; getters.bootstrap_nodes address

  unfoldable pub get_validator_info : SubnetId Address → Address → Exec Text World ValidatorInfo
  get_validator_info subnet validator = do
    address ← contract_of subnet
    validator ← lift (payload_to_evm_address lib validator)
    validator_info ← getters.get_validator address validator
    is_active ← getters.is_active_validator address validator
    is_waiting ← getters.is_waiting_validator address validator
    staking ← lift (of_contract_validator lib validator_info)
    pure (record { staking = staking; is_active = is_active; is_waiting = is_waiting })

  unfoldable pub get_genesis_info :
      ⦃e : Eq Address⦄ → SubnetId Address → Exec Text World (SubnetGenesisInfo Address)
  unfolding genesis_epoch
  get_genesis_info subnet = do
    address ← contract_of subnet
    genesis_balances ← getters.genesis_balances address
    active_validators_limit ← getters.active_validators_limit address
    bottom_up_checkpoint_period ← getters.bottom_up_check_period address
    epoch ← genesis_epoch subnet
    majority_percentage ← getters.majority_percentage address
    min_collateral ← getters.min_activation_collateral address
    min_collateral ← lift (eth_to_fil_amount lib min_collateral)
    msg_fee ← getters.min_cross_msg_fee address
    msg_fee ← lift (eth_to_fil_amount lib msg_fee)
    validators ← getters.genesis_validators address
    validators ← lift (from_contract_validators lib validators)
    balances ← lift (into_genesis_balance_map lib genesis_balances.0 genesis_balances.1)
    pure (record {
      bottom_up_checkpoint_period = bottom_up_checkpoint_period;
      majority_percentage = majority_percentage;
      active_validators_limit = active_validators_limit;
      min_collateral = min_collateral;
      genesis_epoch = epoch;
      msg_fee = msg_fee;
      validators = validators;
      genesis_balances = balances;
    })

  unfoldable pub bottom_up_checkpoint : ℤ → Exec Text World ContractCheckpoint
  bottom_up_checkpoint epoch = getters.gateway_checkpoint self.gateway_addr (as_u64 epoch)

  -- `debug_text` is the text of `{:?}`.
  unfoldable pub get_applied_top_down_nonce :
      (SubnetId Address → Text) → SubnetId Address → Exec Text World ℕ
  get_applied_top_down_nonce debug_text subnet_id = do
    route ← lift (subnet_id_to_evm_addresses lib subnet_id)
    found ← context (codes "cannot get applied top down nonce due to: ") (
        getters.applied_top_down_nonce self.gateway_addr
          (record { root = subnet_id.root; route = route }))
    if found.0
        then pure found.1
        else fail (codes "subnet " ++ debug_text subnet_id ++ codes " does not exists")

  -- Also `subnet_bottom_up_checkpoint_period`.
  unfoldable pub checkpoint_period : SubnetId Address → Exec Text World ℤ
  checkpoint_period subnet_id = do
    address ← contract_of subnet_id
    epoch ← getters.bottom_up_check_period address
    pure (as_i64 epoch)

  unfoldable pub prev_bottom_up_checkpoint_hash : SubnetId Address → ℤ → Exec Text World (List ℕ)
  prev_bottom_up_checkpoint_hash subnet_id epoch = do
    address ← contract_of subnet_id
    found ← getters.checkpoint_hash_at address (as_u64 epoch)
    if found.0
        then pure found.1
        else if Relayer.is_zero epoch
        then pure zero_hash
        else fail (codes "checkpoint does not exists: " ++ getters.epoch_text epoch)

  unfoldable pub min_validators : SubnetId Address → Exec Text World ℕ
  min_validators subnet_id = do address ← contract_of subnet_id; getters.min_validators_of address

  unfoldable pub last_bottom_up_checkpoint_height : SubnetId Address → Exec Text World ℤ
  last_bottom_up_checkpoint_height subnet_id = do
    address ← contract_of subnet_id
    epoch ← getters.last_checkpoint_height address
    pure (as_i64 epoch)

  unfoldable pub has_submitted_in_last_checkpoint_height :
      SubnetId Address → Address → Exec Text World Bool
  has_submitted_in_last_checkpoint_height subnet_id submitter = do
    address ← contract_of subnet_id
    addr ← lift (payload_to_evm_address lib submitter)
    getters.has_submitted_in_last address addr

  unfoldable pub checkpoint_bundle_at : ℤ → Exec Text World (Bundle Address)
  checkpoint_bundle_at height = do
    found ← getters.signature_bundle self.gateway_addr (as_u64 height)
    cross_msgs ← getters.bottom_up_messages self.gateway_addr (as_u64 height)
    checkpoint ← lift (of_contract_checkpoint lib found.0)
    signatories ← lift (collect (ethers_address_to_fil_address lib) found.1)
    cross_msgs ← lift (collect (of_contract_cross_msg lib) cross_msgs)
    pure (record {
      checkpoint = checkpoint;
      signatures = found.2;
      signatories = signatories;
      cross_msgs = cross_msgs;
    })

  unfoldable pub quorum_reached_events : ℤ → Exec Text World (List QuorumReachedEvent)
  quorum_reached_events height = do
    logs ← getters.quorum_logs self.gateway_addr (as_u64 height) (as_u64 height)
    events ← lift (collect (λ l. getters.parse_quorum l.raw) (kept logs))
    lift (collect (to_quorum_event lib) events)

  unfoldable pub current_epoch : Exec Text World ℤ
  current_epoch = do epoch ← getters.get_block_number; pure (as_i64 epoch)

  unfoldable pub list_child_subnets :
      ⦃e : Eq Address⦄ → Address → Exec Text World (Map (SubnetId Address) (SubnetInfo Address))
  unfolding insert_infos
  list_child_subnets gateway_addr = do
    lift (ensure_same_gateway lib self gateway_addr)
    evm_subnets ← getters.list_subnets self.gateway_addr
    lift (insert_infos lib evm_subnets [])
