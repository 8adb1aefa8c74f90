-- ===== src/Provider/Evm/Manager.antt =====
-- ipc/provider/src/manager/evm/manager.rs: `EthSubnetManager`, its signers, and the sending of a
-- transaction. The node that it talks to is a parameter: each call of it may find another world.
pub mod Transactions
pub mod Sends
pub mod Calls
pub mod Deliveries
pub mod SubnetMethods
pub mod Gateway
mod Tests
use ipc_client.Base.{
  ℕ, ◌+◌, ◌^◌, Bool, true, false, Option, none, some, List, [], ◌∷◌, ◌++◌, Result, ok, err, panic,
  ok_or, ◌==◌, nat_eq, list_eq, ltb, if◌then◌else◌,
}
use ipc_client.Base.Exec.{Exec, ◌>>=◌, ◌>>◌, pure, fail, lift}
use ipc_client.Base.Int.{ℤ, pos, negsuc}
use ipc_client.Base.Text.{Text, codes, split}
use ipc_client.Identity.Evm.{KeyInfo}
use ipc_client.Sdk.SubnetId.{SubnetId}
use ipc_client.Sdk.Contract.{
  ContractLib, ContractSubnetId, ContractCrossMsg, ContractCheckpoint, payload_to_evm_address,
}
use ipc_client.Provider.Evm.{Receipt}
use ipc_client.Provider.Evm.Fees.{base_fee_surged, estimate_priority_fee, u256_result}

-- `subnet_registry::ConstructorParams`
pub record ConstructorParams : Type 0 where
  pub parent_id : ContractSubnetId
  pub ipc_gateway_addr : List ℕ
  pub consensus : ℕ
  pub min_activation_collateral : ℕ
  pub min_validators : ℕ
  pub bottom_up_check_period : ℕ
  pub majority_percentage : ℕ
  pub active_validators_limit : ℕ
  pub power_scale : ℕ
  pub min_cross_msg_fee : ℕ

-- What a transaction calls at its contract; `transfer` calls nothing.
pub data ContractCall (FvmAddress : Type 0) : Type 0 where
  new_subnet_actor : ConstructorParams → ContractCall FvmAddress
  join : List ℕ → ContractCall FvmAddress
  pre_fund : ContractCall FvmAddress
  pre_release : ℕ → ContractCall FvmAddress
  stake leave kill claim claim_reward_for_relayer transfer : ContractCall FvmAddress
  unstake : ℕ → ContractCall FvmAddress
  fund : ContractSubnetId → FvmAddress → ContractCall FvmAddress
  release : FvmAddress → ℕ → ContractCall FvmAddress
  propagate : List ℕ → ContractCall FvmAddress
  send_cross_message : ContractCrossMsg FvmAddress → ContractCall FvmAddress
  add_bootstrap_node : Text → ContractCall FvmAddress
  submit_checkpoint :
      ContractCheckpoint
      → List (ContractCrossMsg FvmAddress)
      → List (List ℕ)
      → List (List ℕ)
      → ContractCall FvmAddress

-- `gas_price` of a call, or the two fees of a transfer.
pub data Fees : Type 0 where
  gas_price : ℕ → Fees
  eip1559 : ℕ → ℕ → Fees

pub record Request (FvmAddress : Type 0) : Type 0 where
  pub to : List ℕ
  pub call : ContractCall FvmAddress
  pub value : ℕ

-- `SignerMiddleware` with its `LocalWallet`
pub record Signer : Type 0 where
  pub private_key : List ℕ
  pub chain_id : ℕ

pub record Transaction (FvmAddress : Type 0) : Type 0 where
  pub signer : Signer
  pub request : Request FvmAddress
  pub fees : Fees

-- What is used of ethers and of the node: the base fee of the latest block, the rewards of the blocks
-- before, sending, waiting for a receipt with a number of retries or without, balances and the
-- gateway's fee. `I256` and its threshold are those of Fees.
pub record Node (FvmAddress Raw Pending World : Type 0) : Type 0 where
  pub latest_block : Exec Text World (Option (Option ℕ))
  pub fee_history : Exec Text World (List (List ℕ))
  pub send : Transaction FvmAddress → Exec Text World Pending
  pub receipt : Pending → ℕ → Exec Text World (Option (Receipt Raw))
  pub wait : Pending → Exec Text World (Unit {0})
  pub cross_msg_fee : List ℕ → Exec Text World ℕ
  pub get_balance : List ℕ → Exec Text World ℕ
  pub wallet_from_bytes : List ℕ → Result Text (List ℕ)
  pub parse_deployed : Raw → Option (List ℕ)
  pub parse_socket : Text → Option (Text × ℕ)
  pub display_text : List ℕ → Text
  pub threshold_max_change : ℤ
  pub overflow : ℤ → Result Text ℤ

-- The key store is shared: a reader of it by an address. `IPCContractInfo` is flat.
pub record EthSubnetManager (World : Type 0) : Type 0 where
  pub keystore : Option (List ℕ → Exec Text World (Option KeyInfo))
  pub gateway_addr : List ℕ
  pub registry_addr : List ℕ
  pub chain_id : ℕ

abbrev pub transaction_receipt_retries : ℕ
transaction_receipt_retries = 200

abbrev pub subnet_majority_percentage : ℕ
subnet_majority_percentage = 60

-- `atto().to_u128()`
abbrev pub to_u128 : ℤ → Option ℕ
to_u128 (pos n) = if ltb n (2 ^ 128) then some n else none
to_u128 (negsuc n) = none

-- `input.split('@')`, and `parse::<SocketAddr>()` of the second of two parts
unfoldable pub is_valid_bootstrap_addr :
    {Socket : Type 0} → (Text → Option Socket) → Text → Option (Text × Socket)
is_valid_bootstrap_addr parse_socket input = elim (split b'@' input) [
  | pubkey ∷ addr_str ∷ [] ↦ elim (parse_socket addr_str) [
    | some addr ↦ some (pubkey, addr)
    | none ↦ none
  ]
  | _ ↦ none
]

module _ {FvmAddress Raw Pending World : Type 0} (node : Node FvmAddress Raw Pending World) where
  unfoldable pub premium_estimation : Exec Text World (ℕ × ℕ)
  unfolding estimate_priority_fee base_fee_surged
  premium_estimation = do
    latest ← node.latest_block
    block ← lift (ok_or latest (codes "Latest block not found"))
    base_fee_per_gas ← lift (ok_or block (codes "EIP-1559 not activated"))
    rewards ← node.fee_history
    max_priority_fee_per_gas ←
        lift (estimate_priority_fee node.threshold_max_change node.overflow rewards)
    potential_max_fee ← lift (base_fee_surged base_fee_per_gas)
    max_fee_per_gas ← lift (
        if ltb potential_max_fee max_priority_fee_per_gas
        then u256_result (max_priority_fee_per_gas + potential_max_fee)
        else ok potential_max_fee)
    pure (max_priority_fee_per_gas, max_fee_per_gas)

  -- `call_with_premium_estimation(signer, call).await?.send().await?`
  unfoldable pub call_with_premium_estimation :
      Signer → Request FvmAddress → Exec Text World Pending
  unfolding premium_estimation
  call_with_premium_estimation signer request = do
    fees ← premium_estimation
    node.send (record { signer = signer; request = request; fees = gas_price fees.0 })

module _ {Address FvmAddress World : Type 0} (lib : ContractLib Address FvmAddress)
    (self : EthSubnetManager World) where
  unfoldable pub ensure_same_gateway : Address → Result Text (Unit {0})
  ensure_same_gateway gateway = elim (payload_to_evm_address lib gateway) [
    | ok evm_gateway_addr ↦
        if evm_gateway_addr == self.gateway_addr
        then ok tt
        else err (codes "Gateway address not matching with config")
    | err e ↦ err e
    | panic ↦ panic
  ]

module _ {Address FvmAddress Raw Pending World : Type 0} (lib : ContractLib Address FvmAddress)
    (node : Node FvmAddress Raw Pending World) (self : EthSubnetManager World) where
  abbrev pub no_key : List ℕ → Text
  no_key addr =
      codes "address " ++ node.display_text addr ++ codes " does not have private key in key store"

  unfoldable pub get_signer : Address → Exec Text World Signer
  get_signer addr = do
    addr ← lift (payload_to_evm_address lib addr)
    keystore ← lift (ok_or self.keystore (codes "no evm keystore available"))
    found ← keystore addr
    private_key ← lift (ok_or found (no_key addr))
    bytes ← lift (node.wallet_from_bytes private_key.private_key)
    pure (record { private_key = bytes; chain_id = self.chain_id })
