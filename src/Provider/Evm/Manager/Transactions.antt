-- ===== src/Provider/Evm/Manager/Transactions.antt =====
-- ipc/provider/src/manager/evm/manager.rs: the methods of `EthSubnetManager` that send a transaction.
use ipc_client.Base.{
  ℕ, ◌%◌, ◌^◌, Option, none, some, List, [], ◌∷◌, ◌++◌, Result, ok, err, panic, ok_or, ◌==◌, nat_eq,
  ltb, if◌then◌else◌, length,
}
use ipc_client.Base.Decimal.{print_u64}
use ipc_client.Base.Exec.{Exec, ◌>>=◌, ◌>>◌, pure, fail, lift}
use ipc_client.Base.Int.{ℤ, pos}
use ipc_client.Base.Text.{Text, codes}
use ipc_client.Sdk.Fvm.{AddressLib}
use ipc_client.Sdk.SubnetId.{SubnetId}
use ipc_client.Sdk.Cross.{CrossMsg}
use ipc_client.Sdk.Contract.{
  ContractLib, BottomUpCheckpoint, collect, as_u64, payload_to_evm_address,
  ethers_address_to_fil_address, fil_to_eth_amount, subnet_id_to_evm_addresses, to_contract_subnet,
  to_contract_cross_msg, to_contract_checkpoint,
}
use ipc_client.Provider.SubnetManager.{ConstructParams, ConsensusType, mir}
use ipc_client.Provider.Evm.{Receipt, contract_address_from_subnet, block_number_from_receipt}
use ipc_client.Provider.Evm.Manager.{
  ConstructorParams, ContractCall, eip1559, Request, Node, EthSubnetManager, Signer,
  transaction_receipt_retries, subnet_majority_percentage, to_u128, premium_estimation,
  is_valid_bootstrap_addr, call_with_premium_estimation, ensure_same_gateway, get_signer,
}
use ipc_client.Provider.Evm.Manager as Manager

-- `params.consensus as u64`
abbrev pub consensus_code : ConsensusType → ℕ
consensus_code mir = 0

-- `BottomUpCheckpointBundle`
pub record Bundle (Address : Type 0) : Type 0 where
  pub checkpoint : BottomUpCheckpoint Address
  pub signatures : List (List ℕ)
  pub signatories : List Address
  pub cross_msgs : List (CrossMsg Address)

module _ {Address FvmAddress Raw Pending World : Type 0} ⦃fvm : AddressLib Address⦄
    (lib : ContractLib Address FvmAddress) (node : Node FvmAddress Raw Pending World)
    (self : EthSubnetManager World) where
  -- `amount.atto().to_u128().ok_or_else(|| anyhow!(message))`
  abbrev pub amount_or : Text → ℤ → Exec Text World ℕ
  amount_or message amount = lift (ok_or (to_u128 amount) message)

  -- The contract of a subnet.
  abbrev pub contract_of : SubnetId Address → Exec Text World (List ℕ)
  contract_of subnet = lift (contract_address_from_subnet lib subnet)

  abbrev pub valid_bootstrap : Text → Result Text (Unit {0})
  valid_bootstrap endpoint = elim (is_valid_bootstrap_addr node.parse_socket endpoint) [
    | some _ ↦ ok tt
    | none ↦ err (codes "wrong format for bootstrap endpoint")
  ]

  abbrev pub signer_of : Address → Exec Text World Signer
  signer_of from = get_signer lib node self from

  -- `.send().await?.await?`
  unfoldable pub send_and_wait : Signer → Request FvmAddress → Exec Text World (Unit {0})
  send_and_wait signer request = call_with_premium_estimation node signer request >>= node.wait

  -- `retries`, and the number of the block in the receipt
  unfoldable pub send_for_block : Signer → Request FvmAddress → Exec Text World ℤ
  send_for_block signer request = do
    pending ← call_with_premium_estimation node signer request
    receipt ← node.receipt pending transaction_receipt_retries
    lift (block_number_from_receipt receipt)

  unfoldable pub join_subnet : SubnetId Address → Address → ℤ → List ℕ → Exec Text World ℤ
  join_subnet subnet from collateral pub_key = do
    collateral ← amount_or (codes "invalid min validator stake") collateral
    address ← contract_of subnet
    signer ← signer_of from
    send_for_block signer (record { to = address; call = Manager.join pub_key; value = collateral })

  unfoldable pub pre_fund : SubnetId Address → Address → ℤ → Exec Text World (Unit {0})
  pre_fund subnet from balance = do
    balance ← amount_or (codes "invalid initial balance") balance
    address ← contract_of subnet
    signer ← signer_of from
    call_with_premium_estimation node signer
        (record { to = address; call = Manager.pre_fund; value = balance })
    pure tt

  unfoldable pub pre_release : SubnetId Address → Address → ℤ → Exec Text World (Unit {0})
  pre_release subnet from amount = do
    address ← contract_of subnet
    amount ← amount_or (codes "invalid pre-release amount") amount
    signer ← signer_of from
    send_and_wait signer (record { to = address; call = Manager.pre_release amount; value = 0 })

  unfoldable pub stake : SubnetId Address → Address → ℤ → Exec Text World (Unit {0})
  stake subnet from collateral = do
    collateral ← amount_or (codes "invalid collateral amount") collateral
    address ← contract_of subnet
    signer ← signer_of from
    send_and_wait signer (record { to = address; call = Manager.stake; value = collateral })

  unfoldable pub unstake : SubnetId Address → Address → ℤ → Exec Text World (Unit {0})
  unstake subnet from collateral = do
    collateral ← amount_or (codes "invalid collateral amount") collateral
    address ← contract_of subnet
    signer ← signer_of from
    send_and_wait signer (record { to = address; call = Manager.unstake collateral; value = 0 })

  unfoldable pub leave_subnet : SubnetId Address → Address → Exec Text World (Unit {0})
  leave_subnet subnet from = do
    address ← contract_of subnet
    signer ← signer_of from
    send_and_wait signer (record { to = address; call = Manager.leave; value = 0 })

  unfoldable pub kill_subnet : SubnetId Address → Address → Exec Text World (Unit {0})
  kill_subnet subnet from = do
    address ← contract_of subnet
    signer ← signer_of from
    send_and_wait signer (record { to = address; call = Manager.kill; value = 0 })

  unfoldable pub claim_collateral : SubnetId Address → Address → Exec Text World (Unit {0})
  claim_collateral subnet from = do
    address ← contract_of subnet
    signer ← signer_of from
    send_and_wait signer (record { to = address; call = Manager.claim; value = 0 })

  unfoldable pub claim_relayer_reward : SubnetId Address → Address → Exec Text World (Unit {0})
  claim_relayer_reward subnet from = do
    address ← contract_of subnet
    signer ← signer_of from
    send_and_wait signer
        (record { to = address; call = Manager.claim_reward_for_relayer; value = 0 })

  unfoldable pub fund : SubnetId Address → Address → Address → Address → ℤ → Exec Text World ℤ
  fund subnet gateway_addr from to amount = do
    lift (ensure_same_gateway lib self gateway_addr)
    value ← amount_or (codes "invalid value to fund") amount
    evm_subnet_id ← lift (to_contract_subnet lib subnet)
    signer ← signer_of from
    to ← lift (lib.to_fvm_address to)
    send_for_block signer
        (record { to = self.gateway_addr; call = Manager.fund evm_subnet_id to; value = value })

  -- The fee that was asked for, or the gateway's.
  unfoldable pub fee_or_default : Option ℤ → Exec Text World ℕ
  fee_or_default (some f) = lift (fil_to_eth_amount lib f)
  fee_or_default none = node.cross_msg_fee self.gateway_addr

  unfoldable pub release : Address → Address → Address → ℤ → Option ℤ → Exec Text World ℤ
  unfolding fee_or_default
  release gateway_addr from to amount fee = do
    lift (ensure_same_gateway lib self gateway_addr)
    value ← amount_or (codes "invalid value to fund") amount
    fee ← fee_or_default fee
    signer ← signer_of from
    to ← lift (lib.to_fvm_address to)
    send_for_block signer
        (record { to = self.gateway_addr; call = Manager.release to fee; value = value })

  unfoldable pub propagate :
      SubnetId Address → Address → Address → List ℕ → Exec Text World (Unit {0})
  propagate subnet gateway_addr from postbox_msg_key =
      if length postbox_msg_key == 32
      then (do
        lift (ensure_same_gateway lib self gateway_addr)
        signer ← signer_of from
        call_with_premium_estimation node signer
            (record { to = self.gateway_addr; call = Manager.propagate postbox_msg_key; value = 0 })
        pure tt)
      else fail (
          codes "invalid message cid length, expect 32 but found "
          ++ print_u64 (length postbox_msg_key))

  unfoldable pub send_cross_message :
      Address → Address → CrossMsg Address → Exec Text World (Unit {0})
  send_cross_message gateway_addr from cross_msg = do
    lift (ensure_same_gateway lib self gateway_addr)
    signer ← signer_of from
    evm_cross_msg ← lift (to_contract_cross_msg lib cross_msg)
    call_with_premium_estimation node signer (record {
      to = self.gateway_addr;
      call = Manager.send_cross_message evm_cross_msg;
      value = 0;
    })
    pure tt

  unfoldable pub send_value : Address → Address → ℤ → Exec Text World (Unit {0})
  send_value from to amount = do
    signer ← signer_of from
    fees ← premium_estimation node
    address ← lift (payload_to_evm_address lib to)
    value ← lift (fil_to_eth_amount lib amount)
    pending ← node.send (record {
      signer = signer;
      request = record { to = address; call = Manager.transfer; value = value };
      fees = eip1559 fees.0 fees.1;
    })
    node.wait pending

  -- `balance.as_u128()` panics on a balance that does not fit.
  unfoldable pub wallet_balance : Address → Exec Text World ℤ
  wallet_balance address = do
    address ← lift (payload_to_evm_address lib address)
    balance ← node.get_balance address
    lift (if ltb balance (2 ^ 128) then ok (pos balance) else panic)

  -- The first log that tells of a deployed subnet.
  unfoldable pub deployed_in : List Raw → Result Text Address
  deployed_in [] = err (codes "no logs receipt")
  deployed_in (log ∷ logs) = elim (node.parse_deployed log) [
    | some subnet_addr ↦ ethers_address_to_fil_address lib subnet_addr
    | none ↦ deployed_in logs
  ]

  unfoldable pub deployed_subnet : Option (Receipt Raw) → Result Text Address
  unfolding deployed_in
  deployed_subnet (some r) = deployed_in r.logs
  deployed_subnet none = err (codes "no receipt for event, txn not successful")

  unfoldable pub create_subnet : Address → ConstructParams Address → Exec Text World Address
  unfolding deployed_subnet
  create_subnet from params = do
    lift (ensure_same_gateway lib self params.ipc_gateway_addr)
    min_validator_stake ← amount_or (codes "invalid min validator stake") params.min_validator_stake
    min_cross_msg_fee ← amount_or (codes "invalid min message fee") params.min_cross_msg_fee
    route ← lift (subnet_id_to_evm_addresses lib params.parent)
    signer ← signer_of from
    pending ← call_with_premium_estimation node signer (record {
      to = self.registry_addr;
      call = Manager.new_subnet_actor (record {
        parent_id = record { root = params.parent.root; route = route };
        ipc_gateway_addr = self.gateway_addr;
        consensus = consensus_code params.consensus % 256;
        min_activation_collateral = min_validator_stake;
        min_validators = params.min_validators;
        bottom_up_check_period = as_u64 params.bottomup_check_period;
        majority_percentage = subnet_majority_percentage;
        active_validators_limit = params.active_validators_limit;
        power_scale = 3;
        min_cross_msg_fee = min_cross_msg_fee;
      });
      value = 0;
    })
    receipt ← node.receipt pending transaction_receipt_retries
    lift (deployed_subnet receipt)

  unfoldable pub add_bootstrap : SubnetId Address → Address → Text → Exec Text World (Unit {0})
  add_bootstrap subnet from endpoint = do
    address ← contract_of subnet
    lift (valid_bootstrap endpoint)
    signer ← signer_of from
    send_and_wait signer
        (record { to = address; call = Manager.add_bootstrap_node endpoint; value = 0 })

  unfoldable pub submit_checkpoint : Address → Bundle Address → Exec Text World ℤ
  submit_checkpoint submitter bundle = do
    address ← contract_of bundle.checkpoint.subnet_id
    signatories ← lift (collect (payload_to_evm_address lib) bundle.signatories)
    cross_msgs ← lift (collect (to_contract_cross_msg lib) bundle.cross_msgs)
    checkpoint ← lift (to_contract_checkpoint lib bundle.checkpoint)
    signer ← signer_of submitter
    send_for_block signer (record {
      to = address;
      call = Manager.submit_checkpoint checkpoint cross_msgs signatories bundle.signatures;
      value = 0;
    })
