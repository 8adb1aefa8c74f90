-- ===== src/Provider/Evm/Answers.antt =====
-- ipc/provider/src/manager/evm/manager.rs, manager/subnet.rs: what the contracts' getters answer, as
-- the client has it. ipc/sdk/src/gateway.rs: the status of a subnet.
use ipc_client.Base.{
  ℕ, zero, suc, ◌^◌, Bool, List, [], ◌∷◌, ◌++◌, Result, ok, err, panic, ◌>>=◌, ltb, if◌then◌else◌,
  Eq,
}
use ipc_client.Base.Decimal.{print_u64}
use ipc_client.Base.Int.{ℤ}
use ipc_client.Base.Map.{Map, insert}
use ipc_client.Base.Text.{Text, codes}
use ipc_client.Sdk.SubnetId.{SubnetId, subnet_id_eq}
use ipc_client.Sdk.Contract.{
  ContractLib, ContractSubnetId, as_i64, ethers_address_to_fil_address, eth_to_fil_amount,
  of_contract_subnet,
}
use ipc_client.Sdk.Staking.{ValidatorStakingInfo}
use ipc_client.Sdk.Validator.{Validator}
use ipc_client.Provider.Relayer.{QuorumReachedEvent}

-- `Status`
pub data Status : Type 0 where
  active inactive killed : Status

-- `gateway_getter_facet::Subnet`, and `SubnetInfo` of manager/subnet.rs
pub record ContractSubnet : Type 0 where
  pub stake : ℕ
  pub genesis_epoch : ℕ
  pub circ_supply : ℕ
  pub status : ℕ
  pub id : ContractSubnetId

pub record SubnetInfo (Address : Type 0) : Type 0 where
  pub id : SubnetId Address
  pub stake : ℤ
  pub circ_supply : ℤ
  pub genesis_epoch : ℤ
  pub status : Status

pub record SubnetGenesisInfo (Address : Type 0) : Type 0 where
  pub bottom_up_checkpoint_period : ℕ
  pub majority_percentage : ℕ
  pub active_validators_limit : ℕ
  pub min_collateral : ℤ
  pub genesis_epoch : ℤ
  pub msg_fee : ℤ
  pub validators : List (Validator Address)
  pub genesis_balances : Map Address ℤ

pub record ValidatorInfo : Type 0 where
  pub staking : ValidatorStakingInfo
  pub is_active : Bool
  pub is_waiting : Bool

-- `gateway_router_facet::QuorumReachedFilter`
pub record QuorumReached : Type 0 where
  pub height : ℕ
  pub checkpoint : List ℕ
  pub quorum_weight : ℕ

-- `as_u64()` of a `U256` panics where it does not fit.
abbrev pub u256_as_u64 : ℕ → Result Text ℕ
u256_as_u64 n = if ltb n (2 ^ 64) then ok n else panic

-- The `match` on `value.status`.
unfoldable pub to_status : ℕ → Result Text Status
to_status (suc zero) = ok active
to_status (suc (suc zero)) = ok inactive
to_status (suc (suc (suc zero))) = ok killed
to_status n = err (codes "invalid status: " ++ print_u64 n)

module _ {Address FvmAddress : Type 0} (lib : ContractLib Address FvmAddress) where
  unfoldable pub of_contract_info : ContractSubnet → Result Text (SubnetInfo Address)
  unfolding to_status
  of_contract_info value = do
    id ← of_contract_subnet lib value.id
    stake ← eth_to_fil_amount lib value.stake
    circ_supply ← eth_to_fil_amount lib value.circ_supply
    genesis_epoch ← u256_as_u64 value.genesis_epoch
    status ← to_status value.status
    ok (record {
      id = id;
      stake = stake;
      circ_supply = circ_supply;
      genesis_epoch = as_i64 genesis_epoch;
      status = status;
    })

  unfoldable pub to_quorum_event : QuorumReached → Result Text QuorumReachedEvent
  to_quorum_event event = do
    quorum_weight ← eth_to_fil_amount lib event.quorum_weight
    ok (record {
      height = as_i64 event.height;
      checkpoint = event.checkpoint;
      quorum_weight = quorum_weight;
    })

  -- The loop over the addresses and the balances, which stops at the shorter list.
  unfoldable pub insert_balances :
      ⦃e : Eq Address⦄ → List (List ℕ) → List ℕ → Map Address ℤ → Result Text (Map Address ℤ)
  insert_balances [] balances map = ok map
  insert_balances (a ∷ addrs) [] map = ok map
  insert_balances (a ∷ addrs) (b ∷ balances) map = do
    addr ← ethers_address_to_fil_address lib a
    balance ← eth_to_fil_amount lib b
    insert_balances addrs balances (insert addr balance map)

  unfoldable pub into_genesis_balance_map :
      ⦃e : Eq Address⦄ → List (List ℕ) → List ℕ → Result Text (Map Address ℤ)
  unfolding insert_balances
  into_genesis_balance_map addrs balances = insert_balances addrs balances []

  -- The loop that fills the map of `list_child_subnets`.
  unfoldable pub insert_infos :
      ⦃e : Eq Address⦄
      → List ContractSubnet
      → Map (SubnetId Address) (SubnetInfo Address)
      → Result Text (Map (SubnetId Address) (SubnetInfo Address))
  unfolding of_contract_info
  insert_infos [] infos = ok infos
  insert_infos (subnet ∷ subnets) infos = do
    info ← of_contract_info subnet
    insert_infos subnets (insert info.id info infos)
