-- ===== src/Sdk/Staking.antt =====
-- ipc/sdk/src/staking.rs and evm.rs: changes of the stakes, as the parent's logs have them and as
-- the child's gateway takes them.
pub mod Relayed
mod Tests
use ipc_client.Base.{ℕ, zero, suc, Bool, List, Result, ok, ◌>>=◌}
use ipc_client.Base.Int.{ℤ}
use ipc_client.Base.Text.{Text}
use ipc_client.Sdk.Contract.{
  ContractLib, payload_to_evm_address, ethers_address_to_fil_address, eth_to_fil_amount,
}

pub data StakingOperation : Type 0 where
  deposit withdraw set_metadata : StakingOperation

-- `StakingOperation::from(value: u8)`
unfoldable pub from_u8 : ℕ → StakingOperation
from_u8 zero = deposit
from_u8 (suc zero) = withdraw
from_u8 _ = set_metadata

-- `op as u8`
unfoldable pub as_u8 : StakingOperation → ℕ
as_u8 deposit = 0
as_u8 withdraw = 1
as_u8 set_metadata = 2

pub record StakingChange (Address : Type 0) : Type 0 where
  pub op : StakingOperation
  pub payload : List ℕ
  pub validator : Address

pub record StakingChangeRequest (Address : Type 0) : Type 0 where
  pub configuration_number : ℕ
  pub change : StakingChange Address

pub record ValidatorStakingInfo : Type 0 where
  pub confirmed_collateral : ℤ
  pub total_collateral : ℤ
  pub metadata : List ℕ

-- The event `NewStakingChangeRequest`, and the structs of the gateway and of the subnet actor.
pub record LogRequest : Type 0 where
  pub op : ℕ
  pub validator : List ℕ
  pub payload : List ℕ
  pub configuration_number : ℕ

pub record ContractChange : Type 0 where
  pub op : ℕ
  pub payload : List ℕ
  pub validator : List ℕ

pub record ContractChangeRequest : Type 0 where
  pub change : ContractChange
  pub configuration_number : ℕ

pub record ContractValidator : Type 0 where
  pub confirmed_collateral : ℕ
  pub total_collateral : ℕ
  pub metadata : List ℕ

module _ {Address FvmAddress : Type 0} (lib : ContractLib Address FvmAddress) where
  unfoldable pub of_log : LogRequest → Result Text (StakingChangeRequest Address)
  unfolding from_u8
  of_log value = ethers_address_to_fil_address lib value.validator >>= λ validator. ok (record {
    configuration_number = value.configuration_number;
    change = record { op = from_u8 value.op; payload = value.payload; validator = validator };
  })

  unfoldable pub to_contract_change : StakingChange Address → Result Text ContractChange
  unfolding as_u8
  to_contract_change value = payload_to_evm_address lib value.validator >>= λ validator.
      ok (record { op = as_u8 value.op; payload = value.payload; validator = validator })

  unfoldable pub to_contract_change_request :
      StakingChangeRequest Address → Result Text ContractChangeRequest
  to_contract_change_request value = to_contract_change value.change >>= λ change.
      ok (record { change = change; configuration_number = value.configuration_number })

  unfoldable pub of_contract_validator : ContractValidator → Result Text ValidatorStakingInfo
  of_contract_validator value =
      eth_to_fil_amount lib value.confirmed_collateral >>= λ confirmed_collateral.
      eth_to_fil_amount lib value.total_collateral >>= λ total_collateral. ok (record {
        confirmed_collateral = confirmed_collateral;
        total_collateral = total_collateral;
        metadata = value.metadata;
      })
