-- ===== src/Sdk/Validator.antt =====
-- ipc/sdk/src/validator.rs: validators, as the subnet actor has them and back.
pub mod RoundTrip
mod Tests
use ipc_client.Base.{ℕ, List, Result, ok, ◌>>=◌}
use ipc_client.Base.Int.{ℤ}
use ipc_client.Base.Text.{Text}
use ipc_client.Sdk.Contract.{
  ContractLib, collect, payload_to_evm_address, ethers_address_to_fil_address, fil_to_eth_amount,
  eth_to_fil_amount,
}

pub record Validator (Address : Type 0) : Type 0 where
  pub addr : Address
  pub metadata : List ℕ
  pub weight : ℤ

-- `subnet_actor_getter_facet::Validator`
pub record ContractWeight : Type 0 where
  pub addr : List ℕ
  pub weight : ℕ
  pub metadata : List ℕ

module _ {Address FvmAddress : Type 0} (lib : ContractLib Address FvmAddress) where
  unfoldable pub to_contract_weight : Validator Address → Result Text ContractWeight
  to_contract_weight value = payload_to_evm_address lib value.addr >>= λ addr.
      fil_to_eth_amount lib value.weight >>= λ weight.
      ok (record { addr = addr; weight = weight; metadata = value.metadata })

  unfoldable pub of_contract_weight : ContractWeight → Result Text (Validator Address)
  of_contract_weight validator = ethers_address_to_fil_address lib validator.addr >>= λ addr.
      eth_to_fil_amount lib validator.weight >>= λ weight.
      ok (record { addr = addr; metadata = validator.metadata; weight = weight })

  unfoldable pub into_contract_validators :
      List (Validator Address) → Result Text (List ContractWeight)
  unfolding to_contract_weight collect
  into_contract_validators vals = collect to_contract_weight vals

  unfoldable pub from_contract_validators :
      List ContractWeight → Result Text (List (Validator Address))
  unfolding of_contract_weight collect
  from_contract_validators vals = collect of_contract_weight vals
