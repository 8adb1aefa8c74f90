-- ===== src/Sdk/Staking/Relayed.antt =====
-- A change of a stake on its way from the parent to the child.
use ipc_client.Base.{ℕ, zero, suc, ◌<◌, ◌≡◌, refl, arith, some, ok, length}
use ipc_client.Sdk.Contract.{ContractLib}
use ipc_client.Sdk.Contract.RoundTrip.{
  IsLawful, payload_to_evm_address_lem, ethers_address_to_fil_address_lem,
}
use ipc_client.Sdk.Staking.{
  StakingChangeRequest, LogRequest, from_u8, as_u8, of_log, to_contract_change,
  to_contract_change_request,
}

pub as_u8-from_u8 : (n : ℕ) → n < 3 → as_u8 (from_u8 n) ≡ n
unfolding as_u8 from_u8
as_u8-from_u8 zero h = refl
as_u8-from_u8 (suc zero) h = refl
as_u8-from_u8 (suc (suc n)) h = omega arith

module _ {Address FvmAddress : Type 0} {lib : ContractLib Address FvmAddress}
    (laws : IsLawful lib) where
  -- With lawful texts: a change that the parent logged, of one of the three kinds and of a
  -- validator whose 20 bytes make a delegated address with those bytes, is read, and what is then
  -- submitted to the child's gateway has the kind, payload, validator and configuration number
  -- that were logged.
  pub to_contract_change_request-of_log :
      (l : LogRequest)
      → l.op < 3
      → length l.validator ≡ 20
      → lib.delegated (lib.from_eth l.validator) ≡ some l.validator
      → (r : StakingChangeRequest Address) × (of_log lib l ≡ ok r)
        × (to_contract_change_request lib r
            ≡ ok (record {
              change = record { op = l.op; payload = l.payload; validator = l.validator };
              configuration_number = l.configuration_number;
            }))
  unfolding of_log to_contract_change_request to_contract_change
  to_contract_change_request-of_log l k n d = (
    record {
      configuration_number = l.configuration_number;
      change = record {
        op = from_u8 l.op;
        payload = l.payload;
        validator = lib.from_eth l.validator;
      };
    },
    rw (ethers_address_to_fil_address_lem laws l.validator n) refl,
    rw
        (
          payload_to_evm_address_lem laws (lib.from_eth l.validator) l.validator n d,
          as_u8-from_u8 l.op k,
        )
        refl,
  )
