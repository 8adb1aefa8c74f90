-- ===== src/Sdk/Staking/Tests.antt =====
-- A withdrawal that is relayed.
use ipc_client.Base.{◌≡◌, refl, arith, ok, []}
use ipc_client.Base.Int.{pos}
use ipc_client.Sdk.Contract.Fixtures.{bytes, bytes-IsLawful, repeat}
use ipc_client.Sdk.Contract.{eth_to_fil_amount}
use ipc_client.Sdk.Staking.{
  StakingChangeRequest, LogRequest, of_log, to_contract_change_request, of_contract_validator,
  from_u8, set_metadata,
}
use ipc_client.Sdk.Staking.Relayed.{to_contract_change_request-of_log}

abbrev withdrawal : LogRequest
withdrawal = record {
  op = 1;
  validator = repeat 20 9;
  payload = repeat 32 0;
  configuration_number = 12;
}

to_contract_change_request-of_log_example :
    (r : StakingChangeRequest _) × (of_log bytes withdrawal ≡ ok r)
    × (to_contract_change_request bytes r
        ≡ ok (record {
          change = record { op = 1; payload = repeat 32 0; validator = repeat 20 9 };
          configuration_number = 12;
        }))
to_contract_change_request-of_log_example =
    to_contract_change_request-of_log bytes-IsLawful withdrawal (omega arith) refl refl

validator_read :
    of_contract_validator bytes
      (record { confirmed_collateral = 5; total_collateral = 8; metadata = [] })
    ≡ ok (record { confirmed_collateral = pos 5; total_collateral = pos 8; metadata = [] })
unfolding of_contract_validator eth_to_fil_amount
validator_read = refl

-- A code that is not known is read as a change of the metadata.
unknown_operation : from_u8 9 ≡ set_metadata
unfolding from_u8
unknown_operation = refl
