-- ===== src/Sdk/Validator/Tests.antt =====
-- A list of two validators.
use ipc_client.Base.{ℕ, ◌^◌, ◌≡◌, refl, arith, List, [], ◌∷◌, ok}
use ipc_client.Base.Int.{pos}
use ipc_client.Sdk.Contract.Fixtures.{bytes, bytes-IsLawful, repeat}
use ipc_client.Sdk.Validator.{
  Validator, ContractWeight, into_contract_validators, from_contract_validators,
}
use ipc_client.Sdk.Validator.RoundTrip.{from_contract_validators-into_contract_validators}

abbrev validators : List (Validator (List ℕ))
validators =
    record { addr = repeat 20 1; metadata = 3 ∷ []; weight = pos (10 ^ 18) }
    ∷ record { addr = repeat 20 2; metadata = []; weight = pos 5 }
    ∷ []

from_contract_validators-into_contract_validators_example :
    (cs : List ContractWeight) × (into_contract_validators bytes validators ≡ ok cs)
    × (from_contract_validators bytes cs ≡ ok validators)
from_contract_validators-into_contract_validators_example =
    from_contract_validators-into_contract_validators bytes-IsLawful validators (
      ((repeat 20 1, refl, refl, refl), (10 ^ 18, refl, omega arith)),
      (((repeat 20 2, refl, refl, refl), (5, refl, omega arith)), tt),
    )
