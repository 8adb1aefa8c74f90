-- ===== src/Sdk/Validator/RoundTrip.antt =====
-- Validators sent to the subnet actor come back from it.
use ipc_client.Base.{◌≡◌, refl, List, [], ◌∷◌, ok, All}
use ipc_client.Sdk.Contract.{ContractLib, collect}
use ipc_client.Sdk.Contract.RoundTrip.{IsLawful, IsEvm, IsAmount, child_address, amount_lem}
use ipc_client.Sdk.Validator.{
  Validator, ContractWeight, to_contract_weight, of_contract_weight, into_contract_validators,
  from_contract_validators,
}

module _ {Address FvmAddress : Type 0} {lib : ContractLib Address FvmAddress}
    (laws : IsLawful lib) where
  -- A validator with the address of an EVM account and a weight of 256 bits.
  abbrev pub IsSendable : Validator Address → Type 0
  IsSendable v = IsEvm lib v.addr × IsAmount lib v.weight

  -- With lawful texts: a list of validators with addresses of EVM accounts and weights of 256
  -- bits is converted to the contract's form, and that form is converted back to the same list.
  pub from_contract_validators-into_contract_validators :
      (vals : List (Validator Address))
      → All IsSendable vals
      → (cs : List ContractWeight) × (into_contract_validators lib vals ≡ ok cs)
        × (from_contract_validators lib cs ≡ ok vals)
  unfolding into_contract_validators from_contract_validators to_contract_weight of_contract_weight
      collect
  from_contract_validators-into_contract_validators [] all = ([], refl, refl)
  from_contract_validators-into_contract_validators (v ∷ vals) ((e, w), all) =
      let (a, p, q) = child_address laws v.addr e in
      let (n, r, s) = amount_lem laws v.weight w in
      let (cs, t, u) = from_contract_validators-into_contract_validators vals all in
      (
        record { addr = a; weight = n; metadata = v.metadata } ∷ cs,
        rw (p, r, t) refl,
        rw (q, s, u) refl,
      )
