-- ===== src/Sdk/IpcAddress.antt =====
-- ipc/sdk/src/address.rs: an address with the subnet that it belongs to.
pub mod Print
use ipc_client.Base.{Bool, true, false, inl, inr, List, [], ◌∷◌, ◌++◌, Result, ok, err, ◌>>=◌}
use ipc_client.Base.Text.{Text, split}
use ipc_client.Sdk.Fvm.{AddressLib, Protocol, id, secp256k1, actor, bls, delegated}
use ipc_client.Sdk.SubnetId
use ipc_client.Sdk.SubnetId.{Error, invalid_ipc_addr, fvm_address_error, SubnetId}

pub record IpcAddress (Address : Type 0) : Type 0 where
  pub subnet_id : SubnetId Address
  pub raw_address : Address

module _ {Address : Type 0} {E : Type 0} where
  -- The three methods return `Ok` always.
  unfoldable pub new : SubnetId Address → Address → Result E (IpcAddress Address)
  new sn addr = ok (record { subnet_id = sn; raw_address = addr })

  unfoldable pub subnet : IpcAddress Address → Result E (SubnetId Address)
  subnet self = ok self.subnet_id

  unfoldable pub raw_addr : IpcAddress Address → Result E Address
  raw_addr self = ok self.raw_address

abbrev is_contract_protocol : Protocol → Bool
is_contract_protocol delegated = true
is_contract_protocol actor = true
is_contract_protocol _ = false

abbrev is_account_protocol : Protocol → Bool
is_account_protocol delegated = true
is_account_protocol bls = true
is_account_protocol secp256k1 = true
is_account_protocol id = true
is_account_protocol _ = false

module _ {Address : Type 0} ⦃fvm : AddressLib Address⦄ where
  -- `Display`, and `to_string`, which formats the same three parts
  unfoldable pub to_string : IpcAddress Address → Text
  to_string self = SubnetId.to_string self.subnet_id ++ b':' ∷ fvm.to_string self.raw_address

  unfoldable pub is_valid_contract_address : Address → Bool
  is_valid_contract_address addr = is_contract_protocol (fvm.protocol addr)

  unfoldable pub is_valid_account_address : Address → Bool
  is_valid_account_address addr = is_account_protocol (fvm.protocol addr)

  -- `Address::from_str(r[1])?`, with `From<fvm_shared::address::Error>` for the error
  abbrev pub parse_raw : Text → Result (Error fvm.Error) Address
  parse_raw s = elim (fvm.from_str s) [ inr a ↦ ok a | inl e ↦ err (fvm_address_error e) ]

  -- Two pieces; the raw address is read before the subnet.
  unfoldable pub from_parts : List Text → Result (Error fvm.Error) (IpcAddress Address)
  from_parts (a ∷ b ∷ []) = do
    raw_address ← parse_raw b
    subnet_id ← SubnetId.from_str a
    ok (record { subnet_id = subnet_id; raw_address = raw_address })
  from_parts _ = err invalid_ipc_addr

  unfoldable pub from_str : Text → Result (Error fvm.Error) (IpcAddress Address)
  unfolding from_parts
  from_str addr = from_parts (split b':' addr)
