-- ===== src/Sdk/Fvm.antt =====
-- What the SDK uses of the crate fvm_shared: addresses and their text. The crate is not part of
-- the repository, so an address type enters as a parameter with these operations.
use ipc_client.Base.{ℕ, ◌≡◌, ◌≢◌, [], ◌⊎◌, inr}
use ipc_client.Base.Text.{Text, IsFree}

-- `fvm_shared::address::Protocol`
pub data Protocol : Type 0 where
  id secp256k1 actor bls delegated : Protocol

pub record AddressLib (Address : Type 0) : Type 1 where
  pub Error : Type 0
  -- `Address::to_string`, the `Display` of an address
  pub to_string : Address → Text
  -- `Address::from_str`: an error, or an address
  pub from_str : Text → Error ⊎ Address
  -- `Address::new_id`
  pub new_id : ℕ → Address
  -- `Address::protocol`
  pub protocol : Address → Protocol

-- The documented behaviour of the text form: it is read back, it is not empty, and it has neither
-- of the separators `/` and `:`.
pub record IsLawful {Address : Type 0} (fvm : AddressLib Address) : Type 0 where
  pub from_str-to_string : (a : Address) → fvm.from_str (fvm.to_string a) ≡ inr a
  pub to_string-ne-nil : (a : Address) → fvm.to_string a ≢ []
  pub slash_free : (a : Address) → IsFree b'/' (fvm.to_string a)
  pub colon_free : (a : Address) → IsFree b':' (fvm.to_string a)
