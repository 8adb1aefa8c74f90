-- ===== src/Identity/Fvm.antt =====
-- ipc/identity/src/fvm: FVM keys, the errors of their stores (errors.rs), and the Lotus form of a
-- key (`KeyInfo` of keystore.rs).
pub mod Host
pub mod KeyStore
pub mod Wallet
use ipc_client.Base.{ℕ, List, ◌++◌}
use ipc_client.Base.Text.{Text, codes}

-- `fvm_shared::crypto::signature::SignatureType`
pub data SignatureType : Type 0 where
  secp256k1 bls : SignatureType

pub record KeyInfo : Type 0 where
  pub key_type : SignatureType
  pub private_key : List ℕ

pub data Error : Type 0 where
  key_info : Error
  key_exists : Error
  key_not_exists : Error
  no_key : Error
  io : Text → Error
  other : Text → Error
  key_info_conversion : Error

-- `Display`, which is also the message of the error within `anyhow`.
abbrev pub error_text : Error → Text
error_text key_info = codes "Key info not found"
error_text key_exists = codes "Key already exists"
error_text key_not_exists = codes "Key does not exist"
error_text no_key = codes "Key not found"
error_text (io e) = codes "IO Error: " ++ e
error_text (other e) = e
error_text key_info_conversion = codes "Could not convert from KeyInfo to Key"
