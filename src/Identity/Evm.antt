-- ===== src/Identity/Evm.antt =====
-- ipc/identity/src/evm: what the stores of EVM keys share (mod.rs).
pub mod Memory
pub mod Persistent
use ipc_client.Base.{ℕ, ◌≡◌, ◌≢◌, Option, some, List}
use ipc_client.Base.Text.{Text}

pub record KeyInfo : Type 0 where
  pub private_key : List ℕ

-- The trait bounds on the type of keys: `TryFrom<KeyInfo>`, whose error is dropped, `Default` and
-- `ToString`. `Eq` and `Hash` enter as an instance of `Eq`.
pub record KeyLib (T : Type 0) : Type 0 where
  pub try_from : KeyInfo → Option T
  pub default : T
  pub to_string : T → Text

-- The default key is a mark: no private key has it, and its text is no other key's text.
pub record IsLawful {T : Type 0} (key : KeyLib T) : Type 0 where
  pub try_from-ne-default : (info : KeyInfo) → key.try_from info ≢ some key.default
  pub to_string-ne-default : (k : T) → k ≢ key.default → key.to_string k ≢ key.to_string key.default
