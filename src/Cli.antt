-- ===== src/Cli.antt =====
-- ipc/cli/src/commands/mod.rs: how the command line reads its arguments and opens a provider. What
-- a command prints is its result.
pub mod Subnets
pub mod CrossMsgs
pub mod Unread
mod Tests
use ipc_client.Base.{
  ℕ, Option, none, some, List, Result, ok, err, panic, ◌*◌, ◌^◌, ◌⊎◌, inl, inr, Eq,
}
use ipc_client.Base.Exec.{Exec, ◌>>=◌, pure}
use ipc_client.Base.Int.{ℤ, pos}
use ipc_client.Base.Text.{Text, codes}
use ipc_client.Sdk.Fvm.{AddressLib}
use ipc_client.Sdk.SubnetId.{
  SubnetId, Error, invalid_id, invalid_ipc_addr, fvm_address_error, from_str,
}
use ipc_client.Provider.SubnetManager.{Payloads}
use ipc_client.Provider.Client.{IpcProvider, Connector, State}
use ipc_client.Provider.Client.Setup.{Stores, new_from_config}
use ipc_client.Provider.Config.Reload.{ConfigFiles}

-- What the arguments are read with: `f64`, whose cast to `u128` saturates; the addresses of ethers;
-- the crate hex; and the text of an error of fvm_shared.
pub record ArgumentLib (Address : Type 0) ⦃fvm : AddressLib Address⦄ : Type 1 where
  pub Float : Type 0
  pub times : Float → Float → Float
  pub trunc : Float → Float
  pub float_of : ℕ → Float
  pub as_u128 : Float → ℕ
  pub Raw : Type 0
  pub raw_from_str : Text → Result Text Raw
  pub ethers_address_to_fil_address : Raw → Result Text Address
  pub hex_decode : Text → Result Text (List ℕ)
  pub error_text : fvm.Error → Text

-- `Display` of the error of a subnet identifier
abbrev pub display : {E : Type 0} → Error E → Text
display invalid_id = codes "invalid subnet id"
display invalid_ipc_addr = codes "invalid IPC address"
display (fvm_address_error e) = codes "fvm shared address error"

abbrev pub fil_amount_nano_digits : ℕ
fil_amount_nano_digits = 9

module _ {Address : Type 0} ⦃fvm : AddressLib Address⦄ (args : ArgumentLib Address) where
  -- Whole FIL as atto: `TokenAmount::from_nano` has 10 ^ 9 of them in each nano.
  unfoldable pub f64_to_token_amount : args.Float → Result Text ℤ
  f64_to_token_amount f =
      let nano = args.trunc (args.times f (args.float_of (10 ^ fil_amount_nano_digits))) in
      ok (pos (args.as_u128 nano * 10 ^ 9))

  unfoldable pub require_fil_addr_from_str : Text → Result Text Address
  require_fil_addr_from_str s = elim (fvm.from_str s) [
    | inl e ↦ (elim (args.raw_from_str s) [
      | ok raw ↦ args.ethers_address_to_fil_address raw
      | err m ↦ err m
      | panic ↦ panic
    ])
    | inr addr ↦ ok addr
  ]

  -- An address that may be left out.
  unfoldable pub optional_addr : Option Text → Result Text (Option Address)
  optional_addr none = ok none
  optional_addr (some address) = elim (require_fil_addr_from_str address) [
    | ok addr ↦ ok (some addr)
    | err m ↦ err m
    | panic ↦ panic
  ]

  -- `Address::from_str(address)?`
  unfoldable pub fil_addr : Text → Result Text Address
  fil_addr s = elim (fvm.from_str s) [ inl e ↦ err (args.error_text e) | inr addr ↦ ok addr ]

  unfoldable pub optional_fil_addr : Option Text → Result Text (Option Address)
  optional_fil_addr none = ok none
  optional_fil_addr (some address) = elim (fvm.from_str address) [
    | inl e ↦ err (args.error_text e)
    | inr addr ↦ ok (some addr)
  ]

  unfoldable pub optional_amount : Option args.Float → Result Text (Option ℤ)
  optional_amount none = ok none
  optional_amount (some f) = elim (f64_to_token_amount f) [
    | ok a ↦ ok (some a)
    | err m ↦ err m
    | panic ↦ panic
  ]

  -- `SubnetID::from_str(subnet)?`
  unfoldable pub subnet_named : Text → Result Text (SubnetId Address)
  subnet_named s = elim (from_str ⦃fvm = fvm⦄ s) [
    | ok subnet ↦ ok subnet
    | err e ↦ err (display e)
    | panic ↦ panic
  ]

-- What a command gave is printed.
unfoldable pub printed : {World A : Type 0} → Exec Text World A → Exec Text World (Unit {0})
printed m = m >>= λ a. pure tt

module _ {Address Eth World : Type 0} {P : Payloads} ⦃e : Eq Address⦄
    (connector : Connector Address Eth World P) where
  -- A command makes a provider, uses it, and leaves the world.
  unfoldable pub with_provider :
      {A : Type 0}
      → Exec Text World (IpcProvider Address Eth World)
      → Exec Text (State connector) A
      → Exec Text World A
  with_provider opening m = opening >>= λ provider w. let (r, (_, w')) = m (provider, w) in (r, w')

module _ {Address Eth World : Type 0} (stores : Stores Address Eth World)
    (files : ConfigFiles Address World) where
  -- `global.config_path()` is the text of the path.
  unfoldable pub get_ipc_provider : Text → Exec Text World (IpcProvider Address Eth World)
  get_ipc_provider config_path = new_from_config stores files config_path
