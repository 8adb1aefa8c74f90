-- ===== src/Provider/Client.antt =====
-- ipc/provider/src/lib.rs: the provider, its connections, and the account it sends from. A method
-- acts on the provider and on the world, which holds the wallets and what lies behind the subnets'
-- managers. The locks of the wallets are held by no other thread and are not poisoned.
pub mod Transactions
pub mod Queries
pub mod Wallets
pub mod Setup
pub mod Sender
pub mod Store
pub mod Routing
pub mod Fixtures
mod Tests
use ipc_client.Base.{ℕ, Option, none, some, List, Result, ok, err, panic, Eq}
use ipc_client.Base.Exec.{Exec, pure, lift}
use ipc_client.Base.Map.{Map, lookup}
use ipc_client.Base.Text.{Text, codes}
use ipc_client.Sdk.SubnetId.{SubnetId, subnet_id_eq, parent}
use ipc_client.Provider.Config
use ipc_client.Identity.Evm.{KeyInfo}
use ipc_client.Identity.Fvm as Fvm
use ipc_client.Identity.Fvm.{SignatureType}
use ipc_client.Provider.Config.{Subnet, Config, fevm}
use ipc_client.Provider.SubnetManager.{SubnetManager, Payloads}

-- What the provider asks of the store of EVM keys: the default account, and to keep a key.
pub record EvmWallet (Eth World : Type 0) : Type 0 where
  pub get_default : Exec Text World (Option Eth)
  pub put : KeyInfo → Exec Text World Eth

-- What it asks of the FVM wallet: a new key, and to keep a key.
pub record FvmWallet (Address World : Type 0) : Type 0 where
  pub generate_addr : SignatureType → Exec Text World Address
  pub import_key : Fvm.KeyInfo → Exec Text World Address

pub record Connection (Address World : Type 0) (P : Payloads) : Type 0 where
  pub subnet : Subnet Address
  pub manager : SubnetManager Address World P

-- A wallet is shared by all that hold the provider: what it keeps is in the world.
pub record IpcProvider (Address Eth World : Type 0) : Type 0 where
  pub sender : Option Address
  pub config : Config Address
  pub fvm_wallet : Option (FvmWallet Address World)
  pub evm_keystore : Option (EvmWallet Eth World)

-- `EthSubnetManager::from_subnet_with_wallet_store`, and `Address::try_from` for an EVM account
pub record Connector (Address Eth World : Type 0) (P : Payloads) : Type 0 where
  pub from_subnet_with_wallet_store :
      Subnet Address → Option (EvmWallet Eth World) → Result Text (SubnetManager Address World P)
  pub to_address : Eth → Result Text Address

-- `Option::unwrap_or`, and the `match` that does the same
abbrev pub unwrap_or : {A : Type 0} → Option A → A → A
unwrap_or (some a) default = a
unwrap_or none default = default

module _ {Address Eth World : Type 0} {P : Payloads} ⦃e : Eq Address⦄
    (connector : Connector Address Eth World P) where
  -- A provider and the world it acts on.
  abbrev pub State : Type 0
  State = IpcProvider Address Eth World × World

  unfoldable pub on_world : {A : Type 0} → Exec Text World A → Exec Text State A
  on_world m (self, w) = ((m w).0, (self, (m w).1))

  abbrev pub evm_wallet : IpcProvider Address Eth World → Result Text (EvmWallet Eth World)
  evm_wallet self = elim self.evm_keystore [
    | some wallet ↦ ok wallet
    | none ↦ err (codes "No evm wallet found in provider")
  ]

  abbrev pub connect :
      Subnet Address → Option (EvmWallet Eth World) → Option (Connection Address World P)
  connect subnet wallet = elim (connector.from_subnet_with_wallet_store subnet wallet) [
    | ok manager ↦ some (record { subnet = subnet; manager = manager })
    | err m ↦ none
    | panic ↦ none
  ]

  unfoldable pub connection :
      IpcProvider Address Eth World → SubnetId Address → Option (Connection Address World P)
  connection self subnet = elim (lookup subnet self.config.subnets) [
    | some subnet_config ↦ connect subnet_config self.evm_keystore
    | none ↦ none
  ]

  abbrev pub with_sender : Address → IpcProvider Address Eth World → IpcProvider Address Eth World
  with_sender from self = record self { sender = some from }

  -- The default account of the wallet, which becomes the sender.
  abbrev pub account_sender : Result Text (Option Eth) → Result Text Address
  account_sender (ok none) = err (codes "no default evm account configured")
  account_sender (ok (some addr)) = connector.to_address addr
  account_sender (err m) = err m
  account_sender panic = panic

  abbrev pub remember :
      Result Text Address → IpcProvider Address Eth World → IpcProvider Address Eth World
  remember (ok addr) self = with_sender addr self
  remember (err m) self = self
  remember panic self = self

  -- The account that is sent from when no sender is known.
  unfoldable pub default_sender : Exec Text State Address
  default_sender (self, w) = elim self.evm_keystore [
    | some wallet ↦
        let (account, w') = wallet.get_default w in
        let addr = account_sender account in (addr, (remember addr self, w'))
    | none ↦ (err (codes "No evm wallet found in provider"), (self, w))
  ]

  -- The one kind of subnet is `Fevm`.
  unfoldable pub check_sender : Subnet Address → Option Address → Exec Text State Address
  check_sender subnet (some from) s = (ok from, s)
  check_sender subnet none s = elim s.0.sender [
    | some sender ↦ (ok sender, s)
    | none ↦ default_sender s
  ]

  abbrev pub list_connections :
      IpcProvider Address Eth World → Map (SubnetId Address) (Subnet Address)
  list_connections self = self.config.subnets

  -- The connection of a subnet, or the error `message`.
  unfoldable pub connection_or :
      Text → SubnetId Address → Exec Text State (Connection Address World P)
  connection_or message subnet s = elim (connection s.0 subnet) [
    | some conn ↦ (ok conn, s)
    | none ↦ (err message, s)
  ]

  -- The connection of a subnet's parent, or the error `message` when the parent is not known.
  unfoldable pub parent_connection :
      Text → SubnetId Address → Exec Text State (Connection Address World P)
  parent_connection message subnet s = elim (parent subnet) [
    | some p ↦ connection_or message p s
    | none ↦ (err (codes "no parent found"), s)
  ]
