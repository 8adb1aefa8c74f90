-- ===== src/Provider/Config.antt =====
-- ipc/provider/src/config: the subnets that a client knows (mod.rs, subnet.rs).
pub mod Serial
pub mod Reload
mod Tests
use ipc_client.Base.{◌≡◌, Option, none, some, [], Eq, ◌==◌, if◌then◌else◌}
use ipc_client.Base.Map.{Map, lookup, insert, remove, lookup-insert, lookup-remove}
use ipc_client.Base.Text.{Text}
use ipc_client.Sdk.SubnetId.{SubnetId, subnet_id_eq}

-- A URL is its text.
pub record EvmSubnet (Address : Type 0) : Type 0 where
  pub provider_http : Text
  pub auth_token : Option Text
  pub registry_addr : Address
  pub gateway_addr : Address

pub data SubnetConfig (Address : Type 0) : Type 0 where
  fevm : EvmSubnet Address → SubnetConfig Address

pub record Subnet (Address : Type 0) : Type 0 where
  pub id : SubnetId Address
  pub config : SubnetConfig Address

pub data NetworkType : Type 0 where
  fevm_network : NetworkType

pub record Config (Address : Type 0) : Type 0 where
  pub keystore_path : Option Text
  pub subnets : Map (SubnetId Address) (Subnet Address)

module _ {Address : Type 0} where
  abbrev pub network_type : Subnet Address → NetworkType
  network_type self = elim self.config [ fevm s ↦ fevm_network ]

  abbrev pub auth_token : Subnet Address → Option Text
  auth_token self = elim self.config [ fevm s ↦ s.auth_token ]

  abbrev pub rpc_http : Subnet Address → Text
  rpc_http self = elim self.config [ fevm s ↦ s.provider_http ]

  abbrev pub gateway_addr : Subnet Address → Address
  gateway_addr self = elim self.config [ fevm s ↦ s.gateway_addr ]

  -- `Config::new`, and `Config::default`
  abbrev pub new : Config Address
  new = record { keystore_path = none; subnets = [] }

module _ {Address : Type 0} ⦃e : Eq Address⦄ where
  unfoldable pub add_subnet : Subnet Address → Config Address → Config Address
  add_subnet subnet self = record self { subnets = insert subnet.id subnet self.subnets }

  unfoldable pub remove_subnet : SubnetId Address → Config Address → Config Address
  remove_subnet subnet_id self = record self { subnets = remove subnet_id self.subnets }

  -- After a subnet is added, its identifier finds it, and every other identifier finds what it
  -- found before.
  lookup-add_subnet :
      (s : Subnet Address) (c : Config Address) (id : SubnetId Address)
      → lookup id (add_subnet s c).subnets ≡ (if s.id == id then some s else lookup id c.subnets)
  unfolding add_subnet
  lookup-add_subnet s c id = lookup-insert s.id id s c.subnets

  -- After a subnet is removed, its identifier finds nothing, and every other identifier finds what
  -- it found before.
  lookup-remove_subnet :
      (removed : SubnetId Address) (c : Config Address) (id : SubnetId Address)
      → lookup id (remove_subnet removed c).subnets
        ≡ (if removed == id then none else lookup id c.subnets)
  unfolding remove_subnet
  lookup-remove_subnet removed c id = lookup-remove removed id c.subnets
