-- ===== src/Provider/Config/Tests.antt =====
-- The theorems on configurations, at one with a root and its child.
use ipc_client.Base.{ℕ, ◌≡◌, refl, none, [], ◌∷◌, nat_eq}
use ipc_client.Base.Map.{lookup}
use ipc_client.Sdk.SubnetId.{SubnetId, subnet_id_eq}
use ipc_client.Provider.Config.{Subnet, Config, fevm, add_subnet, remove_subnet}
use ipc_client.Provider.Config.Serial.{
  IsKeyed, serialize_subnets, deserialize_subnets, add_remove-IsKeyed,
  deserialize-serialize_subnets,
}

abbrev root_id : SubnetId ℕ
root_id = record { root = 314; children = [] }

abbrev child_id : SubnetId ℕ
child_id = record { root = 314; children = 1 ∷ [] }

abbrev subnet_of : SubnetId ℕ → Subnet ℕ
subnet_of id = record {
  id = id;
  config =
      fevm
        (record { provider_http = []; auth_token = none; registry_addr = 20; gateway_addr = 21 });
}

abbrev config : Config ℕ
config = record {
  keystore_path = none;
  subnets = (root_id, subnet_of root_id) ∷ (child_id, subnet_of child_id) ∷ [];
}

config-IsKeyed : IsKeyed config.subnets
unfolding lookup
config-IsKeyed = ((refl, (refl, tt)), (refl, (refl, tt)))

add_remove-IsKeyed_example :
    IsKeyed (add_subnet (subnet_of child_id) config).subnets
    × IsKeyed (remove_subnet root_id config).subnets
add_remove-IsKeyed_example = add_remove-IsKeyed (subnet_of child_id) root_id config config-IsKeyed

deserialize-serialize_subnets_example :
    lookup child_id (deserialize_subnets (serialize_subnets config.subnets))
    ≡ lookup child_id config.subnets
deserialize-serialize_subnets_example =
    deserialize-serialize_subnets config.subnets child_id config-IsKeyed
