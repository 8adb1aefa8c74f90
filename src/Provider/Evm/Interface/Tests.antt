-- ===== src/Provider/Evm/Interface/Tests.antt =====
-- Funds for a child of the fixtures' chain.
use mathlib.Core.Path.{◌≡◌}
use ipc_client.Base.{ℕ, refl, nat_eq, list_eq, none, some, List, [], ◌∷◌, ok, err}
use ipc_client.Base.Int.{pos}
use ipc_client.Base.Map.{lookup}
use ipc_client.Base.Text.{codes}
use ipc_client.Sdk.SubnetId.{SubnetId, new_from_parent, chain_id, is_root}
use ipc_client.Sdk.Contract.{ContractCheckpoint, payload_to_evm_address}
use ipc_client.Sdk.Contract.Fixtures.{bytes, repeat}
use ipc_client.Provider.Config.{Subnet, fevm, gateway_addr}
use ipc_client.Provider.Client.{IpcProvider, EvmWallet}
use ipc_client.Provider.Evm.{Chain}
use ipc_client.Provider.Evm.Fixtures.{
  byte_addresses, Sent, node, node-IsHonest, manager, manager-ReadsQuietly, getters_of,
}
use ipc_client.Provider.Evm.Manager.{to_u128, ensure_same_gateway}
use ipc_client.Provider.Evm.Manager.Sends.{Sends}
use ipc_client.Provider.Evm.Manager.Deliveries.{Delivers}
use ipc_client.Provider.Evm.Manager.Gateway.{Funds}
use ipc_client.Provider.Evm.Interface.{Connecting, from_subnet_with_wallet_store}
use ipc_client.Provider.Evm.Interface.Funding.{funding, funding-Sends}

abbrev parent_id : SubnetId (List ℕ)
parent_id = record { root = 314; children = [] }

abbrev parent : Subnet (List ℕ)
parent = record {
  id = parent_id;
  config = fevm (record {
    provider_http = codes "http://localhost:8545";
    auth_token = none;
    registry_addr = repeat 20 8;
    gateway_addr = repeat 20 7;
  });
}

abbrev wallet : EvmWallet (List ℕ) Sent
wallet = record { get_default = λ w. (ok none, w); put = λ k w. (ok [], w) }

-- Every account has the key of the fixtures' manager.
abbrev connecting : Connecting (List ℕ) Sent
connecting = record {
  open_http = λ url token. ok tt;
  hasher = λ s. 7;
  get = λ wallet a w. (ok (some (record { private_key = 1 ∷ 2 ∷ [] })), w);
}

abbrev provider : IpcProvider (List ℕ) (List ℕ) Sent
provider = record {
  sender = none;
  config = record { keystore_path = none; subnets = (parent_id, parent) ∷ [] };
  fvm_wallet = none;
  evm_keystore = some wallet;
}

abbrev checkpoint : ContractCheckpoint
checkpoint = record {
  subnet_id = record { root = 314; route = repeat 20 1 ∷ [] };
  block_height = 0;
  block_hash = [];
  next_configuration_number = 0;
  cross_messages_hash = [];
}

abbrev chain : Sent → Chain (List ℕ) (List ℕ)
chain w = record {
  get_logs = λ a n m. ok [];
  parse_log = λ r. err [];
  get_block = λ n. ok none;
  top_down_msgs = λ s e h. ok [];
}

funding-Sends_example :
    (ensure_same_gateway bytes manager (gateway_addr parent) ≡ ok tt)
    × Sends
        (λ (w : Sent). w)
        (Delivers bytes node manager
          (repeat 20 5)
          (payload_to_evm_address bytes (gateway_addr parent))
          (Funds bytes manager node-IsHonest manager-ReadsQuietly
            (new_from_parent parent_id (repeat 20 1))
            (repeat 20 5))
          (to_u128 (pos 50)))
        (funding bytes
          (getters_of checkpoint [] [])
          chain
          connecting
          ok
          node-IsHonest
          provider
          (new_from_parent parent_id (repeat 20 1))
          (repeat 20 5)
          none
          (pos 50))
unfolding from_subnet_with_wallet_store chain_id is_root payload_to_evm_address lookup
funding-Sends_example =
    funding-Sends bytes (getters_of checkpoint [] []) chain connecting ok node-IsHonest provider
      parent_id (repeat 20 1) (repeat 20 5) none (pos 50) parent manager refl refl
      manager-ReadsQuietly
