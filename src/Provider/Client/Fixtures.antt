-- ===== src/Provider/Client/Fixtures.antt =====
-- A network with a root and one child, and a provider for it, for tests.
use ipc_client.Base.{length, ℕ, ◌+◌, false, none, some, [], ◌∷◌, ok, nat_eq}
use ipc_client.Base.Int.{pos}
use ipc_client.Sdk.SubnetId.{SubnetId, subnet_id_eq}
use ipc_client.Provider.Config.{Subnet, fevm}
use ipc_client.Provider.SubnetManager.{SubnetManager, Payloads}
use ipc_client.Provider.Client.{EvmWallet, IpcProvider, Connector}

abbrev pub root_id : SubnetId ℕ
root_id = record { root = 314; children = [] }

abbrev pub child_id : SubnetId ℕ
child_id = record { root = 314; children = 1 ∷ [] }

abbrev pub P : Payloads
P = record {
  SubnetInfo = Unit {0};
  SubnetGenesisInfo = Unit {0};
  ValidatorInfo = Unit {0};
  StakingChangeRequest = Unit {0};
  Bundle = Unit {0};
}

-- A manager that counts its calls.
abbrev pub counter : SubnetManager ℕ ℕ P
counter = record {
  create_subnet = λ _ _ w. (ok w, w + 1);
  join_subnet = λ _ _ _ _ w. (ok (pos w), w + 1);
  pre_fund = λ _ _ _ w. (ok tt, w + 1);
  pre_release = λ _ _ _ w. (ok tt, w + 1);
  stake = λ _ _ _ w. (ok tt, w + 1);
  unstake = λ _ _ _ w. (ok tt, w + 1);
  leave_subnet = λ _ _ w. (ok tt, w + 1);
  kill_subnet = λ _ _ w. (ok tt, w + 1);
  list_child_subnets = λ _ w. (ok [], w + 1);
  claim_collateral = λ _ _ w. (ok tt, w + 1);
  claim_relayer_reward = λ _ _ w. (ok tt, w + 1);
  fund = λ _ _ _ _ _ w. (ok (pos w), w + 1);
  release = λ _ _ _ _ _ w. (ok (pos w), w + 1);
  send_value = λ _ _ _ w. (ok tt, w + 1);
  wallet_balance = λ _ w. (ok (pos w), w + 1);
  get_chain_id = λ w. (ok [], w + 1);
  get_genesis_info = λ _ w. (ok tt, w + 1);
  add_bootstrap = λ _ _ _ w. (ok tt, w + 1);
  list_bootstrap_nodes = λ _ w. (ok [], w + 1);
  get_validator_info = λ _ _ w. (ok tt, w + 1);
  genesis_epoch = λ _ w. (ok (pos w), w + 1);
  chain_head_height = λ w. (ok (pos w), w + 1);
  get_top_down_msgs = λ _ _ _ w. (ok [], w + 1);
  get_block_hash = λ _ w. (ok (record { parent_block_hash = []; block_hash = [] }), w + 1);
  get_validator_changeset = λ _ _ w. (ok (record { value = []; block_hash = [] }), w + 1);
  latest_parent_finality = λ w. (ok (pos w), w + 1);
  checkpoint_bundle_at = λ _ w. (ok tt, w + 1);
  has_submitted_in_last_checkpoint_height = λ _ _ w. (ok false, w + 1);
  last_bottom_up_checkpoint_height = λ _ w. (ok (pos w), w + 1);
  quorum_reached_events = λ _ w. (ok [], w + 1);
}

abbrev pub config_of : SubnetId ℕ → ℕ → Subnet ℕ
config_of subnet gateway = record {
  id = subnet;
  config = fevm (record {
    provider_http = [];
    auth_token = none;
    registry_addr = 20;
    gateway_addr = gateway;
  });
}

abbrev pub wallet : EvmWallet ℕ ℕ
wallet = record {
  get_default = λ w. (ok (some 77), w + 1);
  put = λ i w. (ok (length i.private_key), w + 1);
}

abbrev pub connector : Connector ℕ ℕ ℕ P
connector = record {
  from_subnet_with_wallet_store = λ _ _. ok counter;
  to_address = λ eth. ok (eth + 100);
}

-- It knows the root and the child, and no sender.
abbrev pub provider : IpcProvider ℕ ℕ ℕ
provider = record {
  sender = none;
  config = record {
    keystore_path = none;
    subnets = (root_id, config_of root_id 21) ∷ (child_id, config_of child_id 22) ∷ [];
  };
  fvm_wallet = none;
  evm_keystore = some wallet;
}
