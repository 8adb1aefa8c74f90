-- ===== src/Provider/Client/Tests.antt =====
-- The theorems on the provider, at a network with a root and one child.
use ipc_client.Base.{
  length, ℕ, zero, suc, ◌+◌, ◌≡◌, ◌≢◌, refl, arith, Bool, true, false, Option, none, some, List, [],
  ◌∷◌, ◌++◌, Result, ok, err, panic, ◌==◌, nat_eq, if◌then◌else◌, ◌⊎◌, inl, inr,
}
use ipc_client.Base.Int.{pos}
use ipc_client.Sdk.SubnetId.{SubnetId, subnet_id_eq, new_root}
use ipc_client.Provider.Client.{
  EvmWallet, Connection, IpcProvider, Connector, State, on_world, connect, connection, check_sender,
  unwrap_or,
}
use ipc_client.Provider.Client.Transactions.{
  join_subnet, pre_fund, pre_release, stake, unstake, leave_subnet, claim_collateral,
  claim_relayer_reward, kill_subnet, fund, add_bootstrap,
}
use ipc_client.Provider.Client.Queries.{
  genesis_epoch, get_genesis_info, list_bootstrap_nodes, get_validator_info,
  get_validator_changeset, get_top_down_msgs, has_submitted_in_last_checkpoint_height,
  last_bottom_up_checkpoint_height,
}
use ipc_client.Base.Exec.{◌>>=◌}
use ipc_client.Base.Text.{codes}
use ipc_client.Identity.Fixtures.{evm_host, byte_keys, two_keys_file, two_keys-IsConsistent}
use ipc_client.Identity.Evm.Persistent.{flush_no_encryption}
use ipc_client.Provider.Client.Store.{World, store_wallet, check_sender-store}
use ipc_client.Provider.Client.Sender.{SendsAs, check_sender-again, transactions-SendsAs}
use ipc_client.Provider.Client.Fixtures.{
  root_id, child_id, P, counter, config_of, connector, provider,
}
use ipc_client.Provider.Client.Routing.{Rejects, root-Rejects}

-- The same with a sender.
abbrev sending : IpcProvider ℕ ℕ ℕ
sending = record provider { sender = some 5 }

abbrev connection_of : SubnetId ℕ → ℕ → Connection ℕ ℕ P
connection_of subnet gateway = record { subnet = config_of subnet gateway; manager = counter }

root_is_connected : connection connector sending root_id ≡ some (connection_of root_id 21)
unfolding connection ipc_client.Base.Map.lookup
root_is_connected = refl

sender_is_chosen :
    (id : SubnetId ℕ) (gateway : ℕ)
    → check_sender connector (config_of id gateway) none (sending, 0) ≡ (ok 5, (sending, 0))
unfolding check_sender
sender_is_chosen id gateway = refl

default_is_chosen : (check_sender connector (config_of root_id 21) none (provider, 0)).0 ≡ ok 177
unfolding check_sender ipc_client.Provider.Client.default_sender
default_is_chosen = refl

check_sender-again_example :
    check_sender connector
      (config_of child_id 22)
      none
      (check_sender connector (config_of root_id 21) none (provider, 0)).1
    ≡ (ok 177, (check_sender connector (config_of root_id 21) none (provider, 0)).1)
check_sender-again_example =
    check_sender-again connector (config_of root_id 21) (config_of child_id 22) (provider, 0) 177
      default_is_chosen

transactions-SendsAs_example :
    SendsAs connector 5 (λ from. join_subnet connector child_id from (pos 3) []) (sending, 0)
    × SendsAs connector 5 (λ from. pre_fund connector child_id from (pos 3)) (sending, 0)
    × SendsAs connector 5 (λ from. pre_release connector child_id from (pos 3)) (sending, 0)
    × SendsAs connector 5 (λ from. stake connector child_id from (pos 3)) (sending, 0)
    × SendsAs connector 5 (λ from. unstake connector child_id from (pos 3)) (sending, 0)
    × SendsAs connector 5 (λ from. leave_subnet connector child_id from) (sending, 0)
    × SendsAs connector 5 (λ from. claim_collateral connector child_id from) (sending, 0)
    × SendsAs connector 5 (λ from. claim_relayer_reward connector child_id from) (sending, 0)
    × SendsAs connector 5 (λ from. kill_subnet connector child_id from) (sending, 0)
transactions-SendsAs_example =
    transactions-SendsAs connector child_id (pos 3) [] 5 (sending, 0) refl

root-Rejects_example :
    let id : SubnetId ℕ = new_root 314 in
    let no_parent = codes "no parent found" in
    Rejects connector no_parent (join_subnet connector id none (pos 3) []) (sending, 0)
    × Rejects connector no_parent (pre_fund connector id none (pos 3)) (sending, 0)
    × Rejects connector no_parent (pre_release connector id none (pos 3)) (sending, 0)
    × Rejects connector no_parent (stake connector id none (pos 3)) (sending, 0)
    × Rejects connector no_parent (unstake connector id none (pos 3)) (sending, 0)
    × Rejects connector no_parent (leave_subnet connector id none) (sending, 0)
    × Rejects connector no_parent (claim_collateral connector id none) (sending, 0)
    × Rejects connector no_parent (claim_relayer_reward connector id none) (sending, 0)
    × Rejects connector no_parent (kill_subnet connector id none) (sending, 0)
    × Rejects connector no_parent (fund connector id none none none (pos 3)) (sending, 0)
    × Rejects connector no_parent (add_bootstrap connector id none []) (sending, 0)
    × Rejects connector no_parent (genesis_epoch connector id) (sending, 0)
    × Rejects connector no_parent (get_genesis_info connector id) (sending, 0)
    × Rejects connector no_parent (list_bootstrap_nodes connector id) (sending, 0)
    × Rejects connector no_parent (get_validator_info connector id 8) (sending, 0)
    × Rejects connector no_parent (get_validator_changeset connector id (pos 2)) (sending, 0)
    × Rejects connector no_parent (get_top_down_msgs connector id (pos 2) []) (sending, 0)
    × Rejects connector no_parent
        (has_submitted_in_last_checkpoint_height connector id 8)
        (sending, 0)
    × Rejects connector no_parent (last_bottom_up_checkpoint_height connector id) (sending, 0)
root-Rejects_example =
    root-Rejects connector 314 none none none (pos 3) [] [] 8 (pos 2) [] (sending, 0)

-- The world is a store of EVM keys with its file.
abbrev store_connector : Connector ℕ ℕ (World byte_keys evm_host) P
store_connector = record {
  from_subnet_with_wallet_store = λ _ _. err [];
  to_address = λ eth. ok (eth + 100);
}

abbrev store_provider : IpcProvider ℕ ℕ (World byte_keys evm_host)
store_provider = record {
  sender = none;
  config = provider.config;
  fvm_wallet = none;
  evm_keystore = some (store_wallet byte_keys evm_host);
}

file_is_written : (flush_no_encryption byte_keys evm_host (two_keys_file, none)).0 ≡ ok tt
unfolding flush_no_encryption ◌>>=◌
file_is_written = refl

check_sender-store_example :
    ((check_sender store_connector
        (config_of root_id 21)
        none
        (store_provider, (two_keys_file, none))).0
      ≡ ok 104)
    × ((check_sender store_connector
          (config_of root_id 21)
          none
          (store_provider, (two_keys_file, none))).1.0.sender
        ≡ some 104)
check_sender-store_example =
    check_sender-store byte_keys evm_host store_connector store_provider (config_of root_id 21)
      two_keys_file none 4 104 refl refl two_keys-IsConsistent refl file_is_written refl
