-- ===== src/Provider/Evm/Fixtures.antt =====
-- Addresses that are bytes, a subnet, and a node that keeps what was sent, for tests.
use ipc_client.Base.{
  ℕ, refl, sym, ap, Option, false, err, none, some, List, [], ◌∷◌, ◌++◌, ok, panic, inr,
}
use ipc_client.Base.Exec.{Exec}
use ipc_client.Base.Int.{pos}
use ipc_client.Base.Text.{Text}
use ipc_client.Identity.Evm.{KeyInfo}
use ipc_client.Sdk.Fvm.{AddressLib, delegated}
use ipc_client.Sdk.SubnetId.{SubnetId}
use ipc_client.Sdk.Contract.{ContractCheckpoint}
use ipc_client.Sdk.Contract.Fixtures.{repeat}
use ipc_client.Provider.Evm.Manager.{Transaction, Node, EthSubnetManager}
use ipc_client.Provider.Evm.Views.{Getters}
use ipc_client.Provider.Evm.Manager.Calls.{IsHonest, ReadsQuietly}

instance abbrev pub byte_addresses : AddressLib (List ℕ)
byte_addresses = record {
  Error = Unit {0};
  to_string = λ a. a;
  from_str = inr;
  new_id = λ n. n ∷ [];
  protocol = λ a. delegated;
}

abbrev pub subnet : SubnetId (List ℕ)
subnet = record { root = 314; children = repeat 20 1 ∷ repeat 20 2 ∷ [] }

-- The world is the transactions that were sent. The third block reported no reward.
abbrev pub Sent : Type 0
Sent = List (Transaction (List ℕ))

abbrev pub node : Node (List ℕ) (List ℕ) ℕ Sent
node = record {
  latest_block = λ w. (ok (some (some 100)), w);
  fee_history = λ w. (ok ((3 ∷ []) ∷ (5 ∷ []) ∷ (0 ∷ []) ∷ []), w);
  send = λ t w. (ok 1, w ++ t ∷ []);
  receipt = λ p n w. (ok (some (record { block_number = some 7; logs = repeat 20 9 ∷ [] })), w);
  wait = λ p w. (ok tt, w);
  cross_msg_fee = λ a w. (ok 2, w);
  get_balance = λ a w. (ok 1000, w);
  wallet_from_bytes = ok;
  parse_deployed = some;
  parse_socket = λ s. some (s, 80);
  display_text = λ a. a;
  threshold_max_change = pos 200;
  overflow = λ c. panic;
}

pub node-IsHonest : IsHonest node (λ w. w)
node-IsHonest = record {
  latest_block = λ w. refl;
  fee_history = λ w. refl;
  receipt = λ p n w. refl;
  wait = λ p w. refl;
  cross_msg_fee = λ a w. refl;
  send = λ t w. inr (t, refl, refl);
}

-- The key store has one key, that of every account.
abbrev pub manager : EthSubnetManager Sent
manager = record {
  keystore = some (λ a w. (ok (some (record { private_key = 1 ∷ 2 ∷ [] })), w));
  gateway_addr = repeat 20 7;
  registry_addr = repeat 20 8;
  chain_id = 314;
}

pub manager-ReadsQuietly : ReadsQuietly {FvmAddress = List ℕ} (λ (w : Sent). w) manager
manager-ReadsQuietly keystore e a w = sym (ap read e)
  where
    read : Option (List ℕ → Exec Text Sent (Option KeyInfo)) → Sent
    read o = elim o [ some k ↦ (k a w).1 | none ↦ w ]

-- Contracts that have a checkpoint with its signatures, and little else.
abbrev pub getters_of :
    {World : Type 0}
    → ContractCheckpoint
    → List (List ℕ)
    → List (List ℕ)
    → Getters (List ℕ) (List ℕ) World
getters_of checkpoint signatories signatures = record {
  get_subnet = λ a s w. (err [], w);
  list_subnets = λ a w. (ok [], w);
  latest_parent_finality = λ a w. (ok 0, w);
  gateway_checkpoint = λ a h w. (ok checkpoint, w);
  applied_top_down_nonce = λ a s w. (ok (false, 0), w);
  signature_bundle = λ a h w. (ok (checkpoint, signatories, signatures), w);
  bottom_up_messages = λ a h w. (ok [], w);
  quorum_logs = λ a n m w. (ok [], w);
  parse_quorum = λ r. err [];
  bottom_up_check_period = λ a w. (ok 10, w);
  checkpoint_hash_at = λ a n w. (ok (false, []), w);
  min_validators_of = λ a w. (ok 1, w);
  active_validators_limit = λ a w. (ok 100, w);
  majority_percentage = λ a w. (ok 60, w);
  min_activation_collateral = λ a w. (ok 1, w);
  min_cross_msg_fee = λ a w. (ok 1, w);
  genesis_validators = λ a w. (ok [], w);
  genesis_balances = λ a w. (ok ([], []), w);
  bootstrap_nodes = λ a w. (ok [], w);
  get_validator = λ a v w. (err [], w);
  is_active_validator = λ a v w. (ok false, w);
  is_waiting_validator = λ a v w. (ok false, w);
  last_checkpoint_height = λ a w. (ok 20, w);
  has_submitted_in_last = λ a v w. (ok false, w);
  epoch_text = λ e. [];
  get_block_number = λ w. (ok 40, w);
  get_chainid = λ w. (ok [], w);
}
