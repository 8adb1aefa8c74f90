-- ===== src/Provider/Evm/Tests.antt =====
-- The changes of one epoch on a concrete chain.
use ipc_client.Base.{ℕ, ◌≡◌, refl, Bool, true, false, none, some, List, [], ◌∷◌, ok, err}
use ipc_client.Base.Int.{pos}
use ipc_client.Base.Text.{codes}
use ipc_client.Sdk.Contract.{payload_to_evm_address, collect, as_u64}
use ipc_client.Sdk.Contract.Fixtures.{bytes, bytes-IsLawful, repeat}
use ipc_client.Sdk.Staking.{LogRequest}
use ipc_client.Provider.Evm.{
  Log, Chain, contract_address_from_subnet, query_with_meta, parse_event, get_validator_changeset,
  get_top_down_msgs, block_number_from_receipt,
}
use ipc_client.Provider.Evm.Fixtures.{byte_addresses, subnet}
use ipc_client.Provider.Evm.Changeset.{
  change_of, get_validator_changeset_lem, get_validator_changeset-mixed,
}

abbrev deposit_of : ℕ → LogRequest
deposit_of n = record { op = 0; validator = repeat 20 n; payload = []; configuration_number = n }

abbrev log : Bool → ℕ → ℕ → Log LogRequest
log removed block n = record {
  removed = some removed;
  block_hash = some (repeat 32 block);
  raw = deposit_of n;
}

abbrev chain_of : List (Log LogRequest) → Chain LogRequest (List ℕ)
chain_of logs = record {
  get_logs = λ address from to. ok logs;
  parse_log = ok;
  get_block = λ height. ok none;
  top_down_msgs = λ subnet epoch hash. ok [];
}

-- The second log was removed by a reorganisation.
abbrev one_block : Chain LogRequest (List ℕ)
one_block = chain_of (log false 5 1 ∷ log true 6 2 ∷ log false 5 3 ∷ [])

abbrev two_blocks : Chain LogRequest (List ℕ)
two_blocks = chain_of (log false 5 1 ∷ log false 6 2 ∷ [])

subnet_address : contract_address_from_subnet bytes subnet ≡ ok (repeat 20 2)
unfolding contract_address_from_subnet payload_to_evm_address
subnet_address = refl

one_block_query :
    query_with_meta bytes one_block (repeat 20 2) (as_u64 (pos 9)) (as_u64 (pos 9))
    ≡ ok ((deposit_of 1, repeat 32 5) ∷ (deposit_of 3, repeat 32 5) ∷ [])
unfolding query_with_meta collect parse_event
one_block_query = refl

two_blocks_query :
    query_with_meta bytes two_blocks (repeat 20 2) (as_u64 (pos 9)) (as_u64 (pos 9))
    ≡ ok ((deposit_of 1, repeat 32 5) ∷ (deposit_of 2, repeat 32 6) ∷ [])
unfolding query_with_meta collect parse_event
two_blocks_query = refl

get_validator_changeset_lem_example :
    get_validator_changeset bytes one_block subnet (pos 9)
    ≡ ok (record {
      value = change_of bytes (deposit_of 1) ∷ change_of bytes (deposit_of 3) ∷ [];
      block_hash = repeat 32 5;
    })
get_validator_changeset_lem_example =
    get_validator_changeset_lem one_block bytes-IsLawful subnet (pos 9) (repeat 20 2) (repeat 32 5)
      (deposit_of 1, repeat 32 5) ((deposit_of 3, repeat 32 5) ∷ []) subnet_address one_block_query
      ((refl, refl), ((refl, refl), tt))

get_validator_changeset-mixed_example :
    get_validator_changeset bytes two_blocks subnet (pos 9) ≡ err (codes "block hash not equal")
get_validator_changeset-mixed_example =
    get_validator_changeset-mixed two_blocks bytes-IsLawful subnet (pos 9) (repeat 20 2)
      (repeat 32 5) (deposit_of 1, repeat 32 5) (deposit_of 2, repeat 32 6) [] [] subnet_address
      two_blocks_query ((refl, refl), tt) (λ h. cc)

no_receipt :
    block_number_from_receipt {Raw = ℕ} none
    ≡ err (codes "txn sent to network, but receipt cannot be obtained, please check scanner")
unfolding block_number_from_receipt
no_receipt = refl

short_block_hash :
    get_top_down_msgs bytes one_block subnet (pos 9) (repeat 31 0)
    ≡ err (codes "invalid block hash len")
unfolding get_top_down_msgs
short_block_hash = refl
