-- ===== src/Provider/Evm.antt =====
-- ipc/provider/src/manager/evm/manager.rs: what the EVM manager reads of the parent's chain. The
-- calls to the chain are parameters; the queries and the tests on their answers are the code's.
pub mod Changeset
pub mod Fees
pub mod Manager
pub mod Fixtures
pub mod Answers
pub mod Views
pub mod Relay
pub mod Interface
mod Tests
use ipc_client.Base.{
  panic, ℕ, Bool, true, false, ◌≡◌, Option, none, some, List, [], ◌∷◌, ◌++◌, Result, ok, err, ok_or,
  ◌>>=◌, ◌==◌, nat_eq, list_eq, if◌then◌else◌, length, last, not,
}
use ipc_client.Base.Int.{ℤ}
use ipc_client.Base.Text.{Text, codes}
use ipc_client.Sdk.Fvm.{AddressLib}
use ipc_client.Sdk.SubnetId.{SubnetId, to_string}
use ipc_client.Sdk.Cross.{CrossMsg}
use ipc_client.Sdk.Contract.{
  ContractLib, ContractSubnetId, ContractCrossMsg, collect, as_u64, as_i64, payload_to_evm_address,
  to_contract_subnet, of_contract_cross_msg,
}
use ipc_client.Sdk.Staking.{StakingChangeRequest, LogRequest, of_log}
use ipc_client.Provider.SubnetManager.{TopDownQueryPayload, GetBlockHashResult}

-- The parts of ethers' `Log`, `Block` and `TransactionReceipt` that are used.
pub record Log (Raw : Type 0) : Type 0 where
  pub removed : Option Bool
  -- none, too, where another field is missing that `LogMeta::from` expects
  pub block_hash : Option (List ℕ)
  pub raw : Raw

pub record Block : Type 0 where
  pub hash : Option (List ℕ)
  pub parent_hash : List ℕ

pub record Receipt (Raw : Type 0) : Type 0 where
  pub block_number : Option ℕ
  pub logs : List Raw

-- The calls: the logs of a contract between two blocks, the reading of a log, a block by its number,
-- and the gateway's messages for a subnet at an epoch and a block.
pub record Chain (Raw FvmAddress : Type 0) : Type 0 where
  pub get_logs : List ℕ → ℕ → ℕ → Result Text (List (Log Raw))
  pub parse_log : Raw → Result Text LogRequest
  pub get_block : ℕ → Result Text (Option Block)
  pub top_down_msgs :
      ContractSubnetId → ℤ → List ℕ → Result Text (List (ContractCrossMsg FvmAddress))

unfoldable pub block_number_from_receipt : {Raw : Type 0} → Option (Receipt Raw) → Result Text ℤ
block_number_from_receipt (some r) =
    ok_or r.block_number (codes "cannot get block number") >>= λ n. ok (as_i64 n)
block_number_from_receipt none =
    err (codes "txn sent to network, but receipt cannot be obtained, please check scanner")

-- `!l.removed.unwrap_or_default()`
abbrev pub is_kept : {Raw : Type 0} → Log Raw → Bool
is_kept l = elim l.removed [ some removed ↦ not removed | none ↦ true ]

abbrev pub kept : {Raw : Type 0} → List (Log Raw) → List (Log Raw)
kept [] = []
kept (l ∷ logs) = if is_kept l then l ∷ kept logs else kept logs

-- The first event's hash is kept, and each that follows is compared with it.
unfoldable pub same_block : Option (List ℕ) → List ℕ → Result Text (List ℕ)
same_block none found = ok found
same_block (some h) found = if h == found then ok h else err (codes "block hash not equal")

module _ {Address FvmAddress : Type 0} (lib : ContractLib Address FvmAddress) where
  unfoldable pub contract_address_from_subnet :
      ⦃fvm : AddressLib Address⦄ → SubnetId Address → Result Text (List ℕ)
  contract_address_from_subnet subnet =
      ok_or (last subnet.children) (to_string subnet ++ codes " has no child") >>= λ ipc_addr.
      payload_to_evm_address lib ipc_addr

module _ {Address FvmAddress Raw : Type 0} (lib : ContractLib Address FvmAddress)
    (chain : Chain Raw FvmAddress) where
  -- `LogMeta::from` panics on a log without its block's hash.
  unfoldable pub parse_event : Log Raw → Result Text (LogRequest × List ℕ)
  parse_event log = elim log.block_hash [
    | some hash ↦ chain.parse_log log.raw >>= λ event. ok (event, hash)
    | none ↦ panic
  ]

  unfoldable pub query_with_meta : List ℕ → ℕ → ℕ → Result Text (List (LogRequest × List ℕ))
  query_with_meta address from to =
      chain.get_logs address from to >>= λ logs. collect parse_event (kept logs)

  -- The loop over the events, with the hash and the changes so far.
  unfoldable pub read_changes :
      List (LogRequest × List ℕ)
      → Option (List ℕ)
      → List (StakingChangeRequest Address)
      → Result Text (List (StakingChangeRequest Address) × Option (List ℕ))
  unfolding same_block
  read_changes [] hash changes = ok (changes, hash)
  read_changes ((event, found) ∷ rest) hash changes = same_block hash found >>= λ h.
      of_log lib event >>= λ change. read_changes rest (some h) (changes ++ change ∷ [])

  unfoldable pub get_block_hash : ℤ → Result Text GetBlockHashResult
  get_block_hash height = chain.get_block (as_u64 height) >>= λ found.
      ok_or found (codes "height does not exist") >>= λ block.
      ok_or block.hash (codes "block hash is empty") >>= λ hash.
      ok (record { parent_block_hash = block.parent_hash; block_hash = hash })

  unfoldable pub hash_or_query : Option (List ℕ) → ℤ → Result Text (List ℕ)
  unfolding get_block_hash
  hash_or_query (some h) epoch = ok h
  hash_or_query none epoch = get_block_hash epoch >>= λ r. ok r.block_hash

  unfoldable pub get_validator_changeset :
      ⦃fvm : AddressLib Address⦄
      → SubnetId Address
      → ℤ
      → Result Text (TopDownQueryPayload (List (StakingChangeRequest Address)))
  unfolding contract_address_from_subnet query_with_meta hash_or_query
  get_validator_changeset subnet_id epoch =
      contract_address_from_subnet lib subnet_id >>= λ address.
      query_with_meta address (as_u64 epoch) (as_u64 epoch) >>= λ events.
      read_changes events none [] >>= λ read. hash_or_query read.1 epoch >>= λ block_hash.
      ok (record { value = read.0; block_hash = block_hash })

  unfoldable pub get_top_down_msgs :
      SubnetId Address → ℤ → List ℕ → Result Text (List (CrossMsg Address))
  get_top_down_msgs subnet_id epoch block_hash =
      if length block_hash == 32
      then (to_contract_subnet lib subnet_id >>= λ subnet.
          chain.top_down_msgs subnet epoch block_hash >>= λ raw_msgs.
          collect (of_contract_cross_msg lib) raw_msgs)
      else err (codes "invalid block hash len")
