-- ===== src/Sdk/Contract.antt =====
-- ipc/sdk/src/evm.rs, lib.rs: messages and checkpoints as the contracts have them, and back. The
-- macros make one copy of each conversion for each contract; one is modelled. An address of the EVM
-- is its 20 bytes.
pub mod Words
pub mod RoundTrip
pub mod Back
pub mod Fixtures
mod Tests
use ipc_client.Base.{
  ℕ, ◌+◌, ◌-◌, ◌*◌, ◌/◌, ◌%◌, ◌^◌, Bool, true, false, Option, none, some, List, [], ◌∷◌, ◌++◌,
  Result, ok, err, panic, ◌>>=◌, map_err, ltb, ◌==◌, nat_eq, if◌then◌else◌, length, take,
}
use ipc_client.Base.Int.{ℤ, pos, pos_part, neg_part, wrap_i64}
use ipc_client.Base.Text.{Text, codes}
use ipc_client.Sdk.SubnetId.{SubnetId}
use ipc_client.Sdk.IpcAddress.{IpcAddress}
use ipc_client.Sdk.Cross.{StorableMsg, CrossMsg}

-- sdk/src/checkpoint.rs
pub record BottomUpCheckpoint (Address : Type 0) : Type 0 where
  pub subnet_id : SubnetId Address
  pub block_height : ℤ
  pub block_hash : List ℕ
  pub next_configuration_number : ℕ
  pub cross_messages_hash : List ℕ

-- The structs of the contracts. `FvmAddress` is their form of an address.
pub record ContractSubnetId : Type 0 where
  pub root : ℕ
  pub route : List (List ℕ)

pub record ContractIpcAddress (FvmAddress : Type 0) : Type 0 where
  pub subnet_id : ContractSubnetId
  pub raw_address : FvmAddress

pub record ContractMsg (FvmAddress : Type 0) : Type 0 where
  pub from : ContractIpcAddress FvmAddress
  pub to : ContractIpcAddress FvmAddress
  pub value : ℕ
  pub nonce : ℕ
  pub method : List ℕ
  pub params : List ℕ
  pub fee : ℕ

pub record ContractCrossMsg (FvmAddress : Type 0) : Type 0 where
  pub message : ContractMsg FvmAddress
  pub wrapped : Bool

pub record ContractCheckpoint : Type 0 where
  pub subnet_id : ContractSubnetId
  pub block_height : ℕ
  pub block_hash : List ℕ
  pub next_configuration_number : ℕ
  pub cross_messages_hash : List ℕ

-- What is used of fvm_shared, ethers, primitives and ipc_actors_abis.
pub record ContractLib (Address FvmAddress : Type 0) : Type 0 where
  -- the subaddress of a delegated address
  pub delegated : Address → Option (List ℕ)
  -- `{addr:?}`, `EthAddress::from_str`, and `Address::from` of an `EthAddress`
  pub debug_text : List ℕ → Text
  pub eth_from_str : Text → Result Text (List ℕ)
  pub from_eth : List ℕ → Address
  -- decimal texts of big integers and of `U256`
  pub atto_text : ℤ → Text
  pub u256_from_dec_str : Text → Result Text ℕ
  pub u256_text : ℕ → Text
  pub bigint_from_str : Text → Result Text ℤ
  pub to_fvm_address : Address → Result Text FvmAddress
  pub of_fvm_address : FvmAddress → Result Text Address

-- `iter().map(f).collect::<Result<_, _>>()`
unfoldable pub collect : {A B : Type 0} → (A → Result Text B) → List A → Result Text (List B)
collect f [] = ok []
collect f (a ∷ l) = f a >>= λ b. collect f l >>= λ rest. ok (b ∷ rest)

-- `u32::to_be_bytes` and `u32::from_be_bytes`
unfoldable pub to_be_bytes : ℕ → List ℕ
to_be_bytes n = n / 2 ^ 24 % 256 ∷ n / 2 ^ 16 % 256 ∷ n / 2 ^ 8 % 256 ∷ n % 256 ∷ []

unfoldable pub from_be_bytes : List ℕ → ℕ
from_be_bytes (a ∷ b ∷ c ∷ d ∷ []) = a * 2 ^ 24 + b * 2 ^ 16 + c * 2 ^ 8 + d
from_be_bytes _ = 0

-- An `i64` as a `u64`, and a `u64` as an `i64`.
unfoldable pub as_u64 : ℤ → ℕ
as_u64 h = (pos_part h + (2 ^ 64 - neg_part h % 2 ^ 64)) % 2 ^ 64

unfoldable pub as_i64 : ℕ → ℤ
as_i64 n = wrap_i64 (pos n)

unfoldable pub vec_to_bytes32 : List ℕ → Result Text (List ℕ)
vec_to_bytes32 v = if length v == 32 then ok v else err (codes "invalid length")

module _ {Address FvmAddress : Type 0} (lib : ContractLib Address FvmAddress) where
  -- `from_slice(&slice[0..20])`
  unfoldable pub payload_to_evm_address : Address → Result Text (List ℕ)
  payload_to_evm_address addr = elim (lib.delegated addr) [
    | some subaddress ↦ if ltb (length subaddress) 20 then panic else ok (take 20 subaddress)
    | none ↦ err (codes "address provided is not delegated")
  ]

  unfoldable pub ethers_address_to_fil_address : List ℕ → Result Text Address
  ethers_address_to_fil_address addr =
      lib.eth_from_str (lib.debug_text addr) >>= λ eth_addr. ok (lib.from_eth eth_addr)

  unfoldable pub fil_to_eth_amount : ℤ → Result Text ℕ
  fil_to_eth_amount amount = lib.u256_from_dec_str (lib.atto_text amount)

  unfoldable pub eth_to_fil_amount : ℕ → Result Text ℤ
  eth_to_fil_amount amount = lib.bigint_from_str (lib.u256_text amount)

  unfoldable pub subnet_id_to_evm_addresses : SubnetId Address → Result Text (List (List ℕ))
  subnet_id_to_evm_addresses subnet = collect payload_to_evm_address subnet.children

  unfoldable pub to_contract_subnet : SubnetId Address → Result Text ContractSubnetId
  unfolding subnet_id_to_evm_addresses
  to_contract_subnet subnet = subnet_id_to_evm_addresses subnet >>= λ route.
      ok (record { root = subnet.root; route = route })

  unfoldable pub of_contract_subnet : ContractSubnetId → Result Text (SubnetId Address)
  of_contract_subnet value = collect ethers_address_to_fil_address value.route >>= λ children.
      ok (record { root = value.root; children = children })

  unfoldable pub to_contract_address :
      IpcAddress Address → Result Text (ContractIpcAddress FvmAddress)
  to_contract_address value = to_contract_subnet value.subnet_id >>= λ subnet_id.
      lib.to_fvm_address value.raw_address >>= λ raw_address.
      ok (record { subnet_id = subnet_id; raw_address = raw_address })

  unfoldable pub of_contract_address :
      ContractIpcAddress FvmAddress → Result Text (IpcAddress Address)
  of_contract_address value = lib.of_fvm_address value.raw_address >>= λ addr.
      of_contract_subnet value.subnet_id >>= λ subnet_id.
      ok (record { subnet_id = subnet_id; raw_address = addr })

  -- `.map_err(|e| anyhow!("message{e}"))`
  abbrev pub due_to : {A : Type 0} → Text → Result Text A → Result Text A
  due_to message = map_err (λ e. message ++ e)

  unfoldable pub to_contract_msg : StorableMsg Address → Result Text (ContractMsg FvmAddress)
  unfolding to_be_bytes
  to_contract_msg value = fil_to_eth_amount value.value >>= λ msg_value.
      fil_to_eth_amount value.fee >>= λ msg_fee.
      due_to (codes "cannot convert `from` ipc address msg due to: ")
        (to_contract_address value.from)
      >>= λ from.
          due_to (codes "cannot convert `to`` ipc address due to: ") (to_contract_address value.to)
          >>= λ to. ok (record {
            from = from;
            to = to;
            value = msg_value;
            nonce = value.nonce;
            method = to_be_bytes (value.method % 2 ^ 32);
            params = value.params;
            fee = msg_fee;
          })

  unfoldable pub of_contract_msg : ContractMsg FvmAddress → Result Text (StorableMsg Address)
  of_contract_msg value = of_contract_address value.from >>= λ from.
      of_contract_address value.to >>= λ to. eth_to_fil_amount value.value >>= λ amount.
      eth_to_fil_amount value.fee >>= λ fee. ok (record {
        from = from;
        to = to;
        method = from_be_bytes value.method;
        params = value.params;
        value = amount;
        nonce = value.nonce;
        fee = fee;
      })

  unfoldable pub to_contract_cross_msg :
      CrossMsg Address → Result Text (ContractCrossMsg FvmAddress)
  to_contract_cross_msg value =
      due_to (codes "cannot convert storable msg due to: ") (to_contract_msg value.msg)
      >>= λ message. ok (record { message = message; wrapped = value.wrapped })

  unfoldable pub of_contract_cross_msg :
      ContractCrossMsg FvmAddress → Result Text (CrossMsg Address)
  of_contract_cross_msg value =
      of_contract_msg value.message >>= λ msg. ok (record { msg = msg; wrapped = value.wrapped })

  unfoldable pub to_contract_checkpoint :
      BottomUpCheckpoint Address → Result Text ContractCheckpoint
  unfolding vec_to_bytes32
  to_contract_checkpoint checkpoint = to_contract_subnet checkpoint.subnet_id >>= λ subnet_id.
      vec_to_bytes32 checkpoint.block_hash >>= λ block_hash.
      vec_to_bytes32 checkpoint.cross_messages_hash >>= λ cross_messages_hash. ok (record {
        subnet_id = subnet_id;
        block_height = as_u64 checkpoint.block_height;
        block_hash = block_hash;
        next_configuration_number = checkpoint.next_configuration_number;
        cross_messages_hash = cross_messages_hash;
      })

  unfoldable pub of_contract_checkpoint :
      ContractCheckpoint → Result Text (BottomUpCheckpoint Address)
  of_contract_checkpoint value = of_contract_subnet value.subnet_id >>= λ subnet_id. ok (record {
    subnet_id = subnet_id;
    block_height = as_i64 value.block_height;
    block_hash = value.block_hash;
    next_configuration_number = value.next_configuration_number;
    cross_messages_hash = value.cross_messages_hash;
  })
