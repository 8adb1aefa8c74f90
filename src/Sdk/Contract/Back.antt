-- ===== src/Sdk/Contract/Back.antt =====
-- What is read from a contract is sent on as it was.
use ipc_client.Base.{
  map, ℕ, ◌%◌, ◌^◌, ◌<◌, ◌≡◌, refl, ap, arith, some, List, [], ◌∷◌, ok, All, length,
}
use ipc_client.Base.Int.{pos, wrap_i64, ◌-ℤ◌, ◌+ℤ◌}
use ipc_client.Sdk.SubnetId.{SubnetId}
use ipc_client.Sdk.IpcAddress.{IpcAddress}
use ipc_client.Sdk.Cross.{CrossMsg}
use ipc_client.Sdk.Contract.{
  BottomUpCheckpoint, ContractSubnetId, ContractIpcAddress, ContractCrossMsg, ContractCheckpoint,
  ContractLib, collect, to_be_bytes, from_be_bytes, as_u64, as_i64, payload_to_evm_address,
  ethers_address_to_fil_address, fil_to_eth_amount, eth_to_fil_amount, to_contract_subnet,
  of_contract_subnet, to_contract_address, of_contract_address, to_contract_msg, of_contract_msg,
  to_contract_cross_msg, of_contract_cross_msg, to_contract_checkpoint, of_contract_checkpoint,
}
use ipc_client.Sdk.Contract.RoundTrip.{
  IsLawful, payload_to_evm_address_lem, ethers_address_to_fil_address_lem,
}

pub as_u64-as_i64 : (n : ℕ) → n < 2 ^ 64 → as_u64 (as_i64 n) ≡ n
unfolding as_u64 as_i64 wrap_i64 ◌-ℤ◌ ◌+ℤ◌
as_u64-as_i64 n h = ground arith

-- Four bytes.
abbrev pub IsWord : List ℕ → Type 0
IsWord (a ∷ b ∷ c ∷ d ∷ []) = (a < 256) × (b < 256) × (c < 256) × (d < 256)
IsWord _ = ⊥

to_be_bytes-from_be_bytes : (w : List ℕ) → IsWord w → to_be_bytes (from_be_bytes w % 2 ^ 32) ≡ w
unfolding to_be_bytes from_be_bytes
to_be_bytes-from_be_bytes (a ∷ b ∷ c ∷ d ∷ []) h = ground arith
to_be_bytes-from_be_bytes [] h = elim h [ ]
to_be_bytes-from_be_bytes (a ∷ []) h = elim h [ ]
to_be_bytes-from_be_bytes (a ∷ b ∷ []) h = elim h [ ]
to_be_bytes-from_be_bytes (a ∷ b ∷ c ∷ []) h = elim h [ ]
to_be_bytes-from_be_bytes (a ∷ b ∷ c ∷ d ∷ e ∷ w) h = elim h [ ]

module _ {Address FvmAddress : Type 0} (lib : ContractLib Address FvmAddress) where
  -- Twenty bytes that make a delegated address with those bytes.
  abbrev pub IsPlain : List ℕ → Type 0
  IsPlain a = (length a ≡ 20) × (lib.delegated (lib.from_eth a) ≡ some a)

  -- A contract's form of an address that stands for one.
  abbrev pub IsFvm : FvmAddress → Type 0
  IsFvm f = (a : Address) × (lib.of_fvm_address f ≡ ok a) × (lib.to_fvm_address a ≡ ok f)

  abbrev pub IsPlainAddress : ContractIpcAddress FvmAddress → Type 0
  IsPlainAddress c = All IsPlain c.subnet_id.route × IsFvm c.raw_address

  -- A message as the contracts make them.
  pub record IsPlainMsg (c : ContractCrossMsg FvmAddress) : Type 0 where
    pub from : IsPlainAddress c.message.from
    pub to : IsPlainAddress c.message.to
    pub value : c.message.value < 2 ^ 256
    pub fee : c.message.fee < 2 ^ 256
    pub method : IsWord c.message.method

  pub record IsPlainCheckpoint (c : ContractCheckpoint) : Type 0 where
    pub route : All IsPlain c.subnet_id.route
    pub block_height : c.block_height < 2 ^ 64
    pub block_hash : length c.block_hash ≡ 32
    pub cross_messages_hash : length c.cross_messages_hash ≡ 32

module _ {Address FvmAddress : Type 0} {lib : ContractLib Address FvmAddress}
    (laws : IsLawful lib) where
  -- Addresses of contracts are sent back as they came, and the last one as the last.
  pub route_back :
      (l : List (List ℕ))
      → All (IsPlain lib) l
      → (cs : List Address) × (collect (ethers_address_to_fil_address lib) l ≡ ok cs)
        × (collect (payload_to_evm_address lib) cs ≡ ok l)
        × (cs ≡ map lib.from_eth l)
  unfolding collect
  route_back [] h = ([], refl, refl, refl)
  route_back (a ∷ l) ((n, d), h) =
      let (cs, p, q, m) = route_back l h in
      (
        lib.from_eth a ∷ cs,
        rw (ethers_address_to_fil_address_lem laws a n, p) refl,
        rw (payload_to_evm_address_lem laws (lib.from_eth a) a n d, q) refl,
        ap (◌∷◌ (lib.from_eth a)) m,
      )

  subnet_back :
      (c : ContractSubnetId)
      → All (IsPlain lib) c.route
      → (s : SubnetId Address) × (of_contract_subnet lib c ≡ ok s)
        × (to_contract_subnet lib s ≡ ok c)
        × (s.children ≡ map lib.from_eth c.route)
  unfolding of_contract_subnet to_contract_subnet
  subnet_back c h =
      let (cs, p, q, m) = route_back c.route h in
      (record { root = c.root; children = cs }, rw p refl, rw q refl, m)

  address_back :
      (c : ContractIpcAddress FvmAddress)
      → IsPlainAddress lib c
      → (a : IpcAddress Address) × (of_contract_address lib c ≡ ok a)
        × (to_contract_address lib a ≡ ok c)
  unfolding of_contract_address to_contract_address
  address_back c (h, (a, t, u)) =
      let (s, p, q, m) = subnet_back c.subnet_id h in
      (record { subnet_id = s; raw_address = a }, rw (t, p) refl, rw (q, u) refl)

  pub cross_msg_back :
      (c : ContractCrossMsg FvmAddress)
      → IsPlainMsg lib c
      → (m : CrossMsg Address) × (of_contract_cross_msg lib c ≡ ok m)
        × (to_contract_cross_msg lib m ≡ ok c)
  unfolding of_contract_cross_msg to_contract_cross_msg of_contract_msg to_contract_msg
      fil_to_eth_amount eth_to_fil_amount
  cross_msg_back c h =
      let (a, p, q) = address_back c.message.from h.from in
      let (b, r, s) = address_back c.message.to h.to in
      (
        record {
          msg = record {
            from = a;
            to = b;
            method = from_be_bytes c.message.method;
            params = c.message.params;
            value = pos c.message.value;
            nonce = c.message.nonce;
            fee = pos c.message.fee;
          };
          wrapped = c.wrapped;
        },
        rw (p, r, laws.u256_digits c.message.value h.value, laws.u256_digits c.message.fee h.fee)
            refl,
        rw
            (
              laws.amount_text c.message.value h.value,
              laws.amount_text c.message.fee h.fee,
              q,
              s,
              to_be_bytes-from_be_bytes c.message.method h.method,
            )
            refl,
      )

  pub checkpoint_back :
      (c : ContractCheckpoint)
      → IsPlainCheckpoint lib c
      → (b : BottomUpCheckpoint Address) × (of_contract_checkpoint lib c ≡ ok b)
        × (to_contract_checkpoint lib b ≡ ok c)
        × (b.subnet_id.children ≡ map lib.from_eth c.subnet_id.route)
  unfolding of_contract_checkpoint to_contract_checkpoint
  checkpoint_back c h =
      let (s, p, q, m) = subnet_back c.subnet_id h.route in
      (
        record {
          subnet_id = s;
          block_height = as_i64 c.block_height;
          block_hash = c.block_hash;
          next_configuration_number = c.next_configuration_number;
          cross_messages_hash = c.cross_messages_hash;
        },
        rw p refl,
        rw (q, h.block_hash, h.cross_messages_hash, as_u64-as_i64 c.block_height h.block_height)
            refl,
        m,
      )

  -- The messages of a bundle.
  pub cross_msgs_back :
      (l : List (ContractCrossMsg FvmAddress))
      → All (IsPlainMsg lib) l
      → (ms : List (CrossMsg Address)) × (collect (of_contract_cross_msg lib) l ≡ ok ms)
        × (collect (to_contract_cross_msg lib) ms ≡ ok l)
  unfolding collect
  cross_msgs_back [] h = ([], refl, refl)
  cross_msgs_back (c ∷ l) (h, hs) =
      let (m, p, q) = cross_msg_back c h in
      let (ms, r, s) = cross_msgs_back l hs in (m ∷ ms, rw (p, r) refl, rw (q, s) refl)
