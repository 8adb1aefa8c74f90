-- ===== src/Sdk/Contract/RoundTrip.antt =====
-- What is sent to a contract comes back from it.
use mathlib.Core.Path.{subst}
use ipc_client.Base.{
  ℕ, ◌^◌, ◌<◌, ◌≡◌, refl, ap, arith, ◌∙◌, ◌%◌, take-length, some, List, [], ◌∷◌, ok, All, length,
  take, nat_eq,
}
use ipc_client.Base.Int.{ℤ, pos, InI64}
use ipc_client.Sdk.SubnetId.{SubnetId}
use ipc_client.Sdk.IpcAddress.{IpcAddress}
use ipc_client.Sdk.Cross.{StorableMsg, CrossMsg}
use ipc_client.Sdk.Contract.{
  BottomUpCheckpoint, ContractSubnetId, ContractIpcAddress, ContractCrossMsg, ContractCheckpoint,
  ContractLib, collect, as_u64, payload_to_evm_address, ethers_address_to_fil_address,
  fil_to_eth_amount, eth_to_fil_amount, to_contract_subnet, of_contract_subnet, to_contract_address,
  of_contract_address, to_contract_msg, to_be_bytes, from_be_bytes, of_contract_msg,
  to_contract_cross_msg, of_contract_cross_msg, to_contract_checkpoint, of_contract_checkpoint,
}
use ipc_client.Sdk.Contract.Words.{from_be_bytes-to_be_bytes, as_i64-as_u64}

module _ {Address FvmAddress : Type 0} (lib : ContractLib Address FvmAddress) where
  -- Texts are read as what was written.
  pub record IsLawful : Type 0 where
    pub eth_text : (a : List ℕ) → length a ≡ 20 → lib.eth_from_str (lib.debug_text a) ≡ ok a
    pub amount_text : (n : ℕ) → n < 2 ^ 256 → lib.u256_from_dec_str (lib.atto_text (pos n)) ≡ ok n
    pub u256_digits : (n : ℕ) → n < 2 ^ 256 → lib.bigint_from_str (lib.u256_text n) ≡ ok (pos n)

  -- A delegated address of 20 bytes, as one of the EVM is.
  abbrev pub IsEvm : Address → Type 0
  IsEvm c = (a : List ℕ) × (length a ≡ 20) × (lib.delegated c ≡ some a) × (lib.from_eth a ≡ c)

  -- An address that the contracts have a form of, which stands for it.
  abbrev pub IsFormed : Address → Type 0
  IsFormed a = (f : FvmAddress) × (lib.to_fvm_address a ≡ ok f) × (lib.of_fvm_address f ≡ ok a)

  abbrev pub IsAmount : ℤ → Type 0
  IsAmount v = (n : ℕ) × (v ≡ pos n) × (n < 2 ^ 256)

  abbrev pub IsSendable : StorableMsg Address → Type 0
  IsSendable m =
      All IsEvm m.from.subnet_id.children
      × All IsEvm m.to.subnet_id.children
      × IsFormed m.from.raw_address
      × IsFormed m.to.raw_address
      × IsAmount m.value
      × IsAmount m.fee
      × (m.method < 2 ^ 32)

module _ {Address FvmAddress : Type 0} {lib : ContractLib Address FvmAddress}
    (laws : IsLawful lib) where
  pub payload_to_evm_address_lem :
      (c : Address) (a : List ℕ)
      → length a ≡ 20
      → lib.delegated c ≡ some a
      → payload_to_evm_address lib c ≡ ok a
  unfolding payload_to_evm_address
  payload_to_evm_address_lem c a l d =
      rw (payload_to_evm_address, d) (rw (l, subst (λ n. take n a ≡ a) l (take-length a)) refl)

  pub ethers_address_to_fil_address_lem :
      (a : List ℕ) → length a ≡ 20 → ethers_address_to_fil_address lib a ≡ ok (lib.from_eth a)
  unfolding ethers_address_to_fil_address
  ethers_address_to_fil_address_lem a l = rw (laws.eth_text a l) refl

  pub child_address :
      (c : Address)
      → IsEvm lib c
      → (a : List ℕ) × (payload_to_evm_address lib c ≡ ok a)
        × (ethers_address_to_fil_address lib a ≡ ok c)
  child_address c (a, l, d, f) =
      (a, payload_to_evm_address_lem c a l d, ethers_address_to_fil_address_lem a l ∙ ap ok f)

  route_lem :
      (l : List Address)
      → All (IsEvm lib) l
      → (r : List (List ℕ)) × (collect (payload_to_evm_address lib) l ≡ ok r)
        × (collect (ethers_address_to_fil_address lib) r ≡ ok l)
  unfolding collect
  route_lem [] h = ([], refl, refl)
  route_lem (c ∷ l) (h, hs) =
      let (a, p, q) = child_address c h in
      let (r, ps, qs) = route_lem l hs in (a ∷ r, rw (p, ps) refl, rw (q, qs) refl)

  subnet_lem :
      (s : SubnetId Address)
      → All (IsEvm lib) s.children
      → (c : ContractSubnetId) × (to_contract_subnet lib s ≡ ok c)
        × (of_contract_subnet lib c ≡ ok s)
  unfolding to_contract_subnet of_contract_subnet
  subnet_lem s h =
      let (r, p, q) = route_lem s.children h in
      (record { root = s.root; route = r }, rw p refl, rw q refl)

  address_lem :
      (a : IpcAddress Address)
      → All (IsEvm lib) a.subnet_id.children
      → IsFormed lib a.raw_address
      → (c : ContractIpcAddress FvmAddress) × (to_contract_address lib a ≡ ok c)
        × (of_contract_address lib c ≡ ok a)
  unfolding to_contract_address of_contract_address
  address_lem a h (f, t, u) =
      let (s, p, q) = subnet_lem a.subnet_id h in
      (record { subnet_id = s; raw_address = f }, rw (p, t) refl, rw (u, q) refl)

  pub amount_lem :
      (v : ℤ)
      → IsAmount lib v
      → (n : ℕ) × (fil_to_eth_amount lib v ≡ ok n) × (eth_to_fil_amount lib n ≡ ok v)
  unfolding fil_to_eth_amount eth_to_fil_amount
  amount_lem v (n, e, b) = (n, rw e (laws.amount_text n b), rw e (laws.u256_digits n b))

  method_lem : (n : ℕ) → n < 2 ^ 32 → from_be_bytes (to_be_bytes (n % 2 ^ 32)) ≡ n
  method_lem n h = from_be_bytes-to_be_bytes (n % 2 ^ 32) (omega arith) ∙ (omega arith)

  -- With lawful texts: a message between subnets of EVM actors, whose two addresses have a form in
  -- the contracts that stands for them, with amounts of 256 bits and a method of 32 bits, is
  -- converted to the contract's form, and that form is converted back to the same message.
  pub of_contract_cross_msg-to_contract_cross_msg :
      (m : CrossMsg Address)
      → IsSendable lib m.msg
      → (c : ContractCrossMsg FvmAddress) × (to_contract_cross_msg lib m ≡ ok c)
        × (of_contract_cross_msg lib c ≡ ok m)
  unfolding to_contract_cross_msg of_contract_cross_msg to_contract_msg of_contract_msg
  of_contract_cross_msg-to_contract_cross_msg m (h, k, i, j, v, f, w) =
      let (a, p, q) = address_lem m.msg.from h i in
      let (b, r, s) = address_lem m.msg.to k j in
      let (x, t, u) = amount_lem m.msg.value v in
      let (y, c, d) = amount_lem m.msg.fee f in
      (
        record {
          message = record {
            from = a;
            to = b;
            value = x;
            nonce = m.msg.nonce;
            method = to_be_bytes (m.msg.method % 2 ^ 32);
            params = m.msg.params;
            fee = y;
          };
          wrapped = m.wrapped;
        },
        rw (t, c, p, r) refl,
        rw (q, s, u, d, method_lem m.msg.method w) refl,
      )

  -- With lawful texts: a checkpoint of a subnet of EVM actors, with two hashes of 32 bytes and a
  -- height of 64 bits, is converted to the contract's form, and that form is converted back to
  -- the same checkpoint.
  pub of_contract_checkpoint-to_contract_checkpoint :
      (b : BottomUpCheckpoint Address)
      → All (IsEvm lib) b.subnet_id.children
      → InI64 b.block_height
      → length b.block_hash ≡ 32
      → length b.cross_messages_hash ≡ 32
      → (c : ContractCheckpoint) × (to_contract_checkpoint lib b ≡ ok c)
        × (of_contract_checkpoint lib c ≡ ok b)
  unfolding to_contract_checkpoint of_contract_checkpoint
  of_contract_checkpoint-to_contract_checkpoint b h i l n =
      let (s, p, q) = subnet_lem b.subnet_id h in
      (
        record {
          subnet_id = s;
          block_height = as_u64 b.block_height;
          block_hash = b.block_hash;
          next_configuration_number = b.next_configuration_number;
          cross_messages_hash = b.cross_messages_hash;
        },
        rw (p, l, n) refl,
        rw (q, as_i64-as_u64 b.block_height i) refl,
      )
