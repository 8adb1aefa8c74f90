-- ===== src/Provider/Client/Wallets.antt =====
-- ipc/provider/src/lib.rs: the methods of the provider that make and import keys, and the key types
-- of lotus/message/wallet.rs.
use ipc_client.Base.{
  ℕ, ◌+◌, ◌≡◌, refl, ◌&&◌, none, some, List, ◌++◌, Result, ok, err, Eq, ◌==◌, nat_eq, list_eq, leb,
  if◌then◌else◌, map,
}
use ipc_client.Base.Exec.{Exec, ◌>>=◌, lift}
use ipc_client.Base.Text.{Text, codes, strip_prefix}
use ipc_client.Identity.Evm.Persistent.{PersistentKeyInfo}
use ipc_client.Identity.Fvm.{SignatureType, secp256k1, bls}
use ipc_client.Provider.SubnetManager.{Payloads}
use ipc_client.Provider.Client.{FvmWallet, IpcProvider, Connector, State, on_world, evm_wallet}

pub data WalletKeyType : Type 0 where
  bls_key secp256k1_key secp256k1_ledger : WalletKeyType

pub record LotusJsonKeyType : Type 0 where
  pub type_text : Text
  pub private_key : Text

-- The codecs, and a random private key.
pub record KeyCodecs (World : Type 0) : Type 0 where
  pub lotus_from_json : Text → Result Text LotusJsonKeyType
  pub persisted_from_json : Text → Result Text PersistentKeyInfo
  pub base64_decode : Text → Result Text (List ℕ)
  pub hex_decode : Text → Result Text (List ℕ)
  pub random_key : World → List ℕ × World

-- A capital letter of ASCII as a small one.
abbrev pub lower : ℕ → ℕ
lower c = if leb b'A' c && leb c b'Z' then c + 32 else c

-- `WalletKeyType::from_str` of the crate strum, whatever the case of the letters
unfoldable pub key_type_from_str : Text → Result Text WalletKeyType
key_type_from_str s =
    let t = map lower s in
    if t == codes "bls"
    then ok bls_key
    else if t == codes "secp256k1"
    then ok secp256k1_key
    else if t == codes "secp256k1-ledger"
    then ok secp256k1_ledger
    else err (codes "Matching variant not found")

-- What a new key may be, and, for the import, what is not `BLS`.
abbrev pub new_type : WalletKeyType → Result Text SignatureType
new_type bls_key = ok bls
new_type secp256k1_key = ok secp256k1
new_type secp256k1_ledger = err (codes "ledger key type not supported")

abbrev pub imported_type : WalletKeyType → SignatureType
imported_type bls_key = bls
imported_type _ = secp256k1

-- The private key without the `0x` in front of it, if there is one.
unfoldable pub without_0x : Text → Text
without_0x private_key = elim (strip_prefix (codes "0x") private_key) [
  | some rest ↦ rest
  | none ↦ private_key
]

module _ {Address Eth World : Type 0} {P : Payloads} ⦃e : Eq Address⦄
    (connector : Connector Address Eth World P) (codecs : KeyCodecs World) where
  abbrev pub Method : Type 0 → Type 0
  Method A = Exec Text (State connector) A

  abbrev pub fvm_wallet : IpcProvider Address Eth World → Result Text (FvmWallet Address World)
  fvm_wallet self = elim self.fvm_wallet [
    | some wallet ↦ ok wallet
    | none ↦ err (codes "No fvm wallet found in provider")
  ]

  unfoldable pub new_fvm_key : WalletKeyType → Method Address
  unfolding on_world
  new_fvm_key tp s =
      (do
        typ ← lift (new_type tp)
        wallet ← lift (fvm_wallet s.0)
        on_world connector (wallet.generate_addr typ))
        s

  unfoldable pub new_evm_key : Method Eth
  unfolding on_world
  new_evm_key (self, w) =
      let (private_key, w') = codecs.random_key w in
      (do
        wallet ← lift (evm_wallet connector self)
        on_world connector (wallet.put (record { private_key = private_key })))
        (self, w')

  unfoldable pub import_fvm_key : Text → Method Address
  unfolding on_world key_type_from_str
  import_fvm_key keyinfo s =
      (do
        wallet ← lift (fvm_wallet s.0)
        lotus ← lift (codecs.lotus_from_json keyinfo)
        typ ← lift (key_type_from_str lotus.type_text)
        private_key ← lift (codecs.base64_decode lotus.private_key)
        on_world connector (
            wallet.import_key (record { key_type = imported_type typ; private_key = private_key })))
        s

  unfoldable pub import_evm_key_from_privkey : Text → Method Eth
  unfolding on_world without_0x
  import_evm_key_from_privkey private_key s =
      (do
        keystore ← lift (evm_wallet connector s.0)
        bytes ← lift (codecs.hex_decode (without_0x private_key))
        on_world connector (keystore.put (record { private_key = bytes })))
        s

  unfoldable pub import_evm_key_from_json : Text → Method Eth
  unfolding import_evm_key_from_privkey
  import_evm_key_from_json keyinfo = do
    persisted ← lift (codecs.persisted_from_json keyinfo)
    import_evm_key_from_privkey persisted.private_key

  -- A private key is imported as the same key with `0x` in front and without, unless the key itself
  -- begins with `0x`.
  import_evm_key_from_privkey-0x :
      (digits : Text) (s : State connector)
      → strip_prefix (codes "0x") digits ≡ none
      → import_evm_key_from_privkey (codes "0x" ++ digits) s ≡ import_evm_key_from_privkey digits s
  unfolding import_evm_key_from_privkey strip_prefix without_0x
  import_evm_key_from_privkey-0x digits s h = rw (h, without_0x) refl
