-- ===== src/Identity/Fvm/Wallet.antt =====
-- ipc/identity/src/fvm/wallet.rs: the wallet, a store of FVM keys under the text of their addresses
-- with a cache of the keys that were found.
pub mod Stored
pub mod Lookup
pub mod Change
use ipc_client.Base.{
  ℕ, Bool, true, false, Option, none, some, List, [], ◌∷◌, ◌++◌, Result, ok, err, panic, map_err,
  Eq, ◌==◌, list_eq, nat_eq, if◌then◌else◌, inl, inr, take, drop, length, ltb, ◌⊎◌,
}
use ipc_client.Base.Exec.{Exec, ◌>>=◌, ◌>>◌, pure, fail, lift}
use ipc_client.Base.Map.{Map, lookup, insert}
use ipc_client.Base.Text.{Text, codes, sort, strip_prefix}
use ipc_client.Sdk.Fvm.{AddressLib}
use ipc_client.Identity.Fvm.{
  KeyInfo, SignatureType, Error, key_info, key_exists, key_not_exists, no_key, io, other,
  error_text,
}
use ipc_client.Identity.Fvm.KeyStore
use ipc_client.Identity.Fvm.KeyStore.{KeyStore}
use ipc_client.Identity.Fvm.Host.{Host, Crypto}

-- wallet_helpers.rs: the curves. A private key is drawn in the world.
pub record WalletHelpers (Address Signature World : Type 0) : Type 0 where
  pub to_public : SignatureType → List ℕ → Result Error (List ℕ)
  pub new_address : SignatureType → List ℕ → Result Error Address
  pub sign : SignatureType → List ℕ → List ℕ → Result Error Signature
  pub generate : SignatureType → Exec Error World (List ℕ)

pub record Key (Address : Type 0) : Type 0 where
  pub key_info : KeyInfo
  pub public_key : List ℕ
  pub address : Address

-- The store is the wallet's; the cache is its field `keys`.
pub record Wallet (Address Location : Type 0) : Type 0 where
  pub keys : Map Address (Key Address)
  pub keystore : KeyStore Location

-- What stands before an address in the name of its key.
abbrev pub wallet_prefix : Text
wallet_prefix = codes "wallet-"

abbrev pub default_name : Text
default_name = codes "default"

-- `text[1..]`, of a text whose first character is one byte: an empty text panics.
abbrev pub tail : Text → Result Error Text
tail [] = panic
tail (c ∷ s) = ok s

module _ {Address Signature Location World : Type 0} ⦃e : Eq Address⦄ ⦃fvm : AddressLib Address⦄
    (helpers : WalletHelpers Address Signature World) (host : Host Location World)
    (crypto : Crypto) where
  abbrev pub State : Type 0
  State = Wallet Address Location × World

  -- An action on the store of the wallet.
  unfoldable pub on_keystore :
      {E A : Type 0} → Exec E (KeyStore Location × World) A → Exec E State A
  on_keystore m (self, w) =
      let (r, (keystore, w')) = m (self.keystore, w) in
      (r, (record self { keystore = keystore }, w'))

  unfoldable pub on_world : {E A : Type 0} → Exec E World A → Exec E State A
  on_world m (self, w) = ((m w).0, (self, (m w).1))

  -- The error of an `Error` within `anyhow`.
  abbrev pub anyhow : {S A : Type 0} → Exec Error S A → Exec Text S A
  anyhow m s = (map_err error_text (m s).0, (m s).1)

  -- `Key::try_from`
  unfoldable pub try_from : KeyInfo → Result Error (Key Address)
  try_from info = elim (helpers.to_public info.key_type info.private_key) [
    | ok public_key ↦ elim (helpers.new_address info.key_type public_key) [
      | ok address ↦ ok (record { key_info = info; public_key = public_key; address = address })
      | err m ↦ err m
      | panic ↦ panic
    ]
    | err m ↦ err m
    | panic ↦ panic
  ]

  abbrev pub new : KeyStore Location → Wallet Address Location
  new keystore = record { keys = []; keystore = keystore }

  unfoldable pub cached : List (Key Address) → Map Address (Key Address) → Map Address (Key Address)
  cached [] keys = keys
  cached (item ∷ l) keys = cached l (insert item.address item keys)

  abbrev pub new_from_keys : KeyStore Location → List (Key Address) → Wallet Address Location
  unfolding cached
  new_from_keys keystore key_vec = record { keys = cached key_vec []; keystore = keystore }

  abbrev pub wallet_name : Address → Text
  wallet_name addr = wallet_prefix ++ fvm.to_string addr

  -- The name with another letter in place of the first, and what stands under it.
  abbrev pub second_name : Text → Result Error Text → Result Error Text
  second_name letter (ok rest) = ok (wallet_prefix ++ letter ++ rest)
  second_name letter (err m) = err m
  second_name letter panic = panic

  abbrev pub get_at : Result Error Text → KeyStore Location → Result Error KeyInfo
  get_at (ok name) keystore = KeyStore.get name keystore
  get_at (err m) keystore = err m
  get_at panic keystore = panic

  abbrev pub or_second :
      Result Error KeyInfo → Text → Address → KeyStore Location → Result Error KeyInfo
  or_second (ok k) letter addr keystore = ok k
  or_second (err m) letter addr keystore =
      get_at (second_name letter (tail (fvm.to_string addr))) keystore
  or_second panic letter addr keystore = panic

  -- `find_key` before its cache
  unfoldable pub stored_info : Address → KeyStore Location → Result Error KeyInfo
  stored_info addr keystore =
      or_second (KeyStore.get (wallet_name addr) keystore) (codes "t") addr keystore

  -- The key that was found, put in the cache.
  abbrev pub remember :
      Address → Result Error (Key Address) → Wallet Address Location → Wallet Address Location
  remember addr (ok k) self = record self { keys = insert addr k self.keys }
  remember addr (err m) self = self
  remember addr panic self = self

  unfoldable pub key_of_info : Result Error KeyInfo → Result Error (Key Address)
  unfolding try_from
  key_of_info (ok i) = try_from i
  key_of_info (err m) = err m
  key_of_info panic = panic

  -- `Wallet::find_key`
  unfoldable pub find_key : Address → Exec Error State (Key Address)
  unfolding stored_info
  find_key addr (self, w) = elim (lookup addr self.keys) [
    | some k ↦ (ok k, (self, w))
    | none ↦
        let found = key_of_info (stored_info addr self.keystore) in
        (found, (remember addr found self, w))
  ]

  unfoldable pub sign : Address → List ℕ → Exec Error State Signature
  unfolding find_key
  sign addr msg = do
    key ← λ s. (map_err (λ m. key_not_exists) (find_key addr s).0, (find_key addr s).1)
    lift (helpers.sign key.key_info.key_type key.key_info.private_key msg)

  unfoldable pub export : Address → Exec Error State KeyInfo
  unfolding find_key
  export addr = do k ← find_key addr; pure k.key_info

  -- `Wallet::import`
  unfoldable pub import_key : KeyInfo → Exec Error State Address
  unfolding try_from on_keystore
  import_key info = do
    k ← lift (try_from info)
    on_keystore (KeyStore.put host crypto (wallet_name k.address) k.key_info)
    pure k.address

  -- The addresses of the names with the prefix, in the order of the names. A name that is not one
  -- is passed over.
  unfoldable pub addresses : List Text → List Address
  addresses [] = []
  addresses (i ∷ all) =
      let rest = addresses all in
      elim (strip_prefix wallet_prefix i) [
        | none ↦ rest
        | some addr_str ↦ elim (fvm.from_str addr_str) [ inl m ↦ rest | inr addr ↦ addr ∷ rest ]
      ]

  unfoldable pub list_addrs : KeyStore Location → Result Error (List Address)
  unfolding addresses
  list_addrs keystore = ok (addresses (sort (KeyStore.list keystore)))

  -- `Wallet::remove`
  unfoldable pub remove : Address → Exec Text State (Unit {0})
  unfolding on_keystore
  remove addr = do on_keystore (KeyStore.remove host crypto (fvm.to_string addr)); pure tt

  -- `Wallet::get_default`
  unfoldable pub get_default : Exec Error State Address
  get_default s = elim (key_of_info (KeyStore.get default_name s.0.keystore)) [
    | ok k ↦ (ok k.address, s)
    | err m ↦ (err m, s)
    | panic ↦ (panic, s)
  ]

  abbrev pub is_ok : {A : Type 0} → Result Error A → Bool
  is_ok (ok a) = true
  is_ok (err m) = false
  is_ok panic = false

  -- The current default key is no longer registered.
  abbrev pub clear_default : Exec Text State (Unit {0})
  unfolding on_keystore
  clear_default s =
      if is_ok (KeyStore.get default_name s.0.keystore)
      then (do on_keystore (KeyStore.remove host crypto default_name); pure tt) s
      else (ok tt, s)

  unfoldable pub set_default : Address → Exec Text State (Unit {0})
  unfolding on_keystore
  set_default addr s =
      (do
        info ← lift (map_err error_text (KeyStore.get (wallet_name addr) s.0.keystore))
        clear_default
        anyhow (on_keystore (KeyStore.put host crypto default_name info)))
        s

  unfoldable pub generate_key : SignatureType → Exec Error World (Key Address)
  unfolding try_from
  generate_key typ = do
    private_key ← helpers.generate typ
    lift (try_from (record { key_type = typ; private_key = private_key }))

  -- The key becomes the default when there is none.
  abbrev pub first_default : KeyInfo → Exec Text State (Unit {0})
  unfolding on_keystore
  first_default info s =
      if is_ok (KeyStore.get default_name s.0.keystore)
      then (ok tt, s)
      else anyhow (on_keystore (KeyStore.put host crypto default_name info)) s

  unfoldable pub generate_addr : SignatureType → Exec Text State Address
  unfolding generate_key on_world on_keystore
  generate_addr typ = do
    key ← anyhow (on_world (generate_key typ))
    anyhow (on_keystore (KeyStore.put host crypto (wallet_name key.address) key.key_info))
    (λ s. (ok tt, ((record s.0 { keys = insert key.address key s.0.keys }), s.1)))
    first_default key.key_info
    pure key.address

  unfoldable pub has_key : Address → State → Bool × State
  unfolding find_key
  has_key addr s = (is_ok (find_key addr s).0, (find_key addr s).1)
