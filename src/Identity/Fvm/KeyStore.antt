-- ===== src/Identity/Fvm/KeyStore.antt =====
-- ipc/identity/src/fvm/keystore.rs: the store of FVM keys by name, in memory, in a file of clear
-- text or in an encrypted file.
pub mod Cipher
pub mod Entries
pub mod Reload
pub mod Persistence
use ipc_client.Base.{
  is_some, ℕ, ◌-◌, ◌+◌, Bool, true, false, not, Option, none, some, List, [], ◌∷◌, ◌++◌, Result, ok,
  err, panic, map_err, ok_or, Eq, ◌==◌, list_eq, nat_eq, if◌then◌else◌, ltb, length, take, drop,
}
use ipc_client.Base.Exec.{Exec, ◌>>=◌, ◌>>◌, pure, fail, lift}
use ipc_client.Base.Map.{Map, keys, lookup, insert, remove as remove_entry}
use ipc_client.Base.Text.{Text, codes}
use ipc_client.Identity.Fvm.Host.{
  PersistentKeyInfo, Opened, opened, not_found, refused, Host, Crypto, salt_len, nonce_size,
  key_size,
}
use ipc_client.Identity.Fvm.{
  KeyInfo, SignatureType, Error, key_info, key_exists, io, other, error_text,
}

pub data KeyStoreConfig (Location : Type 0) : Type 0 where
  memory : KeyStoreConfig Location
  persistent : Location → KeyStoreConfig Location
  encrypted : Location → Text → KeyStoreConfig Location

pub record EncryptedKeyStore : Type 0 where
  pub salt : List ℕ
  pub encryption_key : List ℕ

-- The persistent store is the path of its file.
pub record KeyStore (Location : Type 0) : Type 0 where
  pub entries : Map Text KeyInfo
  pub persistence : Option Location
  pub encryption : Option EncryptedKeyStore

-- The error of an action on files, as `Error::IO`, or as `Error::Other`.
abbrev pub as_error : {A S : Type 0} → (Text → Error) → Exec Text S A → Exec Error S A
as_error f m s = (map_err f (m s).0, (m s).1)

-- `unwrap_or_default` of a map that was read
abbrev pub or_default : {V : Type 0} → Option (Map Text V) → Map Text V
or_default (some m) = m
or_default none = []

-- The error of an `Error` within `anyhow`.
abbrev pub as_anyhow : {A : Type 0} → Result Error A → Result Text A
as_anyhow = map_err error_text

module _ {Location : Type 0} where
  abbrev pub list : KeyStore Location → List Text
  list self = keys self.entries

  unfoldable pub get : Text → KeyStore Location → Result Error KeyInfo
  get k self = ok_or (lookup k self.entries) key_info

module _ {Location World : Type 0} (host : Host Location World) (crypto : Crypto) where
  abbrev pub State : Type 0
  State = KeyStore Location × World

  abbrev pub hashed : List ℕ → Option (List ℕ) → Result Text (List ℕ × List ℕ)
  hashed salt (some hash) = ok (salt, hash)
  hashed salt none = err (codes "Error encrypting data")

  abbrev pub pick_salt : Option (List ℕ) → World → List ℕ × World
  pick_salt (some prev_salt) w = (prev_salt, w)
  pick_salt none w = host.fill_bytes salt_len w

  -- The salt and the key of a passphrase, with the salt of an existing file or a new one.
  unfoldable pub derive_key : Text → Option (List ℕ) → Exec Text World (List ℕ × List ℕ)
  derive_key passphrase prev_salt w =
      let (salt, w') = pick_salt prev_salt w in
      (do hash ← lift (crypto.hash_password passphrase salt); lift (hashed salt hash)) w'

  -- `GenericArray::from_slice` panics on a slice of another size.
  unfoldable pub encrypt : List ℕ → List ℕ → Exec Text World (List ℕ)
  encrypt encryption_key msg w =
      let (nonce, w') = host.fill_bytes nonce_size w in
      if length encryption_key == key_size
      then (do
        ciphertext ← lift (crypto.encrypt encryption_key nonce msg)
        pure (ciphertext ++ nonce))
          w'
      else (panic, w')

  -- `msg.len() - NONCE_SIZE` panics on a shorter message.
  unfoldable pub decrypt : List ℕ → List ℕ → Result Text (List ℕ)
  decrypt encryption_key msg =
      if ltb (length msg) nonce_size
      then panic
      else if length encryption_key == key_size
      then (let cyphertext_len = length msg - nonce_size in
          crypto.decrypt encryption_key (drop cyphertext_len msg) (take cyphertext_len msg))
      else panic

  unfoldable pub to_persistent : Map Text KeyInfo → Map Text PersistentKeyInfo
  to_persistent [] = []
  to_persistent ((key, value) ∷ m) =
      (
        key,
        record { key_type = value.key_type; private_key = host.base64_encode value.private_key },
      )
      ∷ to_persistent m

  -- What a clear file gives, entry by entry.
  unfoldable pub from_persistent :
      Map Text KeyInfo → Map Text PersistentKeyInfo → Result Error (Map Text KeyInfo)
  from_persistent entries [] = ok entries
  from_persistent entries ((key, value) ∷ m) = elim (host.base64_decode value.private_key) [
    | ok private_key ↦
        from_persistent
          (insert key (record { key_type = value.key_type; private_key = private_key }) entries) m
    | err e ↦ err (other e)
    | panic ↦ panic
  ]

  abbrev pub clear_store :
      Location → Result Error (Map Text KeyInfo) → Result Error (KeyStore Location)
  clear_store file_path (ok m) =
      ok (record { entries = m; persistence = some file_path; encryption = none })
  clear_store file_path (err e) = err e
  clear_store file_path panic = panic

  -- The entries of a clear file: none when it cannot be read as such.
  abbrev pub parse_clear : Result Text (List ℕ) → Map Text PersistentKeyInfo
  parse_clear (ok bytes) = or_default (host.json_from_slice bytes)
  parse_clear (err e) = []
  parse_clear panic = []

  unfoldable pub new_persistent : Location → Exec Error World (KeyStore Location)
  unfolding from_persistent
  new_persistent location w =
      let file_path = host.join location (codes "keystore.json") in
      elim (host.try_open file_path w) [
        | opened ↦ (
          clear_store file_path (from_persistent [] (parse_clear (host.read_to_end file_path w))),
          w,
        )
        | not_found ↦
            (ok (record { entries = []; persistence = some file_path; encryption = none }), w)
        | refused e ↦ (err (other e), w)
      ]

  -- An encrypted store with no keys and a new salt.
  unfoldable pub fresh_encrypted : Location → Text → Exec Error World (KeyStore Location)
  unfolding derive_key
  fresh_encrypted file_path passphrase = do
    (salt, encryption_key) ← as_error other (derive_key passphrase none)
    pure (record {
      entries = [];
      persistence = some file_path;
      encryption = some (record { salt = salt; encryption_key = encryption_key });
    })

  -- A file that is not empty: `split_off` panics when it is shorter than the salt.
  unfoldable pub from_encrypted : Location → Text → List ℕ → Exec Error World (KeyStore Location)
  unfolding derive_key
  from_encrypted file_path passphrase buf = if ltb (length buf) salt_len then lift panic else do
    (salt, encryption_key) ← as_error other (derive_key passphrase (some (take salt_len buf)))
    decrypted_data ← lift (map_err other (decrypt encryption_key (drop salt_len buf)))
    pure (record {
      entries = or_default (host.cbor_from_slice decrypted_data);
      persistence = some file_path;
      encryption = some (record { salt = salt; encryption_key = encryption_key });
    })

  abbrev pub is_empty : List ℕ → Bool
  is_empty [] = true
  is_empty (b ∷ l) = false

  abbrev pub unless : Bool → Exec Text World (Unit {0}) → Exec Text World (Unit {0})
  unless true m = pure tt
  unless false m = m

  unfoldable pub open_encrypted : Location → Text → Exec Error World (KeyStore Location)
  unfolding fresh_encrypted from_encrypted
  open_encrypted file_path passphrase w = elim (host.try_open file_path w) [
    | opened ↦
        (lift (map_err io (host.read_to_end file_path w)) >>= λ buf.
        if is_empty buf
        then fresh_encrypted file_path passphrase
        else from_encrypted file_path passphrase buf)
          w
    | not_found ↦ fresh_encrypted file_path passphrase w
    | refused e ↦ fresh_encrypted file_path passphrase w
  ]

  unfoldable pub new_encrypted : Location → Text → Exec Error World (KeyStore Location)
  unfolding open_encrypted
  new_encrypted location passphrase =
      let file_path = host.join location (codes "keystore") in
      (λ w. as_error io (unless (host.exists location w) (host.create_dir location)) w) >>= λ _.
      (λ w. as_error io (unless (host.exists file_path w) (host.create file_path)) w) >>= λ _.
      open_encrypted file_path passphrase

  -- `KeyStore::new`
  unfoldable pub new : KeyStoreConfig Location → Exec Error World (KeyStore Location)
  new memory = pure (record { entries = []; persistence = none; encryption = none })
  new (persistent location) = new_persistent location
  new (encrypted location passphrase) = new_encrypted location passphrase

  abbrev pub failed_to_serialize : {A : Type 0} → Result Text A → Result Text A
  failed_to_serialize = map_err (λ e. codes "failed to serialize and write key info: " ++ e)

  -- The bytes that a store writes: the salt and the encrypted map, or the map in clear.
  unfoldable pub contents : Option EncryptedKeyStore → Map Text KeyInfo → Exec Text World (List ℕ)
  unfolding encrypt to_persistent
  contents (some store) entries = do
    data' ← lift (failed_to_serialize (host.cbor_to_vec entries))
    encrypted_data ← encrypt store.encryption_key data'
    pure (store.salt ++ encrypted_data)
  contents none entries = lift (failed_to_serialize (host.json_to_vec (to_persistent entries)))

  -- The `BufWriter` is dropped without a flush, so that an error of its last write is lost.
  unfoldable pub write_all : Location → List ℕ → Exec Text World (Unit {0})
  write_all file_path bytes w =
      let ((outcome, rest), w') = host.write_buffered file_path bytes w in
      (outcome, (host.drop_buffer file_path rest w').1)

  -- A clear map is serialised into the file, so that an error of the file is one of `to_writer_pretty`.
  unfoldable pub write_out :
      Option EncryptedKeyStore → Location → List ℕ → Exec Text World (Unit {0})
  unfolding write_all
  write_out (some store) file_path bytes w = write_all file_path bytes w
  write_out none file_path bytes w =
      (failed_to_serialize (write_all file_path bytes w).0, (write_all file_path bytes w).1)

  -- The file is emptied before its new contents are made.
  unfoldable pub flush : KeyStore Location → Exec Text World (Unit {0})
  unfolding contents write_out
  flush self w = elim self.persistence [
    | none ↦ (ok tt, w)
    | some file_path ↦ elim (host.parent file_path) [
      | none ↦ (err (codes "Invalid Path"), w)
      | some dir ↦
          (host.create_dir_all dir >>= λ _. host.create file_path >>= λ _.
          host.set_user_perm file_path >>= λ _. contents self.encryption self.entries >>= λ bytes.
          write_out self.encryption file_path bytes)
            w
    ]
  ]

  -- `flush`, of a store in its world.
  unfoldable pub flushed : Exec Text State (Unit {0})
  flushed (self, w) = ((flush self w).0, (self, (flush self w).1))

  -- What follows a change: a store without a file does not write.
  unfoldable pub save : Exec Text State (Unit {0})
  unfolding flushed
  save (self, w) = if is_some self.persistence then flushed (self, w) else (ok tt, (self, w))

  unfoldable pub put : Text → KeyInfo → Exec Error State (Unit {0})
  unfolding save
  put key info (self, w) =
      if is_some (lookup key self.entries)
      then (err key_exists, (self, w))
      else as_error other save ((record self { entries = insert key info self.entries }), w)

  unfoldable pub remove : Text → Exec Text State KeyInfo
  unfolding save
  remove key (self, w) = elim (lookup key self.entries) [
    | some key_out ↦
        (do save; pure key_out) ((record self { entries = remove_entry key self.entries }), w)
    | none ↦ (err (error_text key_info), (self, w))
  ]
