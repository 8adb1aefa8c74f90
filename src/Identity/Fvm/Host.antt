-- ===== src/Identity/Fvm/Host.antt =====
-- What ipc/identity/src/fvm/keystore.rs uses of the file system, of codecs and of cryptography, and
-- the form of a key in a clear file.
use ipc_client.Base.{ℕ, Bool, Option, List, Result}
use ipc_client.Base.Exec.{Exec}
use ipc_client.Base.Map.{Map}
use ipc_client.Base.Text.{Text}
use ipc_client.Identity.Fvm.{KeyInfo, SignatureType}

pub record PersistentKeyInfo : Type 0 where
  pub key_type : SignatureType
  pub private_key : Text

-- `RECOMMENDED_SALT_LEN`, `NONCE_SIZE` and the size of a key of XSalsa20Poly1305
abbrev pub salt_len : ℕ
salt_len = 16

abbrev pub nonce_size : ℕ
nonce_size = 24

abbrev pub key_size : ℕ
key_size = 32

-- What `File::open` returns, without the file: the error `NotFound` is told apart.
pub data Opened : Type 0 where
  opened : Opened
  not_found : Opened
  refused : Text → Opened

-- The file system, over its states; the codecs `serde_json`, `serde_ipld_dagcbor` and `base64`; and
-- the generator `OsRng`. A codec's error that the code drops is `none`.
pub record Host (Location World : Type 0) : Type 0 where
  pub join : Location → Text → Location
  pub parent : Location → Option Location
  pub exists : Location → World → Bool
  pub create_dir : Location → Exec Text World (Unit {0})
  pub create_dir_all : Location → Exec Text World (Unit {0})
  -- `File::create`, which empties the file
  pub create : Location → Exec Text World (Unit {0})
  pub set_user_perm : Location → Exec Text World (Unit {0})
  -- `write_all` and `to_writer_pretty` into a `BufWriter` of the file that was created: the outcome,
  -- and what is still in the buffer
  pub write_buffered : Location → List ℕ → World → (Result Text (Unit {0}) × List ℕ) × World
  -- The drop of the `BufWriter`, which writes what is in the buffer, and what that meets
  pub drop_buffer : Location → List ℕ → Exec Text World (Unit {0})
  pub try_open : Location → World → Opened
  pub read_to_end : Location → World → Result Text (List ℕ)
  pub json_to_vec : Map Text PersistentKeyInfo → Result Text (List ℕ)
  pub json_from_slice : List ℕ → Option (Map Text PersistentKeyInfo)
  pub cbor_to_vec : Map Text KeyInfo → Result Text (List ℕ)
  pub cbor_from_slice : List ℕ → Option (Map Text KeyInfo)
  pub base64_encode : List ℕ → Text
  pub base64_decode : Text → Result Text (List ℕ)
  -- so many random bytes
  pub fill_bytes : ℕ → World → List ℕ × World

-- `argon2` with the parameters of `derive_key`, from a passphrase and a salt, and the cipher
-- `XSalsa20Poly1305`, from a key, a nonce and a message.
pub record Crypto : Type 0 where
  pub hash_password : Text → List ℕ → Result Text (Option (List ℕ))
  pub encrypt : List ℕ → List ℕ → List ℕ → Result Text (List ℕ)
  pub decrypt : List ℕ → List ℕ → List ℕ → Result Text (List ℕ)
