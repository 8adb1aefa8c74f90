-- ===== src/Identity/Tests.antt =====
-- The theorems on the key stores and the wallet, at stores with a few keys.
use ipc_client.Base.{
  ℕ, ◌≡◌, refl, Bool, true, false, ◌⊎◌, Option, none, some, List, [], ◌∷◌, ◌++◌, ok, err, length,
  ◌==◌, nat_eq, nat_beq, list_eq, option_eq, if◌then◌else◌, ◌&&◌, ◌||◌, is_some,
}
use ipc_client.Base.Exec.{◌>>=◌}
use ipc_client.Base.Map.{Map, lookup, IsUnique}
use ipc_client.Base.Text.{Text, codes}
use ipc_client.Sdk.Fixtures.{numbers}
use ipc_client.Identity.Fixtures.{
  fvm_files, info_of, two_keys, two_keys-IsConsistent, two_keys-IsUnique, two_keys_file, evm_host,
  evm_codecs, evm_files, byte_keys, byte_keys-IsLawful, fvm_host, fvm_codecs, plain_crypto,
  plain_crypto-IsLawful, repeated, encode, fvm_texts, decode, evm_infos,
}
use ipc_client.Identity.Evm.Memory.{
  MemoryKeyStore, empty, get, put, remove, set_default, get_default,
}
use ipc_client.Identity.Evm.Memory.Invariant.{IsConsistent, remove_lem}
use ipc_client.Identity.Evm.Persistent.Reach.{
  IsAddressed, Reached, after_put, after_set_default, after_load, Reached-IsConsistent,
}
use ipc_client.Identity.Evm.Persistent as Persistent
use ipc_client.Identity.Evm.Persistent.{PersistentKeyStore, flush_no_encryption}
use ipc_client.Identity.Evm.Persistent.Reload.{new-flush, last_write as evm_last_write}
use ipc_client.Identity.Fvm as Fvm
use ipc_client.Identity.Fvm.{secp256k1, bls, key_info}
use ipc_client.Identity.Fvm.KeyStore
use ipc_client.Identity.Fvm.KeyStore.{
  KeyStore, EncryptedKeyStore, contents, flush, encrypted, encrypt, decrypt, from_encrypted,
  write_out, write_all, from_persistent, to_persistent,
}
use ipc_client.Identity.Fvm.KeyStore.Entries.{get-put}
use ipc_client.Identity.Fvm.KeyStore.Persistence.{encrypted_store, last_write, new-flush_encrypted}
use ipc_client.Identity.Fvm.Wallet as Wallet
use ipc_client.Identity.Fvm.Wallet.{WalletHelpers, Key, Wallet, find_key, import_key, try_from}
use ipc_client.Identity.Fvm.Wallet.Change.{find_key-import_key, remove-import_key}

-- A file without entries.
abbrev no_keys : PersistentKeyStore ℕ ℕ
no_keys = record { memory = empty; file_path = 1 }

no_keys_are_loaded : Persistent.from_contents byte_keys evm_host 1 [] ≡ ok no_keys
unfolding Persistent.from_contents Persistent.load_entries evm_infos decode lookup
no_keys_are_loaded = refl

abbrev reached : MemoryKeyStore ℕ
reached = (set_default byte_keys 4 (put byte_keys (info_of 3) empty).1).1

reached_from_file : Reached byte_keys evm_host false reached
reached_from_file =
    after_set_default (after_put (after_load 1 [] no_keys no_keys_are_loaded) (info_of 3)) 4

Reached-IsConsistent_example :
    IsAddressed byte_keys evm_host reached.entries
    × ((a : ℕ) → (remove byte_keys a reached).0 ≡ ok tt)
    × ((◌≡◌ {A = Bool} false true)
        ⊎ (IsConsistent byte_keys reached
            × (get_default byte_keys reached ≡ (ok reached.default, reached))))
Reached-IsConsistent_example =
    Reached-IsConsistent byte_keys evm_host byte_keys-IsLawful false reached reached_from_file

remove_lem_example :
    (get 0 (remove byte_keys 4 two_keys).1 ≡ (
      if nat_beq 4 0 || (two_keys.default == some 4 && nat_beq 0 0) then none else get 0 two_keys))
    × ((remove byte_keys 4 two_keys).1.default
        ≡ (if two_keys.default == some 4 then none else two_keys.default))
remove_lem_example = remove_lem byte_keys 4 0 two_keys

two_keys_are_flushed : (flush_no_encryption byte_keys evm_host (two_keys_file, none)).0 ≡ ok tt
unfolding flush_no_encryption ◌>>=◌
two_keys_are_flushed = refl

new-flush_example :
    (loaded : PersistentKeyStore ℕ ℕ) × (Persistent.new byte_keys evm_host 1
        (flush_no_encryption byte_keys evm_host (two_keys_file, none)).1.1
      ≡ ok loaded)
    × (loaded.memory.default ≡ some 4)
    × ((k : ℕ) → get k loaded.memory ≡ get k two_keys)
unfolding evm_last_write
new-flush_example =
    new-flush byte_keys byte_keys-IsLawful evm_host evm_codecs evm_files two_keys_file 1 none refl
      two_keys-IsConsistent two_keys-IsUnique two_keys_are_flushed refl

abbrev signing_key : Fvm.KeyInfo
signing_key = record { key_type = secp256k1; private_key = 3 ∷ [] }

abbrev other_key : Fvm.KeyInfo
other_key = record { key_type = bls; private_key = 5 ∷ [] }

abbrev named : Map Text Fvm.KeyInfo
named = (codes "default", signing_key) ∷ (codes "wallet-f", other_key) ∷ []

named-IsUnique : IsUnique named
unfolding lookup
named-IsUnique = (refl, (refl, tt))

-- A store whose file cannot be written, while the world is `none`.
abbrev named_store : KeyStore ℕ
named_store = record { entries = named; persistence = some 1; encryption = none }

abbrev encryption : EncryptedKeyStore
encryption = record { salt = repeated 16; encryption_key = repeated 32 }

-- What is written under the encryption above.
abbrev encrypted_file : List ℕ
encrypted_file = repeated 16 ++ (encode (fvm_texts named) ++ repeated 24)

flushed_to_file :
    flush fvm_host plain_crypto (encrypted_store fvm_host plain_crypto named 1 encryption) (some [])
    ≡ (ok tt, some encrypted_file)
unfolding flush contents encrypt write_out write_all ◌>>=◌
flushed_to_file = refl

hello_is_encrypted :
    (encrypt fvm_host plain_crypto (repeated 32) (codes "hello") none).0
    ≡ ok (codes "hello" ++ repeated 24)
unfolding encrypt ◌>>=◌
hello_is_encrypted = refl

new-flush_encrypted_example :
    (loaded : Map Text Fvm.KeyInfo) × (KeyStore.new fvm_host plain_crypto
        (encrypted 1 (codes "secret"))
        (some encrypted_file)
      ≡ (ok (encrypted_store fvm_host plain_crypto loaded 1 encryption), some encrypted_file))
    × ((name : Text) → lookup name loaded ≡ lookup name named)
unfolding last_write contents encrypt ◌>>=◌
new-flush_encrypted_example =
    new-flush_encrypted fvm_host plain_crypto plain_crypto-IsLawful fvm_codecs fvm_files 1 named
      encryption (codes "secret") (some []) (some encrypted_file) refl refl refl named-IsUnique
      flushed_to_file refl

get-put_example :
    KeyStore.get
      (codes "new")
      (KeyStore.put fvm_host plain_crypto (codes "new") other_key (named_store, none)).1.0
    ≡ (if is_some (lookup (codes "new") named)
        then KeyStore.get (codes "new") named_store
        else (if codes "new" == codes "new"
            then ok other_key
            else KeyStore.get (codes "new") named_store))
get-put_example =
    get-put fvm_host plain_crypto (codes "new") (codes "new") other_key (named_store, none)

-- The address of a key is the length of its public key, which is the private one.
abbrev helpers : WalletHelpers ℕ (List ℕ) (Option Text)
helpers = record {
  to_public = λ t p. ok p;
  new_address = λ t p. ok (length p);
  sign = λ t p m. ok m;
  generate = λ t w. (ok (9 ∷ []), w);
}

abbrev wallet : Wallet.Wallet ℕ ℕ
wallet = record { keys = []; keystore = named_store }

abbrev long_key : Fvm.KeyInfo
long_key = record { key_type = bls; private_key = 1 ∷ 2 ∷ [] }

abbrev key_of_two : Key ℕ
key_of_two = record { key_info = long_key; public_key = 1 ∷ 2 ∷ []; address = 2 }

long_key_is_key : try_from helpers fvm_host plain_crypto long_key ≡ ok key_of_two
unfolding try_from
long_key_is_key = refl

name_is_free : lookup (codes "wallet-fxx") named ≡ none
unfolding lookup
name_is_free = refl

text_is_free : lookup (codes "fxx") named ≡ none
unfolding lookup
text_is_free = refl

find_key-import_key_example :
    (find_key helpers fvm_host plain_crypto 2
      (import_key helpers fvm_host plain_crypto long_key (wallet, none)).1).0
    ≡ ok key_of_two
unfolding lookup
find_key-import_key_example =
    find_key-import_key helpers fvm_host plain_crypto long_key key_of_two (wallet, none)
      long_key_is_key name_is_free refl

remove-import_key_example :
    Wallet.remove helpers fvm_host plain_crypto 2
      (import_key helpers fvm_host plain_crypto long_key (wallet, none)).1
    ≡ (
      err (codes "Key info not found"),
      (import_key helpers fvm_host plain_crypto long_key (wallet, none)).1,
    )
remove-import_key_example =
    remove-import_key helpers fvm_host plain_crypto long_key key_of_two (wallet, none)
      long_key_is_key name_is_free text_is_free
