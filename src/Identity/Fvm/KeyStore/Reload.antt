-- ===== src/Identity/Fvm/KeyStore/Reload.antt =====
-- The bytes that a store writes are read back as the same keys.
use mathlib.Core.Path.{subst}
use ipc_client.Base.{
  list_beq_iff, ℕ, ◌≡◌, refl, arith, List, [], ◌∷◌, ◌++◌, false, none, some, Result, ok, err, panic,
  map_err, list_eq, nat_eq, ltb, length, take, drop, take-length_append, drop-length_append,
  length-append,
}
use ipc_client.Base.Exec.{◌>>=◌, continue, pure}
use ipc_client.Base.Map.{Map, lookup, insert, lookup-insert, IsUnique}
use ipc_client.Base.Text.{Text, codes}
use ipc_client.Identity.Fvm.{KeyInfo}
use ipc_client.Identity.Fvm.Host.{Host, Crypto, salt_len}
use ipc_client.Identity.Fvm.KeyStore.{
  EncryptedKeyStore, contents, derive_key, encrypt, from_encrypted, to_persistent, from_persistent,
}
use ipc_client.Identity.Fvm.KeyStore.Cipher.{CryptoIsLawful, decrypt-encrypt}

-- The codecs read back what they write: a map, whose entries may come in another order.
pub record CodecsAreLawful {Location World : Type 0} (host : Host Location World) : Type 0 where
  pub cbor :
      (m : Map Text KeyInfo) (bytes : List ℕ)
      → IsUnique m
      → host.cbor_to_vec m ≡ ok bytes
      → (m' : Map Text KeyInfo) × (host.cbor_from_slice bytes ≡ some m')
        × ((k : Text) → lookup k m' ≡ lookup k m)
  pub base64 : (b : List ℕ) → host.base64_decode (host.base64_encode b) ≡ ok b

module _ {Location World : Type 0} (host : Host Location World) (crypto : Crypto) where
  -- With lawful codecs, the entries of a clear file are those that were written, over what was
  -- loaded before: a written name is found with its key, another name as before.
  from_persistent-to_persistent :
      (codecs : CodecsAreLawful host) (m acc : Map Text KeyInfo)
      → IsUnique m
      → (m' : Map Text KeyInfo) × (from_persistent host crypto acc (to_persistent host crypto m)
          ≡ ok m')
        × ((k : Text) → lookup k m' ≡ (elim (lookup k m) [ some i ↦ some i | none ↦ lookup k acc ]))
  unfolding from_persistent to_persistent lookup
  from_persistent-to_persistent codecs [] acc u = (acc, refl, λ k. refl)
  from_persistent-to_persistent codecs ((j, i) ∷ m) acc (fresh, u) =
      let (m', loaded, found) = from_persistent-to_persistent codecs m (insert j i acc) u in
      (
        m',
        rw (codecs.base64 i.private_key) loaded,
        λ k. ground (arith, found k, lookup-insert j k i acc, list_beq_iff j k),
      )

  cut-salt :
      (salt data' : List ℕ)
      → length salt ≡ salt_len
      → (ltb (length (salt ++ data')) salt_len ≡ false)
        × (take salt_len (salt ++ data') ≡ salt)
        × (drop salt_len (salt ++ data') ≡ data')
  cut-salt salt data' h = (
    ground (arith, length-append salt data'),
    subst (λ n. take n (salt ++ data') ≡ salt) h (take-length_append salt data'),
    subst (λ n. drop n (salt ++ data') ≡ data') h (drop-length_append salt data'),
  )

  after_encrypt :
      (salt bytes : List ℕ) (r : Result Text (List ℕ)) (u : World)
      → (continue r (λ d. pure (salt ++ d)) u).0 ≡ ok bytes
      → (cipher : List ℕ) × (r ≡ ok cipher) × (bytes ≡ salt ++ cipher)
  unfolding ◌>>=◌
  after_encrypt salt bytes (ok d) u h = (d, refl, cc)
  after_encrypt salt bytes (err m) u h = absurd cc
  after_encrypt salt bytes panic u h = absurd cc

  -- What is behind the salt is the encrypted map.
  unfoldable pub IsWritten : EncryptedKeyStore → Map Text KeyInfo → World → List ℕ → Type 0
  IsWritten store m w bytes =
      (plain : List ℕ) × (cipher : List ℕ) × (host.cbor_to_vec m ≡ ok plain)
      × ((encrypt host crypto store.encryption_key plain w).0 ≡ ok cipher)
      × (bytes ≡ store.salt ++ cipher)

  pub contents-IsWritten :
      (store : EncryptedKeyStore) (m : Map Text KeyInfo) (w : World) (bytes : List ℕ)
      → (contents host crypto (some store) m w).0 ≡ ok bytes
      → IsWritten store m w bytes
  unfolding contents ◌>>=◌ IsWritten
  contents-IsWritten store m w bytes h = serialized (host.cbor_to_vec m) refl h
    where
      serialized :
          (r : Result Text (List ℕ))
          → host.cbor_to_vec m ≡ r
          → (continue
              (map_err (λ e. codes "failed to serialize and write key info: " ++ e) r)
              (λ d. encrypt host crypto store.encryption_key d >>= λ c. pure (store.salt ++ c))
              w).0
            ≡ ok bytes
          → IsWritten store m w bytes
      serialized (ok plain) q h =
          let (cipher, made, whole) =
            after_encrypt store.salt bytes (encrypt host crypto store.encryption_key plain w).0
              (encrypt host crypto store.encryption_key plain w).1 h in
          (plain, cipher, q, made, whole)
      serialized (err e) q h = absurd cc
      serialized panic q h = absurd cc

  -- An encrypted file that a store wrote is opened with the passphrase of its key as a store with
  -- the same keys, salt and encryption key.
  pub from_encrypted-contents :
      (lawful : CryptoIsLawful host crypto) (codecs : CodecsAreLawful host)
      (store : EncryptedKeyStore) (m : Map Text KeyInfo) (file_path : Location) (passphrase : Text)
      (w later : World) (bytes : List ℕ)
      → IsUnique m
      → length store.salt ≡ salt_len
      → crypto.hash_password passphrase store.salt ≡ ok (some store.encryption_key)
      → (contents host crypto (some store) m w).0 ≡ ok bytes
      → (m' : Map Text KeyInfo) × (from_encrypted host crypto file_path passphrase bytes later ≡ (
        ok (record { entries = m'; persistence = some file_path; encryption = some store }),
        later,
      ))
        × ((k : Text) → lookup k m' ≡ lookup k m)
  unfolding from_encrypted derive_key ◌>>=◌ IsWritten
  from_encrypted-contents lawful codecs store m file_path passphrase w later bytes unique n k h =
      let (plain, cipher, serialized, made, whole) = contents-IsWritten store m w bytes h in
      let (long, front, back) = cut-salt store.salt cipher n in
      let plain_again =
        decrypt-encrypt host crypto lawful store.encryption_key plain cipher w made in
      let (m', read, same) = codecs.cbor m plain unique serialized in
      (
        m',
        rw (whole, from_encrypted)
            (rw long (rw front (rw back (rw k (rw plain_again (rw read refl)))))),
        same,
      )
