-- ===== src/Identity/Fvm/KeyStore/Cipher.antt =====
-- What an encrypted store encrypts, it decrypts.
use mathlib.Core.Path.{subst}
use ipc_client.Base.{
  ℕ, ◌-◌, ◌≡◌, refl, ◌∙◌, arith, List, ◌++◌, true, false, Result, ok, err, panic, length,
  length-append, take-length_append, drop-length_append, Bool-cases, inl, inr, ◌==◌, nat_eq, ltb,
}
use ipc_client.Base.Exec.{◌>>=◌, continue, pure}
use ipc_client.Base.Text.{Text}
use ipc_client.Identity.Fvm.Host.{Host, Crypto, nonce_size, key_size}
use ipc_client.Identity.Fvm.KeyStore.{encrypt, decrypt}

-- The cipher is undone under the same key and nonce, and the generator fills the whole buffer.
pub record CryptoIsLawful {Location World : Type 0} (host : Host Location World) (crypto : Crypto)
    : Type 0 where
  pub decrypt_encrypt :
      (key nonce msg c : List ℕ)
      → crypto.encrypt key nonce msg ≡ ok c
      → crypto.decrypt key nonce c ≡ ok msg
  pub length_fill : (n : ℕ) (w : World) → length (host.fill_bytes n w).0 ≡ n

module _ {Location World : Type 0} (host : Host Location World) (crypto : Crypto)
    (lawful : CryptoIsLawful host crypto) where
  -- A message with the nonce behind it is decrypted with that nonce.
  decrypt-append :
      (key nonce c : List ℕ)
      → length nonce ≡ nonce_size
      → (length key == key_size) ≡ true
      → decrypt host crypto key (c ++ nonce) ≡ crypto.decrypt key nonce c
  unfolding decrypt
  decrypt-append key nonce c n k =
      let long : ltb (length (c ++ nonce)) nonce_size ≡ false =
        ground (arith, length-append c nonce) in
      let cut : length (c ++ nonce) - nonce_size ≡ length c =
        omega (arith, length-append c nonce, n) in
      rw (long, decrypt)
        (rw k (rw cut (rw (drop-length_append c nonce) (rw (take-length_append c nonce) refl))))

  encrypted-append :
      (key nonce msg c : List ℕ)
      → length nonce ≡ nonce_size
      → (length key == key_size) ≡ true
      → (r : Result Text (List ℕ)) (w : World) → crypto.encrypt key nonce msg ≡ r
      → (continue r (λ ciphertext. pure (ciphertext ++ nonce)) w).0 ≡ ok c
      → decrypt host crypto key c ≡ ok msg
  unfolding ◌>>=◌
  encrypted-append key nonce msg c n k (ok d) w made h =
      let back = lawful.decrypt_encrypt key nonce msg d made in
      let whole : d ++ nonce ≡ c = cc in
      subst (λ c. decrypt host crypto key c ≡ ok msg) whole (decrypt-append key nonce d n k ∙ back)
  encrypted-append key nonce msg c n k (err m) w made h = absurd cc
  encrypted-append key nonce msg c n k panic w made h = absurd cc

  -- With a lawful cipher, whatever was encrypted under a key is decrypted under it to the same
  -- message.
  pub decrypt-encrypt :
      (key msg c : List ℕ) (w : World)
      → (encrypt host crypto key msg w).0 ≡ ok c
      → decrypt host crypto key c ≡ ok msg
  unfolding encrypt ◌>>=◌
  decrypt-encrypt key msg c w h = elim (Bool-cases (length key == key_size)) [
    | inl k ↦
        encrypted-append key (host.fill_bytes nonce_size w).0 msg c
          (lawful.length_fill nonce_size w) k
          (crypto.encrypt key (host.fill_bytes nonce_size w).0 msg) (host.fill_bytes nonce_size w).1
          refl (rw k at h)
    | inr k ↦ absurd (let h' = rw k at h in cc)
  ]
