-- ===== src/Identity/Fvm/KeyStore/Persistence.antt =====
-- An encrypted store that was flushed is opened again.
use mathlib.Core.Path.{subst}
use ipc_client.Base.{
  ◌≡◌, refl, sym, ap, ◌∙◌, arith, List, ◌∷◌, [], ◌++◌, true, some, Result, ok, err, length, ℕ,
  Bool-cases, inl, inr, ◌==◌, nat_eq, list_eq, panic,
}
use ipc_client.Base.Exec.{Exec, ◌>>=◌, bind-ok, continue, pure}
use ipc_client.Base.Map.{Map, lookup, IsUnique}
use ipc_client.Base.Text.{Text, codes}
use ipc_client.Identity.Fvm.{KeyInfo}
use ipc_client.Identity.Fvm.Host.{Host, Crypto, salt_len, nonce_size, key_size, opened}
use ipc_client.Identity.Fvm.KeyStore.{
  KeyStore, EncryptedKeyStore, contents, encrypt, failed_to_serialize, flush, new, encrypted,
  new_encrypted, open_encrypted, from_encrypted, write_all, write_out,
}
use ipc_client.Identity.Fvm.KeyStore.Cipher.{CryptoIsLawful}
use ipc_client.Identity.Fvm.KeyStore.Reload.{
  CodecsAreLawful, from_encrypted-contents, IsWritten, contents-IsWritten,
}

-- What was made exists, and in between nothing goes away. What was written through a buffer is read,
-- once the rest of the buffer was written too.
pub record FilesAreLawful {Location World : Type 0} (host : Host Location World) : Type 0 where
  pub made_dir :
      (p : Location) (w : World)
      → (host.create_dir_all p w).0 ≡ ok tt
      → host.exists p (host.create_dir_all p w).1 ≡ true
  pub created :
      (p : Location) (w : World)
      → (host.create p w).0 ≡ ok tt
      → host.exists p (host.create p w).1 ≡ true
  pub create_keeps :
      (p q : Location) (w : World)
      → host.exists q w ≡ true
      → host.exists q (host.create p w).1 ≡ true
  pub perm_keeps :
      (p q : Location) (w : World)
      → host.exists q w ≡ true
      → host.exists q (host.set_user_perm p w).1 ≡ true
  pub fill_keeps :
      (n : ℕ) (q : Location) (w : World)
      → host.exists q w ≡ true
      → host.exists q (host.fill_bytes n w).1 ≡ true
  pub write_keeps :
      (p q : Location) (b : List ℕ) (w : World)
      → host.exists q w ≡ true
      → host.exists q (host.write_buffered p b w).1 ≡ true
  pub drop_keeps :
      (p q : Location) (rest : List ℕ) (w : World)
      → host.exists q w ≡ true
      → host.exists q (host.drop_buffer p rest w).1 ≡ true
  pub written :
      (p : Location) (b : List ℕ) (w : World)
      → let ((outcome, rest), w') = host.write_buffered p b w in
        outcome ≡ ok tt
        → (host.drop_buffer p rest w').0 ≡ ok tt
        → (host.try_open p (host.drop_buffer p rest w').1 ≡ opened)
          × (host.read_to_end p (host.drop_buffer p rest w').1 ≡ ok b)

module _ {Location World : Type 0} (host : Host Location World) (crypto : Crypto) where
  abbrev pub encrypted_store : Map Text KeyInfo → Location → EncryptedKeyStore → KeyStore Location
  encrypted_store entries file_path store = record {
    entries = entries;
    persistence = some file_path;
    encryption = some store;
  }

  -- What a flush that succeeds has written.
  Flushed : Map Text KeyInfo → EncryptedKeyStore → Location → Location → World → World → Type 0
  Flushed entries store file_path dir w w' =
      let w1 = (host.create_dir_all dir w).1 in
      let w2 = (host.create file_path w1).1 in
      let w3 = (host.set_user_perm file_path w2).1 in
      let w4 = (contents host crypto (some store) entries w3).1 in
      (bytes : List ℕ) × ((host.create_dir_all dir w).0 ≡ ok tt)
      × ((host.create file_path w1).0 ≡ ok tt)
      × ((contents host crypto (some store) entries w3).0 ≡ ok bytes)
      × ((write_all host crypto file_path bytes w4).0 ≡ ok tt)
      × (w' ≡ (write_all host crypto file_path bytes w4).1)

  abbrev dropped : Location → World → Result Text (List ℕ) → Result Text (Unit {0})
  dropped file_path w (ok bytes) =
      let ((outcome, rest), w') = host.write_buffered file_path bytes w in
      (host.drop_buffer file_path rest w').0
  dropped file_path w (err e) = ok tt
  dropped file_path w panic = ok tt

  -- What the drop of the writer meets at the end of a flush, which does not report it.
  unfoldable pub last_write :
      Map Text KeyInfo → EncryptedKeyStore → Location → Location → World → Result Text (Unit {0})
  last_write entries store file_path dir w =
      let w1 = (host.create_dir_all dir w).1 in
      let w2 = (host.create file_path w1).1 in
      let w3 = (host.set_user_perm file_path w2).1 in
      let (bytes, w4) = contents host crypto (some store) entries w3 in dropped file_path w4 bytes

  abbrev steps :
      Map Text KeyInfo → EncryptedKeyStore → Location → Location → Exec Text World (Unit {0})
  steps entries store file_path dir = host.create_dir_all dir >>= λ _.
      host.create file_path >>= λ _. host.set_user_perm file_path >>= λ _.
      contents host crypto (some store) entries >>= λ bytes. write_all host crypto file_path bytes

  steps-Flushed :
      (entries : Map Text KeyInfo) (store : EncryptedKeyStore) (file_path dir : Location)
      (w : World)
      → (steps entries store file_path dir w).0 ≡ ok tt
      → Flushed entries store file_path dir w (steps entries store file_path dir w).1
  unfolding Flushed
  steps-Flushed entries store file_path dir w h =
      let (_, made, h1, e1) = bind-ok (host.create_dir_all dir) _ w tt h in
      let (_, created, h2, e2) =
        bind-ok (host.create file_path) _ (host.create_dir_all dir w).1 tt h1 in
      let w2 = (host.create file_path (host.create_dir_all dir w).1).1 in
      let (_, perm, h3, e3) = bind-ok (host.set_user_perm file_path) _ w2 tt h2 in
      let (bytes, wrote, h4, e4) =
        bind-ok (contents host crypto (some store) entries)
          (λ bytes. write_all host crypto file_path bytes) (host.set_user_perm file_path w2).1 tt
          h3 in
      (bytes, made, created, wrote, h4, e1 ∙ e2 ∙ e3 ∙ e4)

  flush-steps :
      (entries : Map Text KeyInfo) (store : EncryptedKeyStore) (file_path dir : Location)
      (w : World)
      → host.parent file_path ≡ some dir
      → flush host crypto (encrypted_store entries file_path store) w
        ≡ steps entries store file_path dir w
  unfolding flush write_out
  flush-steps entries store file_path dir w d = rw (d, flush) refl

  continue-state :
      {A B : Type 0} (r : Result Text A) (f : A → B) (t : World)
      → (continue r (λ a. pure (f a)) t).1 ≡ t
  unfolding ◌>>=◌
  continue-state (ok a) f t = refl
  continue-state (err m) f t = refl
  continue-state panic f t = refl

  encrypt-world :
      (key msg : List ℕ) (w : World)
      → (encrypt host crypto key msg w).1 ≡ (host.fill_bytes nonce_size w).1
  unfolding encrypt ◌>>=◌
  encrypt-world key msg w = elim (Bool-cases (length key == key_size)) [
    | inl q ↦ rw q (
        continue-state (crypto.encrypt key (host.fill_bytes nonce_size w).0 msg)
          (λ c. c ++ (host.fill_bytes nonce_size w).0) (host.fill_bytes nonce_size w).1)
    | inr q ↦ rw q refl
  ]

  serialized-exists :
      (files : FilesAreLawful host) (store : EncryptedKeyStore) (q : Location) (w : World)
      → host.exists q w ≡ true
      → (r : Result Text (List ℕ))
      → host.exists q
          (continue r
            (λ d. encrypt host crypto store.encryption_key d >>= λ c. pure (store.salt ++ c))
            w).1
        ≡ true
  unfolding ◌>>=◌
  serialized-exists files store q w h (ok d) =
      let kept = files.fill_keeps nonce_size q w h in
      let same =
        continue-state (encrypt host crypto store.encryption_key d w).0 (λ c. store.salt ++ c)
          (encrypt host crypto store.encryption_key d w).1
        ∙ encrypt-world store.encryption_key d w in
      ap (host.exists q) same ∙ kept
  serialized-exists files store q w h (err m) = h
  serialized-exists files store q w h panic = h

  contents-exists :
      (files : FilesAreLawful host) (store : EncryptedKeyStore) (entries : Map Text KeyInfo)
      (q : Location) (w : World)
      → host.exists q w ≡ true
      → host.exists q (contents host crypto (some store) entries w).1 ≡ true
  unfolding contents ◌>>=◌
  contents-exists files store entries q w h =
      serialized-exists files store q w h
        (failed_to_serialize host crypto (host.cbor_to_vec entries))

  abbrev pub file_in : Location → Location
  file_in location = host.join location (codes "keystore")

  -- A file that is there and not empty is opened.
  open_written :
      (location : Location) (passphrase : Text) (b : ℕ) (rest : List ℕ) (u : World)
      → host.exists location u ≡ true
      → host.exists (file_in location) u ≡ true
      → host.try_open (file_in location) u ≡ opened
      → host.read_to_end (file_in location) u ≡ ok (b ∷ rest)
      → new_encrypted host crypto location passphrase u
        ≡ from_encrypted host crypto (file_in location) passphrase (b ∷ rest) u
  unfolding new_encrypted open_encrypted ◌>>=◌
  open_written location passphrase b rest u there here open_ok read =
      rw there (rw here (rw (open_ok, open_encrypted) (rw read refl)))

  not_empty :
      (salt c bytes : List ℕ)
      → length salt ≡ salt_len
      → bytes ≡ salt ++ c
      → (b : ℕ) × (rest : List ℕ) × (bytes ≡ b ∷ rest)
  not_empty [] c bytes n h = absurd (omega (arith, n))
  not_empty (b ∷ l) c bytes n h = (b, l ++ c, h)

  -- What a flush leaves: the directory and the file are there, and the file holds the contents.
  Flushed-file_in :
      (files : FilesAreLawful host) (entries : Map Text KeyInfo) (store : EncryptedKeyStore)
      (file_path dir : Location) (w u : World)
      → Flushed entries store file_path dir w u
      → last_write entries store file_path dir w ≡ ok tt
      → (bytes : List ℕ) × (v : World) × ((contents host crypto (some store) entries v).0
          ≡ ok bytes)
        × (host.exists dir u ≡ true)
        × (host.exists file_path u ≡ true)
        × (host.try_open file_path u ≡ opened)
        × (host.read_to_end file_path u ≡ ok bytes)
  unfolding Flushed last_write write_all
  Flushed-file_in files entries store file_path dir w u (bytes, made, created, wrote, put, after)
        last =
      let w1 = (host.create_dir_all dir w).1 in
      let w2 = (host.create file_path w1).1 in
      let w3 = (host.set_user_perm file_path w2).1 in
      let w4 = (contents host crypto (some store) entries w3).1 in
      let keeps : (q : Location)
          → host.exists q w2 ≡ true
          → host.exists q (write_all host crypto file_path bytes w4).1 ≡ true =
        λ q here.
          files.drop_keeps file_path q (host.write_buffered file_path bytes w4).0.1
            (host.write_buffered file_path bytes w4).1
            (files.write_keeps file_path q bytes w4
              (contents-exists files store entries q w3 (files.perm_keeps file_path q w2 here))) in
      let closed = files.written file_path bytes w4 put (rw (wrote) at last) in
      (
        bytes,
        w3,
        wrote,
        ap (host.exists dir) after
            ∙ keeps dir (files.create_keeps file_path dir w1 (files.made_dir dir w made)),
        ap (host.exists file_path) after ∙ keeps file_path (files.created file_path w1 created),
        ap (host.try_open file_path) after ∙ closed.0,
        ap (host.read_to_end file_path) after ∙ closed.1,
      )

  -- With lawful ciphers, codecs and files, for a directory that is the parent of its key file,
  -- after a flush of an encrypted store that has each name once and whose key is the
  -- passphrase's under a salt of 16 bytes, where the flush succeeded, and so did its last
  -- write, when the writer was dropped: opening the directory with the passphrase changes
  -- nothing and gives a store at the same file, with the same salt and encryption key, that
  -- finds under every name what the store had there.
  pub new-flush_encrypted :
      (lawful : CryptoIsLawful host crypto) (codecs : CodecsAreLawful host)
      (files : FilesAreLawful host) (location : Location) (entries : Map Text KeyInfo)
      (store : EncryptedKeyStore) (passphrase : Text) (w u : World)
      → host.parent (file_in location) ≡ some location
      → length store.salt ≡ salt_len
      → crypto.hash_password passphrase store.salt ≡ ok (some store.encryption_key)
      → IsUnique entries
      → flush host crypto (encrypted_store entries (file_in location) store) w ≡ (ok tt, u)
      → last_write entries store (file_in location) location w ≡ ok tt
      → (loaded : Map Text KeyInfo) × (new host crypto (encrypted location passphrase) u
          ≡ (ok (encrypted_store loaded (file_in location) store), u))
        × ((name : Text) → lookup name loaded ≡ lookup name entries)
  unfolding new IsWritten
  new-flush_encrypted lawful codecs files location entries store passphrase w u d n k unique h
        last =
      let ran = sym (flush-steps entries store (file_in location) location w d) ∙ h in
      let left =
        subst (λ v. Flushed entries store (file_in location) location w v) (ap (λ r. r.1) ran)
          (steps-Flushed entries store (file_in location) location w (ap (λ r. r.0) ran)) in
      let (bytes, v, wrote, there, here, open_ok, read) =
        Flushed-file_in files entries store (file_in location) location w u left last in
      let (plain, cipher, _, _, whole) =
        contents-IsWritten host crypto store entries v bytes wrote in
      let (b, rest, shape) = not_empty store.salt cipher bytes n whole in
      let (loaded, same_store, found) =
        from_encrypted-contents host crypto lawful codecs store entries (file_in location)
          passphrase v u bytes unique n k wrote in
      (
        loaded,
        open_written location passphrase b rest u there here open_ok (read ∙ ap ok shape)
            ∙ ap (λ l. from_encrypted host crypto (file_in location) passphrase l u) (sym shape)
            ∙ same_store,
        found,
      )
