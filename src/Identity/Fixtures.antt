-- ===== src/Identity/Fixtures.antt =====
-- Codecs, a file system with one file, and key types, all lawful, for tests.
use ipc_client.Base.{
  ℕ, zero, suc, ◌≡◌, ◌≢◌, refl, ap, sym, ◌∙◌, arith, true, Option, none, some, List, [], ◌∷◌, ok,
  err, length, nat_eq,
}
use ipc_client.Base.Map.{lookup, IsUnique, Map}
use ipc_client.Base.Text.{Text, extend_first}
use ipc_client.Sdk.Fixtures.{unary}
use ipc_client.Identity.Evm.{KeyLib}
use ipc_client.Identity.Evm.Memory.{MemoryKeyStore}
use ipc_client.Identity.Evm.Memory.Invariant.{IsConsistent}
use ipc_client.Identity.Evm.Persistent.{PersistentKeyStore}
use ipc_client.Identity.Evm as Evm
use ipc_client.Identity.Evm.Persistent as Persistent
use ipc_client.Identity.Evm.Persistent.Reload as EvmReload
use ipc_client.Identity.Fvm as Fvm
use ipc_client.Identity.Fvm.{SignatureType, secp256k1, bls}
use ipc_client.Identity.Fvm.Host as Files
use ipc_client.Identity.Fvm.Host.{Crypto}
use ipc_client.Identity.Fvm.KeyStore.Cipher.{CryptoIsLawful}
use ipc_client.Identity.Fvm.KeyStore.Persistence.{FilesAreLawful as FvmFilesAreLawful}
use ipc_client.Identity.Fvm.KeyStore.Reload.{CodecsAreLawful}

-- Texts one after another: each character is raised by one, and 0 ends a text.
encode_text : Text → Text → Text
encode_text [] rest = 0 ∷ rest
encode_text (c ∷ s) rest = suc c ∷ encode_text s rest

pub encode : List Text → Text
unfolding encode_text
encode [] = []
encode (s ∷ l) = encode_text s (encode l)

unfoldable pub decode : Text → List Text
decode [] = []
decode (zero ∷ s) = [] ∷ decode s
decode (suc c ∷ s) = extend_first c (decode s)

decode-encode_text : (s rest : Text) → decode (encode_text s rest) ≡ s ∷ decode rest
unfolding decode encode_text
decode-encode_text [] rest = refl
decode-encode_text (c ∷ s) rest = rw (decode-encode_text s rest) refl

decode-encode : (l : List Text) → decode (encode l) ≡ l
unfolding decode encode
decode-encode [] = refl
decode-encode (s ∷ l) = decode-encode_text s (encode l) ∙ ap (λ t. s ∷ t) (decode-encode l)

pub evm_texts : List Persistent.PersistentKeyInfo → List Text
evm_texts [] = []
evm_texts (i ∷ l) = i.address ∷ i.private_key ∷ evm_texts l

unfoldable pub evm_infos : List Text → List Persistent.PersistentKeyInfo
evm_infos (a ∷ p ∷ l) = record { address = a; private_key = p } ∷ evm_infos l
evm_infos _ = []

evm_infos-texts : (l : List Persistent.PersistentKeyInfo) → evm_infos (evm_texts l) ≡ l
unfolding evm_infos evm_texts
evm_infos-texts [] = refl
evm_infos-texts (i ∷ l) = ap (λ t. i ∷ t) (evm_infos-texts l)

-- The one file is there or not; every directory exists.
abbrev pub evm_host : Persistent.Host ℕ (Option Text)
evm_host = record {
  parent = λ p. some p;
  exists = λ p w. true;
  open_file = λ p w. elim w [ none ↦ Persistent.not_found | some t ↦ Persistent.file t ];
  create_dir_all = λ p w. (ok tt, w);
  create = λ p w. (ok tt, some []);
  write_buffered = λ p t w. ((ok tt, t), w);
  drop_buffer = λ p t w. (ok tt, some t);
  to_json = λ l. encode (evm_texts l);
  from_json = λ t. ok (evm_infos (decode t));
  hex_encode = λ b. b;
  hex_decode = λ t. ok t;
}

pub evm_codecs : EvmReload.CodecsAreLawful evm_host
evm_codecs = record {
  hex = λ b. refl;
  json = λ l. ap (λ t. ok (evm_infos t)) (decode-encode (evm_texts l)) ∙ ap ok (evm_infos-texts l);
}

pub evm_files : EvmReload.FilesAreLawful evm_host
evm_files = record {
  made = λ dir w h. refl;
  create_keeps = λ p dir w h. refl;
  write_keeps = λ p dir t w h. refl;
  drop_keeps = λ p dir t w h. refl;
  written = λ p t w h last. refl;
}

-- A private key of one byte belongs to the address after it. The default key is 0.
abbrev pub address_of : List ℕ → Option ℕ
address_of (b ∷ []) = some (suc b)
address_of _ = none

abbrev pub byte_keys : KeyLib ℕ
byte_keys = record { try_from = λ i. address_of i.private_key; default = 0; to_string = unary }

address_of-ne-zero : (l : List ℕ) → address_of l ≢ some 0
address_of-ne-zero [] h = cc
address_of-ne-zero (b ∷ []) h = cc
address_of-ne-zero (b ∷ c ∷ l) h = cc

unary-ne-nil : (k : ℕ) → k ≢ 0 → unary k ≢ []
unary-ne-nil zero n h = n refl
unary-ne-nil (suc k) n h = cc

pub byte_keys-IsLawful : Evm.IsLawful byte_keys
byte_keys-IsLawful = record {
  try_from-ne-default = λ i. address_of-ne-zero i.private_key;
  to_string-ne-default = unary-ne-nil;
}

-- FVM keys as three texts each.
abbrev pub type_text : SignatureType → Text
type_text secp256k1 = b's' ∷ []
type_text bls = []

abbrev pub text_type : Text → SignatureType
text_type [] = bls
text_type _ = secp256k1

text_type-type_text : (t : SignatureType) → text_type (type_text t) ≡ t
text_type-type_text secp256k1 = refl
text_type-type_text bls = refl

pub fvm_texts : Map Text Fvm.KeyInfo → List Text
fvm_texts [] = []
fvm_texts ((k, i) ∷ m) = k ∷ type_text i.key_type ∷ i.private_key ∷ fvm_texts m

pub fvm_infos : List Text → Map Text Fvm.KeyInfo
fvm_infos (k ∷ t ∷ p ∷ l) = (k, record { key_type = text_type t; private_key = p }) ∷ fvm_infos l
fvm_infos _ = []

fvm_infos-texts : (m : Map Text Fvm.KeyInfo) → fvm_infos (fvm_texts m) ≡ m
unfolding fvm_infos fvm_texts
fvm_infos-texts [] = refl
fvm_infos-texts ((k, i) ∷ m) =
    rw (text_type-type_text i.key_type) (ap (λ t. (k, i) ∷ t) (fvm_infos-texts m))

abbrev pub repeated : ℕ → List ℕ
repeated zero = []
repeated (suc n) = 7 ∷ repeated n

length-repeated : (n : ℕ) → length (repeated n) ≡ n
length-repeated zero = refl
length-repeated (suc n) = omega (arith, length-repeated n)

-- The file cannot be written while its contents are `none`.
abbrev pub fvm_host : Files.Host ℕ (Option Text)
fvm_host = record {
  join = λ p t. p;
  parent = λ p. some p;
  exists = λ p w. true;
  create_dir = λ p w. (ok tt, w);
  create_dir_all = λ p w. (ok tt, w);
  create = λ p w. (ok tt, w);
  set_user_perm = λ p w. (ok tt, w);
  write_buffered =
      λ p t w. elim w [ none ↦ ((err [], []), none) | some old ↦ ((ok tt, t), some old) ];
  drop_buffer = λ p t w. elim w [ none ↦ (err [], none) | some old ↦ (ok tt, some t) ];
  try_open = λ p w. elim w [ none ↦ Files.not_found | some t ↦ Files.opened ];
  read_to_end = λ p w. elim w [ none ↦ err [] | some t ↦ ok t ];
  json_to_vec = λ m. ok [];
  json_from_slice = λ t. none;
  cbor_to_vec = λ m. ok (encode (fvm_texts m));
  cbor_from_slice = λ t. some (fvm_infos (decode t));
  base64_encode = λ b. b;
  base64_decode = λ t. ok t;
  fill_bytes = λ n w. (repeated n, w);
}

pub fvm_codecs : CodecsAreLawful fvm_host
fvm_codecs = record {
  cbor = λ m bytes unique h.
      let written : encode (fvm_texts m) ≡ bytes = cc in
      (
        m,
        ap (λ t. some (fvm_infos (decode t))) (sym written)
            ∙ ap (λ t. some (fvm_infos t)) (decode-encode (fvm_texts m))
            ∙ ap some (fvm_infos-texts m),
        λ k. refl,
      );
  base64 = λ b. refl;
}

-- The cipher that changes nothing, and one key for every passphrase.
abbrev pub plain_crypto : Crypto
plain_crypto = record {
  hash_password = λ passphrase salt. ok (some (repeated 32));
  encrypt = λ key nonce msg. ok msg;
  decrypt = λ key nonce c. ok c;
}

pub plain_crypto-IsLawful : CryptoIsLawful fvm_host plain_crypto
plain_crypto-IsLawful = record {
  decrypt_encrypt = λ key nonce msg c h. sym h;
  length_fill = λ n w. length-repeated n;
}

abbrev pub info_of : ℕ → Evm.KeyInfo
info_of b = record { private_key = b ∷ [] }

-- Two keys, of which the first is the default.
abbrev pub two_keys : MemoryKeyStore ℕ
two_keys = record {
  entries = (4, info_of 3) ∷ (6, info_of 5) ∷ (0, info_of 3) ∷ [];
  default = some 4;
}

pub two_keys-IsConsistent : IsConsistent byte_keys two_keys
unfolding lookup
two_keys-IsConsistent = record { addresses = λ k info h n. ground arith; agrees = refl }

pub two_keys-IsUnique : IsUnique two_keys.entries
unfolding lookup
two_keys-IsUnique = (refl, (refl, (refl, tt)))

abbrev pub two_keys_file : PersistentKeyStore ℕ ℕ
two_keys_file = record { memory = two_keys; file_path = 1 }

write_read :
    (w : Option Text) (p : ℕ) (t : Text)
    → let ((outcome, rest), w') = fvm_host.write_buffered p t w in
      outcome ≡ ok tt
      → (fvm_host.drop_buffer p rest w').0 ≡ ok tt
      → (fvm_host.try_open p (fvm_host.drop_buffer p rest w').1 ≡ Files.opened)
        × (fvm_host.read_to_end p (fvm_host.drop_buffer p rest w').1 ≡ ok t)
write_read none p t h last = absurd cc
write_read (some old) p t h last = (refl, refl)

pub fvm_files : FvmFilesAreLawful fvm_host
fvm_files = record {
  made_dir = λ p w h. refl;
  created = λ p w h. refl;
  create_keeps = λ p q w h. refl;
  perm_keeps = λ p q w h. refl;
  fill_keeps = λ n q w h. refl;
  write_keeps = λ p q b w h. refl;
  drop_keeps = λ p q b w h. refl;
  written = λ p b w h last. write_read w p b h last;
}
