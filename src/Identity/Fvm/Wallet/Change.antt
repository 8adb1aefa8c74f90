-- ===== src/Identity/Fvm/Wallet/Change.antt =====
-- Keys that are imported, exported and removed.
use ipc_client.Base.{
  ℕ, ◌≡◌, ◌≢◌, refl, sym, ap, ◌∙◌, arith, List, ◌++◌, false, none, Result, ok, err, panic,
  Option-cases, inl, inr, Eq, ◌==◌, list_eq, nat_eq, list_beq_iff, if◌then◌else◌, length,
  length-append,
}
use ipc_client.Base.Exec.{◌>>=◌, continue, pure}
use ipc_client.Base.Map.{lookup}
use ipc_client.Base.Text.{Text, codes}
use ipc_client.Sdk.Fvm.{AddressLib}
use ipc_client.Identity.Fvm.{KeyInfo, Error, key_info}
use ipc_client.Identity.Fvm.Host.{Host, Crypto}
use ipc_client.Identity.Fvm.KeyStore
use ipc_client.Identity.Fvm.KeyStore.{KeyStore}
use ipc_client.Identity.Fvm.KeyStore.Entries.{get-put}
use ipc_client.Identity.Fvm.Wallet.{
  WalletHelpers, Key, State, on_keystore, try_from, find_key, stored_info, key_of_info, import_key,
  remove, wallet_name, wallet_prefix,
}

module _ {Address Signature Location World : Type 0} ⦃e : Eq Address⦄ ⦃fvm : AddressLib Address⦄
    (helpers : WalletHelpers Address Signature World) (host : Host Location World)
    (crypto : Crypto) where
  import_key-state :
      (info : KeyInfo) (k : Key Address) (s : State helpers host crypto)
      → try_from helpers host crypto info ≡ ok k
      → (import_key helpers host crypto info s).1
        ≡ (on_keystore helpers host crypto
            (KeyStore.put host crypto (wallet_name helpers host crypto k.address) k.key_info)
            s).1
  unfolding import_key ◌>>=◌
  import_key-state info k s h =
      rw (h, import_key)
        (after
          (on_keystore helpers host crypto
            (KeyStore.put host crypto (wallet_name helpers host crypto k.address) k.key_info) s).0
          (on_keystore helpers host crypto
            (KeyStore.put host crypto (wallet_name helpers host crypto k.address) k.key_info) s).1)
    where
      after :
          (r : Result Error (Unit {0})) (t : State helpers host crypto)
          → (continue r (λ _. pure k.address) t).1 ≡ t
      after (ok u) t = refl
      after (err m) t = refl
      after panic t = refl

  -- Whatever the import returned, the store finds a key that was free under the name of its address,
  -- and every other name as before.
  get-import_key :
      (info : KeyInfo) (k : Key Address) (s : State helpers host crypto) (j : Text)
      → try_from helpers host crypto info ≡ ok k
      → lookup (wallet_name helpers host crypto k.address) s.0.keystore.entries ≡ none
      → KeyStore.get j (import_key helpers host crypto info s).1.0.keystore ≡ (
          if wallet_name helpers host crypto k.address == j
          then ok k.key_info
          else KeyStore.get j s.0.keystore)
  unfolding on_keystore
  get-import_key info k s j h free = rw (import_key-state info k s h) (
      get-put host crypto (wallet_name helpers host crypto k.address) j k.key_info
        (s.0.keystore, s.1)
      ∙ rw free refl)

  import_key-keys :
      (info : KeyInfo) (k : Key Address) (s : State helpers host crypto)
      → try_from helpers host crypto info ≡ ok k
      → (import_key helpers host crypto info s).1.0.keys ≡ s.0.keys
  unfolding on_keystore
  import_key-keys info k s h = rw (import_key-state info k s h) refl

  try_from-key_info :
      (info : KeyInfo) (k : Key Address)
      → try_from helpers host crypto info ≡ ok k
      → k.key_info ≡ info
  unfolding try_from
  try_from-key_info info k h = public (helpers.to_public info.key_type info.private_key) h
    where
      info_of : Result Error (Key Address) → KeyInfo
      info_of (ok j) = j.key_info
      info_of (err m) = info
      info_of panic = info

      addressed :
          (p : List ℕ) (r : Result Error Address)
          → (elim r [
            | ok address ↦ ok (record { key_info = info; public_key = p; address = address })
            | err m ↦ err m
            | panic ↦ panic
          ])
            ≡ ok k
          → k.key_info ≡ info
      addressed p (ok a) h = sym (ap info_of h)
      addressed p (err m) h = absurd cc
      addressed p panic h = absurd cc

      public :
          (r : Result Error (List ℕ))
          → (elim r [
            | ok p ↦ elim (helpers.new_address info.key_type p) [
              | ok address ↦ ok (record { key_info = info; public_key = p; address = address })
              | err m ↦ err m
              | panic ↦ panic
            ]
            | err m ↦ err m
            | panic ↦ panic
          ])
            ≡ ok k
          → k.key_info ≡ info
      public (ok p) h = addressed p (helpers.new_address info.key_type p) h
      public (err m) h = absurd cc
      public panic h = absurd cc

  stored_info-get :
      (a : Address) (i : KeyInfo) (keystore : KeyStore Location)
      → KeyStore.get (wallet_name helpers host crypto a) keystore ≡ ok i
      → stored_info helpers host crypto a keystore ≡ ok i
  unfolding stored_info
  stored_info-get a i keystore h = rw (h, stored_info) refl

  get-none :
      (j : Text) (keystore : KeyStore Location)
      → KeyStore.get j keystore ≡ err key_info
      → lookup j keystore.entries ≡ none
  unfolding KeyStore.get
  get-none j keystore h = elim (Option-cases (lookup j keystore.entries)) [
    | inl q ↦ q
    | inr (i, q) ↦ absurd (let h' = rw (q, KeyStore.get) at h in cc)
  ]

  get_of_none :
      (j : Text) (keystore : KeyStore Location)
      → lookup j keystore.entries ≡ none
      → KeyStore.get j keystore ≡ err key_info
  unfolding KeyStore.get
  get_of_none j keystore h = rw (h, KeyStore.get) refl

  remove_nothing :
      (name : Text) (t : KeyStore Location × World)
      → lookup name t.0.entries ≡ none
      → KeyStore.remove host crypto name t ≡ (err (codes "Key info not found"), t)
  unfolding KeyStore.remove
  remove_nothing name (keystore, w) h = rw (h, KeyStore.remove) refl

  remove-absent :
      (a : Address) (t : State helpers host crypto)
      → lookup (fvm.to_string a) t.0.keystore.entries ≡ none
      → remove helpers host crypto a t ≡ (err (codes "Key info not found"), t)
  unfolding remove on_keystore ◌>>=◌
  remove-absent a (self, w) h =
      rw (remove_nothing (fvm.to_string a) (self.keystore, w) h, on_keystore) refl

  -- A key that is imported into a wallet that has neither its name nor its address is found under
  -- its address, also when the store could not be written.
  pub find_key-import_key :
      (info : KeyInfo) (k : Key Address) (s : State helpers host crypto)
      → try_from helpers host crypto info ≡ ok k
      → lookup (wallet_name helpers host crypto k.address) s.0.keystore.entries ≡ none
      → lookup k.address s.0.keys ≡ none
      → (find_key helpers host crypto k.address (import_key helpers host crypto info s).1).0 ≡ ok k
  unfolding find_key stored_info key_of_info try_from
  find_key-import_key info k s h free fresh =
      let name = wallet_name helpers host crypto k.address in
      let got : KeyStore.get name (import_key helpers host crypto info s).1.0.keystore
          ≡ ok k.key_info =
        get-import_key info k s name h free ∙ rw ((list_beq_iff name name).1 refl) refl in
      let again : try_from helpers host crypto k.key_info ≡ ok k =
        ap (try_from helpers host crypto) (try_from-key_info info k h) ∙ h in
      let missed : lookup k.address (import_key helpers host crypto info s).1.0.keys ≡ none =
        ap (lookup k.address) (import_key-keys info k s h) ∙ fresh in
      rw (missed, find_key)
        (rw
          (stored_info-get k.address k.key_info (import_key helpers host crypto info s).1.0.keystore
            got)
          again)

  named-ne : (t : Text) → wallet_prefix ++ t ≢ t
  named-ne t h = omega (arith, length-append wallet_prefix t, ap length h)

  -- After a key is imported under a free name, its removal is refused and changes nothing, unless
  -- the store has an entry named by the bare text of its address: import adds a prefix to the
  -- name, removal does not.
  pub remove-import_key :
      (info : KeyInfo) (k : Key Address) (s : State helpers host crypto)
      → try_from helpers host crypto info ≡ ok k
      → lookup (wallet_name helpers host crypto k.address) s.0.keystore.entries ≡ none
      → lookup (fvm.to_string k.address) s.0.keystore.entries ≡ none
      → remove helpers host crypto k.address (import_key helpers host crypto info s).1
        ≡ (err (codes "Key info not found"), (import_key helpers host crypto info s).1)
  remove-import_key info k s h free bare =
      let text = fvm.to_string k.address in
      let other : (wallet_name helpers host crypto k.address == text) ≡ false =
        ground
          (arith, list_beq_iff (wallet_name helpers host crypto k.address) text, named-ne text) in
      let got : KeyStore.get text (import_key helpers host crypto info s).1.0.keystore
          ≡ err key_info =
        get-import_key info k s text h free ∙ (rw other (get_of_none text s.0.keystore bare)) in
      remove-absent k.address (import_key helpers host crypto info s).1
        (get-none text (import_key helpers host crypto info s).1.0.keystore got)
