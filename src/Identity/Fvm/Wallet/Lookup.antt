-- ===== src/Identity/Fvm/Wallet/Lookup.antt =====
-- The cache of the wallet, and the keys that it finds.
use ipc_client.Base.{◌≡◌, refl, ◌∙◌, some, Result, ok, err, panic, Option-cases, inl, inr, Eq}
use ipc_client.Base.Map.{lookup, lookup-insert}
use ipc_client.Sdk.Fvm.{AddressLib}
use ipc_client.Identity.Fvm.{Error}
use ipc_client.Identity.Fvm.Host.{Host, Crypto}
use ipc_client.Identity.Fvm.Wallet.{
  WalletHelpers, Key, Wallet, State, find_key, stored_info, key_of_info, remember,
}

module _ {Address Signature Location World : Type 0} ⦃e : Eq Address⦄ ⦃fvm : AddressLib Address⦄
    (helpers : WalletHelpers Address Signature World) (host : Host Location World)
    (crypto : Crypto) where
  find_key-cached :
      (addr : Address) (k : Key Address) (s : State helpers host crypto)
      → lookup addr s.0.keys ≡ some k
      → find_key helpers host crypto addr s ≡ (ok k, s)
  unfolding find_key
  find_key-cached addr k (self, w) h = rw (h, find_key) refl

  remember-cached :
      (addr : Address) (k : Key Address) (r : Result Error (Key Address))
      (self : Wallet Address Location)
      → r ≡ ok k
      → lookup addr (remember helpers host crypto addr r self).keys ≡ some k
  remember-cached addr k (ok j) self h =
      lookup-insert addr addr j self.keys ∙ (rw ((e.beq_iff addr addr).1 refl) cc)
  remember-cached addr k (err m) self h = absurd cc
  remember-cached addr k panic self h = absurd cc

  find_key-found :
      (addr : Address) (k : Key Address) (s : State helpers host crypto)
      → (find_key helpers host crypto addr s).0 ≡ ok k
      → lookup addr (find_key helpers host crypto addr s).1.0.keys ≡ some k
  unfolding find_key
  find_key-found addr k (self, w) h = elim (Option-cases (lookup addr self.keys)) [
    | inr (j, q) ↦ let h' = rw (q, find_key) at h in rw (q, find_key) (q ∙ cc)
    | inl q ↦
        let h' = rw (q, find_key) at h in
        rw (q, find_key)
          (remember-cached addr k
            (key_of_info helpers host crypto (stored_info helpers host crypto addr self.keystore))
            self h')
  ]

  -- A key that was found is found again at once, with nothing changed.
  pub find_key-again :
      (addr : Address) (k : Key Address) (s : State helpers host crypto)
      → (find_key helpers host crypto addr s).0 ≡ ok k
      → find_key helpers host crypto addr (find_key helpers host crypto addr s).1
        ≡ (ok k, (find_key helpers host crypto addr s).1)
  find_key-again addr k s h =
      find_key-cached addr k (find_key helpers host crypto addr s).1 (find_key-found addr k s h)

  remember-keystore :
      (addr : Address) (r : Result Error (Key Address)) (self : Wallet Address Location)
      → (remember helpers host crypto addr r self).keystore ≡ self.keystore
  remember-keystore addr (ok j) self = refl
  remember-keystore addr (err m) self = refl
  remember-keystore addr panic self = refl

  -- Finding a key does not touch the store or the world.
  pub find_key-keeps :
      (addr : Address) (s : State helpers host crypto)
      → ((find_key helpers host crypto addr s).1.0.keystore ≡ s.0.keystore)
        × ((find_key helpers host crypto addr s).1.1 ≡ s.1)
  unfolding find_key
  find_key-keeps addr (self, w) = elim (Option-cases (lookup addr self.keys)) [
    | inr (j, q) ↦ rw (q, find_key) (refl, refl)
    | inl q ↦
        rw (q, find_key)
          (
            remember-keystore addr
                (key_of_info helpers host crypto
                  (stored_info helpers host crypto addr self.keystore))
                self,
            refl,
          )
  ]
