-- ===== src/Identity/Fvm/KeyStore/Entries.antt =====
-- What a store holds after a change, whether or not the change could be written.
use ipc_client.Base.{
  is_some, list_beq_iff, ◌≡◌, refl, ap, ◌∙◌, arith, none, some, Result, ok, err, panic,
  Option-cases, inl, inr, ◌==◌, list_eq, nat_eq, if◌then◌else◌,
}
use ipc_client.Base.Exec.{◌>>=◌, continue, pure}
use ipc_client.Base.Map.{
  Map, lookup, insert, lookup-insert, lookup-remove, remove-insert, remove as remove_entry,
}
use ipc_client.Base.Text.{Text}
use ipc_client.Identity.Fvm.{KeyInfo, key_info}
use ipc_client.Identity.Fvm.Host.{Host, Crypto}
use ipc_client.Identity.Fvm.KeyStore.{KeyStore, State, get, put, remove, save, flushed}

module _ {Location World : Type 0} (host : Host Location World) (crypto : Crypto) where
  -- Writing a store does not change it.
  pub save-store : (s : State host crypto) → (save host crypto s).1.0 ≡ s.0
  unfolding save flushed
  save-store (self, w) = elim (Option-cases self.persistence) [
    | inl q ↦ rw (q, save) refl
    | inr (p, q) ↦ rw (q, save) refl
  ]

  -- After `put`, whatever it returned: the key is found with the new information if it was free and
  -- with the old one if it was taken, also when the file could not be written; and every other key is
  -- found as before.
  pub get-put :
      (key j : Text) (info : KeyInfo) (s : State host crypto)
      → get j (put host crypto key info s).1.0 ≡ (
          if is_some (lookup key s.0.entries)
          then get j s.0
          else (if key == j then ok info else get j s.0))
  unfolding get put
  get-put key j info (self, w) = elim (Option-cases (lookup key self.entries)) [
    | inr (i, q) ↦ rw (q, put) refl
    | inl q ↦
        rw (q, put)
          (rw (save-store ((record self { entries = insert key info self.entries }), w))
            (rw (lookup-insert key j info self.entries) (ground arith)))
  ]

  saved-store :
      {A : Type 0} (a : A) (s : State host crypto)
      → ((save host crypto >>= λ _. pure a) s).1.0 ≡ s.0
  unfolding ◌>>=◌
  saved-store a s = after (save host crypto s).0 (save host crypto s).1 (save-store s)
    where
      after :
          (r : Result Text (Unit {0})) (t : State host crypto)
          → t.0 ≡ s.0
          → (continue r (λ _. pure a) t).1.0 ≡ s.0
      after (ok u) t h = h
      after (err m) t h = h
      after panic t h = h

  remove-store :
      (key : Text) (i : KeyInfo) (s : State host crypto)
      → lookup key s.0.entries ≡ some i
      → (remove host crypto key s).1.0 ≡ (record s.0 { entries = remove_entry key s.0.entries })
  unfolding remove
  remove-store key i (self, w) q =
      rw (q, remove) (saved-store i ((record self { entries = remove_entry key self.entries }), w))

  put-store :
      (key : Text) (info : KeyInfo) (s : State host crypto)
      → lookup key s.0.entries ≡ none
      → (put host crypto key info s).1.0 ≡ (record s.0 { entries = insert key info s.0.entries })
  unfolding put
  put-store key info (self, w) q =
      rw (q, put) (save-store ((record self { entries = insert key info self.entries }), w))

  -- After `remove`, whatever it returned, the key is not found, and every other key is found as
  -- before.
  pub get-remove :
      (key j : Text) (s : State host crypto)
      → get j (remove host crypto key s).1.0 ≡ (if key == j then err key_info else get j s.0)
  unfolding get remove
  get-remove key j (self, w) = elim (Option-cases (lookup key self.entries)) [
    | inr (i, q) ↦
        rw (remove-store key i (self, w) q) (rw (lookup-remove key j self.entries) (ground arith))
    | inl q ↦ rw (q, remove) (ground (arith, list_beq_iff key j))
  ]

  -- A name that was free and is put and removed again leaves the store as it was, whether or not
  -- it could be written.
  pub remove-put :
      (key : Text) (info : KeyInfo) (s : State host crypto)
      → lookup key s.0.entries ≡ none
      → (remove host crypto key (put host crypto key info s).1).1.0 ≡ s.0
  unfolding put remove
  remove-put key info (self, w) h =
      let stored = put-store key info (self, w) h in
      let found : lookup key (put host crypto key info (self, w)).1.0.entries ≡ some info =
        ap (λ t. lookup key t.entries) stored
        ∙ lookup-insert key key info self.entries
        ∙ (rw ((list_beq_iff key key).1 refl) refl) in
      let removed : KeyStore Location → KeyStore Location =
        λ t. record t { entries = remove_entry key t.entries } in
      let holding : Map Text KeyInfo → KeyStore Location = λ m. record self { entries = m } in
      remove-store key info (put host crypto key info (self, w)).1 found
      ∙ ap removed stored
      ∙ ap holding (remove-insert key info self.entries h)
