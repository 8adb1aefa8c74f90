-- ===== src/Identity/Evm/Memory/Invariant.antt =====
-- The invariant of the store in memory, and what its operations do to it.
use ipc_client.Base.{
  ◌≡◌, ◌≢◌, refl, ap, true, false, Option, none, some, ok, err, Eq, ◌==◌, ◌&&◌, ◌||◌, option_eq,
  arith, if◌then◌else◌, inl, inr, Bool-cases, Option-cases, ◌∙◌,
}
use ipc_client.Base.Map.{
  lookup, insert, remove as remove_entry, lookup-insert, lookup-remove, lookup-empty,
}
use ipc_client.Base.Text.{codes}
use ipc_client.Identity.Evm.{KeyInfo, KeyLib, IsLawful}
use ipc_client.Identity.Evm.Memory.{
  MemoryKeyStore, empty, get, put, remove, set_default, stored_default, get_default,
}

module _ {T : Type 0} ⦃e : Eq T⦄ (key : KeyLib T) where
  -- The default address is that of the default entry: both are absent, or the key of the entry has
  -- the address.
  abbrev pub Agrees : Option KeyInfo → Option T → Type 0
  Agrees none none = Unit
  Agrees (some info) (some d) = key.try_from info ≡ some d
  Agrees _ _ = ⊥

  pub record IsConsistent (s : MemoryKeyStore T) : Type 0 where
    -- Every other entry stands under the address of its key.
    pub addresses :
        (k : T) (info : KeyInfo)
        → lookup k s.entries ≡ some info
        → k ≢ key.default
        → key.try_from info ≡ some k
    pub agrees : Agrees (lookup key.default s.entries) s.default

  pub empty-IsConsistent : IsConsistent empty
  empty-IsConsistent = record {
    addresses = λ k info h n. absurd (ground (arith, lookup-empty {V = KeyInfo} k));
    agrees = rw (lookup-empty {V = KeyInfo} key.default) tt;
  }

  -- An entry of an address other than the default key changes no default.
  insert-IsConsistent :
      (a : T) (info : KeyInfo) (s : MemoryKeyStore T)
      → IsConsistent s
      → key.try_from info ≡ some a
      → a ≢ key.default
      → IsConsistent (record s { entries = insert a info s.entries })
  insert-IsConsistent a info s c h n =
      let other : (a == key.default) ≡ false = ground (arith, e.beq_iff a key.default) in
      record {
        addresses = λ k i p q.
            ground (arith, lookup-insert a k info s.entries, e.beq_iff a k, c.addresses k i);
        agrees = rw (lookup-insert, other) c.agrees;
      }

  -- With lawful keys, storing a key keeps a store consistent, also when the key is refused.
  pub put-IsConsistent :
      IsLawful key
      → (info : KeyInfo) (s : MemoryKeyStore T) → IsConsistent s
      → IsConsistent (put key info s).1
  unfolding put
  put-IsConsistent lawful info s c = elim (Option-cases (key.try_from info)) [
    | inl refused ↦ rw (refused, put) c
    | inr (a, h) ↦
        rw (h, put)
          (insert-IsConsistent a info s c h (λ q. lawful.try_from-ne-default info (h ∙ ap some q)))
  ]

  remove-other :
      (a : T) (s : MemoryKeyStore T)
      → IsConsistent s
      → a ≢ key.default
      → IsConsistent (record s { entries = remove_entry a s.entries })
  remove-other a s c n =
      let other : (a == key.default) ≡ false = ground (arith, e.beq_iff a key.default) in
      record {
        addresses =
            λ k i p q. ground (arith, lookup-remove a k s.entries, e.beq_iff a k, c.addresses k i);
        agrees = rw (lookup-remove, other) c.agrees;
      }

  remove-default :
      (s : MemoryKeyStore T)
      → IsConsistent s
      → IsConsistent (record { entries = remove_entry key.default s.entries; default = none })
  remove-default s c =
      let same : (key.default == key.default) ≡ true = (e.beq_iff key.default key.default).1 refl in
      record {
        addresses =
            λ k i p q. ground (arith, lookup-remove key.default k s.entries, c.addresses k i);
        agrees = rw (lookup-remove, same) tt;
      }

  -- `remove` never fails, so its two calls are enough.
  pub remove-total : (a : T) (s : MemoryKeyStore T) → (remove key a s).0 ≡ ok tt
  unfolding remove
  remove-total a s = ground arith

  -- After a removal the key is gone and, if it was the default, so is the default, as an address and
  -- as an entry. All other keys keep their entries.
  pub remove_lem :
      (a k : T) (s : MemoryKeyStore T)
      → (get k (remove key a s).1
          ≡ (if a == k || (s.default == some a && key.default == k) then none else get k s))
        × ((remove key a s).1.default ≡ (if s.default == some a then none else s.default))
  unfolding remove get
  remove_lem a k s = ground (
    arith,
    lookup-remove a k s.entries,
    lookup-remove a k (remove_entry key.default s.entries),
    lookup-remove key.default k s.entries,
  )

  -- Removing an address other than the default key keeps a store consistent.
  pub remove-IsConsistent :
      (a : T) (s : MemoryKeyStore T)
      → IsConsistent s
      → a ≢ key.default
      → IsConsistent (remove key a s).1
  unfolding remove
  remove-IsConsistent a s c n = elim (Bool-cases (s.default == some a)) [
    | inl was ↦ rw was (remove-other a _ (remove-default s c) n)
    | inr is_not ↦ rw is_not (remove-other a s c n)
  ]

  default_entry :
      (a : T) (i : KeyInfo) (s : MemoryKeyStore T)
      → IsConsistent s
      → key.try_from i ≡ some a
      → IsConsistent (record { entries = insert key.default i s.entries; default = some a })
  default_entry a i s c h =
      let same : (key.default == key.default) ≡ true = (e.beq_iff key.default key.default).1 refl in
      record {
        addresses = λ k j p q. ground (
          arith,
          lookup-insert key.default k i s.entries,
          e.beq_iff key.default k,
          c.addresses k j,
        );
        agrees = rw (lookup-insert, same) h;
      }

  -- Choosing an address other than the default key as the default keeps a store consistent, also
  -- when it has no key of that address.
  pub set_default-IsConsistent :
      (a : T) (s : MemoryKeyStore T)
      → IsConsistent s
      → a ≢ key.default
      → IsConsistent (set_default key a s).1
  unfolding set_default
  set_default-IsConsistent a s c n = elim (Option-cases (lookup a s.entries)) [
    | inl absent ↦ rw (absent, set_default) c
    | inr (i, h) ↦ rw (h, set_default) (default_entry a i s c (c.addresses a i h n))
  ]

  Agrees-none :
      (o : Option KeyInfo) (s : MemoryKeyStore T)
      → Agrees o none
      → s.default ≡ none
      → stored_default key o s ≡ (ok none, s)
  Agrees-none none s h k = ground arith
  Agrees-none (some i) s h k = absurd h

  -- In a consistent store the default is read without a change.
  pub get_default-eq :
      (s : MemoryKeyStore T) → IsConsistent s → get_default key s ≡ (ok s.default, s)
  unfolding get_default
  get_default-eq s c = elim (Option-cases s.default) [
    | inl absent ↦
        ground (arith, Agrees-none (lookup key.default s.entries) s (rw absent at c.agrees) absent)
    | inr (d, h) ↦ ground arith
  ]

  -- A key of the store can be made the default. The default is then that key, under the default
  -- entry stands its key info, and the other entries are as before.
  set_default_lem :
      (a k : T) (i : KeyInfo) (s : MemoryKeyStore T)
      → get a s ≡ some i
      → ((set_default key a s).0 ≡ ok tt)
        × ((get_default key (set_default key a s).1).0 ≡ ok (some a))
        × (get k (set_default key a s).1 ≡ (if key.default == k then some i else get k s))
  unfolding set_default get_default
  set_default_lem a k i s h = ground (arith, lookup-insert key.default k i s.entries)

  -- A key that is not in the store is refused as the default, and nothing changes.
  pub set_default-absent :
      (a : T) (s : MemoryKeyStore T)
      → get a s ≡ none
      → ((set_default key a s).0 ≡ err (codes "can't set default key: not found in keystore"))
        × ((set_default key a s).1 ≡ s)
  unfolding set_default
  set_default-absent a s h = ground arith
