-- ===== src/Identity/Evm/Persistent/Reach.antt =====
-- The stores in memory that the operations make, from an empty one or from one that was loaded.
use mathlib.Core.Path.{subst}
use ipc_client.Base.{
  sym, ap, refl, ◌≡◌, ◌≢◌, arith, Bool, true, false, ◌||◌, Option, some, none, Option-cases,
  Bool-cases, List, [], ◌∷◌, ◌⊎◌, inl, inr, Result, ok, err, panic, Eq, ◌==◌, list_eq, nat_eq,
  option_eq,
}
use ipc_client.Base.Map.{
  Map, lookup, insert, remove as remove_entry, lookup-insert, lookup-remove, lookup-empty,
}
use ipc_client.Base.Text.{Text}
use ipc_client.Identity.Evm.{KeyInfo, KeyLib, IsLawful}
use ipc_client.Identity.Evm.Memory.{MemoryKeyStore, empty, put, remove, set_default, get_default}
use ipc_client.Identity.Evm.Memory.Invariant.{
  Agrees, IsConsistent, empty-IsConsistent, put-IsConsistent, remove-IsConsistent, remove-total,
  set_default-IsConsistent, get_default-eq,
}
use ipc_client.Identity.Evm.Persistent.{
  PersistentKeyInfo, Host, PersistentKeyStore, infer_address, load_entries, load_default,
  from_contents,
}

Result-cases :
    {A : Type 0} (r : Result Text A)
    → ((a : A) × (r ≡ ok a)) ⊎ ((m : Text) × (r ≡ err m)) ⊎ (r ≡ panic)
Result-cases (ok a) = inl (a, refl)
Result-cases (err m) = inr (inl (m, refl))
Result-cases panic = inr (inr refl)

module _ {T Location World : Type 0} ⦃e : Eq T⦄ (key : KeyLib T) (host : Host Location World) where
  -- The stores that can be reached: the empty one, one that is loaded from a file, and what an
  -- operation makes of such a store. It is true if the mark of the default entry, which is no key's
  -- address, was on the way removed or made the default like an address.
  pub data Reached : Bool → MemoryKeyStore T → Type 0 where
    at_start : Reached false empty
    after_load :
        (path : Location) (contents : Text) (loaded : PersistentKeyStore T Location)
        → from_contents key host path contents ≡ ok loaded
        → Reached false loaded.memory
    after_put :
        {b : Bool} {s : MemoryKeyStore T}
        → Reached b s
        → (info : KeyInfo) → Reached b (put key info s).1
    after_remove :
        {b : Bool} {s : MemoryKeyStore T}
        → Reached b s
        → (a : T) → Reached (b || (a == key.default)) (remove key a s).1
    after_set_default :
        {b : Bool} {s : MemoryKeyStore T}
        → Reached b s
        → (a : T) → Reached (b || (a == key.default)) (set_default key a s).1
    after_get_default :
        {b : Bool} {s : MemoryKeyStore T} → Reached b s → Reached b (get_default key s).1

  -- Each entry but the default one stands under the address of its key.
  abbrev pub IsAddressed : Map T KeyInfo → Type 0
  IsAddressed m =
      (k : T) (info : KeyInfo)
      → lookup k m ≡ some info
      → k ≢ key.default
      → key.try_from info ≡ some k

  insert-IsAddressed :
      (a : T) (i : KeyInfo) (m : Map T KeyInfo)
      → (a ≢ key.default → key.try_from i ≡ some a)
      → IsAddressed m
      → IsAddressed (insert a i m)
  insert-IsAddressed a i m own h k info p n =
      ground (arith, lookup-insert a k i m, e.beq_iff a k, own, h k info)

  remove_entry-IsAddressed :
      (a : T) (m : Map T KeyInfo) → IsAddressed m → IsAddressed (remove_entry a m)
  remove_entry-IsAddressed a m h k info p n =
      ground (arith, lookup-remove a k m, e.beq_iff a k, h k info)

  put-IsAddressed :
      (info : KeyInfo) (s : MemoryKeyStore T)
      → IsAddressed s.entries
      → IsAddressed (put key info s).1.entries
  unfolding put
  put-IsAddressed info s h = elim (Option-cases (key.try_from info)) [
    | inl refused ↦ rw (refused, put) h
    | inr (a, t) ↦ rw (t, put) (insert-IsAddressed a info s.entries (λ n. t) h)
  ]

  remove-IsAddressed :
      (a : T) (s : MemoryKeyStore T)
      → IsAddressed s.entries
      → IsAddressed (remove key a s).1.entries
  unfolding remove
  remove-IsAddressed a s h = elim (Bool-cases (s.default == some a)) [
    | inl was ↦
        rw was (remove_entry-IsAddressed a _ (remove_entry-IsAddressed key.default s.entries h))
    | inr is_not ↦ rw is_not (remove_entry-IsAddressed a s.entries h)
  ]

  set_default-IsAddressed :
      (a : T) (s : MemoryKeyStore T)
      → IsAddressed s.entries
      → IsAddressed (set_default key a s).1.entries
  unfolding set_default
  set_default-IsAddressed a s h = elim (Option-cases (lookup a s.entries)) [
    | inl absent ↦ rw (absent, set_default) h
    | inr (i, p) ↦
        rw (p, set_default) (insert-IsAddressed key.default i s.entries (λ n. absurd (n refl)) h)
  ]

  get_default-entries : (s : MemoryKeyStore T) → (get_default key s).1.entries ≡ s.entries
  unfolding get_default
  get_default-entries s = ground arith

  -- An entry that is loaded stands under the default mark or under the address of its key.
  infer_address-own :
      (info : PersistentKeyInfo) (i : KeyInfo) (a : T)
      → infer_address key host info i ≡ ok a
      → a ≢ key.default
      → key.try_from i ≡ some a
  infer_address-own info i a h n = ground arith

  load_step :
      (info : PersistentKeyInfo) (rest : List PersistentKeyInfo) (acc m : Map T KeyInfo)
      → load_entries key host acc (info ∷ rest) ≡ ok m
      → (i : KeyInfo) × (a : T) × (infer_address key host info i ≡ ok a)
        × (load_entries key host (insert a i acc) rest ≡ ok m)
  unfolding load_entries
  load_step info rest acc m h = elim (Result-cases (host.hex_decode info.private_key)) [
    | inl (p, q) ↦ elim (Result-cases (infer_address key host info (record { private_key = p }))) [
      | inl (a, t) ↦ (record { private_key = p }, a, t, ground arith)
      | inr (inl (m', t)) ↦ absurd (ground arith)
      | inr (inr t) ↦ absurd (ground arith)
    ]
    | inr (inl (m', q)) ↦ absurd (ground arith)
    | inr (inr q) ↦ absurd (ground arith)
  ]

  load_entries-IsAddressed :
      (l : List PersistentKeyInfo) (acc m : Map T KeyInfo)
      → load_entries key host acc l ≡ ok m
      → IsAddressed acc
      → IsAddressed m
  unfolding load_entries
  load_entries-IsAddressed [] acc m h own = subst IsAddressed (ground arith) own
  load_entries-IsAddressed (info ∷ rest) acc m h own =
      let (i, a, t, loaded) = load_step info rest acc m h in
      load_entries-IsAddressed rest (insert a i acc) m loaded
        (insert-IsAddressed a i acc (infer_address-own info i a t) own)

  load_default-Agrees :
      (o : Option KeyInfo) (d : Option T) → load_default key host o ≡ ok d → Agrees key o d
  load_default-Agrees none none h = tt
  load_default-Agrees none (some d) h = absurd cc
  load_default-Agrees (some i) none h = absurd (ground arith)
  load_default-Agrees (some i) (some d) h = ground arith

  -- The entries of a file that is read, and the default that goes with them.
  from_contents_step :
      (path : Location) (contents : Text) (loaded : PersistentKeyStore T Location)
      → from_contents key host path contents ≡ ok loaded
      → (l : List PersistentKeyInfo) × (m : Map T KeyInfo) × (d : Option T) × (load_entries key host
            [] l
          ≡ ok m)
        × (load_default key host (lookup key.default m) ≡ ok d)
        × (loaded.memory ≡ record { entries = m; default = d })
  unfolding from_contents
  from_contents_step path contents loaded h = elim (Result-cases (host.from_json contents)) [
    | inl (l, p) ↦ elim (Result-cases (load_entries key host [] l)) [
      | inl (m, q) ↦ elim (Result-cases (load_default key host (lookup key.default m))) [
        | inl (d, r) ↦ (l, m, d, q, r, ground arith)
        | inr (inl (x, r)) ↦ absurd (ground arith)
        | inr (inr r) ↦ absurd (ground arith)
      ]
      | inr (inl (x, q)) ↦ absurd (ground arith)
      | inr (inr q) ↦ absurd (ground arith)
    ]
    | inr (inl (x, p)) ↦ absurd (ground arith)
    | inr (inr p) ↦ absurd (ground arith)
  ]

  none-IsAddressed : IsAddressed []
  none-IsAddressed k info p n = absurd (ground (arith, lookup-empty {V = KeyInfo} k))

  from_contents-IsConsistent :
      (path : Location) (contents : Text) (loaded : PersistentKeyStore T Location)
      → from_contents key host path contents ≡ ok loaded
      → IsConsistent key loaded.memory
  from_contents-IsConsistent path contents loaded h =
      let (l, m, d, q, r, same) = from_contents_step path contents loaded h in
      subst (IsConsistent key) (sym same) (record {
        addresses = load_entries-IsAddressed l [] m q none-IsAddressed;
        agrees = load_default-Agrees (lookup key.default m) d r;
      })

  unless_marked :
      {C D : Type 0} (b : Bool) (a : T)
      → (b ≡ true) ⊎ C
      → (a ≢ key.default → C → D)
      → ((b || (a == key.default)) ≡ true) ⊎ D
  unless_marked b a (inl marked) keep = inl (ground arith)
  unless_marked b a (inr c) keep = elim (Bool-cases (a == key.default)) [
    | inl same ↦ inl (ground arith)
    | inr other ↦ inr (keep (λ q. absurd (ground (arith, e.beq_iff a key.default))) c)
  ]

  invariant :
      IsLawful key
      → (b : Bool) (s : MemoryKeyStore T) → Reached b s
      → IsAddressed s.entries × ((b ≡ true) ⊎ IsConsistent key s)
  invariant lawful _ _ at_start = (none-IsAddressed, inr (empty-IsConsistent key))
  invariant lawful _ _ (after_load path contents loaded h) =
      let c = from_contents-IsConsistent path contents loaded h in (c.addresses, inr c)
  invariant lawful _ _ (after_put {b} {s} r info) =
      let (own, rest) = invariant lawful b s r in
      (
        put-IsAddressed info s own,
        elim rest [ inl m ↦ inl m | inr c ↦ inr (put-IsConsistent key lawful info s c) ],
      )
  invariant lawful _ _ (after_remove {b} {s} r a) =
      let (own, rest) = invariant lawful b s r in
      (remove-IsAddressed a s own, unless_marked b a rest (λ n c. remove-IsConsistent key a s c n))
  invariant lawful _ _ (after_set_default {b} {s} r a) =
      let (own, rest) = invariant lawful b s r in
      (
        set_default-IsAddressed a s own,
        unless_marked b a rest (λ n c. set_default-IsConsistent key a s c n),
      )
  invariant lawful _ _ (after_get_default {b} {s} r) =
      let (own, rest) = invariant lawful b s r in
      (
        subst IsAddressed (sym (get_default-entries s)) own,
        elim rest [
          | inl m ↦ inl m
          | inr c ↦ inr (subst (IsConsistent key) (sym (ap (λ x. x.1) (get_default-eq key s c))) c)
        ],
      )

  -- With lawful keys, in every store that any operations make of the empty store or of one
  -- loaded from a file, each entry but the default one stands under the address of its key, and
  -- no removal fails, for whatever key. Unless the mark of the default entry was removed or
  -- made the default on the way, the default address is moreover that of the default entry, the
  -- default is read as it is and the store stays as it was.
  pub Reached-IsConsistent :
      IsLawful key
      → (b : Bool) (s : MemoryKeyStore T) → Reached b s
      → IsAddressed s.entries
        × ((a : T) → (remove key a s).0 ≡ ok tt)
        × ((b ≡ true) ⊎ (IsConsistent key s × (get_default key s ≡ (ok s.default, s))))
  Reached-IsConsistent lawful b s r =
      let (own, rest) = invariant lawful b s r in
      (
        own,
        λ a. remove-total key a s,
        elim rest [ inl marked ↦ inl marked | inr c ↦ inr (c, get_default-eq key s c) ],
      )
