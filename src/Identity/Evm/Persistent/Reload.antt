-- ===== src/Identity/Evm/Persistent/Reload.antt =====
-- What is flushed is what the next start loads.
use ipc_client.Base.{
  ◌≡◌, ◌≢◌, refl, ap, ◌∙◌, true, Option, none, some, List, [], ◌∷◌, Result, ok, Eq, list_eq, nat_eq,
  arith, All, inl, inr, Bool-cases, ℕ, list_beq_iff,
}
use ipc_client.Base.Exec.{Exec, ◌>>=◌}
use ipc_client.Base.Map.{Map, lookup, insert, lookup-insert, IsUnique}
use ipc_client.Base.Text.{Text}
use ipc_client.Identity.Evm.{KeyInfo, KeyLib, IsLawful}
use ipc_client.Identity.Evm.Memory.{MemoryKeyStore, get}
use ipc_client.Identity.Evm.Memory.Invariant.{Agrees, IsConsistent}
use ipc_client.Identity.Evm.Persistent.{
  PersistentKeyInfo, file, Host, PersistentKeyStore, to_persist, flush_no_encryption, infer_address,
  load_entries, load_default, from_contents, new, write_out,
}

-- The codecs read back what they write.
pub record CodecsAreLawful {Location World : Type 0} (host : Host Location World) : Type 0 where
  pub hex : (b : List ℕ) → host.hex_decode (host.hex_encode b) ≡ ok b
  pub json : (l : List PersistentKeyInfo) → host.from_json (host.to_json l) ≡ ok l

module _ {T Location World : Type 0} ⦃e : Eq T⦄ (key : KeyLib T) (lawful : IsLawful key)
    (host : Host Location World) (codecs : CodecsAreLawful host) where
  abbrev IsAddressed : T × KeyInfo → Type 0
  IsAddressed (k, i) = k ≢ key.default → key.try_from i ≡ some k

  infer_address-to_string :
      (k : T) (i : KeyInfo)
      → IsAddressed (k, i)
      → infer_address key host
          (record { address = key.to_string k; private_key = host.hex_encode i.private_key })
          i
        ≡ ok k
  infer_address-to_string k i h = elim (Bool-cases (e.beq k key.default)) [
    | inl same ↦
        let k' : k ≡ key.default = (e.beq_iff k key.default).0 same in
        ground
          (arith, list_beq_iff (key.to_string k) (key.to_string key.default), ap key.to_string k')
    | inr other ↦
        let n : k ≢ key.default = λ q. absurd (ground (arith, e.beq_iff k key.default)) in
        ground (
          arith,
          list_beq_iff (key.to_string k) (key.to_string key.default),
          lawful.to_string-ne-default k n,
          h n,
        )
  ]

  -- Entries of the file override none that were loaded before, and none of one another.
  abbrev joined : Option KeyInfo → Option KeyInfo → Option KeyInfo
  joined (some i) o = some i
  joined none o = o

  load_entries-to_persist :
      (m acc : Map T KeyInfo)
      → IsUnique m
      → All IsAddressed m
      → (m' : Map T KeyInfo) × (load_entries key host acc (to_persist key host m) ≡ ok m')
        × ((k : T) → lookup k m' ≡ joined (lookup k m) (lookup k acc))
  unfolding load_entries to_persist lookup
  load_entries-to_persist [] acc u h = (acc, refl, λ k. refl)
  load_entries-to_persist ((j, i) ∷ m) acc (fresh, u) (hj, h) =
      let (m', loaded, found) = load_entries-to_persist m (insert j i acc) u h in
      (
        m',
        rw (codecs.hex i.private_key) (rw (infer_address-to_string j i hj) loaded),
        λ k. ground (arith, found k, lookup-insert j k i acc, e.beq_iff j k),
      )

  IsAddressed-entries :
      (m : Map T KeyInfo)
      → IsUnique m
      → ((k : T) (i : KeyInfo) → lookup k m ≡ some i → IsAddressed (k, i))
      → All IsAddressed m
  unfolding lookup
  IsAddressed-entries [] u h = tt
  IsAddressed-entries ((j, i) ∷ m) (fresh, u) h = (
    h j i (ground (arith, e.beq_iff j j)),
    IsAddressed-entries m u (λ k l p. h k l (ground (arith, e.beq_iff j k))),
  )

  load_default-Agrees :
      (o : Option KeyInfo) (d : Option T) → Agrees key o d → load_default key host o ≡ ok d
  load_default-Agrees none none h = refl
  load_default-Agrees (some i) none h = absurd h
  load_default-Agrees none (some d) h = absurd h
  load_default-Agrees (some i) (some d) h = rw (h, load_default) refl

  joined-none : (o : Option KeyInfo) → joined o none ≡ o
  joined-none none = refl
  joined-none (some i) = refl

  -- What a consistent store writes is loaded as a store with the same default and, for every key,
  -- the same entry.
  pub from_contents-to_json :
      (path : Location) (s : MemoryKeyStore T)
      → IsConsistent key s
      → IsUnique s.entries
      → (loaded : PersistentKeyStore T Location) × (from_contents key host path
            (host.to_json (to_persist key host s.entries))
          ≡ ok loaded)
        × (loaded.memory.default ≡ s.default)
        × ((k : T) → get k loaded.memory ≡ get k s)
  unfolding from_contents get lookup
  from_contents-to_json path s c u =
      let (m', loaded, found) =
        load_entries-to_persist s.entries [] u (IsAddressed-entries s.entries u c.addresses) in
      let same : (k : T) → lookup k m' ≡ lookup k s.entries =
        λ k. found k ∙ joined-none (lookup k s.entries) in
      let default_read = load_default-Agrees (lookup key.default s.entries) s.default c.agrees in
      (
        record { memory = record { entries = m'; default = s.default }; file_path = path },
        rw (codecs.json, from_contents)
            (rw loaded (rw (same key.default) (rw (default_read) refl))),
        refl,
        same,
      )

-- A directory that was made exists, and goes on existing as files are made and written in it. What
-- was written through a buffer is read, once the rest of the buffer was written too.
pub record FilesAreLawful {Location World : Type 0} (host : Host Location World) : Type 0 where
  pub made :
      (dir : Location) (w : World)
      → (host.create_dir_all dir w).0 ≡ ok tt
      → host.exists dir (host.create_dir_all dir w).1 ≡ true
  pub create_keeps :
      (p dir : Location) (w : World)
      → host.exists dir w ≡ true
      → host.exists dir (host.create p w).1 ≡ true
  pub write_keeps :
      (p dir : Location) (t : Text) (w : World)
      → host.exists dir w ≡ true
      → host.exists dir (host.write_buffered p t w).1 ≡ true
  pub drop_keeps :
      (p dir : Location) (rest : Text) (w : World)
      → host.exists dir w ≡ true
      → host.exists dir (host.drop_buffer p rest w).1 ≡ true
  pub written :
      (p : Location) (t : Text) (w : World)
      → let ((outcome, rest), w') = host.write_buffered p t w in
        outcome ≡ ok tt
        → (host.drop_buffer p rest w').0 ≡ ok tt
        → host.open_file p (host.drop_buffer p rest w').1 ≡ file t

-- The three steps of a flush that succeeds.
abbrev Steps :
    {T Location World : Type 0} ⦃e : Eq T⦄
    → KeyLib T
    → Host Location World
    → PersistentKeyStore T Location
    → Location
    → World
    → World
    → Type 0
Steps key host self dir w w' =
    let w1 = (host.create_dir_all dir w).1 in
    let w2 = (host.create self.file_path w1).1 in
    let t = host.to_json (to_persist key host self.memory.entries) in
    ((host.create_dir_all dir w).0 ≡ ok tt)
    × ((host.create self.file_path w1).0 ≡ ok tt)
    × ((write_out host self.file_path t w2).0 ≡ ok tt)
    × (w' ≡ (write_out host self.file_path t w2).1)

module _ {T Location World : Type 0} ⦃e : Eq T⦄ (key : KeyLib T) (host : Host Location World) where
  flush-Steps :
      (self : PersistentKeyStore T Location) (dir : Location) (w : World)
      → host.parent self.file_path ≡ some dir
      → (flush_no_encryption key host (self, w)).0 ≡ ok tt
      → Steps key host self dir w (flush_no_encryption key host (self, w)).1.1
  unfolding flush_no_encryption ◌>>=◌
  flush-Steps self dir w p h = ground arith

  -- What the drop of the writer meets at the end of a flush, which does not report it.
  unfoldable pub last_write :
      PersistentKeyStore T Location → Location → World → Result Text (Unit {0})
  last_write self dir w =
      let w1 = (host.create_dir_all dir w).1 in
      let w2 = (host.create self.file_path w1).1 in
      let ((outcome, rest), w3) =
        host.write_buffered self.file_path (host.to_json (to_persist key host self.memory.entries))
          w2 in
      (host.drop_buffer self.file_path rest w3).0

module _ {T Location World : Type 0} ⦃e : Eq T⦄ (key : KeyLib T) (lawful : IsLawful key)
    (host : Host Location World) (codecs : CodecsAreLawful host) (files : FilesAreLawful host) where
  -- With lawful keys, codecs and files, after a flush of a consistent store that has each key
  -- once, at a path with a parent, where the flush succeeded, and so did its last write, when
  -- the writer was dropped: opening the key store at the same path succeeds, with the default
  -- of the store that was flushed and, for every key, its entry.
  pub new-flush :
      (self : PersistentKeyStore T Location) (dir : Location) (w : World)
      → host.parent self.file_path ≡ some dir
      → IsConsistent key self.memory
      → IsUnique self.memory.entries
      → (flush_no_encryption key host (self, w)).0 ≡ ok tt
      → last_write key host self dir w ≡ ok tt
      → (loaded : PersistentKeyStore T Location) × (new key host self.file_path
            (flush_no_encryption key host (self, w)).1.1
          ≡ ok loaded)
        × (loaded.memory.default ≡ self.memory.default)
        × ((k : T) → get k loaded.memory ≡ get k self.memory)
  unfolding new write_out last_write
  new-flush self dir w p c u h last =
      let (made, created, wrote, after) = flush-Steps key host self dir w p h in
      let (loaded, read, default, same) =
        from_contents-to_json key lawful host codecs self.file_path self.memory c u in
      let w1 = (host.create_dir_all dir w).1 in
      let w2 = (host.create self.file_path w1).1 in
      let t = host.to_json (to_persist key host self.memory.entries) in
      let there =
        files.drop_keeps self.file_path dir (host.write_buffered self.file_path t w2).0.1
          (host.write_buffered self.file_path t w2).1
          (files.write_keeps self.file_path dir t w2
            (files.create_keeps self.file_path dir w1 (files.made dir w made))) in
      (
        loaded,
        rw (after, p) (rw there (rw (files.written self.file_path t w2 wrote last) read)),
        default,
        same,
      )
