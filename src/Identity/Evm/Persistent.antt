-- ===== src/Identity/Evm/Persistent.antt =====
-- ipc/identity/src/evm/persistent.rs: the store in memory, written to a file after each change.
pub mod Reload
pub mod Reach
use ipc_client.Base.{
  Bool, true, false, not, Option, none, some, List, [], ◌∷◌, Result, ok, err, panic, ok_or, Eq,
  ◌==◌, list_eq, nat_eq, option_eq, if◌then◌else◌, ℕ,
}
use ipc_client.Base.Exec.{Exec, ◌>>=◌, ◌>>◌, pure, fail, lift}
use ipc_client.Base.Map.{Map, lookup, insert}
use ipc_client.Base.Text.{Text, codes}
use ipc_client.Identity.Evm.{KeyInfo, KeyLib}
use ipc_client.Identity.Evm.Memory
use ipc_client.Identity.Evm.Memory.{MemoryKeyStore}

pub record PersistentKeyInfo : Type 0 where
  pub address : Text
  pub private_key : Text

-- What `File::open` returns: the contents, or an error, of which the code tells `NotFound` apart.
pub data Opened : Type 0 where
  file : Text → Opened
  not_found : Opened
  other : Text → Opened

-- The file system, over its states, and the two codecs: `serde_json` and `hex`.
pub record Host (Location World : Type 0) : Type 0 where
  pub parent : Location → Option Location
  pub exists : Location → World → Bool
  pub open_file : Location → World → Opened
  pub create_dir_all : Location → Exec Text World (Unit {0})
  -- `File::create`, which empties the file
  pub create : Location → Exec Text World (Unit {0})
  -- `to_writer_pretty` into a `BufWriter` of the file that was created: the outcome, and what is
  -- still in the buffer
  pub write_buffered : Location → Text → World → (Result Text (Unit {0}) × Text) × World
  -- The drop of the `BufWriter`, which writes what is in the buffer, and what that meets
  pub drop_buffer : Location → Text → Exec Text World (Unit {0})
  pub to_json : List PersistentKeyInfo → Text
  pub from_json : Text → Result Text (List PersistentKeyInfo)
  pub hex_encode : List ℕ → Text
  pub hex_decode : Text → Result Text (List ℕ)

pub record PersistentKeyStore (T Location : Type 0) : Type 0 where
  pub memory : MemoryKeyStore T
  pub file_path : Location

-- The `BufWriter` is dropped without a flush, so that an error of its last write is lost.
module _ {Location World : Type 0} (host : Host Location World) where
  unfoldable pub write_out : Location → Text → Exec Text World (Unit {0})
  write_out path t w =
      let ((outcome, rest), w') = host.write_buffered path t w in
      (outcome, (host.drop_buffer path rest w').1)

module _ {T Location World : Type 0} ⦃e : Eq T⦄ (key : KeyLib T) (host : Host Location World) where
  -- A store and the world in which it lives.
  abbrev pub State : Type 0
  State = PersistentKeyStore T Location × World

  unfoldable pub on_memory : {A : Type 0} → Exec Text (MemoryKeyStore T) A → Exec Text State A
  on_memory m (self, w) = ((m self.memory).0, (record self { memory = (m self.memory).1 }, w))

  unfoldable pub on_world : {A : Type 0} → Exec Text World A → Exec Text State A
  on_world m (self, w) = ((m w).0, (self, (m w).1))

  -- The entries as they are written.
  unfoldable pub to_persist : Map T KeyInfo → List PersistentKeyInfo
  to_persist [] = []
  to_persist ((k, val) ∷ m) =
      record { address = key.to_string k; private_key = host.hex_encode val.private_key }
      ∷ to_persist m

  unfoldable pub flush_no_encryption : Exec Text State (Unit {0})
  unfolding on_world to_persist write_out
  flush_no_encryption s = elim (host.parent s.0.file_path) [
    | none ↦ (err (codes "Key store parent path not exists"), s)
    | some dir ↦
        (on_world (host.create_dir_all dir) >>= λ _. on_world (host.create s.0.file_path) >>= λ _.
        on_world (write_out host s.0.file_path (host.to_json (to_persist s.0.memory.entries))))
          s
  ]

  unfoldable pub put : KeyInfo → Exec Text State T
  unfolding on_memory
  put info = do addr ← on_memory (Memory.put key info); flush_no_encryption; pure addr

  unfoldable pub remove : T → Exec Text State (Unit {0})
  unfolding on_memory
  remove addr = do on_memory (Memory.remove key addr); flush_no_encryption

  unfoldable pub set_default : T → Exec Text State (Unit {0})
  unfolding on_memory
  set_default addr = do on_memory (Memory.set_default key addr); flush_no_encryption

  unfoldable pub get_default : Exec Text State (Option T)
  unfolding on_memory
  get_default = do default ← on_memory (Memory.get_default key); flush_no_encryption; pure default

  -- The entry that a persisted key stands under: the default key if the address says so, else the
  -- address of the private key.
  abbrev pub infer_address : PersistentKeyInfo → KeyInfo → Result Text T
  infer_address info key_info =
      if info.address == key.to_string key.default
      then ok key.default
      else ok_or (key.try_from key_info) (codes "cannot convert private key to address")

  unfoldable pub load_entries : Map T KeyInfo → List PersistentKeyInfo → Result Text (Map T KeyInfo)
  load_entries key_infos [] = ok key_infos
  load_entries key_infos (info ∷ rest) = elim (host.hex_decode info.private_key) [
    | ok private_key ↦
        let key_info : KeyInfo = record { private_key = private_key } in
        elim (infer_address info key_info) [
          | ok addr ↦ load_entries (insert addr key_info key_infos) rest
          | err m ↦ err m
          | panic ↦ panic
        ]
    | err m ↦ err m
    | panic ↦ panic
  ]

  -- The default address of loaded entries.
  abbrev pub load_default : Option KeyInfo → Result Text (Option T)
  load_default none = ok none
  load_default (some i) = elim (key.try_from i) [
    | some addr ↦ ok (some addr)
    | none ↦ err (codes "couldn't get info for default key")
  ]

  abbrev pub opened_store :
      Location
      → Map T KeyInfo
      → Result Text (Option T)
      → Result Text (PersistentKeyStore T Location)
  opened_store path key_infos (ok default) =
      ok (record { memory = record { entries = key_infos; default = default }; file_path = path })
  opened_store path key_infos (err m) = err m
  opened_store path key_infos panic = panic

  unfoldable pub from_contents : Location → Text → Result Text (PersistentKeyStore T Location)
  unfolding load_entries
  from_contents path contents = elim (host.from_json contents) [
    | ok persisted ↦ elim (load_entries [] persisted) [
      | ok key_infos ↦ opened_store path key_infos (load_default (lookup key.default key_infos))
      | err m ↦ err m
      | panic ↦ panic
    ]
    | err m ↦ err m
    | panic ↦ panic
  ]

  abbrev pub has_parent : Option Location → World → Bool
  has_parent none w = true
  has_parent (some p) w = host.exists p w

  -- `PersistentKeyStore::new`
  unfoldable pub new : Location → World → Result Text (PersistentKeyStore T Location)
  unfolding from_contents
  new path w =
      if has_parent (host.parent path) w
      then elim (host.open_file path w) [
        | file contents ↦ from_contents path contents
        | not_found ↦
            ok (record { memory = record { entries = []; default = none }; file_path = path })
        | other m ↦ err m
      ]
      else err (codes "parent does not exist for key store")
