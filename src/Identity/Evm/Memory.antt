-- ===== src/Identity/Evm/Memory.antt =====
-- ipc/identity/src/evm/memory.rs: keys by address in memory. The default is kept twice, as an
-- address and as an entry under the default key.
pub mod Invariant
use ipc_client.Base.{
  ℕ, zero, suc, Bool, true, false, Option, none, some, List, [], Result, ok, err, panic, Eq, ◌==◌,
  option_eq, if◌then◌else◌,
}
use ipc_client.Base.Exec.{Exec}
use ipc_client.Base.Map.{Map, keys, lookup, insert, remove as remove_entry}
use ipc_client.Base.Text.{Text, codes}
use ipc_client.Identity.Evm.{KeyInfo, KeyLib}

pub record MemoryKeyStore (T : Type 0) : Type 0 where
  pub entries : Map T KeyInfo
  pub default : Option T

module _ {T : Type 0} where
  -- `MemoryKeyStore::default`
  abbrev pub empty : MemoryKeyStore T
  empty = record { entries = []; default = none }

  pub list : MemoryKeyStore T → List T
  list self = keys self.entries

module _ {T : Type 0} ⦃e : Eq T⦄ where
  unfoldable pub get : T → MemoryKeyStore T → Option KeyInfo
  get addr self = lookup addr self.entries

module _ {T : Type 0} ⦃e : Eq T⦄ (key : KeyLib T) where
  unfoldable pub put : KeyInfo → Exec Text (MemoryKeyStore T) T
  put info self = elim (key.try_from info) [
    | some addr ↦ (ok addr, record self { entries = insert addr info self.entries })
    | none ↦ (err (codes "cannot convert private key to public key"), self)
  ]

  -- The removal of the default calls `remove` again. The depth of the calls is bounded by the
  -- first argument; `remove-total` shows that two are enough.
  unfoldable pub remove_calls : ℕ → T → Exec Text (MemoryKeyStore T) (Unit {0})
  remove_calls zero addr self = (panic, self)
  remove_calls (suc calls) addr self =
      let inner = remove_calls calls key.default (record self { default = none }) in
      if self.default == some addr
      then elim inner.0 [
        | ok _ ↦ (ok tt, record (inner.1) { entries = remove_entry addr (inner.1).entries })
        | _ ↦ inner
      ]
      else (ok tt, record self { entries = remove_entry addr self.entries })

  unfoldable pub remove : T → Exec Text (MemoryKeyStore T) (Unit {0})
  unfolding remove_calls
  remove = remove_calls 2

  unfoldable pub set_default : T → Exec Text (MemoryKeyStore T) (Unit {0})
  unfolding get
  set_default addr self = elim (get addr self) [
    | some i ↦ (ok tt, record { entries = insert key.default i self.entries; default = some addr })
    | none ↦ (err (codes "can't set default key: not found in keystore"), self)
  ]

  -- The address of the key under the default entry, if there is one.
  abbrev pub stored_default :
      Option KeyInfo → MemoryKeyStore T → Result Text (Option T) × MemoryKeyStore T
  stored_default none self = (ok self.default, self)
  stored_default (some info) self = elim (key.try_from info) [
    | some addr ↦ (ok (some addr), record self { default = some addr })
    | none ↦ (err (codes "couldn't get address from key info"), self)
  ]

  abbrev pub is_none : Option T → Bool
  is_none none = true
  is_none (some a) = false

  unfoldable pub get_default : Exec Text (MemoryKeyStore T) (Option T)
  unfolding get
  get_default self =
      if is_none self.default
      then stored_default (get key.default self) self
      else (ok self.default, self)
