-- ===== src/Provider/Client/Setup.antt =====
-- ipc/provider/src/lib.rs: how a provider is made, and where its stores of keys lie.
pub mod Places
mod Tests
use ipc_client.Base.{
  ℕ, Bool, true, false, ◌&&◌, not, Option, none, some, List, [], ◌∷◌, ◌++◌, Result, ok, err, panic,
  ◌==◌, Eq, nat_eq, list_eq, list_beq, if◌then◌else◌, ◌≡◌, ◌≢◌, refl, arith,
}
use ipc_client.Base.Exec.{Exec, ◌>>=◌, ◌>>◌, pure, fail, lift, context}
use ipc_client.Base.Text.{Text, codes, split}
use ipc_client.Provider.Config
use ipc_client.Provider.Config.Reload.{ConfigFiles, from_file}
use ipc_client.Provider.Config.{Subnet, Config, add_subnet}
use ipc_client.Provider.Client.{EvmWallet, FvmWallet, IpcProvider}

-- `std::path::PathBuf`, by its components, as it is compared: whether it starts at the root, and the
-- names after that, with no empty ones and no `.` but the first.
pub record PathBuf : Type 0 where
  pub rooted : Bool
  pub names : List Text

abbrev root_dir : PathBuf
root_dir = record { rooted = true; names = [] }

abbrev tilde : PathBuf
tilde = record { rooted = false; names = codes "~" ∷ [] }

-- The names between the slashes of a text, of which empty ones and a `.` after a slash are dropped.
abbrev kept : List Text → List Text
kept [] = []
kept ([] ∷ names) = kept names
kept ((c ∷ name) ∷ names) =
    let rest = kept names in if (c ∷ name) == codes "." then rest else (c ∷ name) ∷ rest

abbrev names_of : List Text → List Text
names_of [] = []
names_of ([] ∷ names) = kept names
names_of ((c ∷ name) ∷ names) = (c ∷ name) ∷ kept names

-- `Path::new`
unfoldable pub path_of : Text → PathBuf
path_of [] = record { rooted = false; names = [] }
path_of (c ∷ text) = record { rooted = c == b'/'; names = names_of (split b'/' (c ∷ text)) }

abbrev pub path_beq : PathBuf → PathBuf → Bool
path_beq p q = (if p.rooted then q.rooted else not q.rooted) && list_beq p.names q.names

-- `push` and `join`: a path that starts at the root takes the place of the other.
unfoldable pub push : PathBuf → PathBuf → PathBuf
push h p = if p.rooted then p else record h { names = h.names ++ p.names }

-- `starts_with("~")`, and what stands behind
abbrev pub behind_tilde : PathBuf → Option PathBuf
behind_tilde p = if p.rooted then none else elim p.names [
  | [] ↦ none
  | ◌∷◌ name names ↦
      if name == codes "~" then some (record { rooted = false; names = names }) else none
]

-- `home` is what the crate dirs has for the directory of the user.
unfoldable pub expand_tilde : Option PathBuf → PathBuf → PathBuf
unfolding push
expand_tilde home p = elim (behind_tilde p) [
  | none ↦ p
  | some rest ↦
      if path_beq p tilde
      then elim home [ some h ↦ h | none ↦ p ]
      else elim home [ some h ↦ if path_beq h root_dir then rest else push h rest | none ↦ p ]
]

abbrev pub default_repo_name : Text
default_repo_name = codes ".ipc"

abbrev pub default_config_name : Text
default_config_name = codes "config.toml"

abbrev pub default_keystore_name : Text
default_keystore_name = codes "evm_keystore.json"

-- The variable `HOME` of the process, without which there is a panic.
unfoldable pub default_repo_path : Option Text → Result Text Text
default_repo_path (some home) = ok (home ++ codes "/" ++ default_repo_name)
default_repo_path none = panic

unfoldable pub default_config_path : Option Text → Result Text Text
unfolding default_repo_path
default_config_path home = elim (default_repo_path home) [
  | ok repo ↦ ok (repo ++ codes "/" ++ default_config_name)
  | err e ↦ err e
  | panic ↦ panic
]

-- What opens the stores: `KeyStore::new` of a persistent configuration with `Wallet::new`, and
-- `PersistentKeyStore::new`; and the two directories of the user.
pub record Stores (Address Eth World : Type 0) : Type 0 where
  pub open_fvm : PathBuf → Exec Text World (FvmWallet Address World)
  pub open_evm : PathBuf → Exec Text World (EvmWallet Eth World)
  pub home_dir : Option PathBuf
  pub home_var : Option Text

module _ {Address Eth World : Type 0} (stores : Stores Address Eth World) where
  unfoldable pub new_fvm_keystore_from_path : Text → Exec Text World (FvmWallet Address World)
  new_fvm_keystore_from_path repo_str =
      context (codes "Failed to create keystore: ")
        (stores.open_fvm (expand_tilde stores.home_dir (path_of repo_str)))

  unfoldable pub new_evm_keystore_from_path : Text → Exec Text World (EvmWallet Eth World)
  new_evm_keystore_from_path repo_str = context (codes "Failed to create evm keystore: ") (
      stores.open_evm
        (expand_tilde stores.home_dir (push (path_of repo_str) (path_of default_keystore_name))))

  unfoldable pub new_fvm_wallet_from_config :
      Config Address → Exec Text World (FvmWallet Address World)
  unfolding new_fvm_keystore_from_path
  new_fvm_wallet_from_config config = elim config.keystore_path [
    | some repo_str ↦ new_fvm_keystore_from_path repo_str
    | none ↦ fail (codes "No keystore repo found in config. Try using absolute path")
  ]

  unfoldable pub new_evm_keystore_from_config :
      Config Address → Exec Text World (EvmWallet Eth World)
  unfolding new_evm_keystore_from_path
  new_evm_keystore_from_config config = elim config.keystore_path [
    | some repo_str ↦ new_evm_keystore_from_path repo_str
    | none ↦ fail (codes "No keystore repo found in config")
  ]

  -- `IpcProvider::new`
  abbrev pub new :
      Config Address → FvmWallet Address World → EvmWallet Eth World → IpcProvider Address Eth World
  new config fvm_wallet evm_keystore = record {
    sender = none;
    config = config;
    fvm_wallet = some fvm_wallet;
    evm_keystore = some evm_keystore;
  }

  unfoldable pub new_from_config :
      ConfigFiles Address World → Text → Exec Text World (IpcProvider Address Eth World)
  unfolding new_fvm_wallet_from_config new_evm_keystore_from_config
  new_from_config files config_path = do
    config ← from_file files config_path
    fvm_wallet ← new_fvm_wallet_from_config config
    evm_keystore ← new_evm_keystore_from_config config
    pure (new config fvm_wallet evm_keystore)

  unfoldable pub new_default :
      ConfigFiles Address World → Exec Text World (IpcProvider Address Eth World)
  unfolding new_from_config default_config_path
  new_default files = lift (default_config_path stores.home_var) >>= new_from_config files

  module _ ⦃e : Eq Address⦄ where
    unfoldable pub new_with_subnet :
        Option Text → Subnet Address → Exec Text World (IpcProvider Address Eth World)
    unfolding new_fvm_keystore_from_path new_evm_keystore_from_path
    new_with_subnet keystore_path subnet =
        let config = add_subnet subnet Config.new in
        elim keystore_path [
          | some repo_path ↦ (do
            fvm_wallet ← new_fvm_keystore_from_path repo_path
            evm_keystore ← new_evm_keystore_from_path repo_path
            pure (new config fvm_wallet evm_keystore))
          | none ↦
              pure
                (record { sender = none; config = config; fvm_wallet = none; evm_keystore = none })
        ]
