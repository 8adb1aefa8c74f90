-- ===== src/Identity/Fvm/Wallet/Stored.antt =====
-- ipc/identity/src/fvm/wallet.rs: the functions on a store of keys, without a wallet: `get_default`,
-- `find_key`, `try_find`, `export_key_info` and `import`.
use ipc_client.Base.{Option, none, some, Result, ok, err, panic, Eq}
use ipc_client.Base.Exec.{Exec, ◌>>=◌, ◌>>◌, pure, lift}
use ipc_client.Base.Text.{Text, codes}
use ipc_client.Sdk.Fvm.{AddressLib}
use ipc_client.Identity.Fvm.{KeyInfo, Error}
use ipc_client.Identity.Fvm.Host.{Host, Crypto}
use ipc_client.Identity.Fvm.KeyStore
use ipc_client.Identity.Fvm.KeyStore.{KeyStore}
use ipc_client.Identity.Fvm.Wallet.{
  WalletHelpers, Key, default_name, anyhow, try_from, key_of_info, wallet_name, or_second,
}

module _ {Address Signature Location World : Type 0} ⦃e : Eq Address⦄ ⦃fvm : AddressLib Address⦄
    (helpers : WalletHelpers Address Signature World) (host : Host Location World)
    (crypto : Crypto) where
  abbrev pub some_address : Result Error (Key Address) → Result Error (Option Address)
  some_address (ok k) = ok (some k.address)
  some_address (err m) = err m
  some_address panic = panic

  unfoldable pub stored_default : KeyStore Location → Result Error (Option Address)
  unfolding try_from
  stored_default keystore = elim (KeyStore.get default_name keystore) [
    | ok info ↦ some_address (try_from helpers host crypto info)
    | err m ↦ ok none
    | panic ↦ panic
  ]

  unfoldable pub find_stored_key : Address → KeyStore Location → Result Error (Key Address)
  find_stored_key addr keystore =
      key_of_info helpers host crypto (KeyStore.get (wallet_name helpers host crypto addr) keystore)

  unfoldable pub try_find : Address → KeyStore Location → Result Error KeyInfo
  try_find addr keystore =
      or_second helpers host crypto
        (or_second helpers host crypto
          (KeyStore.get (wallet_name helpers host crypto addr) keystore) (codes "t") addr keystore)
        (codes "f") addr keystore

  unfoldable pub export_key_info : Address → KeyStore Location → Result Error KeyInfo
  unfolding find_stored_key
  export_key_info addr keystore = elim (find_stored_key addr keystore) [
    | ok k ↦ ok k.key_info
    | err m ↦ err m
    | panic ↦ panic
  ]

  unfoldable pub import_stored : KeyInfo → Exec Text (KeyStore Location × World) Address
  unfolding try_from
  import_stored info = do
    k ← anyhow helpers host crypto (lift (try_from helpers host crypto info))
    anyhow helpers host crypto
        (KeyStore.put host crypto (wallet_name helpers host crypto k.address) k.key_info)
    pure k.address
