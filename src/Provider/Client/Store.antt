-- ===== src/Provider/Client/Store.antt =====
-- The store of EVM keys as the provider's wallet.
use ipc_client.Base.{◌≡◌, refl, ap, ◌∙◌, none, some, ok, Eq}
use ipc_client.Base.Exec.{◌>>=◌}
use ipc_client.Identity.Evm.{KeyLib}
use ipc_client.Identity.Evm.Memory.Invariant.{IsConsistent, get_default-eq}
use ipc_client.Identity.Evm.Persistent as Persistent
use ipc_client.Identity.Evm.Persistent.{Host, PersistentKeyStore, flush_no_encryption, on_memory}
use ipc_client.Provider.Config.{Subnet}
use ipc_client.Provider.SubnetManager.{Payloads}
use ipc_client.Provider.Client.{EvmWallet, IpcProvider, Connector, check_sender, default_sender}

module _ {Eth Location Files : Type 0} ⦃e : Eq Eth⦄ (key : KeyLib Eth)
    (host : Host Location Files) where
  -- The world of the provider is the store with its files.
  abbrev pub World : Type 0
  World = Persistent.State key host

  abbrev pub store_wallet : EvmWallet Eth World
  store_wallet = record {
    get_default = Persistent.get_default key host;
    put = Persistent.put key host;
  }

  get_default-flush :
      (store : PersistentKeyStore Eth Location) (files : Files)
      → IsConsistent key store.memory
      → (flush_no_encryption key host (store, files)).0 ≡ ok tt
      → (Persistent.get_default key host (store, files)).0 ≡ ok store.memory.default
  unfolding Persistent.get_default ◌>>=◌ on_memory
  get_default-flush store files consistent flushed =
      rw (get_default-eq key store.memory consistent, on_memory) (rw flushed refl)

module _ {Address Eth Location Files : Type 0} {P : Payloads} ⦃a : Eq Address⦄ ⦃e : Eq Eth⦄
    (key : KeyLib Eth) (host : Host Location Files) where
  -- With no wish and no sender, a provider over a consistent store of EVM keys with a default,
  -- which can be written, sends from the address of that default, and this becomes its sender.
  pub check_sender-store :
      (connector : Connector Address Eth (World key host) P)
      (self : IpcProvider Address Eth (World key host)) (subnet : Subnet Address)
      (store : PersistentKeyStore Eth Location) (files : Files) (d : Eth) (addr : Address)
      → self.sender ≡ none
      → self.evm_keystore ≡ some (store_wallet key host)
      → IsConsistent key store.memory
      → store.memory.default ≡ some d
      → (flush_no_encryption key host (store, files)).0 ≡ ok tt
      → connector.to_address d ≡ ok addr
      → ((check_sender connector subnet none (self, (store, files))).0 ≡ ok addr)
        × ((check_sender connector subnet none (self, (store, files))).1.0.sender ≡ some addr)
  unfolding check_sender default_sender
  check_sender-store connector self subnet store files d addr no_sender holds consistent default
        flushed known =
      let got : (Persistent.get_default key host (store, files)).0 ≡ ok (some d) =
        get_default-flush key host store files consistent flushed ∙ ap ok default in
      rw (no_sender, check_sender) (rw (holds, default_sender) (rw got (rw known (refl, refl))))
