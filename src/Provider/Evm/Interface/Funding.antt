-- ===== src/Provider/Evm/Interface/Funding.antt =====
-- Funds for a child, from the provider's method to the transaction on the parent's chain.
use mathlib.Core.Path.{subst}
use ipc_client.Base.{
  ℕ, ◌≡◌, refl, sym, ap, ◌∙◌, Option, none, some, List, Result, ok, err, panic, ◌>>=◌, Eq,
}
use ipc_client.Base.Exec.{Exec}
use ipc_client.Base.Int.{ℤ}
use ipc_client.Base.Map.{lookup}
use ipc_client.Base.Text.{Text}
use ipc_client.Identity.Evm.{KeyInfo}
use ipc_client.Sdk.Fvm.{AddressLib}
use ipc_client.Sdk.SubnetId.{SubnetId, subnet_id_eq, new_from_parent, chain_id}
use ipc_client.Sdk.Contract.{ContractLib, payload_to_evm_address}
use ipc_client.Provider.Config.{Subnet, SubnetConfig, fevm, gateway_addr}
use ipc_client.Provider.Client.{
  IpcProvider, Connection, EvmWallet, connection, on_world, check_sender, unwrap_or,
}
use ipc_client.Provider.Client.Transactions.{fund}
use ipc_client.Provider.Client.Routing.{fund_at_parent}
use ipc_client.Provider.Evm.{Chain}
use ipc_client.Provider.Evm.Manager.{
  Transaction, Node, EthSubnetManager, to_u128, ensure_same_gateway,
}
use ipc_client.Provider.Evm.Manager.Transactions as Transactions
use ipc_client.Provider.Evm.Manager.Sends.{SendsFrom, Sends, weaken-Sends}
use ipc_client.Provider.Evm.Manager.Calls.{IsHonest, ReadsQuietly}
use ipc_client.Provider.Evm.Manager.Deliveries.{Delivers}
use ipc_client.Provider.Evm.Manager.Gateway.{Funds, fund-Sends, ensure_same_gateway_iff}
use ipc_client.Provider.Evm.Views.{Getters}
use ipc_client.Provider.Evm.Interface.{
  EvmPayloads, Connecting, new, shared, from_subnet_with_wallet_store, as_manager, connector,
}

module _ {Address FvmAddress Eth World : Type 0} ⦃fvm : AddressLib Address⦄
    (lib : ContractLib Address FvmAddress) (connecting : Connecting Eth World) where
  of_parts :
      (opened : Result Text (Unit {0})) (gateway registry : Result Text (List ℕ)) (id : ℕ)
      (keystore : Option (List ℕ → Exec Text World (Option KeyInfo))) (m : EthSubnetManager World)
      → (opened >>= λ _. gateway >>= λ g. registry >>= λ r. ok (new g r id keystore)) ≡ ok m
      → gateway ≡ ok m.gateway_addr
  of_parts (ok _) (ok g) (ok r) id keystore m h = cc
  of_parts (ok _) (ok g) (err e) id keystore m h = absurd cc
  of_parts (ok _) (ok g) panic id keystore m h = absurd cc
  of_parts (ok _) (err e) registry id keystore m h = absurd cc
  of_parts (ok _) panic registry id keystore m h = absurd cc
  of_parts (err e) gateway registry id keystore m h = absurd cc
  of_parts panic gateway registry id keystore m h = absurd cc

  own_of :
      (id : SubnetId Address) (config : SubnetConfig Address)
      (keystore : Option (EvmWallet Eth World)) (m : EthSubnetManager World)
      → from_subnet_with_wallet_store lib connecting (record { id = id; config = config }) keystore
        ≡ ok m
      → payload_to_evm_address lib (gateway_addr (record { id = id; config = config }))
        ≡ ok m.gateway_addr
  unfolding from_subnet_with_wallet_store
  own_of id (fevm c) keystore m h =
      of_parts (connecting.open_http c.provider_http c.auth_token)
        (payload_to_evm_address lib c.gateway_addr) (payload_to_evm_address lib c.registry_addr)
        (chain_id connecting.hasher id) (shared connecting.get keystore) m h

  -- A manager has the gateway of the configuration that it is made of.
  own_gateway :
      (subnet : Subnet Address) (keystore : Option (EvmWallet Eth World))
      (m : EthSubnetManager World)
      → from_subnet_with_wallet_store lib connecting subnet keystore ≡ ok m
      → payload_to_evm_address lib (gateway_addr subnet) ≡ ok m.gateway_addr
  own_gateway subnet keystore m h = own_of subnet.id subnet.config keystore m h

module _ {Address FvmAddress Raw LogRaw QuorumRaw Pending Eth World : Type 0} ⦃e : Eq Address⦄
    ⦃fvm : AddressLib Address⦄ (lib : ContractLib Address FvmAddress)
    {node : Node FvmAddress Raw Pending World} (getters : Getters FvmAddress QuorumRaw World)
    (chain : World → Chain LogRaw FvmAddress) (connecting : Connecting Eth World)
    (to_address : Eth → Result Text Address) {sent : World → List (Transaction FvmAddress)}
    (honest : IsHonest node sent) where
  -- The provider's method, as an action on the world.
  abbrev pub funding :
      IpcProvider Address Eth World
      → SubnetId Address
      → Address
      → Option Address
      → ℤ
      → Exec Text World ℤ
  funding self child from to amount w =
      let r =
        fund (connector lib node getters chain connecting to_address) child none (some from) to
          amount (self, w) in
      (r.0, r.1.1)

  -- When the parent is configured, its manager can be made, only `send` of the node sends and the
  -- manager's key store is only read: the manager accepts the gateway of the configuration. Funds for
  -- a child, from an account and with no gateway given, send one transaction or fail and send none.
  -- The transaction goes to that gateway, signed with the key of the account, and funds the child, to
  -- the receiver or else the account, with the amount as its value.
  pub funding-Sends :
      (self : IpcProvider Address Eth World) (p : SubnetId Address) (actor from : Address)
      (to : Option Address) (amount : ℤ) (subnet : Subnet Address) (m : EthSubnetManager World)
      → lookup p self.config.subnets ≡ some subnet
      → from_subnet_with_wallet_store lib connecting subnet self.evm_keystore ≡ ok m
      → (reads : ReadsQuietly sent m)
      → (ensure_same_gateway lib m (gateway_addr subnet) ≡ ok tt)
        × Sends sent
            (Delivers lib node m from
              (payload_to_evm_address lib (gateway_addr subnet))
              (Funds lib m honest reads (new_from_parent p actor) (unwrap_or to from))
              (to_u128 amount))
            (funding self (new_from_parent p actor) from to amount)
  unfolding connection on_world check_sender as_manager
  funding-Sends self p actor from to amount subnet m found made reads =
      let child = new_from_parent p actor in
      let Wanted : Transaction FvmAddress → Type 0 =
        Delivers lib node m from (payload_to_evm_address lib (gateway_addr subnet))
          (Funds lib m honest reads child (unwrap_or to from)) (to_u128 amount) in
      let conn : Connection Address World (EvmPayloads Address) = record {
        subnet = subnet;
        manager = as_manager lib node getters chain m;
      } in
      let connected : connection (connector lib node getters chain connecting to_address) self p
          ≡ some conn =
        rw (found, connection)
          (ap
            (λ (r : Result Text (EthSubnetManager World)).
              elim (r >>= λ m. ok (as_manager lib node getters chain m)) [
                | ok manager ↦ some (record { subnet = subnet; manager = manager })
                | err e ↦ none
                | panic ↦ none
              ])
            made) in
      let h : Sends sent Wanted (
          Transactions.fund lib node m child (gateway_addr subnet) from (unwrap_or to from)
            amount) =
        weaken-Sends sent _ (λ t q. (q.1.0, (q.0 ∙ q.1.1.0, q.1.1.1, q.1.1.2)))
          (fund-Sends lib m honest reads child (gateway_addr subnet) from (unwrap_or to from)
            amount) in
      (
        (ensure_same_gateway_iff lib m (gateway_addr subnet)).1
            (own_gateway lib connecting subnet self.evm_keystore m made),
        λ w.
            let one =
              fund_at_parent (connector lib node getters chain connecting to_address) p actor none
                (some from) to amount conn from (self, w) (self, w) connected refl in
            subst (λ r. SendsFrom sent w Wanted (λ v. (r.0, r.1.1))) (sym one) (h w),
      )
