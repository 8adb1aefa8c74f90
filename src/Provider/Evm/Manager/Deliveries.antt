-- ===== src/Provider/Evm/Manager/Deliveries.antt =====
-- What each method sends.
use mathlib.Core.Path.{subst}
use ipc_client.Base.{ℕ, ◌≡◌, sym, ap, ◌∙◌, Option, some, List, Result, ok, nat_eq}
use ipc_client.Base.Exec.{Exec, ◌>>=◌}
use ipc_client.Base.Int.{ℤ}
use ipc_client.Base.Text.{Text}
use ipc_client.Sdk.Fvm.{AddressLib}
use ipc_client.Sdk.SubnetId.{SubnetId}
use ipc_client.Sdk.Contract.{ContractLib}
use ipc_client.Provider.Evm.{contract_address_from_subnet}
use ipc_client.Provider.Evm.Manager.{
  ContractCall, Request, Signer, Transaction, Node, EthSubnetManager, to_u128, get_signer,
}
use ipc_client.Provider.Evm.Manager.Transactions.{signer_of}
use ipc_client.Provider.Evm.Manager.Sends.{Sends, before-Sends, weaken-Sends}
use ipc_client.Provider.Evm.Manager.Calls.{IsHonest, ReadsQuietly, Calls, get_signer-Quiet}

module _ {Address FvmAddress Raw Pending World : Type 0} ⦃fvm : AddressLib Address⦄
    (lib : ContractLib Address FvmAddress) (node : Node FvmAddress Raw Pending World)
    (self : EthSubnetManager World) where
  -- The transaction goes to the contract, and carries the call and the value.
  abbrev pub Requests :
      Result Text (List ℕ)
      → (ContractCall FvmAddress → Type 0)
      → Option ℕ
      → Transaction FvmAddress
      → Type 0
  Requests to Call value t =
      (to ≡ ok t.request.to) × Call t.request.call × (value ≡ some t.request.value)

  -- It is also signed for `from`, by the manager's key store.
  abbrev pub Delivers :
      Address
      → Result Text (List ℕ)
      → (ContractCall FvmAddress → Type 0)
      → Option ℕ
      → Transaction FvmAddress
      → Type 0
  Delivers from to Call value t =
      ((w : World) × ((get_signer lib node self from w).0 ≡ ok t.signer)) × Requests to Call value t

  -- An amount is sent along as the argument of the call.
  abbrev pub WithAmount : ℤ → (ℕ → ContractCall FvmAddress) → ContractCall FvmAddress → Type 0
  WithAmount amount call c = (n : ℕ) × (to_u128 amount ≡ some n) × (c ≡ call n)

module _ {Address FvmAddress Raw Pending World : Type 0} ⦃fvm : AddressLib Address⦄
    (lib : ContractLib Address FvmAddress) {node : Node FvmAddress Raw Pending World}
    (self : EthSubnetManager World) {sent : World → List (Transaction FvmAddress)}
    (honest : IsHonest node sent) (reads : ReadsQuietly sent self) where
  pub calling :
      {A : Type 0} (to : Result Text (List ℕ)) (Call : ContractCall FvmAddress → Type 0)
      (value : Option ℕ) (signer : Signer) (request : Request FvmAddress) (m : Exec Text World A)
      → to ≡ ok request.to
      → Call request.call
      → value ≡ some request.value
      → Sends sent (Calls signer request) m
      → Sends sent (λ t. (t.signer ≡ signer) × Requests lib node self to Call value t) m
  calling to Call value signer request m t c v h =
      weaken-Sends sent m
        (λ u p. (
          p.0,
          (
            t ∙ ap (λ (r : Request FvmAddress). ok r.to) (sym p.1),
            subst (λ (r : Request FvmAddress). Call r.call) (sym p.1) c,
            v ∙ ap (λ (r : Request FvmAddress). some r.value) (sym p.1),
          ),
        ))
        h

  -- Sign, and go on with the signer.
  pub signing :
      {A : Type 0} (from : Address) (to : Result Text (List ℕ))
      (Call : ContractCall FvmAddress → Type 0) (value : Option ℕ) (k : Signer → Exec Text World A)
      → ((signer : Signer)
          → Sends sent
              (λ t. (t.signer ≡ signer) × Requests lib node self to Call value t)
              (k signer))
      → Sends sent (Delivers lib node self from to Call value) (signer_of lib node self from >>= k)
  signing from to Call value k h =
      before-Sends sent _ (signer_of lib node self from) k
        (get_signer-Quiet honest lib self from reads)
        (λ w signer e.
          weaken-Sends sent (k signer) (λ u p. ((w, e ∙ ap ok (sym p.0)), p.1)) (h signer))

  -- What is sent to the contract of a subnet.
  abbrev pub ToContract :
      SubnetId Address
      → Address
      → (ContractCall FvmAddress → Type 0)
      → Option ℕ
      → Transaction FvmAddress
      → Type 0
  ToContract subnet from Call value =
      Delivers lib node self from (contract_address_from_subnet lib subnet) Call value

  -- Signing and sending to an address that is the contract's.
  pub to_contract :
      {A : Type 0} (subnet : SubnetId Address) (from : Address)
      (Call : ContractCall FvmAddress → Type 0) (value : Option ℕ) (request : Request FvmAddress)
      (deliver : Signer → Request FvmAddress → Exec Text World A)
      → contract_address_from_subnet lib subnet ≡ ok request.to
      → Call request.call
      → value ≡ some request.value
      → ((signer : Signer) → Sends sent (Calls signer request) (deliver signer request))
      → Sends sent
          (ToContract subnet from Call value)
          (signer_of lib node self from >>= λ signer. deliver signer request)
  to_contract subnet from Call value request deliver e c v h =
      signing from (contract_address_from_subnet lib subnet) Call value
        (λ signer. deliver signer request)
        (λ signer.
          calling (contract_address_from_subnet lib subnet) Call value signer request
            (deliver signer request) e c v (h signer))
