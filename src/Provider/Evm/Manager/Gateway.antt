-- ===== src/Provider/Evm/Manager/Gateway.antt =====
-- What the methods for a gateway send, and the checks before.
use ipc_client.Base.{
  ℕ, ◌≡◌, ◌↔◌, refl, Option, none, some, List, Result, ok, err, panic, inl, inr, ◌==◌, nat_eq,
  list_eq, list_beq_iff, length, if◌then◌else◌, Bool-cases, arith,
}
use ipc_client.Base.Exec.{Exec, ◌>>=◌, ◌>>◌, pure, lift}
use ipc_client.Base.Int.{ℤ}
use ipc_client.Base.Text.{Text, codes}
use ipc_client.Sdk.Fvm.{AddressLib}
use ipc_client.Sdk.SubnetId.{SubnetId}
use ipc_client.Sdk.Cross.{CrossMsg}
use ipc_client.Sdk.Contract.{
  ContractLib, ContractSubnetId, ContractCrossMsg, to_contract_subnet, to_contract_cross_msg,
  payload_to_evm_address,
}
use ipc_client.Provider.Evm.Manager as Manager
use ipc_client.Provider.Evm.Manager.{
  ContractCall, Request, Signer, Transaction, Node, EthSubnetManager, to_u128,
  call_with_premium_estimation, ensure_same_gateway,
}
use ipc_client.Provider.Evm.Manager.Transactions.{
  signer_of, fund, fee_or_default, release, propagate, send_cross_message,
}
use ipc_client.Provider.Evm.Manager.Sends.{
  Quiet, Sends, lift-Quiet, pure-Quiet, before-Sends, lift-Sends, fail-Sends, after-Sends,
  weaken-Sends,
}
use ipc_client.Provider.Evm.Manager.Calls.{
  IsHonest, ReadsQuietly, ok_or-eq-ok, Calls, call-Sends, send_for_block-Sends,
}
use ipc_client.Provider.Evm.Manager.Deliveries.{Requests, Delivers, calling, signing}

module _ {Address FvmAddress World : Type 0} (lib : ContractLib Address FvmAddress)
    (self : EthSubnetManager World) where
  -- A gateway is accepted where it is a delegated address of the configured bytes, and only there.
  pub ensure_same_gateway_iff :
      (gateway : Address)
      → (ensure_same_gateway lib self gateway ≡ ok tt)
        ↔ (payload_to_evm_address lib gateway ≡ ok self.gateway_addr)
  unfolding ensure_same_gateway
  ensure_same_gateway_iff gateway = checked (payload_to_evm_address lib gateway)
    where
      checked :
          (r : Result Text (List ℕ))
          → ((elim r [
            | ok a ↦
                if a == self.gateway_addr
                then ok tt
                else err (codes "Gateway address not matching with config")
            | err e ↦ err e
            | panic ↦ panic
          ])
              ≡ ok tt)
            ↔ (r ≡ ok self.gateway_addr)
      checked (ok a) = ground (arith, list_beq_iff a self.gateway_addr)
      checked (err e) = (λ h. absurd cc, λ h. absurd cc)
      checked panic = (λ h. absurd cc, λ h. absurd cc)

module _ {Address FvmAddress Raw Pending World : Type 0} ⦃fvm : AddressLib Address⦄
    (lib : ContractLib Address FvmAddress) {node : Node FvmAddress Raw Pending World}
    (self : EthSubnetManager World) {sent : World → List (Transaction FvmAddress)}
    (honest : IsHonest node sent) (reads : ReadsQuietly sent self) where
  -- What is sent to the manager's gateway, with the check of the gateway that was asked for.
  abbrev pub ToGateway :
      Address
      → Address
      → (ContractCall FvmAddress → Type 0)
      → Option ℕ
      → Transaction FvmAddress
      → Type 0
  ToGateway gateway from Call value t =
      (payload_to_evm_address lib gateway ≡ ok self.gateway_addr)
      × Delivers lib node self from (ok self.gateway_addr) Call value t

  checked :
      {A : Type 0} {P : Transaction FvmAddress → Type 0} (gateway : Address) (m : Exec Text World A)
      → Sends sent P m
      → Sends sent
          (λ t. (payload_to_evm_address lib gateway ≡ ok self.gateway_addr) × P t)
          (lift (ensure_same_gateway lib self gateway) >>= λ _. m)
  checked {P} gateway m h =
      lift-Sends sent (λ t. (payload_to_evm_address lib gateway ≡ ok self.gateway_addr) × P t)
        (ensure_same_gateway lib self gateway) (λ _. m)
        (λ _ e. weaken-Sends sent m (λ t p. ((ensure_same_gateway_iff lib self gateway).0 e, p)) h)

  abbrev pub AtGateway :
      Address → (ContractCall FvmAddress → Type 0) → Option ℕ → Transaction FvmAddress → Type 0
  AtGateway from Call value = Delivers lib node self from (ok self.gateway_addr) Call value

  abbrev pub Signed :
      Signer → (ContractCall FvmAddress → Type 0) → Option ℕ → Transaction FvmAddress → Type 0
  Signed signer Call value t =
      (t.signer ≡ signer) × Requests lib node self (ok self.gateway_addr) Call value t

  abbrev pub Funds : SubnetId Address → Address → ContractCall FvmAddress → Type 0
  Funds subnet to c =
      (id : ContractSubnetId) × (f : FvmAddress) × (to_contract_subnet lib subnet ≡ ok id)
      × (lib.to_fvm_address to ≡ ok f)
      × (c ≡ Manager.fund id f)

  pub fund-Sends :
      (subnet : SubnetId Address) (gateway from to : Address) (amount : ℤ)
      → Sends sent
          (ToGateway gateway from (Funds subnet to) (to_u128 amount))
          (fund lib node self subnet gateway from to amount)
  unfolding fund
  fund-Sends subnet gateway from to amount = checked gateway _ (
      lift-Sends sent (AtGateway from (Funds subnet to) (to_u128 amount)) _ _ (λ value p.
        lift-Sends sent (AtGateway from (Funds subnet to) (to_u128 amount)) _ _ (λ id q.
          signing lib self honest reads from (ok self.gateway_addr) (Funds subnet to)
            (to_u128 amount) _
            (λ signer.
              lift-Sends sent (Signed signer (Funds subnet to) (to_u128 amount)) _ _ (λ f r.
                calling lib self honest reads (ok self.gateway_addr) (Funds subnet to)
                  (to_u128 amount) signer _ _ refl (id, f, q, r, refl)
                  (ok_or-eq-ok (to_u128 amount) _ value p)
                  (send_for_block-Sends honest lib self signer _))))))

  abbrev pub Releases : Address → Option ℤ → ContractCall FvmAddress → Type 0
  Releases to fee c =
      (f : FvmAddress) × (n : ℕ) × (lib.to_fvm_address to ≡ ok f)
      × ((w : World) × ((fee_or_default lib node self fee w).0 ≡ ok n))
      × (c ≡ Manager.release f n)

  fee_or_default-Quiet : (fee : Option ℤ) → Quiet sent (fee_or_default lib node self fee)
  unfolding fee_or_default
  fee_or_default-Quiet (some f) = lift-Quiet sent _
  fee_or_default-Quiet none = honest.cross_msg_fee self.gateway_addr

  release-Sends :
      (gateway from to : Address) (amount : ℤ) (fee : Option ℤ)
      → Sends sent
          (ToGateway gateway from (Releases to fee) (to_u128 amount))
          (release lib node self gateway from to amount fee)
  unfolding release
  release-Sends gateway from to amount fee = checked gateway _ (
      lift-Sends sent (AtGateway from (Releases to fee) (to_u128 amount)) _ _ (λ value p.
        before-Sends sent (AtGateway from (Releases to fee) (to_u128 amount))
          (fee_or_default lib node self fee) _ (fee_or_default-Quiet fee)
          (λ w n q.
            signing lib self honest reads from (ok self.gateway_addr) (Releases to fee)
              (to_u128 amount) _
              (λ signer.
                lift-Sends sent (Signed signer (Releases to fee) (to_u128 amount)) _ _ (λ f r.
                  calling lib self honest reads (ok self.gateway_addr) (Releases to fee)
                    (to_u128 amount) signer _ _ refl (f, n, r, (w, q), refl)
                    (ok_or-eq-ok (to_u128 amount) _ value p)
                    (send_for_block-Sends honest lib self signer _))))))

  send_then :
      (signer : Signer) (request : Request FvmAddress)
      → Sends sent
          (Calls signer request)
          (call_with_premium_estimation node signer request >> pure tt)
  send_then signer request =
      after-Sends sent (Calls signer request) (call_with_premium_estimation node signer request) _
        (call-Sends honest signer request) (λ p. pure-Quiet sent tt)

  abbrev pub SendsMsg : CrossMsg Address → ContractCall FvmAddress → Type 0
  SendsMsg msg c =
      (m : ContractCrossMsg FvmAddress) × (to_contract_cross_msg lib msg ≡ ok m)
      × (c ≡ Manager.send_cross_message m)

  send_cross_message-Sends :
      (gateway from : Address) (msg : CrossMsg Address)
      → Sends sent
          (ToGateway gateway from (SendsMsg msg) (some 0))
          (send_cross_message lib node self gateway from msg)
  unfolding send_cross_message
  send_cross_message-Sends gateway from msg = checked gateway _ (
      signing lib self honest reads from (ok self.gateway_addr) (SendsMsg msg) (some 0) _ (λ signer.
        lift-Sends sent (Signed signer (SendsMsg msg) (some 0)) _ _ (λ m r.
          calling lib self honest reads (ok self.gateway_addr) (SendsMsg msg) (some 0) signer _ _
            refl (m, r, refl) refl (send_then signer _))))

  abbrev pub Propagates : List ℕ → ContractCall FvmAddress → Type 0
  Propagates key c = (c ≡ Manager.propagate key) × (length key ≡ 32)

  propagate_checked :
      (gateway from : Address) (key : List ℕ)
      → length key ≡ 32
      → Sends sent (ToGateway gateway from (Propagates key) (some 0)) (
          lift (ensure_same_gateway lib self gateway) >>= λ _.
          signer_of lib node self from >>= λ signer.
          call_with_premium_estimation node signer
            (record { to = self.gateway_addr; call = Manager.propagate key; value = 0 })
          >> pure tt)
  propagate_checked gateway from key h = checked gateway _ (
      signing lib self honest reads from (ok self.gateway_addr) (Propagates key) (some 0) _
        (λ signer.
          calling lib self honest reads (ok self.gateway_addr) (Propagates key) (some 0) signer _ _
            refl (refl, h) refl (send_then signer _)))

  propagate-Sends :
      (subnet : SubnetId Address) (gateway from : Address) (key : List ℕ)
      → Sends sent
          (ToGateway gateway from (Propagates key) (some 0))
          (propagate lib node self subnet gateway from key)
  unfolding propagate
  propagate-Sends subnet gateway from key w = elim (Bool-cases (length key == 32)) [
    | inl e ↦ rw e (propagate_checked gateway from key (ground arith) w)
    | inr e ↦ rw e (fail-Sends sent _ (ToGateway gateway from (Propagates key) (some 0)) _ w)
  ]

  -- Each method sends its transaction, or fails.
  abbrev pub GatewayMethodsSend :
      SubnetId Address
      → Address
      → Address
      → Address
      → ℤ
      → Option ℤ
      → List ℕ
      → CrossMsg Address
      → Type 0
  GatewayMethodsSend subnet gateway from to amount fee key msg =
      Sends sent (ToGateway gateway from (Funds subnet to) (to_u128 amount))
        (fund lib node self subnet gateway from to amount)
      × Sends sent (ToGateway gateway from (Releases to fee) (to_u128 amount))
          (release lib node self gateway from to amount fee)
      × Sends sent (ToGateway gateway from (Propagates key) (some 0))
          (propagate lib node self subnet gateway from key)
      × Sends sent (ToGateway gateway from (SendsMsg msg) (some 0))
          (send_cross_message lib node self gateway from msg)

  -- Where only `send` of the node sends, and a key store is only read: each method for a gateway sends
  -- one transaction, or fails and sends none. The gateway that was asked for is then a delegated
  -- address of the configured one, to which the transaction goes. It is signed with the key of the
  -- account and carries the method's call with its arguments converted. A value is not negative and
  -- below 2 ^ 128, and the key of a message has 32 bytes.
  pub gateway_methods-Sends :
      (subnet : SubnetId Address) (gateway from to : Address) (amount : ℤ) (fee : Option ℤ)
      (key : List ℕ) (msg : CrossMsg Address)
      → GatewayMethodsSend subnet gateway from to amount fee key msg
  gateway_methods-Sends subnet gateway from to amount fee key msg = (
    fund-Sends subnet gateway from to amount,
    release-Sends gateway from to amount fee,
    propagate-Sends subnet gateway from key,
    send_cross_message-Sends gateway from msg,
  )
