-- ===== src/Provider/Evm/Manager/Calls.antt =====
-- A call sends one transaction at most, and signing sends none.
use ipc_client.Base.{ℕ, ◌≡◌, ap, Option, none, some, List, ok, ok_or, inl, inr}
use ipc_client.Base.Exec.{Exec, lift}
use ipc_client.Base.Text.{Text}
use ipc_client.Identity.Evm.{KeyInfo}
use ipc_client.Sdk.Contract.{ContractLib}
use ipc_client.Provider.Evm.Manager.{
  Request, Signer, Transaction, Node, EthSubnetManager, gas_price, premium_estimation,
  call_with_premium_estimation, get_signer,
}
use ipc_client.Provider.Evm.Manager.Transactions.{send_and_wait, send_for_block}
use ipc_client.Provider.Evm.Manager.Sends.{
  Quiet, Sends, lift-Quiet, pure-Quiet, lift-bind-Quiet, bind-Quiet, before-Sends, after-Sends,
}
use ipc_client.Sdk.Fvm.{AddressLib}

-- Of what has been sent through the node: only `send` adds to it, and does where it succeeds.
pub record IsHonest {FvmAddress Raw Pending World : Type 0}
    (node : Node FvmAddress Raw Pending World) (sent : World → List (Transaction FvmAddress))
    : Type 0 where
  pub latest_block : Quiet sent node.latest_block
  pub fee_history : Quiet sent node.fee_history
  pub receipt : (p : Pending) (n : ℕ) → Quiet sent (node.receipt p n)
  pub wait : (p : Pending) → Quiet sent (node.wait p)
  pub cross_msg_fee : (a : List ℕ) → Quiet sent (node.cross_msg_fee a)
  pub send : (t : Transaction FvmAddress) → Sends sent (λ u. u ≡ t) (node.send t)

-- Reading the manager's key store sends nothing.
abbrev pub ReadsQuietly :
    {FvmAddress World : Type 0}
    → (World → List (Transaction FvmAddress))
    → EthSubnetManager World
    → Type 0
ReadsQuietly {World} sent self =
    (keystore : List ℕ → Exec Text World (Option KeyInfo))
    → self.keystore ≡ some keystore
    → (a : List ℕ) → Quiet sent (keystore a)

pub ok_or-eq-ok : {A : Type 0} (o : Option A) (m : Text) (a : A) → ok_or o m ≡ ok a → o ≡ some a
ok_or-eq-ok (some b) m a h = cc
ok_or-eq-ok none m a h = absurd cc

-- A call with its signer and its request.
abbrev pub Calls :
    {FvmAddress : Type 0} → Signer → Request FvmAddress → Transaction FvmAddress → Type 0
Calls signer request t = (t.signer ≡ signer) × (t.request ≡ request)

module _ {FvmAddress Raw Pending World : Type 0} {node : Node FvmAddress Raw Pending World}
    {sent : World → List (Transaction FvmAddress)} (honest : IsHonest node sent) where
  pub premium_estimation-Quiet : Quiet sent (premium_estimation node)
  unfolding premium_estimation
  premium_estimation-Quiet = bind-Quiet sent node.latest_block _ honest.latest_block (λ latest.
      bind-Quiet sent (lift _) _ (lift-Quiet sent _) (λ block.
        bind-Quiet sent (lift _) _ (lift-Quiet sent _) (λ base.
          bind-Quiet sent node.fee_history _ honest.fee_history (λ rewards.
            bind-Quiet sent (lift _) _ (lift-Quiet sent _) (λ priority.
              bind-Quiet sent (lift _) _ (lift-Quiet sent _) (λ potential.
                bind-Quiet sent (lift _) _ (lift-Quiet sent _) (λ most. pure-Quiet sent _)))))))

  its_transaction :
      (t : Transaction FvmAddress) → Sends sent (Calls t.signer t.request) (node.send t)
  its_transaction t w = elim (honest.send t w) [
    | inl quiet ↦ inl quiet
    | inr (u, e, s) ↦ inr (u, (ap (λ x. x.signer) e, ap (λ x. x.request) e), s)
  ]

  pub call-Sends :
      (signer : Signer) (request : Request FvmAddress)
      → Sends sent (Calls signer request) (call_with_premium_estimation node signer request)
  unfolding call_with_premium_estimation
  call-Sends signer request =
      before-Sends sent (Calls signer request) (premium_estimation node) _ premium_estimation-Quiet
        (λ w fees q v.
          its_transaction (record { signer = signer; request = request; fees = gas_price fees.0 })
            v)

  pub send_and_wait-Sends :
      {Address : Type 0} ⦃fvm : AddressLib Address⦄ (lib : ContractLib Address FvmAddress)
      (self : EthSubnetManager World) (signer : Signer) (request : Request FvmAddress)
      → Sends sent (Calls signer request) (send_and_wait lib node self signer request)
  unfolding send_and_wait
  send_and_wait-Sends lib self signer request =
      after-Sends sent (Calls signer request) _ _ (call-Sends signer request) honest.wait

  pub send_for_block-Sends :
      {Address : Type 0} ⦃fvm : AddressLib Address⦄ (lib : ContractLib Address FvmAddress)
      (self : EthSubnetManager World) (signer : Signer) (request : Request FvmAddress)
      → Sends sent (Calls signer request) (send_for_block lib node self signer request)
  unfolding send_for_block
  send_for_block-Sends lib self signer request =
      after-Sends sent (Calls signer request) _ _ (call-Sends signer request)
        (λ p. bind-Quiet sent _ _ (honest.receipt p _) (λ r. lift-Quiet sent _))

  pub get_signer-Quiet :
      {Address : Type 0} (lib : ContractLib Address FvmAddress) (self : EthSubnetManager World)
      (from : Address)
      → ReadsQuietly sent self
      → Quiet sent (get_signer lib node self from)
  unfolding get_signer
  get_signer-Quiet lib self from h = lift-bind-Quiet sent _ _ (λ a p.
      lift-bind-Quiet sent _ _ (λ keystore q.
        bind-Quiet sent (keystore a) _ (h keystore (ok_or-eq-ok self.keystore _ keystore q) a)
          (λ found.
            lift-bind-Quiet sent _ _
              (λ key r. lift-bind-Quiet sent _ _ (λ bytes t. pure-Quiet sent _)))))
