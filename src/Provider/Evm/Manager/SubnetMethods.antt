-- ===== src/Provider/Evm/Manager/SubnetMethods.antt =====
-- What each method for a subnet sends.
use ipc_client.Base.{ℕ, ◌≡◌, refl, some, List, ok, ok_or, nat_eq}
use ipc_client.Base.Exec.{Exec, ◌>>=◌, ◌>>◌, pure}
use ipc_client.Base.Int.{ℤ}
use ipc_client.Base.Text.{Text}
use ipc_client.Sdk.Fvm.{AddressLib}
use ipc_client.Sdk.SubnetId.{SubnetId}
use ipc_client.Sdk.Contract.{ContractLib}
use ipc_client.Provider.Evm.{contract_address_from_subnet}
use ipc_client.Provider.Evm.Manager as Manager
use ipc_client.Provider.Evm.Manager.{
  ContractCall, Request, Signer, Transaction, Node, EthSubnetManager, to_u128,
  call_with_premium_estimation, ensure_same_gateway, get_signer, is_valid_bootstrap_addr,
}
use ipc_client.Provider.Evm.Manager.Transactions.{
  send_and_wait, signer_of, contract_of, amount_or, join_subnet, pre_fund, pre_release, stake,
  unstake, leave_subnet, kill_subnet, claim_collateral, claim_relayer_reward, add_bootstrap,
  valid_bootstrap,
}
use ipc_client.Provider.Evm.Manager.Sends.{Sends, pure-Quiet, lift-Sends, after-Sends}
use ipc_client.Provider.Evm.Manager.Calls.{
  IsHonest, ReadsQuietly, ok_or-eq-ok, Calls, call-Sends, send_and_wait-Sends, send_for_block-Sends,
}
use ipc_client.Provider.Evm.Manager.Deliveries.{WithAmount, ToContract, to_contract}

module _ {Address FvmAddress Raw Pending World : Type 0} ⦃fvm : AddressLib Address⦄
    (lib : ContractLib Address FvmAddress) {node : Node FvmAddress Raw Pending World}
    (self : EthSubnetManager World) {sent : World → List (Transaction FvmAddress)}
    (honest : IsHonest node sent) (reads : ReadsQuietly sent self) where
  -- A call without an amount.
  plain_call :
      (subnet : SubnetId Address) (from : Address) (call : ContractCall FvmAddress)
      → Sends sent (ToContract lib self honest reads subnet from (λ c. c ≡ call) (some 0)) (
          contract_of lib node self subnet >>= λ address. signer_of lib node self from >>= λ signer.
          send_and_wait lib node self signer (record { to = address; call = call; value = 0 }))
  plain_call subnet from call =
      lift-Sends sent (ToContract lib self honest reads subnet from (λ c. c ≡ call) (some 0))
        (contract_address_from_subnet lib subnet) _
        (λ address e.
          to_contract lib self honest reads subnet from (λ c. c ≡ call) (some 0)
            (record { to = address; call = call; value = 0 }) (send_and_wait lib node self) e refl
            refl (λ signer. send_and_wait-Sends honest lib self signer _))

  -- An amount that goes with the call, converted before the contract is looked up.
  paid_call :
      {A : Type 0} (subnet : SubnetId Address) (from : Address) (message : Text) (amount : ℤ)
      (call : ContractCall FvmAddress) (deliver : Signer → Request FvmAddress → Exec Text World A)
      → ((signer : Signer) (request : Request FvmAddress)
          → Sends sent (Calls signer request) (deliver signer request))
      → Sends sent (ToContract lib self honest reads subnet from (λ c. c ≡ call) (to_u128 amount)) (
          amount_or lib node self message amount >>= λ value.
          contract_of lib node self subnet >>= λ address. signer_of lib node self from >>= λ signer.
          deliver signer (record { to = address; call = call; value = value }))
  paid_call subnet from message amount call deliver h =
      lift-Sends sent
        (ToContract lib self honest reads subnet from (λ c. c ≡ call) (to_u128 amount))
        (ok_or (to_u128 amount) message) _
        (λ value p.
          lift-Sends sent
            (ToContract lib self honest reads subnet from (λ c. c ≡ call) (to_u128 amount))
            (contract_address_from_subnet lib subnet) _
            (λ address e.
              to_contract lib self honest reads subnet from (λ c. c ≡ call) (to_u128 amount)
                (record { to = address; call = call; value = value }) deliver e refl
                (ok_or-eq-ok (to_u128 amount) message value p) (λ signer. h signer _)))

  leave_subnet-Sends :
      (subnet : SubnetId Address) (from : Address)
      → Sends sent
          (ToContract lib self honest reads subnet from (λ c. c ≡ Manager.leave) (some 0))
          (leave_subnet lib node self subnet from)
  unfolding leave_subnet
  leave_subnet-Sends subnet from = plain_call subnet from Manager.leave

  kill_subnet-Sends :
      (subnet : SubnetId Address) (from : Address)
      → Sends sent
          (ToContract lib self honest reads subnet from (λ c. c ≡ Manager.kill) (some 0))
          (kill_subnet lib node self subnet from)
  unfolding kill_subnet
  kill_subnet-Sends subnet from = plain_call subnet from Manager.kill

  claim_collateral-Sends :
      (subnet : SubnetId Address) (from : Address)
      → Sends sent
          (ToContract lib self honest reads subnet from (λ c. c ≡ Manager.claim) (some 0))
          (claim_collateral lib node self subnet from)
  unfolding claim_collateral
  claim_collateral-Sends subnet from = plain_call subnet from Manager.claim

  claim_relayer_reward-Sends :
      (subnet : SubnetId Address) (from : Address)
      → Sends sent
          (ToContract lib self honest reads subnet from
            (λ c. c ≡ Manager.claim_reward_for_relayer)
            (some 0))
          (claim_relayer_reward lib node self subnet from)
  unfolding claim_relayer_reward
  claim_relayer_reward-Sends subnet from = plain_call subnet from Manager.claim_reward_for_relayer

  join_subnet-Sends :
      (subnet : SubnetId Address) (from : Address) (collateral : ℤ) (pub_key : List ℕ)
      → Sends sent
          (ToContract lib self honest reads subnet from
            (λ c. c ≡ Manager.join pub_key)
            (to_u128 collateral))
          (join_subnet lib node self subnet from collateral pub_key)
  unfolding join_subnet
  join_subnet-Sends subnet from collateral pub_key =
      paid_call subnet from _ collateral (Manager.join pub_key) _
        (send_for_block-Sends honest lib self)

  stake-Sends :
      (subnet : SubnetId Address) (from : Address) (collateral : ℤ)
      → Sends sent
          (ToContract lib self honest reads subnet from
            (λ c. c ≡ Manager.stake)
            (to_u128 collateral))
          (stake lib node self subnet from collateral)
  unfolding stake
  stake-Sends subnet from collateral =
      paid_call subnet from _ collateral Manager.stake _ (send_and_wait-Sends honest lib self)

  pre_fund-Sends :
      (subnet : SubnetId Address) (from : Address) (balance : ℤ)
      → Sends sent
          (ToContract lib self honest reads subnet from
            (λ c. c ≡ Manager.pre_fund)
            (to_u128 balance))
          (pre_fund lib node self subnet from balance)
  unfolding pre_fund
  pre_fund-Sends subnet from balance =
      paid_call subnet from _ balance Manager.pre_fund
        (λ signer request. call_with_premium_estimation node signer request >> pure tt)
        (λ signer request.
          after-Sends sent (Calls signer request) _ _ (call-Sends honest signer request)
            (λ p. pure-Quiet sent tt))

  -- The amount becomes the argument of the call.
  argument_call :
      (subnet : SubnetId Address) (from : Address) (amount : ℤ) (call : ℕ → ContractCall FvmAddress)
      (message : Text) (value : ℕ) (address : List ℕ)
      → contract_address_from_subnet lib subnet ≡ ok address
      → ok_or (to_u128 amount) message ≡ ok value
      → Sends sent
          (ToContract lib self honest reads subnet from
            (WithAmount lib node self amount call)
            (some 0))
          (signer_of lib node self from >>= λ signer.
            send_and_wait lib node self signer
              (record { to = address; call = call value; value = 0 }))
  argument_call subnet from amount call message value address e p =
      to_contract lib self honest reads subnet from (WithAmount lib node self amount call) (some 0)
        (record { to = address; call = call value; value = 0 }) (send_and_wait lib node self) e
        (value, ok_or-eq-ok (to_u128 amount) message value p, refl) refl
        (λ signer. send_and_wait-Sends honest lib self signer _)

  unstake-Sends :
      (subnet : SubnetId Address) (from : Address) (collateral : ℤ)
      → Sends sent
          (ToContract lib self honest reads subnet from
            (WithAmount lib node self collateral Manager.unstake)
            (some 0))
          (unstake lib node self subnet from collateral)
  unfolding unstake
  unstake-Sends subnet from collateral =
      lift-Sends sent
        (ToContract lib self honest reads subnet from
          (WithAmount lib node self collateral Manager.unstake) (some 0))
        _ _
        (λ value p.
          lift-Sends sent
            (ToContract lib self honest reads subnet from
              (WithAmount lib node self collateral Manager.unstake) (some 0))
            _ _
            (λ address e. argument_call subnet from collateral Manager.unstake _ value address e p))

  pre_release-Sends :
      (subnet : SubnetId Address) (from : Address) (amount : ℤ)
      → Sends sent
          (ToContract lib self honest reads subnet from
            (WithAmount lib node self amount Manager.pre_release)
            (some 0))
          (pre_release lib node self subnet from amount)
  unfolding pre_release
  pre_release-Sends subnet from amount =
      lift-Sends sent
        (ToContract lib self honest reads subnet from
          (WithAmount lib node self amount Manager.pre_release) (some 0))
        _ _
        (λ address e.
          lift-Sends sent
            (ToContract lib self honest reads subnet from
              (WithAmount lib node self amount Manager.pre_release) (some 0))
            _ _
            (λ value p. argument_call subnet from amount Manager.pre_release _ value address e p))

  abbrev pub Bootstrap : Text → ContractCall FvmAddress → Type 0
  Bootstrap endpoint c =
      (c ≡ Manager.add_bootstrap_node endpoint) × (valid_bootstrap lib node self endpoint ≡ ok tt)

  add_bootstrap-Sends :
      (subnet : SubnetId Address) (from : Address) (endpoint : Text)
      → Sends sent
          (ToContract lib self honest reads subnet from (Bootstrap endpoint) (some 0))
          (add_bootstrap lib node self subnet from endpoint)
  unfolding add_bootstrap
  add_bootstrap-Sends subnet from endpoint =
      lift-Sends sent (ToContract lib self honest reads subnet from (Bootstrap endpoint) (some 0)) _
        _
        (λ address e.
          lift-Sends sent
            (ToContract lib self honest reads subnet from (Bootstrap endpoint) (some 0)) _ _
            (λ checked p.
              to_contract lib self honest reads subnet from (Bootstrap endpoint) (some 0)
                (record { to = address; call = Manager.add_bootstrap_node endpoint; value = 0 })
                (send_and_wait lib node self) e (refl, p) refl
                (λ signer. send_and_wait-Sends honest lib self signer _)))

  -- Each method sends its transaction, or fails.
  abbrev pub SubnetMethodsSend : SubnetId Address → Address → ℤ → List ℕ → Text → Type 0
  SubnetMethodsSend subnet from amount pub_key endpoint =
      Sends sent
        (ToContract lib self honest reads subnet from (λ c. c ≡ Manager.join pub_key)
          (to_u128 amount))
        (join_subnet lib node self subnet from amount pub_key)
      × Sends sent
          (ToContract lib self honest reads subnet from (λ c. c ≡ Manager.pre_fund)
            (to_u128 amount))
          (pre_fund lib node self subnet from amount)
      × Sends sent
          (ToContract lib self honest reads subnet from
            (WithAmount lib node self amount Manager.pre_release) (some 0))
          (pre_release lib node self subnet from amount)
      × Sends sent
          (ToContract lib self honest reads subnet from (λ c. c ≡ Manager.stake) (to_u128 amount))
          (stake lib node self subnet from amount)
      × Sends sent
          (ToContract lib self honest reads subnet from
            (WithAmount lib node self amount Manager.unstake) (some 0))
          (unstake lib node self subnet from amount)
      × Sends sent (ToContract lib self honest reads subnet from (λ c. c ≡ Manager.leave) (some 0))
          (leave_subnet lib node self subnet from)
      × Sends sent (ToContract lib self honest reads subnet from (λ c. c ≡ Manager.kill) (some 0))
          (kill_subnet lib node self subnet from)
      × Sends sent (ToContract lib self honest reads subnet from (λ c. c ≡ Manager.claim) (some 0))
          (claim_collateral lib node self subnet from)
      × Sends sent
          (ToContract lib self honest reads subnet from (λ c. c ≡ Manager.claim_reward_for_relayer)
            (some 0))
          (claim_relayer_reward lib node self subnet from)
      × Sends sent (ToContract lib self honest reads subnet from (Bootstrap endpoint) (some 0))
          (add_bootstrap lib node self subnet from endpoint)

  -- Where only `send` of the node sends, and a key store is only read: each method for a subnet sends
  -- one transaction, or fails and sends none. The transaction is signed with the key of the account,
  -- goes to the subnet's contract, and carries the method's call. The amount is its value or the
  -- call's argument, and is not negative and below 2 ^ 128; an endpoint has the right form.
  pub subnet_methods-Sends :
      (subnet : SubnetId Address) (from : Address) (amount : ℤ) (pub_key : List ℕ) (endpoint : Text)
      → SubnetMethodsSend subnet from amount pub_key endpoint
  subnet_methods-Sends subnet from amount pub_key endpoint = (
    join_subnet-Sends subnet from amount pub_key,
    pre_fund-Sends subnet from amount,
    pre_release-Sends subnet from amount,
    stake-Sends subnet from amount,
    unstake-Sends subnet from amount,
    leave_subnet-Sends subnet from,
    kill_subnet-Sends subnet from,
    claim_collateral-Sends subnet from,
    claim_relayer_reward-Sends subnet from,
    add_bootstrap-Sends subnet from endpoint,
  )
