-- ===== src/Provider/Client/Sender.antt =====
-- The account a provider sends from, and what its methods leave as it was.
use ipc_client.Base.{
  ℕ, List, arith, ◌≡◌, refl, ap, ◌∙◌, Option, none, some, Result, ok, err, panic, Eq, Option-cases,
  inl, inr,
}
use ipc_client.Base.Exec.{Exec, ◌>>=◌, continue}
use ipc_client.Base.Int.{ℤ}
use ipc_client.Base.Text.{Text, codes}
use ipc_client.Sdk.SubnetId.{SubnetId, parent}
use ipc_client.Provider.Config.{Subnet}
use ipc_client.Provider.SubnetManager.{Payloads}
use ipc_client.Provider.Client.{
  Connection, Connector, State, connection, connection_or, parent_connection, default_sender,
  check_sender,
}
use ipc_client.Provider.Client.Transactions.{
  join_subnet, pre_fund, pre_release, stake, unstake, leave_subnet, claim_collateral,
  claim_relayer_reward, kill_subnet,
}

module _ {Address Eth World : Type 0} {P : Payloads} ⦃e : Eq Address⦄
    (connector : Connector Address Eth World P) where
  -- An account that was chosen without a wish of the caller is remembered: the next choice
  -- without a wish, for whichever subnet, gives the same account and changes nothing.
  pub check_sender-again :
      (subnet next : Subnet Address) (s : State connector) (addr : Address)
      → (check_sender connector subnet none s).0 ≡ ok addr
      → check_sender connector next none (check_sender connector subnet none s).1
        ≡ (ok addr, (check_sender connector subnet none s).1)
  unfolding check_sender default_sender
  check_sender-again subnet next (self, w) addr h = elim (Option-cases self.sender) [
    | inr (a, q) ↦ ground arith
    | inl q ↦ elim (Option-cases self.evm_keystore) [
      | inr (wallet, k) ↦ ground arith
      | inl k ↦ ground arith
    ]
  ]

  connection_or-state :
      (message : Text) (subnet : SubnetId Address) (s : State connector)
      → (connection_or connector message subnet s).1 ≡ s
  unfolding connection_or
  connection_or-state message subnet s = elim (Option-cases (connection connector s.0 subnet)) [
    | inl q ↦ rw (q, connection_or) refl
    | inr (conn, q) ↦ rw (q, connection_or) refl
  ]

  -- Looking up a connection changes nothing.
  pub parent_connection-state :
      (message : Text) (subnet : SubnetId Address) (s : State connector)
      → (parent_connection connector message subnet s).1 ≡ s
  unfolding parent_connection
  parent_connection-state message subnet s = elim (Option-cases (parent subnet)) [
    | inl q ↦ rw (q, parent_connection) refl
    | inr (p, q) ↦ rw (q, parent_connection) (connection_or-state message p s)
  ]

  -- The method does without a wish what it does when the caller wishes for `a`.
  abbrev pub SendsAs :
      {A : Type 0}
      → Address
      → (Option Address → Exec Text (State connector) A)
      → State connector
      → Type 0
  SendsAs a m s = m none s ≡ m (some a) s

  check_sender-none :
      (subnet : Subnet Address) (a : Address) (s : State connector)
      → s.0.sender ≡ some a
      → check_sender connector subnet none s ≡ (ok a, s)
  unfolding check_sender
  check_sender-none subnet a s h = rw h refl

  sends_after :
      {A : Type 0} (r : Result Text (Connection Address World P))
      (go : Connection Address World P → Address → Exec Text (State connector) A) (a : Address)
      (t : State connector)
      → t.0.sender ≡ some a
      → SendsAs a
          (λ from. continue r (λ conn. check_sender connector conn.subnet from >>= go conn))
          t
  unfolding ◌>>=◌ check_sender
  sends_after (ok conn) go a t h = rw (check_sender-none conn.subnet a t h) refl
  sends_after (err m) go a t h = refl
  sends_after panic go a t h = refl

  -- A method that looks up a connection, chooses the sender and goes on.
  pub sends_as :
      {A : Type 0} (find : Exec Text (State connector) (Connection Address World P))
      (go : Connection Address World P → Address → Exec Text (State connector) A) (a : Address)
      (s : State connector)
      → (find s).1 ≡ s
      → s.0.sender ≡ some a
      → SendsAs a (λ from. find >>= λ conn. check_sender connector conn.subnet from >>= go conn) s
  unfolding ◌>>=◌
  sends_as find go a s kept h =
      sends_after (find s).0 go a (find s).1 (ap (λ t. t.0.sender) kept ∙ h)

  abbrev parent_found :
      Text → SubnetId Address → Exec Text (State connector) (Connection Address World P)
  parent_found = parent_connection connector

  -- With a sender in the provider, a method that funds ahead, moves collateral, joins, leaves or
  -- kills a subnet does the same without a wish for an account as with the wish for that sender.
  pub transactions-SendsAs :
      (subnet : SubnetId Address) (amount : ℤ) (key : List ℕ) (a : Address) (s : State connector)
      → s.0.sender ≡ some a
      → SendsAs a (λ from. join_subnet connector subnet from amount key) s
        × SendsAs a (λ from. pre_fund connector subnet from amount) s
        × SendsAs a (λ from. pre_release connector subnet from amount) s
        × SendsAs a (λ from. stake connector subnet from amount) s
        × SendsAs a (λ from. unstake connector subnet from amount) s
        × SendsAs a (λ from. leave_subnet connector subnet from) s
        × SendsAs a (λ from. claim_collateral connector subnet from) s
        × SendsAs a (λ from. claim_relayer_reward connector subnet from) s
        × SendsAs a (λ from. kill_subnet connector subnet from) s
  unfolding join_subnet pre_fund pre_release stake unstake leave_subnet claim_collateral
      claim_relayer_reward kill_subnet
  transactions-SendsAs subnet amount key a s h =
      let kept = parent_connection-state (codes "target parent subnet not found") subnet s in
      let found = parent_found (codes "target parent subnet not found") subnet in
      (
        sends_as found _ a s kept h,
        sends_as found _ a s kept h,
        sends_as found _ a s kept h,
        sends_as found _ a s kept h,
        sends_as found _ a s kept h,
        sends_as found _ a s kept h,
        sends_as found _ a s kept h,
        sends_as found _ a s kept h,
        sends_as found _ a s kept h,
      )
