-- ===== src/Provider/Client/Transactions.antt =====
-- ipc/provider/src/lib.rs: the methods of the provider that send a message, each from an account
-- that `check_sender` chooses. `propagate` and `send_cross_message` are `todo!()`.
use ipc_client.Base.{ℕ, Option, List, panic, Eq}
use ipc_client.Base.Exec.{Exec, ◌>>=◌}
use ipc_client.Base.Int.{ℤ}
use ipc_client.Base.Text.{Text, codes}
use ipc_client.Sdk.Cross.{CrossMsg}
use ipc_client.Sdk.SubnetId.{SubnetId}
use ipc_client.Provider.Config.{gateway_addr}
use ipc_client.Provider.SubnetManager.{Payloads, mir}
use ipc_client.Provider.Client.{
  Connector, State, on_world, connection_or, parent_connection, check_sender, unwrap_or,
}

module _ {Address Eth World : Type 0} {P : Payloads} ⦃e : Eq Address⦄
    (connector : Connector Address Eth World P) where
  -- The methods below act on a provider and its world.
  abbrev Method : Type 0 → Type 0
  Method A = Exec Text (State connector) A

  unfoldable pub create_subnet :
      Option Address → SubnetId Address → ℕ → ℤ → ℤ → ℕ → ℤ → Method Address
  unfolding on_world
  create_subnet from parent min_validators min_validator_stake bottomup_check_period
        active_validators_limit min_cross_msg_fee =
      do
        conn ← connection_or connector (codes "target parent subnet not found") parent
        sender ← check_sender connector conn.subnet from
        on_world connector (
            conn.manager.create_subnet sender (record {
              parent = parent;
              ipc_gateway_addr = gateway_addr conn.subnet;
              consensus = mir;
              min_validators = min_validators;
              min_validator_stake = min_validator_stake;
              bottomup_check_period = bottomup_check_period;
              active_validators_limit = active_validators_limit;
              min_cross_msg_fee = min_cross_msg_fee;
            }))

  unfoldable pub join_subnet : SubnetId Address → Option Address → ℤ → List ℕ → Method ℤ
  unfolding on_world
  join_subnet subnet from collateral public_key = do
    conn ← parent_connection connector (codes "target parent subnet not found") subnet
    sender ← check_sender connector conn.subnet from
    on_world connector (conn.manager.join_subnet subnet sender collateral public_key)

  unfoldable pub pre_fund : SubnetId Address → Option Address → ℤ → Method (Unit {0})
  unfolding on_world
  pre_fund subnet from balance = do
    conn ← parent_connection connector (codes "target parent subnet not found") subnet
    sender ← check_sender connector conn.subnet from
    on_world connector (conn.manager.pre_fund subnet sender balance)

  unfoldable pub pre_release : SubnetId Address → Option Address → ℤ → Method (Unit {0})
  unfolding on_world
  pre_release subnet from amount = do
    conn ← parent_connection connector (codes "target parent subnet not found") subnet
    sender ← check_sender connector conn.subnet from
    on_world connector (conn.manager.pre_release subnet sender amount)

  unfoldable pub stake : SubnetId Address → Option Address → ℤ → Method (Unit {0})
  unfolding on_world
  stake subnet from collateral = do
    conn ← parent_connection connector (codes "target parent subnet not found") subnet
    sender ← check_sender connector conn.subnet from
    on_world connector (conn.manager.stake subnet sender collateral)

  unfoldable pub unstake : SubnetId Address → Option Address → ℤ → Method (Unit {0})
  unfolding on_world
  unstake subnet from collateral = do
    conn ← parent_connection connector (codes "target parent subnet not found") subnet
    sender ← check_sender connector conn.subnet from
    on_world connector (conn.manager.unstake subnet sender collateral)

  unfoldable pub leave_subnet : SubnetId Address → Option Address → Method (Unit {0})
  unfolding on_world
  leave_subnet subnet from = do
    conn ← parent_connection connector (codes "target parent subnet not found") subnet
    sender ← check_sender connector conn.subnet from
    on_world connector (conn.manager.leave_subnet subnet sender)

  unfoldable pub claim_collateral : SubnetId Address → Option Address → Method (Unit {0})
  unfolding on_world
  claim_collateral subnet from = do
    conn ← parent_connection connector (codes "target parent subnet not found") subnet
    sender ← check_sender connector conn.subnet from
    on_world connector (conn.manager.claim_collateral subnet sender)

  unfoldable pub claim_relayer_reward : SubnetId Address → Option Address → Method (Unit {0})
  unfolding on_world
  claim_relayer_reward subnet from = do
    conn ← parent_connection connector (codes "target parent subnet not found") subnet
    sender ← check_sender connector conn.subnet from
    on_world connector (conn.manager.claim_relayer_reward subnet sender)

  unfoldable pub kill_subnet : SubnetId Address → Option Address → Method (Unit {0})
  unfolding on_world
  kill_subnet subnet from = do
    conn ← parent_connection connector (codes "target parent subnet not found") subnet
    sender ← check_sender connector conn.subnet from
    on_world connector (conn.manager.kill_subnet subnet sender)

  unfoldable pub fund :
      SubnetId Address → Option Address → Option Address → Option Address → ℤ → Method ℤ
  unfolding on_world
  fund subnet gateway from to amount = do
    conn ← parent_connection connector (codes "target parent subnet not found") subnet
    sender ← check_sender connector conn.subnet from
    on_world connector (
        conn.manager.fund subnet (unwrap_or gateway (gateway_addr conn.subnet)) sender
          (unwrap_or to sender) amount)

  unfoldable pub release :
      SubnetId Address → Option Address → Option Address → Option Address → ℤ → Option ℤ → Method ℤ
  unfolding on_world
  release subnet gateway from to amount fee = do
    conn ← connection_or connector (codes "target subnet not found") subnet
    sender ← check_sender connector conn.subnet from
    on_world connector (
        conn.manager.release (unwrap_or gateway (gateway_addr conn.subnet)) sender
          (unwrap_or to sender) amount fee)

  abbrev pub propagate : SubnetId Address → Address → Address → List ℕ → Method (Unit {0})
  propagate subnet gateway from postbox_msg_key s = (panic, s)

  abbrev pub send_cross_message : Address → Address → CrossMsg Address → Method (Unit {0})
  send_cross_message gateway from cross_msg s = (panic, s)

  unfoldable pub send_value : SubnetId Address → Option Address → Address → ℤ → Method (Unit {0})
  unfolding on_world
  send_value subnet from to amount = do
    conn ← connection_or connector (codes "target subnet not found") subnet
    sender ← check_sender connector conn.subnet from
    on_world connector (conn.manager.send_value sender to amount)

  unfoldable pub add_bootstrap : SubnetId Address → Option Address → Text → Method (Unit {0})
  unfolding on_world
  add_bootstrap subnet from endpoint = do
    conn ← parent_connection connector (codes "target parent subnet not found") subnet
    sender ← check_sender connector conn.subnet from
    on_world connector (conn.manager.add_bootstrap subnet sender endpoint)
