-- ===== src/Cli/Subnets.antt =====
-- ipc/cli/src/commands/subnet: the commands about a subnet. `opening` opens the provider.
use ipc_client.Base.{ℕ, Bool, Option, none, some, List, Eq, if◌then◌else◌}
use ipc_client.Base.Exec.{Exec, ◌>>=◌, ◌>>◌, lift, pure}
use ipc_client.Base.Int.{ℤ}
use ipc_client.Base.Map.{Map}
use ipc_client.Base.Text.{Text, codes}
use ipc_client.Sdk.Fvm.{AddressLib}
use ipc_client.Sdk.SubnetId.{SubnetId}
use ipc_client.Provider.Config.{rpc_http}
use ipc_client.Provider.SubnetManager.{Payloads}
use ipc_client.Provider.Client.{IpcProvider, Connector, on_world, connection_or, unwrap_or}
use ipc_client.Provider.Client.Transactions as Transactions
use ipc_client.Provider.Client.Queries as Queries
use ipc_client.Cli.{
  ArgumentLib, f64_to_token_amount, require_fil_addr_from_str, optional_addr, fil_addr,
  subnet_named, with_provider, printed,
}

pub record CreateSubnetArgs (Float : Type 0) : Type 0 where
  pub from : Option Text
  pub parent : Text
  pub min_validator_stake : Float
  pub min_validators : ℕ
  pub bottomup_check_period : ℤ
  pub active_validators_limit : Option ℕ
  pub min_cross_msg_fee : Float

pub record JoinSubnetArgs (Float : Type 0) : Type 0 where
  pub from : Option Text
  pub subnet : Text
  pub collateral : Float
  pub public_key : Text
  pub initial_balance : Option Float

-- The arguments of the commands to stake and to unstake.
pub record StakeSubnetArgs (Float : Type 0) : Type 0 where
  pub from : Option Text
  pub subnet : Text
  pub collateral : Float

-- The arguments of the commands to leave a subnet and to kill it.
pub record LeaveSubnetArgs : Type 0 where
  pub from : Option Text
  pub subnet : Text

pub record ClaimArgs : Type 0 where
  pub from : Option Text
  pub subnet : Text
  pub rewards : Bool

pub record SendValueArgs (Float : Type 0) : Type 0 where
  pub from : Option Text
  pub to : Text
  pub subnet : Text
  pub amount : Float

pub record AddBootstrapArgs : Type 0 where
  pub from : Option Text
  pub subnet : Text
  pub endpoint : Text

pub record ListSubnetsArgs : Type 0 where
  pub gateway_address : Option Text
  pub subnet : Text

pub record ValidatorInfoArgs : Type 0 where
  pub subnet : Text
  pub validator : Text

pub data SubnetCommand (Float : Type 0) : Type 0 where
  create_subnet : CreateSubnetArgs Float → SubnetCommand Float
  list : ListSubnetsArgs → SubnetCommand Float
  join_subnet : JoinSubnetArgs Float → SubnetCommand Float
  rpc_subnet : Text → SubnetCommand Float
  chain_id_subnet : Text → SubnetCommand Float
  leave_subnet kill_subnet : LeaveSubnetArgs → SubnetCommand Float
  send : SendValueArgs Float → SubnetCommand Float
  stake_subnet unstake_subnet : StakeSubnetArgs Float → SubnetCommand Float
  claim_subnet : ClaimArgs → SubnetCommand Float
  add : AddBootstrapArgs → SubnetCommand Float
  list_bootstrap epoch : Text → SubnetCommand Float
  get_validator : ValidatorInfoArgs → SubnetCommand Float

abbrev pub default_active_validators : ℕ
default_active_validators = 100

module _ {Address Eth World : Type 0} {P : Payloads} ⦃e : Eq Address⦄ ⦃fvm : AddressLib Address⦄
    (args : ArgumentLib Address) (connector : Connector Address Eth World P)
    (opening : Exec Text World (IpcProvider Address Eth World)) where
  -- The actor's address, of which `create` gives the text.
  unfoldable pub create : CreateSubnetArgs args.Float → Exec Text World Text
  unfolding with_provider
  create arguments = with_provider connector opening (do
    parent ← lift (subnet_named args arguments.parent)
    from ← lift (optional_addr args arguments.from)
    stake ← lift (f64_to_token_amount args arguments.min_validator_stake)
    fee ← lift (f64_to_token_amount args arguments.min_cross_msg_fee)
    addr ←
        Transactions.create_subnet connector from parent arguments.min_validators stake
          arguments.bottomup_check_period
          (unwrap_or arguments.active_validators_limit default_active_validators) fee
    pure (fvm.to_string addr))

  -- The balance of a validator who asks for one is funded first.
  unfoldable pub join : JoinSubnetArgs args.Float → Exec Text World ℤ
  unfolding with_provider
  join arguments = with_provider connector opening (do
    subnet ← lift (subnet_named args arguments.subnet)
    from ← lift (optional_addr args arguments.from)
    public_key ← lift (args.hex_decode arguments.public_key)
    elim arguments.initial_balance [
      | some initial_balance ↦ (do
        balance ← lift (f64_to_token_amount args initial_balance)
        Transactions.pre_fund connector subnet from balance)
      | none ↦ pure tt
    ]
    collateral ← lift (f64_to_token_amount args arguments.collateral)
    Transactions.join_subnet connector subnet from collateral public_key)

  unfoldable pub stake : StakeSubnetArgs args.Float → Exec Text World (Unit {0})
  unfolding with_provider
  stake arguments = with_provider connector opening (do
    subnet ← lift (subnet_named args arguments.subnet)
    from ← lift (optional_addr args arguments.from)
    collateral ← lift (f64_to_token_amount args arguments.collateral)
    Transactions.stake connector subnet from collateral)

  unfoldable pub unstake : StakeSubnetArgs args.Float → Exec Text World (Unit {0})
  unfolding with_provider
  unstake arguments = with_provider connector opening (do
    subnet ← lift (subnet_named args arguments.subnet)
    from ← lift (optional_addr args arguments.from)
    collateral ← lift (f64_to_token_amount args arguments.collateral)
    Transactions.unstake connector subnet from collateral)

  unfoldable pub leave : LeaveSubnetArgs → Exec Text World (Unit {0})
  unfolding with_provider
  leave arguments = with_provider connector opening (do
    subnet ← lift (subnet_named args arguments.subnet)
    from ← lift (optional_addr args arguments.from)
    Transactions.leave_subnet connector subnet from)

  unfoldable pub kill : LeaveSubnetArgs → Exec Text World (Unit {0})
  unfolding with_provider
  kill arguments = with_provider connector opening (do
    subnet ← lift (subnet_named args arguments.subnet)
    from ← lift (optional_addr args arguments.from)
    Transactions.kill_subnet connector subnet from)

  unfoldable pub claim : ClaimArgs → Exec Text World (Unit {0})
  unfolding with_provider
  claim arguments = with_provider connector opening (do
    subnet ← lift (subnet_named args arguments.subnet)
    from ← lift (optional_addr args arguments.from)
    if arguments.rewards
        then Transactions.claim_relayer_reward connector subnet from
        else Transactions.claim_collateral connector subnet from)

  unfoldable pub send_value : SendValueArgs args.Float → Exec Text World (Unit {0})
  unfolding with_provider
  send_value arguments = with_provider connector opening (do
    subnet ← lift (subnet_named args arguments.subnet)
    from ← lift (optional_addr args arguments.from)
    to ← lift (require_fil_addr_from_str args arguments.to)
    amount ← lift (f64_to_token_amount args arguments.amount)
    Transactions.send_value connector subnet from to amount)

  unfoldable pub add_bootstrap : AddBootstrapArgs → Exec Text World (Unit {0})
  unfolding with_provider
  add_bootstrap arguments = with_provider connector opening (do
    subnet ← lift (subnet_named args arguments.subnet)
    from ← lift (optional_addr args arguments.from)
    Transactions.add_bootstrap connector subnet from arguments.endpoint)

  unfoldable pub list_subnets :
      ListSubnetsArgs → Exec Text World (Map (SubnetId Address) P.SubnetInfo)
  unfolding with_provider
  list_subnets arguments = with_provider connector opening (do
    subnet ← lift (subnet_named args arguments.subnet)
    gateway_addr ← lift (optional_addr args arguments.gateway_address)
    Queries.list_child_subnets connector gateway_addr subnet)

  unfoldable pub list_bootstraps : Text → Exec Text World (List Text)
  unfolding with_provider
  list_bootstraps arguments = with_provider connector opening (do
    subnet ← lift (subnet_named args arguments)
    Queries.list_bootstrap_nodes connector subnet)

  unfoldable pub genesis_epoch : Text → Exec Text World ℤ
  unfolding with_provider
  genesis_epoch arguments =
      with_provider connector opening
        (do subnet ← lift (subnet_named args arguments); Queries.genesis_epoch connector subnet)

  unfoldable pub validator_info : ValidatorInfoArgs → Exec Text World P.ValidatorInfo
  unfolding with_provider
  validator_info arguments = with_provider connector opening (do
    subnet ← lift (subnet_named args arguments.subnet)
    validator ← lift (fil_addr args arguments.validator)
    Queries.get_validator_info connector subnet validator)

  -- The URL of the subnet's node and the chain's identifier.
  unfoldable pub rpc : Text → Exec Text World (Text × Text)
  unfolding with_provider on_world
  rpc arguments = with_provider connector opening (do
    subnet ← lift (subnet_named args arguments)
    conn ← connection_or connector (codes "target subnet not found") subnet
    chain_id ← on_world connector (conn.manager.get_chain_id)
    pure (rpc_http conn.subnet, chain_id))

  unfoldable pub chain_id : Text → Exec Text World Text
  unfolding with_provider on_world
  chain_id arguments = with_provider connector opening (do
    subnet ← lift (subnet_named args arguments)
    conn ← connection_or connector (codes "target subnet not found") subnet
    on_world connector (conn.manager.get_chain_id))

  -- `SubnetCommandsArgs::handle`
  unfoldable pub handle : SubnetCommand args.Float → Exec Text World (Unit {0})
  unfolding create list_subnets join rpc chain_id leave kill send_value stake unstake claim
      add_bootstrap list_bootstraps genesis_epoch validator_info
  handle (create_subnet a) = printed (create a)
  handle (list a) = printed (list_subnets a)
  handle (join_subnet a) = printed (join a)
  handle (rpc_subnet a) = printed (rpc a)
  handle (chain_id_subnet a) = printed (chain_id a)
  handle (leave_subnet a) = leave a
  handle (kill_subnet a) = kill a
  handle (send a) = send_value a
  handle (stake_subnet a) = stake a
  handle (unstake_subnet a) = unstake a
  handle (claim_subnet a) = claim a
  handle (add a) = add_bootstrap a
  handle (list_bootstrap a) = printed (list_bootstraps a)
  handle (epoch a) = printed (genesis_epoch a)
  handle (get_validator a) = printed (validator_info a)
