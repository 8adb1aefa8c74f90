-- ===== src/Cli/CrossMsgs.antt =====
-- ipc/cli/src/commands/crossmsg: the commands about messages between subnets, and their dispatch.
-- `opening` opens the provider.
use ipc_client.Base.{ℕ, Option, none, some, List, [], ◌∷◌, ok_or, panic, Eq}
use ipc_client.Base.Exec.{Exec, ◌>>=◌, lift, pure}
use ipc_client.Base.Int.{ℤ}
use ipc_client.Base.Text.{Text, codes}
use ipc_client.Sdk.Cross.{CrossMsg}
use ipc_client.Sdk.Fvm.{AddressLib}
use ipc_client.Sdk.IpcAddress as IpcAddress
use ipc_client.Sdk.SubnetId.{SubnetId, parent}
use ipc_client.Provider.SubnetManager.{Payloads}
use ipc_client.Provider.Client.{IpcProvider, Connector, State}
use ipc_client.Provider.Client.Transactions as Transactions
use ipc_client.Provider.Client.Queries as Queries
use ipc_client.Cli.{
  ArgumentLib, f64_to_token_amount, optional_addr, optional_fil_addr, optional_amount, subnet_named,
  with_provider, printed,
}

pub record FundArgs (Float : Type 0) : Type 0 where
  pub gateway_address : Option Text
  pub from : Option Text
  pub to : Option Text
  pub subnet : Text
  pub amount : Float

pub record PreFundArgs (Float : Type 0) : Type 0 where
  pub from : Option Text
  pub subnet : Text
  pub initial_balance : Float

pub record ReleaseArgs (Float : Type 0) : Type 0 where
  pub gateway_address : Option Text
  pub from : Option Text
  pub to : Option Text
  pub subnet : Text
  pub fee : Option Float
  pub amount : Float

pub record PreReleaseArgs (Float : Type 0) : Type 0 where
  pub from : Option Text
  pub subnet : Text
  pub amount : Float

pub record ListTopdownMsgsArgs : Type 0 where
  pub subnet : Text
  pub epoch : ℤ
  pub block_hash : Option Text

-- What is printed of a message.
pub record Listed : Type 0 where
  pub from : Text
  pub to : Text
  pub value : ℤ
  pub nonce : ℕ
  pub fee : ℤ

pub data CrossMsgCommand (Float : Type 0) : Type 0 where
  fund : FundArgs Float → CrossMsgCommand Float
  pre_fund : PreFundArgs Float → CrossMsgCommand Float
  release : ReleaseArgs Float → CrossMsgCommand Float
  pre_release : PreReleaseArgs Float → CrossMsgCommand Float
  propagate : CrossMsgCommand Float
  list_topdown_msgs : ListTopdownMsgsArgs → CrossMsgCommand Float
  parent_finality : Text → CrossMsgCommand Float

module _ {Address Eth World : Type 0} {P : Payloads} ⦃e : Eq Address⦄ ⦃fvm : AddressLib Address⦄
    (args : ArgumentLib Address) (connector : Connector Address Eth World P)
    (opening : Exec Text World (IpcProvider Address Eth World)) where
  unfoldable pub handle_fund : FundArgs args.Float → Exec Text World ℤ
  unfolding with_provider
  handle_fund arguments = with_provider connector opening (do
    subnet ← lift (subnet_named args arguments.subnet)
    from ← lift (optional_addr args arguments.from)
    to ← lift (optional_addr args arguments.to)
    gateway_addr ← lift (optional_fil_addr args arguments.gateway_address)
    amount ← lift (f64_to_token_amount args arguments.amount)
    Transactions.fund connector subnet gateway_addr from to amount)

  unfoldable pub handle_pre_fund : PreFundArgs args.Float → Exec Text World (Unit {0})
  unfolding with_provider
  handle_pre_fund arguments = with_provider connector opening (do
    subnet ← lift (subnet_named args arguments.subnet)
    from ← lift (optional_addr args arguments.from)
    balance ← lift (f64_to_token_amount args arguments.initial_balance)
    Transactions.pre_fund connector subnet from balance)

  unfoldable pub handle_release : ReleaseArgs args.Float → Exec Text World ℤ
  unfolding with_provider
  handle_release arguments = with_provider connector opening (do
    subnet ← lift (subnet_named args arguments.subnet)
    from ← lift (optional_addr args arguments.from)
    to ← lift (optional_addr args arguments.to)
    gateway_addr ← lift (optional_addr args arguments.gateway_address)
    fee ← lift (optional_amount args arguments.fee)
    amount ← lift (f64_to_token_amount args arguments.amount)
    Transactions.release connector subnet gateway_addr from to amount fee)

  unfoldable pub handle_pre_release : PreReleaseArgs args.Float → Exec Text World (Unit {0})
  unfolding with_provider
  handle_pre_release arguments = with_provider connector opening (do
    subnet ← lift (subnet_named args arguments.subnet)
    from ← lift (optional_addr args arguments.from)
    amount ← lift (f64_to_token_amount args arguments.amount)
    Transactions.pre_release connector subnet from amount)

  -- `todo!()`
  abbrev pub handle_propagate : Exec Text World (Unit {0})
  handle_propagate w = (panic, w)

  abbrev listed : List (CrossMsg Address) → List Listed
  listed [] = []
  listed (m ∷ msgs) =
      record {
        from = IpcAddress.to_string m.msg.from;
        to = IpcAddress.to_string m.msg.to;
        value = m.msg.value;
        nonce = m.msg.nonce;
        fee = m.msg.fee;
      }
      ∷ listed msgs

  -- The hash that is given, or that of the parent's newest block.
  unfoldable pub hash_or_head :
      SubnetId Address → Option Text → Exec Text (State connector) (List ℕ)
  hash_or_head subnet (some hash) = lift (args.hex_decode hash)
  hash_or_head subnet none = do
    parent_id ← lift (ok_or (parent subnet) (codes "subnet has not parent"))
    epoch ← Queries.get_chain_head_height connector parent_id
    hash ← Queries.get_block_hash connector parent_id epoch
    pure hash.block_hash

  unfoldable pub handle_list_topdown_msgs : ListTopdownMsgsArgs → Exec Text World (List Listed)
  unfolding with_provider
  handle_list_topdown_msgs arguments = with_provider connector opening (do
    subnet ← lift (subnet_named args arguments.subnet)
    hash ← hash_or_head subnet arguments.block_hash
    msgs ← Queries.get_top_down_msgs connector subnet arguments.epoch hash
    pure (listed msgs))

  unfoldable pub handle_parent_finality : Text → Exec Text World ℤ
  unfolding with_provider
  handle_parent_finality arguments = with_provider connector opening (do
    subnet ← lift (subnet_named args arguments)
    Queries.latest_parent_finality connector subnet)

  -- `CrossMsgsCommandsArgs::handle`
  unfoldable pub handle : CrossMsgCommand args.Float → Exec Text World (Unit {0})
  unfolding handle_fund handle_pre_fund handle_release handle_pre_release handle_list_topdown_msgs
      handle_parent_finality
  handle (fund a) = printed (handle_fund a)
  handle (pre_fund a) = handle_pre_fund a
  handle (release a) = printed (handle_release a)
  handle (pre_release a) = handle_pre_release a
  handle propagate = handle_propagate
  handle (list_topdown_msgs a) = printed (handle_list_topdown_msgs a)
  handle (parent_finality a) = printed (handle_parent_finality a)
