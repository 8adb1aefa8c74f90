-- ===== src/Sdk/Cross.antt =====
-- ipc/sdk/src/cross.rs: cross-net messages, and the direction in which one moves.
pub mod Direction
use ipc_client.Base.{
  ℕ, Bool, true, false, none, some, List, [], Result, ok, ok_or, ◌>>=◌, Eq, ◌==◌, nat_eq, pair_eq,
  option_eq, ltb, if◌then◌else◌, length,
}
use ipc_client.Base.Int.{ℤ, pos}
use ipc_client.Base.Text.{Text, codes}
use ipc_client.Sdk.SubnetId.{SubnetId, parent, common_parent, subnet_id_eq}
use ipc_client.Sdk.IpcAddress
use ipc_client.Sdk.IpcAddress.{IpcAddress}

pub record StorableMsg (Address : Type 0) : Type 0 where
  pub from : IpcAddress Address
  pub to : IpcAddress Address
  pub method : ℕ
  pub params : List ℕ
  pub value : ℤ
  pub nonce : ℕ
  pub fee : ℤ

pub record CrossMsg (Address : Type 0) : Type 0 where
  pub msg : StorableMsg Address
  pub wrapped : Bool

pub data IpcMsgType : Type 0 where
  bottom_up top_down : IpcMsgType

pub IpcMsgType-discrete : Discrete IpcMsgType
IpcMsgType-discrete = hlevel

abbrev pub is_bottom_up : IpcMsgType → Bool
is_bottom_up bottom_up = true
is_bottom_up top_down = false

-- The error of `anyhow!` is its message.
abbrev pub no_parent : Text
no_parent = codes "error getting parent for subnet addr"

module _ {Address : Type 0} (method_send : ℕ) where
  -- `method_send` is the constant `METHOD_SEND` of fvm_shared.
  unfoldable pub new_release_msg :
      SubnetId Address → Address → Address → ℤ → ℤ → Result Text (StorableMsg Address)
  unfolding IpcAddress.new
  new_release_msg sub_id from to value fee = do
    p ← ok_or (parent sub_id) no_parent
    to' ← IpcAddress.new p to
    from' ← IpcAddress.new sub_id from
    ok (record {
      from = from';
      to = to';
      method = method_send;
      params = [];
      value = value;
      nonce = 0;
      fee = fee;
    })

  unfoldable pub new_fund_msg :
      SubnetId Address → Address → Address → ℤ → Result Text (StorableMsg Address)
  unfolding IpcAddress.new
  new_fund_msg sub_id from to value = do
    p ← ok_or (parent sub_id) no_parent
    from' ← IpcAddress.new p from
    to' ← IpcAddress.new sub_id to
    ok (record {
      from = from';
      to = to';
      method = method_send;
      params = [];
      value = value;
      nonce = 0;
      fee = pos 0;
    })

module _ {Address : Type 0} ⦃e : Eq Address⦄ where
  unfoldable pub is_bottomup : SubnetId Address → SubnetId Address → Bool
  is_bottomup from to = elim (common_parent from to) [
    | some (index, _) ↦ ltb index (length from.children)
    | none ↦ false
  ]

  unfoldable pub ipc_type : {E : Type 0} → StorableMsg Address → Result E IpcMsgType
  unfolding is_bottomup IpcAddress.subnet
  ipc_type self = do
    sto ← IpcAddress.subnet self.to
    sfrom ← IpcAddress.subnet self.from
    if is_bottomup sfrom sto then ok bottom_up else ok top_down

  -- `&&` makes the second test, and with it the call of `ipc_type`, only if the first holds.
  unfoldable pub apply_type :
      {E : Type 0} → StorableMsg Address → SubnetId Address → Result E IpcMsgType
  unfolding ipc_type
  apply_type self curr = do
    sto ← IpcAddress.subnet self.to
    sfrom ← IpcAddress.subnet self.from
    if common_parent curr sto == common_parent sfrom sto
        then (do t ← ipc_type self; if is_bottom_up t then ok bottom_up else ok top_down)
        else ok top_down
