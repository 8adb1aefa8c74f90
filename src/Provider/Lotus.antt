-- ===== src/Provider/Lotus.antt =====
-- ipc/provider/src/lotus/message: what a Lotus node is told and what it answers.
pub mod Deserialize
pub mod Client
use ipc_client.Base.{ℕ, Option, none, some, List, Result, ok, err, panic, ok_or, ◌>>=◌}
use ipc_client.Base.Int.{ℤ, pos}
use ipc_client.Base.Text.{Text, codes}
use ipc_client.Sdk.Contract.{collect}
use ipc_client.Provider.Json.{Value}

-- The crates: content identifiers and their texts, base64, CBOR of a type.
pub record Encodings (Cid : Type 0) : Type 0 where
  -- `Cid::to_string` and `Cid::from_str`
  pub cid_text : Cid → Text
  pub cid_from_str : Text → Option Cid
  pub base64_encode : List ℕ → Text
  pub base64_decode : Text → Option (List ℕ)

pub record CidMap : Type 0 where
  pub cid : Option Text

pub record MpoolPushMessage (Address Cid : Type 0) : Type 0 where
  pub to : Address
  pub from : Address
  pub value : ℤ
  pub method : ℕ
  pub params : List ℕ
  pub nonce : Option ℕ
  pub gas_limit : Option ℤ
  pub gas_fee_cap : Option ℤ
  pub gas_premium : Option ℤ
  pub cid : Option Cid
  pub version : Option ℕ
  pub max_fee : Option ℤ

-- `MpoolPushMessage::new`
abbrev pub new :
    {Address Cid : Type 0} → Address → Address → ℕ → List ℕ → MpoolPushMessage Address Cid
new to from method params = record {
  to = to;
  from = from;
  value = pos 0;
  method = method;
  params = params;
  nonce = none;
  gas_limit = none;
  gas_fee_cap = none;
  gas_premium = none;
  cid = none;
  version = none;
  max_fee = none;
}

-- `MpoolPushMessageResponseInner`
pub record PushedMessage : Type 0 where
  pub to : Text
  pub from : Text
  pub value : Text
  pub method : ℕ
  pub params : Text
  pub nonce : ℕ
  pub gas_limit : ℕ
  pub gas_fee_cap : Text
  pub gas_premium : Text
  pub version : ℕ
  pub cid : CidMap

pub record MpoolPushMessageResponse : Type 0 where
  pub message : PushedMessage
  pub cid : CidMap

pub record EstimateGasResponse : Type 0 where
  pub gas_limit : Option ℤ
  pub gas_fee_cap : Option ℤ
  pub gas_premium : Option ℤ

pub record Receipt : Type 0 where
  pub exit_code : ℕ
  pub result : Option Text
  pub gas_used : ℕ

pub record StateWaitMsgResponse : Type 0 where
  pub message : CidMap
  pub receipt : Receipt
  pub tip_set : List CidMap
  pub height : ℕ

pub record ReadStateResponse (State : Type 0) : Type 0 where
  pub balance : Text
  pub code : CidMap
  pub state : State

pub record Block : Type 0 where
  pub parent_state_root : CidMap

pub record GetTipSetByHeightResponse : Type 0 where
  pub cids : List CidMap
  pub blocks : List Block

pub record ChainHeadResponse : Type 0 where
  pub cids : List CidMap
  pub blocks : List Value
  pub height : ℕ

module _ {Cid : Type 0} (encodings : Encodings Cid) where
  -- `From<Option<Cid>>` and `From<Cid>` for `CIDMap`
  unfoldable pub of_option : Option Cid → CidMap
  of_option (some cid) = record { cid = some (encodings.cid_text cid) }
  of_option none = record { cid = none }

  abbrev pub of_cid : Cid → CidMap
  of_cid cid = record { cid = some (encodings.cid_text cid) }

  -- `From<CIDMap> for Option<Cid>`, which panics on a text that is no identifier.
  unfoldable pub into_option : CidMap → Result Text (Option Cid)
  into_option m = elim m.cid [
    | none ↦ ok none
    | some text ↦ elim (encodings.cid_from_str text) [ some cid ↦ ok (some cid) | none ↦ panic ]
  ]

  -- `TryFrom<CIDMap>` and `TryFrom<&CIDMap>` for `Cid`
  unfoldable pub try_from : CidMap → Result Text Cid
  unfolding into_option
  try_from m = into_option m >>= λ cid. ok_or cid (codes "cid not found")

  -- `GetTipSetByHeightResponse::tip_set_cids`
  unfoldable pub tip_set_cids : GetTipSetByHeightResponse → Result Text (List Cid)
  unfolding try_from
  tip_set_cids r = collect try_from r.cids

  -- `GetTipSetByHeightResponse::blocks_state_roots`
  unfoldable pub blocks_state_roots : GetTipSetByHeightResponse → Result Text (List Cid)
  unfolding try_from
  blocks_state_roots r = collect (λ b. try_from b.parent_state_root) r.blocks

  -- `Receipt::parse_result_into`, with the default of the type and its CBOR.
  unfoldable pub parse_result_into :
      {T : Type 0} → T → (List ℕ → Option T) → Receipt → Result Text T
  parse_result_into default deserialize receipt = elim receipt.result [
    | none ↦ ok default
    | some text ↦
        ok_or (encodings.base64_decode text) (codes "cannot decode return string") >>= λ r.
        ok_or (deserialize r) (codes "cannot cbor deserialize return data")
  ]

  -- `MpoolPushMessageResponseInner::cid`
  unfoldable pub pushed_cid : PushedMessage → Result Text Cid
  unfolding try_from
  pushed_cid self = try_from self.cid

-- `MpoolPushMessageResponseInner::to` and `from`, with `Address::from_str`
module _ {Address : Type 0} (from_str : Text → Result Text Address) where
  unfoldable pub pushed_to : PushedMessage → Result Text Address
  pushed_to self = from_str self.to

  unfoldable pub pushed_from : PushedMessage → Result Text Address
  pushed_from self = from_str self.from
