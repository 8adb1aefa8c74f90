-- ===== src/Provider/Lotus/Client.antt =====
-- ipc/provider/src/lotus/client.rs: LotusJsonRPCClient, which pushes messages to a Lotus node, signed by the node or by the wallet of the client.
pub mod Messages
pub mod Signed
pub mod Queries
mod Tests
use ipc_client.Base.{
  ℕ, Bool, true, false, Option, none, some, List, [], ◌∷◌, ◌++◌, ◌^◌, Result, ok, err, panic, ok_or,
  Eq, nat_eq, list_eq, map, ltb, if◌then◌else◌,
}
use ipc_client.Base.Decimal.{print_u64}
use ipc_client.Base.Exec.{Exec, ◌>>=◌, ◌>>◌, pure, fail, lift}
use ipc_client.Base.Int.{ℤ, pos, negsuc}
use ipc_client.Base.Map.{Map, insert}
use ipc_client.Base.Text.{Text, codes}
use ipc_client.Sdk.Fvm.{AddressLib}
use ipc_client.Sdk.Contract.{as_i64}
use ipc_client.Provider.Client.Wallets.{WalletKeyType, bls_key, secp256k1_key, secp256k1_ledger}
use ipc_client.Provider.Json.{
  Value, null, bool, string, number, natural, optional, json_array, json_object,
}
use ipc_client.Provider.Config.{Subnet, rpc_http, auth_token}
use ipc_client.Provider.JsonRpc
use ipc_client.Provider.JsonRpc.{JsonRpcClient, HttpClient, Deserialize, no_params}
use ipc_client.Provider.Lotus.{
  Encodings, CidMap, MpoolPushMessage, PushedMessage, MpoolPushMessageResponse, EstimateGasResponse,
  StateWaitMsgResponse, ReadStateResponse, GetTipSetByHeightResponse, ChainHeadResponse, of_option,
  of_cid, try_from,
}

-- `fvm_shared::message::Message`
pub record Message (Address : Type 0) : Type 0 where
  pub version : ℕ
  pub from : Address
  pub to : Address
  pub sequence : ℕ
  pub value : ℤ
  pub method_num : ℕ
  pub params : List ℕ
  pub gas_limit : ℕ
  pub gas_fee_cap : ℤ
  pub gas_premium : ℤ

pub record Signature : Type 0 where
  pub sig_type : ℕ
  pub bytes : List ℕ

-- The crates: texts of numbers and addresses, the bytes of a message's identifier, and what serde
-- derives for the responses.
pub record Library (Address Cid : Type 0) : Type 0 where
  pub encodings : Encodings Cid
  -- `TokenAmount::atto` as a text, and `BigInt::from_str`
  pub atto_text : ℤ → Text
  pub bigint_from_str : Text → Result Text ℤ
  pub address_text : Address → Text
  pub address_from_str : Text → Result Text Address
  -- `to_vec(&message)`, then the identifier of its hash as bytes
  pub message_cid : Message Address → Result Text (List ℕ)
  -- `error.to_string().contains(..)`
  pub contains : Text → Text → Bool
  pub text : Deserialize Text
  pub texts : Deserialize (List Text)
  pub number : Deserialize ℕ
  pub cid_map : Deserialize CidMap
  pub cid_maps : Deserialize (List (Text × CidMap))
  pub pushed : Deserialize MpoolPushMessageResponse
  pub estimated : Deserialize EstimateGasResponse
  pub waited : Deserialize StateWaitMsgResponse
  pub head : Deserialize ChainHeadResponse
  pub tipset : Deserialize GetTipSetByHeightResponse

-- The wallet is shared: what it keeps is in the world. Of the subnet only the logs tell.
pub record LotusClient (Address World : Type 0) : Type 1 where
  pub client : JsonRpcClient World
  pub wallet_store : Option (Address → List ℕ → Exec Text World Signature)

-- `to_u64().unwrap()`
abbrev pub as_u64 : ℤ → Result Text ℕ
as_u64 (pos n) = if ltb n (2 ^ 64) then ok n else panic
as_u64 (negsuc n) = panic

-- The closures `to_value` and `to_value_str`, with what becomes of the number.
abbrev pub to_value : (ℕ → Value) → Option ℤ → Result Text Value
to_value shown none = ok null
to_value shown (some n) = elim (as_u64 n) [ ok v ↦ ok (shown v) | err e ↦ err e | panic ↦ panic ]

abbrev pub digits : ℕ → Value
digits n = string (print_u64 n)

abbrev pub bytes : List ℕ → Value
bytes b = json_array (map natural b)

-- `msg.version.unwrap_or(0)`
abbrev pub version_or_0 : Option ℕ → ℕ
version_or_0 (some v) = v
version_or_0 none = 0

-- A `CIDMap`, serialised.
abbrev pub cid_value : CidMap → Value
cid_value m = elim m.cid [
  | some text ↦ json_object ((codes "/", string text) ∷ [])
  | none ↦ json_object []
]

module _ {Address Cid : Type 0} where
  -- The message with a version.
  abbrev pub with_version : MpoolPushMessage Address Cid → MpoolPushMessage Address Cid
  with_version msg = record msg { version = elim msg.version [ some v ↦ some v | none ↦ some 0 ] }

module _ {Address Cid World : Type 0} where
  -- The message that is signed: each optional field must be there.
  unfoldable pub message_of : MpoolPushMessage Address Cid → Exec Text World (Message Address)
  message_of msg = do
    version ← lift (ok_or msg.version (codes "version should not be empty"))
    sequence ← lift (ok_or msg.nonce (codes "nonce should not be empty"))
    gas_limit ← lift (ok_or msg.gas_limit (codes "gas_limit should not be empty"))
    gas_limit ← lift (as_u64 gas_limit)
    gas_fee_cap ← lift (ok_or msg.gas_fee_cap (codes "gas_fee_cap should not be empty"))
    gas_premium ← lift (ok_or msg.gas_premium (codes "gas_premium should not be empty"))
    pure (record {
      version = version;
      from = msg.from;
      to = msg.to;
      sequence = sequence;
      value = msg.value;
      method_num = msg.method;
      params = msg.params;
      gas_limit = gas_limit;
      gas_fee_cap = gas_fee_cap;
      gas_premium = gas_premium;
    })

module _ {Address Cid World : Type 0} (lib : Library Address Cid) where
  -- `create_signed_message_params`
  unfoldable pub create_signed_message_params :
      MpoolPushMessage Address Cid → Signature → Exec Text World Value
  create_signed_message_params msg signature = do
    gas_limit ← lift (to_value natural msg.gas_limit)
    gas_premium ← lift (to_value digits msg.gas_premium)
    gas_fee_cap ← lift (to_value digits msg.gas_fee_cap)
    pure (
        json_array (
          json_object (
            (
              codes "Message",
              json_object (
                  (codes "Version", natural (version_or_0 msg.version))
                  ∷ (codes "To", string (lib.address_text msg.to))
                  ∷ (codes "From", string (lib.address_text msg.from))
                  ∷ (codes "Value", string (lib.atto_text msg.value))
                  ∷ (codes "Method", natural msg.method)
                  ∷ (codes "Params", string (lib.encodings.base64_encode msg.params))
                  ∷ (codes "Nonce", optional natural msg.nonce)
                  ∷ (codes "GasLimit", gas_limit)
                  ∷ (codes "GasFeeCap", gas_fee_cap)
                  ∷ (codes "GasPremium", gas_premium)
                  ∷ (codes "CID", cid_value (of_option lib.encodings msg.cid))
                  ∷ []),
            )
            ∷ (
              codes "Signature",
              json_object (
                  (codes "Type", natural signature.sig_type)
                  ∷ (codes "Data", string (lib.encodings.base64_encode signature.bytes))
                  ∷ []),
            )
            ∷ [])
          ∷ []))

  module _ (self : LotusClient Address World) where
    unfoldable pub mpool_push_message : MpoolPushMessage Address Cid → Exec Text World PushedMessage
    mpool_push_message msg = do
      gas_limit ← lift (to_value natural msg.gas_limit)
      gas_premium ← lift (to_value natural msg.gas_premium)
      gas_fee_cap ← lift (to_value natural msg.gas_fee_cap)
      max_fee ← lift (to_value natural msg.max_fee)
      r ← self.client.request lib.pushed (codes "Filecoin.MpoolPushMessage") (
          json_array (
            json_object (
              (codes "to", string (lib.address_text msg.to))
              ∷ (codes "from", string (lib.address_text msg.from))
              ∷ (codes "value", string (lib.atto_text msg.value))
              ∷ (codes "method", natural msg.method)
              ∷ (codes "params", bytes msg.params)
              ∷ (codes "nonce", optional natural msg.nonce)
              ∷ (codes "gas_limit", gas_limit)
              ∷ (codes "gas_fee_cap", gas_fee_cap)
              ∷ (codes "gas_premium", gas_premium)
              ∷ (codes "cid", cid_value (of_option lib.encodings msg.cid))
              ∷ (codes "version", null)
              ∷ [])
            ∷ json_object ((codes "max_fee", max_fee) ∷ [])
            ∷ []))
      pure r.message

    -- An error that tells of an unknown account gives the first nonce.
    abbrev pub nonce_of : Result Text ℕ → Result Text ℕ
    nonce_of (ok n) = ok n
    nonce_of (err e) = if lib.contains e (codes "resolution lookup failed") then ok 0 else err e
    nonce_of panic = panic

    unfoldable pub mpool_nonce : Address → Exec Text World ℕ
    mpool_nonce address w =
        let (r, w') =
          self.client.request lib.number (codes "Filecoin.MpoolGetNonce")
            (json_array (string (lib.address_text address) ∷ [])) w in
        (nonce_of r, w')

    -- The message with the gas that the node estimates.
    unfoldable pub estimate_message_gas :
        MpoolPushMessage Address Cid → Exec Text World (MpoolPushMessage Address Cid)
    estimate_message_gas msg = do
      gas ← self.client.request lib.estimated (codes "Filecoin.GasEstimateMessageGas") (
          json_array (
            json_object (
              (codes "Version", natural (version_or_0 msg.version))
              ∷ (codes "To", string (lib.address_text msg.to))
              ∷ (codes "From", string (lib.address_text msg.from))
              ∷ (codes "Value", string (lib.atto_text msg.value))
              ∷ (codes "Method", natural msg.method)
              ∷ (codes "Params", bytes msg.params)
              ∷ (codes "Nonce", optional natural msg.nonce)
              ∷ (codes "GasLimit", natural 0)
              ∷ (codes "GasFeeCap", string (codes "0"))
              ∷ (codes "GasPremium", string (codes "0"))
              ∷ (codes "CID", cid_value (of_option lib.encodings msg.cid))
              ∷ [])
            ∷ json_object []
            ∷ json_array []
            ∷ []))
      pure (record msg {
        gas_fee_cap = gas.gas_fee_cap;
        gas_limit = gas.gas_limit;
        gas_premium = gas.gas_premium;
      })

    unfoldable pub sign_mpool_message : MpoolPushMessage Address Cid → Exec Text World Signature
    unfolding message_of
    sign_mpool_message msg = elim self.wallet_store [
      | none ↦ fail (codes "key store not set, function not supported")
      | some sign ↦ (do
        message ← message_of msg
        msg_cid ← lift (lib.message_cid message)
        sign msg.from msg_cid)
    ]

    -- The message with a nonce, its own or the node's next.
    unfoldable pub with_nonce :
        MpoolPushMessage Address Cid → Exec Text World (MpoolPushMessage Address Cid)
    unfolding mpool_nonce
    with_nonce msg = elim msg.nonce [
      | some n ↦ pure msg
      | none ↦ mpool_nonce msg.from >>= λ nonce. pure (record msg { nonce = some nonce })
    ]

    unfoldable pub mpool_push : MpoolPushMessage Address Cid → Exec Text World Cid
    unfolding with_nonce estimate_message_gas sign_mpool_message create_signed_message_params
    mpool_push msg = do
      msg ← with_nonce msg
      msg ← estimate_message_gas (with_version msg)
      signature ← sign_mpool_message msg
      params ← create_signed_message_params msg signature
      r ← self.client.request lib.cid_map (codes "Filecoin.MpoolPush") params
      lift (try_from lib.encodings r)
