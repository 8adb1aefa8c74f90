-- ===== src/Provider/JsonRpc.antt =====
-- ipc/provider/src/jsonrpc/mod.rs: requests to a node and their responses.
pub mod Answers
mod Tests
use ipc_client.Base.{
  ℕ, Bool, true, false, Option, none, some, List, [], ◌∷◌, ◌++◌, Result, ok, err, panic, map_err,
  ◌==◌, nat_eq, list_eq, if◌then◌else◌,
}
use ipc_client.Base.Exec.{Exec, ◌>>=◌, ◌>>◌, pure, fail, lift}
use ipc_client.Base.Text.{Text, codes}
use ipc_client.Provider.Json.{
  Value, null, array, object, string, natural, no_items, item, no_fields, field, json_array,
  json_object,
}

abbrev pub default_json_rpc_version : Text
default_json_rpc_version = codes "2.0"

abbrev pub default_json_rpc_id : ℕ
default_json_rpc_id = 1

abbrev pub no_params : Value
no_params = json_array []

pub record JsonRpcResponse (T : Type 0) : Type 0 where
  pub id : ℕ
  pub jsonrpc : Text
  pub result : Option T
  pub error : Option Value

-- `T: DeserializeOwned`: what serde reads a `T` from, by itself and within a response.
pub record Deserialize (T : Type 0) : Type 0 where
  pub from_value : Value → Result Text T
  pub from_str : Text → Result Text (JsonRpcResponse T)

-- The trait `JsonRpcClient`, of which the clients use `request`.
pub record JsonRpcClient (World : Type 0) : Type 1 where
  pub request : {T : Type 0} → Deserialize T → Text → Value → Exec Text World T

-- The crate reqwest: `send` posts a body with a bearer token within the time limit.
pub record HttpClient (Response World : Type 0) : Type 0 where
  pub send : Text → Option Text → Value → Exec Text World Response
  pub text : Response → Exec Text World Text
  -- The `Display` of a value.
  pub value_text : Value → Text

pub record JsonRpcClientImpl : Type 0 where
  pub url : Text
  pub bearer_token : Option Text

-- `JsonRpcClientImpl::new`
abbrev pub new : Text → Option Text → JsonRpcClientImpl
new url bearer_token = record { url = url; bearer_token = bearer_token }

-- The test of the parameters in `build_jsonrpc_request`.
abbrev pub has_params : Value → Result Text Bool
has_params (array no_items) = ok false
has_params (array (item v vs)) = ok true
has_params (object no_fields) = ok false
has_params (object (field k v fs)) = ok true
has_params null = ok false
has_params _ = err (codes "params is not an array nor an object")

unfoldable pub build_jsonrpc_request : Text → Value → Result Text Value
build_jsonrpc_request method params = elim (has_params params) [
  | ok true ↦ ok (
      json_object (
        (codes "jsonrpc", string default_json_rpc_version)
        ∷ (codes "id", natural default_json_rpc_id)
        ∷ (codes "method", string method)
        ∷ (codes "params", params)
        ∷ []))
  | ok false ↦ ok (
      json_object (
        (codes "jsonrpc", string default_json_rpc_version)
        ∷ (codes "id", natural default_json_rpc_id)
        ∷ (codes "method", string method)
        ∷ []))
  | err e ↦ err e
  | panic ↦ panic
]

module _ {Response World : Type 0} (http : HttpClient Response World) where
  -- `Result::from`: a response without a result is read from `null`.
  unfoldable pub of_response : {T : Type 0} → Deserialize T → JsonRpcResponse T → Result Text T
  of_response decode j = elim j.error [
    | some e ↦ err (codes "json_rpc error: " ++ http.value_text e)
    | none ↦ elim j.result [ some t ↦ ok t | none ↦ decode.from_value null ]
  ]

  abbrev pub parsed : {T : Type 0} → Deserialize T → Text → Result Text (JsonRpcResponse T)
  parsed decode body =
      map_err (λ e. codes "cannot parse json rpc response: " ++ body ++ codes " due to " ++ e)
        (decode.from_str body)

  -- The request's number and the version of the protocol, compared.
  unfoldable pub checked : {T : Type 0} → Deserialize T → JsonRpcResponse T → Result Text T
  unfolding of_response
  checked decode value =
      if value.id == default_json_rpc_id
      then (if value.jsonrpc == default_json_rpc_version
          then of_response decode value
          else err (codes "json_rpc id or version not matching."))
      else err (codes "json_rpc id or version not matching.")

  unfoldable pub request :
      JsonRpcClientImpl → {T : Type 0} → Deserialize T → Text → Value → Exec Text World T
  unfolding checked
  request self decode method params = do
    request_body ← lift (build_jsonrpc_request method params)
    response ← http.send self.url self.bearer_token request_body
    response_body ← http.text response
    value ← lift (parsed decode response_body)
    lift (checked decode value)

  -- `impl JsonRpcClient for JsonRpcClientImpl`
  abbrev pub client : JsonRpcClientImpl → JsonRpcClient World
  client self = record { request = λ decode method params. request self decode method params }

-- The channel of a subscription, as its receiver finds it.
pub record Channel : Type 0 where
  pub sent : List Value
  pub closed : Bool

-- `handle_stream`: the messages of a stream until it is closed or gives an error, each parsed and
-- sent on. A message that is no JSON ends the task without closing the channel by hand, and so does
-- a channel whose receiver is gone, which `receives` tells by what was sent.
module _ (parse : Text → Result Text Value) (receives : List Value → Bool) where
  unfoldable pub handle_stream : List (Result Text Text) → Exec Text Channel (Unit {0})
  handle_stream [] chan = (ok tt, record chan { closed = true })
  handle_stream (ok msg ∷ stream) chan = elim (parse msg) [
    | ok value ↦ elim (receives chan.sent) [
      | true ↦ handle_stream stream (record chan { sent = chan.sent ++ value ∷ [] })
      | false ↦ (panic, chan)
    ]
    | err e ↦ (panic, chan)
    | panic ↦ (panic, chan)
  ]
  handle_stream (err e ∷ stream) chan = (ok tt, record chan { closed = true })
  handle_stream (panic ∷ stream) chan = (panic, chan)
