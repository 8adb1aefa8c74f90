-- ===== src/Provider/JsonRpc/Tests.antt =====
-- A request to a node that answers always the same.
use ipc_client.Base.{panic, ℕ, suc, ◌≡◌, refl, some, none, [], ◌∷◌, ok, err, true, false}
use ipc_client.Base.Exec.{◌>>=◌}
use ipc_client.Base.Text.{Text, codes}
use ipc_client.Provider.Json.{Value, string}
use ipc_client.Provider.JsonRpc.{
  JsonRpcResponse, Deserialize, HttpClient, JsonRpcClientImpl, new, no_params,
  build_jsonrpc_request, request, handle_stream,
}
use ipc_client.Provider.JsonRpc.Answers.{IsAnswer, request-IsAnswer}

-- The world counts the requests.
abbrev http : HttpClient Text ℕ
http = record {
  send = λ url token body n. (ok url, suc n);
  text = λ r n. (ok (codes "{}"), n);
  value_text = λ v. codes "error";
}

abbrev heights : Deserialize ℕ
heights = record {
  from_value = λ v. err (codes "invalid type: null");
  from_str = λ s. ok (record { id = 1; jsonrpc = codes "2.0"; result = some 7; error = none });
}

-- The answer to another request.
abbrev stale : Deserialize ℕ
stale = record heights {
  from_str = λ s. ok (record { id = 2; jsonrpc = codes "2.0"; result = some 7; error = none });
}

abbrev node : JsonRpcClientImpl
node = new (codes "http://localhost:1234") none

request-IsAnswer_example :
    (body : Value) × (response : Text) × (v : ℕ) × (text : Text) × (j : JsonRpcResponse ℕ)
    × (build_jsonrpc_request (codes "Filecoin.ChainHead") no_params ≡ ok body)
    × (http.send node.url node.bearer_token body 0 ≡ (ok response, v))
    × ((http.text response v).0 ≡ ok text)
    × (heights.from_str text ≡ ok j)
    × IsAnswer http heights j 7
unfolding request ◌>>=◌ build_jsonrpc_request
request-IsAnswer_example =
    request-IsAnswer http node heights (codes "Filecoin.ChainHead") no_params 0 7 refl

another_request :
    request http node stale (codes "Filecoin.ChainHead") no_params 0
    ≡ (err (codes "json_rpc id or version not matching."), 1)
unfolding request ◌>>=◌ build_jsonrpc_request
another_request = refl

-- What is no array, no object and not null is not posted.
no_parameters :
    request http node heights (codes "Filecoin.ChainHead") (string (codes "x")) 0
    ≡ (err (codes "params is not an array nor an object"), 0)
unfolding request ◌>>=◌ build_jsonrpc_request
no_parameters = refl

stream :
    handle_stream
      (λ s. ok (string s))
      (λ sent. true)
      (ok (codes "a") ∷ ok (codes "b") ∷ err (codes "reset") ∷ ok (codes "c") ∷ [])
      (record { sent = []; closed = false })
    ≡ (ok tt, record { sent = string (codes "a") ∷ string (codes "b") ∷ []; closed = true })
unfolding handle_stream
stream = refl

-- The receiver leaves after one message.
stream_without_receiver :
    handle_stream
      (λ s. ok (string s))
      (λ sent. elim sent [ [] ↦ true | v ∷ rest ↦ false ])
      (ok (codes "a") ∷ ok (codes "b") ∷ [])
      (record { sent = []; closed = false })
    ≡ (panic, record { sent = string (codes "a") ∷ []; closed = false })
unfolding handle_stream
stream_without_receiver = refl
