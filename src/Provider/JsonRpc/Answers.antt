-- ===== src/Provider/JsonRpc/Answers.antt =====
-- Which responses of a node are taken, and for what.
use ipc_client.Base.{
  ℕ, ◌≡◌, ap, refl, arith, Option, none, some, nat_eq, list_eq, list_beq_iff, ◌⊎◌, inl, inr, Result,
  ok, err, panic, map_err,
}
use ipc_client.Base.Exec.{◌>>=◌, lift, bind-ok}
use ipc_client.Base.Text.{Text}
use ipc_client.Provider.Json.{Value, null}
use ipc_client.Provider.JsonRpc.{
  default_json_rpc_id, default_json_rpc_version, JsonRpcResponse, Deserialize, HttpClient,
  JsonRpcClientImpl, build_jsonrpc_request, of_response, parsed, checked, request,
}

module _ {Response World : Type 0} (http : HttpClient Response World) where
  -- A response that is an answer to the request, and has the value.
  pub record IsAnswer {T : Type 0} (decode : Deserialize T) (j : JsonRpcResponse T) (t : T)
      : Type 0 where
    pub id : j.id ≡ default_json_rpc_id
    pub version : j.jsonrpc ≡ default_json_rpc_version
    pub no_error : j.error ≡ none
    pub result : (j.result ≡ some t) ⊎ ((j.result ≡ none) × (decode.from_value null ≡ ok t))

  of_response_lem :
      {T : Type 0} (decode : Deserialize T) (id : ℕ) (version : Text) (result : Option T)
      (error : Option Value) (t : T)
      → of_response http decode
          (record { id = id; jsonrpc = version; result = result; error = error })
        ≡ ok t
      → (error ≡ none) × ((result ≡ some t) ⊎ ((result ≡ none) × (decode.from_value null ≡ ok t)))
  unfolding of_response
  of_response_lem decode id version result (some e) t h = absurd cc
  of_response_lem decode id version (some r) none t h = (refl, inl cc)
  of_response_lem decode id version none none t h = (refl, inr (refl, h))

  checked_lem :
      {T : Type 0} (decode : Deserialize T) (j : JsonRpcResponse T) (t : T)
      → checked http decode j ≡ ok t
      → IsAnswer decode j t
  unfolding checked
  checked_lem decode j t h =
      let (a, b, c) : (j.id ≡ default_json_rpc_id)
          × (j.jsonrpc ≡ default_json_rpc_version)
          × (of_response http decode j ≡ ok t) =
        ground (arith, list_beq_iff j.jsonrpc default_json_rpc_version) in
      let (e, r) = of_response_lem decode j.id j.jsonrpc j.result j.error t c in
      record { id = a; version = b; no_error = e; result = r }

  parsed_lem :
      {T : Type 0} (decode : Deserialize T) (body : Text) (j : JsonRpcResponse T)
      → parsed http decode body ≡ ok j
      → decode.from_str body ≡ ok j
  parsed_lem decode body j h = ok_of _ j (decode.from_str body) h
    where
      ok_of : {E F A : Type 0} (f : E → F) (a : A) (r : Result E A) → map_err f r ≡ ok a → r ≡ ok a
      ok_of f a (ok b) h = cc
      ok_of f a (err e) h = absurd cc
      ok_of f a panic h = absurd cc

  -- A request that succeeds was posted to the client's address with its token, and the text that came
  -- back is a response with the request's number and the version of the protocol and without an
  -- error. The value is the response's result or, where there is none, what is read from `null`.
  pub request-IsAnswer :
      (self : JsonRpcClientImpl) {T : Type 0} (decode : Deserialize T) (method : Text)
      (params : Value) (w : World) (t : T)
      → (request http self decode method params w).0 ≡ ok t
      → (body : Value) × (response : Response) × (v : World) × (text : Text) × (j : JsonRpcResponse
          T)
        × (build_jsonrpc_request method params ≡ ok body)
        × (http.send self.url self.bearer_token body w ≡ (ok response, v))
        × ((http.text response v).0 ≡ ok text)
        × (decode.from_str text ≡ ok j)
        × IsAnswer decode j t
  unfolding request ◌>>=◌
  request-IsAnswer self decode method params w t h =
      let (body, a, h1, _) = bind-ok (lift (build_jsonrpc_request method params)) _ w t h in
      let (response, b, h2, _) = bind-ok (http.send self.url self.bearer_token body) _ w t h1 in
      let v : World = (http.send self.url self.bearer_token body w).1 in
      let (text, c, h3, _) = bind-ok (http.text response) _ v t h2 in
      let (j, d, h4, _) =
        bind-ok (lift (parsed http decode text)) _ (http.text response v).1 t h3 in
      (
        body,
        response,
        v,
        text,
        j,
        a,
        ap (λ r. (r, v)) b,
        c,
        parsed_lem decode text j d,
        checked_lem decode j t h4,
      )
