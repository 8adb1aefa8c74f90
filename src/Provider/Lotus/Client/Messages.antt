-- ===== src/Provider/Lotus/Client/Messages.antt =====
-- The message that is signed, and the JSON of a signed message.
use mathlib.Core.Path.{subst}
use ipc_client.Base.{
  ℕ, true, suc, ◌≡◌, refl, sym, ap, ◌∙◌, arith, Option, none, some, [], ◌∷◌, ok, ◌^◌, ltb,
}
use ipc_client.Base.Decimal.{print_u64}
use ipc_client.Base.Exec.{◌>>=◌}
use ipc_client.Base.Int.{ℤ, pos, negsuc}
use ipc_client.Base.Text.{Text, codes}
use ipc_client.Provider.Json.{Value, string, natural, json_array, json_object}
use ipc_client.Provider.Lotus.{CidMap, MpoolPushMessage, of_option}
use ipc_client.Provider.Lotus.Client.{
  Library, Message, Signature, cid_value, create_signed_message_params, message_of,
}

-- A signed message as the node reads it.
abbrev pub amount_text : ℤ → Text
amount_text (pos n) = print_u64 n
amount_text (negsuc n) = b'-' ∷ print_u64 (suc n)

module _ {Address Cid : Type 0} (lib : Library Address Cid) where
  abbrev pub signed_json : Message Address → CidMap → Signature → Value
  signed_json m cid signature = json_array (
      json_object (
        (
          codes "Message",
          json_object (
              (codes "Version", natural m.version)
              ∷ (codes "To", string (lib.address_text m.to))
              ∷ (codes "From", string (lib.address_text m.from))
              ∷ (codes "Value", string (lib.atto_text m.value))
              ∷ (codes "Method", natural m.method_num)
              ∷ (codes "Params", string (lib.encodings.base64_encode m.params))
              ∷ (codes "Nonce", natural m.sequence)
              ∷ (codes "GasLimit", natural m.gas_limit)
              ∷ (codes "GasFeeCap", string (amount_text m.gas_fee_cap))
              ∷ (codes "GasPremium", string (amount_text m.gas_premium))
              ∷ (codes "CID", cid_value cid)
              ∷ []),
        )
        ∷ (
          codes "Signature",
          json_object (
              (codes "Type", natural signature.sig_type)
              ∷ (codes "Data", string (lib.encodings.base64_encode signature.bytes))
              ∷ []),
        )
        ∷ [])
      ∷ [])

-- The fields that the message has from the one to push.
pub record IsMessageOf {Address Cid : Type 0} (msg : MpoolPushMessage Address Cid)
    (m : Message Address) : Type 0 where
  pub version : msg.version ≡ some m.version
  pub from : msg.from ≡ m.from
  pub to : msg.to ≡ m.to
  pub sequence : msg.nonce ≡ some m.sequence
  pub value : msg.value ≡ m.value
  pub method_num : msg.method ≡ m.method_num
  pub params : msg.params ≡ m.params
  pub gas_limit : msg.gas_limit ≡ some (pos m.gas_limit)
  pub gas_fee_cap : msg.gas_fee_cap ≡ some m.gas_fee_cap
  pub gas_premium : msg.gas_premium ≡ some m.gas_premium

-- A message with other optional fields.
abbrev filled :
    {Address Cid : Type 0}
    → MpoolPushMessage Address Cid
    → Option ℕ
    → Option ℕ
    → Option ℤ
    → Option ℤ
    → Option ℤ
    → MpoolPushMessage Address Cid
filled msg version nonce limit cap premium = record msg {
  version = version;
  nonce = nonce;
  gas_limit = limit;
  gas_fee_cap = cap;
  gas_premium = premium;
}

module _ {Address Cid World : Type 0} where
  message_of_fields :
      (msg : MpoolPushMessage Address Cid) (version nonce : Option ℕ) (limit cap premium : Option ℤ)
      (w : World) (m : Message Address)
      → (message_of (filled msg version nonce limit cap premium) w).0 ≡ ok m
      → IsMessageOf (filled msg version nonce limit cap premium) m
  unfolding message_of ◌>>=◌
  message_of_fields msg (some v) (some n) (some (pos l)) (some c) (some p) w m h =
      let fits : (ltb l (2 ^ 64) ≡ true) = ground arith in
      let e : record {
        version = v;
        from = msg.from;
        to = msg.to;
        sequence = n;
        value = msg.value;
        method_num = msg.method;
        params = msg.params;
        gas_limit = l;
        gas_fee_cap = c;
        gas_premium = p;
      }
          ≡ m =
        ground arith in
      subst (IsMessageOf (filled msg (some v) (some n) (some (pos l)) (some c) (some p))) e
        (record {
          version = refl;
          from = refl;
          to = refl;
          sequence = refl;
          value = refl;
          method_num = refl;
          params = refl;
          gas_limit = refl;
          gas_fee_cap = refl;
          gas_premium = refl;
        })
  message_of_fields msg none n l c p w m h = absurd cc
  message_of_fields msg (some v) none l c p w m h = absurd cc
  message_of_fields msg (some v) (some n) none c p w m h = absurd cc
  message_of_fields msg (some v) (some n) (some (negsuc l)) c p w m h = absurd cc
  message_of_fields msg (some v) (some n) (some (pos l)) none p w m h = absurd (ground arith)
  message_of_fields msg (some v) (some n) (some (pos l)) (some c) none w m h = absurd (ground arith)

  pub message_of_lem :
      (msg : MpoolPushMessage Address Cid) (w : World) (m : Message Address)
      → (message_of msg w).0 ≡ ok m
      → IsMessageOf msg m
  message_of_lem msg w m h =
      message_of_fields msg msg.version msg.nonce msg.gas_limit msg.gas_fee_cap msg.gas_premium w m
        h

module _ {Address Cid World : Type 0} (lib : Library Address Cid) where
  -- What is pushed for the numbers of a message.
  params_of :
      (msg : MpoolPushMessage Address Cid) (v n l : ℕ) (c p : ℤ) (signature : Signature) (w : World)
      (params : Value)
      → (create_signed_message_params lib
          (filled msg (some v) (some n) (some (pos l)) (some c) (some p))
          signature
          w).0
        ≡ ok params
      → params
        ≡ signed_json lib
            (record {
              version = v;
              from = msg.from;
              to = msg.to;
              sequence = n;
              value = msg.value;
              method_num = msg.method;
              params = msg.params;
              gas_limit = l;
              gas_fee_cap = c;
              gas_premium = p;
            })
            (of_option lib.encodings msg.cid)
            signature
  unfolding create_signed_message_params ◌>>=◌
  params_of msg v n l (pos c) (pos p) signature w params h = ground arith
  params_of msg v n l (negsuc c) (pos p) signature w params h = ground arith
  params_of msg v n l c (negsuc p) signature w params h = ground arith

  pub params_lem :
      (msg : MpoolPushMessage Address Cid) (m : Message Address) (signature : Signature) (w : World)
      (params : Value)
      → IsMessageOf msg m
      → (create_signed_message_params lib msg signature w).0 ≡ ok params
      → params ≡ signed_json lib m (of_option lib.encodings msg.cid) signature
  params_lem msg m signature w params i h =
      let e : msg
          ≡ filled msg (some m.version) (some m.sequence) (some (pos m.gas_limit))
              (some m.gas_fee_cap) (some m.gas_premium) =
        rw (i.version, i.sequence, i.gas_limit, i.gas_fee_cap, i.gas_premium) refl in
      let k =
        params_of msg m.version m.sequence m.gas_limit m.gas_fee_cap m.gas_premium signature w
          params (ap (λ x. (create_signed_message_params lib x signature w).0) (sym e) ∙ h) in
      rw (← i.from, ← i.to, ← i.value, ← i.method_num, ← i.params) k
