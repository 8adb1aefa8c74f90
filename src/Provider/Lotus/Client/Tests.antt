-- ===== src/Provider/Lotus/Client/Tests.antt =====
-- A message that is pushed, and one that cannot be.
use ipc_client.Base.{◌≡◌, refl, some, none, List, [], ◌∷◌, ◌++◌, ok, err, false}
use ipc_client.Base.Exec.{◌>>=◌}
use ipc_client.Base.Int.{pos}
use ipc_client.Base.Text.{Text, codes}
use ipc_client.Provider.Json.{null}
use ipc_client.Provider.JsonRpc.{Deserialize}
use ipc_client.Provider.Lotus.{CidMap, MpoolPushMessage, new, try_from, Encodings}
use ipc_client.Provider.Lotus.Client.{
  Library, LotusClient, Message, mpool_push, with_nonce, mpool_nonce, estimate_message_gas,
  message_of, sign_mpool_message, create_signed_message_params,
}
use ipc_client.Provider.Lotus.Client.Signed.{Pushes, mpool_push-Pushes}

-- A response that does not depend on what was asked.
abbrev fixed : {T : Type 0} → T → Deserialize T
fixed t = record { from_value = λ v. ok t; from_str = λ s. err [] }

abbrev encodings : Encodings Text
encodings = record {
  cid_text = λ c. c;
  cid_from_str = some;
  base64_encode = λ b. b;
  base64_decode = some;
}

abbrev map_of : Text → CidMap
map_of text = record { cid = some text }

abbrev library : Library Text Text
library = record {
  encodings = encodings;
  atto_text = λ n. [];
  bigint_from_str = λ s. ok (pos 0);
  address_text = λ a. a;
  address_from_str = ok;
  message_cid = λ m. ok (m.sequence ∷ m.version ∷ []);
  contains = λ s t. false;
  text = fixed [];
  texts = fixed [];
  number = fixed 9;
  cid_map = fixed (map_of (codes "bafy"));
  cid_maps = fixed [];
  pushed = record { from_value = λ v. err []; from_str = λ s. err [] };
  estimated = fixed (record {
    gas_limit = some (pos 1000);
    gas_fee_cap = some (pos 20);
    gas_premium = some (pos 3);
  });
  waited = record { from_value = λ v. err []; from_str = λ s. err [] };
  head = fixed (record { cids = []; blocks = []; height = 5 });
  tipset = fixed (record { cids = []; blocks = [] });
}

-- The world is the methods that were asked for. The signature is what was signed.
abbrev client : LotusClient Text (List Text)
client = record {
  client = record {
    request = λ decode method params w. (decode.from_value null, w ++ method ∷ []);
  };
  wallet_store = some (λ a cid w. (ok (record { sig_type = 1; bytes = cid }), w));
}

abbrev message : MpoolPushMessage Text Text
message = new (codes "f01") (codes "f02") 2 (1 ∷ 2 ∷ [])

mpool_push-Pushes_example : (m : Message Text) × Pushes library client message m (codes "bafy")
unfolding mpool_push ◌>>=◌ with_nonce mpool_nonce estimate_message_gas message_of sign_mpool_message
    create_signed_message_params try_from
mpool_push-Pushes_example = mpool_push-Pushes library client message [] (codes "bafy") refl

asked :
    (mpool_push library client message []).1
    ≡ codes "Filecoin.MpoolGetNonce"
      ∷ codes "Filecoin.GasEstimateMessageGas"
      ∷ codes "Filecoin.MpoolPush"
      ∷ []
unfolding mpool_push ◌>>=◌ with_nonce mpool_nonce estimate_message_gas message_of sign_mpool_message
    create_signed_message_params try_from
asked = refl

-- Without a wallet nothing is pushed.
unsigned : mpool_push library (record client { wallet_store = none }) message [] ≡ (
  err (codes "key store not set, function not supported"),
  codes "Filecoin.MpoolGetNonce" ∷ codes "Filecoin.GasEstimateMessageGas" ∷ [],
)
unfolding mpool_push ◌>>=◌ with_nonce mpool_nonce estimate_message_gas message_of sign_mpool_message
    create_signed_message_params try_from
unsigned = refl
