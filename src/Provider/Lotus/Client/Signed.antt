-- ===== src/Provider/Lotus/Client/Signed.antt =====
-- The message that `mpool_push` pushes is the one that the wallet signed.
use mathlib.Core.Path.{subst}
use mathlib.Core.Option.{some-injective}
use ipc_client.Base.{ℕ, ◌≡◌, refl, sym, ap, ◌∙◌, Option, none, some, List, ok, ◌⊎◌, inl, inr}
use ipc_client.Base.Exec.{Exec, ◌>>=◌, lift, pure, bind-ok}
use ipc_client.Base.Text.{Text, codes}
use ipc_client.Provider.Json.{Value}
use ipc_client.Provider.Lotus.{CidMap, MpoolPushMessage, EstimateGasResponse, of_option, try_from}
use ipc_client.Provider.Lotus.Client.{
  Library, LotusClient, Message, Signature, create_signed_message_params, mpool_nonce, with_nonce,
  with_version, version_or_0, estimate_message_gas, message_of, sign_mpool_message, mpool_push,
}
use ipc_client.Provider.Lotus.Client.Messages.{signed_json, IsMessageOf, message_of_lem, params_lem}

module _ {Address Cid World : Type 0} (lib : Library Address Cid)
    (self : LotusClient Address World) where
  -- A message that the wallet signs.
  pub record Signs (msg : MpoolPushMessage Address Cid) (m : Message Address)
      (signature : Signature) : Type 0 where
    pub sign : Address → List ℕ → Exec Text World Signature
    pub has_wallet : self.wallet_store ≡ some sign
    pub is_message : IsMessageOf msg m
    pub msg_cid : List ℕ
    pub identified : lib.message_cid m ≡ ok msg_cid
    pub state : World
    pub signed : (sign msg.from msg_cid state).0 ≡ ok signature

  sign_mpool_message_lem :
      (store : Option (Address → List ℕ → Exec Text World Signature))
      (msg : MpoolPushMessage Address Cid) (w : World) (signature : Signature)
      → self.wallet_store ≡ store
      → (sign_mpool_message lib self msg w).0 ≡ ok signature
      → (m : Message Address) × Signs msg m signature
  unfolding sign_mpool_message ◌>>=◌
  sign_mpool_message_lem none msg w signature e h = absurd cc
  sign_mpool_message_lem (some sign) msg w signature e h =
      let h' : ((message_of msg >>= λ m.
      lift (lib.message_cid m) >>= λ msg_cid. sign msg.from msg_cid)
            w).0
          ≡ ok signature =
        rw e at h in
      let (m, a, h1, _) = bind-ok (message_of msg) _ w signature h' in
      let (msg_cid, b, h2, _) =
        bind-ok (lift (lib.message_cid m)) _ (message_of msg w).1 signature h1 in
      (
        m,
        record {
          sign = sign;
          has_wallet = e;
          is_message = message_of_lem msg w m a;
          msg_cid = msg_cid;
          identified = b;
          state = (message_of msg w).1;
          signed = h2;
        },
      )

  with_nonce_lem :
      (nonce : Option ℕ) (msg pushed : MpoolPushMessage Address Cid) (w : World)
      → msg.nonce ≡ nonce
      → (with_nonce lib self msg w).0 ≡ ok pushed
      → (n : ℕ) × (pushed ≡ record msg { nonce = some n })
        × ((msg.nonce ≡ some n) ⊎ ((v : World) × ((mpool_nonce lib self msg.from v).0 ≡ ok n)))
  unfolding with_nonce ◌>>=◌
  with_nonce_lem (some n) msg pushed w e h = (n, cc, inl e)
  with_nonce_lem none msg pushed w e h =
      let h' : ((mpool_nonce lib self msg.from >>= λ n. pure (record msg { nonce = some n })) w).0
          ≡ ok pushed =
        rw e at h in
      let (n, a, h1, _) = bind-ok (mpool_nonce lib self msg.from) _ w pushed h' in
      (n, cc, inr (w, a))

  abbrev with_gas :
      EstimateGasResponse → MpoolPushMessage Address Cid → MpoolPushMessage Address Cid
  with_gas gas msg = record msg {
    gas_fee_cap = gas.gas_fee_cap;
    gas_limit = gas.gas_limit;
    gas_premium = gas.gas_premium;
  }

  estimate_message_gas_lem :
      (msg pushed : MpoolPushMessage Address Cid) (w : World)
      → (estimate_message_gas lib self msg w).0 ≡ ok pushed
      → (gas : EstimateGasResponse) × (pushed ≡ with_gas gas msg)
  unfolding estimate_message_gas ◌>>=◌
  estimate_message_gas_lem msg pushed w h =
      let (gas, _, h1, _) =
        bind-ok (self.client.request lib.estimated (codes "Filecoin.GasEstimateMessageGas") _) _ w
          pushed h in
      (gas, cc)

  -- The nonce is the message's or what the node says is next.
  abbrev pub IsNonce : MpoolPushMessage Address Cid → ℕ → Type 0
  IsNonce msg n =
      (msg.nonce ≡ some n) ⊎ ((v : World) × ((mpool_nonce lib self msg.from v).0 ≡ ok n))

  -- What a message is pushed as.
  pub record Pushes (msg : MpoolPushMessage Address Cid) (m : Message Address) (cid : Cid)
      : Type 0 where
    pub from : m.from ≡ msg.from
    pub to : m.to ≡ msg.to
    pub value : m.value ≡ msg.value
    pub method_num : m.method_num ≡ msg.method
    pub params : m.params ≡ msg.params
    pub version : m.version ≡ version_or_0 msg.version
    pub sequence : IsNonce msg m.sequence
    pub sign : Address → List ℕ → Exec Text World Signature
    pub has_wallet : self.wallet_store ≡ some sign
    pub msg_cid : List ℕ
    pub identified : lib.message_cid m ≡ ok msg_cid
    pub signature : Signature
    pub signing : World
    pub signed : (sign msg.from msg_cid signing).0 ≡ ok signature
    pub pushing : World
    pub answer : CidMap
    pub pushed :
        (self.client.request lib.cid_map
          (codes "Filecoin.MpoolPush")
          (signed_json lib m (of_option lib.encodings msg.cid) signature)
          pushing).0
        ≡ ok answer
    pub is_cid : try_from lib.encodings answer ≡ ok cid

  version_of :
      (v : Option ℕ) (k : ℕ)
      → (elim v [ some n ↦ some n | none ↦ some 0 ]) ≡ some k
      → k ≡ version_or_0 v
  version_of (some n) k h = cc
  version_of none k h = cc

  made_of :
      (msg pushed : MpoolPushMessage Address Cid) (m : Message Address) (n : ℕ)
      (gas : EstimateGasResponse) (signature : Signature) (params : Value) (r : CidMap) (cid : Cid)
      (w v : World)
      → pushed ≡ with_gas gas (with_version (record msg { nonce = some n }))
      → IsNonce msg n
      → Signs pushed m signature
      → (create_signed_message_params lib pushed signature w).0 ≡ ok params
      → (self.client.request lib.cid_map (codes "Filecoin.MpoolPush") params v).0 ≡ ok r
      → try_from lib.encodings r ≡ ok cid
      → Pushes msg m cid
  made_of msg pushed m n gas signature params r cid w v e given s d f g =
      let i = subst (λ x. IsMessageOf x m) e s.is_message in
      let k : params ≡ signed_json lib m (of_option lib.encodings msg.cid) signature =
        params_lem lib pushed m signature w params s.is_message d
        ∙ ap
            (λ (x : MpoolPushMessage Address Cid).
              signed_json lib m (of_option lib.encodings x.cid) signature)
            e in
      record {
        from = sym i.from;
        to = sym i.to;
        value = sym i.value;
        method_num = sym i.method_num;
        params = sym i.params;
        version = version_of msg.version m.version i.version;
        sequence = subst (IsNonce msg) (some-injective n m.sequence i.sequence) given;
        sign = s.sign;
        has_wallet = s.has_wallet;
        msg_cid = s.msg_cid;
        identified = s.identified;
        signature = signature;
        signing = s.state;
        signed =
            ap (λ (x : MpoolPushMessage Address Cid). (s.sign x.from s.msg_cid s.state).0) (sym e)
            ∙ s.signed;
        pushing = v;
        answer = r;
        pushed =
            ap (λ x. (self.client.request lib.cid_map (codes "Filecoin.MpoolPush") x v).0) (sym k)
            ∙ f;
        is_cid = g;
      }

  -- Where `mpool_push` succeeds, the wallet of the client has signed, for the sender, the identifier
  -- of one message. Its sender, receiver, value, method and parameters are those that were given,
  -- its version too, or 0, and its nonce, or the node's next one. What was pushed is this message
  -- with this signature, field by field, and the result is the identifier that the node answered.
  pub mpool_push-Pushes :
      (msg : MpoolPushMessage Address Cid) (w : World) (cid : Cid)
      → (mpool_push lib self msg w).0 ≡ ok cid
      → (m : Message Address) × Pushes msg m cid
  unfolding mpool_push ◌>>=◌
  mpool_push-Pushes msg w cid h =
      let (m1, a, h1, _) = bind-ok (with_nonce lib self msg) _ w cid h in
      let (n, e1, given) = with_nonce_lem msg.nonce msg m1 w refl a in
      let (m2, b, h2, _) = bind-ok (estimate_message_gas lib self (with_version m1)) _ _ cid h1 in
      let (gas, e2) = estimate_message_gas_lem (with_version m1) m2 _ b in
      let (signature, c, h3, _) = bind-ok (sign_mpool_message lib self m2) _ _ cid h2 in
      let (m, s) = sign_mpool_message_lem self.wallet_store m2 _ signature refl c in
      let (params, d, h4, _) = bind-ok (create_signed_message_params lib m2 signature) _ _ cid h3 in
      let (r, f, h5, _) =
        bind-ok (self.client.request lib.cid_map (codes "Filecoin.MpoolPush") params) _ _ cid h4 in
      (
        m,
        made_of msg m2 m n gas signature params r cid _ _
            (e2 ∙ ap (λ (x : MpoolPushMessage Address Cid). with_gas gas (with_version x)) e1) given
            s d f h5,
      )
