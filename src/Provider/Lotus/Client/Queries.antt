-- ===== src/Provider/Lotus/Client/Queries.antt =====
-- ipc/provider/src/lotus/client.rs: what LotusJsonRPCClient asks a node, and how it is made.
use ipc_client.Base.{
  ℕ, Bool, true, none, some, List, [], ◌∷◌, Result, ok, err, panic, nat_eq, list_eq, map,
}
use ipc_client.Base.Exec.{Exec, ◌>>=◌, pure, lift}
use ipc_client.Base.Int.{ℤ, negsuc}
use ipc_client.Base.Map.{Map, insert}
use ipc_client.Base.Text.{Text, codes}
use ipc_client.Sdk.Contract.{as_i64}
use ipc_client.Provider.Client.Wallets.{WalletKeyType, bls_key, secp256k1_key, secp256k1_ledger}
use ipc_client.Provider.Json.{null, bool, string, number, natural, json_array, json_object}
use ipc_client.Provider.Config.{Subnet, rpc_http, auth_token}
use ipc_client.Provider.JsonRpc
use ipc_client.Provider.JsonRpc.{JsonRpcClient, HttpClient, Deserialize, no_params}
use ipc_client.Provider.Lotus.{
  Encodings, CidMap, StateWaitMsgResponse, ReadStateResponse, GetTipSetByHeightResponse,
  ChainHeadResponse, of_cid, try_from,
}
use ipc_client.Provider.Lotus.Client.{Signature, Library, LotusClient, cid_value}

abbrev pub state_wait_confidence : ℕ
state_wait_confidence = 0

abbrev pub state_wait_look_back_no_limit : ℤ
state_wait_look_back_no_limit = negsuc 0

abbrev pub state_wait_allow_replace : Bool
state_wait_allow_replace = true

-- `WalletKeyType::as_ref`
abbrev pub key_type_text : WalletKeyType → Text
key_type_text bls_key = codes "bls"
key_type_text secp256k1_key = codes "secp256k1"
key_type_text secp256k1_ledger = codes "secp256k1-ledger"

module _ {Cid : Type 0} (encodings : Encodings Cid) where
  -- The loop that reads the identifiers of `state_actor_code_cids`.
  unfoldable pub cids_of : List (Text × CidMap) → Map Text Cid → Result Text (Map Text Cid)
  cids_of [] cids = ok cids
  cids_of ((key, cid_map) ∷ rest) cids = elim (try_from encodings cid_map) [
    | ok cid ↦ cids_of rest (insert key cid cids)
    | err e ↦ err e
    | panic ↦ panic
  ]

module _ {Address Cid World : Type 0} (lib : Library Address Cid)
    (self : LotusClient Address World) where
  unfoldable pub state_wait_msg : Cid → Exec Text World StateWaitMsgResponse
  state_wait_msg cid = self.client.request lib.waited (codes "Filecoin.StateWaitMsg") (
      json_array (
        cid_value (of_cid lib.encodings cid)
        ∷ natural state_wait_confidence
        ∷ number state_wait_look_back_no_limit
        ∷ bool state_wait_allow_replace
        ∷ []))

  unfoldable pub state_network_name : Exec Text World Text
  state_network_name = self.client.request lib.text (codes "Filecoin.StateNetworkName") null

  unfoldable pub state_network_version : List Cid → Exec Text World ℕ
  state_network_version tip_sets =
      self.client.request lib.number (codes "Filecoin.StateNetworkVersion")
        (json_array (json_array (map (λ c. cid_value (of_cid lib.encodings c)) tip_sets) ∷ []))

  unfoldable pub state_actor_code_cids : ℕ → Exec Text World (Map Text Cid)
  unfolding cids_of
  state_actor_code_cids network_version = do
    r ←
        self.client.request lib.cid_maps (codes "Filecoin.StateActorCodeCIDs")
          (json_array (natural network_version ∷ []))
    lift (cids_of lib.encodings r [])

  unfoldable pub wallet_default : Exec Text World Address
  wallet_default = do
    r ← self.client.request lib.text (codes "Filecoin.WalletDefaultAddress") (json_object [])
    lift (lib.address_from_str r)

  unfoldable pub wallet_list : Exec Text World (List Text)
  wallet_list = self.client.request lib.texts (codes "Filecoin.WalletList") (json_object [])

  unfoldable pub wallet_new : WalletKeyType → Exec Text World Text
  wallet_new key_type =
      self.client.request lib.text (codes "Filecoin.WalletNew")
        (json_array (string (key_type_text key_type) ∷ []))

  unfoldable pub wallet_balance : Address → Exec Text World ℤ
  wallet_balance address = do
    r ←
        self.client.request lib.text (codes "Filecoin.WalletBalance")
          (json_array (string (lib.address_text address) ∷ []))
    lift (lib.bigint_from_str r)

  unfoldable pub read_state :
      {State : Type 0}
      → Deserialize (ReadStateResponse State)
      → Address
      → Cid
      → Exec Text World (ReadStateResponse State)
  read_state decode address tipset = self.client.request decode (codes "Filecoin.StateReadState") (
      json_array (
        string (lib.address_text address)
        ∷ json_array (cid_value (of_cid lib.encodings tipset) ∷ [])
        ∷ []))

  unfoldable pub chain_head : Exec Text World ChainHeadResponse
  chain_head = self.client.request lib.head (codes "Filecoin.ChainHead") no_params

  unfoldable pub current_epoch : Exec Text World ℤ
  unfolding chain_head
  current_epoch = chain_head >>= λ r. pure (as_i64 r.height)

  unfoldable pub get_tipset_by_height : ℤ → Cid → Exec Text World GetTipSetByHeightResponse
  get_tipset_by_height epoch tip_set =
      self.client.request lib.tipset (codes "Filecoin.ChainGetTipSetByHeight") (
        json_array (number epoch ∷ json_array (cid_value (of_cid lib.encodings tip_set) ∷ []) ∷ []))

-- `LotusJsonRPCClient::new`
abbrev pub new : {Address World : Type 0} → JsonRpcClient World → LotusClient Address World
new client = record { client = client; wallet_store = none }

abbrev pub new_with_wallet_store :
    {Address World : Type 0}
    → JsonRpcClient World
    → (Address → List ℕ → Exec Text World Signature)
    → LotusClient Address World
new_with_wallet_store client wallet_store = record {
  client = client;
  wallet_store = some wallet_store;
}

module _ {Address Response World : Type 0} (http : HttpClient Response World) where
  -- A client of the URL and the token in a subnet's configuration.
  abbrev pub from_subnet : Subnet Address → LotusClient Address World
  from_subnet subnet = new (JsonRpc.client http (JsonRpc.new (rpc_http subnet) (auth_token subnet)))

  abbrev pub from_subnet_with_wallet_store :
      Subnet Address → (Address → List ℕ → Exec Text World Signature) → LotusClient Address World
  from_subnet_with_wallet_store subnet wallet_store =
      new_with_wallet_store
        (JsonRpc.client http (JsonRpc.new (rpc_http subnet) (auth_token subnet))) wallet_store
