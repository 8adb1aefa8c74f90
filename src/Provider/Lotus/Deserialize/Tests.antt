-- ===== src/Provider/Lotus/Deserialize/Tests.antt =====
-- Values of a node's JSON, read.
use ipc_client.Base.{◌≡◌, refl, arith, some, List, [], ◌∷◌, ok, err, inr}
use ipc_client.Base.Decimal.{print_u64}
use ipc_client.Base.Int.{pos, negsuc}
use ipc_client.Base.Text.{Text, codes}
use ipc_client.Sdk.Contract.{collect}
use ipc_client.Sdk.SubnetId.{new}
use ipc_client.Provider.Json.{number, null, string}
use ipc_client.Provider.Lotus.Deserialize.{
  Parsers, visit_map, children_of, deserialize_some_token_amount_from_num,
  deserialize_some_token_amount_from_str, deserialize_token_amount_from_str,
}
use ipc_client.Provider.Lotus.Deserialize.SubnetMap.{visit_map_lem}

-- An address is its text, and a list of texts is one text.
abbrev parsers : Parsers Text
parsers = record {
  bigint_from_str = λ s. ok (pos 7);
  address_from_str = ok;
  texts_from_str = λ s. ok (s ∷ []);
  parse_int_error = λ s. s;
  invalid_type = λ v s. s;
}

abbrev entries : List (Text × Text)
entries =
    (codes "Name", codes "x")
    ∷ (codes "Children", codes "f01")
    ∷ (codes "Root", codes "\"314\"")
    ∷ []

visit_map_lem_example : visit_map parsers entries ≡ ok (new 314 (codes "f01" ∷ []))
unfolding print_u64 children_of collect
visit_map_lem_example =
    visit_map_lem parsers 314 (codes "\"314\"") (codes "f01") (codes "f01" ∷ []) entries
      (ground arith) (inr refl) refl
      ((codes "Name", codes "x") ∷ [], [], [], ((refl, refl), tt), tt, tt, inr refl)

no_root :
    visit_map parsers ((codes "Children", codes "f01") ∷ [])
    ≡ err (codes "parent or actor not present")
unfolding visit_map collect
no_root = refl

amounts :
    (deserialize_some_token_amount_from_num (number (pos 5)) ≡ ok (some (pos 5)))
    × (deserialize_some_token_amount_from_num (number (negsuc 0))
        ≡ err (codes "cannot parse to u64"))
    × (deserialize_some_token_amount_from_str parsers (string (codes "7")) ≡ ok (some (pos 7)))
    × (deserialize_token_amount_from_str parsers null ≡ err (codes "a string"))
unfolding deserialize_some_token_amount_from_num deserialize_some_token_amount_from_str
    deserialize_token_amount_from_str
amounts = (refl, refl, refl, refl)
