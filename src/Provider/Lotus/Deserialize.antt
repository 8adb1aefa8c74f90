-- ===== src/Provider/Lotus/Deserialize.antt =====
-- ipc/provider/src/lotus/message/deserialize.rs: how values of the node's JSON are read. Of the
-- derived code for structs only the texts of serde's own errors are parameters.
pub mod SubnetMap
mod Tests
use ipc_client.Base.{
  ℕ, Bool, true, false, Option, none, some, List, [], ◌∷◌, ◌^◌, Result, ok, err, panic, ◌>>=◌,
  map_err, ok_or, ltb, ◌==◌, Eq, nat_eq, list_eq, if◌then◌else◌, inl, inr,
}
use ipc_client.Base.Decimal.{parse_u64}
use ipc_client.Base.Int.{ℤ, pos}
use ipc_client.Base.Text.{Text, codes}
use ipc_client.Sdk.Contract.{collect}
use ipc_client.Sdk.SubnetId.{SubnetId, new}
use ipc_client.Provider.Json.{Value, number, float, string}

-- Serde and the parsers of other crates. A raw value is the text of a value.
pub record Parsers (Address : Type 0) : Type 0 where
  -- `BigInt::from_str` and `Address::from_str`, an error as its text
  pub bigint_from_str : Text → Result Text ℤ
  pub address_from_str : Text → Result Text Address
  -- `serde_json::from_str::<Vec<String>>`
  pub texts_from_str : Text → Result Text (List Text)
  -- The error of `parse::<u64>`, and serde's for a value of another type than the one that is named.
  pub parse_int_error : Text → Text
  pub invalid_type : Value → Text → Text

-- `s[1..s.len() - 1]`
abbrev pub without_last : Text → Text
without_last [] = []
without_last (c ∷ []) = []
without_last (c ∷ d ∷ s) = c ∷ without_last (d ∷ s)

abbrev pub inner : Text → Result Text Text
inner [] = panic
inner (c ∷ []) = panic
inner (c ∷ d ∷ s) = ok (without_last (d ∷ s))

abbrev pub starts_with_quote : Text → Bool
starts_with_quote [] = false
starts_with_quote (c ∷ s) = c == b'"'

-- What the loop over the entries has found.
abbrev pub Found : Type 0 → Type 0
Found Address = Option ℕ × Option (List Address)

abbrev pub both : {Address : Type 0} → Found Address → Result Text (SubnetId Address)
both (some root, some children) = ok (new root children)
both (some root, none) = err (codes "parent or actor not present")
both (none, children) = err (codes "parent or actor not present")

module _ {Address : Type 0} (parsers : Parsers Address) where
  -- `deserialize_str` with a visitor that has `visit_str` only.
  abbrev pub deserialize_str : {A : Type 0} → (Text → Result Text A) → Value → Result Text A
  deserialize_str visit_str (string v) = visit_str v
  deserialize_str visit_str value = err (parsers.invalid_type value (codes "a string"))

  unfoldable pub deserialize_token_amount_from_str : Value → Result Text ℤ
  deserialize_token_amount_from_str = deserialize_str parsers.bigint_from_str

  unfoldable pub deserialize_some_token_amount_from_str : Value → Result Text (Option ℤ)
  deserialize_some_token_amount_from_str =
      deserialize_str (λ v. parsers.bigint_from_str v >>= λ u. ok (some u))

  unfoldable pub deserialize_address_from_str : Value → Result Text Address
  deserialize_address_from_str = deserialize_str parsers.address_from_str

  -- The `Root` of a subnet, a number or the text of one.
  unfoldable pub root_of : Text → Result Text ℕ
  root_of s =
      if starts_with_quote s
      then (inner s >>= λ digits. ok_or (parse_u64 digits) (parsers.parse_int_error digits))
      else ok_or (parse_u64 s) (parsers.parse_int_error s)

  unfoldable pub children_of : Text → Result Text (List Address)
  children_of s = parsers.texts_from_str s >>= λ v. collect parsers.address_from_str v

  -- One turn of the loop over the entries.
  unfoldable pub visit_entry : Text × Text → Found Address → Result Text (Found Address)
  unfolding root_of children_of
  visit_entry (key, value) (root, children) =
      if key == codes "Root"
      then (root_of value >>= λ id. ok (some id, children))
      else if key == codes "Children"
      then (children_of value >>= λ addr. ok (root, some addr))
      else ok (root, children)

  unfoldable pub visit_entries : List (Text × Text) → Found Address → Result Text (Found Address)
  unfolding visit_entry
  visit_entries [] found = ok found
  visit_entries (entry ∷ entries) found = visit_entry entry found >>= visit_entries entries

  -- The visitor of `deserialize_subnet_id_from_map`, at the entries of the map.
  unfoldable pub visit_map : List (Text × Text) → Result Text (SubnetId Address)
  unfolding visit_entries
  visit_map entries = visit_entries entries (none, none) >>= both

-- `deserialize_some_token_amount_from_num`, whose error text has its braces unfilled.
unfoldable pub deserialize_some_token_amount_from_num : Value → Result Text (Option ℤ)
deserialize_some_token_amount_from_num (number (pos n)) =
    if ltb n (2 ^ 64) then ok (some (pos n)) else err (codes "cannot parse to u64")
deserialize_some_token_amount_from_num (number n) = err (codes "cannot parse to u64")
deserialize_some_token_amount_from_num (float n) = err (codes "cannot parse to u64")
deserialize_some_token_amount_from_num _ = err (codes "unknown type: {val:?}")
