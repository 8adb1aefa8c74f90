-- ===== src/Provider/Json.antt =====
-- JSON as the crate serde_json has it, with what the clients of nodes use.
use ipc_client.Base.{ℕ, Bool, Option, none, some, List, [], ◌∷◌}
use ipc_client.Base.Int.{ℤ, pos}
use ipc_client.Base.Text.{Text}

-- `serde_json::Value`. A number is an integer, or a float, of which only the text is kept. An object
-- has its fields in the order in which they were written.
mutual
  pub data Value : Type 0 where
    null : Value
    bool : Bool → Value
    number : ℤ → Value
    float : Text → Value
    string : Text → Value
    array : Items → Value
    object : Fields → Value

  pub data Items : Type 0 where
    no_items : Items
    item : Value → Items → Items

  pub data Fields : Type 0 where
    no_fields : Fields
    field : Text → Value → Fields → Fields

abbrev pub items : List Value → Items
items [] = no_items
items (v ∷ vs) = item v (items vs)

abbrev pub fields : List (Text × Value) → Fields
fields [] = no_fields
fields ((k, v) ∷ kvs) = field k v (fields kvs)

-- `json!([..])` and `json!({..})`
abbrev pub json_array : List Value → Value
json_array vs = array (items vs)

abbrev pub json_object : List (Text × Value) → Value
json_object kvs = object (fields kvs)

-- A number that is not negative.
abbrev pub natural : ℕ → Value
natural n = number (pos n)

-- An `Option`, serialised.
abbrev pub optional : {A : Type 0} → (A → Value) → Option A → Value
optional f none = null
optional f (some a) = f a
