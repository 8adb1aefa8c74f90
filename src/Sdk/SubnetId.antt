-- ===== src/Sdk/SubnetId.antt =====
-- ipc/sdk/src/subnet_id.rs and error.rs: the identifier of a subnet, its place in the hierarchy,
-- and its text.
pub mod Hierarchy
pub mod Print
use ipc_client.Base.{
  ℕ, zero, suc, ◌+◌, ◌%◌, Bool, true, false, ◌&&◌, ◌≡◌, ◌↔◌, arith, list_beq, list_beq_iff,
  nat_beq_iff, Option, none, some, List, [], ◌∷◌, ◌++◌, Result, ok, panic, ok_or, inl, inr, ◌>>=◌,
  Eq, ◌==◌, nat_eq, ltb, leb, if◌then◌else◌, length, take, last,
}
use ipc_client.Base.Text.{Text, split}
use ipc_client.Base.Decimal.{print_u64, parse_u64}
use ipc_client.Sdk.Fvm.{AddressLib}

-- error.rs: the variant `Actor` exists only under the feature `fil-actor`.
pub data Error (E : Type 0) : Type 0 where
  invalid_id : Error E
  invalid_ipc_addr : Error E
  fvm_address_error : E → Error E

abbrev pub max_chain_id : ℕ
max_chain_id = 4503599627370476

pub record SubnetId (Address : Type 0) : Type 0 where
  pub root : ℕ
  pub children : List Address

module _ {Address : Type 0} ⦃e : Eq Address⦄ where
  abbrev pub subnet_beq : SubnetId Address → SubnetId Address → Bool
  subnet_beq a b = a.root == b.root && list_beq a.children b.children

  pub subnet_beq_iff : (a b : SubnetId Address) → (subnet_beq a b ≡ true) ↔ (a ≡ b)
  subnet_beq_iff a b = ground (arith, nat_beq_iff a.root b.root, list_beq_iff a.children b.children)

  -- The derived `PartialEq` of `SubnetID`.
  instance abbrev pub subnet_id_eq : Eq (SubnetId Address)
  subnet_id_eq = record { beq = subnet_beq; beq_iff = subnet_beq_iff }

module _ {Address : Type 0} where
  -- `UNDEF`, and `SubnetID::default`
  abbrev pub undef : SubnetId Address
  undef = record { root = 0; children = [] }

  abbrev pub new : ℕ → List Address → SubnetId Address
  new root_id children = record { root = root_id; children = children }

  unfoldable pub new_from_parent : SubnetId Address → Address → SubnetId Address
  new_from_parent parent subnet_act = record {
    root = parent.root;
    children = parent.children ++ subnet_act ∷ [];
  }

  abbrev pub new_root : ℕ → SubnetId Address
  new_root root_id = record { root = root_id; children = [] }

  abbrev pub is_empty : List Address → Bool
  is_empty [] = true
  is_empty (a ∷ l) = false

  unfoldable pub is_root : SubnetId Address → Bool
  is_root self = is_empty self.children

  -- `subnet_actor`; the address with ID 0 is a parameter
  unfoldable pub subnet_actor : ⦃fvm : AddressLib Address⦄ → SubnetId Address → Address
  subnet_actor ⦃fvm⦄ self = elim (last self.children) [ some addr ↦ addr | none ↦ fvm.new_id 0 ]

  -- `children[..children.len() - 1]` of a list that is not empty
  abbrev pub all_but_last : List Address → List Address
  all_but_last [] = []
  all_but_last (a ∷ []) = []
  all_but_last (a ∷ b ∷ l) = a ∷ all_but_last (b ∷ l)

  unfoldable pub parent : SubnetId Address → Option (SubnetId Address)
  parent self =
      if is_empty self.children then none else some (new self.root (all_but_last self.children))

  -- `iter().zip(other).take_while(|(a, b)| a == b).count()`
  unfoldable pub common_count : ⦃e : Eq Address⦄ → List Address → List Address → ℕ
  common_count [] bs = 0
  common_count (a ∷ as') [] = 0
  common_count (a ∷ as') (b ∷ bs) =
      let more = suc (common_count as' bs) in if a == b then more else 0

  unfoldable pub common_parent :
      ⦃e : Eq Address⦄ → SubnetId Address → SubnetId Address → Option (ℕ × SubnetId Address)
  common_parent self other =
      let common = common_count self.children other.children in
      if self.root == other.root
      then some (common, new self.root (take common self.children))
      else none

  unfoldable pub down :
      ⦃e : Eq Address⦄ → SubnetId Address → SubnetId Address → Option (SubnetId Address)
  down self from =
      if leb (length self.children) (length from.children)
      then none
      else elim (common_parent self from) [
        | some (i, _) ↦ some (new self.root (take (i + 1) self.children))
        | none ↦ none
      ]

  -- `children[..i - 1]`: at 0 the subtraction or, if it wraps, the slice panics.
  abbrev pub slice_before : ℕ → SubnetId Address → Result ⊥ (Option (SubnetId Address))
  slice_before zero self = panic
  slice_before (suc i) self = ok (some (new self.root (take i self.children)))

  unfoldable pub up :
      ⦃e : Eq Address⦄ → SubnetId Address → SubnetId Address → Result ⊥ (Option (SubnetId Address))
  up self from =
      if ltb (length self.children) (length from.children)
      then ok none
      else elim (common_parent self from) [ some (i, _) ↦ slice_before i self | none ↦ ok none ]

-- `filter(|&elem| !elem.is_empty())`
abbrev pub non_empty : List Text → List Text
non_empty [] = []
non_empty ([] ∷ l) = non_empty l
non_empty ((c ∷ s) ∷ l) = (c ∷ s) ∷ non_empty l

-- `l[0][1..]`: it panics if there is nothing to drop, or if byte 1 lies inside the first character.
abbrev pub drop_first : {E : Type 0} → Text → Result E Text
drop_first [] = panic
drop_first (c ∷ s) = if ltb c 128 then ok s else panic

module _ {Address : Type 0} ⦃fvm : AddressLib Address⦄ where
  -- The fold of `Display`, one `write!` for each child.
  unfoldable pub children_str : List Address → Text
  children_str [] = []
  children_str (s ∷ rest) = b'/' ∷ (fvm.to_string s ++ children_str rest)

  unfoldable pub to_string : SubnetId Address → Text
  unfolding children_str
  to_string self = b'/' ∷ b'r' ∷ (print_u64 self.root ++ children_str self.children)

  -- `hasher` is the digest of the crate fnv: write the bytes, finish.
  unfoldable pub chain_id : (Text → ℕ) → SubnetId Address → ℕ
  chain_id hasher self = if is_root self then self.root else hasher (to_string self) % max_chain_id

  -- `iter().map(Address::from_str).collect::<Result<Vec<_>, _>>()`, the first error dropped
  unfoldable pub parse_children : List Text → Option (List Address)
  parse_children [] = some []
  parse_children (s ∷ l) = elim (fvm.from_str s) [
    | inr a ↦ elim (parse_children l) [ some rest ↦ some (a ∷ rest) | none ↦ none ]
    | inl e ↦ none
  ]

  unfoldable pub from_pieces : List Text → Result (Error fvm.Error) (SubnetId Address)
  from_pieces [] = panic
  from_pieces (first ∷ rest) = do
    digits ← drop_first first
    root ← ok_or (parse_u64 digits) invalid_id
    children ← ok_or (parse_children rest) invalid_id
    ok (new root children)

  unfoldable pub from_str : Text → Result (Error fvm.Error) (SubnetId Address)
  unfolding from_pieces parse_children
  from_str id = from_pieces (non_empty (split b'/' id))
