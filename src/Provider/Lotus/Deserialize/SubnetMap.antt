-- ===== src/Provider/Lotus/Deserialize/SubnetMap.antt =====
-- A subnet that is written as a map is read back.
use mathlib.Core.List.{append-nil}
use ipc_client.Base.{
  ℕ, ◌<◌, ◌≡◌, refl, sym, ap, ◌∙◌, arith, false, none, some, List, [], ◌∷◌, ◌++◌, All, ok, ◌==◌,
  nat_eq, list_eq, ◌⊎◌, inl, inr,
}
use ipc_client.Base.Decimal.{
  print_u64, u64_mod, parse_u64-print_u64, print_u64-AllDigits, AllDigits,
}
use ipc_client.Base.Text.{Text, codes}
use ipc_client.Sdk.SubnetId.{new}
use ipc_client.Provider.Lotus.Deserialize.{
  Parsers, without_last, inner, starts_with_quote, root_of, children_of, Found, visit_entry,
  visit_entries, visit_map,
}

without_last-append : (s : Text) (c : ℕ) → without_last (s ++ c ∷ []) ≡ s
without_last-append [] c = refl
without_last-append (d ∷ []) c = refl
without_last-append (d ∷ b ∷ s) c = ap (λ t. d ∷ t) (without_last-append (b ∷ s) c)

-- The text of a number, as a text of JSON.
abbrev pub quoted : Text → Text
quoted s = b'"' ∷ s ++ b'"' ∷ []

inner-quoted : (s : Text) → inner (quoted s) ≡ ok s
inner-quoted [] = refl
inner-quoted (c ∷ s) = ap ok (without_last-append (c ∷ s) b'"')

-- Neither of the two keys that a subnet has.
abbrev pub IsForeign : Text × Text → Type 0
IsForeign (key, value) = ((key == codes "Root") ≡ false) × ((key == codes "Children") ≡ false)

module _ {Address : Type 0} (parsers : Parsers Address) where
  digits_are_no_quote : (s : Text) → AllDigits s → starts_with_quote s ≡ false
  digits_are_no_quote [] h = refl
  digits_are_no_quote (c ∷ s) h = ground (arith, h.0)

  -- The root is read from its digits, whether or not they are within quotes.
  abbrev pub IsRoot : ℕ → Text → Type 0
  IsRoot n s = (s ≡ print_u64 n) ⊎ (s ≡ quoted (print_u64 n))

  root_of_lem : (n : ℕ) (s : Text) → n < u64_mod → IsRoot n s → root_of parsers s ≡ ok n
  unfolding root_of
  root_of_lem n s h (inl e) =
      rw (e, digits_are_no_quote (print_u64 n) (print_u64-AllDigits n), parse_u64-print_u64 n h)
        refl
  root_of_lem n s h (inr e) = rw (e, inner-quoted (print_u64 n), parse_u64-print_u64 n h) refl

  -- Entries of other keys change nothing.
  skip :
      (xs ys : List (Text × Text)) (found : Found Address)
      → All IsForeign xs
      → visit_entries parsers (xs ++ ys) found ≡ visit_entries parsers ys found
  unfolding visit_entries visit_entry
  skip [] ys found h = refl
  skip ((key, value) ∷ xs) ys found h = rw (h.0.0, h.0.1) (skip xs ys found h.1)

  skip_to_end :
      (xs : List (Text × Text)) (found : Found Address)
      → All IsForeign xs
      → visit_entries parsers xs found ≡ ok found
  unfolding visit_entries
  skip_to_end xs found h =
      ap (λ l. visit_entries parsers l found) (sym (append-nil xs)) ∙ skip xs [] found h

  -- The two entries of a subnet, in either order and with others around.
  abbrev pub IsMapOf : Text → Text → List (Text × Text) → Type 0
  IsMapOf root children entries =
      (xs : List (Text × Text)) × (ys : List (Text × Text)) × (zs : List (Text × Text)) × All
        IsForeign xs
      × All IsForeign ys
      × All IsForeign zs
      × ((entries ≡ xs ++ ((codes "Root", root) ∷ (ys ++ ((codes "Children", children) ∷ zs))))
          ⊎ (entries ≡ xs ++ ((codes "Children", children) ∷ (ys ++ ((codes "Root", root) ∷ zs)))))

  -- A map that has an entry for the root, whose number fits 64 bits and is written in digits, within
  -- quotes or not, and one for the children, which are read, is read as that subnet: in either order
  -- of the two entries, and whatever other entries stand around them.
  pub visit_map_lem :
      (n : ℕ) (root children : Text) (addrs : List Address) (entries : List (Text × Text))
      → n < u64_mod
      → IsRoot n root
      → children_of parsers children ≡ ok addrs
      → IsMapOf root children entries
      → visit_map parsers entries ≡ ok (new n addrs)
  unfolding visit_map visit_entries visit_entry
  visit_map_lem n root children addrs entries h r c (xs, ys, zs, hx, hy, hz, inl e) =
      rw
        (
          e,
          skip xs ((codes "Root", root) ∷ (ys ++ (codes "Children", children) ∷ zs)) (none, none)
              hx,
          root_of_lem n root h r,
          skip ys ((codes "Children", children) ∷ zs) (some n, none) hy,
          c,
          skip_to_end zs (some n, some addrs) hz,
        )
        refl
  visit_map_lem n root children addrs entries h r c (xs, ys, zs, hx, hy, hz, inr e) =
      rw
        (
          e,
          skip xs ((codes "Children", children) ∷ (ys ++ (codes "Root", root) ∷ zs)) (none, none)
              hx,
          c,
          skip ys ((codes "Root", root) ∷ zs) (none, some addrs) hy,
          root_of_lem n root h r,
          skip_to_end zs (some n, some addrs) hz,
        )
        refl
