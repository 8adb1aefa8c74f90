-- ===== src/Sdk/SubnetId/Print.antt =====
-- The text of a subnet identifier is read back, and the errors and panics of reading it.
use mathlib.Core.List.{append-nil}
use ipc_client.Base.{
  ℕ, ◌<◌, ◌≡◌, ◌≢◌, refl, ap, ◌∙◌, true, false, some, List, [], ◌∷◌, ◌++◌, map, ok, panic, arith,
  ◌==◌, nat_eq, All,
}
use ipc_client.Base.Text.{Text, IsFree, split, extend_first, split-free, split-append}
use ipc_client.Base.Decimal.{
  u64_mod, print_u64, print_u64-AllDigits, AllDigits-IsFree, parse_u64-print_u64, parse_u64-lt,
}
use ipc_client.Sdk.Fvm.{AddressLib, IsLawful}
use ipc_client.Sdk.SubnetId.{
  SubnetId, non_empty, children_str, to_string, parse_children, from_pieces, from_str,
}

non_empty-cons : (s : Text) (l : List Text) → s ≢ [] → non_empty (s ∷ l) ≡ s ∷ non_empty l
non_empty-cons [] l h = absurd (h refl)
non_empty-cons (c ∷ s) l h = refl

module _ {Address : Type 0} ⦃fvm : AddressLib Address⦄ (lawful : IsLawful fvm) where
  split-children_str :
      (p : Text) (l : List Address)
      → IsFree b'/' p
      → split b'/' (p ++ children_str l) ≡ p ∷ map fvm.to_string l
  unfolding children_str
  split-children_str p [] h = rw (append-nil p) (split-free b'/' p h)
  split-children_str p (a ∷ l) h =
      split-append b'/' p (fvm.to_string a ++ children_str l) h
      ∙ ap (λ r. p ∷ r) (split-children_str (fvm.to_string a) l (lawful.slash_free a))

  non_empty-map : (l : List Address) → non_empty (map fvm.to_string l) ≡ map fvm.to_string l
  non_empty-map [] = refl
  non_empty-map (a ∷ l) =
      non_empty-cons (fvm.to_string a) (map fvm.to_string l) (lawful.to_string-ne-nil a)
      ∙ ap (λ r. fvm.to_string a ∷ r) (non_empty-map l)

  parse_children-map : (l : List Address) → parse_children (map fvm.to_string l) ≡ some l
  unfolding parse_children
  parse_children-map [] = refl
  parse_children-map (a ∷ l) = ground (arith, lawful.from_str-to_string a, parse_children-map l)

  pieces-to_string :
      (id : SubnetId Address)
      → non_empty (split b'/' (to_string id))
        ≡ (b'r' ∷ print_u64 id.root) ∷ map fvm.to_string id.children
  unfolding to_string split
  pieces-to_string id =
      let digits = AllDigits-IsFree b'/' (print_u64 id.root) refl (print_u64-AllDigits id.root) in
      rw (split-children_str (print_u64 id.root) id.children digits)
        (ap (λ r. (b'r' ∷ print_u64 id.root) ∷ r) (non_empty-map id.children))

  -- For addresses with a lawful text form and every 64-bit root: reading the text of an
  -- identifier gives the identifier.
  pub from_str-to_string :
      (id : SubnetId Address) → id.root < u64_mod → from_str (to_string id) ≡ ok id
  unfolding from_str
  from_str-to_string id h =
      rw (pieces-to_string id, from_pieces)
        (ground (arith, parse_u64-print_u64 id.root h, parse_children-map id.children))

split-All : (s : Text) → All (λ c. (c == b'/') ≡ true) s → non_empty (split b'/' s) ≡ []
unfolding split
split-All [] h = refl
split-All (c ∷ s) h = rw h.0 (split-All s h.1)

split-letter :
    (c : ℕ) (s : Text) → (c == b'/') ≡ false → split b'/' (c ∷ s) ≡ extend_first c (split b'/' s)
unfolding split
split-letter c s h = rw h

module _ {Address : Type 0} ⦃fvm : AddressLib Address⦄ where
  -- Reading a text of slashes alone, the empty text for one, panics.
  pub from_str-panic :
      (s : Text) → All (λ c. (c == b'/') ≡ true) s → from_str {Address = Address} s ≡ panic
  unfolding from_str
  from_str-panic s h = rw (split-All s h)

  from_pieces-root :
      (l : List Text) (id : SubnetId Address) → from_pieces l ≡ ok id → id.root < u64_mod
  unfolding from_pieces
  from_pieces-root [] id h = cc
  from_pieces-root ([] ∷ l) id h = cc
  from_pieces-root ((c ∷ s) ∷ l) id h = ground (arith, parse_u64-lt s id.root)

  -- An identifier that is read has a 64-bit root.
  pub from_str-root : (s : Text) (id : SubnetId Address) → from_str s ≡ ok id → id.root < u64_mod
  unfolding from_str
  from_str-root s id h = from_pieces-root (non_empty (split b'/' s)) id h

  from_pieces-letter :
      (c d : ℕ) (l : List Text)
      → c < 128
      → d < 128
      → from_pieces {Address = Address} (non_empty (extend_first c l))
        ≡ from_pieces (non_empty (extend_first d l))
  unfolding from_pieces
  from_pieces-letter c d [] h k = ground arith
  from_pieces-letter c d (s ∷ l) h k = ground arith

  -- The letter in front of the chain ID is not looked at: any ASCII character that is no slash
  -- stands for the `r`.
  pub from_str-letter :
      (c d : ℕ) (s : Text)
      → c < 128
      → d < 128
      → c ≢ b'/'
      → d ≢ b'/'
      → from_str {Address = Address} (b'/' ∷ c ∷ s) ≡ from_str (b'/' ∷ d ∷ s)
  unfolding from_str split
  from_str-letter c d s h k cs ds =
      let hc : (c == b'/') ≡ false = ground arith in
      let hd : (d == b'/') ≡ false = ground arith in
      rw (hc, hd) (from_pieces-letter c d (split b'/' s) h k)
