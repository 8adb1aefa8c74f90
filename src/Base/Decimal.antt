-- ===== src/Base/Decimal.antt =====
-- Rust's decimal `Display` and `FromStr` of `u64`.
use native.Mathlib.Nat.{pow-suc}
use Prim.Native.Nat.{ℕ, zero, suc, ◌+◌, ◌-◌, ◌*◌, ◌/◌, ◌%◌, ◌^◌, ◌<◌}
use mathlib.Core.Path.{◌≡◌, refl, sym, ap, ◌∙◌}
use mathlib.Core.Bool.{Bool, true, false, ◌&&◌}
use mathlib.Core.Logic.{◌≢◌, inl, inr}
use mathlib.Core.Option.{Option, none, some}
use mathlib.Core.List.{[], ◌∷◌, ◌++◌, append_assoc, append-nil}
use native.Mathlib.Omega.{arith}
use ipc_client.Base.Tests.{◌==◌, nat_eq, ltb, leb, if◌then◌else◌, Bool-cases}
use ipc_client.Base.Lists.{All}
use ipc_client.Base.Text.{Text, IsFree}

abbrev pub u64_mod : ℕ
u64_mod = 2 ^ 64

-- The decimal digits of a number below 10 ^ fuel.
print_digits : ℕ → ℕ → Text
print_digits zero n = []
print_digits (suc fuel) n =
    let rest = print_digits fuel (n / 10) in
    if ltb n 10 then (48 + n) ∷ [] else rest ++ (48 + n % 10) ∷ []

-- `format!("{n}")` of a u64, which has at most 20 digits.
unfoldable pub print_u64 : ℕ → Text
unfolding print_digits
print_u64 n = print_digits 20 n

-- The loop of `u64::from_str`: every step is checked for overflow.
parse_digits : ℕ → Text → Option ℕ
parse_digits acc [] = some acc
parse_digits acc (c ∷ s) =
    let value = acc * 10 + (c - 48) in
    let rest = parse_digits value s in
    if leb 48 c && leb c 57 && ltb value u64_mod then rest else none

-- `s.parse::<u64>().ok()`: one leading plus sign is accepted, a sign alone is not.
unfoldable pub parse_u64 : Text → Option ℕ
unfolding parse_digits
parse_u64 [] = none
parse_u64 (c ∷ []) = if c == b'+' then none else parse_digits 0 (c ∷ [])
parse_u64 (c ∷ d ∷ s) = if c == b'+' then parse_digits 0 (d ∷ s) else parse_digits 0 (c ∷ d ∷ s)

abbrev pub is_digit : ℕ → Bool
is_digit c = leb 48 c && leb c 57

abbrev pub AllDigits : Text → Type 0
AllDigits = All (λ c. is_digit c ≡ true)

AllDigits-append : (s t : Text) → AllDigits s → AllDigits t → AllDigits (s ++ t)
AllDigits-append [] t h k = k
AllDigits-append (c ∷ s) t h k = (h.0, AllDigits-append s t h.1 k)

append_one-ne-nil : (s : Text) (c : ℕ) → s ++ c ∷ [] ≢ []
append_one-ne-nil [] c e = cc
append_one-ne-nil (d ∷ s) c e = cc

print_digits-AllDigits : (f n : ℕ) → AllDigits (print_digits f n)
unfolding print_digits
print_digits-AllDigits zero n = tt
print_digits-AllDigits (suc f) n = ground (
  arith,
  print_digits-AllDigits f (n / 10),
  AllDigits-append (print_digits f (n / 10)) ((48 + n % 10) ∷ []),
)

pub print_u64-AllDigits : (n : ℕ) → AllDigits (print_u64 n)
unfolding print_u64
print_u64-AllDigits n = print_digits-AllDigits 20 n

-- A separator that is no digit does not occur among digits.
pub AllDigits-IsFree : (sep : ℕ) (s : Text) → is_digit sep ≡ false → AllDigits s → IsFree sep s
AllDigits-IsFree sep [] h k = tt
AllDigits-IsFree sep (c ∷ s) h k = (ground arith, AllDigits-IsFree sep s h k.1)

parse_digits-digit :
    (acc d : ℕ) (t : Text)
    → d < 10
    → acc * 10 + d < u64_mod
    → parse_digits acc ((48 + d) ∷ t) ≡ parse_digits (acc * 10 + d) t
unfolding parse_digits
parse_digits-digit acc d t h k = let e : 48 + d - 48 ≡ d = omega arith in rw e (ground arith)

-- One digit, or the digits of the quotient and one more: both printed lengths are covered.
parse_digits-print_digits :
    (f n : ℕ) (t : Text)
    → n < 10 ^ suc f
    → n < u64_mod
    → parse_digits 0 (print_digits (suc f) n ++ t) ≡ parse_digits n t
unfolding print_digits
parse_digits-print_digits zero n t h k = ground (arith, parse_digits-digit 0 n t)
parse_digits-print_digits (suc f) n t h k =
    let last : n / 10 * 10 + n % 10 ≡ n = omega arith in
    let small : n / 10 < 10 ^ suc f = omega (arith, pow-suc 10 (suc f)) in
    elim (Bool-cases (ltb n 10)) [
      | inl few ↦ rw few (ground (arith, parse_digits-digit 0 n t))
      | inr many ↦
          rw (many, append_assoc)
            (parse_digits-print_digits f (n / 10) ((48 + n % 10) ∷ t) small (omega arith)
              ∙ parse_digits-digit (n / 10) (n % 10) t (omega arith) (omega arith)
              ∙ ap (λ v. parse_digits v t) last)
    ]

print_digits-ne-nil : (f n : ℕ) → print_digits (suc f) n ≢ []
unfolding print_digits
print_digits-ne-nil f n = elim (Bool-cases (ltb n 10)) [
  | inl few ↦ rw few (λ e. cc)
  | inr many ↦ rw many (append_one-ne-nil (print_digits f (n / 10)) (48 + n % 10))
]

pub print_u64-ne-nil : (n : ℕ) → print_u64 n ≢ []
unfolding print_u64
print_u64-ne-nil n = print_digits-ne-nil 19 n

parse_u64-digits : (s : Text) → AllDigits s → s ≢ [] → parse_u64 s ≡ parse_digits 0 s
unfolding parse_u64
parse_u64-digits [] h k = absurd (k refl)
parse_u64-digits (c ∷ []) h k = ground arith
parse_u64-digits (c ∷ d ∷ s) h k = ground arith

-- Printing a 64-bit number and parsing the digits gives the number back.
pub parse_u64-print_u64 : (n : ℕ) → n < u64_mod → parse_u64 (print_u64 n) ≡ some n
unfolding print_u64
parse_u64-print_u64 n h =
    parse_u64-digits (print_u64 n) (print_u64-AllDigits n) (print_u64-ne-nil n)
    ∙ ap (parse_digits 0) (sym (append-nil (print_digits 20 n)))
    ∙ parse_digits-print_digits 19 n [] (omega arith) h
    ∙ unfold parse_digits in refl

parse_digits-lt :
    (acc : ℕ) (s : Text) (n : ℕ) → acc < u64_mod → parse_digits acc s ≡ some n → n < u64_mod
unfolding parse_digits
parse_digits-lt acc [] n h e = ground arith
parse_digits-lt acc (c ∷ s) n h e = ground (arith, parse_digits-lt (acc * 10 + (c - 48)) s n)

-- What parses fits 64 bits.
pub parse_u64-lt : (s : Text) (n : ℕ) → parse_u64 s ≡ some n → n < u64_mod
unfolding parse_u64
parse_u64-lt [] n e = cc
parse_u64-lt (c ∷ []) n e = ground (arith, parse_digits-lt 0 (c ∷ []) n)
parse_u64-lt (c ∷ d ∷ s) n e =
    ground (arith, parse_digits-lt 0 (d ∷ s) n, parse_digits-lt 0 (c ∷ d ∷ s) n)
