-- ===== src/Sdk/Fixtures.antt =====
-- A type of addresses with a lawful text form, for tests.
use ipc_client.Base.{
  ℕ, zero, suc, ◌≡◌, refl, ap, arith, [], ◌∷◌, length, ◌⊎◌, inl, inr, if◌then◌else◌, ◌==◌, nat_eq,
}
use ipc_client.Base.Text.{Text, IsFree}
use ipc_client.Sdk.Fvm.{id, delegated, AddressLib, IsLawful}

-- The number `n` as `n` letters.
abbrev pub unary : ℕ → Text
unary zero = []
unary (suc n) = b'x' ∷ unary n

pub length-unary : (n : ℕ) → length (unary n) ≡ n
length-unary zero = refl
length-unary (suc n) = omega (arith, length-unary n)

unary-IsFree : (n : ℕ) → IsFree b'/' (unary n) × IsFree b':' (unary n)
unary-IsFree zero = (tt, tt)
unary-IsFree (suc n) = ((refl, (unary-IsFree n).0), (refl, (unary-IsFree n).1))

abbrev pub read_unary : Text → (Unit {0}) ⊎ ℕ
read_unary [] = inl tt
read_unary (c ∷ s) = inr (length s)

-- An address is a number; 7 is a delegated address.
instance abbrev pub numbers : AddressLib ℕ
numbers = record {
  Error = Unit {0};
  to_string = λ n. b'f' ∷ unary n;
  from_str = read_unary;
  new_id = λ n. n;
  protocol = λ n. if n == 7 then delegated else id;
}

pub numbers-IsLawful : IsLawful numbers
numbers-IsLawful = record {
  from_str-to_string = λ n. ap inr (length-unary n);
  to_string-ne-nil = λ n h. cc;
  slash_free = λ n. (refl, (unary-IsFree n).0);
  colon_free = λ n. (refl, (unary-IsFree n).1);
}
