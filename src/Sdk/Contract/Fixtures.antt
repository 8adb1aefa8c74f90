-- ===== src/Sdk/Contract/Fixtures.antt =====
-- Concrete conversions, for tests.
use ipc_client.Base.{ℕ, zero, suc, refl, some, List, [], ◌∷◌, Result, ok, err}
use ipc_client.Base.Text.{Text, codes}
use ipc_client.Base.Int.{ℤ, pos, negsuc}
use ipc_client.Sdk.Contract.{ContractLib}
use ipc_client.Sdk.Contract.RoundTrip.{IsLawful}

-- A number is its own text, with a sign before it when it is negative.
abbrev number_text : ℤ → Text
number_text (pos n) = n ∷ []
number_text (negsuc n) = b'-' ∷ suc n ∷ []

abbrev read_number : Text → Result Text ℕ
read_number (n ∷ []) = ok n
read_number _ = err (codes "invalid digit")

abbrev read_integer : Text → Result Text ℤ
read_integer (n ∷ []) = ok (pos n)
read_integer (s ∷ suc n ∷ []) = ok (negsuc n)
read_integer _ = err (codes "invalid digit")

-- Every address is a delegated one, and is its bytes.
abbrev pub bytes : ContractLib (List ℕ) (List ℕ)
bytes = record {
  delegated = some;
  debug_text = λ a. a;
  eth_from_str = ok;
  from_eth = λ a. a;
  atto_text = number_text;
  u256_from_dec_str = read_number;
  u256_text = λ n. n ∷ [];
  bigint_from_str = read_integer;
  to_fvm_address = ok;
  of_fvm_address = ok;
}

pub bytes-IsLawful : IsLawful bytes
bytes-IsLawful = record {
  eth_text = λ a l. refl;
  amount_text = λ n h. refl;
  u256_digits = λ n h. refl;
}

abbrev pub repeat : ℕ → ℕ → List ℕ
repeat zero x = []
repeat (suc n) x = x ∷ repeat n x
