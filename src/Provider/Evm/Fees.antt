-- ===== src/Provider/Evm/Fees.antt =====
-- ipc/provider/src/manager/evm/manager.rs: the estimation of fees, from `premium_estimation` on.
-- The arithmetic of `U256` panics on an overflow. What the operators of `I256` do with a result
-- outside 256 bits is a parameter.
pub mod Median
mod Tests
use ipc_client.Base.{
  ℕ, zero, suc, ◌+◌, ◌*◌, ◌/◌, ◌^◌, Bool, true, false, ◌&&◌, Option, none, some, List, [], ◌∷◌,
  ◌++◌, Result, ok, err, panic, ok_or, ◌>>=◌, ltb, leb, nat_beq, if◌then◌else◌, length, drop, not,
}
use ipc_client.Base.Int.{ℤ, pos, negsuc, pos_part, neg_part, sub_ℕ, ltb_ℤ, max_ℤ}
use ipc_client.Base.Sorting.{get_elem?, sort}
use ipc_client.Base.Text.{Text, codes}
use ipc_client.Sdk.Contract.{collect}

abbrev pub u256_result : ℕ → Result Text ℕ
u256_result n = if ltb n (2 ^ 256) then ok n else panic

unfoldable pub base_fee_surged : ℕ → Result Text ℕ
base_fee_surged base_fee_per_gas =
    if leb base_fee_per_gas 40000000000
    then u256_result (base_fee_per_gas * 2)
    else if leb base_fee_per_gas 100000000000
    then (u256_result (base_fee_per_gas * 16) >>= λ n. ok (n / 10))
    else if leb base_fee_per_gas 200000000000
    then (u256_result (base_fee_per_gas * 14) >>= λ n. ok (n / 10))
    else u256_result (base_fee_per_gas * 12) >>= λ n. ok (n / 10)

-- `rewards.iter().map(|r| r[0])`
unfoldable pub first_rewards : List (List ℕ) → Result Text (List ℕ)
first_rewards [] = ok []
first_rewards ([] ∷ rewards) = panic
first_rewards ((r ∷ _) ∷ rewards) = first_rewards rewards >>= λ rest. ok (r ∷ rest)

-- `filter(|r| *r > U256::zero())`
unfoldable pub positive : List ℕ → List ℕ
positive [] = []
positive (r ∷ rewards) = if ltb 0 r then r ∷ positive rewards else positive rewards

abbrev pub rotate_left_one : {A : Type 0} → List A → List A
rotate_left_one [] = []
rotate_left_one (x ∷ xs) = xs ++ x ∷ []

abbrev pub zip : {A B : Type 0} → List A → List B → List (A × B)
zip [] ys = []
zip (x ∷ xs) [] = []
zip (x ∷ xs) (y ∷ ys) = (x, y) ∷ zip xs ys

-- `pop`, its result dropped
abbrev pub pop : {A : Type 0} → List A → List A
pop [] = []
pop (x ∷ []) = []
pop (x ∷ y ∷ ys) = x ∷ pop (y ∷ ys)

-- `iter().max()`
unfoldable pub max_of : List ℤ → Option ℤ
max_of [] = none
max_of (c ∷ cs) = elim (max_of cs) [ none ↦ some c | some m ↦ some (max_ℤ c m) ]

abbrev pub eqb_ℤ : ℤ → ℤ → Bool
eqb_ℤ (pos a) (pos b) = nat_beq a b
eqb_ℤ (negsuc a) (negsuc b) = nat_beq a b
eqb_ℤ _ _ = false

-- `iter().position(|&c| c == m)`
unfoldable pub position : ℤ → List ℤ → Option ℕ
position m [] = none
position m (c ∷ cs) =
    if eqb_ℤ c m then some 0 else elim (position m cs) [ some i ↦ some (suc i) | none ↦ none ]

abbrev pub unwrap : {A : Type 0} → Option A → Result Text A
unwrap (some a) = ok a
unwrap none = panic

abbrev pub in_i256 : ℤ → Bool
in_i256 c = ltb (pos_part c) (2 ^ 255) && leb (neg_part c) (2 ^ 255)

-- The median, `values[values.len() / 2]`.
unfoldable pub median : List ℕ → Result Text ℕ
median values = unwrap (get_elem? values (length values / 2))

-- The constant `EIP1559_FEE_ESTIMATION_THRESHOLD_MAX_CHANGE` of ethers, and `I256` on an overflow.
module _ (threshold_max_change : ℤ) (overflow : ℤ → Result Text ℤ) where
  abbrev pub i256_result : ℤ → Result Text ℤ
  i256_result c = if in_i256 c then ok c else overflow c

  -- `((b - a) * 100) / a`, rounded towards 0; both numbers are converted from `U256` first.
  unfoldable pub percentage : ℕ × ℕ → Result Text ℤ
  percentage (a, b) =
      if ltb a (2 ^ 255) && ltb b (2 ^ 255)
      then (i256_result (sub_ℕ (b * 100) (a * 100)) >>= λ c.
          ok (sub_ℕ (pos_part c / a) (neg_part c / a)))
      else panic

  -- The rewards that count: after a big change in the upper half, those from there on.
  unfoldable pub values_of : List ℕ → ℤ → ℕ → List ℕ
  values_of rewards max_change max_change_index =
      if not (ltb_ℤ max_change threshold_max_change) && leb (length rewards / 2) max_change_index
      then drop max_change_index rewards
      else rewards

  -- Two rewards at least, sorted.
  unfoldable pub of_sorted : List ℕ → Result Text ℕ
  unfolding percentage max_of position values_of median
  of_sorted rewards = collect percentage (zip rewards (rotate_left_one rewards)) >>= λ changes.
      unwrap (max_of (pop changes)) >>= λ max_change.
      unwrap (position max_change (pop changes)) >>= λ max_change_index.
      median (values_of rewards max_change max_change_index)

  unfoldable pub of_positive : List ℕ → Result Text ℕ
  unfolding of_sorted
  of_positive [] = ok 0
  of_positive (r ∷ []) = ok r
  of_positive (r ∷ s ∷ rewards) = of_sorted (sort (r ∷ s ∷ rewards))

  unfoldable pub estimate_priority_fee : List (List ℕ) → Result Text ℕ
  unfolding first_rewards of_positive
  estimate_priority_fee rewards = first_rewards rewards >>= λ firsts. of_positive (positive firsts)
