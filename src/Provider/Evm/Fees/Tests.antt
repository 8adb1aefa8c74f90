-- ===== src/Provider/Evm/Fees/Tests.antt =====
-- Estimates for concrete blocks.
use ipc_client.Base.{
  ℕ, ◌*◌, ◌<◌, ◌≡◌, refl, arith, List, [], ◌∷◌, Result, ok, panic, ◌⊎◌, length, leb, nat_beq,
}
use ipc_client.Base.Int.{ℤ, pos}
use ipc_client.Base.Sorting.{count, sort}
use ipc_client.Base.Text.{Text}
use ipc_client.Sdk.Contract.{collect}
use ipc_client.Provider.Evm.Fees.{first_rewards, positive, estimate_priority_fee}
use ipc_client.Provider.Evm.Fees.Median.{estimate_priority_fee_bounds}

abbrev overflow : ℤ → Result Text ℤ
overflow c = panic

-- The change from 6 to 60 is the greatest, and lies in the upper half.
abbrev blocks : List (List ℕ)
blocks = (60 ∷ []) ∷ (5 ∷ 9 ∷ []) ∷ (0 ∷ []) ∷ (6 ∷ []) ∷ (4 ∷ []) ∷ []

blocks_firsts : first_rewards blocks ≡ ok (60 ∷ 5 ∷ 0 ∷ 6 ∷ 4 ∷ [])
unfolding first_rewards
blocks_firsts = refl

jump : estimate_priority_fee (pos 200) overflow blocks ≡ ok 60
unfolding estimate_priority_fee sort positive collect
jump = refl

no_jump : estimate_priority_fee (pos 2000) overflow blocks ≡ ok 6
unfolding estimate_priority_fee sort positive collect
no_jump = refl

empty_block : estimate_priority_fee (pos 200) overflow ([] ∷ []) ≡ panic
unfolding estimate_priority_fee
empty_block = refl

estimate_priority_fee_bounds_example :
    (m : ℕ) × (estimate_priority_fee (pos 200) overflow blocks ≡ ok m)
    × ((positive (60 ∷ 5 ∷ 0 ∷ 6 ∷ 4 ∷ []) ≡ []) × (m ≡ 0)
        ⊎ (0 < count (λ r. nat_beq r m) (positive (60 ∷ 5 ∷ 0 ∷ 6 ∷ 4 ∷ [])))
          × (length (positive (60 ∷ 5 ∷ 0 ∷ 6 ∷ 4 ∷ []))
              < 2 * count (λ r. leb r m) (positive (60 ∷ 5 ∷ 0 ∷ 6 ∷ 4 ∷ []))))
unfolding positive
estimate_priority_fee_bounds_example =
    estimate_priority_fee_bounds (pos 200) overflow blocks (60 ∷ 5 ∷ 0 ∷ 6 ∷ 4 ∷ []) blocks_firsts
      (omega arith)
