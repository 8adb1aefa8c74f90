-- ===== src/Sdk/Tests.antt =====
-- The theorems on identifiers, addresses and messages, at concrete subnets.
use ipc_client.Base.{
  ℕ, ◌≡◌, ◌≢◌, ◌↔◌, ◌⊎◌, refl, arith, false, some, [], ◌∷◌, ok, panic, length, nat_eq,
}
use ipc_client.Base.Text.{codes}
use ipc_client.Sdk.Fixtures.{numbers, numbers-IsLawful}
use ipc_client.Sdk.SubnetId.{
  SubnetId, new_from_parent, parent, common_parent, down, up, from_str, to_string,
}
use ipc_client.Sdk.SubnetId.Hierarchy.{
  IsBelow, common_parent-greatest, down-below, up-below, parent_or_panic,
}
use ipc_client.Sdk.SubnetId.Print.{from_str-to_string, from_str-panic, from_str-letter}
use ipc_client.Sdk.IpcAddress.{IpcAddress}
use ipc_client.Sdk.Cross.{is_bottomup}
use ipc_client.Sdk.Cross.Direction.{is_bottomup_iff}

abbrev root_subnet : SubnetId ℕ
root_subnet = record { root = 314; children = [] }

abbrev child : SubnetId ℕ
child = record { root = 314; children = 1 ∷ [] }

abbrev grandchild : SubnetId ℕ
grandchild = record { root = 314; children = 1 ∷ 2 ∷ [] }

abbrev cousin : SubnetId ℕ
cousin = record { root = 314; children = 1 ∷ 3 ∷ 4 ∷ [] }

abbrev grandchild_of_one : SubnetId ℕ
grandchild_of_one = record { root = 314; children = 1 ∷ 3 ∷ [] }

abbrev stranger : SubnetId ℕ
stranger = record { root = 314; children = 5 ∷ 6 ∷ [] }

abbrev child_address : IpcAddress ℕ
child_address = record { subnet_id = child; raw_address = 9 }

grandchild_parent : parent grandchild ≡ some child
unfolding parent
grandchild_parent = refl

common_parent-greatest_example :
    (p : SubnetId ℕ) × (common_parent grandchild cousin ≡ some (length p.children, p))
    × IsBelow p grandchild
    × IsBelow p cousin
    × IsBelow root_subnet p
common_parent-greatest_example =
    common_parent-greatest grandchild cousin root_subnet (refl, 1 ∷ 2 ∷ [], refl)
      (refl, 1 ∷ 3 ∷ 4 ∷ [], refl)

down-below_example : down cousin child ≡ some (new_from_parent child 3)
down-below_example = down-below cousin child 3 (4 ∷ []) refl refl

up-below_example : up cousin grandchild_of_one ≡ parent_or_panic (parent grandchild_of_one)
up-below_example = up-below cousin grandchild_of_one (refl, 4 ∷ [], refl)

from_str-to_string_example : from_str (to_string cousin) ≡ ok cousin
from_str-to_string_example = from_str-to_string numbers-IsLawful cousin (ground arith)

from_str-panic_example : from_str {Address = ℕ} (codes "//") ≡ panic
from_str-panic_example = from_str-panic (codes "//") (refl, (refl, tt))

from_str-letter_example :
    from_str {Address = ℕ} (b'/' ∷ b'r' ∷ codes "314") ≡ from_str (b'/' ∷ b'q' ∷ codes "314")
from_str-letter_example =
    from_str-letter b'r' b'q' (codes "314") (omega arith) (omega arith) (λ h. absurd (omega arith))
      (λ h. absurd (omega arith))

is_bottomup_iff_example :
    (is_bottomup child cousin ≡ false) ↔ ((child.root ≢ cousin.root) ⊎ IsBelow child cousin)
is_bottomup_iff_example = is_bottomup_iff child cousin
