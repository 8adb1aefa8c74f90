-- ===== src/Base/Map.antt =====
-- `HashMap` as an association list with one entry for each key. The order of the entries stands for
-- the order in which the table iterates, which Rust leaves open.
use mathlib.Core.Path.{◌≡◌, refl, ap}
use mathlib.Core.Logic.{inl, inr}
use mathlib.Core.Option.{Option, none, some}
use mathlib.Core.List.{List, [], ◌∷◌}
use native.Mathlib.Omega.{arith}
use ipc_client.Base.Tests.{Eq, Bool-cases, ◌==◌, if◌then◌else◌}

abbrev pub Map {ℓ} : Type ℓ → Type ℓ → Type ℓ
Map K V = List (K × V)

pub keys {ℓ} : {K V : Type ℓ} → Map K V → List K
keys [] = []
keys ((k, _) ∷ m) = k ∷ keys m

module _ {ℓ} {K V : Type ℓ} ⦃e : Eq K⦄ where
  -- `m.get(k)`
  unfoldable pub lookup : K → Map K V → Option V
  lookup k [] = none
  lookup k ((j, v) ∷ m) = if j == k then some v else lookup k m

  -- `m.insert(k, v)`
  unfoldable pub insert : K → V → Map K V → Map K V
  insert k v [] = (k, v) ∷ []
  insert k v ((j, w) ∷ m) = if j == k then (j, v) ∷ m else (j, w) ∷ insert k v m

  -- `m.remove(k)`
  unfoldable pub remove : K → Map K V → Map K V
  remove k [] = []
  remove k ((j, w) ∷ m) = let rest = remove k m in if j == k then rest else (j, w) ∷ rest

  pub lookup-insert :
      (k j : K) (new : V) (table : Map K V)
      → lookup j (insert k new table) ≡ (if k == j then some new else lookup j table)
  unfolding lookup insert
  lookup-insert k j new [] = refl
  lookup-insert k j new ((i, old) ∷ rest) =
      ground (arith, lookup-insert k j new rest, e.beq_iff i j, e.beq_iff i k, e.beq_iff k j)

  pub lookup-remove :
      (k j : K) (m : Map K V) → lookup j (remove k m) ≡ (if k == j then none else lookup j m)
  unfolding lookup remove
  lookup-remove k j [] = ground arith
  lookup-remove k j ((i, w) ∷ m) =
      ground (arith, e.beq_iff k j, e.beq_iff i k, e.beq_iff i j, lookup-remove k j m)

  remove-absent : (k : K) (m : Map K V) → lookup k m ≡ none → remove k m ≡ m
  unfolding lookup remove
  remove-absent k [] h = refl
  remove-absent k ((j, w) ∷ m) h = elim (Bool-cases (j == k)) [
    | inl q ↦ absurd (let h' = rw q at h in cc)
    | inr q ↦ rw q (ap (λ t. (j, w) ∷ t) (remove-absent k m (rw q at h)))
  ]

  -- Removing a new entry again leaves the table as it was.
  pub remove-insert :
      (k : K) (v : V) (m : Map K V) → lookup k m ≡ none → remove k (insert k v m) ≡ m
  unfolding lookup remove insert
  remove-insert k v [] h = rw ((e.beq_iff k k).1 refl) refl
  remove-insert k v ((j, w) ∷ m) h = elim (Bool-cases (j == k)) [
    | inl q ↦ absurd (let h' = rw q at h in cc)
    | inr q ↦ rw q (rw q (ap (λ t. (j, w) ∷ t) (remove-insert k v m (rw q at h))))
  ]

  -- A key that is listed twice is found once: the table has no such key.
  abbrev pub IsUnique : Map K V → Type ℓ
  IsUnique [] = Unit
  IsUnique ((k, _) ∷ m) = (lookup k m ≡ none) × IsUnique m

  pub insert-IsUnique : (k : K) (v : V) (m : Map K V) → IsUnique m → IsUnique (insert k v m)
  unfolding insert lookup
  insert-IsUnique k v [] u = (refl, tt)
  insert-IsUnique k v ((j, w) ∷ m) (fresh, u) =
      ground (arith, insert-IsUnique k v m u, lookup-insert k j v m, e.beq_iff k j, e.beq_iff j k)

  pub remove-IsUnique : (k : K) (m : Map K V) → IsUnique m → IsUnique (remove k m)
  unfolding remove lookup
  remove-IsUnique k [] u = tt
  remove-IsUnique k ((j, w) ∷ m) (fresh, u) =
      ground (arith, remove-IsUnique k m u, lookup-remove k j m, e.beq_iff k j, e.beq_iff j k)

pub lookup-empty {ℓ} : {K V : Type ℓ} ⦃e : Eq K⦄ (k : K) → lookup {V = V} k [] ≡ none
unfolding lookup
lookup-empty k = refl
