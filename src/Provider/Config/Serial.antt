-- ===== src/Provider/Config/Serial.antt =====
-- ipc/provider/src/config/serialize.rs, deserialize.rs: the subnets of a configuration as the list
-- that stands in its file. TOML, and the form of one subnet in it, belong to serde.
use ipc_client.Base.{
  ◌≡◌, refl, ◌∙◌, arith, Option, none, some, List, [], ◌∷◌, Eq, ◌==◌, Bool-cases, inl, inr, All,
}
use ipc_client.Base.Map.{
  Map, lookup, insert, remove, IsUnique, lookup-insert, insert-IsUnique, remove-IsUnique,
}
use ipc_client.Sdk.SubnetId.{SubnetId, subnet_id_eq, subnet_beq_iff}
use ipc_client.Provider.Config.{Subnet, Config, add_subnet, remove_subnet}

module _ {Address : Type 0} ⦃e : Eq Address⦄ where
  -- `subnets.values()`, element by element
  unfoldable pub serialize_subnets : Map (SubnetId Address) (Subnet Address) → List (Subnet Address)
  serialize_subnets [] = []
  serialize_subnets ((id, subnet) ∷ m) = subnet ∷ serialize_subnets m

  unfoldable pub insert_subnets :
      List (Subnet Address)
      → Map (SubnetId Address) (Subnet Address)
      → Map (SubnetId Address) (Subnet Address)
  insert_subnets [] hashmap = hashmap
  insert_subnets (subnet ∷ l) hashmap = insert_subnets l (insert subnet.id subnet hashmap)

  unfoldable pub deserialize_subnets :
      List (Subnet Address) → Map (SubnetId Address) (Subnet Address)
  unfolding insert_subnets
  deserialize_subnets subnets = insert_subnets subnets []

  -- Every subnet stands once, under its own identifier.
  abbrev pub IsKeyed : Map (SubnetId Address) (Subnet Address) → Type 0
  IsKeyed m = IsUnique m × All (λ (p : SubnetId Address × Subnet Address). p.0 ≡ p.1.id) m

  insert-All :
      (s : Subnet Address) (m : Map (SubnetId Address) (Subnet Address))
      → All (λ p. p.0 ≡ p.1.id) m
      → All (λ p. p.0 ≡ p.1.id) (insert s.id s m)
  unfolding insert
  insert-All s [] h = (refl, tt)
  insert-All s ((k, t) ∷ m) (here, h) = elim (Bool-cases (k == s.id)) [
    | inl q ↦ rw q ((subnet_beq_iff k s.id).0 q, h)
    | inr q ↦ rw q (here, insert-All s m h)
  ]

  remove-All :
      (id : SubnetId Address) (m : Map (SubnetId Address) (Subnet Address))
      → All (λ p. p.0 ≡ p.1.id) m
      → All (λ p. p.0 ≡ p.1.id) (remove id m)
  unfolding remove
  remove-All id [] h = tt
  remove-All id ((k, t) ∷ m) (here, h) = elim (Bool-cases (k == id)) [
    | inl q ↦ rw q (remove-All id m h)
    | inr q ↦ rw q (here, remove-All id m h)
  ]

  -- A configuration stays so as subnets are added and removed.
  pub add_remove-IsKeyed :
      (s : Subnet Address) (id : SubnetId Address) (c : Config Address)
      → IsKeyed c.subnets
      → IsKeyed (add_subnet s c).subnets × IsKeyed (remove_subnet id c).subnets
  unfolding add_subnet remove_subnet
  add_remove-IsKeyed s id c (u, h) = (
    (insert-IsUnique s.id s c.subnets u, insert-All s c.subnets h),
    (remove-IsUnique id c.subnets u, remove-All id c.subnets h),
  )

  insert_subnets-serialize :
      (m acc : Map (SubnetId Address) (Subnet Address)) (id : SubnetId Address)
      → IsKeyed m
      → lookup id (insert_subnets (serialize_subnets m) acc)
        ≡ (elim (lookup id m) [ some s ↦ some s | none ↦ lookup id acc ])
  unfolding insert_subnets serialize_subnets lookup
  insert_subnets-serialize [] acc id h = refl
  insert_subnets-serialize ((k, s) ∷ m) acc id ((fresh, u), (here, h)) = ground (
    arith,
    here,
    insert_subnets-serialize m (insert s.id s acc) id (u, h),
    lookup-insert s.id id s acc,
    subnet_beq_iff s.id id,
    subnet_beq_iff k id,
  )

  keep_found : (o : Option (Subnet Address)) → (elim o [ some s ↦ some s | none ↦ none ]) ≡ o
  keep_found none = refl
  keep_found (some s) = refl

  -- When every subnet stands once, under its own identifier: the list that is written is read as a
  -- map with the same subnet for every identifier.
  pub deserialize-serialize_subnets :
      (m : Map (SubnetId Address) (Subnet Address)) (id : SubnetId Address)
      → IsKeyed m
      → lookup id (deserialize_subnets (serialize_subnets m)) ≡ lookup id m
  unfolding deserialize_subnets lookup
  deserialize-serialize_subnets m id h =
      insert_subnets-serialize m [] id h ∙ keep_found (lookup id m)
