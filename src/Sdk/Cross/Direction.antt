-- ===== src/Sdk/Cross/Direction.antt =====
-- Which messages move up: the direction against the place of the two subnets in the tree.
use ipc_client.Base.{
  ℕ, ◌≤◌, ◌≡◌, ◌≢◌, refl, sym, ap, ◌⊎◌, ◌↔◌, inl, inr, Bool-cases, true, false, none, some, List,
  [], ◌∷◌, ◌++◌, ok, err, Eq, ◌==◌, nat_eq, arith, length-append, length, option_eq, pair_eq,
}
use ipc_client.Base.Int.{ℤ, pos}
use ipc_client.Base.Text.{Text}
use ipc_client.Sdk.SubnetId.{SubnetId, parent, common_count, common_parent}
use ipc_client.Sdk.SubnetId.Hierarchy.{IsBelow, parent-IsBelow}
use ipc_client.Sdk.Cross.{
  StorableMsg, bottom_up, top_down, no_parent, new_release_msg, new_fund_msg, is_bottomup, ipc_type,
  apply_type, subnet_id_eq,
}

module _ {Address : Type 0} ⦃e : Eq Address⦄ where
  common_count-le : (as' bs : List Address) → common_count as' bs ≤ length as'
  unfolding common_count
  common_count-le [] bs = omega arith
  common_count-le (a ∷ as') [] = omega arith
  common_count-le (a ∷ as') (b ∷ bs) = ground (arith, common_count-le as' bs)

  -- All of the first list is common exactly if it is a prefix of the second.
  prefix_of_count :
      (as' bs : List Address)
      → length as' ≤ common_count as' bs
      → (rest : List Address) × (bs ≡ as' ++ rest)
  unfolding common_count
  prefix_of_count [] bs h = (bs, refl)
  prefix_of_count (a ∷ as') [] h = absurd (omega arith)
  prefix_of_count (a ∷ as') (b ∷ bs) h = elim (Bool-cases (e.beq a b)) [
    | inl same ↦
        let h' : length as' ≤ common_count as' bs = ground arith in
        let (rest, r) = prefix_of_count as' bs h' in (rest, ground (arith, e.beq_iff a b))
    | inr other ↦ absurd (ground arith)
  ]

  count_of_prefix : (as' rest : List Address) → common_count as' (as' ++ rest) ≡ length as'
  unfolding common_count
  count_of_prefix [] rest = refl
  count_of_prefix (a ∷ as') rest = ground (arith, e.beq_iff a a, count_of_prefix as' rest)

  not_bottomup : (from to : SubnetId Address) → IsBelow from to → is_bottomup from to ≡ false
  unfolding is_bottomup common_parent
  not_bottomup from to (r, rest, k) =
      ground (arith, ap (common_count from.children) k, count_of_prefix from.children rest)

  is_bottomup-IsBelow :
      (from to : SubnetId Address)
      → from.root ≡ to.root
      → is_bottomup from to ≡ false
      → IsBelow from to
  unfolding is_bottomup common_parent
  is_bottomup-IsBelow from to r h =
      let (rest, k) = prefix_of_count from.children to.children (ground arith) in (r, rest, k)

  -- A message does not move up exactly if it leaves the network or stays at or below its origin.
  pub is_bottomup_iff :
      (from to : SubnetId Address)
      → (is_bottomup from to ≡ false) ↔ ((from.root ≢ to.root) ⊎ IsBelow from to)
  is_bottomup_iff from to = (
    λ h. elim (Bool-cases (from.root == to.root)) [
      | inl same ↦ inr (is_bottomup-IsBelow from to (ground arith) h)
      | inr other ↦ inl (ground arith)
    ],
    λ d. elim d [
      | inl other ↦ unfold is_bottomup common_parent in ground arith
      | inr below ↦ not_bottomup from to below
    ],
  )

  to_parent_is_bottomup : (s p : SubnetId Address) → parent s ≡ some p → is_bottomup s p ≡ true
  to_parent_is_bottomup s p h = elim (Bool-cases (is_bottomup s p)) [
    | inl up ↦ up
    | inr stays ↦
        let ((r, rest, k), deeper) = parent-IsBelow s p h in
        let (r', rest', k') = is_bottomup-IsBelow s p (sym r) stays in
        absurd (omega (arith, ap length k', length-append s.children rest', deeper))
  ]

  from_parent_is_not : (s p : SubnetId Address) → parent s ≡ some p → is_bottomup p s ≡ false
  from_parent_is_not s p h = not_bottomup p s (parent-IsBelow s p h).0

  pub common_parent_beq : (a b : SubnetId Address) → (common_parent a b == common_parent a b) ≡ true
  common_parent_beq a b = (option_eq.beq_iff (common_parent a b) (common_parent a b)).1 refl

  -- A release of a subnet with a parent goes to the parent, and it is a bottom-up message, also as
  -- it is applied in the subnet that it leaves.
  new_release_msg-bottom_up :
      (method_send : ℕ) (s p : SubnetId Address) (from to : Address) (value fee : ℤ)
      → parent s ≡ some p
      → (m : StorableMsg Address) × (new_release_msg method_send s from to value fee ≡ ok m)
        × (m.to.subnet_id ≡ p)
        × (m.from.subnet_id ≡ s)
        × (m.value ≡ value)
        × (m.fee ≡ fee)
        × (ipc_type {E = Text} m ≡ ok bottom_up)
        × (apply_type {E = Text} m s ≡ ok bottom_up)
  unfolding new_release_msg ipc_type apply_type is_bottomup
  new_release_msg-bottom_up method_send s p from to value fee h = (
    record {
      from = record { subnet_id = s; raw_address = from };
      to = record { subnet_id = p; raw_address = to };
      method = method_send;
      params = [];
      value = value;
      nonce = 0;
      fee = fee;
    },
    ground arith,
    refl,
    refl,
    refl,
    refl,
    ground (arith, to_parent_is_bottomup s p h),
    ground (arith, to_parent_is_bottomup s p h, common_parent_beq s p),
  )

  -- A fund message of a subnet comes from its parent, is free of charge, and is a top-down message
  -- wherever it is applied.
  new_fund_msg-top_down :
      (method_send : ℕ) (s p curr : SubnetId Address) (from to : Address) (value : ℤ)
      → parent s ≡ some p
      → (m : StorableMsg Address) × (new_fund_msg method_send s from to value ≡ ok m)
        × (m.to.subnet_id ≡ s)
        × (m.from.subnet_id ≡ p)
        × (m.value ≡ value)
        × (m.fee ≡ pos 0)
        × (ipc_type {E = Text} m ≡ ok top_down)
        × (apply_type {E = Text} m curr ≡ ok top_down)
  unfolding new_fund_msg ipc_type apply_type is_bottomup
  new_fund_msg-top_down method_send s p curr from to value h = (
    record {
      from = record { subnet_id = p; raw_address = from };
      to = record { subnet_id = s; raw_address = to };
      method = method_send;
      params = [];
      value = value;
      nonce = 0;
      fee = pos 0;
    },
    ground arith,
    refl,
    refl,
    refl,
    refl,
    ground (arith, from_parent_is_not s p h),
    ground (arith, from_parent_is_not s p h),
  )

  -- Neither message can be made at a root subnet.
  pub new_msg-root :
      (method_send : ℕ) (s : SubnetId Address) (from to : Address) (value fee : ℤ)
      → parent s ≡ none
      → (new_release_msg method_send s from to value fee ≡ err no_parent)
        × (new_fund_msg method_send s from to value ≡ err no_parent)
  unfolding new_release_msg new_fund_msg
  new_msg-root method_send s from to value fee h = ground arith
