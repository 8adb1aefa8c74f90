-- ===== src/Sdk/SubnetId/Hierarchy.antt =====
-- Moving in the tree of subnets: parents, common parents, and the steps down and up a path.
use ipc_client.Base.{
  ℕ, zero, suc, ◌+◌, ◌≤◌, ◌<◌, ◌≡◌, ◌≢◌, refl, sym, ap, ◌∙◌, ◌⊎◌, inl, inr, false, Option, none,
  some, List, [], ◌∷◌, ◌++◌, Result, ok, panic, Eq, nat_eq, Bool-cases, arith, if◌then◌else◌,
  length, take, drop, take-append-drop, last, length-append, last-append_one,
}
use ipc_client.Sdk.Fvm.{AddressLib}
use ipc_client.Sdk.SubnetId.{
  SubnetId, new, new_from_parent, is_root, is_empty, subnet_actor, all_but_last, parent,
  common_count, common_parent, down, up, slice_before,
}

module _ {Address : Type 0} where
  all_but_last-append : (l : List Address) (a : Address) → all_but_last (l ++ a ∷ []) ≡ l
  all_but_last-append [] a = refl
  all_but_last-append (b ∷ []) a = refl
  all_but_last-append (b ∷ c ∷ l) a = ap (λ t. b ∷ t) (all_but_last-append (c ∷ l) a)

  is_empty-append : (l : List Address) (a : Address) → is_empty (l ++ a ∷ []) ≡ false
  is_empty-append [] a = refl
  is_empty-append (b ∷ l) a = refl

  all_but_last-last :
      (l : List Address) (a : Address) → last l ≡ some a → all_but_last l ++ a ∷ [] ≡ l
  all_but_last-last [] a h = cc
  all_but_last-last (b ∷ []) a h = cc
  all_but_last-last (b ∷ c ∷ l) a h = ap (λ t. b ∷ t) (all_but_last-last (c ∷ l) a h)

  last-is_empty : (l : List Address) → is_empty l ≡ false → (a : Address) × (last l ≡ some a)
  last-is_empty [] h = cc
  last-is_empty (b ∷ []) h = (b, refl)
  last-is_empty (b ∷ c ∷ l) h = last-is_empty (c ∷ l) refl

  pub parent_of_child : (p : SubnetId Address) (a : Address) → parent (new_from_parent p a) ≡ some p
  unfolding parent new_from_parent
  parent_of_child p a =
      rw (is_empty-append p.children a) (rw (all_but_last-append p.children a) refl)

  -- A subnet made under a parent has that parent, that actor, and is not a root.
  pub parent-new_from_parent :
      ⦃fvm : AddressLib Address⦄ (p : SubnetId Address) (a : Address)
      → (parent (new_from_parent p a) ≡ some p)
        × (subnet_actor (new_from_parent p a) ≡ a)
        × (is_root (new_from_parent p a) ≡ false)
  unfolding parent new_from_parent subnet_actor is_root
  parent-new_from_parent ⦃fvm⦄ p a = (
    parent_of_child p a,
    rw (last-append_one p.children a, subnet_actor),
    is_empty-append p.children a,
  )

  -- Every subnet that is not a root is made from its parent and its actor.
  pub new_from_parent-parent :
      ⦃fvm : AddressLib Address⦄ (s p : SubnetId Address)
      → parent s ≡ some p
      → new_from_parent p (subnet_actor s) ≡ s
  unfolding parent new_from_parent subnet_actor
  new_from_parent-parent ⦃fvm⦄ s p h = elim (Bool-cases (is_empty s.children)) [
    | inl e ↦ let h' = rw e at h in cc
    | inr e ↦
        let (a, la) = last-is_empty s.children e in
        ground (arith, all_but_last-last s.children a la)
  ]

  -- `s` is `p` or lies below it.
  abbrev pub IsBelow : SubnetId Address → SubnetId Address → Type 0
  IsBelow p s = (p.root ≡ s.root) × (rest : List Address) × (s.children ≡ p.children ++ rest)

  all_but_last-split :
      (l : List Address) → is_empty l ≡ false → (a : Address) × (l ≡ all_but_last l ++ a ∷ [])
  all_but_last-split l h = let (a, la) = last-is_empty l h in (a, sym (all_but_last-last l a la))

  -- A parent lies above its child, and is less deep by one.
  pub parent-IsBelow :
      (s p : SubnetId Address)
      → parent s ≡ some p
      → IsBelow p s × (length s.children ≡ length p.children + 1)
  unfolding parent
  parent-IsBelow s p h = elim (Bool-cases (is_empty s.children)) [
    | inl e ↦ absurd (ground arith)
    | inr e ↦
        let (a, k) = all_but_last-split s.children e in
        let same : p ≡ new s.root (all_but_last s.children) = ground arith in
        rw same ((refl, a ∷ [], k), ap length k ∙ length-append (all_but_last s.children) (a ∷ []))
  ]

module _ {Address : Type 0} ⦃e : Eq Address⦄ where
  take-common_count :
      (as' bs : List Address) → take (common_count as' bs) bs ≡ take (common_count as' bs) as'
  unfolding common_count
  take-common_count [] [] = refl
  take-common_count [] (b ∷ bs) = refl
  take-common_count (a ∷ as') [] = refl
  take-common_count (a ∷ as') (b ∷ bs) = ground (arith, e.beq_iff a b, take-common_count as' bs)

  length-take_common :
      (as' bs : List Address) → length (take (common_count as' bs) as') ≡ common_count as' bs
  unfolding common_count
  length-take_common [] bs = refl
  length-take_common (a ∷ as') [] = refl
  length-take_common (a ∷ as') (b ∷ bs) = ground (arith, length-take_common as' bs)

  common_count-append :
      (q r s : List Address) → common_count (q ++ r) (q ++ s) ≡ length q + common_count r s
  unfolding common_count
  common_count-append [] r s = omega arith
  common_count-append (a ∷ q) r s = ground (arith, e.beq_iff a a, common_count-append q r s)

  take-append : (q r : List Address) (m : ℕ) → take (length q + m) (q ++ r) ≡ q ++ take m r
  take-append [] r m = let z : 0 + m ≡ m = omega arith in rw z
  take-append (a ∷ q) r m =
      let z : suc (length q) + m ≡ suc (length q + m) = omega arith in
      rw z (ap (λ t. a ∷ t) (take-append q r m))

  above_common :
      (q as' bs r t : List Address)
      → as' ≡ q ++ r
      → bs ≡ q ++ t
      → take (common_count as' bs) as' ≡ q ++ take (common_count r t) r
  above_common q as' bs r t h k =
      rw (h, k, common_count-append) (take-append q r (common_count r t))

  -- Two subnets with a subnet `q` above both have a common parent. The number returned is its
  -- depth, it lies above both, and `q` lies above it.
  pub common_parent-greatest :
      (a b q : SubnetId Address)
      → IsBelow q a
      → IsBelow q b
      → (p : SubnetId Address) × (common_parent a b ≡ some (length p.children, p))
        × IsBelow p a
        × IsBelow p b
        × IsBelow q p
  unfolding common_parent
  common_parent-greatest a b q (ra, r, ea) (rb, t, eb) =
      let n = common_count a.children b.children in
      let same : a.root ≡ b.root = cc in
      (
        new a.root (take n a.children),
        ground (arith, length-take_common a.children b.children),
        (refl, drop n a.children, sym (take-append-drop n a.children)),
        (
          same,
          drop n b.children,
          sym (take-append-drop n b.children)
              ∙ ap (λ l. l ++ drop n b.children) (take-common_count a.children b.children),
        ),
        (ra, take (common_count r t) r, above_common q.children a.children b.children r t ea eb),
      )

  -- Subnets of different networks have no common parent.
  pub common_parent-none : (a b : SubnetId Address) → a.root ≢ b.root → common_parent a b ≡ none
  unfolding common_parent
  common_parent-none a b h = ground arith

  common_count-nil : (q r : List Address) → common_count (q ++ r) q ≡ length q
  unfolding common_count
  common_count-nil [] [] = refl
  common_count-nil [] (a ∷ r) = refl
  common_count-nil (a ∷ q) r = ground (arith, e.beq_iff a a, common_count-nil q r)

  take-suc : (q r : List Address) (a : Address) → take (length q + 1) (q ++ a ∷ r) ≡ q ++ a ∷ []
  take-suc q r a = take-append q (a ∷ r) 1

  -- Going down to a subnet from one above it reaches the child of the latter on the path: the
  -- subnet of the next actor of the path.
  pub down-below :
      (s from : SubnetId Address) (a : Address) (rest : List Address)
      → s.root ≡ from.root
      → s.children ≡ from.children ++ a ∷ rest
      → down s from ≡ some (new_from_parent from a)
  unfolding down common_parent new_from_parent
  down-below s from a rest h k = rw k (
      ground (
        arith,
        length-append from.children (a ∷ rest),
        common_count-nil from.children (a ∷ rest),
        take-suc from.children rest a,
      ))

  -- There is no way down from a subnet that is at least as deep, or is of another network.
  pub down-none :
      (s from : SubnetId Address)
      → (length s.children ≤ length from.children) ⊎ (s.root ≢ from.root)
      → down s from ≡ none
  unfolding down common_parent
  down-none s from h = ground arith

  take-all_but_last :
      (q r : List Address) (n : ℕ) → length q ≡ suc n → take n (q ++ r) ≡ all_but_last q
  take-all_but_last [] r n h = absurd (omega arith)
  take-all_but_last (a ∷ []) r zero h = refl
  take-all_but_last (a ∷ []) r (suc n) h = absurd (omega arith)
  take-all_but_last (a ∷ b ∷ q) r zero h = absurd (omega arith)
  take-all_but_last (a ∷ b ∷ q) r (suc n) h =
      ap (λ t. a ∷ t) (take-all_but_last (b ∷ q) r n (omega arith))

  abbrev pub parent_or_panic : Option (SubnetId Address) → Result ⊥ (Option (SubnetId Address))
  parent_or_panic (some p) = ok (some p)
  parent_or_panic none = panic

  slice_before-length :
      (s : SubnetId Address) (q r : List Address)
      → s.children ≡ q ++ r
      → slice_before (length q) s
        ≡ parent_or_panic (if is_empty q then none else some (new s.root (all_but_last q)))
  slice_before-length s [] r h = refl
  slice_before-length s (a ∷ q) r h =
      ap (λ l. ok (some (new s.root l)))
        (ap (take (length q)) h ∙ take-all_but_last (a ∷ q) r (length q) refl)

  -- `up` from a subnet above `s` is the parent of that subnet, and it panics where there is none:
  -- `i - 1` is taken at 0.
  pub up-below :
      (s from : SubnetId Address) → IsBelow from s → up s from ≡ parent_or_panic (parent from)
  unfolding up parent common_parent
  up-below s from (h, rest, k) = ground (
    arith,
    ap length k,
    length-append from.children rest,
    ap (λ l. common_count l from.children) k,
    common_count-nil from.children rest,
    slice_before-length s from.children rest k,
  )

  -- There is no way up from a deeper subnet or one of another network.
  pub up-none :
      (s from : SubnetId Address)
      → (length s.children < length from.children) ⊎ (s.root ≢ from.root)
      → up s from ≡ ok none
  unfolding up common_parent
  up-none s from h = ground arith
