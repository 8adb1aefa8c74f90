-- ===== src/Provider/Evm/Fees/Median.antt =====
-- What the estimations return.
use ipc_client.Base.{
  ℕ, suc, ◌+◌, ◌*◌, ◌/◌, ◌^◌, ◌≤◌, ◌<◌, ◌≡◌, refl, sym, ◌∙◌, arith, true, ◌&&◌, some, List, [], ◌∷◌,
  ◌++◌, Result, ok, ltb, leb, nat_beq, if◌then◌else◌, length, length-append, drop, All, Bool-cases,
  inl, inr, not, ◌⊎◌,
}
use ipc_client.Base.Int.{ℤ, pos, negsuc, pos_part, neg_part, sub_ℕ, ltb_ℤ}
use ipc_client.Base.Sorting.{
  get_elem?, get_elem?-some, get_elem?-drop, length-drop, count, sort, All-sort, length-sort,
  sort-IsSorted, count-sort, count-le_at,
}
use ipc_client.Base.Text.{Text}
use ipc_client.Sdk.Contract.{collect}
use ipc_client.Provider.Evm.Fees.{
  base_fee_surged, first_rewards, positive, rotate_left_one, zip, pop, max_of, eqb_ℤ, position,
  in_i256, median, percentage, values_of, of_sorted, of_positive, estimate_priority_fee,
}

abbrev surged : ℕ → ℕ
surged n =
    if leb n 40000000000
    then n * 2
    else if leb n 100000000000
    then n * 16 / 10
    else if leb n 200000000000
    then n * 14 / 10
    else n * 12 / 10

-- The fee with which a surge is met lies between the fee and its double, rounding included.
base_fee_surged_bounds :
    (n : ℕ) → n * 12 < 2 ^ 256 → (m : ℕ) × (base_fee_surged n ≡ ok m) × (n ≤ m) × (m ≤ 2 * n)
unfolding base_fee_surged
base_fee_surged_bounds n h = (surged n, ground arith, ground arith, ground arith)

eqb_ℤ-refl : (c : ℤ) → eqb_ℤ c c ≡ true
eqb_ℤ-refl (pos n) = ground arith
eqb_ℤ-refl (negsuc n) = ground arith

position-here : (c : ℤ) (cs : List ℤ) → position c (c ∷ cs) ≡ some 0
unfolding position
position-here c cs = rw (eqb_ℤ-refl c) refl

position-cons :
    (m c : ℤ) (cs : List ℤ) (i : ℕ)
    → position m cs ≡ some i
    → i < length cs
    → (k : ℕ) × (position m (c ∷ cs) ≡ some k) × (k < suc (length cs))
unfolding position
position-cons m c cs i p h = elim (Bool-cases (eqb_ℤ c m)) [
  | inl e ↦ (0, rw e refl, omega arith)
  | inr e ↦ (suc i, rw (e, p) refl, omega arith)
]

-- A list that is not empty has a greatest element, and it is found.
position-max_of :
    (c : ℤ) (cs : List ℤ)
    → (m : ℤ) × (i : ℕ) × (max_of (c ∷ cs) ≡ some m)
      × (position m (c ∷ cs) ≡ some i)
      × (i < suc (length cs))
unfolding max_of
position-max_of c [] = (c, 0, refl, position-here c [], omega arith)
position-max_of c (d ∷ cs) =
    let (m, i, p, q, r) = position-max_of d cs in
    elim (Bool-cases (ltb_ℤ c m)) [
      | inl e ↦ let (k, s, t) = position-cons m c (d ∷ cs) i q r in (m, k, rw p (rw e refl), s, t)
      | inr e ↦ (c, 0, rw p (rw e refl), position-here c (d ∷ cs), omega arith)
    ]

pop-length : {A : Type 0} (x : A) (xs : List A) → length (pop (x ∷ xs)) ≡ length xs
pop-length x [] = refl
pop-length x (y ∷ ys) = omega (arith, pop-length y ys)

length-zip :
    {A B : Type 0} (xs : List A) (ys : List B)
    → length xs ≡ length ys
    → length (zip xs ys) ≡ length xs
length-zip [] ys h = refl
length-zip (x ∷ xs) [] h = absurd (omega arith)
length-zip (x ∷ xs) (y ∷ ys) h = omega (arith, length-zip xs ys)

-- A bound under which no percentage is outside 256 bits.
abbrev pub IsSmall : ℕ → Type 0
IsSmall r = r < 2 ^ 248

abbrev BothSmall : ℕ × ℕ → Type 0
BothSmall p = IsSmall p.0 × IsSmall p.1

zip-BothSmall : (xs ys : List ℕ) → All IsSmall xs → All IsSmall ys → All BothSmall (zip xs ys)
zip-BothSmall [] ys h k = tt
zip-BothSmall (x ∷ xs) [] h k = tt
zip-BothSmall (x ∷ xs) (y ∷ ys) (p, h) (q, k) = ((p, q), zip-BothSmall xs ys h k)

append-IsSmall : (xs : List ℕ) (x : ℕ) → All IsSmall xs → IsSmall x → All IsSmall (xs ++ x ∷ [])
append-IsSmall [] x h p = (p, tt)
append-IsSmall (y ∷ xs) x (q, h) p = (q, append-IsSmall xs x h p)

module _ (threshold : ℤ) (overflow : ℤ → Result Text ℤ) where
  in_i256-small : (a b : ℕ) → IsSmall a → IsSmall b → in_i256 (sub_ℕ (b * 100) (a * 100)) ≡ true
  in_i256-small a b h k = ground arith

  percentage-ok : (p : ℕ × ℕ) → BothSmall p → (c : ℤ) × (percentage threshold overflow p ≡ ok c)
  unfolding percentage
  percentage-ok (a, b) (h, k) =
      let c : ℤ = sub_ℕ (b * 100) (a * 100) in
      let below : (ltb a (2 ^ 255) && ltb b (2 ^ 255)) ≡ true = ground arith in
      (sub_ℕ (pos_part c / a) (neg_part c / a), rw (below, in_i256-small a b h k) refl)

  collect-ok :
      (l : List (ℕ × ℕ))
      → All BothSmall l
      → (cs : List ℤ) × (collect (percentage threshold overflow) l ≡ ok cs) × (length cs ≡ length l)
  unfolding collect
  collect-ok [] h = ([], refl, refl)
  collect-ok (p ∷ l) (h, hs) =
      let (c, e) = percentage-ok p h in
      let (cs, es, n) = collect-ok l hs in (c ∷ cs, rw (e, es) refl, omega arith)

  -- The median of the values is the reward at an index in the upper half.
  median-values_of :
      (rewards : List ℕ) (c : ℤ) (i : ℕ)
      → i < length rewards
      → (m j : ℕ) × (median (values_of threshold overflow rewards c i) ≡ ok m)
        × (get_elem? rewards j ≡ some m)
        × (length rewards / 2 ≤ j)
  unfolding median values_of
  median-values_of rewards c i h =
      elim (Bool-cases (not (ltb_ℤ c threshold) && leb (length rewards / 2) i)) [
        | inl e ↦
            let size : length (drop i rewards) + i ≡ length rewards =
              omega (arith, length-drop i rewards) in
            let (m, found) =
              get_elem?-some (drop i rewards) (length (drop i rewards) / 2) (omega arith) in
            (
              m,
              i + length (drop i rewards) / 2,
              rw e (rw found refl),
              sym (get_elem?-drop i _ rewards) ∙ found,
              ground arith,
            )
        | inr e ↦
            let (m, found) = get_elem?-some rewards (length rewards / 2) (omega arith) in
            (m, length rewards / 2, rw e (rw found refl), found, omega arith)
      ]

  zipped : (l : List ℕ) → All IsSmall l → All BothSmall (zip l (rotate_left_one l))
  zipped [] h = tt
  zipped (x ∷ xs) (p, h) = zip-BothSmall (x ∷ xs) (xs ++ x ∷ []) (p, h) (append-IsSmall xs x h p)

  length-zipped : (l : List ℕ) → length (zip l (rotate_left_one l)) ≡ length l
  length-zipped [] = refl
  length-zipped (x ∷ xs) =
      length-zip (x ∷ xs) (xs ++ x ∷ []) (omega (arith, length-append xs (x ∷ [])))

  pop_split :
      (cs : List ℤ)
      → 2 ≤ length cs
      → (c : ℤ) × (rest : List ℤ) × (pop cs ≡ c ∷ rest) × (suc (suc (length rest)) ≡ length cs)
  pop_split [] h = absurd (omega arith)
  pop_split (c ∷ []) h = absurd (omega arith)
  pop_split (c ∷ d ∷ cs) h = (c, pop (d ∷ cs), refl, omega (arith, pop-length d cs))

  -- The percentages of two rewards or more are there, and a change is greatest.
  of_sorted-ok :
      (l : List ℕ)
      → 2 ≤ length l
      → All IsSmall l
      → (m j : ℕ) × (of_sorted threshold overflow l ≡ ok m)
        × (get_elem? l j ≡ some m)
        × (length l / 2 ≤ j)
  unfolding of_sorted
  of_sorted-ok l n h =
      let (cs, found, size) = collect-ok (zip l (rotate_left_one l)) (zipped l h) in
      let (c, rest, popped, size') = pop_split cs (omega (arith, length-zipped l)) in
      let (greatest, i, p, q, below) = position-max_of c rest in
      let (m, j, s, t, u) = median-values_of l greatest i (omega (arith, length-zipped l)) in
      (m, j, rw found (rw popped (rw (p, q) s)), t, u)

  of_positive-ok :
      (l : List ℕ)
      → All IsSmall l
      → (m : ℕ) × (of_positive threshold overflow l ≡ ok m)
        × ((l ≡ []) × (m ≡ 0)
            ⊎ (0 < count (λ r. nat_beq r m) l) × (length l < 2 * count (λ r. leb r m) l))
  unfolding of_positive count
  of_positive-ok [] h = (0, refl, inl (refl, refl))
  of_positive-ok (r ∷ []) h = (r, refl, inr (ground arith, ground arith))
  of_positive-ok (r ∷ s ∷ rest) h =
      let l : List ℕ = r ∷ s ∷ rest in
      let (m, j, p, q, u) =
        of_sorted-ok (sort l) (omega (arith, length-sort l)) (All-sort IsSmall l h) in
      let (enough, here) = count-le_at (sort l) j m (sort-IsSorted l) q in
      (
        m,
        p,
        inr (
          omega (arith, count-sort (λ r. nat_beq r m) l),
          omega (arith, count-sort (λ r. leb r m) l, length-sort l),
        ),
      )

  -- With rewards below 2 ^ 248, each block reporting one at least: without a positive reward the
  -- estimate is 0, and else it is one of the positive rewards, and more than half of these are not
  -- above it.
  pub estimate_priority_fee_bounds :
      (rewards : List (List ℕ)) (firsts : List ℕ)
      → first_rewards rewards ≡ ok firsts
      → All IsSmall (positive firsts)
      → (m : ℕ) × (estimate_priority_fee threshold overflow rewards ≡ ok m)
        × ((positive firsts ≡ []) × (m ≡ 0)
            ⊎ (0 < count (λ r. nat_beq r m) (positive firsts))
              × (length (positive firsts) < 2 * count (λ r. leb r m) (positive firsts)))
  unfolding estimate_priority_fee
  estimate_priority_fee_bounds rewards firsts e h =
      let (m, p, q) = of_positive-ok (positive firsts) h in (m, rw e p, q)
