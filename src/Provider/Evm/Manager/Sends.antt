-- ===== src/Provider/Evm/Manager/Sends.antt =====
-- What a method sends: nothing, or one transaction.
use ipc_client.Base.{
  ◌≡◌, refl, ◌∙◌, ap, ◌⊎◌, inl, inr, List, [], ◌∷◌, ◌++◌, Bool, true, false, Result, ok, err, panic,
}
use ipc_client.Base.Exec.{Exec, ◌>>=◌, pure, fail, lift, continue}
use ipc_client.Base.Text.{Text}
use ipc_client.Provider.Evm.Manager.{Transaction}

abbrev pub is_ok : {A : Type 0} → Result Text A → Bool
is_ok (ok a) = true
is_ok _ = false

module _ {FvmAddress World : Type 0} (sent : World → List (Transaction FvmAddress)) where
  -- The action sends nothing.
  abbrev pub Quiet : {A : Type 0} → Exec Text World A → Type 0
  Quiet m = (w : World) → sent (m w).1 ≡ sent w

  -- From `w` the action sends one transaction with `P`, or it fails and sends nothing.
  abbrev pub SendsFrom :
      {A : Type 0} → World → (Transaction FvmAddress → Type 0) → Exec Text World A → Type 0
  SendsFrom w P m =
      ((sent (m w).1 ≡ sent w) × (is_ok (m w).0 ≡ false))
      ⊎ ((t : Transaction FvmAddress) × P t × (sent (m w).1 ≡ sent w ++ t ∷ []))

  abbrev pub Sends : {A : Type 0} → (Transaction FvmAddress → Type 0) → Exec Text World A → Type 0
  Sends P m = (w : World) → SendsFrom w P m

  pub lift-Quiet : {A : Type 0} (r : Result Text A) → Quiet (lift r)
  unfolding ◌>>=◌
  lift-Quiet r w = refl

  continue-Quiet :
      {A B : Type 0} (r : Result Text A) (f : A → Exec Text World B)
      → ((a : A) → Quiet (f a))
      → (w : World) → sent (continue r f w).1 ≡ sent w
  continue-Quiet (ok a) f h w = h a w
  continue-Quiet (err e) f h w = refl
  continue-Quiet panic f h w = refl

  pub bind-Quiet :
      {A B : Type 0} (m : Exec Text World A) (f : A → Exec Text World B)
      → Quiet m
      → ((a : A) → Quiet (f a))
      → Quiet (m >>= f)
  unfolding ◌>>=◌
  bind-Quiet m f h k w = continue-Quiet (m w).0 f k (m w).1 ∙ h w

  pub pure-Quiet : {A : Type 0} (a : A) → Quiet (pure a)
  unfolding ◌>>=◌
  pure-Quiet a w = refl

  lift_then :
      {A B : Type 0} (r : Result Text A) (f : A → Exec Text World B)
      → ((a : A) → r ≡ ok a → Quiet (f a))
      → (w : World) → sent (continue r f w).1 ≡ sent w
  lift_then (ok a) f h w = h a refl w
  lift_then (err e) f h w = refl
  lift_then panic f h w = refl

  pub lift-bind-Quiet :
      {A B : Type 0} (r : Result Text A) (f : A → Exec Text World B)
      → ((a : A) → r ≡ ok a → Quiet (f a))
      → Quiet (lift r >>= f)
  unfolding ◌>>=◌
  lift-bind-Quiet r f h w = lift_then r f h w

  continue-Sends :
      {A B : Type 0} (P : Transaction FvmAddress → Type 0) (r : Result Text A)
      (f : A → Exec Text World B)
      → ((a : A) → r ≡ ok a → Sends P (f a))
      → (w v : World) → sent v ≡ sent w
      → ((sent (continue r f v).1 ≡ sent w) × (is_ok (continue r f v).0 ≡ false))
        ⊎ ((t : Transaction FvmAddress) × P t × (sent (continue r f v).1 ≡ sent w ++ t ∷ []))
  continue-Sends P (ok a) f h w v e = elim (h a refl v) [
    | inl (s, q) ↦ inl (s ∙ e, q)
    | inr (t, p, s) ↦ inr (t, p, s ∙ ap (λ l. l ++ t ∷ []) e)
  ]
  continue-Sends P (err m) f h w v e = inl (e, refl)
  continue-Sends P panic f h w v e = inl (e, refl)

  -- What goes before sends nothing.
  pub before-Sends :
      {A B : Type 0} (P : Transaction FvmAddress → Type 0) (m : Exec Text World A)
      (f : A → Exec Text World B)
      → Quiet m
      → ((w : World) (a : A) → (m w).0 ≡ ok a → Sends P (f a))
      → Sends P (m >>= f)
  unfolding ◌>>=◌
  before-Sends P m f q h w = continue-Sends P (m w).0 f (h w) w (m w).1 (q w)

  pub lift-Sends :
      {A B : Type 0} (P : Transaction FvmAddress → Type 0) (r : Result Text A)
      (f : A → Exec Text World B)
      → ((a : A) → r ≡ ok a → Sends P (f a))
      → Sends P (lift r >>= f)
  unfolding ◌>>=◌
  lift-Sends P r f h w = continue-Sends P r f h w w refl

  pub fail-Sends :
      (A : Type 0) (P : Transaction FvmAddress → Type 0) (e : Text) → Sends P (fail {A = A} e)
  unfolding ◌>>=◌
  fail-Sends A P e w = inl (refl, refl)

  continue-after :
      {A B : Type 0} (r : Result Text A) (f : A → Exec Text World B)
      → ((a : A) → Quiet (f a))
      → (v : World) → is_ok r ≡ false
      → is_ok (continue r f v).0 ≡ false
  continue-after (ok a) f k v h = absurd cc
  continue-after (err e) f k v h = refl
  continue-after panic f k v h = refl

  -- What goes after sends nothing.
  pub after-Sends :
      {A B : Type 0} (P : Transaction FvmAddress → Type 0) (m : Exec Text World A)
      (f : A → Exec Text World B)
      → Sends P m
      → ((a : A) → Quiet (f a))
      → Sends P (m >>= f)
  unfolding ◌>>=◌
  after-Sends P m f h k w = elim (h w) [
    | inl (s, q) ↦
        inl (continue-Quiet (m w).0 f k (m w).1 ∙ s, continue-after (m w).0 f k (m w).1 q)
    | inr (t, p, s) ↦ inr (t, p, continue-Quiet (m w).0 f k (m w).1 ∙ s)
  ]

  pub weaken-Sends :
      {A : Type 0} {P Q : Transaction FvmAddress → Type 0} (m : Exec Text World A)
      → ((t : Transaction FvmAddress) → P t → Q t)
      → Sends P m
      → Sends Q m
  weaken-Sends m k h w = elim (h w) [ inl quiet ↦ inl quiet | inr (t, p, s) ↦ inr (t, k t p, s) ]
