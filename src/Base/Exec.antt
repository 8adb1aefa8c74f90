-- ===== src/Base/Exec.antt =====
-- Methods that change a state and may fail: the state comes back beside the error too, as it was
-- left by what ran before. In `Exec Text` an `anyhow` error is its message.
use mathlib.Core.Path.{◌≡◌, refl}
use mathlib.Core.List.{◌++◌}
use ipc_client.Base.Outcome.{Result, ok, err, panic}
use ipc_client.Base.Text.{Text}

abbrev pub Exec : Type 0 → Type 0 → Type 0 → Type 0
Exec E S A = S → Result E A × S

module _ {E S A : Type 0} where
  pub pure : A → Exec E S A
  pure a s = (ok a, s)

  pub fail : E → Exec E S A
  fail e s = (err e, s)

  pub lift : Result E A → Exec E S A
  lift r s = (r, s)

abbrev pub with_prefix : {A : Type 0} → Text → Result Text A → Result Text A
with_prefix message (ok a) = ok a
with_prefix message (err e) = err (message ++ e)
with_prefix message panic = panic

-- `.map_err(|e| anyhow!("message{e}"))`
pub context : {S A : Type 0} → Text → Exec Text S A → Exec Text S A
context message m s = (with_prefix message (m s).0, (m s).1)

module _ {E S A B : Type 0} where
  abbrev pub continue : Result E A → (A → Exec E S B) → Exec E S B
  continue (ok a) f s = f a s
  continue (err e) f s = (err e, s)
  continue panic f s = (panic, s)

  infixl 5 ◌>>=◌ ◌>>◌
  -- Opening this opens the other ways to build an action too.
  unfoldable pub ◌>>=◌ : Exec E S A → (A → Exec E S B) → Exec E S B
  unfolding pure fail lift context
  ◌>>=◌ m f s = continue (m s).0 f (m s).1

  abbrev pub ◌>>◌ : Exec E S A → Exec E S B → Exec E S B
  m >> n = m >>= λ _. n

module _ {E S A B : Type 0} where
  continue-ok :
      (r : Result E A) (f : A → Exec E S B) (t : S) (b : B)
      → (continue r f t).0 ≡ ok b
      → (a : A) × (r ≡ ok a) × ((f a t).0 ≡ ok b) × ((continue r f t).1 ≡ (f a t).1)
  continue-ok (ok a) f t b h = (a, refl, h, refl)
  continue-ok (err m) f t b h = absurd cc
  continue-ok panic f t b h = absurd cc

  -- Two actions that succeed together succeed one by one.
  pub bind-ok :
      (m : Exec E S A) (f : A → Exec E S B) (s : S) (b : B)
      → ((m >>= f) s).0 ≡ ok b
      → (a : A) × ((m s).0 ≡ ok a) × ((f a (m s).1).0 ≡ ok b) × (((m >>= f) s).1 ≡ (f a (m s).1).1)
  unfolding ◌>>=◌
  bind-ok m f s b h = continue-ok (m s).0 f (m s).1 b h
