-- ===== src/Base/Action.antt =====
-- Fallible code that changes a state: what it did before an error stays done.
use dion_runtime.Base.Results.{Result, ok, err}

abbrev pub Action {ℓ} : Type ℓ → Type 0 → Type 0 → Type ℓ
Action S E A = S → Result E A × S

module _ {ℓ} {S : Type ℓ} {E A : Type 0} where
  abbrev pub pure : A → Action S E A
  pure a s = (ok a, s)

  abbrev pub bail : E → Action S E A
  bail e s = (err e, s)

  -- `?` on a result.
  abbrev pub lift : Result E A → Action S E A
  lift r s = (r, s)

module _ {ℓ} {S : Type ℓ} {E A B : Type 0} where
  abbrev pub continue : Result E A × S → (A → Action S E B) → Result E B × S
  continue (ok a, s) f = f a s
  continue (err e, s) f = (err e, s)

  infixl 5 ◌>>=◌
  abbrev pub ◌>>=◌ : Action S E A → (A → Action S E B) → Action S E B
  ◌>>=◌ m f s = continue (m s) f
