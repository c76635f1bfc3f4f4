-- ===== src/Cache/Exec.antt =====
-- Operations of a cache handle: they run on the handle's state and on the disk, and what they did
-- before an error stays done.
use dion_runtime.Base.{Result, ok, err}
use dion_runtime.Client.{Fault}
use dion_runtime.Cache.Types.{CacheError, fault}

abbrev pub Exec {ℓ} : Type ℓ → Type 0 → Type ℓ
Exec S A = S → Result CacheError A × S

module _ {ℓ} {S : Type ℓ} {A : Type 0} where
  abbrev pub pure : A → Exec S A
  pure a s = (ok a, s)

  abbrev pub bail : CacheError → Exec S A
  bail e s = (err e, s)

  abbrev pub gets : (S → A) → Exec S A
  gets f s = (ok (f s), s)

  -- `?` on a result.
  abbrev pub lift : Result CacheError A → Exec S A
  lift r s = (r, s)

-- `?` on a result of another component.
abbrev pub faulty : {A : Type 0} → Result Fault A → Result CacheError A
faulty (ok a) = ok a
faulty (err e) = err (fault e)

module _ {ℓ} {S : Type ℓ} {A B : Type 0} where
  abbrev pub continue : Result CacheError A × S → (A → Exec S B) → Result CacheError B × S
  continue (ok a, s) f = f a s
  continue (err e, s) f = (err e, s)

  infixl 5 ◌>>=◌
  abbrev pub ◌>>=◌ : Exec S A → (A → Exec S B) → Exec S B
  ◌>>=◌ m f s = continue (m s) f

module _ {ℓ} {S : Type ℓ} {B : Type 0} where
  infixl 5 ◌>>◌
  abbrev pub ◌>>◌ : Exec S (Unit {0}) → Exec S B → Exec S B
  m >> k = m >>= λ _. k
