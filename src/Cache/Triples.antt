-- ===== src/Cache/Triples.antt =====
-- Reasoning about the operations of a cache: what holds after a step, whether it returns or fails.
use dion_runtime.Base.{◌≡◌, refl, subst, Result, ok, err, Bool, true, false, if◌then◌else◌}
use dion_runtime.Cache.Types.{CacheError}
use dion_runtime.Cache.Exec.{Exec, continue, pure, lift, gets, ◌>>=◌}

-- `Q a s` where the step returned `a` in state `s`, and `E s` where it failed in state `s`.
abbrev pub Ensures {ℓ} :
    {S : Type ℓ} {A : Type 0} → (A → S → Type 0) → (S → Type 0) → Result CacheError A × S → Type 0
Ensures Q E (ok a, s) = Q a s
Ensures Q E (err e, s) = E s

module _ {ℓ} {S : Type ℓ} {A B : Type 0} where
  -- A step, and what follows from any state that it may return in.
  pub Ensures-bind :
      (P : A → S → Type 0) (Q : B → S → Type 0) (E : S → Type 0) (r : Result CacheError A × S)
      (f : A → Exec S B)
      → Ensures P E r
      → ((a : A) (s : S) → P a s → Ensures Q E (f a s))
      → Ensures Q E (continue r f)
  Ensures-bind P Q E (ok a, s) f h k = k a s h
  Ensures-bind P Q E (err e, s) f h k = h

module _ {ℓ} {S : Type ℓ} {A : Type 0} where
  pub Ensures-mono :
      (P Q : A → S → Type 0) (E F : S → Type 0) (r : Result CacheError A × S)
      → ((a : A) (s : S) → P a s → Q a s)
      → ((s : S) → E s → F s)
      → Ensures P E r
      → Ensures Q F r
  Ensures-mono P Q E F (ok a, s) f g h = f a s h
  Ensures-mono P Q E F (err e, s) f g h = g s h

  -- What a step that returned is known by.
  pub Ensures_ok :
      (Q : A → S → Type 0) (E : S → Type 0) (r : Result CacheError A × S) (a : A)
      → Ensures Q E r
      → r.0 ≡ ok a
      → Q a r.1
  Ensures_ok Q E (ok b, s) a h e = subst (λ x. Q x s) (cc e) h
  Ensures_ok Q E (err c, s) a h e = absurd (cc e)

-- The step keeps `I`, whether it returns or fails.
pub record Keeps {ℓ} {S : Type ℓ} {A : Type 0} (I : S → Type 0) (m : Exec S A) : Type ℓ where
  pub at : (s : S) → I s → I (m s).1

module _ {ℓ} {S : Type ℓ} {A : Type 0} {I : S → Type 0} where
  pub Keeps-pure : (a : A) → Keeps I (pure a)
  Keeps-pure a = record { at = λ s h. h }

  pub Keeps-lift : (r : Result CacheError A) → Keeps I (lift r)
  Keeps-lift r = record { at = λ s h. h }

  pub Keeps-gets : (f : S → A) → Keeps I (gets f)
  Keeps-gets f = record { at = λ s h. h }

  pub Keeps-if : (b : Bool) (m n : Exec S A) → Keeps I m → Keeps I n → Keeps I (if b then m else n)
  Keeps-if true m n km kn = km
  Keeps-if false m n km kn = kn

module _ {ℓ} {S : Type ℓ} {A B : Type 0} {I : S → Type 0} where
  pub Keeps-continue :
      (r : Result CacheError A × S) (f : A → Exec S B)
      → I r.1
      → ((a : A) → Keeps I (f a))
      → I (continue r f).1
  Keeps-continue (ok a, s) f h k = (k a).at s h
  Keeps-continue (err e, s) f h k = h

  pub Keeps-bind :
      (m : Exec S A) (f : A → Exec S B) → Keeps I m → ((a : A) → Keeps I (f a)) → Keeps I (m >>= f)
  Keeps-bind m f km kf = record { at = λ s h. Keeps-continue (m s) f (km.at s h) kf }

module _ {ℓ} {S : Type ℓ} {A : Type 0} where
  pub Ensures-Keeps :
      (I : S → Type 0) (r : Result CacheError A × S)
      → I r.1
      → Ensures (λ _ s. I s) (λ _. Unit {0}) r
  Ensures-Keeps I (ok a, s) h = h
  Ensures-Keeps I (err e, s) h = tt

module _ {ℓ} {S : Type ℓ} {A B : Type 0} where
  -- The rest of a block may use that the result it starts from is no error.
  pub Ensures-lift :
      (Q : B → S → Type 0) (r : Result CacheError A) (f : A → Exec S B) (s : S)
      → ((a : A) → r ≡ ok a → Ensures Q (λ _. Unit {0}) (f a s))
      → Ensures Q (λ _. Unit {0}) (continue (lift r s) f)
  Ensures-lift Q (ok a) f s h = h a refl
  Ensures-lift Q (err e) f s h = tt
