-- ===== src/Base/Trims.antt =====
-- Texts with no white space are left alone by `trim`; splitting at a separator that is not there.
use Prim.Native.Nat.{ℕ}
use mathlib.Core.Path.{◌≡◌, refl, ap, ◌∙◌}
use mathlib.Core.Bool.{Bool, true, ◌&&◌, not}
use mathlib.Core.Option.{some}
use mathlib.Core.List.{List, [], ◌∷◌, ◌++◌, reverse, reverse-cons, reverse-reverse}
use mathlib.Core.Logic.{inl, inr}
use native.Mathlib.Omega.{arith}
use dion_runtime.Base.Equality.{nat_eq}
use dion_runtime.Base.Lists.{all}
use dion_runtime.Base.Strings.{Text, is_whitespace, trim, trim_start, strip_prefix}
use dion_runtime.Base.Tests.{Bool-cases}

pub all-append {ℓ} :
    {A : Type ℓ} (p : A → Bool) (xs ys : List A) → all p (xs ++ ys) ≡ (all p xs && all p ys)
all-append p [] ys = refl
all-append p (x ∷ xs) ys = ground (arith, all-append p xs ys)

pub all-reverse : (p : ℕ → Bool) (xs : Text) → all p xs ≡ true → all p (reverse xs) ≡ true
all-reverse p [] h = refl
all-reverse p (x ∷ xs) h =
    ap (all p) (reverse-cons x xs)
    ∙ all-append p (reverse xs) (x ∷ [])
    ∙ ground (arith, all-reverse p xs)

-- If all that satisfy `p` satisfy `q`, a list of `p`s is a list of `q`s.
pub all_mono :
    (p q : ℕ → Bool) (xs : Text)
    → ((c : ℕ) → p c ≡ true → q c ≡ true)
    → all p xs ≡ true
    → all q xs ≡ true
all_mono p q [] f h = refl
all_mono p q (c ∷ cs) f h = ground (arith, f c, all_mono p q cs f)

abbrev pub is_solid : ℕ → Bool
is_solid c = not (is_whitespace c)

pub trim_start_id : (t : Text) → all is_solid t ≡ true → trim_start t ≡ t
trim_start_id [] h = refl
trim_start_id (c ∷ cs) h = elim (Bool-cases (is_whitespace c)) [
  | inl space ↦ absurd (cc (rw space at h))
  | inr solid ↦ rw solid refl
]

pub trim_id : (t : Text) → all is_solid t ≡ true → trim t ≡ t
trim_id t h =
    ap (λ u. reverse (trim_start (reverse u))) (trim_start_id t h)
    ∙ ap reverse (trim_start_id (reverse t) (all-reverse is_solid t h))
    ∙ reverse-reverse t

pub strip_prefix-append : (xs ys : Text) → strip_prefix xs (xs ++ ys) ≡ some ys
strip_prefix-append [] ys = refl
strip_prefix-append (x ∷ xs) ys = ground (arith, nat_eq.beq_iff x x, strip_prefix-append xs ys)
