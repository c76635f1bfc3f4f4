-- ===== src/Base/Prefix.antt =====
-- Laws of `is_prefix`, `contains` and `all` over an instance of equality.
use mathlib.Core.Path.{◌≡◌, refl}
use mathlib.Core.Bool.{Bool, true}
use mathlib.Core.List.{List, [], ◌∷◌, ◌++◌}
use native.Mathlib.Omega.{arith}
use dion_runtime.Base.Equality.{Eq, ◌==◌, contains}
use dion_runtime.Base.Lists.{all}
use dion_runtime.Base.Strings.{is_prefix}

module _ {ℓ} {A : Type ℓ} ⦃e : Eq A⦄ where
  pub is_prefix_refl : (xs : List A) → is_prefix xs xs ≡ true
  is_prefix_refl [] = refl
  is_prefix_refl (x ∷ xs) = ground (arith, e.beq_iff x x, is_prefix_refl xs)

  pub is_prefix_trans :
      (xs ys zs : List A) → is_prefix xs ys ≡ true → is_prefix ys zs ≡ true → is_prefix xs zs ≡ true
  is_prefix_trans [] ys zs h k = refl
  is_prefix_trans (x ∷ xs) (y ∷ ys) (z ∷ zs) h k =
      ground (arith, e.beq_iff x y, e.beq_iff y z, e.beq_iff x z, is_prefix_trans xs ys zs)
  is_prefix_trans (x ∷ xs) [] zs h k = ground arith
  is_prefix_trans (x ∷ xs) (y ∷ ys) [] h k = ground arith

  pub is_prefix-append : (xs ys : List A) → is_prefix xs (xs ++ ys) ≡ true
  is_prefix-append [] ys = refl
  is_prefix-append (x ∷ xs) ys = ground (arith, e.beq_iff x x, is_prefix-append xs ys)

  -- What follows a prefix.
  pub rest_of_prefix :
      (xs ys : List A) → is_prefix xs ys ≡ true → (rest : List A) × (ys ≡ xs ++ rest)
  rest_of_prefix [] ys h = (ys, refl)
  rest_of_prefix (x ∷ xs) [] h = absurd (cc h)
  rest_of_prefix (x ∷ xs) (y ∷ ys) h =
      let (rest, tail) = rest_of_prefix xs ys (ground arith) in
      let head : x ≡ y = ground (arith, e.beq_iff x y) in (rest, cc (head, tail))

  pub contains_eq : (xs : List A) (a b : A) → (a == b) ≡ true → contains xs a ≡ contains xs b
  contains_eq [] a b h = refl
  contains_eq (x ∷ xs) a b h = ground (arith, e.beq_iff a b, contains_eq xs a b)

  pub contains-all :
      (p : A → Bool) (xs : List A) (a : A) → all p xs ≡ true → contains xs a ≡ true → p a ≡ true
  contains-all p (x ∷ xs) a h k = ground (arith, e.beq_iff a x, contains-all p xs a)
  contains-all p [] a h k = ground arith

  -- What holds of all that a list contains holds throughout it.
  pub all_of_contains :
      (p : A → Bool) (xs : List A) → ((a : A) → contains xs a ≡ true → p a ≡ true) → all p xs ≡ true
  all_of_contains p [] h = refl
  all_of_contains p (x ∷ xs) h =
      let here : p x ≡ true = h x (ground (arith, e.beq_iff x x)) in
      let rest : all p xs ≡ true = all_of_contains p xs (λ a k. h a (ground (arith, k))) in
      ground (arith, here, rest)

  pub all-contains_refl : (xs : List A) → all (contains xs) xs ≡ true
  all-contains_refl xs = all_of_contains (contains xs) xs (λ a k. k)

  pub all-contains_trans :
      (xs ys zs : List A)
      → all (contains xs) ys ≡ true
      → all (contains ys) zs ≡ true
      → all (contains xs) zs ≡ true
  all-contains_trans xs ys zs h k =
      all_of_contains (contains xs) zs
        λ a m. contains-all (contains xs) ys a h (contains-all (contains ys) zs a k m)
