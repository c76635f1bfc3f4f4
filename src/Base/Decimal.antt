-- ===== src/Base/Decimal.antt =====
-- Decimal numbers: `str::parse::<u64>` and `u64::to_string` of the standard library.
use Prim.Native.Nat.{ℕ, zero, suc, ◌+◌, ◌-◌, ◌*◌, ◌/◌, ◌%◌, ◌^◌, ◌<◌}
use mathlib.Core.Path.{◌≡◌, refl, ap, ◌∙◌}
use mathlib.Core.Logic.{inl, inr, ◌≢◌}
use mathlib.Core.Bool.{Bool, true, ◌&&◌}
use mathlib.Core.Option.{Option, none, some}
use mathlib.Core.List.{[], ◌∷◌, ◌++◌}
use native.Mathlib.Omega.{arith}
use dion_runtime.Base.Equality.{◌==◌, nat_eq}
use dion_runtime.Base.Lists.{all}
use dion_runtime.Base.Strings.{Text}
use dion_runtime.Base.Tests.{leb, ltb, if◌then◌else◌, Bool-cases}

abbrev pub is_digit : ℕ → Bool
is_digit c = leb b'0' c && leb c b'9'

-- The number that the digits make after the digits that made `acc`, if it is below 2 ^ 64.
unfoldable pub parse_digits : ℕ → Text → Option ℕ
parse_digits acc [] = some acc
parse_digits acc (c ∷ cs) =
    let next = acc * 10 + (c - b'0') in
    let rest = parse_digits next cs in if is_digit c && ltb next (2 ^ 64) then rest else none

-- `text.parse::<u64>()`: one sign `+` is allowed, and there is a digit.
unfoldable pub parse_u64 : Text → Option ℕ
unfolding parse_digits
parse_u64 [] = none
parse_u64 (c ∷ []) = parse_digits 0 (c ∷ [])
parse_u64 (c ∷ d ∷ cs) = if c == b'+' then parse_digits 0 (d ∷ cs) else parse_digits 0 (c ∷ d ∷ cs)

-- `n.to_string()`, with fuel for each digit; as many as `n` and one more are enough.
unfoldable pub digits_of : ℕ → ℕ → Text
digits_of zero n = []
digits_of (suc fuel) n =
    let rest = digits_of fuel (n / 10) in
    if ltb n 10 then (b'0' + n) ∷ [] else rest ++ (b'0' + n % 10) ∷ []

abbrev pub decimal : ℕ → Text
decimal n = digits_of (suc n) n

digits-append :
    (acc acc' c : ℕ) (xs : Text)
    → parse_digits acc xs ≡ some acc'
    → parse_digits acc (xs ++ c ∷ []) ≡ parse_digits acc' (c ∷ [])
unfolding parse_digits
digits-append acc acc' c [] h = ap (λ a. parse_digits a (c ∷ [])) (cc h)
digits-append acc acc' c (x ∷ xs) h =
    ground (arith, digits-append (acc * 10 + (x - b'0')) acc' c xs)

digits-round_trip :
    (fuel n : ℕ) → n < fuel → n < 2 ^ 64 → parse_digits 0 (digits_of fuel n) ≡ some n
unfolding digits_of parse_digits
digits-round_trip zero n h k = absurd (omega arith)
digits-round_trip (suc fuel) n h k = elim (Bool-cases (ltb n 10)) [
  | inl small ↦ rw small (ground arith)
  | inr large ↦ rw large (
      digits-append 0 (n / 10) (b'0' + n % 10) (digits_of fuel (n / 10))
        (digits-round_trip fuel (n / 10) (ground arith) (ground arith))
      ∙ ground arith)
]

all-append : (p : ℕ → Bool) (xs ys : Text) → all p (xs ++ ys) ≡ (all p xs && all p ys)
all-append p [] ys = refl
all-append p (x ∷ xs) ys = ground (arith, all-append p xs ys)

digits_are_digits : (fuel n : ℕ) → all is_digit (digits_of fuel n) ≡ true
unfolding digits_of
digits_are_digits zero n = refl
digits_are_digits (suc fuel) n = ground (
  arith,
  all-append is_digit (digits_of fuel (n / 10)) ((b'0' + n % 10) ∷ []),
  digits_are_digits fuel (n / 10),
)

-- The number that was printed is the number parsed.
pub parse_digits-decimal : (n : ℕ) → n < 2 ^ 64 → parse_digits 0 (decimal n) ≡ some n
parse_digits-decimal n k = digits-round_trip (suc n) n (omega arith) k

pub decimal_are_digits : (n : ℕ) → all is_digit (decimal n) ≡ true
decimal_are_digits n = digits_are_digits (suc n) n

-- A text of digits that parses is read without its sign.
pub parse_u64-digits : (t : Text) → all is_digit t ≡ true → t ≢ [] → parse_u64 t ≡ parse_digits 0 t
unfolding parse_u64
parse_u64-digits [] h n = absurd (n refl)
parse_u64-digits (c ∷ []) h n = refl
parse_u64-digits (c ∷ d ∷ cs) h n = ground (arith, nat_eq.beq_iff c b'+')

snoc≢nil : (xs : Text) (c : ℕ) → xs ++ c ∷ [] ≢ []
snoc≢nil [] c e = cc e
snoc≢nil (x ∷ xs) c e = cc e

pub decimal≢nil : (n : ℕ) → decimal n ≢ []
unfolding digits_of
decimal≢nil n e = elim (Bool-cases (ltb n 10)) [
  | inl small ↦ cc (rw small at e)
  | inr large ↦ snoc≢nil (digits_of n (n / 10)) (b'0' + n % 10) (rw large at e)
]

pub parse_u64-decimal : (n : ℕ) → n < 2 ^ 64 → parse_u64 (decimal n) ≡ some n
parse_u64-decimal n k =
    parse_u64-digits (decimal n) (decimal_are_digits n) (decimal≢nil n) ∙ parse_digits-decimal n k
