-- ===== src/RangeFile/Reads.antt =====
-- What `parse_range` of rust/dion_extension/src/range_file.rs makes of the ranges that clients ask
-- for.
use dion_runtime.Base.{
  ℕ, ◌+◌, ◌^◌, ◌<◌, ◌≤◌, ◌≡◌, ◌≢◌, ◌↔◌, refl, ◌∙◌, Bool, true, false, ◌||◌, Option, none, some, [],
  ◌∷◌, ◌++◌, arith, Text, ◌==◌, nat_eq, list_eq, list_beq_iff, codes, trim, all, Bool-cases, inl,
  inr, leb, ltb,
}
use dion_runtime.Base.Decimal.{
  decimal, decimal_are_digits, decimal≢nil, parse_u64-decimal, is_digit,
}
use dion_runtime.Base.Trims.{all-append, all_mono, is_solid, trim_id}
use dion_runtime.RangeFile.Range.{
  HttpRange, is_visible, to_str, before, split_once, last_bytes, from_byte, between_bytes, range_of,
  range_of_first, parse_range,
}

-- What a client asks for: the bytes from one to another, all from one on, or the last ones.
pub data Request : Type 0 where
  from_to : ℕ → ℕ → Request
  from : ℕ → Request
  last : ℕ → Request

abbrev pub Fits : Request → Type 0
Fits (from_to a b) = (a < 2 ^ 64) × (b < 2 ^ 64)
Fits (from a) = a < 2 ^ 64
Fits (last n) = n < 2 ^ 64

abbrev pub print : Request → Text
print (from_to a b) = decimal a ++ b'-' ∷ decimal b
print (from a) = decimal a ++ b'-' ∷ []
print (last n) = b'-' ∷ decimal n

abbrev pub header_of : Request → Text
header_of q = codes "bytes=" ++ print q

abbrev pub Requested : Request → ℕ → ℕ → Type 0
Requested (from_to a b) len i = (a ≤ i) × (i ≤ b)
Requested (from a) len i = a ≤ i
Requested (last n) len i = len ≤ i + n

-- A crossed range is malformed; otherwise the answer has the requested bytes that the resource
-- has, or there are none.
abbrev pub Satisfies : Request → ℕ → Option (Option HttpRange) → Type 0
Satisfies q len (some (some r)) =
    (i : ℕ) → ((r.start ≤ i) × (i ≤ r.end)) ↔ ((i < len) × Requested q len i)
Satisfies q len (some none) = (i : ℕ) → i < len → ¬ Requested q len i
Satisfies (from_to a b) len none = b < a
Satisfies _ len none = ⊥

is_token : ℕ → Bool
is_token c = is_digit c || c == b'-'

before_id : (t : Text) → all is_token t ≡ true → before b',' t ≡ t
unfolding before is_token
before_id [] h = refl
before_id (c ∷ cs) h = ground (arith, before_id cs, nat_eq.beq_iff c b',', nat_eq.beq_iff c b'-')

split_once_lem :
    (l r : Text) → all is_digit l ≡ true → split_once b'-' (l ++ b'-' ∷ r) ≡ some (l, r)
unfolding split_once
split_once_lem [] r h = refl
split_once_lem (c ∷ cs) r h = ground (arith, split_once_lem cs r, nat_eq.beq_iff c b'-')

is_token_range : (c : ℕ) → is_token c ≡ true → (45 ≤ c) × (c ≤ 57)
unfolding is_token
is_token_range c h = ground (arith, nat_eq.beq_iff c b'-')

is_token-is_solid : (c : ℕ) → is_token c ≡ true → is_solid c ≡ true
is_token-is_solid c h = let (low, high) = is_token_range c h in ground arith

is_token-is_visible : (c : ℕ) → is_token c ≡ true → is_visible c ≡ true
is_token-is_visible c h = let (low, high) = is_token_range c h in ground arith

is_digit-is_token : (c : ℕ) → is_digit c ≡ true → is_token c ≡ true
unfolding is_token
is_digit-is_token c h = ground arith

tokens :
    (l r : Text)
    → all is_digit l ≡ true
    → all is_digit r ≡ true
    → all is_token (l ++ b'-' ∷ r) ≡ true
unfolding is_token
tokens l r h k =
    all-append is_token l (b'-' ∷ r)
    ∙ ground (
      arith,
      all_mono is_digit is_token l is_digit-is_token h,
      all_mono is_digit is_token r is_digit-is_token k,
    )

to_str_token :
    (t : Text) → all is_token t ≡ true → to_str (codes "bytes=" ++ t) ≡ some (codes "bytes=" ++ t)
to_str_token t h =
    let visible : all is_visible t ≡ true = all_mono is_token is_visible t is_token-is_visible h in
    rw visible refl

range_of_first_full :
    (len : ℕ) (t : Text) (p : Text × Text)
    → t ≢ []
    → split_once b'-' t ≡ some p
    → range_of_first len t ≡ range_of len p
range_of_first_full len t p n e = ground (arith, list_beq_iff t [])

dash≢nil : (l r : Text) → l ++ b'-' ∷ r ≢ []
dash≢nil [] r e = cc e
dash≢nil (c ∷ l) r e = cc e

parse_range_tokens :
    (l r : Text) (len : ℕ)
    → all is_digit l ≡ true
    → all is_digit r ≡ true
    → parse_range (some (codes "bytes=" ++ (l ++ b'-' ∷ r))) len ≡ range_of len (l, r)
unfolding parse_range
parse_range_tokens l r len h k =
    let t = l ++ b'-' ∷ r in
    let ts : all is_token t ≡ true = tokens l r h k in
    let solid : all is_solid t ≡ true = all_mono is_token is_solid t is_token-is_solid ts in
    rw
      (
        to_str_token t ts,
        trim_id (codes "bytes=" ++ t) solid,
        trim_id t solid,
        before_id t ts,
        trim_id t solid,
      )
      (range_of_first_full len t (l, r) (dash≢nil l r) (split_once_lem l r h))

-- The digits of a number are not blank, and are what they were after a trim.
trim-decimal : (n : ℕ) → trim (decimal n) ≡ decimal n
trim-decimal n = trim_id (decimal n) (
    all_mono is_digit is_solid (decimal n) (λ c h. is_token-is_solid c (is_digit-is_token c h))
      (decimal_are_digits n))

filled : (n : ℕ) → (decimal n == []) ≡ false
filled n = ground (arith, list_beq_iff (decimal n) [], decimal≢nil n)

range_of-from_to :
    (len a b : ℕ)
    → a < 2 ^ 64
    → b < 2 ^ 64
    → range_of len (decimal a, decimal b) ≡ between_bytes len a b
range_of-from_to len a b h k =
    rw
      (
        trim-decimal a,
        trim-decimal b,
        filled a,
        filled b,
        parse_u64-decimal a h,
        parse_u64-decimal b k,
      )
      refl

range_of-from : (len a : ℕ) → a < 2 ^ 64 → range_of len (decimal a, []) ≡ from_byte len a
range_of-from len a h = rw (trim-decimal a, filled a, parse_u64-decimal a h) refl

range_of-last : (len n : ℕ) → n < 2 ^ 64 → range_of len ([], decimal n) ≡ last_bytes len n
range_of-last len n h = rw (trim-decimal n, filled n, parse_u64-decimal n h) refl

between_bytes-Satisfies : (len a b : ℕ) → Satisfies (from_to a b) len (between_bytes len a b)
between_bytes-Satisfies len a b = elim (Bool-cases (ltb b a)) [
  | inl crossed ↦ rw crossed (ground arith)
  | inr ordered ↦ elim (Bool-cases (len == 0 || leb len a)) [
    | inl beyond ↦ rw (ordered, beyond) (λ i h (low, high). ground arith)
    | inr inside ↦ rw (ordered, inside) (λ i. ground arith)
  ]
]

from_byte-Satisfies : (len a : ℕ) → Satisfies (from a) len (from_byte len a)
from_byte-Satisfies len a = elim (Bool-cases (len == 0 || leb len a)) [
  | inl beyond ↦ rw beyond (λ i h low. ground arith)
  | inr inside ↦ rw inside (λ i. ground arith)
]

last_bytes-Satisfies : (len n : ℕ) → Satisfies (last n) len (last_bytes len n)
last_bytes-Satisfies len n = elim (Bool-cases (n == 0 || len == 0)) [
  | inl none_left ↦ rw none_left (λ i h low. ground arith)
  | inr some_left ↦ rw some_left (λ i. ground arith)
]

-- A request for a range whose numbers fit in 64 bits, printed as a `Range` header: the answer has
-- the requested bytes that the resource has and no others; it is unsatisfiable only if there are
-- none; and it is malformed only if the ends are crossed.
pub parse_range-Satisfies :
    (q : Request) (len : ℕ) → Fits q → Satisfies q len (parse_range (some (header_of q)) len)
parse_range-Satisfies (from_to a b) len (h, k) =
    let read : parse_range (some (header_of (from_to a b))) len ≡ between_bytes len a b =
      parse_range_tokens (decimal a) (decimal b) len (decimal_are_digits a) (decimal_are_digits b)
      ∙ range_of-from_to len a b h k in
    rw read (between_bytes-Satisfies len a b)
parse_range-Satisfies (from a) len h =
    let read : parse_range (some (header_of (from a))) len ≡ from_byte len a =
      parse_range_tokens (decimal a) [] len (decimal_are_digits a) refl ∙ range_of-from len a h in
    rw read (from_byte-Satisfies len a)
parse_range-Satisfies (last n) len h =
    let read : parse_range (some (header_of (last n))) len ≡ last_bytes len n =
      parse_range_tokens [] (decimal n) len refl (decimal_are_digits n) ∙ range_of-last len n h in
    rw read (last_bytes-Satisfies len n)
