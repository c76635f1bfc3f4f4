-- ===== src/RangeFile/Parses.antt =====
-- What `parse_range` of rust/dion_extension/src/range_file.rs makes of a header.
use dion_runtime.Base.{
  ℕ, ◌<◌, ◌≤◌, ◌||◌, Option, none, some, [], arith, Text, ◌==◌, nat_eq, list_eq, codes,
  strip_prefix, trim, Bool-cases, inl, inr, leb, ltb,
}
use dion_runtime.Base.Decimal.{parse_u64}
use dion_runtime.RangeFile.Range.{
  HttpRange, to_str, before, split_once, last_bytes, from_byte, between_bytes, and_then, range_of,
  range_of_first, parse_range,
}

-- A range that can be served: its ends are in order and within the resource.
abbrev pub Within : ℕ → Option (Option HttpRange) → Type 0
Within len (some (some r)) = (r.start ≤ r.end) × (r.end < len)
Within len _ = Unit

last_bytes-Within : (len n : ℕ) → Within len (last_bytes len n)
last_bytes-Within len n = elim (Bool-cases (n == 0 || len == 0)) [
  | inl none_left ↦ rw none_left tt
  | inr some_left ↦ rw some_left (ground arith)
]

from_byte-Within : (len n : ℕ) → Within len (from_byte len n)
from_byte-Within len n = elim (Bool-cases (len == 0 || leb len n)) [
  | inl beyond ↦ rw beyond tt
  | inr inside ↦ rw inside (ground arith)
]

between_bytes-Within : (len a b : ℕ) → Within len (between_bytes len a b)
between_bytes-Within len a b = elim (Bool-cases (ltb b a)) [
  | inl crossed ↦ rw crossed tt
  | inr ordered ↦ elim (Bool-cases (len == 0 || leb len a)) [
    | inl beyond ↦ rw (ordered, beyond) tt
    | inr inside ↦ rw (ordered, inside) (ground arith)
  ]
]

and_then-Within :
    {A : Type 0} (len : ℕ) (o : Option A) (f : A → Option (Option HttpRange))
    → ((a : A) → Within len (f a))
    → Within len (and_then o f)
and_then-Within len none f h = tt
and_then-Within len (some a) f h = h a

range_of-Within : (len : ℕ) (l r : Text) → Within len (range_of len (l, r))
range_of-Within len l r = elim (Bool-cases (trim l == [])) [
  | inl no_start ↦ elim (Bool-cases (trim r == [])) [
    | inl no_end ↦ rw (no_start, no_end) tt
    | inr some_end ↦
        rw (no_start, some_end)
          (and_then-Within len (parse_u64 (trim r)) (last_bytes len) (last_bytes-Within len))
  ]
  | inr some_start ↦ elim (Bool-cases (trim r == [])) [
    | inl no_end ↦
        rw (some_start, no_end)
          (and_then-Within len (parse_u64 (trim l)) (from_byte len) (from_byte-Within len))
    | inr some_end ↦
        rw (some_start, some_end)
          (and_then-Within len (parse_u64 (trim l)) _
            (λ a. and_then-Within len (parse_u64 (trim r)) _ (between_bytes-Within len a)))
  ]
]

range_of_first-Within : (len : ℕ) (first : Text) → Within len (range_of_first len first)
range_of_first-Within len first = elim (Bool-cases (first == [])) [
  | inl blank ↦ rw blank tt
  | inr full ↦
      rw full (and_then-Within len (split_once b'-' first) _ (λ p. range_of-Within len p.0 p.1))
]

-- Whatever the header, a range that `parse_range` finds has its ends in order and within the
-- resource, so that its length is between 1 and the resource's and no subtraction wraps around.
pub parse_range-Within : (header : Option Text) (len : ℕ) → Within len (parse_range header len)
unfolding parse_range
parse_range-Within header len = and_then-Within len header _ (λ value.
    and_then-Within len (to_str value) _ (λ text.
      and_then-Within len (strip_prefix (codes "bytes=") (trim text)) _
        (λ rest. range_of_first-Within len (trim (before b',' (trim rest))))))
