-- ===== src/RangeFile/Range.antt =====
-- `HttpRange` and `parse_range` of rust/dion_extension/src/range_file.rs.
use dion_runtime.Base.{
  ℕ, ◌+◌, ◌-◌, Bool, ◌&&◌, ◌||◌, Option, none, some, [], ◌∷◌, Text, ◌==◌, nat_eq, list_eq, codes,
  strip_prefix, trim, leb, ltb, all, min, if◌then◌else◌,
}
use dion_runtime.Base.Decimal.{parse_u64}

-- Both ends belong to the range.
pub record HttpRange : Type 0 where
  pub start : ℕ
  pub end : ℕ

abbrev pub range_len : HttpRange → ℕ
range_len r = r.end - r.start + 1

-- `HeaderValue::to_str`: visible ASCII and tabs.
abbrev pub is_visible : ℕ → Bool
is_visible b = b == 9 || (leb 32 b && ltb b 127)

abbrev pub to_str : Text → Option Text
to_str bytes = if all is_visible bytes then some bytes else none

-- `text.split(sep).next()`
unfoldable pub before : ℕ → Text → Text
before sep [] = []
before sep (c ∷ cs) = let rest = before sep cs in if c == sep then [] else c ∷ rest

abbrev pub at_front : ℕ → Option (Text × Text) → Option (Text × Text)
at_front c none = none
at_front c (some (l, r)) = some (c ∷ l, r)

-- `text.split_once(sep)`
unfoldable pub split_once : ℕ → Text → Option (Text × Text)
split_once sep [] = none
split_once sep (c ∷ cs) =
    let rest = split_once sep cs in if c == sep then some ([], cs) else at_front c rest

-- "bytes=-N": the last N bytes.
abbrev pub last_bytes : ℕ → ℕ → Option (Option HttpRange)
last_bytes len suffix =
    if suffix == 0 || len == 0
    then some none
    else (let n = min suffix len in some (some (record { start = len - n; end = len - 1 })))

-- "bytes=N-": from N to the end.
abbrev pub from_byte : ℕ → ℕ → Option (Option HttpRange)
from_byte len start =
    if len == 0 || leb len start
    then some none
    else some (some (record { start = start; end = len - 1 }))

-- "bytes=N-M": inclusive.
abbrev pub between_bytes : ℕ → ℕ → ℕ → Option (Option HttpRange)
between_bytes len start end =
    if ltb end start
    then none
    else if len == 0 || leb len start
    then some none
    else some (some (record { start = start; end = min end (len - 1) }))

abbrev pub and_then {ℓ κ} : {A : Type ℓ} {B : Type κ} → Option A → (A → Option B) → Option B
and_then none f = none
and_then (some a) f = f a

abbrev pub range_of : ℕ → Text × Text → Option (Option HttpRange)
range_of len (start_spec, end_spec) =
    let from = trim start_spec in
    let to = trim end_spec in
    if from == []
    then (if to == [] then none else and_then (parse_u64 to) (last_bytes len))
    else if to == []
    then and_then (parse_u64 from) (from_byte len)
    else and_then (parse_u64 from) (λ a. and_then (parse_u64 to) (λ b. between_bytes len a b))

-- What stands before the first comma.
abbrev pub range_of_first : ℕ → Text → Option (Option HttpRange)
range_of_first len first =
    if first == [] then none else and_then (split_once b'-' first) (range_of len)

-- The header's value, if there is one, against a resource of `len` bytes.
unfoldable pub parse_range : Option Text → ℕ → Option (Option HttpRange)
unfolding before split_once
parse_range header len = and_then header (λ value. and_then (to_str value) (λ text.
    and_then (strip_prefix (codes "bytes=") (trim text))
      (λ rest. range_of_first len (trim (before b',' (trim rest))))))
