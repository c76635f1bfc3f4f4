-- ===== src/Timestamp.antt =====
-- rust/core/src/data/timestamp.rs: the lenient reading of timestamps. The parsers of chrono are
-- parameters.
pub mod Digits
use mathlib.Core.List.{reverse}
use dion_runtime.Base.{
  ℕ, zero, suc, ◌+◌, ◌-◌, ◌/◌, ◌^◌, Bool, true, false, Option, none, some, List, [], ◌∷◌, Text,
  ◌==◌, nat_eq, list_eq, all, leb, ltb, codes, trim, trim_start, if◌then◌else◌,
}
use dion_runtime.Base.Decimal.{is_digit, parse_digits}
use dion_runtime.RangeFile.Range.{before, and_then}

pub data ℤ : Type 0 where
  pos negsuc : ℕ → ℤ

-- What the code calls of chrono; each result is in UTC, and a date alone is its midnight.
pub record Chrono : Type 1 where
  pub DateTime : Type 0
  pub parse_from_rfc3339 : Text → Option DateTime
  pub naive_date_time : Text → Text → Option DateTime
  pub naive_date : Text → Text → Option DateTime
  pub timestamp_opt : ℤ → Option DateTime
  pub timestamp_millis_opt : ℤ → Option DateTime

abbrev positive : ℕ → Option ℤ
positive n = if ltb n (2 ^ 63) then some (pos n) else none

abbrev negative : ℕ → Option ℤ
negative zero = some (pos 0)
negative (suc n) = if ltb n (2 ^ 63) then some (negsuc n) else none

-- `text.parse::<i64>()`: a sign is allowed, and there is a digit.
unfoldable pub parse_i64 : Text → Option ℤ
parse_i64 [] = none
parse_i64 (c ∷ []) = and_then (parse_digits 0 (c ∷ [])) positive
parse_i64 (c ∷ d ∷ cs) =
    if c == b'+'
    then and_then (parse_digits 0 (d ∷ cs)) positive
    else if c == b'-'
    then and_then (parse_digits 0 (d ∷ cs)) negative
    else and_then (parse_digits 0 (c ∷ d ∷ cs)) positive

abbrev trim_end : Text → Text
trim_end t = reverse (trim_start (reverse t))

-- `text.len()`, in bytes of UTF-8.
unfoldable pub byte_len : Text → ℕ
byte_len [] = 0
byte_len (c ∷ cs) =
    (if ltb c 0x80 then 1 else if ltb c 0x800 then 2 else if ltb c 0x10000 then 3 else 4)
    + byte_len cs

abbrev formats : List Text
formats =
    codes "%Y-%m-%d %H:%M:%S%.f"
    ∷ codes "%Y-%m-%dT%H:%M:%S%.f"
    ∷ codes "%Y-%m-%d %H:%M"
    ∷ codes "%Y-%m-%dT%H:%M"
    ∷ codes "%Y-%m-%d"
    ∷ []

-- 100_000_000_000 and more are milliseconds.
abbrev pub seconds_of : ℤ → ℤ
seconds_of (pos n) = if leb 100_000_000_000 n then pos (n / 1000) else pos n
seconds_of (negsuc n) = negsuc n

module _ (c : Chrono) where
  open c use {
    DateTime, parse_from_rfc3339, naive_date_time, naive_date, timestamp_opt, timestamp_millis_opt,
  }

  abbrev pub otherwise : Option DateTime → Option DateTime → Option DateTime
  otherwise none d = d
  otherwise (some d) _ = some d

  unfoldable pub parse_epoch : Text → Option DateTime
  parse_epoch digits = and_then (parse_i64 digits) (λ value. timestamp_opt (seconds_of value))

  abbrev pub epoch_millis : ℤ → Option DateTime
  epoch_millis millis = timestamp_millis_opt millis

  -- The `for format in formats` loop.
  unfoldable pub try_formats : Text → List Text → Option DateTime
  try_formats t [] = none
  try_formats t (format ∷ rest) =
      let others = try_formats t rest in
      otherwise (naive_date_time t format)
        (if byte_len t == 10 then otherwise (naive_date t format) others else others)

  abbrev pub parse_trimmed : Text → Option DateTime
  parse_trimmed t =
      otherwise (parse_from_rfc3339 t)
        (if all is_digit t then parse_epoch t else try_formats t formats)

  unfoldable pub parse_lenient : Text → Option DateTime
  unfolding parse_epoch try_formats
  parse_lenient input =
      let trimmed = trim input in
      if trimmed == [] then none else parse_trimmed (trim_end (before b'[' trimmed))

  -- The visitor's methods for strings and for integers.
  unfoldable pub visit_str : Text → Option DateTime
  unfolding parse_lenient
  visit_str value = otherwise (parse_lenient value) (and_then (parse_i64 (trim value)) epoch_millis)

  unfoldable pub visit_i64 : ℤ → Option DateTime
  visit_i64 value = epoch_millis value

  unfoldable pub visit_u64 : ℕ → Option DateTime
  visit_u64 value = and_then (positive value) epoch_millis
