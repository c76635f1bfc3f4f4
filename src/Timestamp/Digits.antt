-- ===== src/Timestamp/Digits.antt =====
-- How rust/core/src/data/timestamp.rs reads a string of digits.
use mathlib.Core.List.{reverse, reverse-reverse}
use dion_runtime.Base.{
  ℕ, ◌+◌, ◌-◌, ◌*◌, ◌/◌, ◌^◌, ◌<◌, ◌≤◌, ◌≡◌, ◌≢◌, refl, ap, ◌∙◌, true, false, none, some, [], ◌∷◌,
  arith, Text, ◌==◌, nat_eq, list_eq, list_beq_iff, all, leb, ltb, trim_start, if◌then◌else◌,
}
use dion_runtime.Base.Decimal.{is_digit, parse_digits}
use dion_runtime.Base.Trims.{is_solid, all_mono, trim_id, all-reverse, trim_start_id}
use dion_runtime.RangeFile.Range.{before}
use dion_runtime.Timestamp.{Chrono, pos, parse_i64, parse_epoch, parse_lenient, seconds_of}

is_digit-is_solid : (c : ℕ) → is_digit c ≡ true → is_solid c ≡ true
is_digit-is_solid c h =
    let low : b'0' ≤ c = ground arith in let high : c ≤ b'9' = ground arith in ground arith

before_digits : (t : Text) → all is_digit t ≡ true → before b'[' t ≡ t
unfolding before
before_digits [] h = refl
before_digits (c ∷ cs) h = ground (arith, before_digits cs, nat_eq.beq_iff c b'[')

parse_i64-digits :
    (t : Text) (n : ℕ)
    → all is_digit t ≡ true
    → t ≢ []
    → parse_digits 0 t ≡ some n
    → n < 2 ^ 63
    → parse_i64 t ≡ some (pos n)
unfolding parse_i64
parse_i64-digits [] n h e p k = absurd (e refl)
parse_i64-digits (c ∷ []) n h e p k = rw p (ground arith)
parse_i64-digits (c ∷ d ∷ cs) n h e p k =
    let plus : (c == b'+') ≡ false = ground (arith, nat_eq.beq_iff c b'+') in
    let minus : (c == b'-') ≡ false = ground (arith, nat_eq.beq_iff c b'-') in
    rw (plus, minus, p) (ground arith)

-- The number that digits make after those that made `acc`.
unfoldable pub value_from : ℕ → Text → ℕ
value_from acc [] = acc
value_from acc (c ∷ cs) = value_from (acc * 10 + (c - b'0')) cs

value_from-le : (acc : ℕ) (t : Text) → acc ≤ value_from acc t
unfolding value_from
value_from-le acc [] = omega arith
value_from-le acc (c ∷ cs) = let rest = value_from-le (acc * 10 + (c - b'0')) cs in omega arith

parse_digits-value :
    (acc : ℕ) (t : Text)
    → all is_digit t ≡ true
    → value_from acc t < 2 ^ 64
    → parse_digits acc t ≡ some (value_from acc t)
unfolding parse_digits value_from
parse_digits-value acc [] h k = refl
parse_digits-value acc (c ∷ cs) h k =
    let next = acc * 10 + (c - b'0') in
    let small : ltb next (2 ^ 64) ≡ true = ground (arith, value_from-le next cs) in
    let digit : is_digit c ≡ true = ground arith in
    rw (digit, small) (parse_digits-value next cs (ground arith) k)

parse_epoch-digits :
    (c : Chrono) (t : Text)
    → all is_digit t ≡ true
    → t ≢ []
    → value_from 0 t < 2 ^ 63
    → parse_epoch c t ≡ c.timestamp_opt (seconds_of (pos (value_from 0 t)))
unfolding parse_epoch
parse_epoch-digits c t digits filled k =
    let number = parse_digits-value 0 t digits (omega arith) in
    rw (parse_i64-digits t (value_from 0 t) digits filled number k) refl

-- A string of digits, at least one, that chrono does not take for an RFC 3339 date and whose number
-- is below 2 ^ 63 stands for as many seconds, where the number is below 100_000_000_000; from there
-- on it stands for milliseconds, of which the whole seconds count and the rest is dropped.
pub parse_lenient-digits :
    (c : Chrono) (t : Text)
    → all is_digit t ≡ true
    → t ≢ []
    → c.parse_from_rfc3339 t ≡ none
    → value_from 0 t < 2 ^ 63
    → parse_lenient c t
      ≡ c.timestamp_opt (
          pos (
            if leb 100_000_000_000 (value_from 0 t) then value_from 0 t / 1000 else value_from 0 t))
unfolding parse_lenient
parse_lenient-digits c t digits nonempty no_date k =
    let solid : all is_solid t ≡ true = all_mono is_digit is_solid t is_digit-is_solid digits in
    let filled : (t == []) ≡ false = ground (arith, list_beq_iff t []) in
    let end : reverse (trim_start (reverse t)) ≡ t =
      ap reverse (trim_start_id (reverse t) (all-reverse is_solid t solid)) ∙ reverse-reverse t in
    rw (trim_id t solid, filled, before_digits t digits, end, no_date, digits)
      (parse_epoch-digits c t digits nonempty k ∙ ap c.timestamp_opt (ground arith))
