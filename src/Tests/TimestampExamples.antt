-- ===== src/Tests/TimestampExamples.antt =====
-- The theorem on timestamps at a concrete input.
use dion_runtime.Base.{◌≡◌, refl, none, some, leb, codes, ◌/◌, if◌then◌else◌, arith}
use dion_runtime.Base.Decimal.{parse_digits}
use dion_runtime.RangeFile.Range.{before}
use dion_runtime.Timestamp.{Chrono, ℤ, pos, parse_lenient, parse_i64}
use dion_runtime.Timestamp.Digits.{parse_lenient-digits, value_from}

-- Times are seconds, and no text is a date.
abbrev clock : Chrono
clock = record {
  DateTime = ℤ;
  parse_from_rfc3339 = λ t. none;
  naive_date_time = λ t f. none;
  naive_date = λ t f. none;
  timestamp_opt = λ s. some s;
  timestamp_millis_opt = λ s. some s;
}

parse_lenient-digits_example :
    parse_lenient clock (codes "01700000000999")
    ≡ clock.timestamp_opt (
        pos (
          if leb 100_000_000_000 (value_from 0 (codes "01700000000999"))
          then value_from 0 (codes "01700000000999") / 1000
          else value_from 0 (codes "01700000000999")))
unfolding value_from
parse_lenient-digits_example =
    parse_lenient-digits clock (codes "01700000000999") refl (λ e. cc e) refl (omega arith)

-- Leading zeros do not count, and the milliseconds are dropped.
parse_lenient_example : parse_lenient clock (codes "01700000000999") ≡ some (pos 1700000000)
unfolding parse_lenient parse_i64 parse_digits before
parse_lenient_example = refl
