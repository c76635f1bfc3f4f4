-- ===== src/Mihon/Lenient.antt =====
-- The lenient numbers of rust/mihon/src/repo.rs: the visitors of `de_lenient_i64` and
-- `de_content_warning`. A value of JSON is here the call that serde_json makes for it.
use dion_runtime.Base.{
  ℕ, ◌^◌, Option, none, some, Text, codes, ◌==◌, nat_eq, list_eq, ltb, trim, strip_prefix,
  if◌then◌else◌, ◌||◌,
}
use dion_runtime.Base.Texts.{unwrap_or}
use dion_runtime.Timestamp.{ℤ, pos, negsuc, parse_i64}

-- What serde_json calls a visitor with: numbers from 0 on come as u64, the others as i64.
pub data Scalar : Type 0 where
  signed : ℤ → Scalar
  unsigned : ℕ → Scalar
  string : Text → Scalar

abbrev fits : ℕ → ℕ → Option ℤ
fits limit n = if ltb n limit then some (pos n) else none

-- `i32::try_from(v)` for an i64.
abbrev pub i32_of : ℤ → Option ℤ
i32_of (pos n) = fits (2 ^ 31) n
i32_of (negsuc n) = if ltb n (2 ^ 31) then some (negsuc n) else none

unfoldable pub de_lenient_i64 : Scalar → Option ℤ
unfolding parse_i64
de_lenient_i64 (signed v) = some v
de_lenient_i64 (unsigned v) = fits (2 ^ 63) v
de_lenient_i64 (string v) = parse_i64 (trim v)

abbrev warning_named : Text → Option ℤ
warning_named name =
    if name == codes "UNSPECIFIED" || name == codes "0"
    then some (pos 0)
    else if name == codes "SAFE" || name == codes "1"
    then some (pos 1)
    else if name == codes "MIXED" || name == codes "2"
    then some (pos 2)
    else if name == codes "NSFW" || name == codes "3"
    then some (pos 3)
    else none

unfoldable pub de_content_warning : Scalar → Option ℤ
de_content_warning (signed v) = i32_of v
de_content_warning (unsigned v) = fits (2 ^ 31) v
de_content_warning (string v) =
    warning_named (unwrap_or (strip_prefix (codes "CONTENT_WARNING_") (trim v)) v)
