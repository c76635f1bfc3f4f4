-- ===== src/Metadata/Chapters.antt =====
-- `chapter_list`, `duration_ms` and `pdf_date_to_iso` of rust/dion_extension/src/metadata.rs. A
-- `Duration` is its number of nanoseconds.
use dion_runtime.Base.{
  ℕ, zero, suc, ◌-◌, ◌/◌, ◌%◌, ◌^◌, Option, none, some, List, [], ◌∷◌, ◌++◌, Text, max, leb, ltb,
  if◌then◌else◌, is_blank,
}
use dion_runtime.Base.Decimal.{decimal}
use dion_runtime.Metadata.Types.{Chapter}

-- `duration.as_millis() as u64`
abbrev pub as_millis : ℕ → ℕ
as_millis nanos = nanos / 1_000_000 % 2 ^ 64

-- `sort_by_key`, which is stable: an element goes before those that start later.
unfoldable pub insert_start : ℕ × Text → List (ℕ × Text) → List (ℕ × Text)
insert_start c [] = c ∷ []
insert_start c (e ∷ es) =
    let rest = insert_start c es in if leb c.0 e.0 then c ∷ e ∷ es else e ∷ rest

unfoldable pub sort_by_start : List (ℕ × Text) → List (ℕ × Text)
unfolding insert_start
sort_by_start [] = []
sort_by_start (c ∷ cs) = insert_start c (sort_by_start cs)

-- The start of the next chapter, or the total.
abbrev pub next_start : List (ℕ × Text) → ℕ → ℕ
next_start [] total = total
next_start (c ∷ cs) total = c.0

abbrev pub chapter_of : ℕ × Text → ℕ → Chapter
chapter_of (start, title) next = record {
  title = if is_blank title then none else some title;
  start_ms = as_millis start;
  duration_ms = some (as_millis (max next start - start));
}

unfoldable pub chapters_of : List (ℕ × Text) → ℕ → List Chapter
chapters_of [] total = []
chapters_of (c ∷ cs) total = chapter_of c (next_start cs total) ∷ chapters_of cs total

unfoldable pub chapter_list : List (ℕ × Text) → ℕ → List Chapter
unfolding sort_by_start chapters_of
chapter_list chapters total = chapters_of (sort_by_start chapters) total

unfoldable pub duration_ms : ℕ → Option ℕ
duration_ms duration = if ltb 0 duration then some (as_millis duration) else none

-- The zone of a date of a PDF file, before, at or after universal time.
pub data TimeRel : Type 0 where
  earlier later universal : TimeRel

pub record Date : Type 0 where
  pub year : ℕ
  pub month : ℕ
  pub day : ℕ
  pub hour : ℕ
  pub minute : ℕ
  pub second : ℕ
  pub rel : TimeRel
  pub tz_hour : ℕ
  pub tz_minute : ℕ

-- `{:02}` and `{:04}`: zeros in front up to the width.
abbrev pad : ℕ → Text → Text
pad zero t = t
pad (suc n) t = if ltb (len t) (suc n) then b'0' ∷ pad n t else t
  where
    len : Text → ℕ
    len [] = 0
    len (c ∷ cs) = suc (len cs)

abbrev base_of : Date → Text
base_of d =
    pad 4 (decimal d.year)
    ++ b'-' ∷ pad 2 (decimal d.month)
    ++ b'-' ∷ pad 2 (decimal d.day)
    ++ b'T' ∷ pad 2 (decimal d.hour)
    ++ b':' ∷ pad 2 (decimal d.minute)
    ++ b':' ∷ pad 2 (decimal d.second)

abbrev zone_of : Date → Text
zone_of d = pad 2 (decimal d.tz_hour) ++ b':' ∷ pad 2 (decimal d.tz_minute)

abbrev with_zone : TimeRel → Date → Text
with_zone universal d = b'Z' ∷ []
with_zone earlier d = b'-' ∷ zone_of d
with_zone later d = b'+' ∷ zone_of d

unfoldable pub pdf_date_to_iso : Date → Text
pdf_date_to_iso d = base_of d ++ with_zone d.rel d
