-- ===== src/Metadata/ChapterLaws.antt =====
-- The chapters of a film or a book: each ends where the next one starts.
use dion_runtime.Base.{
  ℕ, ◌+◌, ◌-◌, ◌*◌, ◌/◌, ◌^◌, ◌≤◌, ◌<◌, ◌≡◌, refl, ap, arith, List, [], ◌∷◌, map, Text, max, leb,
  All, Bool-cases, inl, inr,
}
use mathlib.Core.List.Perm
use mathlib.Core.List.{Perm}
use dion_runtime.Base.Texts.{unwrap_or}
use dion_runtime.Metadata.Types.{Chapter}
use dion_runtime.Metadata.Chapters.{
  as_millis, insert_start, sort_by_start, chapters_of, chapter_list,
}

abbrev pub end_ms : Chapter → ℕ
end_ms c = c.start_ms + unwrap_or c.duration_ms 0

-- Chapters do not overlap, and less than two milliseconds lie between one and the next.
abbrev pub IsTiled : List Chapter → Type 0
IsTiled [] = Unit
IsTiled (c ∷ []) = Unit
IsTiled (c ∷ e ∷ es) = (end_ms c ≤ e.start_ms) × (e.start_ms ≤ end_ms c + 1) × IsTiled (e ∷ es)

abbrev IsSorted : List (ℕ × Text) → Type 0
IsSorted [] = Unit
IsSorted (c ∷ []) = Unit
IsSorted (c ∷ e ∷ es) = (c.0 ≤ e.0) × IsSorted (e ∷ es)

insert-IsSorted : (c : ℕ × Text) (es : List (ℕ × Text)) → IsSorted es → IsSorted (insert_start c es)
unfolding insert_start
insert-IsSorted c [] s = tt
insert-IsSorted c (e ∷ []) s = ground arith
insert-IsSorted c (e ∷ g ∷ es) s = ground (arith, insert-IsSorted c (g ∷ es))

sort-IsSorted : (cs : List (ℕ × Text)) → IsSorted (sort_by_start cs)
unfolding sort_by_start
sort-IsSorted [] = tt
sort-IsSorted (c ∷ cs) = insert-IsSorted c (sort_by_start cs) (sort-IsSorted cs)

tile : (a b : ℕ) → a ≤ b → a / 1_000_000 + (b - a) / 1_000_000 ≤ b / 1_000_000
tile a b h = omega arith

tile' : (a b : ℕ) → a ≤ b → b / 1_000_000 ≤ a / 1_000_000 + (b - a) / 1_000_000 + 1
tile' a b h = omega arith

-- The nanoseconds whose milliseconds are below 2 ^ 64.
abbrev pub limit : ℕ
limit = 2 ^ 64 * 1_000_000

as_millis_id : (n : ℕ) → n < limit → as_millis n ≡ n / 1_000_000
as_millis_id n h = omega arith

tile_step :
    (a b : ℕ)
    → a ≤ b
    → b < limit
    → (as_millis a + as_millis (max b a - a) ≤ as_millis b)
      × (as_millis b ≤ as_millis a + as_millis (max b a - a) + 1)
tile_step a b h k =
    let gap : max b a - a ≡ b - a = ground arith in
    rw (gap, as_millis_id a (omega arith), as_millis_id b k, as_millis_id (b - a) (omega arith))
      (tile a b h, tile' a b h)

abbrev pub IsBelow : ℕ × Text → Type 0
IsBelow c = c.0 < limit

insert-IsBelow :
    (c : ℕ × Text) (es : List (ℕ × Text))
    → IsBelow c
    → All IsBelow es
    → All IsBelow (insert_start c es)
unfolding insert_start
insert-IsBelow c [] h hs = (h, tt)
insert-IsBelow c (e ∷ es) h (k, hs) = elim (Bool-cases (leb c.0 e.0)) [
  | inl first ↦ rw first (h, (k, hs))
  | inr later ↦ rw later (k, insert-IsBelow c es h hs)
]

sort-IsBelow : (cs : List (ℕ × Text)) → All IsBelow cs → All IsBelow (sort_by_start cs)
unfolding sort_by_start
sort-IsBelow [] h = tt
sort-IsBelow (c ∷ cs) (h, hs) = insert-IsBelow c (sort_by_start cs) h (sort-IsBelow cs hs)

chapters_of-IsTiled :
    (cs : List (ℕ × Text)) (total : ℕ)
    → IsSorted cs
    → All IsBelow cs
    → IsTiled (chapters_of cs total)
unfolding chapters_of
chapters_of-IsTiled [] total s h = tt
chapters_of-IsTiled (c ∷ []) total s h = tt
chapters_of-IsTiled (c ∷ e ∷ es) total (le, s) (k, h) =
    let step = tile_step c.0 e.0 le h.0 in (step.0, step.1, chapters_of-IsTiled (e ∷ es) total s h)

insert-Perm : (c : ℕ × Text) (es : List (ℕ × Text)) → Perm (insert_start c es) (c ∷ es)
unfolding insert_start
insert-Perm c [] = Perm.refl (c ∷ [])
insert-Perm c (e ∷ es) = elim (Bool-cases (leb c.0 e.0)) [
  | inl first ↦ rw first (Perm.refl (c ∷ e ∷ es))
  | inr later ↦ rw later (Perm.trans (Perm.cons e (insert-Perm c es)) (Perm.swap c e es))
]

sort-Perm : (cs : List (ℕ × Text)) → Perm (sort_by_start cs) cs
unfolding sort_by_start
sort-Perm [] = Perm.refl []
sort-Perm (c ∷ cs) = Perm.trans (insert-Perm c (sort_by_start cs)) (Perm.cons c (sort-Perm cs))

starts_of-chapters_of :
    (cs : List (ℕ × Text)) (total : ℕ)
    → map (λ (c : Chapter). c.start_ms) (chapters_of cs total)
      ≡ map (λ (c : ℕ × Text). as_millis c.0) cs
unfolding chapters_of
starts_of-chapters_of [] total = refl
starts_of-chapters_of (c ∷ cs) total =
    ap (λ starts. as_millis c.0 ∷ starts) (starts_of-chapters_of cs total)

-- For chapters whose starts are below 2 ^ 64 milliseconds: in the list of chapters each one ends
-- where the next one starts, up to the one millisecond that rounding down loses, and the starts are
-- those given, each as often as given.
pub chapter_list-IsTiled :
    (chapters : List (ℕ × Text)) (total : ℕ)
    → All IsBelow chapters
    → IsTiled (chapter_list chapters total)
      × Perm
          (map (λ (c : Chapter). c.start_ms) (chapter_list chapters total))
          (map (λ (c : ℕ × Text). as_millis c.0) chapters)
unfolding chapter_list
chapter_list-IsTiled chapters total h = (
  chapters_of-IsTiled (sort_by_start chapters) total (sort-IsSorted chapters)
      (sort-IsBelow chapters h),
  rw (starts_of-chapters_of (sort_by_start chapters) total)
      (Perm.map (λ (c : ℕ × Text). as_millis c.0) (sort-Perm chapters)),
)
