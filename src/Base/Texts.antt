-- ===== src/Base/Texts.antt =====
-- Operations of `str` from the end of a text, over its code points.
use mathlib.Core.List.{reverse}
use Prim.Native.Nat.{ℕ, zero, suc, ◌-◌}
use mathlib.Core.Bool.{Bool, true, false, ◌||◌}
use mathlib.Core.Option.{Option, none, some}
use mathlib.Core.List.{List, [], ◌∷◌, ◌++◌}
use dion_runtime.Base.Lists.{length}
use dion_runtime.Base.Equality.{◌==◌, nat_eq, list_eq}
use dion_runtime.Base.Strings.{Text, is_prefix, strip_prefix, trim_start}
use dion_runtime.Base.Tests.{if◌then◌else◌}

-- `text.trim_end()`
abbrev pub trim_end : Text → Text
trim_end t = reverse (trim_start (reverse t))

-- `text.ends_with(suffix)`
unfoldable pub ends_with : Text → Text → Bool
ends_with text suffix = is_prefix (reverse suffix) (reverse text)

-- `text.strip_suffix(suffix)`
unfoldable pub strip_suffix : Text → Text → Option Text
strip_suffix suffix text = elim (strip_prefix (reverse suffix) (reverse text)) [
  | none ↦ none
  | some front ↦ some (reverse front)
]

-- `text.trim_start_matches(c)`
unfoldable pub skip_char : ℕ → Text → Text
skip_char c [] = []
skip_char c (d ∷ ds) = let rest = skip_char c ds in if d == c then rest else d ∷ ds

-- `text.trim_end_matches(c)`
unfoldable pub trim_end_matches : ℕ → Text → Text
unfolding skip_char
trim_end_matches c text = reverse (skip_char c (reverse text))

-- What stands before the first `c`, and what stands after it, if there is one.
unfoldable pub cut : ℕ → Text → Text
cut c [] = []
cut c (d ∷ ds) = let rest = cut c ds in if d == c then [] else d ∷ rest

unfoldable pub cut_rest : ℕ → Text → Option Text
cut_rest c [] = none
cut_rest c (d ∷ ds) = let rest = cut_rest c ds in if d == c then some ds else rest

-- `text.rsplit_once(c)`
unfoldable pub rsplit_once : ℕ → Text → Option (Text × Text)
unfolding cut cut_rest
rsplit_once c text = elim (cut_rest c (reverse text)) [
  | none ↦ none
  | some front ↦ some (reverse front, reverse (cut c (reverse text)))
]

-- `option.unwrap_or(default)`
abbrev pub unwrap_or {ℓ} : {A : Type ℓ} → Option A → A → A
unwrap_or none d = d
unwrap_or (some a) d = a

-- `option.or_else(other)`
abbrev pub or_else {ℓ} : {A : Type ℓ} → Option A → Option A → Option A
or_else none b = b
or_else (some a) b = some a

abbrev pub map_option {ℓ κ} : {A : Type ℓ} {B : Type κ} → (A → B) → Option A → Option B
map_option f none = none
map_option f (some a) = some (f a)

abbrev pub is_some {ℓ} : {A : Type ℓ} → Option A → Bool
is_some none = false
is_some (some a) = true

-- Puts a character before the first of the pieces.
abbrev to_first : ℕ → List Text → List Text
to_first c [] = (c ∷ []) ∷ []
to_first c (p ∷ ps) = (c ∷ p) ∷ ps

-- The pieces between the places where `pattern` stands; `skip` characters belong to one found before.
unfoldable pub pieces_of : Text → ℕ → Text → List Text
pieces_of needle skip [] = [] ∷ []
pieces_of needle (suc skip) (c ∷ cs) = pieces_of needle skip cs
pieces_of needle zero (c ∷ cs) =
    let here = is_prefix needle (c ∷ cs) in
    let rest = pieces_of needle (if here then length needle - 1 else 0) cs in
    if here then [] ∷ rest else to_first c rest

-- `text.split(pattern)`, for a pattern that is not empty.
unfoldable pub split_text : Text → Text → List Text
unfolding pieces_of
split_text needle text = pieces_of needle 0 text

unfoldable pub join_with : Text → List Text → Text
join_with by [] = []
join_with by (p ∷ []) = p
join_with by (p ∷ q ∷ ps) = p ++ (by ++ join_with by (q ∷ ps))

-- `text.replace(pattern, by)`, for a pattern that is not empty.
unfoldable pub replace : Text → Text → Text → Text
unfolding split_text join_with
replace needle by text = join_with by (split_text needle text)

-- `text.contains(pattern)`
unfoldable pub contains_text : Text → Text → Bool
contains_text needle [] = needle == []
contains_text needle (c ∷ cs) = is_prefix needle (c ∷ cs) || contains_text needle cs
