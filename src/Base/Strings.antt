-- ===== src/Base/Strings.antt =====
-- Text that the program walks, as the list of its code points.
use Prim.Native.Nat.{ℕ}
use Prim.Native.Char.{code}
use Prim.Native.String.{String}
use mathlib.Core.Bool.{Bool, true, false, ◌&&◌, ◌||◌}
use mathlib.Core.Option.{Option, none, some}
use mathlib.Core.List.{List, [], ◌∷◌, reverse}
use dion_runtime.Base.Equality.{Eq, ◌==◌, nat_eq, list_eq}
use dion_runtime.Base.Tests.{leb, if◌then◌else◌}

abbrev pub Text : Type 0
Text = List ℕ

abbrev pub codes : String → Text
codes String.[] = []
codes (String.◌∷◌ c s) = code c ∷ codes s

module _ {ℓ} {A : Type ℓ} ⦃e : Eq A⦄ where
  -- Whether the second list begins with the first.
  abbrev pub is_prefix : List A → List A → Bool
  is_prefix [] ys = true
  is_prefix (x ∷ xs) [] = false
  is_prefix (x ∷ xs) (y ∷ ys) = x == y && is_prefix xs ys

  -- `text.strip_prefix(prefix)`
  abbrev pub strip_prefix : List A → List A → Option (List A)
  strip_prefix [] ys = some ys
  strip_prefix (x ∷ xs) [] = none
  strip_prefix (x ∷ xs) (y ∷ ys) = if_eq (x == y) (strip_prefix xs ys)
    where
      if_eq : Bool → Option (List A) → Option (List A)
      if_eq true r = r
      if_eq false r = none

-- `char::is_whitespace`: the code points with the Unicode property White_Space.
abbrev pub is_whitespace : ℕ → Bool
is_whitespace c =
    (leb 9 c && leb c 13)
    || c == 32
    || c == 0x85
    || c == 0xa0
    || c == 0x1680
    || (leb 0x2000 c && leb c 0x200a)
    || c == 0x2028
    || c == 0x2029
    || c == 0x202f
    || c == 0x205f
    || c == 0x3000

-- `text.trim_start()`
abbrev pub trim_start : Text → Text
trim_start [] = []
trim_start (c ∷ cs) = let rest = trim_start cs in if is_whitespace c then rest else c ∷ cs

-- `text.trim()`
abbrev pub trim : Text → Text
trim t = reverse (trim_start (reverse (trim_start t)))

-- `text.trim().is_empty()`
abbrev pub is_blank : Text → Bool
is_blank t = trim t == []
