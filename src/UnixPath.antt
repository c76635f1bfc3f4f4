-- ===== src/UnixPath.antt =====
-- `std::path::Path` of the standard library on Unix, over the code points of a path: what
-- `Permission::allows` and `filesystem.rs` ask of it.
use mathlib.Core.List.{reverse}
use dion_runtime.Base.{
  ◌||◌, ◌&&◌, Option, some, none, ◌++◌, if◌then◌else◌, ℕ, ◌≡◌, refl, Bool, true, false, List, [],
  ◌∷◌, arith, Text, Eq, ◌==◌, ◌↔◌, list_beq_iff, list_eq, nat_eq, is_prefix, codes,
}

pub data Component : Type 0 where
  root_dir cur_dir parent_dir : Component
  normal : Text → Component

abbrev pub component_beq : Component → Component → Bool
component_beq root_dir root_dir = true
component_beq cur_dir cur_dir = true
component_beq parent_dir parent_dir = true
component_beq (normal a) (normal b) = a == b
component_beq _ _ = false

pub component_beq_iff : (a b : Component) → (component_beq a b ≡ true) ↔ (a ≡ b)
component_beq_iff (normal a) (normal b) = ground (arith, list_beq_iff a b)
component_beq_iff root_dir root_dir = ground arith
component_beq_iff root_dir cur_dir = ground arith
component_beq_iff root_dir parent_dir = ground arith
component_beq_iff root_dir (normal b) = ground arith
component_beq_iff cur_dir root_dir = ground arith
component_beq_iff cur_dir cur_dir = ground arith
component_beq_iff cur_dir parent_dir = ground arith
component_beq_iff cur_dir (normal b) = ground arith
component_beq_iff parent_dir root_dir = ground arith
component_beq_iff parent_dir cur_dir = ground arith
component_beq_iff parent_dir parent_dir = ground arith
component_beq_iff parent_dir (normal b) = ground arith
component_beq_iff (normal a) root_dir = ground arith
component_beq_iff (normal a) cur_dir = ground arith
component_beq_iff (normal a) parent_dir = ground arith

instance abbrev pub component_eq : Eq Component
component_eq = record { beq = component_beq; beq_iff = component_beq_iff }

-- The pieces of a text between separators: `text.split(sep)`, never empty.
unfoldable pub split_on : (ℕ → Bool) → Text → List Text
split_on sep [] = [] ∷ []
split_on sep (c ∷ cs) = elim (split_on sep cs) [
  | [] ↦ [] ∷ []
  | piece ∷ pieces ↦ if sep c then [] ∷ piece ∷ pieces else (c ∷ piece) ∷ pieces
]

abbrev pub slash : ℕ
slash = b'/'

abbrev pub is_slash : ℕ → Bool
is_slash c = c == slash

-- Empty pieces and `.` are no components.
abbrev pub piece_components : Text → List Component
piece_components p =
    if p == []
    then []
    else if p == codes "."
    then []
    else if p == codes ".."
    then parent_dir ∷ []
    else normal p ∷ []

unfoldable pub pieces_components : List Text → List Component
pieces_components [] = []
pieces_components (p ∷ ps) = piece_components p ++ pieces_components ps

-- A leading `/` is the root; a leading `.` of a relative path is kept.
abbrev pub front : List Text → List Component
front [] = []
front ([] ∷ []) = []
front ([] ∷ p ∷ ps) = root_dir ∷ []
front (p ∷ ps) = if p == codes "." then cur_dir ∷ [] else []

-- `path.components()`
unfoldable pub components : Text → List Component
unfolding split_on pieces_components
components path = let pieces = split_on is_slash path in front pieces ++ pieces_components pieces

-- `path.starts_with(base)`: whole components are compared.
unfoldable pub starts_with : Text → Text → Bool
starts_with path base = is_prefix (components base) (components path)

unfoldable pub last_name : List Component → Option Text
last_name [] = none
last_name (normal name ∷ []) = some name
last_name (c ∷ []) = none
last_name (c ∷ d ∷ cs) = last_name (d ∷ cs)

-- `path.file_name()`: the last component, if it is a name.
unfoldable pub file_name : Text → Option Text
unfolding components last_name
file_name path = last_name (components path)

-- What follows the last dot, on the name from its end; a name that begins with its only dot has no
-- extension.
abbrev extension_of : Text → Option Text
extension_of name = after_dot [] (reverse name)
  where
    after_dot : Text → Text → Option Text
    after_dot ext [] = none
    after_dot ext (c ∷ []) = none
    after_dot ext (c ∷ d ∷ cs) =
        let rest = after_dot (c ∷ ext) (d ∷ cs) in if c == b'.' then some ext else rest

-- `path.extension()`
unfoldable pub extension : Text → Option Text
unfolding file_name
extension path = elim (file_name path) [ none ↦ none | some name ↦ extension_of name ]

abbrev pub ends_in_slash : Text → Bool
ends_in_slash [] = false
ends_in_slash (c ∷ []) = is_slash c
ends_in_slash (c ∷ d ∷ cs) = ends_in_slash (d ∷ cs)

-- `Path::join`: an absolute second path replaces the first.
unfoldable pub join : Text → Text → Text
join base [] = if ends_in_slash base || base == [] then base else base ++ slash ∷ []
join base (c ∷ cs) =
    if is_slash c
    then c ∷ cs
    else if ends_in_slash base || base == []
    then base ++ c ∷ cs
    else base ++ slash ∷ c ∷ cs

-- Separators and `.` at the end of a path, which is given from its end.
unfoldable pub trim_tail : Text → Text
trim_tail [] = []
trim_tail (c ∷ []) = if is_slash c then [] else c ∷ []
trim_tail (c ∷ d ∷ cs) =
    let rest = trim_tail (d ∷ cs) in
    if is_slash c then rest else if c == b'.' && is_slash d then rest else c ∷ d ∷ cs

unfoldable pub drop_piece : Text → Text
drop_piece [] = []
drop_piece (c ∷ cs) = let rest = drop_piece cs in if is_slash c then c ∷ cs else rest

abbrev pub is_absolute : Text → Bool
is_absolute [] = false
is_absolute (c ∷ cs) = is_slash c

-- `path.parent()`: the path before its last component; the root and the empty path have none.
unfoldable pub parent : Text → Option Text
unfolding trim_tail drop_piece
parent path =
    let tail = trim_tail (reverse path) in
    let front = trim_tail (drop_piece tail) in
    if tail == []
    then none
    else if front == [] && is_absolute path
    then some (slash ∷ [])
    else some (reverse front)

paths_example :
    (parent (codes "/a//b/c/") ≡ some (codes "/a//b"))
    × (parent (codes "/a") ≡ some (codes "/"))
    × (parent (codes "/") ≡ none)
    × (parent (codes "a") ≡ some [])
    × (extension (codes "/a/b.tar.gz") ≡ some (codes "gz"))
    × (extension (codes "/a/.profile") ≡ none)
    × (join (codes "/a") (codes "b") ≡ codes "/a/b")
unfolding parent extension join components
paths_example = (refl, refl, refl, refl, refl, refl, refl)

components_example :
    components (codes "/a//./b/../c")
    ≡ root_dir ∷ normal (codes "a") ∷ normal (codes "b") ∷ parent_dir ∷ normal (codes "c") ∷ []
unfolding components
components_example = refl

starts_with_example :
    (starts_with (codes "/data/ext/f") (codes "/data/ext/") ≡ true)
    × (starts_with (codes "/data/ext-other/f") (codes "/data/ext") ≡ false)
unfolding starts_with components
starts_with_example = (refl, refl)
