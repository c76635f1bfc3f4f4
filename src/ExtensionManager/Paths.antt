-- ===== src/ExtensionManager/Paths.antt =====
-- Where the script of an extension stands: directly in the directory of the extensions.
use mathlib.Core.List.{append_assoc, append-nil}
use dion_runtime.Base.{
  ℕ, ◌≡◌, refl, sym, ap, subst, ◌∙◌, arith, ◌<◌, Bool, true, false, inl, inr, Bool-cases, List, [],
  ◌∷◌, ◌++◌, Text, codes, ◌==◌, nat_eq, list_eq, any, beq_ne, any-append, length, length-append,
}
use dion_runtime.UnixPath.{
  normal, components, split_on, is_slash, slash, front, piece_components, pieces_components, join,
  ends_in_slash,
}
use dion_runtime.ExtensionManager.Metadata.{is_unsafe_id, has_char}
use dion_runtime.ExtensionManager.Install.{script_name, script_suffix}

-- A split has at least one piece.
split-cons : (sep : ℕ → Bool) (t : Text) → (p : Text) × (ps : List Text) × (split_on sep t ≡ p ∷ ps)
unfolding split_on
split-cons sep [] = ([], [], refl)
split-cons sep (c ∷ cs) =
    let rest = split-cons sep cs in
    elim (Bool-cases (sep c)) [
      | inl here ↦ ([], rest.0 ∷ rest.1, rw (rest.2, here) refl)
      | inr past ↦ (c ∷ rest.0, rest.1, rw (rest.2, past) refl)
    ]

-- A text without separators is one piece.
split_one : (sep : ℕ → Bool) (t : Text) → any sep t ≡ false → split_on sep t ≡ t ∷ []
unfolding split_on
split_one sep [] h = refl
split_one sep (c ∷ cs) h =
    let here : sep c ≡ false = ground arith in
    let rest : any sep cs ≡ false = ground arith in rw (split_one sep cs rest, here) refl

-- A separator splits what stands before it from what stands after it.
split-append :
    (sep : ℕ → Bool) (s : Text) (c : ℕ) (t : Text)
    → sep c ≡ true
    → split_on sep (s ++ c ∷ t) ≡ split_on sep s ++ split_on sep t
unfolding split_on
split-append sep [] c t h = let rest = split-cons sep t in rw (rest.2, h) refl
split-append sep (d ∷ s) c t h =
    let rest = split-cons sep s in
    elim (Bool-cases (sep d)) [
      | inl here ↦ rw (split-append sep s c t h, rest.2, here) refl
      | inr past ↦ rw (split-append sep s c t h, rest.2, past) refl
    ]

pieces-append :
    (ps qs : List Text)
    → pieces_components (ps ++ qs) ≡ pieces_components ps ++ pieces_components qs
unfolding pieces_components
pieces-append [] qs = refl
pieces-append (p ∷ ps) qs =
    ap (λ r. piece_components p ++ r) (pieces-append ps qs)
    ∙ sym (append_assoc (piece_components p) (pieces_components ps) (pieces_components qs))

-- The pieces after the first two do not tell whether a path begins at the root.
front_snoc :
    (p : Text) (ps : List Text) (y z : Text)
    → front ((p ∷ ps) ++ y ∷ []) ≡ front ((p ∷ ps) ++ z ∷ [])
front_snoc [] [] y z = refl
front_snoc [] (q ∷ ps) y z = refl
front_snoc (c ∷ p) ps y z = refl

-- A path that is not empty begins as it did, with one piece more.
front-split :
    (c : ℕ) (cs y : Text)
    → front (split_on is_slash (c ∷ cs) ++ y ∷ []) ≡ front (split_on is_slash (c ∷ cs))
unfolding split_on
front-split c cs y =
    let rest = split-cons is_slash cs in
    elim (Bool-cases (is_slash c)) [
      | inl here ↦ rw (rest.2, here) refl
      | inr past ↦ rw (rest.2, past) refl
    ]

-- A text that ends in a slash.
slash_end : (t : Text) → ends_in_slash t ≡ true → (s : Text) × (t ≡ s ++ slash ∷ [])
slash_end [] h = absurd (cc h)
slash_end (c ∷ []) h = ([], ap (λ d. d ∷ []) (ground (arith, nat_eq.beq_iff c slash)))
slash_end (c ∷ d ∷ t) h = let rest = slash_end (d ∷ t) h in (c ∷ rest.0, ap (λ r. c ∷ r) rest.1)

-- A name is one component of a path.
abbrev IsName : Text → Type 0
IsName f = (any is_slash f ≡ false) × (piece_components f ≡ normal f ∷ [])

module _ (f : Text) (name : IsName f) where
  last_piece :
      (ps : List Text) → pieces_components (ps ++ f ∷ []) ≡ pieces_components ps ++ normal f ∷ []
  unfolding pieces_components
  last_piece ps = pieces-append ps (f ∷ []) ∙ ap (λ r. pieces_components ps ++ r) (rw name.1 refl)

  -- Behind a slash that is added.
  behind_slash :
      (c : ℕ) (cs : Text)
      → components ((c ∷ cs) ++ slash ∷ f) ≡ components (c ∷ cs) ++ normal f ∷ []
  unfolding components
  behind_slash c cs =
      let base = split_on is_slash (c ∷ cs) in
      let pieces : split_on is_slash ((c ∷ cs) ++ slash ∷ f) ≡ base ++ f ∷ [] =
        split-append is_slash (c ∷ cs) slash f refl
        ∙ ap (λ r. base ++ r) (split_one is_slash f name.0) in
      ap (λ ps. front ps ++ pieces_components ps) pieces
      ∙ ap (λ r. r ++ pieces_components (base ++ f ∷ [])) (front-split c cs f)
      ∙ ap (λ r. front base ++ r) (last_piece base)
      ∙ sym (append_assoc (front base) (pieces_components base) (normal f ∷ []))

  -- Behind a slash that is there.
  at_slash :
      (s : Text)
      → components ((s ++ slash ∷ []) ++ f) ≡ components (s ++ slash ∷ []) ++ normal f ∷ []
  unfolding components
  at_slash s =
      let some_piece = split-cons is_slash s in
      let base = some_piece.0 ∷ some_piece.1 in
      let with_name : split_on is_slash ((s ++ slash ∷ []) ++ f) ≡ base ++ f ∷ [] =
        ap (split_on is_slash) (append_assoc s (slash ∷ []) f)
        ∙ split-append is_slash s slash f refl
        ∙ ap (λ r. split_on is_slash s ++ r) (split_one is_slash f name.0)
        ∙ ap (λ r. r ++ f ∷ []) some_piece.2 in
      let without : split_on is_slash (s ++ slash ∷ []) ≡ base ++ [] ∷ [] =
        split-append is_slash s slash [] refl
        ∙ ap (λ r. split_on is_slash s ++ r) (split_one is_slash [] refl)
        ∙ ap (λ r. r ++ [] ∷ []) some_piece.2 in
      let no_more : pieces_components (base ++ [] ∷ []) ≡ pieces_components base =
        pieces-append base ([] ∷ []) ∙ append-nil (pieces_components base) in
      ap (λ ps. front ps ++ pieces_components ps) with_name
      ∙ ap (λ r. front (base ++ f ∷ []) ++ r) (last_piece base)
      ∙ ap (λ r. r ++ (pieces_components base ++ normal f ∷ []))
          (front_snoc some_piece.0 some_piece.1 f [])
      ∙ sym (append_assoc (front (base ++ [] ∷ [])) (pieces_components base) (normal f ∷ []))
      ∙ ap (λ r. (front (base ++ [] ∷ []) ++ r) ++ normal f ∷ []) (sym no_more)
      ∙ ap (λ ps. (front ps ++ pieces_components ps) ++ normal f ∷ []) (sym without)

front_name : (f : Text) → piece_components f ≡ normal f ∷ [] → front (f ∷ []) ≡ []
front_name [] h = refl
front_name (c ∷ cs) h = elim (Bool-cases (c ∷ cs == codes ".")) [
  | inl dot ↦ absurd (cc (rw dot at h))
  | inr other ↦ rw other refl
]

-- Alone.
alone : (f : Text) → IsName f → components f ≡ normal f ∷ []
unfolding components pieces_components
alone f (whole, name) = rw (split_one is_slash f whole, front_name f name, name) refl

-- A name that is joined to a directory is one more component.
pub components-join :
    (dir f : Text) → IsName f → components (join dir f) ≡ components dir ++ normal f ∷ []
unfolding join components
components-join dir [] (whole, name) = absurd (cc name)
components-join [] (c ∷ cs) (whole, name) =
    let start : is_slash c ≡ false = ground arith in rw start (alone (c ∷ cs) (whole, name))
components-join (d ∷ ds) (c ∷ cs) (whole, name) =
    let start : is_slash c ≡ false = ground arith in
    elim (Bool-cases (ends_in_slash (d ∷ ds))) [
      | inl there ↦
          let cut = slash_end (d ∷ ds) there in
          rw (start, there)
            (subst (λ t. components (t ++ c ∷ cs) ≡ components t ++ normal (c ∷ cs) ∷ [])
              (sym cut.1) (at_slash (c ∷ cs) (whole, name) cut.0))
      | inr absent ↦ rw (start, absent) (behind_slash (c ∷ cs) (whole, name) d ds)
    ]

any-is_slash : (t : Text) → any is_slash t ≡ has_char t slash
any-is_slash [] = refl
any-is_slash (c ∷ cs) =
    ground (arith, any-is_slash cs, nat_eq.beq_iff c slash, nat_eq.beq_iff slash c)

-- The name of a script is longer than a short text.
script_name_ne : (id t : Text) → length t < 8 → (script_name id == t) ≡ false
script_name_ne id t short = beq_ne (script_name id) t λ e.
    let same : length (script_name id) ≡ length t = ap length e in
    omega (arith, same, length-append id script_suffix, short)

no_slash : (id : Text) → is_unsafe_id id ≡ false → has_char id slash ≡ false
unfolding is_unsafe_id
no_slash id h = ground (arith, h)

-- The file of an id that is not refused has a name.
pub script_name-IsName : (id : Text) → is_unsafe_id id ≡ false → IsName (script_name id)
script_name-IsName id h = (
  any-append is_slash id script_suffix ∙ rw (any-is_slash id, no_slash id h) refl,
  rw
      (
        script_name_ne id [] (omega arith),
        script_name_ne id (codes ".") (omega arith),
        script_name_ne id (codes "..") (omega arith),
      )
      refl,
)

-- It stands directly in the directory that it is joined to.
pub script_path-components :
    (dir id : Text)
    → is_unsafe_id id ≡ false
    → components (join dir (script_name id)) ≡ components dir ++ normal (script_name id) ∷ []
script_path-components dir id h = components-join dir (script_name id) (script_name-IsName id h)
