-- ===== src/Filesystem/Clean.antt =====
-- What the loop of `normalize_path` in rust/dion_extension/src/filesystem.rs leaves of a path.
use dion_runtime.Base.{
  ℕ, zero, suc, ◌<◌, ◌≤◌, ◌≡◌, ◌≢◌, refl, sym, subst, ◌∙◌, Bool, true, false, not, ◌&&◌, ◌||◌, none,
  some, List, [], ◌∷◌, arith, Text, ◌==◌, nat_eq, list_eq, list_beq_iff, all, length, Bool-cases,
  Option-cases, inl, inr,
}
use dion_runtime.Filesystem.Normalize.{
  is_sep, dot, dot_dot, skip_seps, span_piece, take_component, parent_of, push_component, walk,
}

abbrev pub is_name_char : ℕ → Bool
is_name_char c = not (is_sep c)

-- The components of a path, the last one first, have no separator and are neither empty nor `.`;
-- one that is `..` stands in a relative path, and only others like it before it.
unfoldable pub is_clean : Bool → List Text → Bool
is_clean absolute [] = true
is_clean absolute (p ∷ ps) =
    not (p == [])
    && not (p == dot)
    && all is_name_char p
    && (not (p == dot_dot) || (not absolute && all (λ q. q == dot_dot) ps))
    && is_clean absolute ps

span_piece-name : (t : Text) → all is_name_char (span_piece t).0 ≡ true
unfolding span_piece
span_piece-name [] = refl
span_piece-name (c ∷ cs) = ground (arith, span_piece-name cs)

span_piece-le : (t : Text) → length (span_piece t).1 ≤ length t
unfolding span_piece
span_piece-le [] = omega arith
span_piece-le (c ∷ cs) = ground (arith, span_piece-le cs)

span_piece-lt : (t : Text) → (span_piece t).0 ≢ [] → length (span_piece t).1 < length t
unfolding span_piece
span_piece-lt [] n = absurd (n refl)
span_piece-lt (c ∷ cs) n = ground (arith, span_piece-le cs)

skip_seps-le : (t : Text) → length (skip_seps t) ≤ length t
unfolding skip_seps
skip_seps-le [] = omega arith
skip_seps-le (c ∷ cs) = ground (arith, skip_seps-le cs)

-- A component is a name that is not empty, and what follows it is shorter.
record Takes (chars : Text) (found : Text × Text) : Type 0 where
  pub filled : found.0 ≢ []
  pub name : all is_name_char found.0 ≡ true
  pub shorter : length found.1 < length chars

take_component-Takes :
    (chars : Text) (found : Text × Text) → take_component chars ≡ some found → Takes chars found
unfolding take_component
take_component-Takes chars found h =
    let t = skip_seps chars in
    elim (Bool-cases ((span_piece t).0 == [])) [
      | inl blank ↦ let nothing = rw (blank, take_component) at h in absurd (cc nothing)
      | inr some_piece ↦
          let n : (span_piece t).0 ≢ [] = ground (arith, list_beq_iff (span_piece t).0 []) in
          let same : span_piece t ≡ found = cc (rw (some_piece, take_component) at h) in
          subst (Takes chars) same (record {
            filled = n;
            name = span_piece-name t;
            shorter = omega (arith, span_piece-lt t n, skip_seps-le chars);
          })
    ]

parent_of-clean :
    (absolute : Bool) (stack : List Text)
    → is_clean absolute stack ≡ true
    → is_clean absolute (parent_of absolute stack) ≡ true
unfolding is_clean
parent_of-clean true [] k = refl
parent_of-clean false [] k = refl
parent_of-clean true (last ∷ stack) k = elim (Bool-cases (last == dot_dot)) [
  | inl up ↦ rw up k
  | inr name ↦ rw name (ground arith)
]
parent_of-clean false (last ∷ stack) k = elim (Bool-cases (last == dot_dot)) [
  | inl up ↦ rw up (ground arith)
  | inr name ↦ rw name (ground arith)
]

push_component-clean :
    (absolute : Bool) (stack : List Text) (p : Text)
    → p ≢ []
    → all is_name_char p ≡ true
    → is_clean absolute stack ≡ true
    → is_clean absolute (push_component absolute stack p) ≡ true
unfolding is_clean
push_component-clean absolute stack p n h k = elim (Bool-cases (p == dot)) [
  | inl here ↦ rw here k
  | inr moves ↦ elim (Bool-cases (p == dot_dot)) [
    | inl up ↦ rw (moves, up) (parent_of-clean absolute stack k)
    | inr name ↦
        let full : (p == []) ≡ false = ground (arith, list_beq_iff p []) in
        rw (moves, name) (ground arith)
  ]
]

-- Started from clean components, the loop leaves clean components: none is empty, is `.` or has a
-- separator; there is no `..` in an absolute path, and in a relative one `..` stands only at
-- its front.
pub walk-clean :
    (fuel : ℕ) (absolute : Bool) (chars : Text) (stack : List Text)
    → is_clean absolute stack ≡ true
    → is_clean absolute (walk fuel absolute chars stack) ≡ true
unfolding walk
walk-clean zero absolute chars stack h = h
walk-clean (suc fuel) absolute chars stack h = elim (Option-cases (take_component chars)) [
  | inl e ↦ rw (e, walk) h
  | inr (found, e) ↦
      let t = take_component-Takes chars found e in
      rw (e, walk)
        (walk-clean fuel absolute found.1 (push_component absolute stack found.0)
          (push_component-clean absolute stack found.0 t.filled t.name h))
]

no_component : (chars : Text) → length chars ≤ 0 → take_component chars ≡ none
unfolding take_component skip_seps span_piece
no_component [] h = refl
no_component (c ∷ cs) h = absurd (omega arith)

walk_done :
    (fuel : ℕ) (absolute : Bool) (chars : Text) (stack : List Text)
    → take_component chars ≡ none
    → walk fuel absolute chars stack ≡ stack
unfolding walk
walk_done zero absolute chars stack e = refl
walk_done (suc fuel) absolute chars stack e = rw (e, walk) refl

walk_step :
    (fuel : ℕ) (absolute : Bool) (chars : Text) (stack : List Text) (found : Text × Text)
    → take_component chars ≡ some found
    → walk (suc fuel) absolute chars stack
      ≡ walk fuel absolute found.1 (push_component absolute stack found.0)
unfolding walk
walk_step fuel absolute chars stack found e = rw (e, walk) refl

-- The number of the characters is fuel enough for the loop: with any two amounts that are no less,
-- it leaves the same.
pub walk_enough :
    (f g : ℕ) (absolute : Bool) (chars : Text) (stack : List Text)
    → length chars ≤ f
    → length chars ≤ g
    → walk f absolute chars stack ≡ walk g absolute chars stack
unfolding walk
walk_enough zero g absolute chars stack h k =
    sym (walk_done g absolute chars stack (no_component chars h))
walk_enough (suc f) zero absolute chars stack h k =
    walk_done (suc f) absolute chars stack (no_component chars k)
walk_enough (suc f) (suc g) absolute chars stack h k = elim (Option-cases (take_component chars)) [
  | inl e ↦
      walk_done (suc f) absolute chars stack e ∙ sym (walk_done (suc g) absolute chars stack e)
  | inr (found, e) ↦
      let t = take_component-Takes chars found e in
      walk_step f absolute chars stack found e
      ∙ walk_enough f g absolute found.1 (push_component absolute stack found.0)
          (omega (arith, t.shorter)) (omega (arith, t.shorter))
      ∙ sym (walk_step g absolute chars stack found e)
]
