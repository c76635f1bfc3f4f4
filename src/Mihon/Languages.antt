-- ===== src/Mihon/Languages.antt =====
-- The language of an extension in rust/mihon/src/repo.rs: the set that the code builds, compared
-- with its meaning.
use dion_runtime.Base.{
  ◌≡◌, refl, sym, ap, ◌∙◌, arith, true, false, inl, inr, Bool-cases, List, [], ◌∷◌, map, Text,
  codes, all, contains, if◌then◌else◌, ◌==◌, ◌⊎◌, list_eq, nat_eq, list_beq_iff, beq_refl, ◌||◌,
}
use dion_runtime.Base.Prefix.{all_of_contains, contains_eq}
use dion_runtime.Mihon.Types.{Floats, Source, StoreExtension}
use dion_runtime.Mihon.Mapping.{distinct, single_or_all, repo_extension_from_store}

-- The language that all have, or "all" where there is none or two differ.
abbrev pub common_language : List Text → Text
common_language [] = codes "all"
common_language (l ∷ ls) = if all (λ m. m == l) ls then l else codes "all"

contains-distinct : (t : Text) (ts : List Text) → contains (distinct ts) t ≡ contains ts t
unfolding distinct
contains-distinct t [] = refl
contains-distinct t (u ∷ ts) = elim (Bool-cases (contains (distinct ts) u)) [
  | inr new ↦ rw new (ap (λ b. t == u || b) (contains-distinct t ts))
  | inl old ↦ rw old (elim (Bool-cases (t == u)) [
    | inr apart ↦ rw apart (contains-distinct t ts)
    | inl same ↦ rw same (contains_eq (distinct ts) t u same ∙ old)
  ])
]

distinct_of_same :
    (l : Text) (ts : List Text)
    → all (λ m. m == l) ts ≡ true
    → ((ts ≡ []) × (distinct ts ≡ [])) ⊎ (distinct ts ≡ l ∷ [])
unfolding distinct
distinct_of_same l [] h = inl (refl, refl)
distinct_of_same l (t ∷ ts) h =
    let first : t ≡ l = ground (arith, list_beq_iff t l) in
    inr (elim (distinct_of_same l ts (ground arith)) [
      | inl (e, n) ↦ rw n (ap (λ x. x ∷ []) first)
      | inr n ↦ rw (n, (list_beq_iff t l).1 first) refl
    ])

-- What the set has alone, all have.
single_of_distinct :
    (x l : Text) (ls : List Text) → distinct (l ∷ ls) ≡ x ∷ [] → all (λ m. m == l) ls ≡ true
single_of_distinct x l ls h =
    let only : (m : Text) → contains (l ∷ ls) m ≡ true → m ≡ x = λ m k.
      let there : contains (x ∷ []) m ≡ true =
        ap (λ s. contains s m) (sym h) ∙ contains-distinct m (l ∷ ls) ∙ k in
      ground (arith, there, list_beq_iff m x) in
    let head : l ≡ x = only l (ground (arith, beq_refl l)) in
    all_of_contains (λ m. m == l) ls
      λ m k. (list_beq_iff m l).1 (only m (ground (arith, k)) ∙ sym head)

single_or_all_lem : (ls : List Text) → single_or_all (distinct ls) ≡ common_language ls
unfolding distinct
single_or_all_lem [] = refl
single_or_all_lem (l ∷ ls) = elim (Bool-cases (all (λ m. m == l) ls)) [
  | inl same ↦ elim (distinct_of_same l (l ∷ ls) (ground (arith, same, beq_refl l))) [
    | inl (e, n) ↦ absurd (cc e)
    | inr n ↦ rw same (ap single_or_all n)
  ]
  | inr differ ↦ rw differ (go differ (distinct (l ∷ ls)) refl)
]
  where
    go :
        all (λ m. m == l) ls ≡ false
        → (s : List Text) → distinct (l ∷ ls) ≡ s
        → single_or_all s ≡ codes "all"
    go differ [] e = refl
    go differ (x ∷ []) e = let same = single_of_distinct x l ls e in absurd (cc (sym differ ∙ same))
    go differ (x ∷ y ∷ s) e = refl

-- The language of an extension of a store is the one that all its sources have, and "all" where
-- there is no source or two have different ones.
pub lang_lem :
    (f : Floats) (ext : StoreExtension)
    → (repo_extension_from_store f ext).lang
      ≡ common_language (map (λ (s : Source). s.language) ext.sources)
unfolding repo_extension_from_store
lang_lem f ext = single_or_all_lem (map (λ (s : Source). s.language) ext.sources)
