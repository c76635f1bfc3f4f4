-- ===== src/Cache/Candidates.antt =====
-- The sorted candidates of the byte limit in rust/dion_extension/src/cache.rs: they are the entries
-- of the index but `keep`, each once, least recently used first.
use dion_runtime.Base.{
  ℕ, ◌+◌, ◌≤◌, ◌≡◌, ◌≢◌, refl, sym, false, some, List, [], ◌∷◌, arith, String, ◌==◌, string_eq,
  beq_refl, beq_ne, subst, leb, ◌∙◌, map, All, Bool-cases, inl, inr,
}
use dion_runtime.Base.Maps.{
  lookup, remove, remove_comm, remove_absent, IsDistinct, lookup-remove, lookup-remove_ne,
}
use dion_runtime.Cache.Types.{CacheEntryMeta, Index}
use dion_runtime.Cache.Evict.{
  others, Candidate, candidate, insert_candidate, sort_by_access, total_size,
}

-- The entry of the index that a candidate stands for.
pub record Stands (c : Candidate) (ix : Index) : Type 0 where
  pub meta : CacheEntryMeta
  pub found : lookup c.key ix ≡ some meta
  pub same_size : meta.size ≡ c.size
  pub same_access : meta.last_access ≡ c.access

-- The candidates are the entries of the index but `keep`, each once.
abbrev pub Covers : String → List Candidate → Index → Type 0
Covers keep [] ix = (r : String) (m : CacheEntryMeta) → lookup r ix ≡ some m → r ≡ keep
Covers keep (c ∷ cs) ix = (c.key ≢ keep) × Stands c ix × Covers keep cs (remove c.key ix)

abbrev pub IsSorted : List Candidate → Type 0
IsSorted [] = Unit
IsSorted (c ∷ cs) = All (λ d. c.access ≤ d.access) cs × IsSorted cs

Stands-remove :
    (k : String) (c : Candidate) (ix : Index) → k ≢ c.key → Stands c ix → Stands c (remove k ix)
Stands-remove k c ix h s = record {
  meta = s.meta;
  found = lookup-remove_ne k c.key ix h ∙ s.found;
  same_size = s.same_size;
  same_access = s.same_access;
}

Stands-remove_back :
    (k : String) (c : Candidate) (ix : Index) → Stands c (remove k ix) → Stands c ix
Stands-remove_back k c ix s =
    let m = s.meta in
    let found : lookup c.key ix ≡ some m = ground (arith, s.found, lookup-remove k c.key ix) in
    record { meta = m; found = found; same_size = s.same_size; same_access = s.same_access }

ne_of_Stands : (k : String) (c : Candidate) (ix : Index) → Stands c (remove k ix) → c.key ≢ k
ne_of_Stands k c ix s =
    λ p. ground (arith, s.found, lookup-remove k c.key ix, string_eq.beq_iff k c.key)

Covers-insert_candidate :
    (keep : String) (c : Candidate) (cs : List Candidate) (ix : Index)
    → Covers keep (c ∷ cs) ix
    → Covers keep (insert_candidate c cs) ix
unfolding insert_candidate
Covers-insert_candidate keep c [] ix h = h
Covers-insert_candidate keep c (d ∷ ds) ix (c_other, c_in, (d_other, d_in, rest)) =
    elim (Bool-cases (leb c.access d.access)) [
      | inl before ↦ rw before (c_other, c_in, (d_other, d_in, rest))
      | inr after ↦
          let apart = ne_of_Stands c.key d ix d_in in
          let moved : Covers keep ds (remove c.key (remove d.key ix)) =
            rw (remove_comm c.key d.key ix) rest in
          rw after (
            d_other,
            Stands-remove_back c.key d ix d_in,
            Covers-insert_candidate keep c ds (remove d.key ix)
                (c_other, Stands-remove d.key c ix apart c_in, moved),
          )
    ]

Covers-sort :
    (keep : String) (cs : List Candidate) (ix : Index)
    → Covers keep cs ix
    → Covers keep (sort_by_access cs) ix
unfolding sort_by_access
Covers-sort keep [] ix h = h
Covers-sort keep (c ∷ cs) ix (other, here, rest) =
    Covers-insert_candidate keep c (sort_by_access cs) ix
      (other, here, Covers-sort keep cs (remove c.key ix) rest)

-- An entry of `keep` in front changes nothing.
Covers-keep :
    (keep : String) (m : CacheEntryMeta) (cs : List Candidate) (ix : Index)
    → Covers keep cs ix
    → Covers keep cs ((keep, m) ∷ ix)
unfolding lookup remove
Covers-keep keep m [] ix h = λ r n p. ground (arith, h r n, string_eq.beq_iff keep r)
Covers-keep keep m (c ∷ cs) ix (other, here, rest) =
    let apart : (keep == c.key) ≡ false = beq_ne keep c.key (λ p. other (sym p)) in
    (
      other,
      record {
        meta = here.meta;
        found = rw apart here.found;
        same_size = here.same_size;
        same_access = here.same_access;
      },
      rw apart (Covers-keep keep m cs (remove c.key ix) rest),
    )

Covers-others :
    (keep : String) (ix : Index) → IsDistinct ix → Covers keep (map candidate (others keep ix)) ix
unfolding lookup remove
Covers-others keep [] d = λ r m p. absurd (cc p)
Covers-others keep ((k, m) ∷ ix) (new, d) =
    let rest = Covers-others keep ix d in
    elim (Bool-cases (k == keep)) [
      | inl e ↦
          let same = (string_eq.beq_iff k keep).0 e in
          rw e (
            subst (λ j. Covers keep (map candidate (others keep ix)) ((j, m) ∷ ix)) (sym same)
              (Covers-keep keep m (map candidate (others keep ix)) ix rest))
      | inr ne ↦
          let here : Stands (candidate (k, m)) ((k, m) ∷ ix) = record {
            meta = m;
            found = rw (beq_refl k);
            same_size = refl;
            same_access = refl;
          } in
          rw ne (
            λ p. ground (arith, string_eq.beq_iff k keep),
            here,
            rw (beq_refl k, remove_absent k ix new) rest,
          )
    ]

-- The candidates of an eviction.
pub Covers-candidates :
    (keep : String) (ix : Index)
    → IsDistinct ix
    → Covers keep (sort_by_access (map candidate (others keep ix))) ix
Covers-candidates keep ix d = Covers-sort keep _ ix (Covers-others keep ix d)

All-insert_candidate :
    (a : ℕ) (c : Candidate) (cs : List Candidate)
    → a ≤ c.access
    → All (λ d. a ≤ d.access) cs
    → All (λ d. a ≤ d.access) (insert_candidate c cs)
unfolding insert_candidate
All-insert_candidate a c [] h hs = (h, tt)
All-insert_candidate a c (d ∷ ds) h hs = ground (arith, All-insert_candidate a c ds h hs.1)

All-trans :
    (a b : ℕ) (cs : List Candidate)
    → a ≤ b
    → All (λ d. b ≤ d.access) cs
    → All (λ d. a ≤ d.access) cs
All-trans a b [] h hs = tt
All-trans a b (c ∷ cs) h (x, hs) = (omega arith, All-trans a b cs h hs)

insert_candidate-IsSorted :
    (c : Candidate) (cs : List Candidate) → IsSorted cs → IsSorted (insert_candidate c cs)
unfolding insert_candidate
insert_candidate-IsSorted c [] h = (tt, tt)
insert_candidate-IsSorted c (d ∷ ds) (first, rest) = elim (Bool-cases (leb c.access d.access)) [
  | inl before ↦
      rw before ((ground arith, All-trans c.access d.access ds (ground arith) first), (first, rest))
  | inr after ↦
      rw after (
        All-insert_candidate d.access c ds (ground arith) first,
        insert_candidate-IsSorted c ds rest,
      )
]

pub sort_by_access-IsSorted : (cs : List Candidate) → IsSorted (sort_by_access cs)
unfolding sort_by_access
sort_by_access-IsSorted [] = tt
sort_by_access-IsSorted (c ∷ cs) =
    insert_candidate-IsSorted c (sort_by_access cs) (sort_by_access-IsSorted cs)

-- An access time below those of all candidates is below that of every entry but `keep`.
pub least_of_Covers :
    (keep : String) (a : ℕ) (cs : List Candidate) (ix : Index)
    → Covers keep cs ix
    → All (λ d. a ≤ d.access) cs
    → (r : String) (mr : CacheEntryMeta) → r ≢ keep
    → lookup r ix ≡ some mr
    → a ≤ mr.last_access
least_of_Covers keep a [] ix h hs r mr other p = absurd (other (h r mr p))
least_of_Covers keep a (c ∷ cs) ix (c_other, here, rest) (x, hs) r mr other p =
    elim (Bool-cases (c.key == r)) [
      | inl e ↦ ground (arith, string_eq.beq_iff c.key r, here.found)
      | inr ne ↦
          least_of_Covers keep a cs (remove c.key ix) rest hs r mr other
            (ground (arith, lookup-remove c.key r ix))
    ]

pub total_size-remove :
    (k : String) (m : CacheEntryMeta) (ix : Index)
    → IsDistinct ix
    → lookup k ix ≡ some m
    → total_size (remove k ix) + m.size ≡ total_size ix
unfolding total_size lookup remove
total_size-remove k m [] d h = absurd (cc h)
total_size-remove k m (e ∷ ix) d h =
    ground (arith, string_eq.beq_iff e.0 k, remove_absent k ix, total_size-remove k m ix d.1)
