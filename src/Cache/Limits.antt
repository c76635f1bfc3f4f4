-- ===== src/Cache/Limits.antt =====
-- The loops of `collect_evictions_locked` of rust/dion_extension/src/cache.rs: what they remove, and
-- the limits that they reach.
use dion_runtime.Base.{
  ℕ, zero, suc, ◌+◌, ◌-◌, ◌%◌, ◌≤◌, ◌<◌, ◌≡◌, refl, some, List, [], ◌∷◌, ◌++◌, arith, String, Text,
  ◌==◌, string_eq, Option-cases, Bool-cases, inl, inr, ltb, leb, length, beq_refl, max, ◌⊎◌,
}
use dion_runtime.Base.Maps.{
  lookup, remove, IsDistinct, remove-IsDistinct, length-remove-lt, length-remove-le,
}
use dion_runtime.Cache.Types.{CacheEntryMeta, Index, u64_mod}
use dion_runtime.Cache.Candidates.{Covers, IsSorted, least_of_Covers, total_size-remove}
use dion_runtime.Cache.Evict.{
  Candidate, push_removed, others, oldest, evict_entries, evict_bytes, total_size,
}
use dion_runtime.Cache.Shrinks.{
  Shrinks, Shrinks-refl, Shrinks-trans, Shrinks-remove, Shrinks-oldest, oldest-none,
}

-- With nothing but `keep` in it an index has one entry at most.
pub length_of_alone :
    (keep : String) (ix : Index) → IsDistinct ix → others keep ix ≡ [] → length ix ≤ 1
unfolding lookup
length_of_alone keep [] d h = omega arith
length_of_alone keep (e ∷ []) d h = omega arith
length_of_alone keep (e ∷ f ∷ ix) d h =
    ground
      (arith, d, string_eq.beq_iff e.0 keep, string_eq.beq_iff f.0 keep, string_eq.beq_iff f.0 e.0)

-- What the first loop leaves.
pub record EntriesLimited (max_entries : ℕ) (keep : String) (ix ix' : Index) : Type 0 where
  pub shrinks : Shrinks keep ix ix'
  pub distinct : IsDistinct ix'
  pub bound : length ix' ≤ max max_entries 1
  pub lighter : total_size ix' ≤ total_size ix

pub evict_entries-EntriesLimited :
    (fuel max_entries : ℕ) (keep : String) (ix : Index) (evicted : List (String × Text))
    → IsDistinct ix
    → length ix ≤ fuel
    → EntriesLimited max_entries keep ix (evict_entries fuel max_entries keep ix evicted).0
unfolding evict_entries
evict_entries-EntriesLimited zero max_entries keep ix evicted d enough = record {
  shrinks = Shrinks-refl keep ix;
  distinct = d;
  bound = omega arith;
  lighter = omega arith;
}
evict_entries-EntriesLimited (suc fuel) max_entries keep ix evicted d enough =
    elim (Bool-cases (ltb max_entries (length ix))) [
      | inl over ↦ elim (Option-cases (oldest (others keep ix))) [
        | inl alone ↦
            rw (over, evict_entries, alone)
              (record {
                shrinks = Shrinks-refl keep ix;
                distinct = d;
                bound = omega (arith, length_of_alone keep ix d (oldest-none _ alone));
                lighter = omega arith;
              })
        | inr (e, found) ↦
            let (at, step) = Shrinks-oldest keep ix e d found in
            let less = length-remove-lt e.0 e.1 ix at in
            let rest =
              evict_entries-EntriesLimited fuel max_entries keep (remove e.0 ix)
                (evicted ++ (e.0, e.1.hash) ∷ []) (remove-IsDistinct e.0 ix d) (omega arith) in
            rw (over, evict_entries, found)
              (record {
                shrinks = Shrinks-trans step rest.shrinks;
                distinct = rest.distinct;
                bound = rest.bound;
                lighter = omega (arith, total_size-remove e.0 e.1 ix d at, rest.lighter);
              })
      ]
      | inr under ↦
          rw (under, evict_entries)
            (record {
              shrinks = Shrinks-refl keep ix;
              distinct = d;
              bound = ground arith;
              lighter = omega arith;
            })
    ]

others_of_Covers :
    (keep : String) (ix : Index)
    → ((r : String) (m : CacheEntryMeta) → lookup r ix ≡ some m → r ≡ keep)
    → others keep ix ≡ []
unfolding lookup
others_of_Covers keep [] h = refl
others_of_Covers keep (e ∷ ix) h =
    let first : e.0 ≡ keep = h e.0 e.1 (rw (beq_refl e.0)) in
    let later : others keep ix ≡ [] = others_of_Covers keep ix (λ r m p.
      elim (Bool-cases (e.0 == r)) [
        | inl same ↦ ground (arith, string_eq.beq_iff e.0 r)
        | inr differ ↦ h r m (rw differ p)
      ]) in
    ground (arith, string_eq.beq_iff e.0 keep)

-- What the second loop leaves: within the limit, or `keep` alone, if `total` is the true total.
pub record BytesLimited (max_bytes total : ℕ) (keep : String) (ix ix' : Index) : Type 0 where
  pub shrinks : Shrinks keep ix ix'
  pub distinct : IsDistinct ix'
  pub fewer : length ix' ≤ length ix
  pub bound :
      total_size ix < u64_mod
      → total ≡ total_size ix
      → (total_size ix' ≤ max_bytes) ⊎ (others keep ix' ≡ [])

Shrinks-candidate :
    (keep : String) (c : Candidate) (order : List Candidate) (ix : Index)
    → Covers keep (c ∷ order) ix
    → IsSorted (c ∷ order)
    → Shrinks keep ix (remove c.key ix)
Shrinks-candidate keep c order ix (other, here, rest) (first, sorted) =
    Shrinks-remove keep c.key here.meta ix other here.found λ r mr r_other p. omega (
      arith,
      here.same_access,
      least_of_Covers keep c.access (c ∷ order) ix (other, here, rest) (omega arith, first) r mr
          r_other p,
    )

pub evict_bytes-BytesLimited :
    (max_bytes total : ℕ) (keep : String) (order : List Candidate) (ix : Index)
    (evicted : List (String × Text))
    → Covers keep order ix
    → IsSorted order
    → IsDistinct ix
    → BytesLimited max_bytes total keep ix (evict_bytes max_bytes total order ix evicted).0
unfolding evict_bytes
evict_bytes-BytesLimited max_bytes total keep [] ix evicted cover sorted d = record {
  shrinks = Shrinks-refl keep ix;
  distinct = d;
  fewer = omega arith;
  bound = λ small e. inr (others_of_Covers keep ix cover);
}
evict_bytes-BytesLimited max_bytes total keep (c ∷ order) ix evicted cover sorted d =
    elim (Bool-cases (leb total max_bytes)) [
      | inl within ↦
          rw (within, evict_bytes)
            (record {
              shrinks = Shrinks-refl keep ix;
              distinct = d;
              fewer = omega arith;
              bound = λ small e. inl (ground arith);
            })
      | inr over ↦
          let here = cover.1 in
          let less = total_size-remove c.key here.meta ix d here.found in
          let total' = (total + u64_mod - c.size) % u64_mod in
          let rest =
            evict_bytes-BytesLimited max_bytes total' keep order (remove c.key ix)
              (push_removed c.key (lookup c.key ix) evicted) cover.2 sorted.1
              (remove-IsDistinct c.key ix d) in
          rw (over, evict_bytes)
            (record {
              shrinks = Shrinks-trans (Shrinks-candidate keep c order ix cover sorted) rest.shrinks;
              distinct = rest.distinct;
              fewer = omega (arith, length-remove-le c.key ix, rest.fewer);
              bound =
                  λ small e. rest.bound (omega (arith, less)) (omega (arith, less, here.same_size));
            })
    ]
