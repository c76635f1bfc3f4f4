-- ===== src/Cache/Evicted.antt =====
-- The entries that `collect_evictions_locked` of rust/dion_extension/src/cache.rs reports as evicted,
-- whose files are deleted: entries of the index, and never the one that was just stored.
use dion_runtime.Base.{
  ℕ, zero, suc, ◌≡◌, ◌≢◌, some, List, [], ◌∷◌, ◌++◌, arith, String, string_eq, Text, All,
  All-append, length, ltb, leb, ◌+◌, ◌-◌, ◌%◌, map, Bool-cases, Option-cases, inl, inr,
}
use dion_runtime.Base.Maps.{lookup, remove, IsDistinct, remove-IsDistinct, lookup-remove}
use dion_runtime.Cache.Types.{CacheEntryMeta, CachePolicy, Index, u64_mod}
use dion_runtime.Cache.Evict.{
  Candidate, candidate, others, oldest, evict_entries, evict_bytes, limit_entries, limit_bytes,
  collect_evictions, sort_by_access, total_size,
}
use dion_runtime.Cache.Shrinks.{Shrinks-oldest, oldest-ne}
use dion_runtime.Cache.Candidates.{Covers, Covers-candidates}
use dion_runtime.Cache.Evicts.{limit_entries_lem}

module _ (P : String → Text → Type 0) (keep : String) where
  -- Every entry of the index but `keep` satisfies `P` with its hash.
  abbrev pub Holds : Index → Type 0
  Holds ix = (q : String) (m : CacheEntryMeta) → q ≢ keep → lookup q ix ≡ some m → P q m.hash

  abbrev pub Each : List (String × Text) → Type 0
  Each = All (λ e. P e.0 e.1)

  Holds-remove : (k : String) (ix : Index) → Holds ix → Holds (remove k ix)
  Holds-remove k ix h q m other p = h q m other (ground (arith, lookup-remove k q ix))

  evict_entries-Each :
      (fuel max_entries : ℕ) (ix : Index) (evicted : List (String × Text))
      → IsDistinct ix
      → Holds ix
      → Each evicted
      → Each (evict_entries fuel max_entries keep ix evicted).1
  unfolding evict_entries
  evict_entries-Each zero max_entries ix evicted d h all = all
  evict_entries-Each (suc fuel) max_entries ix evicted d h all =
      elim (Bool-cases (ltb max_entries (length ix))) [
        | inl over ↦ elim (Option-cases (oldest (others keep ix))) [
          | inl alone ↦ rw (over, evict_entries, alone) all
          | inr (e, found) ↦
              let (at, step) = Shrinks-oldest keep ix e d found in
              let fits = h e.0 e.1 (oldest-ne keep ix e d found) at in
              rw (over, evict_entries, found)
                (evict_entries-Each fuel max_entries (remove e.0 ix)
                  (evicted ++ (e.0, e.1.hash) ∷ []) (remove-IsDistinct e.0 ix d)
                  (Holds-remove e.0 ix h) (All-append _ evicted _ all (fits, tt)))
        ]
        | inr under ↦ rw (under, evict_entries) all
      ]

  evict_bytes-Each :
      (max_bytes total : ℕ) (order : List Candidate) (ix : Index) (evicted : List (String × Text))
      → Covers keep order ix
      → Holds ix
      → Each evicted
      → Each (evict_bytes max_bytes total order ix evicted).1
  unfolding evict_bytes
  evict_bytes-Each max_bytes total [] ix evicted cover h all = all
  evict_bytes-Each max_bytes total (c ∷ order) ix evicted (other, here, rest) h all =
      elim (Bool-cases (leb total max_bytes)) [
        | inl within ↦ rw (within, evict_bytes) all
        | inr over ↦
            let fits = h c.key here.meta other here.found in
            rw (over, evict_bytes, here.found)
              (evict_bytes-Each max_bytes ((total + u64_mod - c.size) % u64_mod) order
                (remove c.key ix) (evicted ++ (c.key, here.meta.hash) ∷ []) rest
                (Holds-remove c.key ix h) (All-append _ evicted _ all (fits, tt)))
      ]

  limit_entries-Each :
      (policy : CachePolicy) (ix : Index)
      → IsDistinct ix
      → Holds ix
      → Each (limit_entries policy keep (ix, [])).1
  unfolding limit_entries
  limit_entries-Each policy ix d h = elim (Option-cases policy.max_entries) [
    | inl e ↦ rw e tt
    | inr (max_entries, e) ↦ rw e (evict_entries-Each (length ix) max_entries ix [] d h tt)
  ]

  limit_bytes-Each :
      (policy : CachePolicy) (ix : Index) (evicted : List (String × Text))
      → IsDistinct ix
      → Holds ix
      → Each evicted
      → Each (limit_bytes policy keep (ix, evicted)).1
  unfolding limit_bytes
  limit_bytes-Each policy ix evicted d h all = elim (Option-cases policy.max_bytes) [
    | inl e ↦ rw e all
    | inr (max_bytes, e) ↦ elim (Bool-cases (ltb max_bytes (total_size ix % u64_mod))) [
      | inl over ↦
          rw (e, over)
            (evict_bytes-Each max_bytes (total_size ix % u64_mod)
              (sort_by_access (map candidate (others keep ix))) ix evicted
              (Covers-candidates keep ix d) h all)
      | inr under ↦ rw (e, under) all
    ]
  ]

  -- Whatever holds of every entry but `keep`, with its hash, holds of every evicted pair.
  pub collect_evictions-Each :
      (policy : CachePolicy) (ix : Index)
      → IsDistinct ix
      → Holds ix
      → Each (collect_evictions policy ix keep).1
  unfolding collect_evictions
  collect_evictions-Each policy ix d h =
      let a = limit_entries_lem policy keep ix [] d in
      limit_bytes-Each policy (limit_entries policy keep (ix, [])).0 _ a.distinct
        (λ q m other p. h q m other (a.shrinks.same q m p)) (limit_entries-Each policy ix d h)
