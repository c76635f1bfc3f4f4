-- ===== src/Cache/Evicts.antt =====
-- `collect_evictions_locked` of rust/dion_extension/src/cache.rs meets the limits of the policy, in
-- the order of recency, and never touches the entry that was just stored.
use dion_runtime.Base.{
  ℕ, ◌≤◌, ◌<◌, ◌%◌, ◌≡◌, Option, none, some, List, [], arith, String, Text, length, max, map, ◌⊎◌,
  inl, inr, ltb, Bool-cases, Option-cases, string_eq,
}
use dion_runtime.Base.Maps.{IsDistinct}
use dion_runtime.Cache.Types.{CachePolicy, Index, u64_mod}
use dion_runtime.Cache.Evict.{
  candidate, others, limit_entries, limit_bytes, collect_evictions, sort_by_access, total_size,
}
use dion_runtime.Cache.Shrinks.{Shrinks, Shrinks-refl, Shrinks-trans}
use dion_runtime.Cache.Candidates.{Covers-candidates, sort_by_access-IsSorted}
use dion_runtime.Cache.Limits.{evict_entries-EntriesLimited, evict_bytes-BytesLimited}

-- The entry limit, if there is one. The entry `keep` is never evicted, so one always fits.
abbrev pub MeetsEntries : Option ℕ → Index → Type 0
MeetsEntries none ix = Unit
MeetsEntries (some max_entries) ix = length ix ≤ max max_entries 1

-- The byte limit, if there is one; where `keep` alone exceeds it, only `keep` is left.
abbrev pub MeetsBytes : Option ℕ → String → Index → Type 0
MeetsBytes none keep ix = Unit
MeetsBytes (some max_bytes) keep ix = (total_size ix ≤ max_bytes) ⊎ (others keep ix ≡ [])

pub record AfterEntries (limit : Option ℕ) (keep : String) (ix ix' : Index) : Type 0 where
  pub shrinks : Shrinks keep ix ix'
  pub distinct : IsDistinct ix'
  pub entries : MeetsEntries limit ix'
  pub lighter : total_size ix' ≤ total_size ix

record AfterBytes (limit : Option ℕ) (keep : String) (ix ix' : Index) : Type 0 where
  shrinks : Shrinks keep ix ix'
  distinct : IsDistinct ix'
  fewer : length ix' ≤ length ix
  bytes : total_size ix < u64_mod → MeetsBytes limit keep ix'

pub limit_entries_lem :
    (policy : CachePolicy) (keep : String) (ix : Index) (evicted : List (String × Text))
    → IsDistinct ix
    → AfterEntries policy.max_entries keep ix (limit_entries policy keep (ix, evicted)).0
unfolding limit_entries
limit_entries_lem policy keep ix evicted d = elim (Option-cases policy.max_entries) [
  | inl e ↦
      rw e (record {
        shrinks = Shrinks-refl keep ix;
        distinct = d;
        entries = tt;
        lighter = omega arith;
      })
  | inr (max_entries, e) ↦
      let r =
        evict_entries-EntriesLimited (length ix) max_entries keep ix evicted d (omega arith) in
      rw e (record {
        shrinks = r.shrinks;
        distinct = r.distinct;
        entries = r.bound;
        lighter = r.lighter;
      })
]

limit_bytes_lem :
    (policy : CachePolicy) (keep : String) (ix : Index) (evicted : List (String × Text))
    → IsDistinct ix
    → AfterBytes policy.max_bytes keep ix (limit_bytes policy keep (ix, evicted)).0
unfolding limit_bytes
limit_bytes_lem policy keep ix evicted d = elim (Option-cases policy.max_bytes) [
  | inl e ↦ rw e (record {
    shrinks = Shrinks-refl keep ix;
    distinct = d;
    fewer = omega arith;
    bytes = λ _. tt;
  })
  | inr (max_bytes, e) ↦ elim (Bool-cases (ltb max_bytes (total_size ix % u64_mod))) [
    | inl over ↦
        let r =
          evict_bytes-BytesLimited max_bytes (total_size ix % u64_mod) keep
            (sort_by_access (map candidate (others keep ix))) ix evicted
            (Covers-candidates keep ix d) (sort_by_access-IsSorted _) d in
        rw (e, over)
          (record {
            shrinks = r.shrinks;
            distinct = r.distinct;
            fewer = r.fewer;
            bytes = λ small. r.bound small (omega arith);
          })
    | inr under ↦
        rw (e, under)
          (record {
            shrinks = Shrinks-refl keep ix;
            distinct = d;
            fewer = omega arith;
            bytes = λ small. inl (ground arith);
          })
  ]
]

MeetsEntries-le :
    (limit : Option ℕ) (ix ix' : Index)
    → MeetsEntries limit ix
    → length ix' ≤ length ix
    → MeetsEntries limit ix'
MeetsEntries-le none ix ix' h le = tt
MeetsEntries-le (some max_entries) ix ix' h le = omega arith

-- What the evictions do to any index with no key twice.
pub record Evicts (policy : CachePolicy) (keep : String) (ix ix' : Index) : Type 0 where
  pub shrinks : Shrinks keep ix ix'
  pub distinct : IsDistinct ix'
  pub entries : MeetsEntries policy.max_entries ix'

-- The same, with the byte limit.
pub record Limits (policy : CachePolicy) (keep : String) (ix ix' : Index) : Type 0 where
  pub evicts : Evicts policy keep ix ix'
  pub bytes : MeetsBytes policy.max_bytes keep ix'

pub collect_evictions-Evicts :
    (policy : CachePolicy) (keep : String) (ix : Index)
    → IsDistinct ix
    → Evicts policy keep ix (collect_evictions policy ix keep).0
unfolding collect_evictions
collect_evictions-Evicts policy keep ix d =
    let (ix1, evicted1) = limit_entries policy keep (ix, []) in
    let a = limit_entries_lem policy keep ix [] d in
    let b = limit_bytes_lem policy keep ix1 evicted1 a.distinct in
    record {
      shrinks = Shrinks-trans a.shrinks b.shrinks;
      distinct = b.distinct;
      entries = MeetsEntries-le policy.max_entries ix1 _ a.entries b.fewer;
    }

-- On an index with no key twice, whose sizes sum to less than 2^64: the evictions leave every limit
-- of the policy met, keep the entry `keep` and all that they do not remove as it was, and remove
-- only entries that were used no later than each other entry that stays.
pub collect_evictions-Limits :
    (policy : CachePolicy) (keep : String) (ix : Index)
    → IsDistinct ix
    → total_size ix < u64_mod
    → Limits policy keep ix (collect_evictions policy ix keep).0
unfolding collect_evictions
collect_evictions-Limits policy keep ix d small =
    let (ix1, evicted1) = limit_entries policy keep (ix, []) in
    let a = limit_entries_lem policy keep ix [] d in
    let b = limit_bytes_lem policy keep ix1 evicted1 a.distinct in
    record {
      evicts = collect_evictions-Evicts policy keep ix d;
      bytes = b.bytes (omega (arith, a.lighter));
    }
