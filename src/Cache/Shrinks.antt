-- ===== src/Cache/Shrinks.antt =====
-- What an eviction of rust/dion_extension/src/cache.rs may do to an index, one removal at a time.
use dion_runtime.Base.{
  ◌≤◌, ◌≡◌, ◌≢◌, refl, sym, none, some, [], ◌∷◌, arith, String, ◌==◌, string_eq, Option-cases, inl,
  inr, if◌then◌else◌, ◌∙◌,
}
use dion_runtime.Base.Maps.{lookup, remove, IsDistinct, lookup-remove, lookup-remove_ne}
use dion_runtime.Cache.Types.{CacheEntryMeta, Index}
use dion_runtime.Cache.Evict.{others, oldest}

-- From `ix` to `ix'` entries other than `keep` were removed, nothing was changed, and what is gone
-- was used no later than any entry that stays, `keep` aside.
pub record Shrinks (keep : String) (ix ix' : Index) : Type 0 where
  pub kept : lookup keep ix' ≡ lookup keep ix
  pub same : (q : String) (m : CacheEntryMeta) → lookup q ix' ≡ some m → lookup q ix ≡ some m
  pub lru :
      (q r : String) (mq mr : CacheEntryMeta)
      → lookup q ix ≡ some mq
      → lookup q ix' ≡ none
      → r ≢ keep
      → lookup r ix' ≡ some mr
      → mq.last_access ≤ mr.last_access

pub Shrinks-refl : (keep : String) (ix : Index) → Shrinks keep ix ix
Shrinks-refl keep ix = record {
  kept = refl;
  same = λ q m h. h;
  lru = λ q r mq mr h gone other stays. absurd (cc (h, gone));
}

pub Shrinks-trans :
    {keep : String} {a b c : Index} → Shrinks keep a b → Shrinks keep b c → Shrinks keep a c
Shrinks-trans {keep} {a} {b} {c} s t = record {
  kept = t.kept ∙ s.kept;
  same = λ q m h. s.same q m (t.same q m h);
  lru = λ q r mq mr h gone other stays. elim (Option-cases (lookup q b)) [
    | inl first ↦ s.lru q r mq mr h first other (t.same r mr stays)
    | inr (m, second) ↦
        let e : some m ≡ some mq = sym (s.same q m second) ∙ h in
        t.lru q r mq mr (second ∙ e) gone other stays
  ];
}

-- To remove an entry that was used no later than the others is such a step.
pub Shrinks-remove :
    (keep k : String) (m : CacheEntryMeta) (ix : Index)
    → k ≢ keep
    → lookup k ix ≡ some m
    → ((r : String) (mr : CacheEntryMeta)
        → r ≢ keep
        → lookup r ix ≡ some mr
        → m.last_access ≤ mr.last_access)
    → Shrinks keep ix (remove k ix)
Shrinks-remove keep k m ix other h least = record {
  kept = lookup-remove_ne k keep ix other;
  same = λ q mq p. ground (arith, lookup-remove k q ix);
  lru = λ q r mq mr hq gone r_other stays.
      let hr : lookup r ix ≡ some mr = ground (arith, lookup-remove k r ix) in
      let here : k ≡ q = ground (arith, lookup-remove k q ix, string_eq.beq_iff k q) in
      ground (arith, least r mr r_other hr);
}

pub lookup-others :
    (keep r : String) (ix : Index)
    → lookup r (others keep ix) ≡ (if r == keep then none else lookup r ix)
unfolding lookup
lookup-others keep r [] = ground arith
lookup-others keep r (e ∷ ix) = ground (
  arith,
  lookup-others keep r ix,
  string_eq.beq_iff e.0 keep,
  string_eq.beq_iff e.0 r,
  string_eq.beq_iff r keep,
)

pub others-IsDistinct : (keep : String) (ix : Index) → IsDistinct ix → IsDistinct (others keep ix)
others-IsDistinct keep [] d = d
others-IsDistinct keep (e ∷ ix) d =
    ground (arith, lookup-others keep e.0 ix, others-IsDistinct keep ix d.1)

pub oldest-none : (l : Index) → oldest l ≡ none → l ≡ []
unfolding oldest
oldest-none [] h = refl
oldest-none (e ∷ l) h = elim (Option-cases (oldest l)) [
  | inl alone ↦ ground (arith, alone)
  | inr (e', more) ↦ ground (arith, more)
]

oldest-le :
    (l : Index) (e : String × CacheEntryMeta) (r : String) (mr : CacheEntryMeta)
    → oldest l ≡ some e
    → lookup r l ≡ some mr
    → e.1.last_access ≤ mr.last_access
unfolding oldest lookup
oldest-le [] e r mr h g = absurd (cc h)
oldest-le (x ∷ l) e r mr h g = elim (Option-cases (oldest l)) [
  | inl alone ↦
      let gone : lookup r l ≡ none = rw (oldest-none l alone) in ground (arith, alone, gone)
  | inr (e', more) ↦ ground (arith, more, oldest-le l e' r mr)
]

oldest-lookup :
    (l : Index) (e : String × CacheEntryMeta)
    → IsDistinct l
    → oldest l ≡ some e
    → lookup e.0 l ≡ some e.1
unfolding oldest lookup
oldest-lookup [] e d h = absurd (cc h)
oldest-lookup (x ∷ l) e d h = elim (Option-cases (oldest l)) [
  | inl alone ↦ ground (arith, alone, string_eq.beq_iff x.0 e.0)
  | inr (e', more) ↦ ground (
    arith,
    more,
    oldest-lookup l e' d.1 more,
    string_eq.beq_iff x.0 e.0,
    string_eq.beq_iff x.0 e'.0,
  )
]

pub oldest-ne :
    (keep : String) (ix : Index) (e : String × CacheEntryMeta)
    → IsDistinct ix
    → oldest (others keep ix) ≡ some e
    → e.0 ≢ keep
oldest-ne keep ix e d h =
    let found = oldest-lookup (others keep ix) e (others-IsDistinct keep ix d) h in
    λ p. ground (arith, found, lookup-others keep e.0 ix, string_eq.beq_iff e.0 keep)

-- To remove the least recently used entry but `keep` is a step of an eviction.
pub Shrinks-oldest :
    (keep : String) (ix : Index) (e : String × CacheEntryMeta)
    → IsDistinct ix
    → oldest (others keep ix) ≡ some e
    → (lookup e.0 ix ≡ some e.1) × Shrinks keep ix (remove e.0 ix)
Shrinks-oldest keep ix e d h =
    let found = oldest-lookup (others keep ix) e (others-IsDistinct keep ix d) h in
    let at : lookup e.0 ix ≡ some e.1 = ground (arith, found, lookup-others keep e.0 ix) in
    let other = oldest-ne keep ix e d h in
    let least : (r : String) (mr : CacheEntryMeta)
        → r ≢ keep
        → lookup r ix ≡ some mr
        → e.1.last_access ≤ mr.last_access =
      λ r mr ne p.
        oldest-le (others keep ix) e r mr h
          (ground (arith, lookup-others keep r ix, string_eq.beq_iff r keep)) in
    (at, Shrinks-remove keep e.0 e.1 ix other at least)
