-- ===== src/Mihon/Listed.antt =====
-- What `MihonAdapter` lists, it finds again.
use dion_runtime.Base.{
  ◌≡◌, refl, sym, ap, subst, ◌∙◌, arith, Bool, true, inl, inr, Bool-cases, some, List, [], ◌∷◌, map,
  Text, ok, err, Option-cases, Result-cases, All, any, list_eq, nat_eq, beq_refl,
}
use dion_runtime.Base.Maps.{lookup, lookup-insert_self}
use dion_runtime.Extension.{RemoteExtension, RemoteExtensionResult, ExtensionRepo}
use dion_runtime.Mihon.Types.{Floats, RepoExtension, RepoIndex}
use dion_runtime.Mihon.Mapping.{first, mihon_id, to_remote, index_to_result}
use dion_runtime.Mihon.Fetch.{Web, Decoders, fetch_repo}
use dion_runtime.Mihon.Adapter.{
  Repos, find, is_named, fetch_repo_index, get_remote_extension, browse_repo,
}

find-any {ℓ} :
    {A : Type ℓ} (p : A → Bool) (xs : List A)
    → any p xs ≡ true
    → (x : A) × (find p xs ≡ some x) × (p x ≡ true)
unfolding find
find-any p [] h = absurd (cc h)
find-any p (x ∷ xs) h = elim (Bool-cases (p x)) [
  | inl here ↦ (x, rw here refl, here)
  | inr past ↦ let found = find-any p xs (rw past at h) in (found.0, rw past found.1, found.2)
]

-- If each element passes its own test, each test is passed by one of the list.
All-any {ℓ} :
    {A : Type ℓ} (q : A → A → Bool)
    → ((x : A) → q x x ≡ true)
    → (xs ys : List A) → ((p : A → Bool) → any p xs ≡ true → any p ys ≡ true)
    → All (λ x. any (q x) ys ≡ true) xs
All-any q self [] ys sub = tt
All-any q self (x ∷ xs) ys sub =
    (sub (q x) (rw (self x) refl), All-any q self xs ys (λ p h. sub p (ground (arith, h))))

module _ (w : Web) (d : Decoders) (f : Floats) where
  fetch_known :
      (url : Text) (st : Repos w d f) (index : RepoIndex f)
      → lookup url st.repo_index_cache ≡ some index
      → fetch_repo_index w d f url st ≡ (ok index, st)
  unfolding fetch_repo_index
  fetch_known url st index h = rw (h, fetch_repo_index) refl

  -- An index that was fetched is kept.
  fetch_repo_index-lookup :
      (url : Text) (st st1 : Repos w d f) (index : RepoIndex f)
      → fetch_repo_index w d f url st ≡ (ok index, st1)
      → lookup url st1.repo_index_cache ≡ some index
  unfolding fetch_repo_index
  fetch_repo_index-lookup url st st1 index h =
      elim (Option-cases (lookup url st.repo_index_cache)) [
        | inr (known, e) ↦
            let done = rw (e, fetch_repo_index) at h in
            let same : known ≡ index = cc (done) in
            let kept : st ≡ st1 = ap (λ p. p.1) done in
            ap (λ s. lookup url s.repo_index_cache) (sym kept) ∙ e ∙ ap some same
        | inl fresh ↦ elim (Result-cases (fetch_repo w d f url st.net).0) [
          | inl (found, e) ↦
              let done = rw (fresh, e, fetch_repo_index) at h in
              let same : found ≡ index = cc (done) in
              ap (λ p. lookup url p.1.repo_index_cache) (sym done)
              ∙ lookup-insert_self url found st.repo_index_cache
              ∙ ap some same
          | inr (c, e) ↦ let done = rw (fresh, e, fetch_repo_index) at h in absurd (cc (done))
        ]
      ]

  id-is_named : (e : RepoExtension f) → is_named w d f (to_remote f e).id e ≡ true
  unfolding to_remote
  id-is_named e = elim (Option-cases (first e.sources)) [
    | inl nothing ↦ rw nothing (beq_refl e.pkg)
    | inr (s, h) ↦ rw h (ground (arith, beq_refl (mihon_id s)))
  ]

  -- The extension that an id names in an index that the adapter keeps.
  abbrev pub IsFound : ExtensionRepo → Repos w d f → RemoteExtension → Type 0
  IsFound repo st r =
      (e : RepoExtension f) × (get_remote_extension w d f repo r.id st
        ≡ (ok (some (to_remote f e)), st))
      × (is_named w d f r.id e ≡ true)

  each-IsFound :
      (repo : ExtensionRepo) (st : Repos w d f) (index : RepoIndex f)
      → fetch_repo_index w d f repo.remote_id st ≡ (ok index, st)
      → (es : List (RepoExtension f))
      → All (λ e. any (is_named w d f (to_remote f e).id) index.extensions ≡ true) es
      → All (IsFound repo st) (map (to_remote f) es)
  unfolding get_remote_extension
  each-IsFound repo st index known [] h = tt
  each-IsFound repo st index known (e ∷ es) (named, h) =
      let found = find-any (is_named w d f (to_remote f e).id) index.extensions named in
      ((found.0, rw (known, found.1) refl, found.2), each-IsFound repo st index known es h)

  -- After a browse_repo that succeeded, get_remote_extension finds an extension for the id of each
  -- extension that was listed, one that has the id as its own or as its package, and changes
  -- neither the kept indices nor the network.
  pub browse-get :
      (repo : ExtensionRepo) (st st1 : Repos w d f) (result : RemoteExtensionResult)
      → browse_repo w d f repo st ≡ (ok result, st1)
      → All (IsFound repo st1) result.content
  unfolding browse_repo index_to_result
  browse-get repo st st1 result h =
      elim (Result-cases (fetch_repo_index w d f repo.remote_id st).0) [
        | inl (index, e) ↦
            let whole : fetch_repo_index w d f repo.remote_id st
                ≡ (ok index, (fetch_repo_index w d f repo.remote_id st).1) =
              λ i. (e i, (fetch_repo_index w d f repo.remote_id st).1) in
            let done = rw whole at h in
            let kept : (fetch_repo_index w d f repo.remote_id st).1 ≡ st1 = ap (λ p. p.1) done in
            let listed : index_to_result f index.extensions ≡ result = cc (done) in
            let got : fetch_repo_index w d f repo.remote_id st ≡ (ok index, st1) =
              λ i. (e i, kept i) in
            let known =
              fetch_known repo.remote_id st1 index
                (fetch_repo_index-lookup repo.remote_id st st1 index got) in
            let all = each-IsFound repo st1 index known index.extensions (
              All-any (λ x. is_named w d f (to_remote f x).id) id-is_named index.extensions
                index.extensions λ p k. k) in
            subst (λ r. All (IsFound repo st1) r.content) listed all
        | inr (c, e) ↦
            let whole : fetch_repo_index w d f repo.remote_id st
                ≡ (err c, (fetch_repo_index w d f repo.remote_id st).1) =
              λ i. (e i, (fetch_repo_index w d f repo.remote_id st).1) in
            let done = rw whole at h in absurd (cc (done))
      ]
