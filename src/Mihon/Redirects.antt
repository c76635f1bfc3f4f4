-- ===== src/Mihon/Redirects.antt =====
-- The redirects of rust/mihon/src/repo.rs: the fuel of `fetch_store` is enough, and a legacy
-- repository is never lost.
use dion_runtime.Base.{
  ℕ, zero, suc, ◌≡◌, refl, ap, fun_ext, arith, ◌+◌, ◌≤◌, ◌<◌, ◌⊎◌, Option, none, some, Text, inl,
  inr, leb, ok, err, Option-cases, Result-cases, true, list_eq, nat_eq, ◌≢◌, ◌∙◌, [], ◌∷◌, ◌++◌,
  codes, Result, ◌==◌, if◌then◌else◌,
}
use dion_runtime.Base.Action.{Action}
use dion_runtime.Base.Texts.{unwrap_or}
use dion_runtime.Mihon.Urls.{repo_base_url}
use dion_runtime.Mihon.Types.{RepoStore, LegacyRepoJson}
use dion_runtime.Mihon.Fetch.{
  Web, Decoders, RepoError, legacy, max_store_redirects, get_bytes, repo_json_of, resolve_pointed,
  resolve_legacy_store, legacy_store, pointed_at, fetch_turn, fetch_store_inner, fetch_store,
  parse_store_payload, sibling,
}

empty_of_none : (v : Text) → (if v == [] then none else some v) ≡ none → v ≡ []
empty_of_none [] h = refl
empty_of_none (c ∷ cs) h = absurd (cc h)

filled_of_some : (v v2 : Text) → (if v == [] then none else some v) ≡ some v2 → (v ≡ v2) × (v2 ≢ [])
filled_of_some [] v2 h = absurd (cc h)
filled_of_some (c ∷ cs) v2 h = (cc h, λ e. cc (h, e))

module _ (w : Web) (d : Decoders) where
  open w use {Net}

  deep_turn :
      (f g : Text → Action Net RepoError RepoStore) (url : Text) (depth : ℕ) (net : Net)
      → leb max_store_redirects depth ≡ true
      → fetch_turn w d f url depth net ≡ fetch_turn w d g url depth net
  unfolding fetch_turn
  deep_turn f g url depth net deep = rw deep refl

  -- More fuel than there are redirects left changes nothing.
  more_fuel :
      (fuel more depth : ℕ)
      → fuel ≤ more
      → max_store_redirects ≤ fuel + depth
      → (url : Text) (net : Net)
      → fetch_store_inner w d (suc more) url depth net
        ≡ fetch_store_inner w d (suc fuel) url depth net
  unfolding fetch_store_inner
  more_fuel zero more depth h k url net =
      deep_turn (λ v2. fetch_store_inner w d more v2 (depth + 1))
        (λ v2. fetch_store_inner w d zero v2 (depth + 1)) url depth net (ground arith)
  more_fuel (suc fuel) zero depth h k url net = absurd (omega arith)
  more_fuel (suc fuel) (suc more) depth h k url net =
      ap (λ f. fetch_turn w d f url depth net)
        (fun_ext
          λ v2. fun_ext λ m. more_fuel fuel more (depth + 1) (omega arith) (omega arith) v2 m)

  -- Any fuel above the number of redirects that are allowed gives the same result and the same
  -- network as the fuel of fetch_store.
  pub fetch_store-fuel :
      (fuel : ℕ) (url : Text) (net : Net)
      → max_store_redirects < fuel
      → fetch_store_inner w d fuel url 0 net ≡ fetch_store w d url net
  unfolding fetch_store
  fetch_store-fuel zero url net h = absurd (omega arith)
  fetch_store-fuel (suc fuel) url net h = more_fuel 10 fuel 0 (omega arith) (omega arith) url net

  -- What is known of the `repo.json` of a legacy repository, and the network then: the one that the
  -- URL gave, or else the one beside the list, where it can be had and parses.
  abbrev pub Known :
      Option LegacyRepoJson
      → Net
      → Result RepoError Text × Net
      → Option LegacyRepoJson × Net
      → Type 0
  Known (some repo) net beside known = known ≡ (some repo, net)
  Known none net (ok body, net1) known = known ≡ (d.legacy_repo body, net1)
  Known none net (err e, net1) known = known ≡ (none, net1)

  -- The legacy store at a URL: what its repo.json says of it, and nothing where there is none.
  abbrev pub IsLegacyStore : Text → Option LegacyRepoJson → RepoStore → Type 0
  IsLegacyStore url none s =
      (s.index_url ≡ url)
      × (s.name ≡ [])
      × (s.badge_label ≡ [])
      × (s.signing_key ≡ [])
      × (s.is_legacy ≡ true)
      × (s.extension_list_url ≡ none)
  IsLegacyStore url (some repo) s =
      (s.index_url ≡ url)
      × (s.name ≡ repo.meta.name)
      × (s.badge_label ≡ unwrap_or repo.meta.short_name [])
      × (s.signing_key ≡ repo.meta.signing_key_fingerprint)
      × (s.is_legacy ≡ true)
      × (s.extension_list_url ≡ none)

  -- The repo.json points at the URL, which is not empty; or it points at none.
  abbrev pub PointsAt : Option LegacyRepoJson → Text → Type 0
  PointsAt none v2 = ⊥
  PointsAt (some repo) v2 = (repo.index_v2 ≡ some v2) × (v2 ≢ [])

  abbrev pub PointsNowhere : Option LegacyRepoJson → Type 0
  PointsNowhere none = Unit
  PointsNowhere (some repo) = (repo.index_v2 ≡ none) ⊎ (repo.index_v2 ≡ some [])

  -- The store of a legacy repository whose `repo.json` was looked up: the one that it points at,
  -- or its own, where it points at none or at one that cannot be had.
  abbrev pub IsAnswerFor :
      Text
      → (Text → Action Net RepoError RepoStore)
      → Option LegacyRepoJson × Net
      → RepoStore
      → Type 0
  IsAnswerFor url fetch_v2 (repo, net) s =
      (IsLegacyStore url repo s
        × (PointsNowhere repo
            ⊎ ((v2 : Text) × (e : RepoError) × PointsAt repo v2 × ((fetch_v2 v2 net).0 ≡ err e))))
      ⊎ ((v2 : Text) × PointsAt repo v2 × ((fetch_v2 v2 net).0 ≡ ok s))

  sibling_answer-Known :
      (url : Text) (o : Option LegacyRepoJson) (net : Net)
      → Known o net
          (get_bytes w d (repo_base_url url ++ codes "/repo.json") net)
          (repo_json_of w d url o net)
  unfolding repo_json_of
  sibling_answer-Known url (some repo) net = refl
  sibling_answer-Known url none net =
      known (get_bytes w d (repo_base_url url ++ codes "/repo.json") net)
    where
      known :
          (beside : Result RepoError Text × Net)
          → Known none net beside (sibling w d beside.0, beside.1)
      known (ok body, net1) = refl
      known (err e, net1) = refl

  legacy_store-IsLegacyStore :
      (url : Text) (repo : Option LegacyRepoJson) → IsLegacyStore url repo (legacy_store url repo)
  legacy_store-IsLegacyStore url none = (refl, refl, refl, refl, refl, refl)
  legacy_store-IsLegacyStore url (some repo) = (refl, refl, refl, refl, refl, refl)

  points_nowhere : (repo : Option LegacyRepoJson) → pointed_at repo ≡ none → PointsNowhere repo
  points_nowhere none h = tt
  points_nowhere (some repo) h = elim (Option-cases repo.index_v2) [
    | inl e ↦ inl e
    | inr (v2, e) ↦ inr (e ∙ ap some (empty_of_none v2 (rw e at h)))
  ]

  points_at :
      (repo : Option LegacyRepoJson) (v2 : Text) → pointed_at repo ≡ some v2 → PointsAt repo v2
  points_at none v2 h = cc h
  points_at (some repo) v2 h = elim (Option-cases repo.index_v2) [
    | inl e ↦ absurd (cc (rw e at h))
    | inr (v, e) ↦
        let (same, filled) = filled_of_some v v2 (rw e at h) in (e ∙ ap some same, filled)
  ]

  resolve_legacy-IsAnswerFor :
      (fetch_v2 : Text → Action Net RepoError RepoStore) (url : Text) (o : Option LegacyRepoJson)
      (net : Net)
      → (s : RepoStore) × ((resolve_legacy_store w d fetch_v2 url o net).0 ≡ ok s)
        × IsAnswerFor url fetch_v2 (repo_json_of w d url o net) s
  unfolding resolve_legacy_store resolve_pointed
  resolve_legacy-IsAnswerFor fetch_v2 url o net =
      let known = repo_json_of w d url o net in
      let old = legacy_store url known.0 in
      let own = legacy_store-IsLegacyStore url known.0 in
      elim (Option-cases (pointed_at known.0)) [
        | inl alone ↦ (old, rw alone refl, inl (own, inl (points_nowhere known.0 alone)))
        | inr (v2, points) ↦
            let at = points_at known.0 v2 points in
            elim (Result-cases (fetch_v2 v2 known.1).0) [
              | inl (s, e) ↦ (s, rw (points, e) refl, inr (v2, at, e))
              | inr (c, e) ↦ (old, rw (points, e) refl, inl (own, inr (v2, c, at, e)))
            ]
      ]

  -- A URL that answers with a legacy payload always resolves to a store, whatever its repo.json and
  -- the stores that it points at answer. Where a repo.json is known, be it the payload itself or the
  -- file beside the list, and points at a store that can be had, it is that store; otherwise it is the
  -- legacy store, with the name, the badge and the key of repo.json, or with empty ones without it.
  pub fetch_store-legacy :
      (url : Text) (body : Text) (o : Option LegacyRepoJson) (net net1 : Net)
      → get_bytes w d url net ≡ (ok body, net1)
      → parse_store_payload d url body ≡ ok (legacy o)
      → (s : RepoStore) × ((fetch_store w d url net).0 ≡ ok s)
        × ((known : Option LegacyRepoJson × Net) × Known o net1
              (get_bytes w d (repo_base_url url ++ codes "/repo.json") net1)
              known
            × IsAnswerFor url (λ v2. fetch_store_inner w d max_store_redirects v2 1) known s)
  unfolding fetch_store fetch_store_inner fetch_turn
  fetch_store-legacy url body o net net1 got parsed =
      let (s, e, answer) =
        resolve_legacy-IsAnswerFor (λ v2. fetch_store_inner w d 10 v2 1) url o net1 in
      rw (got, parsed)
        (s, e, (repo_json_of w d url o net1, sibling_answer-Known url o net1, answer))
