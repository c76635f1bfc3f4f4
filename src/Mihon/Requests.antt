-- ===== src/Mihon/Requests.antt =====
-- How many requests the fetch flow of rust/mihon/src/repo.rs makes.
use dion_runtime.Base.{
  ℕ, zero, suc, ◌≡◌, refl, arith, ◌+◌, ◌-◌, ◌*◌, ◌≤◌, List, Option, none, some, Text, inl, inr, leb,
  Bool-cases, Result, ok, err, Option-cases, Result-cases, codes, ◌++◌, false,
}
use dion_runtime.Base.Action.{Action, continue, lift, pure}
use dion_runtime.Mihon.Types.{Floats, RepoExtension, RepoIndex, RepoStore, LegacyRepoJson}
use dion_runtime.Mihon.Urls.{repo_base_url}
use dion_runtime.Mihon.Fetch.{
  Web, Decoders, RepoError, StoreResolution, store, legacy, legacy_store, pointed_at, resolved,
  max_store_redirects, get_bytes, repo_json_of, resolve_pointed, resolve_legacy_store, fetch_turn,
  fetch_store_inner, fetch_store, fetch_list, fetch_extensions, fetch_repo, parse_store_payload,
}

-- The network, and how many requests were made.
abbrev pub counted : Web → Web
counted w = record {
  Net = ℕ × w.Net;
  get = λ url n. let answer = w.get url n.1 in (answer.0, (n.0 + 1, answer.1));
}

module _ (w : Web) (d : Decoders) where
  abbrev Counted : Type 0
  Counted = ℕ × w.Net

  get_bytes-count : (url : Text) (n : Counted) → (get_bytes (counted w) d url n).1.0 ≡ n.0 + 1
  unfolding get_bytes
  get_bytes-count url n = refl

  repo_json_of-count :
      (url : Text) (r : Option LegacyRepoJson) (n : Counted)
      → (repo_json_of (counted w) d url r n).1.0 ≤ n.0 + 1
  unfolding repo_json_of
  repo_json_of-count url (some r) n = omega arith
  repo_json_of-count url none n =
      omega (arith, get_bytes-count (repo_base_url url ++ codes "/repo.json") n)

  -- Two steps take at most the requests of both.
  continue-count :
      {A B : Type 0} (r : Result RepoError A × Counted) (f : A → Action Counted RepoError B)
      (m b : ℕ)
      → r.1.0 ≤ m
      → ((a : A) (n : Counted) → (f a n).1.0 ≤ n.0 + b)
      → (continue r f).1.0 ≤ m + b
  continue-count (ok a, n) f m b h k = omega (arith, k a n)
  continue-count (err e, n) f m b h k = omega arith

  module _ (fetch_v2 : Text → Action Counted RepoError RepoStore) (b : ℕ)
      (bounded : (v2 : Text) (n : Counted) → (fetch_v2 v2 n).1.0 ≤ n.0 + b) where
    resolve_pointed-count :
        (old : RepoStore) (o : Option Text) (n : Counted)
        → (resolve_pointed (counted w) d fetch_v2 old o n).1.0 ≤ n.0 + b
    unfolding resolve_pointed
    resolve_pointed-count old none n = omega arith
    resolve_pointed-count old (some v2) n = elim (Result-cases (fetch_v2 v2 n).0) [
      | inl (s, e) ↦ rw e (bounded v2 n)
      | inr (c, e) ↦ rw e (bounded v2 n)
    ]

    resolve_legacy-count :
        (url : Text) (r : Option LegacyRepoJson) (n : Counted)
        → (resolve_legacy_store (counted w) d fetch_v2 url r n).1.0 ≤ n.0 + 1 + b
    unfolding resolve_legacy_store
    resolve_legacy-count url r n =
        let known = repo_json_of (counted w) d url r n in
        omega (
          arith,
          repo_json_of-count url r n,
          resolve_pointed-count (legacy_store url known.0) (pointed_at known.0) known.1,
        )

    resolved-count :
        (url : Text) (r : StoreResolution) (n : Counted)
        → (resolved (counted w) d fetch_v2 url r n).1.0 ≤ n.0 + 1 + b
    resolved-count url (store s) n = omega arith
    resolved-count url (legacy r) n = resolve_legacy-count url r n

    after_parse :
        (url : Text) (r : Result RepoError StoreResolution) (n : Counted)
        → (continue (lift r n) (λ s. resolved (counted w) d fetch_v2 url s)).1.0 ≤ n.0 + (1 + b)
    after_parse url (ok r) n = omega (arith, resolved-count url r n)
    after_parse url (err e) n = omega arith

    fetch_turn-count :
        (url : Text) (depth : ℕ) (n : Counted)
        → leb max_store_redirects depth ≡ false
        → (fetch_turn (counted w) d fetch_v2 url depth n).1.0 ≤ n.0 + 1 + (1 + b)
    unfolding fetch_turn
    fetch_turn-count url depth n shallow = rw shallow (
        continue-count (get_bytes (counted w) d url n)
          (λ body. λ m.
            continue (lift (parse_store_payload d url body) m)
              (λ r. resolved (counted w) d fetch_v2 url r))
          (n.0 + 1) (1 + b) (omega (arith, get_bytes-count url n))
          (λ body m. after_parse url (parse_store_payload d url body) m))

  -- What is left of the redirects bounds the requests.
  fetch_store_inner-count :
      (fuel : ℕ) (url : Text) (depth : ℕ) (n : Counted)
      → (fetch_store_inner (counted w) d fuel url depth n).1.0
        ≤ n.0 + 2 * (max_store_redirects - depth)
  unfolding fetch_store_inner fetch_turn
  fetch_store_inner-count zero url depth n = omega arith
  fetch_store_inner-count (suc fuel) url depth n =
      elim (Bool-cases (leb max_store_redirects depth)) [
        | inl deep ↦ rw deep (omega arith)
        | inr shallow ↦
            let step =
              fetch_turn-count (λ (v2 : Text). fetch_store_inner (counted w) d fuel v2 (depth + 1))
                (2 * (max_store_redirects - (depth + 1)))
                (λ v2 m. fetch_store_inner-count fuel v2 (depth + 1) m) url depth n shallow in
            ground (arith, step)
      ]

  module _ (f : Floats) where
    fetch_list-count :
        (url : Text) (parse : Text → Result RepoError (List (RepoExtension f))) (n : Counted)
        → (fetch_list (counted w) d f url parse n).1.0 ≤ n.0 + 1
    fetch_list-count url parse n = elim (Result-cases (get_bytes (counted w) d url n).0) [
      | inl (body, e) ↦ rw e (omega (arith, get_bytes-count url n))
      | inr (c, e) ↦ rw e (omega (arith, get_bytes-count url n))
    ]

    fetch_extensions-count :
        (s : RepoStore) (n : Counted) → (fetch_extensions (counted w) d f s n).1.0 ≤ n.0 + 1
    unfolding fetch_extensions
    fetch_extensions-count s n = elim (Bool-cases s.is_legacy) [
      | inl old ↦ rw old (fetch_list-count _ _ n)
      | inr new ↦ elim (Option-cases s.extension_list_url) [
        | inl own ↦ rw (new, own) (fetch_list-count _ _ n)
        | inr (list_url, apart) ↦ rw (new, apart) (fetch_list-count _ _ n)
      ]
    ]

    -- Whatever the servers answer, resolving a repository makes at most 21 requests.
    pub fetch_repo-count :
        (url : Text) (net : w.Net) → (fetch_repo (counted w) d f url (0, net)).1.0 ≤ 21
    unfolding fetch_repo fetch_store
    fetch_repo-count url net =
        continue-count (fetch_store (counted w) d url (0, net))
          (λ s. λ n.
            continue (fetch_extensions (counted w) d f s n)
              (λ extensions. pure (record { store = s; extensions = extensions })))
          20 1 (fetch_store_inner-count 11 url 0 (0, net))
          λ s n. omega (
            arith,
            continue-count {B = RepoIndex f} (fetch_extensions (counted w) d f s n)
                (λ extensions. pure (record { store = s; extensions = extensions })) (n.0 + 1) 0
                (fetch_extensions-count s n) (λ a m. omega arith),
          )
