-- ===== src/Mihon/Adapter.antt =====
-- The repository operations of `MihonAdapter` in rust/mihon/src/adapter.rs: `get_repo`,
-- `get_remote_extension` and `browse_repo`, over the indices that it keeps in memory.
use dion_runtime.Base.{
  Bool, false, ◌||◌, Option, none, some, List, [], ◌∷◌, Text, ◌==◌, nat_eq, list_eq, if◌then◌else◌,
  Result, ok, err,
}
use dion_runtime.Base.Action.{Action, ◌>>=◌}
use dion_runtime.Base.Maps.{lookup, insert}
use dion_runtime.Base.Texts.{map_option}
use dion_runtime.Extension.{RemoteExtension, RemoteExtensionResult, ExtensionRepo}
use dion_runtime.Mihon.Types.{Floats, RepoSource, RepoExtension, RepoIndex}
use dion_runtime.Mihon.Urls.{normalize_index_url}
use dion_runtime.Mihon.Mapping.{first, mihon_id, to_remote, index_to_result, build_extension_repo}
use dion_runtime.Mihon.Fetch.{Web, Decoders, RepoError, fetch_repo}

-- `iter().find(p)`
unfoldable pub find {ℓ} : {A : Type ℓ} → (A → Bool) → List A → Option A
find p [] = none
find p (x ∷ xs) = if p x then some x else find p xs

module _ (w : Web) (d : Decoders) (f : Floats) where
  -- `repo_index_cache`, and the network.
  pub record Repos : Type 0 where
    pub repo_index_cache : List (Text × RepoIndex f)
    pub net : w.Net

  abbrev pub cached :
      Text → Repos → Repos → Result RepoError (RepoIndex f) → Result RepoError (RepoIndex f) × Repos
  cached index_url r s (ok index) =
      (ok index, record s { repo_index_cache = insert index_url index r.repo_index_cache })
  cached index_url r s (err e) = (err e, s)

  unfoldable pub fetch_repo_index : Text → Action Repos RepoError (RepoIndex f)
  unfolding lookup insert fetch_repo
  fetch_repo_index index_url r = elim (lookup index_url r.repo_index_cache) [
    | some index ↦ (ok index, r)
    | none ↦
        let answer = fetch_repo w d f index_url r.net in
        cached index_url r (record r { net = answer.1 }) answer.0
  ]

  unfoldable pub get_repo : Text → Action Repos RepoError ExtensionRepo
  unfolding fetch_repo_index normalize_index_url build_extension_repo
  get_repo url =
      let index_url = normalize_index_url url in
      fetch_repo_index index_url >>= λ index.
      λ r. (ok (build_extension_repo index_url index.store), r)

  abbrev has_id : Text → Option RepoSource → Bool
  has_id id none = false
  has_id id (some s) = mihon_id s == id

  abbrev pub is_named : Text → RepoExtension f → Bool
  is_named id e = has_id id (first e.sources) || e.pkg == id

  unfoldable pub get_remote_extension :
      ExtensionRepo → Text → Action Repos RepoError (Option RemoteExtension)
  unfolding fetch_repo_index find to_remote
  get_remote_extension repo id = fetch_repo_index repo.remote_id >>= λ index.
      λ r. (ok (map_option (to_remote f) (find (is_named id) index.extensions)), r)

  unfoldable pub browse_repo : ExtensionRepo → Action Repos RepoError RemoteExtensionResult
  unfolding fetch_repo_index index_to_result
  browse_repo repo =
      fetch_repo_index repo.remote_id >>= λ index. λ r. (ok (index_to_result f index.extensions), r)
