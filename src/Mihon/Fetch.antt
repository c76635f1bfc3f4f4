-- ===== src/Mihon/Fetch.antt =====
-- The fetch flow of rust/mihon/src/repo.rs: from the URL of an index to its store and its list of
-- extensions. The network, gzip, serde_json and prost are parameters.
use dion_runtime.Base.{
  ℕ, zero, suc, ◌+◌, Bool, true, ◌&&◌, Option, none, some, List, [], ◌∷◌, ◌++◌, map, Text, codes,
  ◌==◌, nat_eq, list_eq, is_prefix, leb, ltb, if◌then◌else◌, Result, ok, err, ok_or,
}
use dion_runtime.Base.Texts.{strip_suffix, unwrap_or, map_option}
use dion_runtime.Base.Action.{Action, pure, bail, lift, ◌>>=◌}
use dion_runtime.Client.{Fault}
use dion_runtime.Mihon.Types.{
  Floats, RepoStore, RepoExtension, RepoIndex, LegacyExtensionJson, LegacyRepoJson, ExtensionList,
  NetworkExtensionStore, ExtensionListJson, StoreJson,
}
use dion_runtime.Mihon.Urls.{repo_base_url}
use dion_runtime.Mihon.Mapping.{
  list_into_proto, json_into_store, proto_into_store, repo_extension_from_store,
  repo_extension_from_legacy,
}

abbrev pub max_store_redirects : ℕ
max_store_redirects = 10

-- An answer of a server; its body may fail to arrive.
pub record Response : Type 0 where
  pub status : ℕ
  pub bytes : Result Fault Text

-- `reqwest::get`, and the state of the network between calls.
pub record Web : Type 1 where
  pub Net : Type 0
  pub get : Text → Net → Result Fault Response × Net

-- The decoders of payloads.
pub record Decoders : Type 0 where
  pub gunzip : Text → Option Text
  pub legacy_repo : Text → Option LegacyRepoJson
  pub legacy_extensions : Text → Option (List LegacyExtensionJson)
  pub store_json : Text → Option StoreJson
  pub store_proto : Text → Option NetworkExtensionStore
  pub list_json : Text → Option ExtensionListJson
  pub list_proto : Text → Option ExtensionList

pub data RepoError : Type 0 where
  too_many_redirects : Text → RepoError
  fetch_failed : Text → RepoError
  http_status : Text → ℕ → RepoError
  body_failed : Text → RepoError
  empty_response : Text → RepoError
  invalid_store_json invalid_store_protobuf invalid_legacy_index invalid_list_json : RepoError
  invalid_list_protobuf empty_list no_embedded_list out_of_fuel : RepoError

pub data StoreResolution : Type 0 where
  store : RepoStore → StoreResolution
  legacy : Option LegacyRepoJson → StoreResolution

abbrev is_success : ℕ → Bool
is_success status = leb 200 status && ltb status 300

-- The result, with none for an error.
abbrev pub to_option {ℓ} : {E : Type 0} {A : Type ℓ} → Result E A → Option A
to_option (ok a) = some a
to_option (err e) = none

module _ (d : Decoders) where
  open d use {
    gunzip, legacy_repo, legacy_extensions, store_json, store_proto, list_json, list_proto,
  }

  unfoldable pub decompress_if_gzipped : Text → Text
  decompress_if_gzipped bytes =
      if is_prefix (0x1f ∷ 0x8b ∷ []) bytes then unwrap_or (gunzip bytes) bytes else bytes

  -- A payload that begins with a brace.
  abbrev parse_json_store : Text → Text → Option LegacyRepoJson → Result RepoError StoreResolution
  parse_json_store index_url body (some repo) = ok (legacy (some repo))
  parse_json_store index_url body none =
      ok_or (map_option (λ (s : StoreJson). store (json_into_store index_url s)) (store_json body))
        invalid_store_json

  abbrev parse_first : Text → Text → Result RepoError StoreResolution
  parse_first index_url [] = err (empty_response index_url)
  parse_first index_url (c ∷ cs) =
      if c == b'['
      then ok (legacy none)
      else if c == b'{'
      then parse_json_store index_url (c ∷ cs) (legacy_repo (c ∷ cs))
      else ok_or
          (map_option (λ (s : NetworkExtensionStore). store (proto_into_store index_url s))
            (store_proto (c ∷ cs)))
          invalid_store_protobuf

  unfoldable pub parse_store_payload : Text → Text → Result RepoError StoreResolution
  unfolding decompress_if_gzipped
  parse_store_payload index_url body = parse_first index_url (decompress_if_gzipped body)

  abbrev embedded_json : Option StoreJson → Option ExtensionList
  embedded_json none = none
  embedded_json (some s) = map_option list_into_proto s.extension_list

  abbrev embedded_proto : Option NetworkExtensionStore → Option ExtensionList
  embedded_proto none = none
  embedded_proto (some s) = s.extension_list

  abbrev embedded_list : Text → Option ExtensionList
  embedded_list [] = none
  embedded_list (c ∷ cs) =
      if c == b'{'
      then embedded_json (store_json (c ∷ cs))
      else embedded_proto (store_proto (c ∷ cs))

  unfoldable pub store_extension_list_from_payload : Text → Option ExtensionList
  unfolding decompress_if_gzipped
  store_extension_list_from_payload body = embedded_list (decompress_if_gzipped body)

  abbrev parse_list : Text → Result RepoError ExtensionList
  parse_list [] = err empty_list
  parse_list (c ∷ cs) =
      if c == b'{'
      then ok_or (map_option list_into_proto (list_json (c ∷ cs))) invalid_list_json
      else ok_or (list_proto (c ∷ cs)) invalid_list_protobuf

  unfoldable pub extension_list_from_payload : Text → Result RepoError ExtensionList
  unfolding decompress_if_gzipped
  extension_list_from_payload body = parse_list (decompress_if_gzipped body)

-- The store of a legacy repository, from its `repo.json` if it has one.
abbrev pub legacy_store : Text → Option LegacyRepoJson → RepoStore
legacy_store index_url none = record {
  index_url = index_url;
  name = [];
  badge_label = [];
  signing_key = [];
  is_legacy = true;
  extension_list_url = none;
}
legacy_store index_url (some repo) = record {
  index_url = index_url;
  name = repo.meta.name;
  badge_label = unwrap_or repo.meta.short_name [];
  signing_key = repo.meta.signing_key_fingerprint;
  is_legacy = true;
  extension_list_url = none;
}

-- The URL of the new store that a `repo.json` points at.
abbrev pub pointed_at : Option LegacyRepoJson → Option Text
pointed_at none = none
pointed_at (some repo) = elim repo.index_v2 [
  | none ↦ none
  | some v2 ↦ if v2 == [] then none else some v2
]

-- The directory of a legacy repository.
unfoldable pub legacy_base : Text → Text
unfolding strip_suffix repo_base_url
legacy_base index_url =
    unwrap_or (strip_suffix (codes "/repo.json") index_url) (repo_base_url index_url)

module _ (w : Web) (d : Decoders) where
  open w use {Net, get}
  open d use {legacy_repo, legacy_extensions}

  abbrev body_of : Text → Result Fault Response → Result RepoError Text
  body_of url (err e) = err (fetch_failed url)
  body_of url (ok r) =
      if is_success r.status then whole_body r.bytes else err (http_status url r.status)
    where
      whole_body : Result Fault Text → Result RepoError Text
      whole_body (ok bytes) = ok (decompress_if_gzipped d bytes)
      whole_body (err e) = err (body_failed url)

  unfoldable pub get_bytes : Text → Action Net RepoError Text
  unfolding decompress_if_gzipped
  get_bytes url net = let answer = get url net in (body_of url answer.0, answer.1)

  -- The sibling `repo.json` of a legacy list, if there is one that parses.
  abbrev pub sibling : Result RepoError Text → Option LegacyRepoJson
  sibling (ok body) = legacy_repo body
  sibling (err e) = none

  unfoldable pub repo_json_of : Text → Option LegacyRepoJson → Net → Option LegacyRepoJson × Net
  unfolding get_bytes repo_base_url
  repo_json_of index_url (some repo) net = (some repo, net)
  repo_json_of index_url none net =
      let answer = get_bytes (repo_base_url index_url ++ codes "/repo.json") net in
      (sibling answer.0, answer.1)

  -- The store that was pointed at, or else the legacy one.
  abbrev pub or_legacy :
      RepoStore → Result RepoError RepoStore × Net → Result RepoError RepoStore × Net
  or_legacy old (ok s, net) = (ok s, net)
  or_legacy old (err e, net) = (ok old, net)

  unfoldable pub resolve_pointed :
      (Text → Action Net RepoError RepoStore)
      → RepoStore
      → Option Text
      → Action Net RepoError RepoStore
  resolve_pointed fetch_v2 old none net = (ok old, net)
  resolve_pointed fetch_v2 old (some v2) net = or_legacy old (fetch_v2 v2 net)

  unfoldable pub resolve_legacy_store :
      (Text → Action Net RepoError RepoStore)
      → Text
      → Option LegacyRepoJson
      → Action Net RepoError RepoStore
  unfolding repo_json_of resolve_pointed
  resolve_legacy_store fetch_v2 index_url repo_json net =
      let known = repo_json_of index_url repo_json net in
      resolve_pointed fetch_v2 (legacy_store index_url known.0) (pointed_at known.0) known.1

  abbrev pub resolved :
      (Text → Action Net RepoError RepoStore)
      → Text
      → StoreResolution
      → Action Net RepoError RepoStore
  resolved fetch_v2 index_url (store s) net = (ok s, net)
  resolved fetch_v2 index_url (legacy repo_json) net =
      resolve_legacy_store fetch_v2 index_url repo_json net

  -- One turn, given what fetches the store that a `repo.json` points at.
  unfoldable pub fetch_turn :
      (Text → Action Net RepoError RepoStore) → Text → ℕ → Action Net RepoError RepoStore
  unfolding get_bytes parse_store_payload resolve_legacy_store
  fetch_turn fetch_v2 index_url depth =
      if leb max_store_redirects depth then bail (too_many_redirects index_url) else (do
        body ← get_bytes index_url
        resolution ← lift (parse_store_payload d index_url body)
        resolved fetch_v2 index_url resolution)

  -- Each redirect takes one of the fuel; one more than the redirects that are allowed is enough.
  unfoldable pub fetch_store_inner : ℕ → Text → ℕ → Action Net RepoError RepoStore
  unfolding fetch_turn
  fetch_store_inner zero index_url depth = bail out_of_fuel
  fetch_store_inner (suc fuel) index_url depth =
      fetch_turn (λ (v2 : Text). fetch_store_inner fuel v2 (depth + 1)) index_url depth

  unfoldable pub fetch_store : Text → Action Net RepoError RepoStore
  unfolding fetch_store_inner
  fetch_store index_url = fetch_store_inner (suc max_store_redirects) index_url 0

  module _ (f : Floats) where
    abbrev legacy_list : Text → Text → Result RepoError (List (RepoExtension f))
    legacy_list base body =
        ok_or (map_option (map (repo_extension_from_legacy f base)) (legacy_extensions body))
          invalid_legacy_index

    abbrev of_store : ExtensionList → List (RepoExtension f)
    of_store list = map (repo_extension_from_store f) list.extensions

    abbrev separate_list :
        Result RepoError ExtensionList → Result RepoError (List (RepoExtension f))
    separate_list (ok list) = ok (of_store list)
    separate_list (err e) = err e

    abbrev own_list : Text → Result RepoError (List (RepoExtension f))
    own_list body =
        ok_or (map_option of_store (store_extension_list_from_payload d body)) no_embedded_list

    abbrev pub fetch_list :
        Text
        → (Text → Result RepoError (List (RepoExtension f)))
        → Action Net RepoError (List (RepoExtension f))
    fetch_list url parse = do body ← get_bytes url; lift (parse body)

    unfoldable pub fetch_extensions : RepoStore → Action Net RepoError (List (RepoExtension f))
    unfolding get_bytes legacy_base extension_list_from_payload store_extension_list_from_payload
        repo_extension_from_store repo_extension_from_legacy
    fetch_extensions s =
        if s.is_legacy
        then (let base = legacy_base s.index_url in
            fetch_list (base ++ codes "/index.min.json") (legacy_list base))
        else (elim s.extension_list_url [
          | some list_url ↦
              fetch_list list_url (λ body. separate_list (extension_list_from_payload d body))
          | none ↦ fetch_list s.index_url own_list
        ])

    unfoldable pub fetch_repo : Text → Action Net RepoError (RepoIndex f)
    unfolding fetch_store fetch_extensions
    fetch_repo index_url = do
      s ← fetch_store index_url
      extensions ← fetch_extensions s
      pure (record { store = s; extensions = extensions })
