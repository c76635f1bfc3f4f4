-- ===== src/ExtensionManager/Repos.antt =====
-- The index of a repository in rust/dion_extension/src/extension_manager.rs.
use dion_runtime.Base.{
  ℕ, Bool, true, false, Option, none, some, List, [], ◌∷◌, ◌++◌, map, Text, any, if◌then◌else◌,
}
use dion_runtime.Base.Texts.{rsplit_once, unwrap_or}
use dion_runtime.Extension.{
  ExtensionKind, kind_of, RemoteExtension, RemoteExtensionResult, ExtensionRepo,
}
use dion_runtime.Settings.{Carried}
use dion_runtime.UnixPath.{slash}
use dion_runtime.ExtensionManager.Metadata.{
  ExtensionMetadata, Manifests, is_compatible, some_if_any,
}

pub record RemoteExtensionMeta (x : Carried) : Type 0 where
  pub path : Text
  pub extdata : ExtensionMetadata x

pub record DionRepoIndex (x : Carried) : Type 0 where
  pub repo_index_version : ℕ
  pub name : Text
  pub url : Text
  pub description : Text
  pub icon : Text
  pub content : Option (List (RemoteExtensionMeta x))

unfoldable pub into_repo : {x : Carried} → DionRepoIndex x → Text → ExtensionRepo
into_repo index url = record {
  remote_id = url;
  name = index.name;
  description = index.description;
  url = index.url;
}

-- Whether extensions of a kind deal in media.
abbrev deals_in_media : ExtensionKind → Bool
deals_in_media ExtensionKind.entry_provider = true
deals_in_media ExtensionKind.source_processor = true
deals_in_media ExtensionKind.entry_processor = false
deals_in_media ExtensionKind.url_handler = false

-- The URL of a script: the index's without its last part, and the path.
unfoldable pub script_url : Text → Text → Text
unfolding rsplit_once
script_url url path = (unwrap_or (rsplit_once slash url) (url, [])).0 ++ slash ∷ path

module _ (m : Manifests) where
  unfoldable pub remote_of : Text → Text → RemoteExtensionMeta m.carried → RemoteExtension
  unfolding script_url is_compatible
  remote_of url index_url ext =
      let extension_kinds = map kind_of ext.extdata.extension_type in
      record {
        id = ext.extdata.id;
        remote_id = script_url url ext.path;
        url = index_url;
        name = ext.extdata.name;
        cover = some (record { url = ext.extdata.icon; header = none });
        version = ext.extdata.version;
        compatible = is_compatible m ext.extdata;
        permissions = some_if_any ext.extdata.permissions;
        authors = ext.extdata.authors;
        lang = ext.extdata.lang;
        tags = ext.extdata.tags;
        nsfw = ext.extdata.nsfw;
        media_type = if any deals_in_media extension_kinds then ext.extdata.media_type else [];
        extension_kinds = extension_kinds;
      }

  unfoldable pub into_result : DionRepoIndex m.carried → Text → RemoteExtensionResult
  unfolding remote_of
  into_result index url = record {
    content = map (remote_of url index.url) (unwrap_or index.content []);
    hasnext = some false;
    length = none;
  }
