-- ===== src/Proxy.antt =====
-- rust/dion_extension/src/proxy.rs: which extension handles a request, and the registry of the
-- extensions. Requests, responses and the calls of an extension's script, of the HTTP client and of
-- the file server are parameters.
pub mod Routes
use dion_runtime.Base.{
  ℕ, Bool, true, false, Option, none, some, List, [], ◌∷◌, ◌++◌, Text, codes, is_prefix, nat_eq,
  Result, ok, err, if◌then◌else◌, filter,
}
use dion_runtime.Client.{Fault}

-- A registered reference: whether the reference itself is still held (`weak.upgrade()`), and as a
-- request finds it, whether its extension is alive (`runtime.upgrade()`), the extension's id, and
-- whether it is enabled (its context is there).
pub record ProxyExtensionRef : Type 0 where
  pub held : Bool
  pub alive : Bool
  pub id : Text
  pub enabled : Bool

pub record Proxy : Type 0 where
  pub registered_extensions : List ProxyExtensionRef
  pub addr : Option Text

abbrev pub extension_path : ProxyExtensionRef → Text
extension_path e = codes "/extproxy/" ++ e.id

abbrev uri_of : ProxyExtensionRef → Option Text → Option Text
uri_of e none = none
uri_of e (some addr) = some (codes "http://" ++ addr ++ extension_path e)

unfoldable pub get_extension_uri : Proxy → ProxyExtensionRef → Option Text
get_extension_uri proxy e = uri_of e proxy.addr

-- An extension that the loop of `handle_request` does not pass by.
abbrev pub takes : Text → ProxyExtensionRef → Bool
takes path e =
    if e.alive then (if is_prefix (extension_path e) path then e.enabled else false) else false

-- The extension that the loop hands the request to: the first that it does not pass by.
unfoldable pub route : Text → List ProxyExtensionRef → Option ProxyExtensionRef
route path [] = none
route path (e ∷ extensions) =
    let rest = route path extensions in if takes path e then some e else rest

abbrev pub cleanup_dropped : Proxy → Proxy
cleanup_dropped proxy = record proxy {
  registered_extensions = filter (λ e. e.held) proxy.registered_extensions;
}

abbrev pub register_extension : ProxyExtensionRef → Proxy → Proxy
register_extension e proxy = record proxy {
  registered_extensions = proxy.registered_extensions ++ e ∷ [];
}

-- `ProxyExtensionRef::new`
unfoldable pub new_extension : ProxyExtensionRef → Proxy → Proxy
new_extension e proxy = register_extension e (cleanup_dropped proxy)

-- `get_active_extensions`
unfoldable pub active_extensions : Proxy → List ProxyExtensionRef
active_extensions proxy = filter (λ e. e.held) proxy.registered_extensions

-- What the script of an extension answers.
pub data ProxyResult (Request Response : Type 0) : Type 0 where
  redirect : Request → ProxyResult Request Response
  response : Response → ProxyResult Request Response
  file : Text → Option Text → ProxyResult Request Response

-- The calls that a request leads to; `S` is the state that they change.
pub record Calls : Type 1 where
  pub S : Type 0
  pub Request : Type 0
  pub Response : Type 0
  pub path_of : Request → Text
  pub handle_proxy :
      ProxyExtensionRef → Request → S → Result Fault (ProxyResult Request Response) × S
  pub fetch : Request → S → Result Fault Response × S
  pub ensure_access : ProxyExtensionRef → Text → S → Result Fault Text × S
  pub serve_file : Text → Option Text → Request → S → Response × S
  pub not_found : Response

module _ (c : Calls) where
  open c use {
    S, Request, Response, path_of, handle_proxy, fetch, ensure_access, serve_file, not_found,
  }

  abbrev pub served : Option Text → Request → Result Fault Text × S → Result Fault Response × S
  served content_type req (err e, s) = (err e, s)
  served content_type req (ok resolved, s) =
      let (resp, s') = serve_file resolved content_type req s in (ok resp, s')

  abbrev pub respond :
      ProxyExtensionRef
      → Request
      → Result Fault (ProxyResult Request Response) × S
      → Result Fault Response × S
  respond e req (err fault, s) = (err fault, s)
  respond e req (ok (response resp), s) = (ok resp, s)
  respond e req (ok (file path content_type), s) = served content_type req (ensure_access e path s)
  respond e req (ok (redirect new_req), s) = fetch new_req s

  abbrev pub handle_routed : Request → Option ProxyExtensionRef → S → Result Fault Response × S
  handle_routed req none s = (ok not_found, s)
  handle_routed req (some e) s = respond e req (handle_proxy e req s)

  unfoldable pub handle_request : List ProxyExtensionRef → Request → S → Result Fault Response × S
  unfolding route
  handle_request extensions req = handle_routed req (route (path_of req) extensions)
