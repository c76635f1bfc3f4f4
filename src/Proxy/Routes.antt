-- ===== src/Proxy/Routes.antt =====
-- Which requests reach an extension through `handle_request` of rust/dion_extension/src/proxy.rs.
use mathlib.Core.List.{append_assoc}
use dion_runtime.Base.{
  ◌≡◌, refl, sym, ap, subst, ◌∙◌, Bool, true, none, some, List, [], ◌∷◌, ◌++◌, Text, is_prefix,
  nat_eq, list_eq, filter, inl, inr, Bool-cases, any, all, if◌then◌else◌,
}
use dion_runtime.Base.Prefix.{is_prefix-append}
use dion_runtime.Proxy.{
  Proxy, ProxyExtensionRef, extension_path, takes, route, active_extensions, new_extension,
}

filter-append :
    {A : Type 0} (p : A → Bool) (l : List A) (x : A)
    → p x ≡ true
    → filter p (filter p l ++ x ∷ []) ≡ filter p l ++ x ∷ []
filter-append p [] x h = rw h refl
filter-append p (y ∷ l) x h = elim (Bool-cases (p y)) [
  | inl kept ↦ rw kept (rw kept (ap (λ r. y ∷ r) (filter-append p l x h)))
  | inr dropped ↦ rw dropped (filter-append p l x h)
]

all-filter :
    {A : Type 0} (p : A → Bool) (l : List A) (x : A)
    → p x ≡ true
    → all p (filter p l ++ x ∷ []) ≡ true
all-filter p [] x h = rw h refl
all-filter p (y ∷ l) x h = elim (Bool-cases (p y)) [
  | inl kept ↦ rw kept (rw kept (all-filter p l x h))
  | inr dropped ↦ rw dropped (all-filter p l x h)
]

-- The first list decides a request that one of its extensions takes.
route-append :
    (path : Text) (l m : List ProxyExtensionRef)
    → route path (l ++ m) ≡ (if any (takes path) l then route path l else route path m)
unfolding route
route-append path [] m = refl
route-append path (d ∷ l) m = elim (Bool-cases (takes path d)) [
  | inl taken ↦ rw taken refl
  | inr passed ↦ rw passed (route-append path l m)
]

-- A registration by a reference that is held leaves no reference registered that is gone; every
-- request that a registered extension took goes where it went, and a request that none took goes to
-- the new extension, if it takes it.
pub route-new_extension :
    (path : Text) (e : ProxyExtensionRef) (proxy : Proxy)
    → e.held ≡ true
    → (all (λ r. r.held) (new_extension e proxy).registered_extensions ≡ true)
      × (route path (active_extensions (new_extension e proxy)) ≡ (
          if any (takes path) (active_extensions proxy)
          then route path (active_extensions proxy)
          else if takes path e
          then some e
          else none))
unfolding active_extensions new_extension route
route-new_extension path e proxy h = (
  all-filter (λ r. r.held) proxy.registered_extensions e h,
  ap (route path) (filter-append (λ r. r.held) proxy.registered_extensions e h)
      ∙ route-append path (filter (λ r. r.held) proxy.registered_extensions) (e ∷ []),
)

takes_below :
    (a b : ProxyExtensionRef) (rest more : Text)
    → a.alive ≡ true
    → a.enabled ≡ true
    → b.id ≡ a.id ++ more
    → takes (extension_path b ++ rest) a ≡ true
takes_below a b rest more alive enabled longer =
    let below : is_prefix a.id (b.id ++ rest) ≡ true =
      subst (λ t. is_prefix a.id t ≡ true)
        (sym (append_assoc a.id more rest) ∙ ap (λ t. t ++ rest) (sym longer))
        (is_prefix-append a.id (more ++ rest)) in
    rw (alive, below, enabled) refl

-- Where the id of an extension begins with the id of one that is alive and enabled and was
-- registered before it, a request below its path never reaches it: it goes to an extension registered
-- before the one with the shorter id, where one of those takes it, and otherwise to that one.
pub route_shared_prefix :
    (front middle back : List ProxyExtensionRef) (a b : ProxyExtensionRef) (rest more : Text)
    → a.alive ≡ true
    → a.enabled ≡ true
    → b.id ≡ a.id ++ more
    → route (extension_path b ++ rest) (front ++ a ∷ (middle ++ b ∷ back)) ≡ (
        if any (takes (extension_path b ++ rest)) front
        then route (extension_path b ++ rest) front
        else some a)
unfolding route
route_shared_prefix front middle back a b rest more alive enabled longer =
    let path = extension_path b ++ rest in
    let taken : takes path a ≡ true = takes_below a b rest more alive enabled longer in
    let head : route path (a ∷ (middle ++ b ∷ back)) ≡ some a = rw taken refl in
    route-append path front (a ∷ (middle ++ b ∷ back))
    ∙ ap (λ r. if any (takes path) front then route path front else r) head
