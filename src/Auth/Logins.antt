-- ===== src/Auth/Logins.antt =====
-- What merging an account and invalidating a domain do to the logins of rust/core/src/store/auth.rs.
use dion_runtime.Base.{
  ◌≡◌, refl, Bool, not, ◌&&◌, ◌||◌, Option, none, some, List, [], ◌∷◌, arith, String, ◌==◌,
  string_eq, any, any-append, Bool-cases, inl, inr,
}
use dion_runtime.Auth.{Account, auth_eq}
use dion_runtime.Auth.Store.{
  AuthStore, or_else, is_some, merged, merge_all, merge_auth, is_logged_in, invalidate_all,
  invalidate,
}
use dion_runtime.Auth.Merges.{merged_creds, merged_domain}

abbrev logs_in : String → Account → Bool
logs_in domain acc = acc.domain == domain && is_some acc.creds

is_some-or_else : {A : Type 0} (a b : Option A) → is_some (or_else a b) ≡ (is_some a || is_some b)
is_some-or_else none b = refl
is_some-or_else (some a) b = refl

logs_in-merged :
    (account acc : Account) (domain : String)
    → acc.domain ≡ account.domain
    → logs_in domain (merged account acc) ≡ (logs_in domain acc || logs_in domain account)
logs_in-merged account acc domain same = ground (
  arith,
  merged_creds account acc,
  merged_domain account acc same,
  is_some-or_else account.creds acc.creds,
)

either : (a b c d : Bool) → ((a || c) || (b || (d && c))) ≡ ((a || b) || c)
either a b c d = ground arith

merge_all-logs_in :
    (account : Account) (domain : String) (l : List Account)
    → any (logs_in domain) (merge_all account l) ≡ (
        any (logs_in domain) l
        || (any (λ acc. acc.domain == account.domain) l && logs_in domain account))
unfolding merge_all
merge_all-logs_in account domain [] = refl
merge_all-logs_in account domain (acc ∷ l) = elim (Bool-cases (acc.domain == account.domain)) [
  | inl same ↦
      let equal : acc.domain ≡ account.domain =
        ground (arith, string_eq.beq_iff acc.domain account.domain) in
      rw (same, logs_in-merged account acc domain equal, merge_all-logs_in account domain l)
        (either (logs_in domain acc) (any (logs_in domain) l) (logs_in domain account)
          (any (λ acc. acc.domain == account.domain) l))
  | inr other ↦ rw other (ground (arith, merge_all-logs_in account domain l))
]

-- After an account was merged, a domain is logged in if it was before, or if it is the account's and
-- the account has credentials; a merge never logs a domain out.
pub is_logged_in-merge_auth :
    (s : AuthStore) (account : Account) (domain : String)
    → is_logged_in (merge_auth s account) domain
      ≡ (is_logged_in s domain || (account.domain == domain && is_some account.creds))
unfolding is_logged_in merge_auth
is_logged_in-merge_auth s account domain =
    elim (Bool-cases (any (λ acc. acc.domain == account.domain) s.accounts)) [
      | inl old ↦ rw old (ground (arith, merge_all-logs_in account domain s.accounts))
      | inr new ↦ rw new (ground (arith, any-append (logs_in domain) s.accounts (account ∷ [])))
    ]

invalidate_all-logs_in :
    (domain other : String) (l : List Account)
    → any (logs_in other) (invalidate_all domain l)
      ≡ (not (domain == other) && any (logs_in other) l)
unfolding invalidate_all
invalidate_all-logs_in domain other [] = ground arith
invalidate_all-logs_in domain other (acc ∷ l) = ground (
  arith,
  invalidate_all-logs_in domain other l,
  string_eq.beq_iff domain other,
  string_eq.beq_iff acc.domain domain,
  string_eq.beq_iff acc.domain other,
)

-- After a domain was invalidated it is logged out, and every other domain is as it was.
pub is_logged_in-invalidate :
    (s : AuthStore) (domain other : String)
    → is_logged_in (invalidate s domain) other ≡ (not (domain == other) && is_logged_in s other)
unfolding is_logged_in invalidate
is_logged_in-invalidate s domain other = invalidate_all-logs_in domain other s.accounts
