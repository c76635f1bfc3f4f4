-- ===== src/Auth/Merges.antt =====
-- What merging an account makes of the accounts of rust/core/src/store/auth.rs.
use dion_runtime.Base.{
  ◌≡◌, refl, Bool, true, false, Option, none, some, List, [], ◌∷◌, ◌++◌, arith, String, ◌==◌,
  string_eq, any, Bool-cases, inl, inr, if◌then◌else◌, ◌∙◌,
}
use dion_runtime.Auth.{Account, auth_eq}
use dion_runtime.Auth.Store.{
  AuthStore, or_else, is_some, with_creds, merged, merge_all, merge_auth, get_account,
}

abbrev merge_of : Account → Option Account → Account
merge_of account none = account
merge_of account (some acc) = merged account acc

abbrev merged_found : Account → Option Account → Option Account
merged_found account none = none
merged_found account (some acc) = some (merged account acc)

pub merged_creds :
    (account acc : Account) → (merged account acc).creds ≡ or_else account.creds acc.creds
unfolding merged
merged_creds account acc = ground (arith)

pub merged_domain :
    (account acc : Account)
    → acc.domain ≡ account.domain
    → (merged account acc).domain ≡ account.domain
unfolding merged
merged_domain account acc h = ground (arith)

get_account-merge_all :
    (account : Account) (domain : String) (l : List Account)
    → get_account domain (merge_all account l) ≡ (
        if account.domain == domain
        then merged_found account (get_account domain l)
        else get_account domain l)
unfolding get_account merge_all
get_account-merge_all account domain [] = ground arith
get_account-merge_all account domain (acc ∷ l) =
    let ih = get_account-merge_all account domain l in
    elim (Bool-cases (acc.domain == account.domain)) [
      | inl same ↦
          let equal : acc.domain ≡ account.domain =
            ground (arith, string_eq.beq_iff acc.domain account.domain) in
          rw (same, merged_domain account acc equal, equal, ih) (ground arith)
      | inr other ↦
          rw (other, ih)
            (ground (
              arith,
              string_eq.beq_iff acc.domain account.domain,
              string_eq.beq_iff acc.domain domain,
              string_eq.beq_iff account.domain domain,
            ))
    ]

get_account-append :
    (domain : String) (l : List Account) (a : Account)
    → get_account domain (l ++ a ∷ [])
      ≡ or_else (get_account domain l) (if a.domain == domain then some a else none)
unfolding get_account
get_account-append domain [] a = refl
get_account-append domain (acc ∷ l) a = rw (get_account-append domain l a) (ground arith)

any-get_account :
    (domain : String) (l : List Account)
    → any (λ acc. acc.domain == domain) l ≡ is_some (get_account domain l)
unfolding get_account
any-get_account domain [] = refl
any-get_account domain (acc ∷ l) = ground (arith, any-get_account domain l)

found_some :
    (account : Account) (o : Option Account)
    → is_some o ≡ true
    → merged_found account o ≡ some (merge_of account o)
found_some account none h = absurd (cc h)
found_some account (some acc) h = refl

missing : {A : Type 0} (o : Option A) → is_some o ≡ false → o ≡ none
missing none h = refl
missing (some a) h = absurd (cc h)

get_account-merge_auth_merged :
    (s : AuthStore) (account : Account) (domain : String)
    → get_account domain (merge_auth s account).accounts ≡ (
        if account.domain == domain
        then some (merge_of account (get_account domain s.accounts))
        else get_account domain s.accounts)
unfolding get_account merge_auth
get_account-merge_auth_merged s account domain =
    let l = s.accounts in
    elim (Bool-cases (any (λ acc. acc.domain == account.domain) l)) [
      | inl old ↦ rw old (
          get_account-merge_all account domain l
          ∙ ground (
            arith,
            string_eq.beq_iff account.domain domain,
            found_some account (get_account domain l),
            any-get_account domain l,
          ))
      | inr new ↦ rw new (
          get_account-append domain l account
          ∙ ground (
            arith,
            string_eq.beq_iff account.domain domain,
            missing (get_account domain l),
            any-get_account domain l,
          ))
    ]

-- What stands after `new` came to `old`: the new value, or the old one where there is no new one.
abbrev pub IsReplaced : {A : Type 0} → Option A → Option A → Option A → Type 0
IsReplaced none old r = r ≡ old
IsReplaced (some a) old r = r ≡ some a

-- What a merge makes of the account that a domain had, by whether the way to log in is the same. If
-- it is, the credentials, the picture and the name are replaced only by new ones. If it is not, the
-- account becomes the new one, which gets the old credentials if it has none.
abbrev pub IsMerged : Account → Account → Account → Bool → Type 0
IsMerged account old r true =
    (r.domain ≡ old.domain)
    × (r.auth ≡ old.auth)
    × IsReplaced account.creds old.creds r.creds
    × IsReplaced account.cover old.cover r.cover
    × IsReplaced account.user_name old.user_name r.user_name
IsMerged account old r false =
    (r.domain ≡ account.domain)
    × (r.auth ≡ account.auth)
    × IsReplaced account.creds old.creds r.creds
    × (r.cover ≡ account.cover)
    × (r.user_name ≡ account.user_name)

-- The same, where the domain may have had no account.
abbrev pub IsMergeOf : Account → Option Account → Account → Type 0
IsMergeOf account none r = r ≡ account
IsMergeOf account (some old) r = IsMerged account old r (old.auth == account.auth)

-- What a merge makes of a domain's account, by whether the domain is the account's.
abbrev pub MergesInto : Account → Option Account → Option Account → Bool → Type 0
MergesInto account old found true = (r : Account) × (found ≡ some r) × IsMergeOf account old r
MergesInto account old found false = found ≡ old

or_else-IsReplaced : {A : Type 0} (a b : Option A) → IsReplaced a b (or_else a b)
or_else-IsReplaced none b = refl
or_else-IsReplaced (some a) b = refl

or_else_self : {A : Type 0} (a : Option A) → or_else a a ≡ a
or_else_self none = refl
or_else_self (some a) = refl

merge_of-IsMergeOf :
    (account : Account) (o : Option Account) → IsMergeOf account o (merge_of account o)
unfolding merged
merge_of-IsMergeOf account none = refl
merge_of-IsMergeOf account (some acc) = elim (Bool-cases (acc.auth == account.auth)) [
  | inl same ↦
      rw (merge_of, with_creds, same)
        (
          refl,
          refl,
          or_else-IsReplaced account.creds acc.creds,
          or_else-IsReplaced account.cover acc.cover,
          or_else-IsReplaced account.user_name acc.user_name,
        )
  | inr other ↦
      rw (merge_of, with_creds, other)
        (
          refl,
          refl,
          or_else-IsReplaced account.creds acc.creds,
          or_else_self account.cover,
          or_else_self account.user_name,
        )
]

merged_or_kept :
    (account : Account) (old found : Option Account) (same : Bool)
    → found ≡ (if same then some (merge_of account old) else old)
    → MergesInto account old found same
merged_or_kept account old found true e = (merge_of account old, e, merge_of-IsMergeOf account old)
merged_or_kept account old found false e = e

-- After an account was merged, its domain has the account itself if it had none. Otherwise it has the
-- first account that it had, with the credentials, the picture and the name of the new account where
-- this has them; or, where the way to log in is another one, the new account, with the credentials of
-- the old one if it has none. Every other domain has the account it had.
pub get_account-merge_auth :
    (s : AuthStore) (account : Account) (domain : String)
    → MergesInto account
        (get_account domain s.accounts)
        (get_account domain (merge_auth s account).accounts)
        (account.domain == domain)
get_account-merge_auth s account domain =
    merged_or_kept account (get_account domain s.accounts)
      (get_account domain (merge_auth s account).accounts) (account.domain == domain)
      (get_account-merge_auth_merged s account domain)
