-- ===== src/Auth/Store.antt =====
-- rust/core/src/store/auth.rs: the accounts that an extension has defined and their credentials.
use dion_runtime.Base.{
  Bool, true, false, not, ◌&&◌, Option, none, some, List, [], ◌∷◌, ◌++◌, String, ◌==◌, string_eq,
  any, Result, ok, err, is_blank, if◌then◌else◌,
}
use dion_runtime.Client.{Client, Codec, Fault}
use dion_runtime.Auth.{Account, auth_eq}

pub record AuthStore : Type 0 where
  pub accounts : List Account

-- `Option::or_else` and `Option::is_some`
abbrev pub or_else {ℓ} : {A : Type ℓ} → Option A → Option A → Option A
or_else none b = b
or_else (some a) b = some a

abbrev pub is_some {ℓ} : {A : Type ℓ} → Option A → Bool
is_some none = false
is_some (some a) = true

-- `get_mut`: the account of a domain that the caller may change.
unfoldable pub get_account : String → List Account → Option Account
get_account domain [] = none
get_account domain (acc ∷ accounts) =
    let rest = get_account domain accounts in if acc.domain == domain then some acc else rest

abbrev pub with_creds : Account → Account → Account
with_creds account acc =
    if not (acc.auth == account.auth)
    then record account { creds = or_else account.creds acc.creds }
    else record acc { creds = or_else account.creds acc.creds }

-- What the closure of `merge_auth` makes of an account of the domain.
unfoldable pub merged : Account → Account → Account
merged account acc =
    let acc1 = with_creds account acc in
    record acc1 {
      cover = or_else account.cover acc1.cover;
      user_name = or_else account.user_name acc1.user_name;
    }

unfoldable pub merge_all : Account → List Account → List Account
unfolding merged
merge_all account [] = []
merge_all account (acc ∷ accounts) =
    (if acc.domain == account.domain then merged account acc else acc) ∷ merge_all account accounts

unfoldable pub merge_auth : AuthStore → Account → AuthStore
unfolding merge_all
merge_auth s account =
    if not (any (λ acc. acc.domain == account.domain) s.accounts)
    then record s { accounts = s.accounts ++ account ∷ [] }
    else record s { accounts = merge_all account s.accounts }

unfoldable pub is_logged_in : AuthStore → String → Bool
is_logged_in s domain = any (λ acc. acc.domain == domain && is_some acc.creds) s.accounts

unfoldable pub invalidate_all : String → List Account → List Account
invalidate_all domain [] = []
invalidate_all domain (acc ∷ accounts) =
    (if acc.domain == domain then record acc { creds = none } else acc)
    ∷ invalidate_all domain accounts

unfoldable pub invalidate : AuthStore → String → AuthStore
unfolding invalidate_all
invalidate s domain = record s { accounts = invalidate_all domain s.accounts }

module _ {P : Type 0} (client : Client P) (codec : Codec (List Account)) where
  open client use {Host, load_data_secure, store_data_secure}
  open codec use {to_string, from_str}

  unfoldable pub load_data : AuthStore → Host → Result Fault AuthStore
  load_data s host = elim (load_data_secure "auth" host) [
    | err e ↦ err e
    | ok text ↦ if is_blank text then ok s else elim (from_str text) [
      | err e ↦ err e
      | ok accounts ↦ ok (record s { accounts = accounts })
    ]
  ]

  -- A failed load leaves the store empty.
  unfoldable pub new : Host → AuthStore
  unfolding load_data
  new host =
      let ret : AuthStore = record { accounts = [] } in
      elim (load_data ret host) [ ok s ↦ s | err _ ↦ ret ]

  unfoldable pub persist : List Account → Host → Result Fault (Unit {0}) × Host
  persist accounts host = elim (to_string accounts) [
    | err e ↦ (err e, host)
    | ok text ↦ store_data_secure "auth" text host
  ]

  unfoldable pub save_state : AuthStore → Host → Result Fault (Unit {0}) × Host
  unfolding persist
  save_state s = persist s.accounts
