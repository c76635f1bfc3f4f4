-- ===== src/Tests/StoreExamples.antt =====
-- The theorems on accounts, byte ranges and the registry of caches at concrete inputs.
use dion_runtime.Base.{
  ◌≡◌, refl, ◌==◌, none, some, [], ◌∷◌, arith, string_eq, ok, err, codes, subst, false, is_blank,
  List, Text, Result, list_eq, nat_eq, if◌then◌else◌,
}
use dion_runtime.Client.{Client, Codec, Fault, json_fault, ReadsBack}
use dion_runtime.Auth.{Account, AuthCreds, AuthData}
use dion_runtime.Auth.Store as Auth
use dion_runtime.Auth.Merges.{get_account-merge_auth, MergesInto}
use dion_runtime.Auth.Reload.{reload_accounts}
use dion_runtime.Base.Decimal.{parse_u64, parse_digits}
use dion_runtime.RangeFile.Range.{parse_range}
use dion_runtime.RangeFile.Parses.{Within, parse_range-Within}
use dion_runtime.RangeFile.Reads.{Request, header_of, Satisfies, parse_range-Satisfies}
use dion_runtime.Cache.Types.{CachePolicy}
use dion_runtime.Cache.Handle.{validate_name}
use dion_runtime.Cache.Manager.{CacheManager, open_cache, Opens, open_cache-Opens}
use dion_runtime.Tests.MemoryClient.{memory_client, memory-IsPersistent}

abbrev site : Account
site = record {
  domain = "a.org";
  user_name = none;
  cover = none;
  auth = AuthData.api_key;
  creds = some (AuthCreds.api_key "secret");
}

abbrev redefined : Account
redefined = record {
  domain = "a.org";
  user_name = some "me";
  cover = none;
  auth = AuthData.user_pass;
  creds = none;
}

abbrev accounts : Auth.AuthStore
accounts = record { accounts = site ∷ [] }

get_account-merge_auth_example :
    MergesInto redefined
      (Auth.get_account "a.org" accounts.accounts)
      (Auth.get_account "a.org" (Auth.merge_auth accounts redefined).accounts)
      (redefined.domain == "a.org")
get_account-merge_auth_example = get_account-merge_auth accounts redefined "a.org"

abbrev client : Client (Unit {0})
client = memory_client Unit

-- A codec of the accounts above and of no accounts.
abbrev put : List Account → Result Fault Text
put [] = ok (codes "[]")
put (a ∷ []) = if a.domain == "a.org" then ok (codes "[a.org]") else err json_fault
put _ = err json_fault

abbrev parse : Text → Result Fault (List Account)
parse t =
    if t == codes "[]"
    then ok []
    else if t == codes "[a.org]"
    then ok accounts.accounts
    else err json_fault

abbrev codec : Codec (List Account)
codec = record { to_string = put; from_str = parse }

accounts-ReadsBack : ReadsBack codec accounts.accounts
accounts-ReadsBack = record {
  read_back = λ t e.
      let w : codes "[a.org]" ≡ t = cc e in subst (λ u. parse u ≡ ok accounts.accounts) w refl;
  not_blank = λ t e. let w : codes "[a.org]" ≡ t = cc e in subst (λ u. is_blank u ≡ false) w refl;
}

accounts_saved : (Auth.save_state client codec accounts []).0 ≡ ok tt
unfolding Auth.save_state
accounts_saved = refl

reload_accounts_example :
    Auth.new client codec (Auth.save_state client codec accounts []).1 ≡ accounts
reload_accounts_example =
    reload_accounts client codec accounts [] (memory-IsPersistent Unit) accounts-ReadsBack
      accounts_saved

parse_range-Within_example : Within 1000 (parse_range (some (codes "bytes=-100")) 1000)
parse_range-Within_example = parse_range-Within (some (codes "bytes=-100")) 1000

parse_range-Satisfies_example :
    Satisfies
      (Request.from_to 900 2000)
      1000
      (parse_range (some (header_of (Request.from_to 900 2000))) 1000)
parse_range-Satisfies_example =
    parse_range-Satisfies (Request.from_to 900 2000) 1000 (omega arith, omega arith)

abbrev small : CachePolicy
small = record { default_ttl = none; max_entries = some 2; max_bytes = none }

abbrev large : CachePolicy
large = record { default_ttl = none; max_entries = none; max_bytes = none }

-- A cache that is open already, with a clock that has ticked.
abbrev manager : CacheManager
manager = record { handles = ("covers", record { policy = large; index = none; clock = 7 }) ∷ [] }

cache_opened : (open_cache "covers" small manager).0 ≡ ok tt
unfolding open_cache validate_name
cache_opened = refl

open_cache-Opens_example : Opens "covers" small manager (open_cache "covers" small manager).1
open_cache-Opens_example = open_cache-Opens "covers" small manager cache_opened

-- Headers, against 1000 bytes.
parse_range_examples :
    (parse_range (some (codes "bytes=100-200")) 1000
      ≡ some (some (record { start = 100; end = 200 })))
    × (parse_range (some (codes "bytes=-100")) 1000
        ≡ some (some (record { start = 900; end = 999 })))
    × (parse_range (some (codes "bytes=999-99999,1-2")) 1000
        ≡ some (some (record { start = 999; end = 999 })))
    × (parse_range (some (codes "bytes=5-1")) 1000 ≡ none)
    × (parse_range (some (codes "bytes=-0")) 1000 ≡ some none)
unfolding parse_range parse_u64 parse_digits
parse_range_examples = (refl, refl, refl, refl, refl)
