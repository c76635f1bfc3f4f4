-- ===== src/Auth.antt =====
-- rust/core/src/data/auth.rs: the accounts of an extension and their credentials.
pub mod Store
pub mod Merges
pub mod Logins
pub mod Reload
use dion_runtime.Base.{
  ℕ, ◌≡◌, ◌↔◌, refl, Bool, true, false, ◌&&◌, Option, List, arith, String, Eq, ◌==◌, string_eq,
  option_eq, option_beq_iff,
}

pub data AuthCreds : Type 0 where
  cookies : List (String × List String) → AuthCreds
  api_key : String → AuthCreds
  user_pass : String → String → AuthCreds
  o_auth : String → Option String → Option ℕ → AuthCreds

pub data AuthData : Type 0 where
  cookie : String → String → AuthData
  api_key user_pass : AuthData
  o_auth : String → Option String → String → String → Option String → AuthData

pub record Account : Type 0 where
  pub domain : String
  pub user_name : Option String
  pub cover : Option String
  pub auth : AuthData
  pub creds : Option AuthCreds

-- `#[derive(PartialEq)]`
abbrev auth_beq : AuthData → AuthData → Bool
auth_beq (cookie l o) (cookie m p) = l == m && o == p
auth_beq api_key api_key = true
auth_beq user_pass user_pass = true
auth_beq (o_auth u t i s c) (o_auth v r j q d) = u == v && t == r && i == j && s == q && c == d
auth_beq _ _ = false

pub auth_beq_iff : (a b : AuthData) → (auth_beq a b ≡ true) ↔ (a ≡ b)
auth_beq_iff (cookie l o) (cookie m p) =
    ground (arith, string_eq.beq_iff l m, string_eq.beq_iff o p)
auth_beq_iff (o_auth u t i s c) (o_auth v r j q d) = ground (
  arith,
  string_eq.beq_iff u v,
  option_beq_iff t r,
  string_eq.beq_iff i j,
  string_eq.beq_iff s q,
  option_beq_iff c d,
)
auth_beq_iff api_key api_key = ground arith
auth_beq_iff user_pass user_pass = ground arith
auth_beq_iff (cookie l o) api_key = ground arith
auth_beq_iff (cookie l o) user_pass = ground arith
auth_beq_iff (cookie l o) (o_auth v r j q d) = ground arith
auth_beq_iff api_key (cookie m p) = ground arith
auth_beq_iff api_key user_pass = ground arith
auth_beq_iff api_key (o_auth v r j q d) = ground arith
auth_beq_iff user_pass (cookie m p) = ground arith
auth_beq_iff user_pass api_key = ground arith
auth_beq_iff user_pass (o_auth v r j q d) = ground arith
auth_beq_iff (o_auth u t i s c) (cookie m p) = ground arith
auth_beq_iff (o_auth u t i s c) api_key = ground arith
auth_beq_iff (o_auth u t i s c) user_pass = ground arith

instance abbrev pub auth_eq : Eq AuthData
auth_eq = record { beq = auth_beq; beq_iff = auth_beq_iff }
