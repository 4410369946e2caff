-- ===== src/Security/AccessPolicy.antt =====
-- apps/auth/src/security/access-policy.ts: account states, recency of a second factor, and the
-- claims of an access token. Instants are milliseconds since the epoch; a value that
-- `new Date(value)` cannot read is `invalid`, whose `getTime()` is NaN.
pub mod Claims
pub mod Privileged
use rsp_website.Prelude.{
  ℕ, ◌-◌, ◌*◌, String, Bool, true, false, not, ◌&&◌, ◌||◌, Option, none, some, List, ltb, leb,
  if◌then◌else◌, or_default, includes, str_eq,
}

pub data AccountState : Type 0 where
  active suspended deletion_pending deleted : AccountState

pub data AccessPolicyError : Type 0 where
  email_not_verified account_suspended account_deletion_pending account_deleted : AccessPolicyError

-- `string | Date` as `new Date` reads it
pub data Moment : Type 0 where
  invalid : Moment
  at_ms : ℕ → Moment

pub record AuthUserForClaims : Type 0 where
  pub id : String
  pub email_verified : Bool
  pub account_state : Option AccountState
  pub security_version : Option ℕ

pub record AuthSessionForClaims : Type 0 where
  pub id : String
  pub mfa_verified_at : Option Moment

pub record RspAccessClaims : Type 0 where
  pub auth_user_id : String
  pub session_id : String
  pub email_verified : Bool
  pub account_state : AccountState
  pub security_version : ℕ
  pub mfa_verified : Bool
  pub mfa_verified_at : Option ℕ

-- `invalid_time` is the RangeError of `toISOString` on an invalid date
pub data ClaimsResult : Type 0 where
  claims : RspAccessClaims → ClaimsResult
  denied : AccessPolicyError → ClaimsResult
  invalid_time : ClaimsResult

-- `none` is null, undefined or the empty string
unfoldable pub is_mfa_recent : Option Moment → ℕ → ℕ → Bool
is_mfa_recent none now max_age = false
is_mfa_recent (some invalid) now max_age = false
is_mfa_recent (some (at_ms t)) now max_age =
    if ltb now t then false else leb (now - t) (max_age * 1000)

-- The claims once the account is known to be active.
unfoldable pub active_claims :
    AuthUserForClaims → AuthSessionForClaims → Bool → Option Moment → ClaimsResult
active_claims user session recent (some invalid) = invalid_time
active_claims user session recent (some (at_ms t)) = claims (record {
  auth_user_id = user.id;
  session_id = session.id;
  email_verified = true;
  account_state = active;
  security_version = or_default user.security_version 1;
  mfa_verified = recent;
  mfa_verified_at = some t;
})
active_claims user session recent none = claims (record {
  auth_user_id = user.id;
  session_id = session.id;
  email_verified = true;
  account_state = active;
  security_version = or_default user.security_version 1;
  mfa_verified = recent;
  mfa_verified_at = none;
})

-- the table `errors` of the states that are not active
unfoldable pub state_claims : AccountState → ClaimsResult → ClaimsResult
state_claims active result = result
state_claims suspended result = denied account_suspended
state_claims deletion_pending result = denied account_deletion_pending
state_claims deleted result = denied account_deleted

unfoldable pub build_access_claims : AuthUserForClaims → AuthSessionForClaims → ℕ → ℕ → ClaimsResult
unfolding active_claims state_claims is_mfa_recent
build_access_claims user session now max_age =
    if not user.email_verified
    then denied email_not_verified
    else state_claims (or_default user.account_state active) (
        active_claims user session (is_mfa_recent session.mfa_verified_at now max_age)
          session.mfa_verified_at)

-- `seasonRole === 'coordinator'`, false where it is undefined
abbrev is_role : Option String → String → Bool
is_role none r = false
is_role (some s) r = str_eq s r

pub requires_recent_mfa : List String → Option String → Bool
requires_recent_mfa global_roles season_role =
    includes global_roles "director"
    || includes global_roles "system_admin"
    || is_role season_role "coordinator"

pub can_perform_privileged_action : List String → Option String → Option Moment → ℕ → ℕ → Bool
can_perform_privileged_action global_roles season_role verified_at now max_age =
    if not (requires_recent_mfa global_roles season_role)
    then true
    else is_mfa_recent verified_at now max_age
