-- ===== src/Lifecycle/Hooks.antt =====
-- The hooks that Better Auth calls while it handles a request (apps/auth/src/auth.ts). What Better
-- Auth does to the tables by itself is the record `Adapter`; the random part of an identifier and
-- the reading of a token's JSON part are parameters.
pub mod Sessions
pub mod Emails
use mathlib.Core.Option
use rsp_website.Prelude.{
  ℕ, ◌+◌, ◌*◌, String, Bool, true, false, not, ◌&&◌, ◌||◌, Option, none, some, List, [], ◌∷◌, ◌++◌,
  if◌then◌else◌, str_eq, codes, Text, text_eq, find_row,
}
use rsp_website.Security.AccessPolicy.{
  AccountState, active, at_ms, ClaimsResult, build_access_claims,
}
use rsp_website.Security.RateKey.{split_on}
use rsp_website.Lifecycle.Store.{
  Db, User, Session, Account, SessionRevocationReason, EventKind, auth_user_created, identity,
}
use rsp_website.Lifecycle.Tx.{
  Error, version_not_found, account_unavailable, session_not_found, Result, ok, err, Tx, pure,
  throw, gets, or_throw, ◌>>=◌, ◌>>◌, modify, throw_if, version_or_throw,
}
use rsp_website.Lifecycle.Outbox.{queue_identity_event}
use rsp_website.Lifecycle.Statements.{Call, find_user, event_of}
use rsp_website.Lifecycle.Service.{revoke_sessions, record_mfa_state}

-- `if (!version) throw …`
unfoldable pub current_security_version : String → Tx ℕ
unfolding find_user
current_security_version uid = do
  user ← gets (find_user uid)
  version_or_throw (Option.map (λ u. u.security_version) user) version_not_found

unfoldable pub is_mfa_completion_path : Option String → Bool
is_mfa_completion_path none = false
is_mfa_completion_path (some path) =
    str_eq path "/two-factor/verify-totp" || str_eq path "/two-factor/verify-backup-code"

abbrev pub is_active_row : Option User → Bool
is_active_row none = false
is_active_row (some u) = elim (u.account_state) [ active ↦ true | _ ↦ false ]

-- `databaseHooks.session.create.before`: the session as it is stored
unfoldable pub before_session_create : Option String → ℕ → Session → Tx Session
unfolding find_user is_mfa_completion_path
before_session_create path now s = do
  user ← gets (find_user s.user_id)
  throw_if (not (is_active_row user)) account_unavailable
  pure (record s { mfa_verified_at = if is_mfa_completion_path path then some now else none })

-- `WHERE sessions.id = $1 AND users.id = $2`, joined on the user of the session
abbrev pub is_session : String → String → Session → Bool
is_session sid uid s = str_eq s.id sid && str_eq s.user_id uid

unfoldable pub access_row : String → String → Db → Option (Session × User)
unfolding find_user
access_row sid uid db =
    Option.bind (find_row (is_session sid uid) db.sessions)
      λ s. Option.map (λ u. (s, u)) (find_user s.user_id db)

unfoldable pub claims_of : String → String → ℕ → ℕ → Session × User → ClaimsResult
claims_of sid uid now max_age (s, u) =
    build_access_claims
      (record {
        id = uid;
        email_verified = u.email_verified;
        account_state = some u.account_state;
        security_version = some u.security_version;
      })
      (record { id = sid; mfa_verified_at = Option.map at_ms s.mfa_verified_at }) now max_age

-- `definePayload`
unfoldable pub define_payload : String → String → ℕ → ℕ → Tx ClaimsResult
unfolding access_row claims_of
define_payload sid uid now max_age = do
  access ← or_throw (← gets (access_row sid uid)) session_not_found
  pure (claims_of sid uid now max_age access)

-- `databaseHooks.user.create.after`
unfoldable pub after_user_create : User → Call → Tx (Unit {0})
unfolding current_security_version
after_user_create u c = do
  version ← current_security_version u.id
  queue_identity_event c.event_id
      (event_of (auth_user_created u.email u.email_verified) u.id version c.now) false c.attempt

-- `databaseHooks.account.create.after`; the path and the user of the request's session
unfoldable pub after_account_create : Option String → Option String → Account → Call → Tx (Unit {0})
after_account_create (some path) (some linking_user) account c =
    if str_eq path "/callback/google"
      && str_eq account.provider_id "google"
      && str_eq linking_user account.user_id
    then revoke_sessions account.user_id SessionRevocationReason.provider_linked c >> pure tt
    else pure tt
after_account_create _ _ account c = pure tt

-- `onPasswordReset`
unfoldable pub on_password_reset : String → Call → Tx (Unit {0})
on_password_reset uid c = do revoke_sessions uid SessionRevocationReason.password_reset c; pure tt

-- the string members of a token's payload
pub record TokenPayload : Type 0 where
  pub request_type : Option Text
  pub update_to : Option Text

-- `token.split('.')[1]`, where it is not empty
unfoldable pub payload_part : List Text → Option Text
payload_part (header ∷ (c ∷ cs) ∷ _) = some (c ∷ cs)
payload_part _ = none

-- the branch `if (emailChangeCompleted)`
unfoldable pub announce_email_change : (id email : String) → Call → Call → Tx (Unit {0})
unfolding current_security_version
announce_email_change id email c d = do
  revoke_sessions id SessionRevocationReason.email_changed c
  version ← current_security_version id
  queue_identity_event d.event_id (event_of (EventKind.email_changed email) id version d.now) true
      d.attempt

unfoldable pub announce_verification : String → Call → Tx (Unit {0})
unfolding current_security_version
announce_verification id d = do
  version ← current_security_version id
  queue_identity_event d.event_id (event_of EventKind.email_verified id version d.now) false
      d.attempt

module _ (parse : Text → Option TokenPayload) where
  unfoldable pub decode_jwt_payload : Text → Option TokenPayload
  unfolding payload_part
  decode_jwt_payload token = Option.bind (payload_part (split_on b'.' token)) parse

  abbrev pub is_text : Option Text → Text → Bool
  is_text none t = false
  is_text (some s) t = text_eq s t

  unfoldable pub is_email_change : Option Text → String → Bool
  unfolding decode_jwt_payload
  is_email_change token address = elim (Option.bind token decode_jwt_payload) [
    | none ↦ false
    | some p ↦
        is_text p.request_type (codes "change-email-verification")
        && is_text p.update_to (codes address)
  ]

  -- `afterEmailVerification`; each of the two operations draws a call of its own
  unfoldable pub after_email_verification :
      Option Text → (id email : String) → Call → Call → Tx (Unit {0})
  unfolding is_email_change
  after_email_verification token id email c d =
      if is_email_change token email
      then announce_email_change id email c d
      else announce_verification id d

-- `securitySensitiveReasonByPath`
unfoldable pub sensitive_reason : String → Option SessionRevocationReason
sensitive_reason path =
    if str_eq path "/change-password"
    then some SessionRevocationReason.password_changed
    else if str_eq path "/two-factor/generate-backup-codes"
    then some SessionRevocationReason.mfa_changed
    else if str_eq path "/unlink-account"
    then some SessionRevocationReason.provider_linked
    else none

pub record SessionUser : Type 0 where
  pub id : String
  pub two_factor_enabled : Bool

pub record NewSession : Type 0 where
  pub token : String
  pub user : SessionUser

-- what the middleware reads of a request
pub record HookContext : Type 0 where
  pub path : String
  pub new_session : Option NewSession
  pub session_user : Option SessionUser
  pub failed : Bool  -- `returned instanceof Error`

-- `internalAdapter`; a verification value has an identifier, a value and its end
pub record Adapter : Type 0 where
  pub delete_session : String → Tx (Unit {0})
  pub create_verification : Text → String → ℕ → Tx (Unit {0})

-- The request goes on, where the Boolean says that the session cookie is deleted; or it is sent to
-- the second factor, with the identifier of its challenge.
pub data HookReply : Type 0 where
  proceeds : Bool → HookReply
  redirects : Text → HookReply

abbrev pub challenge_ms : ℕ
challenge_ms = 600000

unfoldable pub challenge_id : Text → Text
challenge_id random = codes "2fa-" ++ random

unfoldable pub challenge : Adapter → NewSession → Text → ℕ → Tx HookReply
unfolding challenge_id
challenge adapter s random now = do
  adapter.delete_session s.token
  adapter.create_verification (challenge_id random) s.user.id (now + challenge_ms)
  adapter.create_verification (codes "2fa-attempts-" ++ challenge_id random) "0"
      (now + challenge_ms)
  pure (redirects (challenge_id random))

unfoldable pub after_google : Adapter → Option NewSession → Text → ℕ → Tx HookReply
unfolding challenge
after_google adapter none random now = pure (proceeds false)
after_google adapter (some s) random now =
    if s.user.two_factor_enabled then challenge adapter s random now else pure (proceeds false)

unfoldable pub after_disable : HookContext → Call → Tx Bool
after_disable x c = elim (x.session_user) [
  | none ↦ pure false
  | some u ↦
      if str_eq x.path "/two-factor/disable" && not x.failed && u.two_factor_enabled
      then record_mfa_state u.id false c >> pure true
      else pure false
]

-- `reason && authUserId && …`; an empty ID counts as none
unfoldable pub revoke_for :
    Option SessionRevocationReason → Option SessionUser → Bool → Call → Tx (Unit {0})
revoke_for (some reason) (some u) false c =
    if str_eq u.id "" then pure tt else revoke_sessions u.id reason c >> pure tt
revoke_for _ _ failed c = pure tt

-- `authAfterHook`
unfoldable pub auth_after_hook : Adapter → HookContext → Text → Call → Tx HookReply
unfolding after_google after_disable revoke_for sensitive_reason
auth_after_hook adapter x random c =
    if str_eq x.path "/callback/google" then after_google adapter x.new_session random c.now else do
      cleared ← after_disable x c
      revoke_for (sensitive_reason x.path) x.session_user x.failed c
      pure (proceeds cleared)
