-- ===== src/Server/InternalApi.antt =====
-- The internal API of the auth service, called by the backend (apps/auth/src/server.ts,
-- `internalUserRoute` and `handleInternal`). The schemas of zod, `decodeURIComponent`, URL parsing,
-- the signed link and the two functions that fold case are parameters.
pub mod Guards
pub mod Effects
use rsp_website.Prelude.{
  ℕ, ◌+◌, ◌*◌, String, Bool, true, false, not, ◌&&◌, ◌||◌, Option, none, some, List, [], ◌∷◌, map,
  ltb, ◌==◌, if◌then◌else◌, str_eq, length, codes, Text, text_eq, find_row, some_of,
}
use rsp_website.Prelude.Texts.{strip_prefix}
use rsp_website.Security.AccessPolicy.{AccountState, active}
use rsp_website.Security.ServiceToken.{has_valid_service_token}
use rsp_website.Email.Templates.{verification_email}
use rsp_website.Lifecycle.Store.{Db, User, SessionRevocationReason, EmailMessage}
use rsp_website.Lifecycle.Tx.{Tx, Result, ok, err, pure, gets, ◌>>=◌, ◌>>◌, modify}
use rsp_website.Lifecycle.Outbox.{Attempt, queue_email}
use rsp_website.Lifecycle.Statements.{Call, of_user}
use rsp_website.Lifecycle.Service.{revoke_sessions, SuspensionOptions, set_suspended}
use rsp_website.Lifecycle.Deletion.{DeletionRequest, request_deletion_of, cancel_deletion_of}
use rsp_website.Lifecycle.Erasure.{pseudonymize_of}

pub data Action : Type 0 where
  revoke_action state_action mfa_state_action email_change_action : Action
  deletion_action deletion_cancel_action pseudonymize_action : Action

pub record Route : Type 0 where
  pub auth_user_id : String
  pub action : Action

-- the alternatives of the last segment
pub action_of : Text → Option Action
action_of name =
    if text_eq name (codes "revoke-sessions")
    then some revoke_action
    else if text_eq name (codes "state")
    then some state_action
    else if text_eq name (codes "mfa-state")
    then some mfa_state_action
    else if text_eq name (codes "email-change")
    then some email_change_action
    else if text_eq name (codes "deletion")
    then some deletion_action
    else if text_eq name (codes "deletion-cancel")
    then some deletion_cancel_action
    else if text_eq name (codes "pseudonymize")
    then some pseudonymize_action
    else none

-- `([^/]+)\/(…)`: the text up to the first slash, and the text behind it
pub split_segment : Text → Option (Text × Text)
split_segment [] = none
split_segment (c ∷ cs) =
    let rest = split_segment cs in
    if c == b'/' then some ([], cs) else elim rest [ none ↦ none | some p ↦ some (c ∷ p.0, p.1) ]

named_route : Action → Option String → Option Route
named_route a none = none
named_route a (some uid) = some (record { auth_user_id = uid; action = a })

route_of : (Text → Option String) → Text → Option Action → Option Route
unfolding named_route
route_of decode [] a = none
route_of decode (c ∷ cs) none = none
route_of decode (c ∷ cs) (some a) = named_route a (decode (c ∷ cs))

route_of_parts : (Text → Option String) → Option (Text × Text) → Option Route
unfolding route_of action_of
route_of_parts decode none = none
route_of_parts decode (some (segment, name)) = route_of decode segment (action_of name)

unfoldable pub route_of_rest : (Text → Option String) → Option Text → Option Route
unfolding route_of_parts split_segment
route_of_rest decode none = none
route_of_rest decode (some rest) = route_of_parts decode (split_segment rest)

-- `decode` is `decodeURIComponent`, none where it throws
unfoldable pub internal_user_route : (Text → Option String) → Text → Option Route
unfolding route_of_rest
internal_user_route decode pathname =
    route_of_rest decode (strip_prefix (codes "/internal/auth/users/") pathname)

-- `sendProblem`, `sendJson` and an empty `send`, with what they carry
pub data Reply : Type 0 where
  problem : ℕ → String → Reply
  queued : Reply
  configured : Bool → Reply
  revoked : ℕ → Reply
  no_content : Reply

pub record EmailChange : Type 0 where
  pub email : String
  pub delivery_id : String

pub record StateChange : Type 0 where
  pub suspended : Bool
  pub reason : String
  pub actor_user_id : String

pub record DeletionBody : Type 0 where
  pub recovery_url : Text
  pub recovery_deadline : ℕ

-- The body of the request as each schema reads it; none where it does not match.
pub record Body : Type 0 where
  pub email_change : Option EmailChange
  pub revocation : Option SessionRevocationReason
  pub state : Option StateChange
  pub deletion : Option DeletionBody

pub data Method : Type 0 where
  get_method post_method other_method : Method

pub record Request : Type 0 where
  pub method : Method
  pub authorization : Option Text
  pub body : Body
  -- `Date.now()`
  pub received_at : ℕ

-- what the operations draw from outside while the request is handled
pub record Draws : Type 0 where
  pub call : Call
  pub token : Text
  pub token_id : String
  pub email_id : String
  pub email_attempt : Attempt

pub record Env : Type 0 where
  pub hash : Text → String
  pub add_token : Text → Text → Text
  pub iso : ℕ → Text
  pub origin_of : Text → Text  -- `new URL(url).origin`
  pub to_lower_case : String → String
  pub db_lower : String → String  -- `lower` of the database
  pub verify_link : String → String → Text
  pub service_token : Text
  pub trusted_origins : List Text

abbrev pub invalid_request : Reply
invalid_request = problem 400 "invalid_request"

-- `account_state='active' AND email_verified=true`
is_verified_active : String → User → Bool
is_verified_active uid u =
    of_user uid u && u.email_verified && elim (u.account_state) [ active ↦ true | _ ↦ false ]

is_active_user : String → User → Bool
is_active_user uid u = of_user uid u && elim (u.account_state) [ active ↦ true | _ ↦ false ]

unfoldable pub change_email : Env → String → EmailChange → Draws → Option User → Bool → Tx Reply
change_email env new_email e d none in_use = pure (problem 404 "auth_user_not_found")
change_email env new_email e d (some u) true = pure (problem 409 "email_in_use")
change_email env new_email e d (some u) false = do
  modify (
      queue_email e.delivery_id
        (record (verification_email new_email (env.verify_link u.email new_email)) {
          subject = codes "Verify your new RSP email address";
        })
        d.call.now)
  pure queued

unfoldable pub handle_email_change : Env → String → Option EmailChange → Draws → Tx Reply
unfolding change_email is_verified_active
handle_email_change env uid none d = pure invalid_request
handle_email_change env uid (some e) d = do
  current ← gets (λ db. find_row (is_verified_active uid) db.users)
  in_use ←
      gets (λ db. some_of (λ u. str_eq (env.db_lower u.email) (env.to_lower_case e.email)) db.users)
  change_email env (env.to_lower_case e.email) e d current in_use

mfa_reply : Option User → Reply
mfa_reply none = problem 404 "auth_user_not_found"
mfa_reply (some u) = configured u.two_factor_enabled

unfoldable pub handle_mfa_state : String → Tx Reply
unfolding mfa_reply is_active_user
handle_mfa_state uid = gets (λ db. mfa_reply (find_row (is_active_user uid) db.users))

unfoldable pub handle_revoke : String → Option SessionRevocationReason → Draws → Tx Reply
handle_revoke uid none d = pure invalid_request
handle_revoke uid (some reason) d = do n ← revoke_sessions uid reason d.call; pure (revoked n)

unfoldable pub handle_state : String → Option StateChange → Draws → Tx Reply
handle_state uid none d = pure invalid_request
handle_state uid (some s) d = do
  set_suspended uid s.suspended
      (record { reason = some s.reason; actor_user_id = some s.actor_user_id }) d.call
  pure no_content

abbrev pub day_ms : ℕ
day_ms = 86400000

unfoldable pub request_of : String → DeletionBody → Draws → DeletionRequest
request_of uid b d = record {
  auth_user_id = uid;
  recovery_url = b.recovery_url;
  recovery_deadline = b.recovery_deadline;
  token = d.token;
  token_id = d.token_id;
  email_id = d.email_id;
  email_attempt = d.email_attempt;
}

-- The code subtracts; here what is subtracted stands on the other side.
unfoldable pub handle_deletion : Env → String → Option DeletionBody → ℕ → Draws → Tx Reply
unfolding request_of
handle_deletion env uid none received_at d = pure invalid_request
handle_deletion env uid (some b) received_at d =
    if not (some_of (text_eq (env.origin_of b.recovery_url)) env.trusted_origins)
    then pure (problem 400 "invalid_recovery_url")
    else if ltb b.recovery_deadline (received_at + 29 * day_ms)
        || ltb (received_at + 31 * day_ms) b.recovery_deadline
    then pure (problem 400 "invalid_recovery_deadline")
    else do
      request_deletion_of env.hash env.add_token env.iso (request_of uid b d) d.call
      pure no_content

abbrev pub is_expected : Action → Method → Bool
is_expected mfa_state_action get_method = true
is_expected mfa_state_action _ = false
is_expected _ post_method = true
is_expected _ _ = false

unfoldable pub dispatch : Env → Route → Request → Draws → Tx Reply
unfolding handle_email_change handle_mfa_state handle_revoke handle_state handle_deletion
dispatch env route request d = elim (route.action) [
  | email_change_action ↦ handle_email_change env route.auth_user_id request.body.email_change d
  | mfa_state_action ↦ handle_mfa_state route.auth_user_id
  | revoke_action ↦ handle_revoke route.auth_user_id request.body.revocation d
  | state_action ↦ handle_state route.auth_user_id request.body.state d
  | deletion_action ↦
      handle_deletion env route.auth_user_id request.body.deletion request.received_at d
  | deletion_cancel_action ↦ do cancel_deletion_of route.auth_user_id d.call; pure no_content
  | pseudonymize_action ↦ do pseudonymize_of route.auth_user_id d.call; pure no_content
]

abbrev pub is_bad_id : String → Bool
is_bad_id uid = str_eq uid "" || ltb 200 (length (codes uid))

unfoldable pub handle_internal : Env → Route → Request → Draws → Tx Reply
unfolding dispatch
handle_internal env route request d =
    if not (is_expected route.action request.method)
    then pure (problem 405 "method_not_allowed")
    else if not (has_valid_service_token request.authorization env.service_token)
    then pure (problem 401 "invalid_service_token")
    else if is_bad_id route.auth_user_id
    then pure (problem 400 "invalid_auth_user_id")
    else dispatch env route request d
