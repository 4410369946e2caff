-- ===== src/Server/Requests.antt =====
-- `handleRequest` of the auth service (apps/auth/src/server.ts): the checks in front of every
-- endpoint in their order, and what becomes of an error. Each write of the database succeeds; the
-- instants of one request are those of its arrival and of its operation. Logs and metrics are left out.
pub mod Checks
pub mod Origins
pub mod Limits
pub mod Freshness
pub mod Effects
use mathlib.Core.Option
use rsp_website.Prelude.{
  ℕ, String, Bool, true, false, not, ◌||◌, ◌&&◌, Option, none, some, List, [], ◌∷◌, if◌then◌else◌,
  codes, Text, text_eq, is_some, map,
}
use rsp_website.Prelude.Texts.{strip_prefix}
use rsp_website.Security.Linking.{
  Reason, LinkingDecision, allowed, refused, ExplicitLink, evaluate_explicit_link,
}
use rsp_website.Security.Origin.{OriginDecision, evaluate_browser_origin}
use rsp_website.Security.Origin
use rsp_website.Security.RateKey.{auth_rate_limit_policy, auth_rate_limit_key}
use rsp_website.Security.RateLimit.{Counters, RateLimitResult, consume}
use rsp_website.Security.ServiceToken.{has_valid_service_token}
use rsp_website.Email.Templates.{invitation_email}
use rsp_website.Lifecycle.Store.{Db}
use rsp_website.Lifecycle.Tx.{
  Result, ok, err, Error, invalid_url, Tx, pure, throw, gets, ◌>>=◌, ◌>>◌, modify,
}
use rsp_website.Lifecycle.Outbox.{queue_email}
use rsp_website.Lifecycle.Service.{record_mfa_state}
use rsp_website.Server.InternalApi.{
  Draws, Body, Request, Route, Method, problem, queued, invalid_request, internal_user_route,
  handle_internal,
}
use rsp_website.Server.Http.{
  Invitation, Json, HttpRequest, HttpReply, answer, live, ready, metrics, rate_limited, passed_on,
  WebResponse, AuthSession, HandlerCall, original, Library, HttpEnv, call_handler, method_of,
  read_body, parse_json_body, client_ip,
}
use rsp_website.Server.Endpoints.{
  extension, freshness, refusal, five_minutes_seconds, mark_mfa_session, is_post, not_allowed,
}

-- What the process keeps: the tables and the counters of the limiter.
pub record Server : Type 0 where
  pub db : Db
  pub counters : Counters

unfoldable pub send_invitation : HttpEnv → Option Invitation → ℕ → Tx HttpReply
send_invitation env none now = pure (answer invalid_request)
send_invitation env (some i) now =
    if not (text_eq (env.internal.origin_of i.url) (env.internal.origin_of env.base_url))
      || not (text_eq (env.pathname_of i.url) (codes "/invitations/accept"))
    then pure (answer invalid_request)
    else modify (queue_email i.id (invitation_email i.to i.name i.season i.role i.url) now)
      >> pure (answer queued)

abbrev pub invitation_in : Option Json → Option Invitation
invitation_in none = none
invitation_in (some j) = j.invitation

-- `POST /internal/auth/invitations`
unfoldable pub handle_invitation : HttpEnv → HttpRequest → Option Json → Draws → Tx HttpReply
unfolding send_invitation
handle_invitation env r json d =
    if not (has_valid_service_token r.authorization env.internal.service_token)
    then pure (answer (problem 401 "invalid_service_token"))
    else if not (is_post (method_of r.method))
    then pure not_allowed
    else send_invitation env (invitation_in json) d.call.now

-- a body that no schema matches
abbrev pub no_body : Body
no_body = record { email_change = none; revocation = none; state = none; deletion = none }

abbrev pub body_in : Option Json → Body
body_in none = no_body
body_in (some j) = j.body

unfoldable pub internal_request : HttpRequest → Option Json → Request
internal_request r json = record {
  method = method_of r.method;
  authorization = r.authorization;
  body = body_in json;
  received_at = r.received_at;
}

abbrev pub totp_path : Text
totp_path = codes "/api/auth/two-factor/verify-totp"

abbrev pub backup_path : Text
backup_path = codes "/api/auth/two-factor/verify-backup-code"

-- `isMfaVerificationPath`
unfoldable pub is_mfa_verification_path : Text → Bool
is_mfa_verification_path path = text_eq path totp_path || text_eq path backup_path

abbrev pub is_management_path : Text → Bool
is_management_path path =
    text_eq path (codes "/api/auth/two-factor/enable")
    || text_eq path (codes "/api/auth/two-factor/disable")
    || text_eq path (codes "/api/auth/two-factor/generate-backup-codes")

abbrev pub link_path : Text
link_path = codes "/api/auth/link-social"

abbrev pub trusts_device : Option Json → Bool
trusts_device none = false
trusts_device (some j) = j.trust_device

abbrev pub provider_in : Option Json → Text
provider_in none = []
provider_in (some j) = elim (j.provider) [ none ↦ [] | some p ↦ p ]

abbrev pub code_in : Option Json → Option Text
code_in none = none
code_in (some j) = j.code

abbrev pub email_of : Option AuthSession → Text
email_of none = []
email_of (some s) = s.email

unfoldable pub link_decision : Option AuthSession → Option Json → ℕ → LinkingDecision
link_decision session json now = evaluate_explicit_link (record {
  session = record {
    authenticated_user_id = Option.map (λ (s : AuthSession). codes s.user_id) session;
    session_created_at = Option.map (λ (s : AuthSession). s.created_at) session;
    now = now;
    fresh_age_seconds = five_minutes_seconds;
  };
  provider = provider_in json;
  current_email = email_of session;
  provider_email = none;
})

-- `if (!decision.allowed) …`
unfoldable pub if_allowed : LinkingDecision → Tx HttpReply → Tx HttpReply
if_allowed (refused r) next = pure (refusal r)
if_allowed allowed next = next

abbrev pub email_in : Option Json → Option Text
email_in none = none
email_in (some j) = j.email

-- `preMfaSession?.user.twoFactorEnabled === false`
unfoldable pub first_factor_user : Option AuthSession → Option String
first_factor_user none = none
first_factor_user (some s) = elim (s.two_factor_enabled) [ some false ↦ some s.user_id | _ ↦ none ]

unfoldable pub settle_mfa : HttpEnv → Option String → WebResponse → Draws → Tx (Unit {0})
settle_mfa env (some uid) response d = record_mfa_state uid true d.call
settle_mfa env none response d = mark_mfa_session env response d.call.now

abbrev pub candidate_of : Text → Option Json → Option Text
candidate_of path json = if text_eq path backup_path then code_in json else none

abbrev pub pass_on : WebResponse → HttpReply
pass_on w = passed_on w.status w.cookies

-- what follows the response of Better Auth
unfoldable pub settle : HttpEnv → Text → Option String → Draws → WebResponse → Tx HttpReply
unfolding settle_mfa is_mfa_verification_path
settle env path first_factor d w =
    if w.ok && is_mfa_verification_path path
    then settle_mfa env first_factor w d >> pure (pass_on w)
    else pure (pass_on w)

-- the call of Better Auth; the session in front of it is read on the paths of a verification alone,
-- where `settle` looks at it
unfoldable pub forward : HttpEnv → Library → Text → Option Json → Draws → Tx HttpReply
unfolding call_handler settle first_factor_user
forward env lib path json d = do
  session ← gets lib.get_session
  response ← call_handler lib (original (candidate_of path json))
  settle env path (first_factor_user session) d response

unfoldable pub check_link :
    HttpEnv → Library → HttpRequest → Text → Option Json → Draws → Tx HttpReply
unfolding forward if_allowed link_decision
check_link env lib r path json d =
    if text_eq path link_path
    then (gets lib.get_session >>= λ session.
        if_allowed (link_decision session json r.received_at) (forward env lib path json d))
    else forward env lib path json d

unfoldable pub check_management :
    HttpEnv → Library → HttpRequest → Text → Option Json → Draws → Tx HttpReply
unfolding check_link if_allowed freshness
check_management env lib r path json d =
    if is_management_path path
    then (gets lib.get_session >>= λ session.
        if_allowed (freshness session r.received_at) (check_link env lib r path json d))
    else check_link env lib r path json d

-- the requests that no endpoint of the service handles
unfoldable pub check_device :
    HttpEnv → Library → HttpRequest → Text → Option Json → Draws → Tx HttpReply
unfolding check_management is_mfa_verification_path
check_device env lib r path json d =
    if is_mfa_verification_path path && trusts_device json
    then pure (answer (problem 400 "trusted_devices_disabled"))
    else check_management env lib r path json d

abbrev pub handled_or : Option (Tx HttpReply) → Tx HttpReply → Tx HttpReply
handled_or none next = next
handled_or (some handled) next = handled

-- what follows the limiter
unfoldable pub handle_admitted :
    HttpEnv → Library → HttpRequest → Text → List ℕ → Draws → Tx HttpReply
unfolding extension check_device
handle_admitted env lib r path body d =
    handled_or (extension env lib r path body d)
      (check_device env lib r path (parse_json_body env body) d)

abbrev pub with_counters : Counters → Result HttpReply × Db → Result HttpReply × Server
with_counters counters (r, db) = (r, record { db = db; counters = counters })

unfoldable pub rate_key : HttpEnv → HttpRequest → Text → List ℕ → String
rate_key env r path body = env.intern (
    auth_rate_limit_key env.hmac (record {
      pathname = path;
      ip_address = client_ip env r;
      cookie_header = r.cookie;
      email = email_in (parse_json_body env body);
      secret = env.secret;
    }))

unfoldable pub if_admitted :
    RateLimitResult × Counters → Tx HttpReply → Db → Result HttpReply × Server
if_admitted (result, counters) next db =
    if result.allowed
    then with_counters counters (next db)
    else with_counters counters
        (ok (rate_limited result.retry_after_seconds result.limit result.remaining), db)

unfoldable pub check_origin_then :
    OriginDecision → (Server → Result HttpReply × Server) → Server → Result HttpReply × Server
check_origin_then (Origin.refused reason) next s = (ok (answer (problem 403 "untrusted_origin")), s)
check_origin_then (Origin.allowed origin) next s = next s

unfoldable pub origin_decision : HttpEnv → HttpRequest → OriginDecision
origin_decision env r =
    evaluate_browser_origin env.parse_url r.method r.origin
      (map env.intern env.internal.trusted_origins)

-- the paths below `/api/auth/`
unfoldable pub handle_auth :
    HttpEnv → Library → HttpRequest → Text → List ℕ → Draws → Server → Result HttpReply × Server
unfolding origin_decision handle_admitted rate_key if_admitted check_origin_then
handle_auth env lib r path body d = check_origin_then (origin_decision env r) λ s.
    if_admitted
      (consume (rate_key env r path body) (auth_rate_limit_policy path) r.received_at s.counters)
      (handle_admitted env lib r path body d) s.db

-- `decodeURIComponent` on a segment, as a native string
abbrev pub segment_of : HttpEnv → Text → Option String
segment_of env t = Option.map env.intern (env.decode_component t)

unfoldable pub handle_body :
    HttpEnv → Library → HttpRequest → Text → Draws → List ℕ → Server → Result HttpReply × Server
unfolding handle_invitation handle_auth internal_request
handle_body env lib r path d body s =
    if text_eq path (codes "/internal/auth/invitations")
    then with_counters s.counters (handle_invitation env r (parse_json_body env body) d s.db)
    else elim (internal_user_route (segment_of env) path) [
      | some route ↦ with_counters s.counters (
          (handle_internal env.internal route (internal_request r (parse_json_body env body)) d
              >>= λ reply. pure (answer reply))
            s.db)
      | none ↦
          if not (is_some (strip_prefix (codes "/api/auth/") path))
          then (ok (answer (problem 404 "not_found")), s)
          else handle_auth env lib r path body d s
    ]

unfoldable pub handle_read :
    HttpEnv
    → Library
    → HttpRequest
    → Text
    → Draws
    → Result (List ℕ)
    → Server
    → Result HttpReply × Server
unfolding handle_body
handle_read env lib r path d (err e) s = (err e, s)
handle_read env lib r path d (ok body) s = handle_body env lib r path d body s

unfoldable pub handle_path :
    HttpEnv → Library → HttpRequest → Draws → Option Text → Server → Result HttpReply × Server
unfolding handle_read
handle_path env lib r d none s = (err invalid_url, s)
handle_path env lib r d (some path) s =
    if text_eq path (codes "/health/live")
    then (ok live, s)
    else if text_eq path (codes "/health/ready")
    then (ok ready, s)
    else if text_eq path (codes "/metrics")
    then (ok metrics, s)
    else handle_read env lib r path d (read_body r.method r.chunks) s

-- the `catch`
unfoldable pub or_internal_error : Result HttpReply × Server → HttpReply × Server
or_internal_error (ok reply, s) = (reply, s)
or_internal_error (err e, s) = (answer (problem 500 "internal_error"), s)

unfoldable pub handle_request :
    HttpEnv → Library → HttpRequest → Draws → Server → HttpReply × Server
unfolding handle_path or_internal_error
handle_request env lib r d s = or_internal_error (handle_path env lib r d r.pathname s)
