-- ===== src/Server/Endpoints.antt =====
-- The endpoints that the auth service adds to those of Better Auth (apps/auth/src/server.ts,
-- `handleBrowserExtension`), and the session that a verified second factor marks.
pub mod Effects
pub mod Recovery
use mathlib.Core.Option
use rsp_website.Prelude.{
  ℕ, ◌+◌, ◌*◌, String, Bool, true, false, not, ◌||◌, ◌&&◌, Option, none, some, List, [], ◌∷◌, ◌++◌,
  ltb, leb, if◌then◌else◌, length, codes, Text, text_eq, ◌==◌, update_rows, str_eq, some_of,
}
use rsp_website.Prelude.Texts.{strip_prefix, trim}
use rsp_website.Security.Linking.{
  Reason, not_authenticated, reauthentication_required, unsupported_provider, different_email,
  LinkingDecision, allowed, refused, evaluate_fresh_session,
}
use rsp_website.Security.RateKey.{split_on}
use rsp_website.Lifecycle.Store.{Db, Account, Session, SessionRevocationReason}
use rsp_website.Lifecycle.Tx.{
  Result, ok, err, Error, invalid_recovery_token, malformed_uri, library_failed, Tx, pure, throw,
  gets, ◌>>=◌, ◌>>◌, modify,
}
use rsp_website.Lifecycle.Service.{revoke_sessions}
use rsp_website.Lifecycle.Deletion.{DeletionRequest, request_deletion_of, recover}
use rsp_website.Lifecycle.Library.{apply_all}
use rsp_website.Server.InternalApi.{
  Draws, day_ms, Method, get_method, post_method, other_method, problem, no_content,
}
use rsp_website.Server.Pages.{
  deletion_request_path, deletion_recovery_path, step_up_path, step_up_totp_path,
  step_up_backup_path, render_deletion_recovery_page, render_deletion_recovered_page,
  render_mfa_step_up_page,
}
use rsp_website.Server.Http.{
  Json, HttpRequest, HttpReply, answer, password_connected, html, to_dashboard, WebResponse,
  AuthSession, HandlerCall, verification, PasswordOutcome, password_set, password_refused,
  password_failed, Library, HttpEnv, call_handler, method_of, parse_json_body,
}

-- `[^;]+`
unfoldable pub until : ℕ → Text → Text
until sep [] = []
until sep (c ∷ cs) = let rest = until sep cs in if c == sep then [] else c ∷ rest

-- `/^rsp-auth\.session_token=([^;]+)/`; empty where the cookie does not match
unfoldable pub signed_value : Text → Text
unfolding until
signed_value cookie = elim (strip_prefix (codes "rsp-auth.session_token=") cookie) [
  | none ↦ []
  | some value ↦ until b';' value
]

unfoldable pub first_part : List Text → Text
first_part [] = []
first_part (t ∷ ts) = t

unfoldable pub token_or : Text → Result Text → Result Text
token_or [] rest = rest
token_or (c ∷ cs) rest = ok (c ∷ cs)

unfoldable pub token_of : Option Text → Result Text → Result Text
unfolding token_or first_part
token_of none rest = err malformed_uri
token_of (some signed) rest = token_or (first_part (split_on b'.' signed)) rest

unfoldable pub token_in : (Text → Option Text) → Text → Result Text → Result Text
unfolding token_of
token_in decode [] rest = rest
token_in decode (c ∷ cs) rest = token_of (decode (c ∷ cs)) rest

-- `sessionTokenFromResponse`; the empty text where there is none
unfoldable pub session_token : (Text → Option Text) → List Text → Result Text
unfolding signed_value token_in
session_token decode [] = ok []
session_token decode (cookie ∷ more) =
    token_in decode (signed_value cookie) (session_token decode more)

-- `UPDATE sessions SET mfa_verified_at = now() … WHERE token = $1`
unfoldable pub mark_token : ℕ → Text → Tx (Unit {0})
mark_token now [] = pure tt
mark_token now (c ∷ cs) = modify λ db. record db {
  sessions =
      update_rows (λ (s : Session). text_eq (codes s.token) (c ∷ cs))
        (λ s. record s { mfa_verified_at = some now }) db.sessions;
}

unfoldable pub or_json : Text → Option Text → Text
or_json (c ∷ cs) json = c ∷ cs
or_json [] none = []
or_json [] (some t) = t

unfoldable pub mark_result : Result Text → Option Text → ℕ → Tx (Unit {0})
unfolding mark_token or_json
mark_result (err e) json now = throw e
mark_result (ok token) json now = mark_token now (or_json token json)

-- `markMfaSession`
unfoldable pub mark_mfa_session : HttpEnv → WebResponse → ℕ → Tx (Unit {0})
unfolding session_token mark_result
mark_mfa_session env response now =
    mark_result (session_token env.decode_component response.cookies) response.json_token now

abbrev pub five_minutes_seconds : ℕ
five_minutes_seconds = 300

-- `evaluateFreshSession` on what `getSession` returns
unfoldable pub freshness : Option AuthSession → ℕ → LinkingDecision
freshness session now = evaluate_fresh_session (record {
  authenticated_user_id = Option.map (λ s. codes s.user_id) session;
  session_created_at = Option.map (λ s. s.created_at) session;
  now = now;
  fresh_age_seconds = five_minutes_seconds;
})

abbrev pub reason_name : Reason → String
reason_name not_authenticated = "not_authenticated"
reason_name reauthentication_required = "reauthentication_required"
reason_name unsupported_provider = "unsupported_provider"
reason_name different_email = "different_email"

-- `freshness.reason === 'not_authenticated' ? 401 : 403`
abbrev pub refusal : Reason → HttpReply
refusal not_authenticated = answer (problem 401 "not_authenticated")
refusal r = answer (problem 403 (reason_name r))

-- `if (!freshness.allowed || !session) …`
unfoldable pub if_fresh :
    LinkingDecision → Option AuthSession → (AuthSession → Tx HttpReply) → Tx HttpReply
if_fresh (refused r) session k = pure (refusal r)
if_fresh allowed none k = pure (answer (problem 403 "reauthentication_required"))
if_fresh allowed (some s) k = k s

abbrev pub not_allowed : HttpReply
not_allowed = answer (problem 405 "method_not_allowed")

abbrev pub is_post : Method → Bool
is_post post_method = true
is_post _ = false

-- `typeof error.body?.code === 'string' ? … : …`
abbrev pub or_link_failed : Option String → (String → String) → String
or_link_failed none lower = "password_link_failed"
or_link_failed (some code) lower = lower code

unfoldable pub connect_with : HttpEnv → Library → String → Draws → PasswordOutcome → Tx HttpReply
connect_with env lib uid d password_failed = throw library_failed
connect_with env lib uid d (password_refused status code) = pure (
    answer (
      problem (if leb 400 status && ltb status 500 then status else 400)
        (or_link_failed code env.internal.to_lower_case)))
connect_with env lib uid d (password_set writes) = do
  apply_all lib.adapter lib.parse_token writes
  revoke_sessions uid SessionRevocationReason.provider_linked d.call
  pure password_connected

abbrev pub has_provider : String → String → Account → Bool
has_provider uid provider a = str_eq a.user_id uid && str_eq a.provider_id provider

-- `z.object({ password: z.string().min(12).max(128) })`
unfoldable pub read_password : Option Json → Option Text
read_password none = none
read_password (some j) = elim (j.password) [
  | none ↦ none
  | some p ↦ if leb 12 (length p) && leb (length p) 128 then some p else none
]

unfoldable pub connect_as : HttpEnv → Library → Draws → Option Text → AuthSession → Tx HttpReply
unfolding connect_with
connect_as env lib d none s db = (ok (answer (problem 400 "invalid_password")), db)
connect_as env lib d (some password) s db =
    if some_of (has_provider s.user_id "credential") db.accounts
    then (ok (answer (problem 409 "password_method_exists")), db)
    else if not (some_of (has_provider s.user_id "google") db.accounts)
    then (ok (answer (problem 403 "google_method_required")), db)
    else connect_with env lib s.user_id d (lib.set_password password db) db

-- `POST /api/auth/connect-password`
unfoldable pub connect_password : HttpEnv → Library → HttpRequest → List ℕ → Draws → Tx HttpReply
unfolding connect_as if_fresh freshness read_password
connect_password env lib r body d =
    if not (is_post (method_of r.method)) then pure not_allowed else do
      session ← gets lib.get_session
      if_fresh (freshness session r.received_at) session
          (connect_as env lib d (read_password (parse_json_body env body)))

abbrev pub grace_days : ℕ
grace_days = 30

unfoldable pub own_request : HttpEnv → HttpRequest → Draws → AuthSession → DeletionRequest
own_request env r d s = record {
  auth_user_id = s.user_id;
  recovery_url = env.base_url ++ deletion_recovery_path;
  recovery_deadline = r.received_at + grace_days * day_ms;
  token = d.token;
  token_id = d.token_id;
  email_id = d.email_id;
  email_attempt = d.email_attempt;
}

-- `POST /api/auth/account/deletion/request`
unfoldable pub request_own_deletion : HttpEnv → Library → HttpRequest → Draws → Tx HttpReply
unfolding own_request if_fresh freshness
request_own_deletion env lib r d =
    if not (is_post (method_of r.method)) then pure not_allowed else do
      session ← gets lib.get_session
      if_fresh (freshness session r.received_at) session λ s.
          request_deletion_of env.internal.hash env.internal.add_token env.internal.iso
            (own_request env r d s) d.call
          >> pure (answer no_content)

-- `parseUrlEncodedField`
unfoldable pub form_field : HttpEnv → List ℕ → Text → Text
form_field env [] field = []
form_field env (b ∷ bs) field = elim (env.form_field (b ∷ bs) field) [
  | none ↦ []
  | some value ↦ trim value
]

abbrev pub trimmed_or_empty : Option Text → Text
trimmed_or_empty none = []
trimmed_or_empty (some t) = trim t

abbrev pub used_link : Text
used_link = codes "This recovery link is invalid, expired, or has already been used."

-- `error instanceof InvalidDeletionRecoveryTokenError`
unfoldable pub recovery_reply : Result (Unit {0}) × Db → Result HttpReply × Db
recovery_reply (ok done, db) = (ok (html 200 render_deletion_recovered_page), db)
recovery_reply (err invalid_recovery_token, db) =
    (ok (html 410 (render_deletion_recovery_page [] (some used_link))), db)
recovery_reply (err e, db) = (err e, db)

-- `/api/auth/account/deletion/recovery`
unfoldable pub recovery_endpoint : HttpEnv → HttpRequest → List ℕ → Draws → Method → Tx HttpReply
unfolding recovery_reply
recovery_endpoint env r body d get_method db =
    (ok (html 200 (render_deletion_recovery_page (trimmed_or_empty r.token_param) none)), db)
recovery_endpoint env r body d post_method db =
    recovery_reply (recover env.internal.hash (form_field env body (codes "token")) d.call db)
recovery_endpoint env r body d other_method db = (ok not_allowed, db)

unfoldable pub after_verification : HttpEnv → ℕ → WebResponse → Tx HttpReply
unfolding mark_mfa_session
after_verification env now response =
    if response.ok
    then mark_mfa_session env response now >> pure (to_dashboard response.cookies)
    else pure (
        html 400 (render_mfa_step_up_page (some (codes "The verification code was not accepted."))))

-- `/api/auth/mfa/step-up/totp` and `/api/auth/mfa/step-up/backup-code`
unfoldable pub step_up : HttpEnv → Library → HttpRequest → List ℕ → Bool → Draws → Tx HttpReply
unfolding call_handler after_verification
step_up env lib r body backup d =
    if not (is_post (method_of r.method))
    then pure not_allowed
    else if ltb (length (form_field env body (codes "code"))) 6
        || ltb 128 (length (form_field env body (codes "code")))
    then pure (html 400 (render_mfa_step_up_page (some (codes "Enter a valid verification code."))))
    else call_handler lib (verification backup (form_field env body (codes "code")))
      >>= after_verification env d.call.now

-- `GET /api/auth/mfa/step-up`
unfoldable pub step_up_start : Method → Tx HttpReply
step_up_start get_method = pure (html 200 (render_mfa_step_up_page none))
step_up_start _ = pure not_allowed

-- `handleBrowserExtension`; none where the path is none of its own
unfoldable pub extension :
    HttpEnv → Library → HttpRequest → Text → List ℕ → Draws → Option (Tx HttpReply)
unfolding connect_password request_own_deletion recovery_endpoint step_up step_up_start
extension env lib r path body d =
    if text_eq path (codes "/api/auth/connect-password")
    then some (connect_password env lib r body d)
    else if text_eq path deletion_request_path
    then some (request_own_deletion env lib r d)
    else if text_eq path deletion_recovery_path
    then some (recovery_endpoint env r body d (method_of r.method))
    else if text_eq path step_up_path
    then some (step_up_start (method_of r.method))
    else if text_eq path step_up_totp_path
    then some (step_up env lib r body false d)
    else if text_eq path step_up_backup_path
    then some (step_up env lib r body true d)
    else none
