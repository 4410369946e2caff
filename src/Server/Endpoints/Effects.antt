-- ===== src/Server/Endpoints/Effects.antt =====
-- The service's own endpoints refine the machine of the accounts (apps/auth/src/server.ts): whatever
-- they answer, what they do to accounts and sessions is an effect of it.
use mathlib.Core.Path.{subst}
use rsp_website.Prelude.{
  ℕ, ◌≡◌, refl, sym, String, Bool, true, ◌||◌, Option, none, some, List, [], ◌∷◌, arith, ltb,
  length, codes, Text, text_eq, Bool-cases, inl, inr, some_of,
}
use rsp_website.Prelude.Tables.{All-update_rows}
use rsp_website.Security.Linking.{LinkingDecision, allowed, refused}
use rsp_website.Lifecycle.Store.{Db, Session, SessionRevocationReason}
use rsp_website.Lifecycle.Tx.{Result, ok, err, Tx}
use rsp_website.Lifecycle.Service.{revoke_sessions}
use rsp_website.Lifecycle.Deletion.{request_deletion_of, recover}
use rsp_website.Lifecycle.Library.{apply_all}
use rsp_website.Lifecycle.Machine.Effects.{Effect, kept, fewer}
use rsp_website.Lifecycle.Machine.Refinement.{revoke_sessions-Effect}
use rsp_website.Lifecycle.Machine.Removal.{request_deletion-Effect, recover-Effect}
use rsp_website.Lifecycle.Machine.Sweeps.{Effect-continue}
use rsp_website.Lifecycle.Machine.Hooks.{IsAdapter, then_pure}
use rsp_website.Lifecycle.Machine.Requests.{apply_all-Effect}
use rsp_website.Server.InternalApi.{Draws, Method, get_method, post_method, other_method}
use rsp_website.Server.Http.{
  HttpRequest, HttpReply, WebResponse, AuthSession, HandlerCall, verification, PasswordOutcome,
  password_set, password_refused, password_failed, Library, HttpEnv, call_handler, method_of,
  parse_json_body,
}
use rsp_website.Server.Endpoints.{
  mark_token, mark_result, mark_mfa_session, or_json, session_token, if_fresh, freshness,
  connect_with, connect_as, read_password, connect_password, own_request, request_own_deletion,
  form_field, recovery_reply, recovery_endpoint, after_verification, step_up, is_post, has_provider,
  step_up_start,
}

mark_token-Effect : (now : ℕ) (token : Text) (db : Db) → Effect db (mark_token now token db).1
unfolding mark_token
mark_token-Effect now [] db = kept refl refl
mark_token-Effect now (c ∷ cs) db = fewer refl λ p h.
    All-update_rows (λ (s : Session). p s.user_id ≡ true) (λ s. text_eq (codes s.token) (c ∷ cs))
      (λ s. record s { mfa_verified_at = some now }) db.sessions (λ s found owner. owner) h

mark_result-Effect :
    (r : Result Text) (json : Option Text) (now : ℕ) (db : Db)
    → Effect db (mark_result r json now db).1
unfolding mark_result
mark_result-Effect (err e) json now db = kept refl refl
mark_result-Effect (ok token) json now db = mark_token-Effect now (or_json token json) db

pub mark_mfa_session-Effect :
    (env : HttpEnv) (w : WebResponse) (now : ℕ) (db : Db)
    → Effect db (mark_mfa_session env w now db).1
unfolding mark_mfa_session
mark_mfa_session-Effect env w now db =
    mark_result-Effect (session_token env.decode_component w.cookies) w.json_token now db

if_fresh-Effect :
    (decision : LinkingDecision) (session : Option AuthSession) (k : AuthSession → Tx HttpReply)
    (db : Db)
    → ((s : AuthSession) → Effect db (k s db).1)
    → Effect db (if_fresh decision session k db).1
unfolding if_fresh
if_fresh-Effect (refused r) session k db h = kept refl refl
if_fresh-Effect allowed none k db h = kept refl refl
if_fresh-Effect allowed (some s) k db h = h s

module _ (env : HttpEnv) (lib : Library) (lawful : IsAdapter lib.adapter) where
  connect_with-Effect :
      (uid : String) (d : Draws) (o : PasswordOutcome) (db : Db)
      → Effect db (connect_with env lib uid d o db).1
  unfolding connect_with
  connect_with-Effect uid d password_failed db = kept refl refl
  connect_with-Effect uid d (password_refused status code) db = kept refl refl
  connect_with-Effect uid d (password_set writes) db =
      let written = apply_all lib.adapter lib.parse_token writes db in
      Effect-continue db written _ (apply_all-Effect lib.adapter lawful lib.parse_token writes db)
        λ done.
          then_pure written.1
            (revoke_sessions uid SessionRevocationReason.provider_linked d.call written.1) _
            (revoke_sessions-Effect uid d.call written.1 SessionRevocationReason.provider_linked)

  connect_as-Effect :
      (d : Draws) (password : Option Text) (s : AuthSession) (db : Db)
      → Effect db (connect_as env lib d password s db).1
  unfolding connect_as
  connect_as-Effect d none s db = kept refl refl
  connect_as-Effect d (some password) s db =
      elim (Bool-cases (some_of (has_provider s.user_id "credential") db.accounts)) [
        | inl there ↦ rw there (kept refl refl)
        | inr new ↦ elim (Bool-cases (some_of (has_provider s.user_id "google") db.accounts)) [
          | inl google ↦
              rw (new, google) (connect_with-Effect s.user_id d (lib.set_password password db) db)
          | inr bare ↦ rw (new, bare) (kept refl refl)
        ]
      ]

  pub connect_password-Effect :
      (r : HttpRequest) (body : List ℕ) (d : Draws) (db : Db)
      → Effect db (connect_password env lib r body d db).1
  unfolding connect_password
  connect_password-Effect r body d db = elim (Bool-cases (is_post (method_of r.method))) [
    | inr wrong ↦ rw wrong (kept refl refl)
    | inl post ↦ rw post (
        if_fresh-Effect (freshness (lib.get_session db) r.received_at) (lib.get_session db)
          (connect_as env lib d (read_password (parse_json_body env body))) db
          (λ s. connect_as-Effect d (read_password (parse_json_body env body)) s db))
  ]

  pub request_own_deletion-Effect :
      (r : HttpRequest) (d : Draws) (db : Db) → Effect db (request_own_deletion env lib r d db).1
  unfolding request_own_deletion
  request_own_deletion-Effect r d db = elim (Bool-cases (is_post (method_of r.method))) [
    | inr wrong ↦ rw wrong (kept refl refl)
    | inl post ↦ rw post (
        if_fresh-Effect (freshness (lib.get_session db) r.received_at) (lib.get_session db) _ db
          (λ s.
            then_pure db
              (request_deletion_of env.internal.hash env.internal.add_token env.internal.iso
                (own_request env r d s) d.call db)
              _
              (request_deletion-Effect env.internal.hash env.internal.add_token env.internal.iso
                (own_request env r d s) d.call db)))
  ]

  pub call_handler-Effect : (call : HandlerCall) (db : Db) → Effect db (call_handler lib call db).1
  unfolding call_handler
  call_handler-Effect call db =
      apply_all-Effect lib.adapter lawful lib.parse_token (lib.writes call db) db

  after_verification-Effect :
      (now : ℕ) (w : WebResponse) (db : Db) → Effect db (after_verification env now w db).1
  unfolding after_verification
  after_verification-Effect now w db = elim (Bool-cases w.ok) [
    | inl good ↦
        rw good
          (then_pure db (mark_mfa_session env w now db) _ (mark_mfa_session-Effect env w now db))
    | inr bad ↦ rw bad (kept refl refl)
  ]

  pub step_up-Effect :
      (r : HttpRequest) (body : List ℕ) (backup : Bool) (d : Draws) (db : Db)
      → Effect db (step_up env lib r body backup d db).1
  unfolding step_up
  step_up-Effect r body backup d db = elim (Bool-cases (is_post (method_of r.method))) [
    | inr wrong ↦ rw wrong (kept refl refl)
    | inl post ↦
        elim (Bool-cases (
          ltb (length (form_field env body (codes "code"))) 6
          || ltb 128 (length (form_field env body (codes "code"))))) [
            | inl bad ↦ rw (post, bad) (kept refl refl)
            | inr good ↦
                rw (post, good)
                  (let call = verification backup (form_field env body (codes "code")) in
                    Effect-continue db (call_handler lib call db)
                      (after_verification env d.call.now) (call_handler-Effect call db)
                      λ w. after_verification-Effect d.call.now w (call_handler lib call db).1)
          ]
  ]

-- What a failed recovery answers.
pub recovery_reply-db : (r : Result (Unit {0}) × Db) → (recovery_reply r).1 ≡ r.1
unfolding recovery_reply
recovery_reply-db (ok done, db) = refl
recovery_reply-db (err e, db) = ground arith

pub recovery_endpoint-Effect :
    (env : HttpEnv) (r : HttpRequest) (body : List ℕ) (d : Draws) (m : Method) (db : Db)
    → Effect db (recovery_endpoint env r body d m db).1
unfolding recovery_endpoint
recovery_endpoint-Effect env r body d get_method db = kept refl refl
recovery_endpoint-Effect env r body d other_method db = kept refl refl
recovery_endpoint-Effect env r body d post_method db =
    subst (λ x. Effect db x)
      (sym (
        recovery_reply-db
          (recover env.internal.hash (form_field env body (codes "token")) d.call db)))
      (recover-Effect env.internal.hash (form_field env body (codes "token")) d.call db)

pub step_up_start-Effect : (m : Method) (db : Db) → Effect db (step_up_start m db).1
unfolding step_up_start
step_up_start-Effect get_method db = kept refl refl
step_up_start-Effect post_method db = kept refl refl
step_up_start-Effect other_method db = kept refl refl
