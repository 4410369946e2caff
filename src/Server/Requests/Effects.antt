-- ===== src/Server/Requests/Effects.antt =====
-- Every request refines the machine of the accounts (apps/auth/src/server.ts, `handleRequest`).
use mathlib.Core.Path.{subst}
use rsp_website.Prelude.{
  ℕ, ◌≡◌, refl, String, true, false, not, ◌||◌, ◌&&◌, Option, none, some, List, Bool-cases,
  Option-cases, inl, inr, codes, Text, text_eq, is_some, sym,
}
use rsp_website.Prelude.Texts.{strip_prefix}
use rsp_website.Security.Linking.{LinkingDecision, allowed, refused}
use rsp_website.Security.Origin.{OriginDecision}
use rsp_website.Security.Origin
use rsp_website.Security.RateLimit.{Counters, RateLimitResult, consume}
use rsp_website.Security.RateKey.{auth_rate_limit_policy}
use rsp_website.Security.ServiceToken.{has_valid_service_token}
use rsp_website.Lifecycle.Store.{Db}
use rsp_website.Lifecycle.Tx.{Result, ok, err, Tx}
use rsp_website.Lifecycle.Machine.Effects.{Effect, kept}
use rsp_website.Lifecycle.Machine.Refinement.{record_mfa_state-Effect}
use rsp_website.Lifecycle.Machine.Sweeps.{Effect-continue, queue_email-Effect}
use rsp_website.Lifecycle.Machine.Hooks.{IsAdapter, then_pure}
use rsp_website.Server.InternalApi.{Draws, internal_user_route, handle_internal}
use rsp_website.Server.InternalApi.Effects.{handle_internal-Effect}
use rsp_website.Server.Http.{
  Invitation, Json, HttpRequest, HttpReply, WebResponse, original, Library, HttpEnv, call_handler,
  method_of, read_body, parse_json_body,
}
use rsp_website.Server.Pages.{
  deletion_request_path, deletion_recovery_path, step_up_path, step_up_totp_path,
  step_up_backup_path,
}
use rsp_website.Server.Endpoints.{extension, freshness, is_post}
use rsp_website.Server.Endpoints.Effects.{
  connect_password-Effect, request_own_deletion-Effect, recovery_endpoint-Effect, step_up-Effect,
  step_up_start-Effect, call_handler-Effect, mark_mfa_session-Effect,
}
use rsp_website.Server.Requests.{
  Server, send_invitation, handle_invitation, invitation_in, internal_request,
  is_mfa_verification_path, is_management_path, link_path, trusts_device, link_decision, if_allowed,
  first_factor_user, settle_mfa, candidate_of, settle, forward, check_link, check_management,
  check_device, handled_or, handle_admitted, rate_key, if_admitted, check_origin_then,
  origin_decision, handle_auth, segment_of, handle_body, handle_read, handle_path,
  or_internal_error, handle_request,
}

send_invitation-Effect :
    (env : HttpEnv) (i : Option Invitation) (now : ℕ) (db : Db)
    → Effect db (send_invitation env i now db).1
unfolding send_invitation
send_invitation-Effect env none now db = kept refl refl
send_invitation-Effect env (some i) now db =
    elim (Bool-cases (
      not (text_eq (env.internal.origin_of i.url) (env.internal.origin_of env.base_url))
      || not (text_eq (env.pathname_of i.url) (codes "/invitations/accept")))) [
        | inl bad ↦ rw bad (kept refl refl)
        | inr good ↦ rw good (queue_email-Effect i.id _ now db)
      ]

handle_invitation-Effect :
    (env : HttpEnv) (r : HttpRequest) (json : Option Json) (d : Draws) (db : Db)
    → Effect db (handle_invitation env r json d db).1
unfolding handle_invitation
handle_invitation-Effect env r json d db =
    elim (Bool-cases (has_valid_service_token r.authorization env.internal.service_token)) [
      | inr alien ↦ rw alien (kept refl refl)
      | inl known ↦ elim (Bool-cases (is_post (method_of r.method))) [
        | inr wrong ↦ rw (known, wrong) (kept refl refl)
        | inl post ↦
            rw (known, post) (send_invitation-Effect env (invitation_in json) d.call.now db)
      ]
    ]

if_allowed-Effect :
    (decision : LinkingDecision) (next : Tx HttpReply) (db : Db)
    → Effect db (next db).1
    → Effect db (if_allowed decision next db).1
unfolding if_allowed
if_allowed-Effect (refused r) next db h = kept refl refl
if_allowed-Effect allowed next db h = h

settle_mfa-Effect :
    (env : HttpEnv) (user : Option String) (w : WebResponse) (d : Draws) (db : Db)
    → Effect db (settle_mfa env user w d db).1
unfolding settle_mfa
settle_mfa-Effect env none w d db = mark_mfa_session-Effect env w d.call.now db
settle_mfa-Effect env (some uid) w d db = record_mfa_state-Effect uid d.call db true

if_admitted-Effect :
    (r : RateLimitResult × Counters) (next : Tx HttpReply) (db : Db)
    → Effect db (next db).1
    → Effect db (if_admitted r next db).1.db
unfolding if_admitted
if_admitted-Effect (result, counters) next db h = elim (Bool-cases result.allowed) [
  | inl yes_ ↦ rw yes_ h
  | inr no_ ↦ rw no_ (kept refl refl)
]

check_origin_then-Effect :
    (o : OriginDecision) (next : Server → Result HttpReply × Server) (s : Server)
    → Effect s.db (next s).1.db
    → Effect s.db (check_origin_then o next s).1.db
unfolding check_origin_then
check_origin_then-Effect (Origin.refused reason) next s h = kept refl refl
check_origin_then-Effect (Origin.allowed origin) next s h = h

module _ (env : HttpEnv) (lib : Library) (lawful : IsAdapter lib.adapter) (r : HttpRequest)
    (d : Draws) where
  settle-Effect :
      (path : Text) (user : Option String) (w : WebResponse) (db : Db)
      → Effect db (settle env path user d w db).1
  unfolding settle
  settle-Effect path user w db = elim (Bool-cases (w.ok && is_mfa_verification_path path)) [
    | inl verified ↦
        rw verified
          (then_pure db (settle_mfa env user w d db) _ (settle_mfa-Effect env user w d db))
    | inr leave ↦ rw leave (kept refl refl)
  ]

  forward-Effect :
      (path : Text) (json : Option Json) (db : Db) → Effect db (forward env lib path json d db).1
  unfolding forward
  forward-Effect path json db =
      let call = original (candidate_of path json) in
      let user = first_factor_user (lib.get_session db) in
      Effect-continue db (call_handler lib call db) (settle env path user d)
        (call_handler-Effect env lib lawful call db)
        λ w. settle-Effect path user w (call_handler lib call db).1

  check_link-Effect :
      (path : Text) (json : Option Json) (db : Db)
      → Effect db (check_link env lib r path json d db).1
  unfolding check_link
  check_link-Effect path json db = elim (Bool-cases (text_eq path link_path)) [
    | inl linking ↦ rw linking (
        if_allowed-Effect (link_decision (lib.get_session db) json r.received_at)
          (forward env lib path json d) db (forward-Effect path json db))
    | inr other ↦ rw other (forward-Effect path json db)
  ]

  check_management-Effect :
      (path : Text) (json : Option Json) (db : Db)
      → Effect db (check_management env lib r path json d db).1
  unfolding check_management
  check_management-Effect path json db = elim (Bool-cases (is_management_path path)) [
    | inl managing ↦ rw managing (
        if_allowed-Effect (freshness (lib.get_session db) r.received_at)
          (check_link env lib r path json d) db (check_link-Effect path json db))
    | inr other ↦ rw other (check_link-Effect path json db)
  ]

  -- The endpoints of the service, and what runs where the path is none of theirs.
  abbrev IsEffectful : Option (Tx HttpReply) → Type 0
  IsEffectful none = Unit
  IsEffectful (some t) = (db : Db) → Effect db (t db).1

  extension-IsEffectful :
      (path : Text) (body : List ℕ) → IsEffectful (extension env lib r path body d)
  unfolding extension
  extension-IsEffectful path body =
      elim (Bool-cases (text_eq path (codes "/api/auth/connect-password"))) [
        | inl a ↦ rw a (λ db. connect_password-Effect env lib lawful r body d db)
        | inr a ↦ elim (Bool-cases (text_eq path deletion_request_path)) [
          | inl b ↦ rw (a, b) (λ db. request_own_deletion-Effect env lib lawful r d db)
          | inr b ↦ elim (Bool-cases (text_eq path deletion_recovery_path)) [
            | inl c ↦
                rw (a, b, c) (λ db. recovery_endpoint-Effect env r body d (method_of r.method) db)
            | inr c ↦ elim (Bool-cases (text_eq path step_up_path)) [
              | inl e ↦ rw (a, b, c, e) (λ db. step_up_start-Effect (method_of r.method) db)
              | inr e ↦ elim (Bool-cases (text_eq path step_up_totp_path)) [
                | inl f ↦ rw (a, b, c, e, f) (λ db. step_up-Effect env lib lawful r body false d db)
                | inr f ↦ elim (Bool-cases (text_eq path step_up_backup_path)) [
                  | inl g ↦
                      rw (a, b, c, e, f, g) (λ db. step_up-Effect env lib lawful r body true d db)
                  | inr g ↦ rw (a, b, c, e, f, g) tt
                ]
              ]
            ]
          ]
        ]
      ]

  check_device-Effect :
      (path : Text) (json : Option Json) (db : Db)
      → Effect db (check_device env lib r path json d db).1
  unfolding check_device
  check_device-Effect path json db =
      elim (Bool-cases (is_mfa_verification_path path && trusts_device json)) [
        | inl bad ↦ rw bad (kept refl refl)
        | inr good ↦ rw good (check_management-Effect path json db)
      ]

  handled_or-Effect :
      (o : Option (Tx HttpReply)) (next : Tx HttpReply) (db : Db)
      → IsEffectful o
      → Effect db (next db).1
      → Effect db (handled_or o next db).1
  handled_or-Effect none next db own h = h
  handled_or-Effect (some handled) next db own h = own db

  handle_admitted-Effect :
      (path : Text) (body : List ℕ) (db : Db)
      → Effect db (handle_admitted env lib r path body d db).1
  unfolding handle_admitted
  handle_admitted-Effect path body db =
      handled_or-Effect (extension env lib r path body d)
        (check_device env lib r path (parse_json_body env body) d) db
        (extension-IsEffectful path body) (check_device-Effect path (parse_json_body env body) db)

  handle_auth-Effect :
      (path : Text) (body : List ℕ) (s : Server)
      → Effect s.db (handle_auth env lib r path body d s).1.db
  unfolding handle_auth
  handle_auth-Effect path body s = check_origin_then-Effect (origin_decision env r) _ s (
      if_admitted-Effect
        (consume (rate_key env r path body) (auth_rate_limit_policy path) r.received_at s.counters)
        (handle_admitted env lib r path body d) s.db (handle_admitted-Effect path body s.db))

  handle_body-Effect :
      (path : Text) (body : List ℕ) (s : Server)
      → Effect s.db (handle_body env lib r path d body s).1.db
  unfolding handle_body
  handle_body-Effect path body s =
      elim (Bool-cases (text_eq path (codes "/internal/auth/invitations"))) [
        | inl inviting ↦
            rw inviting (handle_invitation-Effect env r (parse_json_body env body) d s.db)
        | inr other ↦ elim (Option-cases (internal_user_route (segment_of env) path)) [
          | inr (route, e) ↦
              rw (other, e)
                (then_pure s.db
                  (handle_internal env.internal route
                    (internal_request r (parse_json_body env body)) d s.db)
                  _
                  (handle_internal-Effect env.internal route
                    (internal_request r (parse_json_body env body)) d s.db))
          | inl e ↦ elim (Bool-cases (is_some (strip_prefix (codes "/api/auth/") path))) [
            | inr unknown ↦ rw (other, e) (rw unknown (kept refl refl))
            | inl auth ↦ rw (other, e) (rw auth (handle_auth-Effect path body s))
          ]
        ]
      ]

  handle_read-Effect :
      (path : Text) (body : Result (List ℕ)) (s : Server)
      → Effect s.db (handle_read env lib r path d body s).1.db
  unfolding handle_read
  handle_read-Effect path (err e) s = kept refl refl
  handle_read-Effect path (ok body) s = handle_body-Effect path body s

  handle_path-Effect :
      (path : Option Text) (s : Server) → Effect s.db (handle_path env lib r d path s).1.db
  unfolding handle_path
  handle_path-Effect none s = kept refl refl
  handle_path-Effect (some path) s = elim (Bool-cases (text_eq path (codes "/health/live"))) [
    | inl a ↦ rw a (kept refl refl)
    | inr a ↦ elim (Bool-cases (text_eq path (codes "/health/ready"))) [
      | inl b ↦ rw (a, b) (kept refl refl)
      | inr b ↦ elim (Bool-cases (text_eq path (codes "/metrics"))) [
        | inl c ↦ rw (a, b, c) (kept refl refl)
        | inr c ↦ rw (a, b, c) (handle_read-Effect path (read_body r.method r.chunks) s)
      ]
    ]
  ]

pub or_internal_error_server : (r : Result HttpReply × Server) → (or_internal_error r).1 ≡ r.1
unfolding or_internal_error
or_internal_error_server (ok reply, s) = refl
or_internal_error_server (err e, s) = refl

-- Whatever a request is and whatever Better Auth writes for it, what becomes of the accounts and the
-- sessions is an effect of the machine.
pub handle_request-Effect :
    (env : HttpEnv) (lib : Library) (r : HttpRequest) (d : Draws) (s : Server)
    → IsAdapter lib.adapter
    → Effect s.db (handle_request env lib r d s).1.db
unfolding handle_request
handle_request-Effect env lib r d s lawful =
    subst (λ (t : Server). Effect s.db t.db)
      (sym (or_internal_error_server (handle_path env lib r d r.pathname s)))
      (handle_path-Effect env lib lawful r d r.pathname s)
