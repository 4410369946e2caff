-- ===== src/Server/Requests/Checks.antt =====
-- What stands in front of every endpoint below `/api/auth/` (apps/auth/src/server.ts).
use rsp_website.Prelude.{ℕ, ◌≡◌, refl, ◌∙◌, ap, some, List, ◌++◌, Bool-cases, inl, inr, codes, Text}
use rsp_website.Prelude.Texts.{strip_prefix}
use rsp_website.Security.Origin.{OriginDecision}
use rsp_website.Security.Origin
use rsp_website.Security.RateLimit.{Counters, RateLimitResult, consume}
use rsp_website.Security.RateKey.{auth_rate_limit_policy}
use rsp_website.Lifecycle.Store.{Db}
use rsp_website.Lifecycle.Tx.{Result, ok, err, Tx}
use rsp_website.Server.InternalApi.{Draws, internal_user_route, route_of_rest}
use rsp_website.Server.Http.{HttpRequest, HttpReply, Library, HttpEnv, read_body}
use rsp_website.Server.Requests.Effects.{or_internal_error_server}
use rsp_website.Server.Requests.{
  Server, handle_admitted, rate_key, if_admitted, check_origin_then, origin_decision, handle_auth,
  handle_body, handle_read, handle_path, or_internal_error, handle_request,
}

pub kept_by_limiter :
    (p : RateLimitResult × Counters) (next : Tx HttpReply) (db : Db)
    → (next db).1 ≡ db
    → (if_admitted p next db).1.db ≡ db
unfolding if_admitted
kept_by_limiter (result, counters) next db h = elim (Bool-cases result.allowed) [
  | inl within ↦ rw within h
  | inr over ↦ rw over refl
]

kept_by_origin :
    (o : OriginDecision) (next : Server → Result HttpReply × Server) (s : Server)
    → (next s).1.db ≡ s.db
    → (check_origin_then o next s).1.db ≡ s.db
unfolding check_origin_then
kept_by_origin (Origin.refused reason) next s h = refl
kept_by_origin (Origin.allowed origin) next s h = h

module _ (env : HttpEnv) (lib : Library) (r : HttpRequest) (d : Draws) (s : Server)
    (rest : Text) where
  abbrev pub full_path : Text
  full_path = codes "/api/auth/" ++ rest

  -- A path below `/api/auth/` is neither a probe nor internal.
  handle_path_auth :
      handle_path env lib r d (some full_path) s
      ≡ handle_read env lib r full_path d (read_body r.method r.chunks) s
  unfolding handle_path
  handle_path_auth = refl

  pub handle_body_auth :
      (body : List ℕ)
      → handle_body env lib r full_path d body s ≡ handle_auth env lib r full_path body d s
  unfolding handle_body internal_user_route route_of_rest strip_prefix
  handle_body_auth body = refl

  pub kept_by_auth :
      (body : List ℕ)
      → (handle_admitted env lib r full_path body d s.db).1 ≡ s.db
      → (handle_auth env lib r full_path body d s).1.db ≡ s.db
  unfolding handle_auth
  kept_by_auth body h = kept_by_origin (origin_decision env r) _ s (
      kept_by_limiter
        (consume (rate_key env r full_path body) (auth_rate_limit_policy full_path) r.received_at
          s.counters)
        (handle_admitted env lib r full_path body d) s.db h)

  module _ (named : r.pathname ≡ some full_path) where
    pub handle_request_read :
        handle_request env lib r d s
        ≡ or_internal_error (handle_read env lib r full_path d (read_body r.method r.chunks) s)
    unfolding handle_request
    handle_request_read =
        ap (λ path. or_internal_error (handle_path env lib r d path s)) named
        ∙ ap or_internal_error handle_path_auth

    pub handle_request_auth :
        (body : List ℕ)
        → read_body r.method r.chunks ≡ ok body
        → handle_request env lib r d s
          ≡ or_internal_error (handle_auth env lib r full_path body d s)
    unfolding handle_read
    handle_request_auth body e =
        handle_request_read
        ∙ ap (λ b. or_internal_error (handle_read env lib r full_path d b s)) e
        ∙ ap or_internal_error (handle_body_auth body)

    pub kept_by_read :
        (b : Result (List ℕ))
        → ((body : List ℕ) → (handle_auth env lib r full_path body d s).1.db ≡ s.db)
        → (handle_read env lib r full_path d b s).1.db ≡ s.db
    unfolding handle_read
    kept_by_read (err e) all = refl
    kept_by_read (ok body) all =
        ap (λ (x : Result HttpReply × Server). x.1.db) (handle_body_auth body) ∙ all body

    -- What the endpoint leaves alone, the request does.
    pub kept_by_endpoint :
        ((body : List ℕ) → (handle_admitted env lib r full_path body d s.db).1 ≡ s.db)
        → (handle_request env lib r d s).1.db ≡ s.db
    kept_by_endpoint h =
        ap (λ (x : HttpReply × Server). x.1.db) handle_request_read
        ∙ ap (λ (x : Server). x.db)
            (or_internal_error_server
              (handle_read env lib r full_path d (read_body r.method r.chunks) s))
        ∙ kept_by_read (read_body r.method r.chunks) (λ body. kept_by_auth body (h body))
