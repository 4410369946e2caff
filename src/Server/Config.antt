-- ===== src/Server/Config.antt =====
-- The configuration of the auth service (apps/auth/src/config.ts): the checks across the variables
-- of the environment, the trusted origins, and `loadConfig`. An `Environment` is what zod's schema of
-- the single variables gives; the URL class is the parameter `parse_url`, `none` its exception.
pub mod Loading
pub mod Hardening
use rsp_website.Prelude.{
  ℕ, Bool, true, false, not, ◌&&◌, ◌||◌, ◌==◌, Option, none, some, List, [], ◌∷◌, ◌++◌,
  if◌then◌else◌, codes, Text, text_eq, is_some, some_of, select_rows, delete_rows, map,
}
use rsp_website.Prelude.Texts.{to_lower, trim, strip_prefix}
use rsp_website.Security.RateKey.{split_on}

abbrev pub local_secret : Text
local_secret = codes "rsp-local-auth-secret-change-before-production"

abbrev pub local_identity_token : Text
local_identity_token = codes "rsp-local-identity-service-token-change-me"

pub data NodeEnvironment : Type 0 where
  development test production : NodeEnvironment

pub data AppEnvironment : Type 0 where
  app_development app_test app_production canary : AppEnvironment

pub data EmailProvider : Type 0 where
  smtp ses : EmailProvider

-- the variables that the checks and `loadConfig` read, parsed
pub record Environment : Type 0 where
  pub node_env : NodeEnvironment
  pub app_env : Option AppEnvironment
  pub auth_host : Text
  pub auth_port : ℕ
  pub better_auth_url : Text
  pub better_auth_secret : Text
  pub database_url : Text
  pub auth_trusted_origins : Text
  pub auth_cookie_secure : Bool
  pub auth_trust_proxy_headers : Bool
  pub auth_ip_address_header : Text
  pub auth_mfa_max_age_seconds : ℕ
  pub rsp_api_audience : Text
  pub google_client_id : Option Text
  pub google_client_secret : Option Text
  pub email_provider : EmailProvider
  pub email_from : Text
  pub smtp_host : Text
  pub smtp_port : ℕ
  pub smtp_secure : Bool
  pub aws_region : Text
  pub identity_service_url : Text
  pub identity_service_token : Text
  pub identity_callback_timeout_ms : ℕ

-- the parts of a parsed URL that the checks read
pub record BaseUrl : Type 0 where
  pub url_origin : Text
  pub protocol : Text
  pub hostname : Text
  pub pathname : Text
  pub query : Text
  pub fragment : Text

pub data Issue : Type 0 where
  google_secret_missing google_id_missing base_not_origin base_not_https : Issue
  local_secret_used local_token_used insecure_cookies untrusted_proxy other_ip_header : Issue
  token_reuses_secret not_a_canary_host canary_sends_email google_required : Issue
  email_not_ses local_sender : Issue

-- `Boolean(value)` of a text that may be missing
abbrev pub is_given : Option Text → Bool
is_given none = false
is_given (some []) = false
is_given (some (_ ∷ _)) = true

abbrev pub is_production : NodeEnvironment → Bool
is_production development = false
is_production test = false
is_production production = true

abbrev pub is_canary : Option AppEnvironment → Bool
is_canary none = false
is_canary (some app_development) = false
is_canary (some app_test) = false
is_canary (some app_production) = false
is_canary (some canary) = true

abbrev pub is_ses : EmailProvider → Bool
is_ses smtp = false
is_ses ses = true

-- `context.addIssue` under an `if`, before the checks that follow
abbrev pub issue_if : Bool → Issue → List Issue → List Issue
issue_if true issue later = issue ∷ later
issue_if false issue later = later

-- `text.includes(part)`
unfoldable pub contains : Text → Text → Bool
contains part [] = text_eq part []
contains part (c ∷ s) = is_some (strip_prefix part (c ∷ s)) || contains part s

unfoldable pub is_canary_host : Text → Bool
is_canary_host hostname = some_of (text_eq (codes "canary")) (split_on b'.' (to_lower hostname))

-- the two variables of Google stand together
unfoldable pub google_issues : Environment → List Issue → List Issue
google_issues e later =
    if is_given e.google_client_id
    then issue_if (not (is_given e.google_client_secret)) google_secret_missing later
    else issue_if (is_given e.google_client_secret) google_id_missing later

unfoldable pub canary_issues : Environment → BaseUrl → List Issue
canary_issues e url =
    issue_if (not (is_canary_host url.hostname)) not_a_canary_host
      (issue_if (is_ses e.email_provider) canary_sends_email [])

unfoldable pub release_issues : Environment → List Issue
release_issues e =
    issue_if (not (is_given e.google_client_id) || not (is_given e.google_client_secret))
      google_required
      (issue_if (not (is_ses e.email_provider)) email_not_ses
        (issue_if (contains (codes "rsp.local") (to_lower e.email_from)) local_sender []))

unfoldable pub production_issues : Environment → BaseUrl → List Issue
production_issues e url = issue_if (not (text_eq url.protocol (codes "https:"))) base_not_https (
    issue_if (text_eq e.better_auth_secret local_secret) local_secret_used (
      issue_if (text_eq e.identity_service_token local_identity_token) local_token_used (
        issue_if (not e.auth_cookie_secure) insecure_cookies (
          issue_if (not e.auth_trust_proxy_headers) untrusted_proxy (
            issue_if (not (text_eq (to_lower e.auth_ip_address_header) (codes "x-real-ip")))
              other_ip_header
              (issue_if (text_eq e.better_auth_secret e.identity_service_token) token_reuses_secret
                (if is_canary e.app_env then canary_issues e url else release_issues e)))))))

unfoldable pub environment_issues : Environment → BaseUrl → List Issue
environment_issues e url = google_issues e (
    issue_if
      (not (text_eq url.pathname (codes "/"))
        || not (text_eq url.query [])
        || not (text_eq url.fragment []))
      base_not_origin (if is_production e.node_env then production_issues e url else []))

-- `text.replace(/\/$/, '')`
unfoldable pub strip_slash : Text → Text
strip_slash [] = []
strip_slash (c ∷ []) = if c == b'/' then [] else c ∷ []
strip_slash (c ∷ d ∷ s) = c ∷ strip_slash (d ∷ s)

-- `[...new Set(texts)]`: each text once, where it stands first
unfoldable pub distinct : List Text → List Text
distinct [] = []
distinct (t ∷ ts) = t ∷ delete_rows (text_eq t) (distinct ts)
