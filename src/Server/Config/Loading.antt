-- ===== src/Server/Config/Loading.antt =====
-- apps/auth/src/config.ts from `parseOrigins` on: the trusted origins and `loadConfig`.
use rsp_website.Prelude.{
  ℕ, Bool, false, not, ◌&&◌, Option, none, some, List, [], ◌∷◌, if◌then◌else◌, Text, text_eq,
}
use rsp_website.Prelude.Texts.{to_lower, trim}
use rsp_website.Security.RateKey.{split_on}
use rsp_website.Server.Config.{
  NodeEnvironment, smtp, ses, Environment, BaseUrl, Issue, is_production, is_given,
  environment_issues, strip_slash, distinct,
}

pub record GoogleConfig : Type 0 where
  pub client_id : Text
  pub client_secret : Text

pub data EmailConfig : Type 0 where
  smtp_email : (from host : Text) (port : ℕ) (secure : Bool) → EmailConfig
  ses_email : (from region : Text) → EmailConfig

pub record IdentityServiceConfig : Type 0 where
  pub service_url : Text
  pub token : Text
  pub timeout_ms : ℕ

pub record AuthConfig : Type 0 where
  pub node_environment : NodeEnvironment
  pub host : Text
  pub port : ℕ
  pub base_url : Text
  pub secret : Text
  pub database : Text
  pub trusted_origins : List Text
  pub secure_cookies : Bool
  pub trust_proxy_headers : Bool
  pub ip_address_header : Text
  pub mfa_max_age_seconds : ℕ
  pub api_audience : Text
  pub google : Option GoogleConfig
  pub email : EmailConfig
  pub identity_service : IdentityServiceConfig

-- `invalid` is zod's exception with its issues, `failed` any other exception
pub data Loaded : Type 0 where
  loaded : AuthConfig → Loaded
  invalid : List Issue → Loaded
  failed : Loaded

unfoldable pub google_config : Option Text → Option Text → Option GoogleConfig
google_config none _ = none
google_config (some _) none = none
google_config (some id) (some key) =
    if is_given (some id) && is_given (some key)
    then some (record { client_id = id; client_secret = key })
    else none

unfoldable pub email_config : Environment → EmailConfig
email_config e = elim e.email_provider [
  | ses ↦ ses_email e.email_from e.aws_region
  | smtp ↦ smtp_email e.email_from e.smtp_host e.smtp_port e.smtp_secure
]

unfoldable pub config_of : Environment → List Text → AuthConfig
config_of e origins = record {
  node_environment = e.node_env;
  host = e.auth_host;
  port = e.auth_port;
  base_url = strip_slash e.better_auth_url;
  secret = e.better_auth_secret;
  database = e.database_url;
  trusted_origins = origins;
  secure_cookies = e.auth_cookie_secure;
  trust_proxy_headers = e.auth_trust_proxy_headers;
  ip_address_header = to_lower e.auth_ip_address_header;
  mfa_max_age_seconds = e.auth_mfa_max_age_seconds;
  api_audience = e.rsp_api_audience;
  google = google_config e.google_client_id e.google_client_secret;
  email = email_config e;
  identity_service = record {
    service_url = strip_slash e.identity_service_url;
    token = e.identity_service_token;
    timeout_ms = e.identity_callback_timeout_ms;
  };
}

-- `.map((entry) => entry.trim()).filter(Boolean)`
unfoldable pub entries : List Text → List Text
entries [] = []
entries (t ∷ ts) = let rest = entries ts in if is_given (some (trim t)) then trim t ∷ rest else rest

-- `trustedOrigins.length === 1 && trustedOrigins[0] === origin`
abbrev pub is_only : Text → List Text → Bool
is_only origin [] = false
is_only origin (t ∷ []) = text_eq t origin
is_only origin (_ ∷ _ ∷ _) = false

module _ (parse_url : Text → Option BaseUrl) where
  -- the origin of an entry of the list, if the entry is one; else the exception
  unfoldable pub entry_origin : Text → Option Text
  entry_origin entry = elim (parse_url entry) [
    | none ↦ none
    | some url ↦ if text_eq url.url_origin (strip_slash entry) then some url.url_origin else none
  ]

  unfoldable pub entry_origins : List Text → Option (List Text)
  entry_origins [] = some []
  entry_origins (t ∷ ts) = elim (entry_origin t) [
    | none ↦ none
    | some origin ↦ elim (entry_origins ts) [ none ↦ none | some rest ↦ some (origin ∷ rest) ]
  ]

  unfoldable pub parse_origins : Text → BaseUrl → Option (List Text)
  parse_origins value url = elim (entry_origins (entries (split_on b',' value))) [
    | none ↦ none
    | some origins ↦ some (distinct (url.url_origin ∷ origins))
  ]

  unfoldable pub check_origins : Environment → BaseUrl → Option (List Text) → Loaded
  check_origins e url none = failed
  check_origins e url (some origins) =
      if is_production e.node_env && not (is_only url.url_origin origins)
      then failed
      else loaded (config_of e origins)

  unfoldable pub load_checked : Environment → BaseUrl → List Issue → Loaded
  load_checked e url (issue ∷ issues) = invalid (issue ∷ issues)
  load_checked e url [] = check_origins e url (parse_origins e.auth_trusted_origins url)

  unfoldable pub load_config : Environment → Loaded
  load_config e = elim (parse_url e.better_auth_url) [
    | none ↦ failed
    | some url ↦ load_checked e url (environment_issues e url)
  ]
