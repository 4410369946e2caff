-- ===== src/Tests/Config.antt =====
-- The theorems on the configuration at a concrete environment.
use rsp_website.Prelude.{
  ◌≡◌, refl, true, false, Option, none, some, [], ◌∷◌, if◌then◌else◌, codes, Text, text_eq, ◌||◌,
  select_rows, delete_rows,
}
use rsp_website.Prelude.Texts.{to_lower, lower_code, trim, drop_spaces, is_space, strip_prefix}
use rsp_website.Security.RateKey.{split_on}
use rsp_website.Server.Config.{
  production, ses, Environment, BaseUrl, environment_issues, google_issues, production_issues,
  release_issues, contains, strip_slash, distinct, base_not_https, token_reuses_secret,
}
use rsp_website.Server.Config.Loading.{
  config_of, entries, entry_origin, entry_origins, parse_origins, check_origins, load_checked,
  load_config, loaded, invalid, failed,
}
use rsp_website.Server.Config.Hardening.{IsHardened, IsMailed, load_config-IsHardened}

abbrev https_url : BaseUrl
https_url = record {
  url_origin = codes "https://rsp.org";
  protocol = codes "https:";
  hostname = codes "rsp.org";
  pathname = codes "/";
  query = [];
  fragment = [];
}

abbrev http_url : BaseUrl
http_url = record https_url { url_origin = codes "http://rsp.org"; protocol = codes "http:" }

abbrev parse_sample : Text → Option BaseUrl
parse_sample t =
    if text_eq t (codes "https://rsp.org") || text_eq t (codes "https://rsp.org/")
    then some https_url
    else if text_eq t (codes "http://rsp.org")
    then some http_url
    else none

abbrev sample : Environment
sample = record {
  node_env = production;
  app_env = none;
  auth_host = codes "0.0.0.0";
  auth_port = 3001;
  better_auth_url = codes "https://rsp.org";
  better_auth_secret = codes "one";
  database_url = codes "postgresql://db";
  auth_trusted_origins = codes " https://rsp.org/ ,";
  auth_cookie_secure = true;
  auth_trust_proxy_headers = true;
  auth_ip_address_header = codes "X-Real-IP";
  auth_mfa_max_age_seconds = 300;
  rsp_api_audience = codes "rsp-api";
  google_client_id = some (codes "id");
  google_client_secret = some (codes "key");
  email_provider = ses;
  email_from = codes "RSP <mail@rsp.org>";
  smtp_host = codes "localhost";
  smtp_port = 1025;
  smtp_secure = false;
  aws_region = codes "ap-southeast-2";
  identity_service_url = codes "http://api:4000/";
  identity_service_token = codes "two";
  identity_callback_timeout_ms = 3000;
}

sample_loads :
    load_config parse_sample sample ≡ loaded (config_of sample (codes "https://rsp.org" ∷ []))
unfolding load_config load_checked environment_issues google_issues production_issues release_issues
    check_origins parse_origins entries entry_origins entry_origin split_on trim drop_spaces
    is_space strip_slash distinct delete_rows select_rows contains strip_prefix to_lower lower_code
    config_of
sample_loads = refl

-- the issues are listed in the order of the checks
plain_http_refused :
    load_config parse_sample (record sample {
      better_auth_url = codes "http://rsp.org";
      identity_service_token = codes "one";
    })
    ≡ invalid (base_not_https ∷ token_reuses_secret ∷ [])
unfolding load_config load_checked environment_issues google_issues production_issues release_issues
    contains strip_prefix to_lower lower_code
plain_http_refused = refl

-- a second origin is refused in production
second_origin_refused :
    load_config parse_sample
      (record sample { auth_trusted_origins = codes "https://rsp.org,http://rsp.org" })
    ≡ failed
unfolding load_config load_checked environment_issues google_issues production_issues release_issues
    check_origins parse_origins entries entry_origins entry_origin split_on trim drop_spaces
    is_space strip_slash distinct delete_rows select_rows contains strip_prefix to_lower lower_code
second_origin_refused = refl

load_config-IsHardened_example :
    ((url : BaseUrl) × (parse_sample sample.better_auth_url ≡ some url)
      × (url.protocol ≡ codes "https:")
      × ((config_of sample (codes "https://rsp.org" ∷ [])).trusted_origins ≡ url.url_origin ∷ []))
    × IsHardened (config_of sample (codes "https://rsp.org" ∷ []))
    × IsMailed sample (config_of sample (codes "https://rsp.org" ∷ []))
load_config-IsHardened_example =
    load_config-IsHardened parse_sample sample (config_of sample (codes "https://rsp.org" ∷ []))
      sample_loads refl
