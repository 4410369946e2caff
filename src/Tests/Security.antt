-- ===== src/Tests/Security.antt =====
-- The theorems on the security policies and the emails at concrete inputs.
use rsp_website.Prelude.{
  ℕ, zero, suc, map, ap, ◌≡◌, ◌≢◌, ◌↔◌, refl, min, String, true, Option, none, some, List, [], ◌∷◌,
  ◌++◌, arith, IsIn, codes, Text, or_default,
}
use rsp_website.Prelude.Texts.{to_upper, upper_code, strip_prefix}
use rsp_website.Security.AccessPolicy.{
  active, at_ms, AuthUserForClaims, AuthSessionForClaims, RspAccessClaims, build_access_claims,
  state_claims, active_claims, is_mfa_recent,
}
use rsp_website.Security.AccessPolicy.Claims.{IsWithin, build_access_claims_sound}
use rsp_website.Security.Linking.{FreshSession, ExplicitLink, allowed, evaluate_explicit_link}
use rsp_website.Security.Linking.Decisions.{IsFresh, IsSameEmail, evaluate_explicit_link_iff}
use rsp_website.Security.Origin.{
  Url, evaluate_browser_origin, is_state_changing_method, refused, missing_origin,
}
use rsp_website.Security.Origin.Decisions.{IsBare, evaluate_browser_origin_iff}
use rsp_website.Security.RateLimit.{RateLimitPolicy, get_counter}
use rsp_website.Security.RateLimit.Windows.{Requests, passed, asked, passed_per_window}
use rsp_website.Security.RateKey.{KeyOptions}
use rsp_website.Security.BackupCodes.{
  encode_entries, print_values, encode_each, encode_code, cons_option, is_stored_hash,
  hash_backup_code, stored_form, Codec, Bytes, encrypt, is_hashed_backup_code_payload,
  matches_backup_code,
}
use rsp_website.Security.BackupCodes.Secrecy.{AreStored, encrypt-IsHashed, matches-hash_backup_code}
use rsp_website.Email.Templates.{escape_html}
use rsp_website.Email.Templates.Escaping.{escape_each, escape_html-eq-escape_each}

abbrev member : AuthUserForClaims
member = record {
  id = "ada";
  email_verified = true;
  account_state = some active;
  security_version = none;
}

abbrev signed_in : AuthSessionForClaims
signed_in = record { id = "s1"; mfa_verified_at = some (at_ms 5000) }

abbrev issued : RspAccessClaims
issued = record {
  auth_user_id = "ada";
  session_id = "s1";
  email_verified = true;
  account_state = active;
  security_version = 1;
  mfa_verified = true;
  mfa_verified_at = some 5000;
}

abbrev fresh : FreshSession
fresh = record {
  authenticated_user_id = some (codes "ada");
  session_created_at = some (at_ms 1000);
  now = 2000;
  fresh_age_seconds = 300;
}

abbrev google_link : ExplicitLink
google_link = record {
  session = fresh;
  provider = codes "google";
  current_email = codes "ada@example.org";
  provider_email = some (codes " ADA@example.org");
}

evaluate_explicit_link_iff_example : (evaluate_explicit_link google_link ≡ allowed) ↔ (
    IsFresh fresh
    × (codes "google" ≡ codes "google")
    × IsSameEmail (some (codes " ADA@example.org")) (codes "ada@example.org"))
evaluate_explicit_link_iff_example = evaluate_explicit_link_iff google_link

abbrev site_origin : String
site_origin = "https://rsp.example"

abbrev site : Url
site = record { origin = "https://rsp.example"; username = ""; password = "" }

abbrev parse_site : String → Option Url
parse_site header = some site

evaluate_browser_origin_iff_example :
    (evaluate_browser_origin parse_site (codes "POST") none (site_origin ∷ [])
      ≡ refused missing_origin)
    × ((evaluate_browser_origin parse_site (codes "POST") (some site_origin) (site_origin ∷ [])
          ≡ rsp_website.Security.Origin.allowed (some site_origin))
        ↔ ((site_origin ≢ "")
            × ((url : Url) × (parse_site site_origin ≡ some url)
                × IsBare url
                × (url.origin ≡ site_origin))
            × IsIn site_origin (site_origin ∷ [])))
unfolding is_state_changing_method to_upper upper_code
evaluate_browser_origin_iff_example =
    evaluate_browser_origin_iff parse_site (codes "POST") site_origin site_origin (site_origin ∷ [])
      refl

abbrev two_a_minute : String → RateLimitPolicy
two_a_minute key = record { max_requests = 2; window_seconds = 60 }

abbrev three_requests : Requests
three_requests = ("ada", 10) ∷ ("bob", 20) ∷ ("ada", 30) ∷ []

passed_per_window_example :
    passed two_a_minute "ada" (("ada", 5) ∷ three_requests) []
    ≡ min (asked "ada" (("ada", 5) ∷ three_requests)) 2
unfolding get_counter
passed_per_window_example =
    passed_per_window two_a_minute "ada" 5 three_requests [] tt refl (ground arith) (ground arith)

escape_html-eq-escape_each_example : escape_html (codes "<a & b>") ≡ escape_each (codes "<a & b>")
escape_html-eq-escape_each_example = escape_html-eq-escape_each (codes "<a & b>")

build_access_claims_sound_example :
    (true ≡ true)
    × (or_default (some active) active ≡ active)
    × (issued.auth_user_id ≡ "ada")
    × (issued.session_id ≡ "s1")
    × (issued.security_version ≡ or_default none 1)
    × ((true ≡ true) ↔ ((t : ℕ) × (some (at_ms 5000) ≡ some (at_ms t)) × IsWithin t 9000 60))
unfolding build_access_claims state_claims active_claims is_mfa_recent
build_access_claims_sound_example = build_access_claims_sound member signed_in 9000 60 issued refl

abbrev key_options : Text → KeyOptions
key_options address = record {
  pathname = codes "/api/auth/sign-in/email";
  ip_address = codes "10.0.0.1";
  cookie_header = none;
  email = some address;
  secret = codes "secret";
}

-- a codec whose array holds each text with its codes raised by one, and a zero behind it
abbrev print_texts : List Text → Text
print_texts [] = []
print_texts (t ∷ ts) = map suc t ++ 0 ∷ print_texts ts

abbrev add_code : ℕ → List Text → List Text
add_code c [] = (c ∷ []) ∷ []
add_code c (t ∷ ts) = (c ∷ t) ∷ ts

abbrev parse_texts : Text → List Text
parse_texts [] = []
parse_texts (zero ∷ rest) = [] ∷ parse_texts rest
parse_texts (suc c ∷ rest) = add_code c (parse_texts rest)

parse_texts_first :
    (t : Text) (ts : List Text) (rest : Text)
    → parse_texts rest ≡ ts
    → parse_texts (map suc t ++ 0 ∷ rest) ≡ t ∷ ts
parse_texts_first [] ts rest h = ap (λ (x : List Text). [] ∷ x) h
parse_texts_first (c ∷ cs) ts rest h = ap (add_code c) (parse_texts_first cs ts rest h)

parse_texts-print_texts : (vs : List Text) → parse_texts (print_texts vs) ≡ vs
parse_texts-print_texts [] = refl
parse_texts-print_texts (t ∷ ts) =
    parse_texts_first t ts (print_texts ts) (parse_texts-print_texts ts)

abbrev sample_bytes : Bytes
sample_bytes =
    1 ∷ 2 ∷ 3 ∷ 4 ∷ 5 ∷ 6 ∷ 7 ∷ 8 ∷ 1 ∷ 2 ∷ 3 ∷ 4 ∷ 5 ∷ 6 ∷ 7 ∷ 8 ∷ 1 ∷ 2 ∷ 3 ∷ 4 ∷ 5 ∷ 6 ∷ 7 ∷ 8
    ∷ 1 ∷ 2 ∷ 3 ∷ 4 ∷ 5 ∷ 6 ∷ 7 ∷ 8 ∷ []

abbrev sample_codec : Codec
sample_codec = record {
  scrypt = λ code salt n. some sample_bytes;
  encode = λ b. codes "A";
  decode = λ t. sample_bytes;
  parse = λ t. some (parse_texts t);
  print = print_texts;
}

abbrev stored_code : Text
stored_code = codes "s1$A$A"

encrypt-IsHashed_example :
    ((values : List Text) × (sample_codec.parse (print_texts (stored_code ∷ [])) ≡ some values)
      × AreStored sample_codec (λ n. sample_bytes) 0 (codes "abc" ∷ []) values)
    × (is_hashed_backup_code_payload sample_codec (print_texts (stored_code ∷ [])) ≡ true)
    × (encrypt sample_codec (λ n. sample_bytes) (print_texts (stored_code ∷ []))
        ≡ some (print_texts (stored_code ∷ [])))
unfolding encrypt encode_entries print_values encode_each encode_code cons_option is_stored_hash
    strip_prefix hash_backup_code stored_form
encrypt-IsHashed_example =
    encrypt-IsHashed sample_codec (λ n. sample_bytes) (λ n. sample_bytes)
      (print_texts (codes "abc" ∷ [])) (print_texts (stored_code ∷ [])) (codes "abc" ∷ [])
      (λ vs. ap some (parse_texts-print_texts vs)) refl refl

matches-hash_backup_code_example : matches_backup_code sample_codec (codes "abc") stored_code ≡ true
unfolding hash_backup_code stored_form
matches-hash_backup_code_example =
    matches-hash_backup_code sample_codec (codes "abc") stored_code sample_bytes sample_bytes b'A'
      b'A' [] [] refl refl refl refl refl (refl, tt) (refl, tt) refl refl
