-- ===== src/Security/RateKey.antt =====
-- apps/auth/src/security/rate-limit.ts: which limit a path has, and which bucket a request counts in.
-- The HMAC of node:crypto is the parameter `hmac`: the value first, then the secret.
pub mod Buckets
use rsp_website.Prelude.{
  ℕ, suc, Bool, true, false, Option, none, some, List, [], ◌∷◌, ◌++◌, map, if◌then◌else◌, codes,
  ◌==◌, String, some_of,
}
use rsp_website.Prelude.Texts.{Text, text_eq, strip_prefix, trim, to_lower}
use rsp_website.Security.RateLimit.{RateLimitPolicy}

unfoldable pub five_per_minute_paths : List String
five_per_minute_paths =
    "/sign-in/email" ∷ "/sign-up/email" ∷ "/send-verification-email" ∷ "/request-password-reset"
    ∷ "/forget-password" ∷ "/reset-password" ∷ "/two-factor/enable" ∷ "/two-factor/verify-totp"
    ∷ "/two-factor/verify-backup-code" ∷ "/two-factor/generate-backup-codes" ∷ "/connect-password"
    ∷ "/account/deletion/request" ∷ "/account/deletion/recovery" ∷ "/mfa/step-up/totp"
    ∷ "/mfa/step-up/backup-code" ∷ []

-- `pathname.slice('/api/auth'.length) || '/'`
unfoldable pub slash_if_empty : Text → Text
slash_if_empty [] = codes "/"
slash_if_empty (c ∷ s) = c ∷ s

unfoldable pub after_prefix : Option Text → Text → Text
after_prefix none pathname = pathname
after_prefix (some rest) pathname = slash_if_empty rest

unfoldable pub auth_path : Text → Text
unfolding after_prefix slash_if_empty
auth_path pathname = after_prefix (strip_prefix (codes "/api/auth") pathname) pathname

unfoldable pub per_minute : ℕ → RateLimitPolicy
per_minute n = record { max_requests = n; window_seconds = 60 }

unfoldable pub is_five_per_minute : Text → Bool
unfolding five_per_minute_paths
is_five_per_minute path = some_of (λ p. text_eq (codes p) path) five_per_minute_paths

unfoldable pub auth_rate_limit_policy : Text → RateLimitPolicy
unfolding per_minute
auth_rate_limit_policy pathname =
    if is_five_per_minute (auth_path pathname)
    then per_minute 5
    else if text_eq (auth_path pathname) (codes "/token")
    then per_minute 20
    else per_minute 30

-- `header.split(sep)`
add_to_first : ℕ → List Text → List Text
add_to_first c [] = (c ∷ []) ∷ []
add_to_first c (t ∷ ts) = (c ∷ t) ∷ ts

unfoldable pub split_on : ℕ → Text → List Text
unfolding add_to_first
split_on sep [] = [] ∷ []
split_on sep (c ∷ s) =
    let rest = split_on sep s in if c == sep then [] ∷ rest else add_to_first c rest

-- `item.slice(0, i)` and `item.slice(i + 1)` at the first '=', if there is one
pub cut_at : ℕ → Text → Option (Text × Text)
cut_at sep [] = none
cut_at sep (c ∷ s) =
    let rest = cut_at sep s in
    if c == sep then some ([], s) else elim rest [ none ↦ none | some (a, b) ↦ some (c ∷ a, b) ]

-- A cookie's value if the item is the session cookie; an item with an empty name is skipped.
session_value : Option (Text × Text) → Option Text
session_value none = none
session_value (some ([], value)) = none
session_value (some (c ∷ name, value)) =
    if text_eq (trim (c ∷ name)) (codes "rsp-auth.session_token") then some (trim value) else none

pub first_session : List Text → Option Text
unfolding session_value
first_session [] = none
first_session (item ∷ items) =
    let rest = first_session items in
    elim (session_value (cut_at b'=' item)) [
      | none ↦ rest
      | some value ↦ if text_eq value [] then rest else some value
    ]

-- an absent or empty header has no cookie
pub session_cookie : Option Text → Option Text
unfolding first_session
session_cookie none = none
session_cookie (some []) = none
session_cookie (some (c ∷ s)) = first_session (split_on b';' (c ∷ s))

pub record KeyOptions : Type 0 where
  pub pathname : Text
  pub ip_address : Text
  pub cookie_header : Option Text
  pub email : Option Text  -- the body's `email`, if the body is an object that has one as a string
  pub secret : Text

-- a blank address gives no hint
pub account_hint : Option Text → Option Text
account_hint none = none
account_hint (some email) =
    if text_eq (trim email) [] then none else some (codes "email:" ++ to_lower (trim email))

session_identity : Option Text → Text → Text
session_identity none ip = codes "ip:" ++ ip
session_identity (some s) ip = codes "session:" ++ s

identity_of : Option Text → Option Text → Text → Text
unfolding session_identity
identity_of none session ip = session_identity session ip
identity_of (some hint) session ip = hint

pub stable_identity : KeyOptions → Text
unfolding account_hint identity_of session_cookie
stable_identity o = identity_of (account_hint o.email) (session_cookie o.cookie_header) o.ip_address

module _ (hmac : Text → Text → Text) where
  pub auth_rate_limit_key : KeyOptions → Text
  unfolding stable_identity
  auth_rate_limit_key o = o.pathname ++ (codes ":" ++ hmac (stable_identity o) o.secret)
