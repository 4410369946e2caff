-- ===== src/Security/ServiceToken.antt =====
-- apps/auth/src/security/internal-auth.ts: the bearer token of calls between services.
-- The header and the token are texts; equal texts are those with equal UTF-8 bytes, which is what
-- `timingSafeEqual` compares once the lengths agree.
use rsp_website.Prelude.{
  ◌≡◌, ◌↔◌, Bool, true, false, Option, none, some, ◌++◌, arith, codes, Text, text_eq, text_eq_iff,
}
use rsp_website.Prelude.Texts.{strip_prefix, strip_prefix_iff}

abbrev pub bearer : Text
bearer = codes "Bearer "

unfoldable pub matches_token : Option Text → Text → Bool
matches_token none expected = false
matches_token (some actual) expected = text_eq actual expected

unfoldable pub has_valid_service_token : Option Text → Text → Bool
has_valid_service_token none expected = false
has_valid_service_token (some header) expected = matches_token (strip_prefix bearer header) expected

matches_token_iff :
    (o : Option Text) (expected : Text) → (matches_token o expected ≡ true) ↔ (o ≡ some expected)
unfolding matches_token
matches_token_iff none expected = ground arith
matches_token_iff (some actual) expected = ground (arith, text_eq_iff actual expected)

-- A call is authentic exactly when its Authorization header is "Bearer " and then the whole
-- expected token, with nothing before or behind.
pub has_valid_service_token_iff :
    (header : Option Text) (expected : Text)
    → (has_valid_service_token header expected ≡ true) ↔ (header ≡ some (bearer ++ expected))
unfolding has_valid_service_token
has_valid_service_token_iff none expected = (λ h. cc, λ h. cc)
has_valid_service_token_iff (some header) expected = ground (
  arith,
  matches_token_iff (strip_prefix bearer header) expected,
  strip_prefix_iff bearer header expected,
)
