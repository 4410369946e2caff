-- ===== src/Security/Origin/Decisions.antt =====
-- Exactly which browser requests pass the origin check.
use rsp_website.Prelude.{
  String, ◌≡◌, refl, ◌≢◌, ◌↔◌, inl, inr, true, Option, none, some, List, arith, str_eq, eq_iff,
  IsIn, includes, includes_iff, Text, Option-cases,
}
use mathlib.Core.Path.{subst}
use rsp_website.Security.Origin.{
  allowed, refused, missing_origin, Url, is_state_changing_method, header_origin, check_origin,
  check_header, evaluate_browser_origin,
}

-- The URL names a real origin and has neither a user name nor a password.
abbrev pub IsBare : Url → Type 0
IsBare url = (url.origin ≢ "null") × (url.username ≡ "") × (url.password ≡ "")

texts :
    (url : Url)
    → ((str_eq url.origin "null" ≡ true) ↔ (url.origin ≡ "null"))
      × ((str_eq url.username "" ≡ true) ↔ (url.username ≡ ""))
      × ((str_eq url.password "" ≡ true) ↔ (url.password ≡ ""))
texts url = (eq_iff url.origin "null", eq_iff url.username "", eq_iff url.password "")

module _ (parse_url : String → Option Url) where
  pub header_origin_iff :
      (header origin : String)
      → (header_origin parse_url header ≡ some origin)
        ↔ ((url : Url) × (parse_url header ≡ some url) × IsBare url × (url.origin ≡ origin))
  unfolding header_origin
  header_origin_iff header origin = elim (Option-cases (parse_url header)) [
    | inl e ↦ rw (e, header_origin) (λ h. cc, λ h. cc (h.1))
    | inr (url, e) ↦
        rw (e, header_origin)
          (
            λ h. (url, refl, ground (arith, texts url), ground (arith, texts url)),
            λ (u, same, bare, o). ground (arith, texts url),
          )
  ]

  check_origin_iff :
      (o : Option String) (trusted : List String) (origin : String)
      → (check_origin parse_url o trusted ≡ allowed (some origin))
        ↔ ((o ≡ some origin) × IsIn origin trusted)
  unfolding check_origin
  check_origin_iff none trusted origin = (λ h. cc, λ h. cc (h.0))
  check_origin_iff (some a) trusted origin = (
    λ h. (ground arith, subst (λ x. IsIn x trusted) (ground arith) (is_in.0 (ground arith))),
    λ (e, m). rw (is_in.1 (subst (λ x. IsIn x trusted) (ground arith) m)) (ground arith),
  )
    where
      is_in : (includes trusted a ≡ true) ↔ IsIn a trusted
      is_in = includes_iff trusted a

  check_header_iff :
      (header origin : String) (trusted : List String)
      → (check_header parse_url (some header) trusted ≡ allowed (some origin))
        ↔ ((header ≢ "") × (header_origin parse_url header ≡ some origin) × IsIn origin trusted)
  unfolding check_header
  check_header_iff header origin trusted =
      ground
        (arith, eq_iff header "", check_origin_iff (header_origin parse_url header) trusted origin)

  -- A request of a method that changes state is refused if it has no Origin header. With the header
  -- `header` it passes, with the origin `origin`, exactly when the header is not empty and is a URL
  -- of a real origin without user name and password, and that origin is one of the trusted ones.
  pub evaluate_browser_origin_iff :
      (method : Text) (header origin : String) (trusted : List String)
      → is_state_changing_method method ≡ true
      → (evaluate_browser_origin parse_url method none trusted ≡ refused missing_origin)
        × ((evaluate_browser_origin parse_url method (some header) trusted ≡ allowed (some origin))
            ↔ ((header ≢ "")
                × ((url : Url) × (parse_url header ≡ some url) × IsBare url × (url.origin ≡ origin))
                × IsIn origin trusted))
  unfolding evaluate_browser_origin check_header
  evaluate_browser_origin_iff method header origin trusted changes = rw changes (
    refl,
    (
      (λ h.
          let (ne, o, m) = (check_header_iff header origin trusted).0 h in
          (ne, (header_origin_iff header origin).0 o, m)),
      (λ (ne, o, m).
          (check_header_iff header origin trusted).1
            (ne, (header_origin_iff header origin).1 o, m)),
    ),
  )
