-- ===== src/Server/Requests/Origins.antt =====
-- The check of the origin in front of every endpoint below `/api/auth/` (apps/auth/src/server.ts).
use mathlib.Core.Path.{subst}
use rsp_website.Prelude.{
  ℕ, ◌≡◌, refl, ◌∙◌, ap, sym, ◌≢◌, ◌⊎◌, inl, inr, String, Bool, true, false, ◌||◌, Option, none,
  some, List, ◌++◌, arith, Bool-cases, Option-cases, codes, Text, text_eq, text_eq_iff, map, length,
  leb, str_eq, eq_iff, IsIn, includes, includes_iff, if◌then◌else◌,
}
use rsp_website.Prelude.Texts.{to_upper, upper_code}
use rsp_website.Security.Origin.{
  Url, Reason, refused, missing_origin, invalid_origin, untrusted_origin, is_state_changing_method,
  header_origin, check_origin, check_header, evaluate_browser_origin,
}
use rsp_website.Security.Origin.Decisions.{IsBare, header_origin_iff}
use rsp_website.Lifecycle.Tx.{ok, err, body_too_large}
use rsp_website.Server.InternalApi.{Draws, problem}
use rsp_website.Server.Http.{HttpRequest, answer, Library, HttpEnv}
use rsp_website.Server.Http.Reading.{joined, read_body_lem}
use rsp_website.Server.Requests.{
  Server, check_origin_then, origin_decision, handle_auth, handle_read, or_internal_error,
  handle_request,
}
use rsp_website.Server.Requests.Checks.{handle_request_read, handle_body_auth}

-- The header is a URL of a real origin without user name and password, and that origin is trusted.
abbrev pub IsTrusted : (String → Option Url) → Option String → List String → Type 0
IsTrusted parse_url none trusted = ⊥
IsTrusted parse_url (some header) trusted =
    (header ≢ "")
    × ((url : Url) × (parse_url header ≡ some url) × IsBare url × IsIn url.origin trusted)

-- A header is refused, or it names a trusted origin.
refused_or_named :
    (parse_url : String → Option Url) (header : String) (trusted : List String)
    → ((reason : Reason) × (check_header parse_url (some header) trusted ≡ refused reason))
      ⊎ IsTrusted parse_url (some header) trusted
unfolding check_header check_origin
refused_or_named parse_url header trusted = elim (Bool-cases (str_eq header "")) [
  | inl blank ↦ inl (missing_origin, rw blank refl)
  | inr given ↦ elim (Option-cases (header_origin parse_url header)) [
    | inl e ↦ inl (invalid_origin, rw (given, e) refl)
    | inr (origin, e) ↦ elim (Bool-cases (includes trusted origin)) [
      | inr other ↦ inl (untrusted_origin, rw (given, e) (rw other refl))
      | inl listed ↦
          let (url, parsed, bare, named) = (header_origin_iff parse_url header origin).0 e in
          let among : IsIn origin trusted = (includes_iff trusted origin).0 listed in
          inr (
            ground (arith, given, eq_iff header ""),
            (url, parsed, bare, subst (λ x. IsIn x trusted) (sym named) among),
          )
    ]
  ]
]

-- A request of a method that changes state and of an origin that is not trusted is refused.
not_trusted :
    (parse_url : String → Option Url) (method : Text) (header : Option String)
    (trusted : List String)
    → is_state_changing_method method ≡ true
    → ¬ IsTrusted parse_url header trusted
    → (reason : Reason) × (evaluate_browser_origin parse_url method header trusted ≡ refused reason)
unfolding evaluate_browser_origin
not_trusted parse_url method none trusted changes foreign =
    (missing_origin, rw changes (unfold check_header in refl))
not_trusted parse_url method (some header) trusted changes foreign =
    elim (refused_or_named parse_url header trusted) [
      | inl (reason, e) ↦ (reason, rw changes e)
      | inr trusted_one ↦ absurd (foreign trusted_one)
    ]

-- Neither GET nor HEAD nor OPTIONS, in whatever case.
abbrev pub IsWriting : Text → Type 0
IsWriting method =
    (to_upper method ≢ codes "GET")
    × (to_upper method ≢ codes "HEAD")
    × (to_upper method ≢ codes "OPTIONS")

IsWriting-changes : (method : Text) → IsWriting method → is_state_changing_method method ≡ true
unfolding is_state_changing_method
IsWriting-changes method (get, head, options) = ground (
  arith,
  get,
  head,
  options,
  text_eq_iff (to_upper method) (codes "GET"),
  text_eq_iff (to_upper method) (codes "HEAD"),
  text_eq_iff (to_upper method) (codes "OPTIONS"),
)

-- The body of such a request is read.
IsWriting-reads :
    (method : Text)
    → IsWriting method
    → text_eq method (codes "GET") || text_eq method (codes "HEAD") ≡ false
IsWriting-reads method (get, head, options) = ground (
  arith,
  differs (codes "GET") (unfold to_upper upper_code in refl) get,
  differs (codes "HEAD") (unfold to_upper upper_code in refl) head,
)
  where
    differs : (t : Text) → to_upper t ≡ t → to_upper method ≢ t → text_eq method t ≡ false
    differs t upper ne = elim (Bool-cases (text_eq method t)) [
      | inl e ↦ absurd (ne (ap to_upper ((text_eq_iff method t).0 e) ∙ upper))
      | inr e ↦ e
    ]

module _ (env : HttpEnv) (lib : Library) (r : HttpRequest) (d : Draws) (s : Server)
    (rest : Text) where
  refused_body :
      (reason : Reason) (body : List ℕ)
      → origin_decision env r ≡ refused reason
      → or_internal_error (handle_auth env lib r (codes "/api/auth/" ++ rest) body d s)
        ≡ (answer (problem 403 "untrusted_origin"), s)
  unfolding handle_auth check_origin_then
  refused_body reason body bad = rw bad (unfold or_internal_error in refl)

  answered :
      (reason : Reason) (body : List ℕ) (fits : Bool)
      → origin_decision env r ≡ refused reason
      → or_internal_error (
          handle_read env lib r
            (codes "/api/auth/" ++ rest)
            d
            (if fits then ok body else err body_too_large)
            s)
        ≡ (
          if fits
              then answer (problem 403 "untrusted_origin")
              else answer (problem 500 "internal_error"),
          s,
        )
  unfolding handle_read or_internal_error
  answered reason body true bad =
      ap or_internal_error (handle_body_auth env lib r d s rest body) ∙ refused_body reason body bad
  answered reason body false bad = refl

  -- Below `/api/auth/` a request of another method than GET, HEAD and OPTIONS changes nothing, not even
  -- a counter of the limiter, unless its Origin header is a URL of a trusted origin without user name
  -- and password. It is answered 403, or 500 if its body has more than a mebibyte.
  pub untrusted_origin_refused :
      r.pathname ≡ some (codes "/api/auth/" ++ rest)
      → IsWriting r.method
      → ¬ IsTrusted env.parse_url r.origin (map env.intern env.internal.trusted_origins)
      → handle_request env lib r d s ≡ (
        if leb (length (joined r.chunks)) 1048576
            then answer (problem 403 "untrusted_origin")
            else answer (problem 500 "internal_error"),
        s,
      )
  untrusted_origin_refused named writes foreign =
      let (reason, bad) =
        not_trusted env.parse_url r.method r.origin _ (IsWriting-changes r.method writes) foreign in
      handle_request_read env lib r d s rest named
      ∙ ap (λ b. or_internal_error (handle_read env lib r (codes "/api/auth/" ++ rest) d b s))
          (read_body_lem r.method r.chunks (IsWriting-reads r.method writes))
      ∙ answered reason (joined r.chunks) (leb (length (joined r.chunks)) 1048576)
          (unfold origin_decision in bad)
