-- ===== src/Security/RateKey/Buckets.antt =====
-- Which requests share a bucket, and which limit a path has under either spelling.
use rsp_website.Prelude.{
  ◌≡◌, refl, sym, ap, ◌∙◌, if◌then◌else◌, ◌≢◌, none, some, [], ◌∷◌, ◌++◌, arith, codes,
}
use rsp_website.Prelude.Texts.{
  Text, text_eq, text_eq_iff, trim, to_lower, strip_prefix, strip_prefix_iff, nil_of_to_lower,
  to_lower_nil,
}
use rsp_website.Security.RateKey.{
  auth_path, per_minute, is_five_per_minute, auth_rate_limit_policy, session_cookie, KeyOptions,
  stable_identity, auth_rate_limit_key,
}

-- A request with an address counts against that address, trimmed and lower-cased; one without
-- counts against its session cookie, and one with neither against its IP address.
pub stable_identity_lem :
    (o : KeyOptions)
    → ((e : Text)
        → o.email ≡ some e
        → trim e ≢ []
        → stable_identity o ≡ codes "email:" ++ to_lower (trim e))
      × ((s : Text)
          → o.email ≡ none
          → session_cookie o.cookie_header ≡ some s
          → stable_identity o ≡ codes "session:" ++ s)
      × (o.email ≡ none
          → session_cookie o.cookie_header ≡ none
          → stable_identity o ≡ codes "ip:" ++ o.ip_address)
unfolding stable_identity
stable_identity_lem o = (
  λ e given filled. rw given (ground (arith, text_eq_iff (trim e) [])),
  λ s absent cookie. rw absent (rw cookie refl),
  λ absent bare. rw absent (rw bare refl),
)

-- Two requests for one path and one account share a bucket, however the address is cased or padded
-- and wherever the requests come from.
pub auth_rate_limit_key_of_email :
    (hmac : Text → Text → Text) (o p : KeyOptions) (e f : Text)
    → o.pathname ≡ p.pathname
    → o.secret ≡ p.secret
    → o.email ≡ some e
    → p.email ≡ some f
    → trim e ≢ []
    → to_lower (trim e) ≡ to_lower (trim f)
    → auth_rate_limit_key hmac o ≡ auth_rate_limit_key hmac p
unfolding auth_rate_limit_key
auth_rate_limit_key_of_email hmac o p e f path secret oe pf filled same =
    let identity =
      (stable_identity_lem o).0 e oe filled
      ∙ ap (λ (t : Text). codes "email:" ++ t) same
      ∙ sym ((stable_identity_lem p).0 f pf filled') in
    ap₃ path identity secret
  where
    filled' : trim f ≢ []
    filled' h = filled (nil_of_to_lower (trim e) (same ∙ ap to_lower h ∙ to_lower_nil))

    ap₃ :
        o.pathname ≡ p.pathname
        → stable_identity o ≡ stable_identity p
        → o.secret ≡ p.secret
        → auth_rate_limit_key hmac o ≡ auth_rate_limit_key hmac p
    ap₃ a b c = rw (a, b, c) refl

auth_path-prefix : (rest : Text) → rest ≢ [] → auth_path (codes "/api/auth" ++ rest) ≡ rest
unfolding auth_path
auth_path-prefix [] filled = absurd (filled refl)
auth_path-prefix (c ∷ s) filled =
    rw ((strip_prefix_iff (codes "/api/auth") (codes "/api/auth" ++ c ∷ s) (c ∷ s)).1 refl) refl

auth_path_bare :
    (path : Text) → strip_prefix (codes "/api/auth") path ≡ none → auth_path path ≡ path
unfolding auth_path
auth_path_bare path bare = rw bare refl

-- A path has the same limit with the prefix of the auth API as without it.
pub auth_rate_limit_policy-prefix :
    (rest : Text)
    → strip_prefix (codes "/api/auth") rest ≡ none
    → rest ≢ []
    → auth_rate_limit_policy (codes "/api/auth" ++ rest) ≡ auth_rate_limit_policy rest
unfolding auth_rate_limit_policy
auth_rate_limit_policy-prefix rest bare filled =
    ap
      (λ (p : Text).
        if is_five_per_minute p
        then per_minute 5
        else if text_eq p (codes "/token")
        then per_minute 20
        else per_minute 30)
      (auth_path-prefix rest filled ∙ sym (auth_path_bare rest bare))
