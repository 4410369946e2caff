-- ===== src/Server/Config/Hardening.antt =====
-- What a configuration that `loadConfig` accepts in production guarantees.
use rsp_website.Prelude.{
  ◌≡◌, refl, ◌≢◌, ◌⊎◌, inl, inr, ap, ◌∙◌, Bool, true, false, not, ◌&&◌, ◌||◌, Option, none, some,
  List, [], ◌∷◌, if◌then◌else◌, arith, codes, Text, text_eq, text_eq_iff, Bool-cases,
}
use rsp_website.Prelude.Texts.{text_ne}
use rsp_website.Server.Config.{
  production, EmailProvider, smtp, ses, Environment, BaseUrl, Issue, local_secret,
  local_identity_token, is_given, is_production, is_canary, is_ses, issue_if, google_issues,
  canary_issues, release_issues, production_issues, environment_issues, is_canary_host,
}
use rsp_website.Server.Config.Loading.{
  AuthConfig, GoogleConfig, smtp_email, ses_email, Loaded, loaded, failed, google_config,
  email_config, config_of, is_only, check_origins, load_checked, load_config,
}

issue_if_nil :
    (b : Bool) (issue : Issue) (later : List Issue)
    → issue_if b issue later ≡ []
    → (b ≡ false) × (later ≡ [])
issue_if_nil true issue later h = cc
issue_if_nil false issue later h = (refl, h)

of_then : (b : Bool) (xs ys : List Issue) → b ≡ true → (if b then xs else ys) ≡ [] → xs ≡ []
of_then true xs ys e h = h
of_then false xs ys e h = cc

of_else : (b : Bool) (xs ys : List Issue) → b ≡ false → (if b then xs else ys) ≡ [] → ys ≡ []
of_else true xs ys e h = cc
of_else false xs ys e h = h

of_negated : (b : Bool) → not b ≡ false → b ≡ true
of_negated true h = refl
of_negated false h = cc

-- Mail goes out by SES from Google-enabled production, and to a captured mailbox in a canary.
abbrev pub IsMailed : Environment → AuthConfig → Type 0
IsMailed e c =
    ((is_canary e.app_env ≡ true)
      × (c.email ≡ smtp_email e.email_from e.smtp_host e.smtp_port e.smtp_secure))
    ⊎ ((is_canary e.app_env ≡ false)
        × (c.email ≡ ses_email e.email_from e.aws_region)
        × ((g : GoogleConfig) × (c.google ≡ some g)))

-- Own secrets that differ, cookies and proxy headers as they must be.
abbrev pub IsHardened : AuthConfig → Type 0
IsHardened c =
    (c.secret ≢ local_secret)
    × (c.identity_service.token ≢ local_identity_token)
    × (c.secret ≢ c.identity_service.token)
    × (c.secure_cookies ≡ true)
    × (c.trust_proxy_headers ≡ true)
    × (c.ip_address_header ≡ codes "x-real-ip")

production_issues_nil :
    (e : Environment) (url : BaseUrl) (origins : List Text)
    → production_issues e url ≡ []
    → (url.protocol ≡ codes "https:")
      × IsHardened (config_of e origins)
      × ((if is_canary e.app_env then canary_issues e url else release_issues e) ≡ [])
unfolding production_issues config_of
production_issues_nil e url origins h =
    let (https, h1) = issue_if_nil _ _ _ h in
    let (own_secret, h2) = issue_if_nil _ _ _ h1 in
    let (own_token, h3) = issue_if_nil _ _ _ h2 in
    let (cookies, h4) = issue_if_nil _ _ _ h3 in
    let (proxy, h5) = issue_if_nil _ _ _ h4 in
    let (header, h6) = issue_if_nil _ _ _ h5 in
    let (two_secrets, h7) = issue_if_nil _ _ _ h6 in
    (
      (text_eq_iff _ _).0 (of_negated _ https),
      (
        text_ne _ _ own_secret,
        text_ne _ _ own_token,
        text_ne _ _ two_secrets,
        of_negated _ cookies,
        of_negated _ proxy,
        (text_eq_iff _ _).0 (of_negated _ header),
      ),
      h7,
    )

google_given :
    (id key : Option Text)
    → (not (is_given id) || not (is_given key)) ≡ false
    → (g : GoogleConfig) × (google_config id key ≡ some g)
unfolding google_config
google_given none key h = cc
google_given (some []) key h = cc
google_given (some (c ∷ s)) none h = cc
google_given (some (c ∷ s)) (some []) h = cc
google_given (some (c ∷ s)) (some (d ∷ t)) h = (_, refl)

ses_of : (p : EmailProvider) → not (is_ses p) ≡ false → p ≡ ses
ses_of smtp h = cc
ses_of ses h = refl

smtp_of : (p : EmailProvider) → is_ses p ≡ false → p ≡ smtp
smtp_of smtp h = refl
smtp_of ses h = cc

release_issues_nil :
    (e : Environment)
    → release_issues e ≡ []
    → (email_config e ≡ ses_email e.email_from e.aws_region)
      × ((g : GoogleConfig) × (google_config e.google_client_id e.google_client_secret ≡ some g))
unfolding release_issues email_config
release_issues_nil e h =
    let (given, h1) =
      issue_if_nil (not (is_given e.google_client_id) || not (is_given e.google_client_secret)) _ _
        h in
    let (sends, _) = issue_if_nil (not (is_ses e.email_provider)) _ _ h1 in
    (rw (ses_of _ sends) refl, google_given _ _ given)

canary_issues_nil :
    (e : Environment) (url : BaseUrl)
    → canary_issues e url ≡ []
    → email_config e ≡ smtp_email e.email_from e.smtp_host e.smtp_port e.smtp_secure
unfolding canary_issues email_config
canary_issues_nil e url h =
    let (_, h1) = issue_if_nil (not (is_canary_host url.hostname)) _ _ h in
    let (sends, _) = issue_if_nil (is_ses e.email_provider) _ _ h1 in rw (smtp_of _ sends) refl

google_issues_nil : (e : Environment) (later : List Issue) → google_issues e later ≡ [] → later ≡ []
unfolding google_issues
google_issues_nil e later h = ground arith

-- Without an issue a production environment is hardened, on https, and set up for its mail.
environment_issues_nil :
    (e : Environment) (url : BaseUrl) (origins : List Text)
    → environment_issues e url ≡ []
    → e.node_env ≡ production
    → (url.protocol ≡ codes "https:")
      × IsHardened (config_of e origins)
      × IsMailed e (config_of e origins)
unfolding environment_issues config_of
environment_issues_nil e url origins h p =
    let (_, checked) =
      issue_if_nil
        (not (text_eq url.pathname (codes "/"))
          || not (text_eq url.query [])
          || not (text_eq url.fragment []))
        _ _ (google_issues_nil e _ h) in
    let checks = of_then (is_production e.node_env) _ _ (ap is_production p) checked in
    let (https, hardened, mail) = production_issues_nil e url origins checks in
    elim (Bool-cases (is_canary e.app_env)) [
      | inl t ↦ (https, hardened, inl (t, canary_issues_nil e url (of_then _ _ _ t mail)))
      | inr f ↦
          let (sent, google) = release_issues_nil e (of_else _ _ _ f mail) in
          (https, hardened, inr (f, sent, google))
    ]

of_is_only : (origin : Text) (ts : List Text) → is_only origin ts ≡ true → ts ≡ origin ∷ []
of_is_only origin [] h = cc
of_is_only origin (t ∷ []) h = let same : t ≡ origin = (text_eq_iff _ _).0 h in rw same refl
of_is_only origin (t ∷ u ∷ ts) h = cc

origins_of :
    (e : Environment) (origins : List Text) → (config_of e origins).trusted_origins ≡ origins
unfolding config_of
origins_of e origins = refl

loaded_of :
    (is_checked only : Bool) (x c : AuthConfig)
    → (if is_checked && not only then failed else loaded x) ≡ loaded c
    → is_checked ≡ true
    → (only ≡ true) × (c ≡ x)
loaded_of true true x c h t = (refl, cc)
loaded_of true false x c h t = cc
loaded_of false only x c h t = cc

parsed_of :
    (o : Option BaseUrl) (load : BaseUrl → Loaded) (c : AuthConfig)
    → (elim o [ none ↦ failed | some url ↦ load url ]) ≡ loaded c
    → (url : BaseUrl) × (o ≡ some url) × (load url ≡ loaded c)
parsed_of none load c h = cc
parsed_of (some url) load c h = (url, refl, h)

module _ (parse_url : Text → Option BaseUrl) where
  check_origins_loaded :
      (e : Environment) (url : BaseUrl) (o : Option (List Text)) (c : AuthConfig)
      → check_origins parse_url e url o ≡ loaded c
      → e.node_env ≡ production
      → c ≡ config_of e (url.url_origin ∷ [])
  unfolding check_origins
  check_origins_loaded e url none c h p = cc
  check_origins_loaded e url (some origins) c h p =
      let (only, same) = loaded_of _ _ _ c h (ap is_production p) in
      same ∙ ap (config_of e) (of_is_only _ origins only)

  load_checked_loaded :
      (e : Environment) (url : BaseUrl) (issues : List Issue) (c : AuthConfig)
      → load_checked parse_url e url issues ≡ loaded c
      → e.node_env ≡ production
      → (issues ≡ []) × (c ≡ config_of e (url.url_origin ∷ []))
  unfolding load_checked
  load_checked_loaded e url (issue ∷ issues) c h p = cc
  load_checked_loaded e url [] c h p = (refl, check_origins_loaded e url _ c h p)

  -- A configuration that is loaded in production has the base URL on https, with its origin as the one
  -- trusted origin; its secrets are not those of the repository and differ, its cookies are secure, the
  -- address of the client is read from x-real-ip; and mail goes out by SES with Google's credentials
  -- given, or by SMTP in a canary.
  pub load_config-IsHardened :
      (e : Environment) (c : AuthConfig)
      → load_config parse_url e ≡ loaded c
      → e.node_env ≡ production
      → ((url : BaseUrl) × (parse_url e.better_auth_url ≡ some url)
          × (url.protocol ≡ codes "https:")
          × (c.trusted_origins ≡ url.url_origin ∷ []))
        × IsHardened c
        × IsMailed e c
  unfolding load_config
  load_config-IsHardened e c h p =
      let (url, parsed, checked) =
        parsed_of (parse_url e.better_auth_url)
          (λ u. load_checked parse_url e u (environment_issues e u)) c h in
      let (clean, same) = load_checked_loaded e url _ c checked p in
      let (https, hardened, mailed) = environment_issues_nil e url (url.url_origin ∷ []) clean p in
      rw same ((url, parsed, https, origins_of e (url.url_origin ∷ [])), hardened, mailed)
