-- ===== src/Security/Linking/Decisions.antt =====
-- Exactly which sessions count as fresh, and which links are allowed.
use rsp_website.Prelude.{
  ℕ, ◌≡◌, refl, ◌≢◌, ◌↔◌, ◌⊎◌, inl, inr, true, false, Option, none, some, [], ◌∷◌, arith, Text,
  text_eq, text_eq_iff, codes,
}
use rsp_website.Security.AccessPolicy.{Moment, invalid, at_ms}
use rsp_website.Security.AccessPolicy.Claims.{IsWithin}
use rsp_website.Security.Linking.{
  or_else_check, Reason, refused, allowed, FreshSession, ExplicitLink, evaluate_fresh_session,
  normal_email, is_blank, created_fresh, link_checks, is_different, evaluate_explicit_link,
}

-- A named user whose session was created at a time neither in the future nor too long ago.
abbrev pub IsFresh : FreshSession → Type 0
IsFresh o =
    ((u : Text) × (o.authenticated_user_id ≡ some u) × (u ≢ []))
    × ((t : ℕ) × (o.session_created_at ≡ some (at_ms t)) × IsWithin t o.now o.fresh_age_seconds)

-- An absent or empty provider address, or one that reads as the account's own.
abbrev pub IsSameEmail : Option Text → Text → Type 0
IsSameEmail provider current =
    (provider ≡ none)
    ⊎ (provider ≡ some [])
    ⊎ ((t : Text) × (provider ≡ some t) × (normal_email t ≡ normal_email current))

is_blank_iff : (o : Option Text) → (is_blank o ≡ false) ↔ ((u : Text) × (o ≡ some u) × (u ≢ []))
is_blank_iff none = (λ h. cc, λ h. cc (h.1))
is_blank_iff (some []) = (λ h. cc, λ (u, e, n). absurd (n (cc)))
is_blank_iff (some (c ∷ s)) = (λ h. (c ∷ s, refl, λ e. cc), λ _. refl)

created_fresh_iff :
    (o : Option Moment) (now age : ℕ)
    → (created_fresh o now age ≡ allowed) ↔ ((t : ℕ) × (o ≡ some (at_ms t)) × IsWithin t now age)
unfolding created_fresh
created_fresh_iff none now age = (λ h. cc, λ h. cc (h.1))
created_fresh_iff (some invalid) now age = (λ h. cc, λ h. cc (h.1))
created_fresh_iff (some (at_ms t)) now age =
    (λ h. (t, refl, ground arith), λ (u, e, w). ground arith)

-- A session is fresh exactly when it names a user and was created at a valid time that is not in the
-- future and at most the allowed number of seconds ago.
pub evaluate_fresh_session_iff :
    (o : FreshSession) → (evaluate_fresh_session o ≡ allowed) ↔ IsFresh o
unfolding evaluate_fresh_session
evaluate_fresh_session_iff o = ground (
  arith,
  is_blank_iff o.authenticated_user_id,
  created_fresh_iff o.session_created_at o.now o.fresh_age_seconds,
)

is_different_iff :
    (provider : Option Text) (current : Text)
    → (is_different provider current ≡ false) ↔ IsSameEmail provider current
unfolding is_different
is_different_iff none current = (λ _. inl refl, λ _. refl)
is_different_iff (some []) current = (λ _. inr (inl refl), λ _. refl)
is_different_iff (some (c ∷ s)) current = (
  λ h. inr (inr (c ∷ s, refl, same.0 (ground arith))),
  λ p. elim p [ inl e ↦ cc | inr (inl e) ↦ cc | inr (inr (t, e, h)) ↦ ground (arith, same) ],
)
  where
    same :
        (text_eq (normal_email (c ∷ s)) (normal_email current) ≡ true)
        ↔ (normal_email (c ∷ s) ≡ normal_email current)
    same = text_eq_iff (normal_email (c ∷ s)) (normal_email current)

-- A link is allowed exactly when the session is fresh, the provider is Google, and the provider's
-- address, if one is given, reads as the account's own after trimming and lower-casing.
pub evaluate_explicit_link_iff :
    (o : ExplicitLink)
    → (evaluate_explicit_link o ≡ allowed) ↔ (
        IsFresh o.session
        × (o.provider ≡ codes "google")
        × IsSameEmail o.provider_email o.current_email)
unfolding evaluate_explicit_link link_checks
evaluate_explicit_link_iff o = ground (
  arith,
  evaluate_fresh_session_iff o.session,
  text_eq_iff o.provider (codes "google"),
  is_different_iff o.provider_email o.current_email,
)

-- A session that is refused for itself cannot link anything.
pub evaluate_explicit_link-refused :
    (o : ExplicitLink) (r : Reason)
    → evaluate_fresh_session o.session ≡ refused r
    → evaluate_explicit_link o ≡ refused r
unfolding evaluate_explicit_link or_else_check
evaluate_explicit_link-refused o r h = rw h refl
