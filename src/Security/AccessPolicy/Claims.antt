-- ===== src/Security/AccessPolicy/Claims.antt =====
-- When an access token is issued, and what it says.
use rsp_website.Prelude.{
  ℕ, ◌+◌, ◌*◌, ◌≤◌, ◌≡◌, refl, ◌↔◌, ◌⊎◌, true, false, Option, none, some, arith, or_default,
}
use rsp_website.Security.AccessPolicy.{
  active, suspended, deletion_pending, deleted, Moment, invalid, at_ms, AccessPolicyError,
  email_not_verified, account_suspended, account_deletion_pending, account_deleted,
  AuthUserForClaims, AuthSessionForClaims, RspAccessClaims, claims, denied, is_mfa_recent,
  build_access_claims,
}

-- A second factor at `t` is neither in the future nor older than the given seconds.
abbrev pub IsWithin : ℕ → ℕ → ℕ → Type 0
IsWithin t now max_age = (t ≤ now) × (now ≤ t + max_age * 1000)

-- The second factor is recent exactly when there is one, at a valid time within the allowed age.
pub is_mfa_recent_iff :
    (o : Option Moment) (now max_age : ℕ)
    → (is_mfa_recent o now max_age ≡ true)
      ↔ ((t : ℕ) × (o ≡ some (at_ms t)) × IsWithin t now max_age)
unfolding is_mfa_recent
is_mfa_recent_iff none now max_age = (λ h. cc, λ h. cc (h.1))
is_mfa_recent_iff (some invalid) now max_age = (λ h. cc, λ h. cc (h.1))
is_mfa_recent_iff (some (at_ms t)) now max_age =
    (λ h. (t, refl, ground arith), λ (u, e, w). ground arith)

-- What `build_access_claims` has checked when it returns claims, and what it copies into them.
claims_fields :
    (user : AuthUserForClaims) (session : AuthSessionForClaims) (now max_age : ℕ)
    (c : RspAccessClaims)
    → build_access_claims user session now max_age ≡ claims c
    → (user.email_verified ≡ true)
      × (or_default user.account_state active ≡ active)
      × (c.auth_user_id ≡ user.id)
      × (c.session_id ≡ session.id)
      × (c.security_version ≡ or_default user.security_version 1)
      × (c.mfa_verified ≡ is_mfa_recent session.mfa_verified_at now max_age)
unfolding build_access_claims
claims_fields user session now max_age c e = ground arith

-- A token is issued only to a verified, active account (an account with no state counts as active).
-- It names the user and the session, carries the stored security version (1 if there is none), and
-- says that the second factor is verified exactly when the session has one, not in the future and
-- at most the allowed number of seconds old.
pub build_access_claims_sound :
    (user : AuthUserForClaims) (session : AuthSessionForClaims) (now max_age : ℕ)
    (c : RspAccessClaims)
    → build_access_claims user session now max_age ≡ claims c
    → (user.email_verified ≡ true)
      × (or_default user.account_state active ≡ active)
      × (c.auth_user_id ≡ user.id)
      × (c.session_id ≡ session.id)
      × (c.security_version ≡ or_default user.security_version 1)
      × ((c.mfa_verified ≡ true)
          ↔ ((t : ℕ) × (session.mfa_verified_at ≡ some (at_ms t)) × IsWithin t now max_age))
build_access_claims_sound user session now max_age c e =
    let (verified, usable, uid, sid, version, recent) =
      claims_fields user session now max_age c e in
    (
      verified,
      usable,
      uid,
      sid,
      version,
      rw recent (is_mfa_recent_iff session.mfa_verified_at now max_age),
    )

-- The refusals: an unverified address is refused whatever the state, and a verified account in
-- another state than active is refused with the error of that state.
pub build_access_claims_denied :
    (user : AuthUserForClaims) (session : AuthSessionForClaims) (now max_age : ℕ)
    (why : AccessPolicyError)
    → (build_access_claims user session now max_age ≡ denied why) ↔ (
        (user.email_verified ≡ false) × (why ≡ email_not_verified)
        ⊎ (user.email_verified ≡ true)
          × ((user.account_state ≡ some suspended) × (why ≡ account_suspended)
              ⊎ (user.account_state ≡ some deletion_pending) × (why ≡ account_deletion_pending)
              ⊎ (user.account_state ≡ some deleted) × (why ≡ account_deleted)))
unfolding build_access_claims
build_access_claims_denied user session now max_age why = ground arith
