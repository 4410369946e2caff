-- ===== src/Security/AccessPolicy/Privileged.antt =====
-- Who needs a recent second factor for a privileged action.
use rsp_website.Prelude.{
  ℕ, ◌≡◌, ◌↔◌, ◌⊎◌, String, true, Option, none, some, List, arith, inl, inr, refl, Bool-cases,
  eq_iff,
}
use rsp_website.Prelude.Lists.{IsIn, includes_iff}
use rsp_website.Security.AccessPolicy.{
  Moment, at_ms, is_role, is_mfa_recent, requires_recent_mfa, can_perform_privileged_action,
}
use rsp_website.Security.AccessPolicy.Claims.{IsWithin, is_mfa_recent_iff}

-- Directors, system admins and the coordinator of the season.
abbrev pub IsPrivileged : List String → Option String → Type 0
IsPrivileged global_roles season_role =
    IsIn "director" global_roles
    ⊎ IsIn "system_admin" global_roles
    ⊎ (season_role ≡ some "coordinator")

is_role_iff : (o : Option String) (r : String) → (is_role o r ≡ true) ↔ (o ≡ some r)
is_role_iff none r = ground arith
is_role_iff (some s) r = ground (arith, eq_iff s r)

pub requires_recent_mfa_iff :
    (global_roles : List String) (season_role : Option String)
    → (requires_recent_mfa global_roles season_role ≡ true) ↔ IsPrivileged global_roles season_role
unfolding requires_recent_mfa
requires_recent_mfa_iff global_roles season_role = ground (
  arith,
  includes_iff global_roles "director",
  includes_iff global_roles "system_admin",
  is_role_iff season_role "coordinator",
)

-- A privileged action is allowed exactly to who holds no privileged role (director or system admin
-- anywhere, coordinator of the season) or has a second factor that is not in the future and at most
-- the allowed number of seconds old.
pub can_perform_privileged_action_iff :
    (global_roles : List String) (season_role : Option String) (verified_at : Option Moment)
    (now max_age : ℕ)
    → (can_perform_privileged_action global_roles season_role verified_at now max_age ≡ true) ↔ (
        (¬ IsPrivileged global_roles season_role)
        ⊎ ((t : ℕ) × (verified_at ≡ some (at_ms t)) × IsWithin t now max_age))
unfolding can_perform_privileged_action
can_perform_privileged_action_iff global_roles season_role verified_at now max_age =
    elim (Bool-cases (requires_recent_mfa global_roles season_role)) [
      | inl needs ↦ rw needs (
        λ h. inr (recent.0 h),
        λ p. elim p [ inl free ↦ absurd (free (roles.0 needs)) | inr w ↦ recent.1 w ],
      )
      | inr free ↦ rw free (λ h. inl (λ p. cc (roles.1 p)), λ p. refl)
    ]
  where
    roles :
        (requires_recent_mfa global_roles season_role ≡ true)
        ↔ IsPrivileged global_roles season_role
    roles = requires_recent_mfa_iff global_roles season_role

    recent :
        (is_mfa_recent verified_at now max_age ≡ true)
        ↔ ((t : ℕ) × (verified_at ≡ some (at_ms t)) × IsWithin t now max_age)
    recent = is_mfa_recent_iff verified_at now max_age
