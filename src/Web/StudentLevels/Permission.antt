-- ===== src/Web/StudentLevels/Permission.antt =====
-- Who may set the level of a student.
use rsp_website.Prelude.{
  ◌≡◌, ◌≢◌, ◌↔◌, ◌⊎◌, String, true, some, List, [], ◌∷◌, arith, eq_iff, some_of,
}
use rsp_website.Prelude.Lists.{Any}
use rsp_website.Security.AccessPolicy.{active}
use rsp_website.Web.StudentLevels.{
  mentor, coordinator, current, Membership, CurrentUser, Season, is_active_state, is_current,
  is_guide, guides, can_set_student_level,
}

-- A current mentor or coordinator of the season.
abbrev pub IsGuide : String → Membership → Type 0
IsGuide season m =
    (m.season_id ≡ season) × (m.state ≡ current) × ((m.role ≡ mentor) ⊎ (m.role ≡ coordinator))

guides_iff : (season : String) (m : Membership) → (guides season m ≡ true) ↔ IsGuide season m
unfolding guides is_current is_guide
guides_iff season m = ground (arith, eq_iff m.season_id season)

some_of-guides_iff :
    (season : String) (ms : List Membership)
    → (some_of (guides season) ms ≡ true) ↔ Any (IsGuide season) ms
some_of-guides_iff season [] = ground arith
some_of-guides_iff season (m ∷ ms) =
    ground (arith, guides_iff season m, some_of-guides_iff season ms)

-- A level may be set exactly by a signed-in user whose address is verified and whose account is
-- active, in a season that is open, who has a global role or is a current mentor or coordinator of
-- that season.
pub can_set_student_level_iff :
    (user : CurrentUser) (season : Season)
    → (can_set_student_level (some user) (some season) ≡ true) ↔ (
        (season.is_open ≡ true)
        × (user.email_verified ≡ true)
        × (user.account_state ≡ active)
        × ((user.global_roles ≢ []) ⊎ Any (IsGuide season.id) user.season_roles))
unfolding can_set_student_level is_active_state
can_set_student_level_iff user season =
    ground (arith, some_of-guides_iff season.id user.season_roles)
