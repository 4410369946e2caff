-- ===== src/Web/StudentLevels.antt =====
-- Who may set the level of a student (apps/web/src/studentLevels.ts), with the parts of the types of
-- apps/web/src/types.ts that it reads.
pub mod Permission
use rsp_website.Prelude.{
  ℕ, String, Bool, true, false, ◌&&◌, ◌||◌, Option, none, some, List, [], ◌∷◌, ltb, str_eq, length,
  some_of,
}
use rsp_website.Security.AccessPolicy.{AccountState, active}

pub data SeasonRole : Type 0 where
  student mentor coordinator : SeasonRole

pub data MembershipState : Type 0 where
  current completed kicked withdrawn : MembershipState

pub record Membership : Type 0 where
  pub season_id : String
  pub role : SeasonRole
  pub state : MembershipState

pub record CurrentUser : Type 0 where
  pub email_verified : Bool
  pub account_state : AccountState
  pub global_roles : List String
  pub season_roles : List Membership

pub record Season : Type 0 where
  pub id : String
  pub is_open : Bool

is_active_state : AccountState → Bool
is_active_state active = true
is_active_state _ = false

is_current : MembershipState → Bool
is_current current = true
is_current _ = false

-- `['mentor', 'coordinator'].includes(role)`
is_guide : SeasonRole → Bool
is_guide mentor = true
is_guide coordinator = true
is_guide student = false

pub guides : String → Membership → Bool
unfolding is_current is_guide
guides season m = str_eq m.season_id season && is_current m.state && is_guide m.role

pub can_set_student_level : Option CurrentUser → Option Season → Bool
unfolding is_active_state guides
can_set_student_level none season = false
can_set_student_level (some user) none = false
can_set_student_level (some user) (some season) =
    season.is_open
    && user.email_verified
    && is_active_state user.account_state
    && (ltb 0 (length user.global_roles) || some_of (guides season.id) user.season_roles)
