-- ===== src/Security/Origin.antt =====
-- apps/auth/src/security/origin.ts: the check of the Origin header on requests that change state.
-- The URL class of the runtime is the parameter `parse_url`; `none` is its exception.
pub mod Decisions
use rsp_website.Prelude.{
  String, Bool, true, false, not, ◌||◌, Option, none, some, List, if◌then◌else◌, str_eq, includes,
  codes, Text, text_eq,
}
use rsp_website.Prelude.Texts.{to_upper}

pub data Reason : Type 0 where
  missing_origin invalid_origin untrusted_origin : Reason

pub data OriginDecision : Type 0 where
  allowed : Option String → OriginDecision
  refused : Reason → OriginDecision

-- the fields of a parsed URL that the service reads
pub record Url : Type 0 where
  pub origin : String
  pub username : String
  pub password : String

unfoldable pub is_state_changing_method : Text → Bool
is_state_changing_method method =
    not (text_eq m (codes "GET") || text_eq m (codes "HEAD") || text_eq m (codes "OPTIONS"))
  where
    m : Text
    m = to_upper method

module _ (parse_url : String → Option Url) where
  -- the `try` block: the origin of the header, if it is one and carries no credentials
  unfoldable pub header_origin : String → Option String
  header_origin header = elim (parse_url header) [
    | none ↦ none
    | some url ↦
        if str_eq url.origin "null" || not (str_eq url.username "") || not (str_eq url.password "")
        then none
        else some url.origin
  ]

  unfoldable pub check_origin : Option String → List String → OriginDecision
  check_origin none trusted = refused invalid_origin
  check_origin (some origin) trusted =
      if includes trusted origin then allowed (some origin) else refused untrusted_origin

  unfoldable pub check_header : Option String → List String → OriginDecision
  check_header none trusted = refused missing_origin
  check_header (some header) trusted =
      if str_eq header ""
      then refused missing_origin
      else check_origin (header_origin header) trusted

  unfoldable pub evaluate_browser_origin : Text → Option String → List String → OriginDecision
  evaluate_browser_origin method header trusted =
      if is_state_changing_method method then check_header header trusted else allowed none
