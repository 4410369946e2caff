-- ===== src/Security/Linking.antt =====
-- apps/auth/src/security/linking-policy.ts: when a signed-in member may change how they sign in.
pub mod Decisions
use rsp_website.Prelude.{
  ℕ, ◌-◌, ◌*◌, Bool, true, false, not, ◌||◌, Option, none, some, ltb, [], if◌then◌else◌, Text,
  text_eq,
}
use Prim.Native.String.{String}
use rsp_website.Prelude.{codes}
use rsp_website.Prelude.Texts.{trim, to_lower}
use rsp_website.Security.AccessPolicy.{Moment, invalid, at_ms}

pub data Reason : Type 0 where
  not_authenticated reauthentication_required unsupported_provider different_email : Reason

pub data LinkingDecision : Type 0 where
  allowed : LinkingDecision
  refused : Reason → LinkingDecision

-- the options that both tests read
pub record FreshSession : Type 0 where
  pub authenticated_user_id : Option Text
  pub session_created_at : Option Moment
  pub now : ℕ
  pub fresh_age_seconds : ℕ

pub record ExplicitLink : Type 0 where
  pub session : FreshSession
  pub provider : Text
  pub current_email : Text
  pub provider_email : Option Text

-- `!value` for an optional string
abbrev pub is_blank : Option Text → Bool
is_blank none = true
is_blank (some t) = text_eq t []

-- the test on `createdAtMs`, which is NaN for an invalid date
unfoldable pub is_stale : Moment → ℕ → ℕ → Bool
is_stale invalid now age = true
is_stale (at_ms t) now age = ltb now t || ltb (age * 1000) (now - t)

unfoldable pub created_fresh : Option Moment → ℕ → ℕ → LinkingDecision
unfolding is_stale
created_fresh none now age = refused not_authenticated
created_fresh (some m) now age =
    if is_stale m now age then refused reauthentication_required else allowed

unfoldable pub evaluate_fresh_session : FreshSession → LinkingDecision
evaluate_fresh_session o =
    if is_blank o.authenticated_user_id
    then refused not_authenticated
    else created_fresh o.session_created_at o.now o.fresh_age_seconds

pub normal_email : Text → Text
normal_email t = to_lower (trim t)

-- `providerEmail && …`: an absent or empty address is not compared
is_different : Option Text → Text → Bool
is_different none current = false
is_different (some t) current =
    if text_eq t [] then false else not (text_eq (normal_email t) (normal_email current))

link_checks : ExplicitLink → LinkingDecision
link_checks o =
    if not (text_eq o.provider (codes "google"))
    then refused unsupported_provider
    else if is_different o.provider_email o.current_email
    then refused different_email
    else allowed

or_else_check : LinkingDecision → LinkingDecision → LinkingDecision
or_else_check (refused r) _ = refused r
or_else_check allowed next = next

pub evaluate_explicit_link : ExplicitLink → LinkingDecision
unfolding or_else_check
evaluate_explicit_link o = or_else_check (evaluate_fresh_session o.session) (link_checks o)
