-- ===== src/Server/InternalApi/Guards.antt =====
-- What guards the internal API, and how its routes are read.
use rsp_website.Prelude.{
  ℕ, ◌+◌, ◌*◌, ◌<◌, ◌⊎◌, ◌≡◌, refl, ◌∙◌, ap, String, str_eq, false, Option, some, [], ◌∷◌, ◌++◌,
  arith, All, if◌then◌else◌, codes, Text, text_eq, ◌==◌, inl, inr, some_of,
}
use rsp_website.Prelude.Texts.{strip_prefix, strip_prefix_iff}
use rsp_website.Security.ServiceToken.{has_valid_service_token}
use rsp_website.Lifecycle.Store.{Db}
use rsp_website.Lifecycle.Tx.{ok}
use rsp_website.Lifecycle.Outbox.{queue_email}
use rsp_website.Server.InternalApi.{
  Action, revoke_action, state_action, mfa_state_action, email_change_action, deletion_action,
  deletion_cancel_action, pseudonymize_action, Route, Request, Env, Draws, problem, DeletionBody,
  EmailChange, action_of, split_segment, named_route, route_of, route_of_parts, route_of_rest,
  internal_user_route, is_expected, handle_internal, handle_deletion, handle_email_change,
  change_email, day_ms,
}

-- Without the service token no call of the internal API changes anything, whatever it asks for: the
-- reply is 405 for a wrong method and 401 for any other request.
pub handle_internal_guarded :
    (env : Env) (route : Route) (request : Request) (d : Draws) (db : Db)
    → has_valid_service_token request.authorization env.service_token ≡ false
    → handle_internal env route request d db ≡ (
      ok (
          if is_expected route.action request.method
          then problem 401 "invalid_service_token"
          else problem 405 "method_not_allowed"),
      db,
    )
unfolding handle_internal
handle_internal_guarded env route request d db bad = rw bad (ground arith)

-- A deletion whose recovery deadline is less than 29 or more than 31 days ahead, and one whose
-- recovery link points to another site than the trusted ones, is refused and changes nothing.
pub handle_deletion_guarded :
    (env : Env) (uid : String) (b : DeletionBody) (received_at : ℕ) (d : Draws) (db : Db)
    → (b.recovery_deadline < received_at + 29 * day_ms)
      ⊎ (received_at + 31 * day_ms < b.recovery_deadline)
      ⊎ (some_of (text_eq (env.origin_of b.recovery_url)) env.trusted_origins ≡ false)
    → handle_deletion env uid (some b) received_at d db ≡ (
      ok (
          problem 400 (
            if some_of (text_eq (env.origin_of b.recovery_url)) env.trusted_origins
            then "invalid_recovery_deadline"
            else "invalid_recovery_url")),
      db,
    )
unfolding handle_deletion
handle_deletion_guarded env uid b received_at d db (inl early) = ground (arith, early)
handle_deletion_guarded env uid b received_at d db (inr (inl late)) = ground (arith, late)
handle_deletion_guarded env uid b received_at d db (inr (inr foreign)) = ground (arith, foreign)

-- A request to change an address changes no account and no session: it queues a message at most, and
-- nothing at all where an account has the new address already.
pub handle_email_change_effect :
    (env : Env) (uid : String) (e : EmailChange) (d : Draws) (db : Db)
    → let (r, after) = handle_email_change env uid (some e) d db in
      (after.users ≡ db.users)
      × (after.sessions ≡ db.sessions)
      × ((some_of (λ u. str_eq (env.db_lower u.email) (env.to_lower_case e.email)) db.users ≡ false)
          ⊎ (after ≡ db))
unfolding handle_email_change change_email queue_email
handle_email_change_effect env uid e d db = (ground arith, ground arith, ground arith)

-- the last segment of the path of an action
abbrev pub name_of : Action → Text
name_of revoke_action = codes "revoke-sessions"
name_of state_action = codes "state"
name_of mfa_state_action = codes "mfa-state"
name_of email_change_action = codes "email-change"
name_of deletion_action = codes "deletion"
name_of deletion_cancel_action = codes "deletion-cancel"
name_of pseudonymize_action = codes "pseudonymize"

action_of-name_of : (a : Action) → action_of (name_of a) ≡ some a
unfolding action_of
action_of-name_of revoke_action = refl
action_of-name_of state_action = refl
action_of-name_of mfa_state_action = refl
action_of-name_of email_change_action = refl
action_of-name_of deletion_action = refl
action_of-name_of deletion_cancel_action = refl
action_of-name_of pseudonymize_action = refl

split_segment_lem :
    (segment rest : Text)
    → All (λ c. (c == b'/') ≡ false) segment
    → split_segment (segment ++ b'/' ∷ rest) ≡ some (segment, rest)
unfolding split_segment
split_segment_lem [] rest h = refl
split_segment_lem (c ∷ cs) rest (q, h) = rw (q, split_segment_lem cs rest h) refl

read_path :
    (decode : Text → Option String) (path : Text) (c : ℕ) (cs : Text) (uid : String) (a : Action)
    → strip_prefix (codes "/internal/auth/users/") path ≡ some ((c ∷ cs) ++ b'/' ∷ name_of a)
    → All (λ x. (x == b'/') ≡ false) (c ∷ cs)
    → decode (c ∷ cs) ≡ some uid
    → internal_user_route decode path ≡ some (record { auth_user_id = uid; action = a })
unfolding internal_user_route route_of_rest route_of_parts route_of named_route
read_path decode path c cs uid a behind plain known =
    ap (route_of_rest decode) behind
    ∙ ap (route_of_parts decode) (split_segment_lem (c ∷ cs) (name_of a) plain)
    ∙ ap (route_of decode (c ∷ cs)) (action_of-name_of a)
    ∙ ap (named_route a) known

-- The path of an action on a user, with the user's ID encoded in one segment that is not empty, is
-- read back as that user and that action.
pub internal_user_route_of_path :
    (decode : Text → Option String) (c : ℕ) (cs : Text) (uid : String) (a : Action)
    → All (λ x. (x == b'/') ≡ false) (c ∷ cs)
    → decode (c ∷ cs) ≡ some uid
    → internal_user_route decode (codes "/internal/auth/users/" ++ ((c ∷ cs) ++ b'/' ∷ name_of a))
      ≡ some (record { auth_user_id = uid; action = a })
internal_user_route_of_path decode c cs uid a plain known =
    let rest = (c ∷ cs) ++ b'/' ∷ name_of a in
    let prefix = codes "/internal/auth/users/" in
    read_path decode (prefix ++ rest) c cs uid a
      ((strip_prefix_iff prefix (prefix ++ rest) rest).1 refl) plain known
