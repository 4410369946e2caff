-- ===== src/Lifecycle/Machine/Effects.antt =====
-- What an operation may do to the accounts and the sessions, and what that keeps.
use mathlib.Core.Option
use mathlib.Core.Path.{subst}
use rsp_website.Prelude.{
  ◌≡◌, refl, sym, ◌∙◌, ap, ◌⊎◌, inl, inr, String, Bool, true, Option, none, some, List, ◌∷◌, All,
  if◌then◌else◌, str_eq, eq_iff, Bool-cases, find_row, update_rows, delete_rows,
}
use rsp_website.Prelude.Tables.{All-left, All-weaken}
use rsp_website.Security.AccessPolicy.{active}
use rsp_website.Lifecycle.Store.{Db, User, Session}
use rsp_website.Lifecycle.Statements.{of_user, session_of, find_user}
use rsp_website.Lifecycle.Statements.Commits.{find_user-users}
use rsp_website.Lifecycle.Statements.Lookups.{KeepsId}
use rsp_website.Lifecycle.Hooks.{is_active_row}
use rsp_website.Lifecycle.Machine.{IsEdit, AccountStep, Evolution, unchanged, created, IsNew}
use rsp_website.Lifecycle.Machine.Updates.{
  update_found, update_apart, Evolution-of_update, edit_of_update,
}

-- Every session belongs to an account that is active.
abbrev pub HasActiveOwners : Db → Type 0
HasActiveOwners db = All (λ s. is_active_row (find_user s.user_id db) ≡ true) db.sessions

pub data Effect : Db → Db → Type 0 where
  kept : {db after : Db} → after.users ≡ db.users → after.sessions ≡ db.sessions → Effect db after
  -- the rows with one ID change, and either its sessions go or the account is active
  changed :
      {db after : Db} (uid : String) (p : User → Bool) (f : User → User)
      → KeepsId f
      → ((x : User) → p x ≡ true → x.id ≡ uid)
      → after.users ≡ update_rows p f db.users
      → ((u : User) → find_user uid db ≡ some u → p u ≡ true → AccountStep u (f u))
      → (after.sessions ≡ delete_rows (session_of uid) db.sessions)
        ⊎ ((after.sessions ≡ db.sessions) × ((u : User) → (f u).account_state ≡ active))
      → Effect db after
  -- columns outside the lifecycle change
  rewritten :
      {db after : Db} (p : User → Bool) (f : User → User)
      → ((u : User) → IsEdit u (f u))
      → after.users ≡ update_rows p f db.users
      → after.sessions ≡ db.sessions
      → Effect db after
  registered :
      {db after : Db} (v : User)
      → find_user v.id db ≡ none
      → IsNew v
      → after.users ≡ v ∷ db.users
      → after.sessions ≡ db.sessions
      → Effect db after
  signed_in :
      {db after : Db} (s : Session)
      → is_active_row (find_user s.user_id db) ≡ true
      → after.users ≡ db.users
      → after.sessions ≡ s ∷ db.sessions
      → Effect db after
  -- sessions may go, or change in other columns than their user
  fewer :
      {db after : Db}
      → after.users ≡ db.users
      → ((p : String → Bool)
          → All (λ (s : Session). p s.user_id ≡ true) db.sessions
          → All (λ (s : Session). p s.user_id ≡ true) after.sessions)
      → Effect db after
  sequel : {db mid after : Db} → Effect db mid → Effect mid after → Effect db after

-- After an effect every account is as it was, has taken one edge, or is new.
pub data Evolutions : Option User → Option User → Type 0 where
  one : {before after : Option User} → Evolution before after → Evolutions before after
  more :
      {before after : Option User} (mid : Option User)
      → Evolutions before mid
      → Evolutions mid after
      → Evolutions before after

registered-Evolution :
    (v : User) (db after : Db) (other : String)
    → find_user v.id db ≡ none
    → IsNew v
    → after.users ≡ v ∷ db.users
    → Evolution (find_user other db) (find_user other after)
unfolding find_user find_row
registered-Evolution v db after other free new users = elim (Bool-cases (str_eq v.id other)) [
  | inl own ↦
      let e : v.id ≡ other = (eq_iff v.id other).0 own in
      created v (ap (λ i. find_user i db) (sym e) ∙ free)
        (ap (λ (us : List User). find_row (of_user other) us) users ∙ rw own refl) new
  | inr apart ↦
      unchanged (ap (λ (us : List User). find_row (of_user other) us) users ∙ rw apart refl)
]

pub Effect-Evolutions :
    (other : String) {db after : Db}
    → Effect db after
    → Evolutions (find_user other db) (find_user other after)
Effect-Evolutions other {db} {after} (kept users sessions) =
    one (unchanged (find_user-users other after db users))
Effect-Evolutions other {db} {after} (changed uid p f keep named users step sessions) =
    one (Evolution-of_update p f db after keep users uid named other step)
Effect-Evolutions other {db} {after} (rewritten p f edit users sessions) =
    one (edit_of_update p f db after (λ u. (edit u).same_id) users other edit)
Effect-Evolutions other {db} {after} (registered v free new users sessions) =
    one (registered-Evolution v db after other free new users)
Effect-Evolutions other {db} {after} (signed_in s owner users sessions) =
    one (unchanged (find_user-users other after db users))
Effect-Evolutions other {db} {after} (fewer users all) =
    one (unchanged (find_user-users other after db users))
Effect-Evolutions other {db} {after} (sequel {mid = mid} first second) =
    more (find_user other mid) (Effect-Evolutions other first) (Effect-Evolutions other second)

keep_owners :
    (db after : Db)
    → ((uid : String)
        → is_active_row (find_user uid db) ≡ true
        → is_active_row (find_user uid after) ≡ true)
    → (rows : List Session) → All (λ s. is_active_row (find_user s.user_id db) ≡ true) rows
    → All (λ s. is_active_row (find_user s.user_id after) ≡ true) rows
keep_owners db after keep rows =
    All-weaken (λ (s : Session). is_active_row (find_user s.user_id db) ≡ true)
      (λ (s : Session). is_active_row (find_user s.user_id after) ≡ true) rows (λ s. keep s.user_id)

same_owners :
    (db after : Db)
    → after.users ≡ db.users
    → (uid : String) → is_active_row (find_user uid db) ≡ true
    → is_active_row (find_user uid after) ≡ true
same_owners db after users uid h = ap is_active_row (find_user-users uid after db users) ∙ h

registered_owners :
    (v : User) (db after : Db)
    → find_user v.id db ≡ none
    → after.users ≡ v ∷ db.users
    → (uid : String) → is_active_row (find_user uid db) ≡ true
    → is_active_row (find_user uid after) ≡ true
unfolding find_user find_row
registered_owners v db after free users uid h = elim (Bool-cases (str_eq v.id uid)) [
  | inl own ↦
      let missing : find_user uid db ≡ none =
        ap (λ i. find_user i db) (sym ((eq_iff v.id uid).0 own)) ∙ free in
      let no_row : is_active_row none ≡ true = ap is_active_row (sym missing) ∙ h in cc
  | inr apart ↦
      ap is_active_row (ap (λ (us : List User). find_row (of_user uid) us) users ∙ rw apart refl)
      ∙ h
]

changed_row :
    (p : User → Bool) (f : User → User)
    → ((u : User) → is_active_row (some u) ≡ true → is_active_row (some (f u)) ≡ true)
    → (o : Option User) → is_active_row o ≡ true
    → is_active_row (Option.map (λ x. if p x then f x else x) o) ≡ true
changed_row p f live none h = h
changed_row p f live (some u) h = elim (Bool-cases (p u)) [
  | inl chosen ↦ rw chosen (live u h)
  | inr left ↦ rw left h
]

changed_owners :
    (p : User → Bool) (f : User → User) (db after : Db)
    → KeepsId f
    → after.users ≡ update_rows p f db.users
    → ((u : User) → is_active_row (some u) ≡ true → is_active_row (some (f u)) ≡ true)
    → (uid : String) → is_active_row (find_user uid db) ≡ true
    → is_active_row (find_user uid after) ≡ true
changed_owners p f db after keep users live uid h =
    ap is_active_row (update_found p f db after keep users uid)
    ∙ changed_row p f live (find_user uid db) h

-- No operation leaves a session to an account that is not active.
pub Effect-HasActiveOwners :
    {db after : Db} → Effect db after → HasActiveOwners db → HasActiveOwners after
Effect-HasActiveOwners {db} {after} (kept users sessions) h =
    subst (λ (ss : List Session). All (λ s. is_active_row (find_user s.user_id after) ≡ true) ss)
      (sym sessions) (keep_owners db after (same_owners db after users) db.sessions h)
Effect-HasActiveOwners {db} {after} (changed uid p f keep named users step (inl gone)) h =
    subst (λ (ss : List Session). All (λ s. is_active_row (find_user s.user_id after) ≡ true) ss)
      (sym gone)
      (All-left (λ (s : Session). is_active_row (find_user s.user_id db) ≡ true)
        (λ (s : Session). is_active_row (find_user s.user_id after) ≡ true) (session_of uid)
        db.sessions
        (λ s apart owner.
          ap is_active_row (update_apart p f db after keep users uid named s.user_id apart) ∙ owner)
        h)
Effect-HasActiveOwners {db} {after} (changed uid p f keep named users step (inr (same, live))) h =
    subst (λ (ss : List Session). All (λ s. is_active_row (find_user s.user_id after) ≡ true) ss)
      (sym same)
      (keep_owners db after (changed_owners p f db after keep users (λ u h'. rw (live u) refl))
        db.sessions h)
Effect-HasActiveOwners {db} {after} (rewritten p f edit users sessions) h =
    subst (λ (ss : List Session). All (λ s. is_active_row (find_user s.user_id after) ≡ true) ss)
      (sym sessions)
      (keep_owners db after
        (changed_owners p f db after (λ u. (edit u).same_id) users
          (λ u h'. rw ((edit u).same_state) h'))
        db.sessions h)
Effect-HasActiveOwners {db} {after} (registered v free new users sessions) h =
    subst (λ (ss : List Session). All (λ s. is_active_row (find_user s.user_id after) ≡ true) ss)
      (sym sessions) (keep_owners db after (registered_owners v db after free users) db.sessions h)
Effect-HasActiveOwners {db} {after} (signed_in s owner users sessions) h =
    subst (λ (ss : List Session). All (λ x. is_active_row (find_user x.user_id after) ≡ true) ss)
      (sym sessions)
      (
        same_owners db after users s.user_id owner,
        keep_owners db after (same_owners db after users) db.sessions h,
      )
Effect-HasActiveOwners {db} {after} (fewer users all) h =
    all (λ uid. is_active_row (find_user uid after))
      (keep_owners db after (same_owners db after users) db.sessions h)
Effect-HasActiveOwners (sequel first second) h =
    Effect-HasActiveOwners second (Effect-HasActiveOwners first h)
