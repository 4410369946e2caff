-- ===== src/Lifecycle/Statements/Lookups.antt =====
-- What the shared statements do to the account that they name, and to every other one.
use mathlib.Core.Option
use rsp_website.Prelude.{
  ◌≡◌, refl, ◌∙◌, ap, String, Option, none, some, arith, if◌then◌else◌, str_eq, eq_iff,
}
use rsp_website.Prelude.Tables.{find_row-update_rows, find_row_sound}
use rsp_website.Lifecycle.Store.{Db, User}
use rsp_website.Lifecycle.Tx.{ok}
use rsp_website.Lifecycle.Statements.{of_user, find_user, update_user}

-- An update of the columns other than the ID.
abbrev pub KeepsId : (User → User) → Type 0
KeepsId f = (u : User) → (f u).id ≡ u.id

pub find_user-id : (uid : String) (db : Db) (u : User) → find_user uid db ≡ some u → u.id ≡ uid
unfolding find_user
find_user-id uid db u e = (eq_iff u.id uid).0 (find_row_sound (of_user uid) db.users u e)

-- The account that is named is changed, and every other one is left alone.
pub find_user-update_user :
    (uid other : String) (f : User → User) (db : Db)
    → KeepsId f
    → find_user other (update_user uid f db).1
      ≡ Option.map (λ u. if str_eq u.id uid then f u else u) (find_user other db)
unfolding find_user update_user
find_user-update_user uid other f db keep =
    find_row-update_rows (of_user uid) (of_user other) f db.users
      (λ u. ap (λ (i : String). str_eq i other) (keep u))

-- The version that an update returns.
pub update_user_found :
    (uid : String) (f : User → User) (db : Db) (u : User)
    → KeepsId f
    → find_user uid db ≡ some u
    → find_user uid (update_user uid f db).1 ≡ some (f u)
update_user_found uid f db u keep e =
    find_user-update_user uid uid f db keep
    ∙ rw e (ground (arith, eq_iff u.id uid, find_user-id uid db u e))

pub update_user_version :
    (uid : String) (f : User → User) (db : Db) (u : User)
    → KeepsId f
    → find_user uid db ≡ some u
    → (update_user uid f db).0 ≡ ok (some (f u).security_version)
unfolding update_user
update_user_version uid f db u keep e =
    ap (λ (o : Option User). ok (Option.map (λ v. v.security_version) o))
      (update_user_found uid f db u keep e)

pub update_user_missing :
    (uid : String) (f : User → User) (db : Db)
    → KeepsId f
    → find_user uid db ≡ none
    → (update_user uid f db).0 ≡ ok none
unfolding update_user
update_user_missing uid f db keep e =
    let gone : find_user uid (update_user uid f db).1 ≡ none =
      find_user-update_user uid uid f db keep ∙ rw e refl in
    ap (λ (o : Option User). ok (Option.map (λ v. v.security_version) o)) gone
