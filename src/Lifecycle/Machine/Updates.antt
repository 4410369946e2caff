-- ===== src/Lifecycle/Machine/Updates.antt =====
-- What the machine keeps, and how an update of a table becomes a step of it.
use mathlib.Core.Option
use mathlib.Core.Path.{subst}
use rsp_website.Prelude.{
  ◌≤◌, ◌≡◌, refl, sym, ◌∙◌, ap, ◌⊎◌, inl, inr, String, Bool, true, false, Option, none, some, List,
  arith, if◌then◌else◌, str_eq, eq_iff, is_some, Bool-cases, Option-cases, eq_of_some, find_row,
  update_rows,
}
use rsp_website.Prelude.Tables.{find_row-update_rows}
use rsp_website.Security.AccessPolicy.{deleted}
use rsp_website.Lifecycle.Store.{Db, User}
use rsp_website.Lifecycle.Statements.{of_user, find_user}
use rsp_website.Lifecycle.Statements.Lookups.{KeepsId, find_user-id}
use rsp_website.Lifecycle.Deletion.{is_pending_state}
use rsp_website.Lifecycle.Machine.{
  Transition, renewed, switched, requested, restored, erased, AccountStep, Evolution, unchanged,
  stepped, edited, IsEdit, created, IsNew, IsValid, IsValidRow,
}

Transition-IsValid : (u v : User) → AccountStep u v → Transition u v → IsValid u → IsValid v
Transition-IsValid u v s (renewed e (r, d)) h = record {
  positive = ground (arith, s.next_version);
  requested_iff = ap is_some r ∙ h.requested_iff ∙ ap is_pending_state (sym e);
  deadline_iff = ap is_some d ∙ h.deadline_iff ∙ ap is_pending_state (sym e);
}
Transition-IsValid u v s (switched a b (r, d)) h = record {
  positive = ground (arith, s.next_version);
  requested_iff = ap is_some r ∙ ground (arith, h.requested_iff, a, b);
  deadline_iff = ap is_some d ∙ ground (arith, h.deadline_iff, a, b);
}
Transition-IsValid u v s (requested a e r d) h = record {
  positive = ground (arith, s.next_version);
  requested_iff = ground (arith, e, r);
  deadline_iff = ground (arith, e, d);
}
Transition-IsValid u v s (restored a e (r, d)) h = record {
  positive = ground (arith, s.next_version);
  requested_iff = ground (arith, e, r);
  deadline_iff = ground (arith, e, d);
}
Transition-IsValid u v s (erased a e (r, d)) h = record {
  positive = ground (arith, s.next_version);
  requested_iff = ground (arith, e, r);
  deadline_iff = ground (arith, e, d);
}

-- An account that is deleted has no edge to another state.
Transition-deleted :
    (u v : User) → Transition u v → u.account_state ≡ deleted → v.account_state ≡ deleted
Transition-deleted u v (renewed e d) h = e ∙ h
Transition-deleted u v (switched a b d) h = ground (arith, a, h)
Transition-deleted u v (requested a e r d) h = ground (arith, a, h)
Transition-deleted u v (restored a e d) h = ground (arith, a, h)
Transition-deleted u v (erased a e d) h = e

abbrev nobody : Option User
nobody = none

IsNew-IsValid : (v : User) → IsNew v → IsValid v
IsNew-IsValid v (e, n, (r, d)) = record {
  positive = ground (arith, n);
  requested_iff = ground (arith, e, r);
  deadline_iff = ground (arith, e, d);
}

IsEdit-IsValid : (u v : User) → IsEdit u v → IsValid u → IsValid v
IsEdit-IsValid u v s h = record {
  positive = ground (arith, s.same_version, h.positive);
  requested_iff =
      ap is_some s.same_dates.0 ∙ h.requested_iff ∙ ap is_pending_state (sym s.same_state);
  deadline_iff =
      ap is_some s.same_dates.1 ∙ h.deadline_iff ∙ ap is_pending_state (sym s.same_state);
}

-- No operation makes a valid row invalid.
pub Evolution-IsValidRow : (o p : Option User) → Evolution o p → IsValidRow o → IsValidRow p
Evolution-IsValidRow o p (unchanged e) h = subst IsValidRow (sym e) h
Evolution-IsValidRow o p (stepped u v e f s) h =
    subst IsValidRow (sym f) (Transition-IsValid u v s s.edge (subst IsValidRow e h))
Evolution-IsValidRow o p (edited u v e f s) h =
    subst IsValidRow (sym f) (IsEdit-IsValid u v s (subst IsValidRow e h))
Evolution-IsValidRow o p (created v e f n) h = subst IsValidRow (sym f) (IsNew-IsValid v n)

abbrev pub is_gone : User → Bool
is_gone u = elim (u.account_state) [ deleted ↦ true | _ ↦ false ]

-- The later row of an account: it keeps the ID, its version is not lower, and what was deleted stays
-- so.
pub record IsLater (u v : User) : Type 0 where
  pub same_id : v.id ≡ u.id
  pub version_le : u.security_version ≤ v.security_version
  pub stays_gone : (is_gone u ≡ false) ⊎ (is_gone v ≡ true)

pub IsLater-refl : (u : User) → IsLater u u
IsLater-refl u = record { same_id = refl; version_le = omega arith; stays_gone = ground arith }

pub IsLater-trans : (u v w : User) → IsLater u v → IsLater v w → IsLater u w
IsLater-trans u v w h k = record {
  same_id = k.same_id ∙ h.same_id;
  version_le = ground (arith, h.version_le, k.version_le);
  stays_gone = ground (arith, h.stays_gone, k.stays_gone);
}

AccountStep-IsLater : (u v : User) → AccountStep u v → IsLater u v
AccountStep-IsLater u v s = record {
  same_id = s.same_id;
  version_le = ground (arith, s.next_version);
  stays_gone = ground (arith, Transition-deleted u v s.edge);
}

IsEdit-IsLater : (u v : User) → IsEdit u v → IsLater u v
IsEdit-IsLater u v s = record {
  same_id = s.same_id;
  version_le = ground (arith, s.same_version);
  stays_gone = ground (arith, s.same_state);
}

-- No operation loses an account, lowers its version or revives it.
pub Evolution-IsLater :
    (o p : Option User) (u : User)
    → Evolution o p
    → o ≡ some u
    → (v : User) × (p ≡ some v) × IsLater u v
Evolution-IsLater o p u (unchanged e) h = (u, e ∙ h, IsLater-refl u)
Evolution-IsLater o p u (stepped x v e f s) h =
    let same : x ≡ u = eq_of_some (sym e ∙ h) in
    (v, f, subst (λ y. IsLater y v) same (AccountStep-IsLater x v s))
Evolution-IsLater o p u (edited x v e f s) h =
    let same : x ≡ u = eq_of_some (sym e ∙ h) in
    (v, f, subst (λ y. IsLater y v) same (IsEdit-IsLater x v s))
Evolution-IsLater o p u (created v e f n) h = let absurd_ : nobody ≡ some u = sym e ∙ h in cc

-- An update of the rows that have one ID, where it is chosen, takes the account with that ID one step,
-- and leaves the others alone.
module _ (p : User → Bool) (f : User → User) (before after : Db) (keep : KeepsId f)
    (users : after.users ≡ update_rows p f before.users) where
  pub update_found :
      (other : String)
      → find_user other after ≡ Option.map (λ x. if p x then f x else x) (find_user other before)
  unfolding find_user
  update_found other =
      ap (λ (us : List User). find_row (of_user other) us) users
      ∙ find_row-update_rows p (of_user other) f before.users
          (λ x. ap (λ (i : String). str_eq i other) (keep x))

  module _ (uid : String) (named : (x : User) → p x ≡ true → x.id ≡ uid) where
    pub update_apart :
        (other : String) → str_eq other uid ≡ false → find_user other after ≡ find_user other before
    update_apart other apart = elim (Option-cases (find_user other before)) [
      | inl e ↦ update_found other ∙ rw e refl
      | inr (x, e) ↦
          let own : x.id ≡ other = find_user-id other before x e in
          update_found other ∙ rw e (ground (arith, own, apart, eq_iff other uid, named x))
    ]

    pub Evolution-of_update :
        (other : String)
        → ((u : User) → find_user uid before ≡ some u → p u ≡ true → AccountStep u (f u))
        → Evolution (find_user other before) (find_user other after)
    Evolution-of_update other step = elim (Bool-cases (str_eq other uid)) [
      | inr apart ↦ unchanged (update_apart other apart)
      | inl same ↦ elim (Option-cases (find_user other before)) [
        | inl e ↦ unchanged (update_found other ∙ rw e refl)
        | inr (u, e) ↦
            let here : find_user uid before ≡ some u =
              ap (λ i. find_user i before) (sym ((eq_iff other uid).0 same)) ∙ e in
            elim (Bool-cases (p u)) [
              | inl chosen ↦
                  stepped u (f u) e (update_found other ∙ rw (e, chosen) refl) (step u here chosen)
              | inr left ↦ unchanged (update_found other ∙ rw (e, left) refl)
            ]
      ]
    ]

  pub edit_of_update :
      (other : String)
      → ((u : User) → IsEdit u (f u))
      → Evolution (find_user other before) (find_user other after)
  edit_of_update other edit = elim (Option-cases (find_user other before)) [
    | inl e ↦ unchanged (update_found other ∙ rw e refl)
    | inr (u, e) ↦ elim (Bool-cases (p u)) [
      | inl chosen ↦ edited u (f u) e (update_found other ∙ rw (e, chosen) refl) (edit u)
      | inr left ↦ unchanged (update_found other ∙ rw (e, left) refl)
    ]
  ]
