-- ===== src/Server/System/Invariants.antt =====
-- What holds of the accounts and the sessions in every state that the auth service reaches.
use mathlib.Core.Path.{subst}
use rsp_website.Prelude.{
  ℕ, zero, suc, ◌+◌, ◌==◌, ◌≡◌, sym, ◌∙◌, ap, String, Option, some, eq_of_some, Bool-cases, inl,
  inr,
}
use rsp_website.Lifecycle.Store.{Db, User}
use rsp_website.Lifecycle.Tx.{Result, ok, err, Tx}
use rsp_website.Lifecycle.Statements.{find_user}
use rsp_website.Lifecycle.Machine.{IsValidRow}
use rsp_website.Lifecycle.Machine.Updates.{
  IsLater, IsLater-refl, IsLater-trans, Evolution-IsLater, Evolution-IsValidRow,
}
use rsp_website.Lifecycle.Machine.Effects.{
  Effect, sequel, Evolutions, one, more, Effect-Evolutions, HasActiveOwners, Effect-HasActiveOwners,
}
use rsp_website.Lifecycle.Machine.Sweeps.{pseudonymize_due-Effect, flush_outbox-Effect}
use rsp_website.Lifecycle.Outbox.{flush_outbox}
use rsp_website.Lifecycle.Erasure.{pseudonymize_due}
use rsp_website.Server.Requests.{Server}
use rsp_website.Server.Requests.Effects.{handle_request-Effect}
use rsp_website.Server.Sweeps.{batch, after_round, sweep, run_deletion_sweep, run_outbox_delivery}
use rsp_website.Server.System.{Step, requested, swept, delivered, Reach, start, next}

Evolutions-IsValidRow : {o p : Option User} → Evolutions o p → IsValidRow o → IsValidRow p
Evolutions-IsValidRow {o} {p} (one e) h = Evolution-IsValidRow o p e h
Evolutions-IsValidRow (more mid first second) h =
    Evolutions-IsValidRow second (Evolutions-IsValidRow first h)

Evolutions-IsLater :
    {o p : Option User} (u : User)
    → Evolutions o p
    → o ≡ some u
    → (v : User) × (p ≡ some v) × IsLater u v
Evolutions-IsLater {o} {p} u (one e) h = Evolution-IsLater o p u e h
Evolutions-IsLater u (more mid first second) h =
    let (v, there, later) = Evolutions-IsLater u first h in
    let (w, found, last) = Evolutions-IsLater v second there in
    (w, found, IsLater-trans u v w later last)

after_round-Effect :
    (db : Db) (r : Result ℕ × Db) (again : Db → Option Db) (after : Db)
    → Effect db r.1
    → ((final : Db) → again r.1 ≡ some final → Effect r.1 final)
    → after_round r again ≡ some after
    → Effect db after
unfolding after_round
after_round-Effect db (err e, mid) again after first rest h =
    subst (λ d. Effect db d) (eq_of_some h) first
after_round-Effect db (ok count, mid) again after first rest h =
    elim (Bool-cases (count == batch)) [
      | inl full ↦ sequel first (rest after (rw full at h))
      | inr part ↦ subst (λ d. Effect db d) (eq_of_some (rw part at h)) first
    ]

-- A sweep whose rounds are effects is one.
sweep-Effect :
    (round : ℕ → Tx ℕ) (fuel n : ℕ) (db after : Db)
    → ((k : ℕ) (d : Db) → Effect d (round k d).1)
    → sweep round fuel n db ≡ some after
    → Effect db after
unfolding sweep
sweep-Effect round zero n db after each h = cc
sweep-Effect round (suc fuel) n db after each h =
    after_round-Effect db (round n db) (sweep round fuel (n + 1)) after (each n db)
      (λ final e. sweep-Effect round fuel (n + 1) (round n db).1 final each e) h

Step-Effect : {s t : Server} → Step s t → Effect s.db t.db
unfolding run_deletion_sweep run_outbox_delivery
Step-Effect {s} {t} (requested env lib r d lawful e) =
    subst (λ (x : Server). Effect s.db x.db) (sym e) (handle_request-Effect env lib r d s lawful)
Step-Effect {s} {t} (swept fuel x after e same) =
    subst (λ (y : Server). Effect s.db y.db) (sym same)
      (sweep-Effect (λ n. pseudonymize_due batch (x.draw n) (x.at n)) fuel 0 s.db after
        (λ k d. pseudonymize_due-Effect batch (x.at k) (x.draw k) d) e)
Step-Effect {s} {t} (delivered fuel x after e same) =
    subst (λ (y : Server). Effect s.db y.db) (sym same)
      (sweep-Effect (λ n. flush_outbox batch (x.at n) (x.attempts n)) fuel 0 s.db after
        (λ k d. flush_outbox-Effect batch (x.at k) (x.attempts k) d) e)

-- Every step refines the machine of the accounts: each account has its state, its version and its dates
-- as they were, has taken edges of the machine one after the other, or is new.
pub Step-Evolutions :
    (s t : Server) (uid : String) → Step s t → Evolutions (find_user uid s.db) (find_user uid t.db)
Step-Evolutions s t uid h = Effect-Evolutions uid (Step-Effect h)

-- In every state that is reached from one where all sessions belong to active accounts, all sessions
-- belong to active accounts.
pub Reach-HasActiveOwners : (s t : Server) → Reach s t → HasActiveOwners s.db → HasActiveOwners t.db
Reach-HasActiveOwners s t (start e) h = subst (λ (x : Server). HasActiveOwners x.db) (sym e) h
Reach-HasActiveOwners s t (next {t = mid} before last) h =
    Effect-HasActiveOwners (Step-Effect last) (Reach-HasActiveOwners s mid before h)

-- A row that is valid, or that is not there yet, is valid in every state that is reached: its version
-- is positive, and it has the two dates of a deletion exactly while its deletion is pending.
pub Reach-IsValidRow :
    (s t : Server) (uid : String)
    → Reach s t
    → IsValidRow (find_user uid s.db)
    → IsValidRow (find_user uid t.db)
Reach-IsValidRow s t uid (start e) h =
    subst (λ (x : Server). IsValidRow (find_user uid x.db)) (sym e) h
Reach-IsValidRow s t uid (next {t = mid} before last) h =
    Evolutions-IsValidRow (Effect-Evolutions uid (Step-Effect last))
      (Reach-IsValidRow s mid uid before h)

-- No account is lost: in every state that is reached it is there under its ID, its security version is
-- not lower, and if it was deleted it is deleted still.
pub Reach-IsLater :
    (s t : Server) (uid : String) (u : User)
    → Reach s t
    → find_user uid s.db ≡ some u
    → (v : User) × (find_user uid t.db ≡ some v) × IsLater u v
Reach-IsLater s t uid u (start e) h =
    (u, ap (λ (x : Server). find_user uid x.db) e ∙ h, IsLater-refl u)
Reach-IsLater s t uid u (next {t = mid} before last) h =
    let (v, there, later) = Reach-IsLater s mid uid u before h in
    let (w, found, latest) =
      Evolutions-IsLater v (Effect-Evolutions uid (Step-Effect last)) there in
    (w, found, IsLater-trans u v w later latest)
