-- ===== src/Server/Sweeps/Termination.antt =====
-- The sweeps end, and what a sweep that has ended has done (apps/auth/src/server.ts).
use rsp_website.Prelude.{
  ℕ, zero, suc, ◌+◌, ◌≤◌, ◌<◌, ◌*◌, ◌≡◌, refl, Bool, true, false, some, arith, ◌==◌, Bool-cases,
  inl, inr,
}
use rsp_website.Lifecycle.Store.{Db}
use rsp_website.Lifecycle.Tx.{Result, ok, err, Tx}
use rsp_website.Lifecycle.Erasure.{pseudonymize_due}
use rsp_website.Server.Sweeps.{
  batch, after_round, sweep, DeletionDraws, run_deletion_sweep, DeliveryDraws, run_outbox_delivery,
}
use rsp_website.Server.Sweeps.Deliveries.{undelivered_count, flush_outbox_progress}
use rsp_website.Lifecycle.Outbox.{flush_outbox}
use rsp_website.Server.Sweeps.Progress.{pending_count, reported, pseudonymize_due_progress}

-- A full round lowers the measure by what it costs.
abbrev Lowers : (Db → ℕ) → ℕ → Db → Result ℕ × Db → Type 0
Lowers measure cost db (err e, after) = Unit
Lowers measure cost db (ok count, after) =
    if_then (count == batch) (cost + measure after ≤ measure db)
  where
    if_then : Bool → Type 0 → Type 0
    if_then true p = p
    if_then false p = Unit

none_below : (m cost : ℕ) → m < cost * 0 → ⊥
none_below m cost h = grind arith

less_fuel :
    (after before cost fuel : ℕ)
    → cost + after ≤ before
    → before < cost * suc fuel
    → after < cost * fuel
less_fuel after before cost fuel h low = grind arith

-- A loop whose full rounds lower a measure ends, and the fuel needed is the measure's part of the cost.
pub sweep_ends :
    (measure : Db → ℕ) (cost : ℕ) (round : ℕ → Tx ℕ)
    → ((k : ℕ) (db : Db) → Lowers measure cost db (round k db))
    → (fuel n : ℕ) (db : Db) → measure db < cost * fuel
    → (after : Db) × (sweep round fuel n db ≡ some after)
unfolding sweep
sweep_ends measure cost round less zero n db h = absurd (none_below (measure db) cost h)
sweep_ends measure cost round less (suc fuel) n db h =
    round_ends (round n db) (less n db)
      (λ low. sweep_ends measure cost round less fuel (n + 1) (round n db).1 low)
  where
    round_ends :
        (r : Result ℕ × Db)
        → Lowers measure cost db r
        → (measure r.1 < cost * fuel → (after : Db) × (sweep round fuel (n + 1) r.1 ≡ some after))
        → (after : Db) × (after_round r (sweep round fuel (n + 1)) ≡ some after)
    round_ends (err e, mid) low again = (mid, refl)
    round_ends (ok count, mid) low again = elim (Bool-cases (count == batch)) [
      | inr part ↦ (mid, rw part refl)
      | inl full ↦
          let lowered : cost + measure mid ≤ measure db = rw full at low in
          rw full (again (less_fuel (measure mid) (measure db) cost fuel lowered h))
    ]

-- The sweep of due accounts ends: with fifty times the fuel above the number of accounts that wait for
-- their deletion it comes to a state, whatever happens to each account and each delivery.
pub run_deletion_sweep-ends :
    (fuel : ℕ) (x : DeletionDraws) (db : Db)
    → pending_count db.users < 50 * fuel
    → (after : Db) × (run_deletion_sweep fuel x db ≡ some after)
unfolding run_deletion_sweep
run_deletion_sweep-ends fuel x db h =
    sweep_ends (λ d. pending_count d.users) 50 (λ n. pseudonymize_due batch (x.draw n) (x.at n))
      (λ k d.
        lowered (pseudonymize_due batch (x.draw k) (x.at k) d) d
          (pseudonymize_due_progress batch (x.at k) (x.draw k) d))
      fuel 0 db h
  where
    lowered :
        (r : Result ℕ × Db) (d : Db)
        → reported r.0 + pending_count r.1.users ≤ pending_count d.users
        → Lowers (λ y. pending_count y.users) 50 d r
    lowered (err e, mid) d h = tt
    lowered (ok count, mid) d h = elim (Bool-cases (count == batch)) [
      | inl full ↦ rw full (ground (arith, full, h))
      | inr part ↦ rw part tt
    ]

-- The delivery of the outbox ends: with more fuel than there are undelivered rows it comes to a state,
-- whatever happens to each delivery.
pub run_outbox_delivery-ends :
    (fuel : ℕ) (x : DeliveryDraws) (db : Db)
    → undelivered_count db.outbox < fuel
    → (after : Db) × (run_outbox_delivery fuel x db ≡ some after)
unfolding run_outbox_delivery
run_outbox_delivery-ends fuel x db h =
    sweep_ends (λ d. undelivered_count d.outbox) 1 (λ n. flush_outbox batch (x.at n) (x.attempts n))
      (λ k d.
        lowered (flush_outbox batch (x.at k) (x.attempts k) d) d
          (flush_outbox_progress batch (x.at k) (x.attempts k) d))
      fuel 0 db (omega (arith, h))
  where
    lowered :
        (r : Result ℕ × Db) (d : Db)
        → ((n : ℕ) → r.0 ≡ ok n → 0 < n → undelivered_count r.1.outbox < undelivered_count d.outbox)
        → Lowers (λ y. undelivered_count y.outbox) 1 d r
    lowered (err e, mid) d h = tt
    lowered (ok count, mid) d h = elim (Bool-cases (count == batch)) [
      | inl full ↦
          let fewer : undelivered_count mid.outbox < undelivered_count d.outbox =
            h count refl (ground (arith, full)) in
          rw full (ground (arith, fewer))
      | inr part ↦ rw part tt
    ]
