-- ===== src/Server/Sweeps.antt =====
-- The two sweeps that the auth service starts on timers (apps/auth/src/server.ts). `round n` is the
-- call of the n-th round of a loop. Fuel bounds the rounds; none means that it ran out. A sweep that
-- finds another one running returns at once, so one sweep of each kind runs at a time.
pub mod Progress
pub mod Deliveries
pub mod Termination
use rsp_website.Prelude.{
  ℕ, zero, suc, ◌+◌, String, Bool, true, false, Option, none, some, ◌==◌, if◌then◌else◌,
}
use rsp_website.Lifecycle.Store.{Db}
use rsp_website.Lifecycle.Tx.{Result, ok, err, Tx}
use rsp_website.Lifecycle.Outbox.{Attempt, flush_outbox}
use rsp_website.Lifecycle.Erasure.{Draw, pseudonymize_due}

abbrev pub batch : ℕ
batch = 50

abbrev pub if_full : Bool → (Db → Option Db) → Db → Option Db
if_full true again db = again db
if_full false again db = some db

-- `while (processed === 50)`, and the `catch` around the loop
unfoldable pub after_round : Result ℕ × Db → (Db → Option Db) → Option Db
after_round (err e, db) again = some db
after_round (ok count, db) again = if_full (count == batch) again db

unfoldable pub sweep : (ℕ → Tx ℕ) → ℕ → ℕ → Db → Option Db
unfolding after_round
sweep round zero n db = none
sweep round (suc fuel) n db = after_round (round n db) (sweep round fuel (n + 1))

-- what the rounds of a sweep draw from outside
pub record DeletionDraws : Type 0 where
  pub at : ℕ → ℕ
  pub draw : ℕ → String → Draw

-- `runDeletionSweep`
unfoldable pub run_deletion_sweep : ℕ → DeletionDraws → Db → Option Db
unfolding sweep
run_deletion_sweep fuel x db = sweep (λ n. pseudonymize_due batch (x.draw n) (x.at n)) fuel 0 db

pub record DeliveryDraws : Type 0 where
  pub at : ℕ → ℕ
  pub attempts : ℕ → String → Attempt

-- `runOutboxDelivery`
unfoldable pub run_outbox_delivery : ℕ → DeliveryDraws → Db → Option Db
unfolding sweep
run_outbox_delivery fuel x db = sweep (λ n. flush_outbox batch (x.at n) (x.attempts n)) fuel 0 db
