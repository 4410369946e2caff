-- ===== src/Tests/Outbox.antt =====
-- The theorems on the outbox at sample rows.
use rsp_website.Prelude.{
  Text, some, ◌+◌, ◌*◌, ◌^◌, ◌≤◌, min, ◌≡◌, ◌↔◌, refl, ◌&&◌, String, true, false, none, [], ◌∷◌,
  arith, All, codes, length, is_some,
}
use rsp_website.Lifecycle.Store.{Db, OutboxRow, email, EmailMessage}
use rsp_website.Lifecycle.Outbox.{
  Attempt, accepted, failed, other, Entry, backoff, after_attempt, has_row, is_due, is_pending,
  claim, claimable, deliver_each, flush_outbox, queue_email,
}
use rsp_website.Lifecycle.Outbox.Claims.{claim-IsExclusive}
use rsp_website.Lifecycle.Outbox.Delivery.{backoff_lem, after_attempt_failed}
use rsp_website.Tests.Samples.{sample_db}

abbrev greeting : EmailMessage
greeting = record { to = "ada@example.org"; subject = codes "Hi"; text = codes "Hi"; html = none }

abbrev waiting_row : OutboxRow
waiting_row = record {
  id = "r1";
  payload = email greeting;
  attempt_count = 2;
  available_at = 100;
  locked_until = none;
  last_error = none;
  created_at = 50;
  delivered_at = none;
}

abbrev queued_db : Db
queued_db = record sample_db { outbox = waiting_row ∷ record waiting_row { id = "r2" } ∷ [] }

abbrev waiting_entry : Entry
waiting_entry = record { id = "r1"; payload = email greeting }

abbrev attempts : String → Attempt
attempts id = record { outcome = if_first id; at = 300 }
  where
    if_first : String → rsp_website.Lifecycle.Outbox.Outcome
    if_first i = accepted

claim-IsExclusive_example :
    (length (claim 1 200 queued_db).0 ≤ 1)
    × All (λ r. is_due 200 r ≡ true) (claimable 1 200 queued_db.outbox)
    × All
        (λ r. has_row r.id (claimable 1 200 queued_db.outbox) && is_due 60199 r ≡ false)
        (claim 1 200 queued_db).1.outbox
claim-IsExclusive_example = claim-IsExclusive 1 200 60199 queued_db (ground arith)

after_attempt_failed_example :
    let r' =
      after_attempt waiting_entry (record { outcome = failed other true; at = 300 }) waiting_row in
    (r'.attempt_count ≡ 2 + 1)
    × (is_some r'.delivered_at ≡ false)
    × (is_due 20300 r' ≡ true ↔ 300 + backoff 2 * 1000 ≤ 20300)
    × ((m : Text) × (r'.last_error ≡ some m) × (length m ≤ 500))
    × (after_attempt waiting_entry (record { outcome = failed other false; at = 300 }) waiting_row
        ≡ waiting_row)
after_attempt_failed_example = after_attempt_failed waiting_entry other 300 20300 waiting_row refl

backoff_lem_example : (backoff 3 ≡ 5 * 2 ^ min 3 9) × (5 ≤ backoff 3) × (backoff 3 ≤ 2560)
backoff_lem_example = backoff_lem 3
