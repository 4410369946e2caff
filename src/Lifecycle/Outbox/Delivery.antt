-- ===== src/Lifecycle/Outbox/Delivery.antt =====
-- What an attempt to deliver does to the rows of the outbox, and how long a failed one waits.
use native.Mathlib.Nat.{one-le-pow, pow-le-pow_right, min-le_right}
use rsp_website.Prelude.{
  ℕ, ◌+◌, ◌*◌, ◌^◌, ◌≤◌, min, ◌≡◌, ◌↔◌, String, true, false, arith, eq_refl, is_some, Text, length,
  some,
}
use rsp_website.Prelude.Lists.{length-take-le}
use rsp_website.Lifecycle.Store.{Db, OutboxRow, EmailMessage}
use rsp_website.Lifecycle.Outbox.{
  Attempt, failed, Thrown, error, other, message_of, Entry, backoff, after_attempt, is_pending,
  has_row, new_row, queue_email, is_due,
}

-- The wait is the fifth part of a second power of two: it doubles with each failure, from 5 seconds
-- to 2560, and the cap of an hour is never reached.
pub backoff_lem : (n : ℕ) → (backoff n ≡ 5 * 2 ^ min n 9) × (5 ≤ backoff n) × (backoff n ≤ 2560)
unfolding backoff
backoff_lem n =
    let low : 1 ≤ 2 ^ min n 9 = one-le-pow (min n 9) 2 (ground arith) in
    let high : 2 ^ min n 9 ≤ 2 ^ 9 = pow-le-pow_right {n = 2} (ground arith) (min-le_right n 9) in
    let bound : 2 ^ min n 9 ≤ 512 = high in
    (ground (arith, bound), ground (arith, low), ground (arith, bound))

-- A row that is delivered is never changed by an attempt again.
pub after_attempt_delivered :
    (e : Entry) (a : Attempt) (r : OutboxRow)
    → is_some r.delivered_at ≡ true
    → after_attempt e a r ≡ r
unfolding after_attempt
after_attempt_delivered e a r done = ground (arith, done)

message_of-short : (thrown : Thrown) → length (message_of thrown) ≤ 500
unfolding message_of
message_of-short (error message) = length-take-le 500 message
message_of-short other = ground arith

-- A failed attempt on a row that waits, if the failure is recorded, counts one more, keeps the row
-- undelivered and due exactly once the wait is over, and stores a message of at most 500 characters;
-- a failure that could not be recorded leaves the row as it was.
pub after_attempt_failed :
    (e : Entry) (thrown : Thrown) (at now : ℕ) (r : OutboxRow)
    → is_pending e.id r ≡ true
    → let r' = after_attempt e (record { outcome = failed thrown true; at = at }) r in
      (r'.attempt_count ≡ r.attempt_count + 1)
      × (is_some r'.delivered_at ≡ false)
      × (is_due now r' ≡ true ↔ at + backoff r.attempt_count * 1000 ≤ now)
      × ((m : Text) × (r'.last_error ≡ some m) × (length m ≤ 500))
      × (after_attempt e (record { outcome = failed thrown false; at = at }) r ≡ r)
unfolding after_attempt is_due
after_attempt_failed e thrown at now r waiting = (
  ground (arith, waiting),
  ground (arith, waiting),
  ground (arith, waiting),
  (message_of thrown, ground (arith, waiting), message_of-short thrown),
  ground arith,
)

-- An email is queued once: a second call with the same ID changes nothing.
pub queue_email_idem :
    (id : String) (m m' : EmailMessage) (now later : ℕ) (db : Db)
    → queue_email id m' later (queue_email id m now db) ≡ queue_email id m now db
unfolding queue_email has_row new_row
queue_email_idem id m m' now later db = ground (arith, eq_refl id)
