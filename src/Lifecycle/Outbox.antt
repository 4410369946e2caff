-- ===== src/Lifecycle/Outbox.antt =====
-- The durable outbox of apps/auth/src/lifecycle/service.ts: lifecycle events and emails are stored
-- with the change that causes them, and delivered afterwards, at least once.
-- The gateway, the email provider and a failing database are the argument `Outcome` of an attempt.
pub mod Delivery
pub mod Claims
use Prim.Native.String.{compare}
use text.Mathlib.Text.{is_le}
use rsp_website.Prelude.{
  ℕ, zero, suc, ◌+◌, ◌*◌, ◌^◌, min, String, Bool, true, false, not, ◌&&◌, ◌||◌, Option, none, some,
  List, [], ◌∷◌, map, ltb, leb, ◌==◌, if◌then◌else◌, str_eq, includes, is_some, take, codes, Text,
  select_rows, sort_by, some_of,
}
use rsp_website.Lifecycle.Store.{
  Db, OutboxRow, Payload, identity, email, IdentityEvent, EmailMessage,
}
use rsp_website.Lifecycle.Tx.{
  Error, constraint_violation, synchronization_pending, out_of_range, Result, ok, err, Tx, pure,
  throw, gets, ◌>>=◌, ◌>>◌, modify, throw_if, in_transaction,
}

-- What a call of the gateway or the provider throws: an `Error` with its message, or another value.
pub data Thrown : Type 0 where
  error : Text → Thrown
  other : Thrown

-- How one attempt goes: the call and the update that marks the row both succeed, or one of them
-- throws; then the Boolean says whether the update that records the failure is committed.
pub data Outcome : Type 0 where
  accepted : Outcome
  failed : Thrown → Bool → Outcome

pub record Attempt : Type 0 where
  pub outcome : Outcome
  pub at : ℕ  -- `this.now()` in the update that is committed

-- `OutboxEntry`
pub record Entry : Type 0 where
  pub id : String
  pub payload : Payload

unfoldable pub has_row : String → List OutboxRow → Bool
has_row id rows = some_of (λ r. str_eq r.id id) rows

unfoldable pub new_row : String → Payload → ℕ → OutboxRow
new_row id payload at = record {
  id = id;
  payload = payload;
  attempt_count = 0;
  available_at = at;
  locked_until = none;
  last_error = none;
  created_at = at;
  delivered_at = none;
}

-- `id` is the primary key
unfoldable pub enqueue_outbox : String → Payload → ℕ → Tx Entry
unfolding has_row new_row
enqueue_outbox id payload occurred_at = do
  throw_if (← gets (λ db. has_row id db.outbox)) constraint_violation
  modify (λ db. record db { outbox = new_row id payload occurred_at ∷ db.outbox })
  pure (record { id = id; payload = payload })

-- `ON CONFLICT (id) DO NOTHING`
unfoldable pub queue_email : String → EmailMessage → ℕ → Db → Db
unfolding has_row new_row
queue_email id message now db =
    if has_row id db.outbox
    then db
    else record db { outbox = new_row id (email message) now ∷ db.outbox }

-- seconds until the next attempt, after this many failures
pub backoff : ℕ → ℕ
backoff attempts = min 3600 (5 * 2 ^ min attempts 9)

-- `error.message.slice(0, 500)`
unfoldable pub message_of : Thrown → Text
message_of (error message) = take 500 message
message_of other = codes "delivery failed"

-- `WHERE id = $1 AND delivered_at IS NULL`
abbrev pub is_pending : String → OutboxRow → Bool
is_pending id r = str_eq r.id id && not (is_some r.delivered_at)

unfoldable pub mark_delivered : ℕ → OutboxRow → OutboxRow
mark_delivered now r = record r { delivered_at = some now; locked_until = none; last_error = none }

unfoldable pub mark_failed : ℕ → Text → OutboxRow → OutboxRow
unfolding backoff
mark_failed now message r = record r {
  attempt_count = r.attempt_count + 1;
  available_at = now + backoff r.attempt_count * 1000;
  locked_until = none;
  last_error = some message;
}

-- the row after an attempt, and whether the attempt succeeded
unfoldable pub after_attempt : Entry → Attempt → OutboxRow → OutboxRow
unfolding mark_delivered mark_failed message_of
after_attempt e a r = elim (a.outcome) [
  | accepted ↦ if is_pending e.id r then mark_delivered a.at r else r
  | failed thrown recorded ↦
      if recorded && is_pending e.id r then mark_failed a.at (message_of thrown) r else r
]

unfoldable pub is_accepted : Outcome → Bool
is_accepted accepted = true
is_accepted (failed _ _) = false

-- Both updates run in a transaction of their own.
unfoldable pub deliver : Entry → Attempt → Db → Bool × Db
unfolding is_accepted
deliver e a db = (is_accepted a.outcome, record db { outbox = map (after_attempt e a) db.outbox })

-- `Promise.all`, in the order of the list: the attempts update different rows
unfoldable pub deliver_best_effort : List (Entry × Attempt) → Db → Db
deliver_best_effort [] db = db
deliver_best_effort ((e, a) ∷ rest) db = deliver_best_effort rest (deliver e a db).1

unfoldable pub require_identity_delivery : Entry → Attempt → Tx (Unit {0})
unfolding deliver
require_identity_delivery e a db =
    let (done, db') = deliver e a db in (if done then ok tt else err synchronization_pending, db')

-- the row ID is a new UUID
unfoldable pub queue_identity_event : String → IdentityEvent → Bool → Attempt → Tx (Unit {0})
queue_identity_event id event require_delivery attempt = do
  entry ← in_transaction (enqueue_outbox id (identity event) event.occurred_at)
  if require_delivery
      then require_identity_delivery entry attempt
      else modify (deliver_best_effort ((entry, attempt) ∷ []))

-- `locked_until IS NULL OR locked_until <= $1`
pub is_unlocked : Option ℕ → ℕ → Bool
is_unlocked none now = true
is_unlocked (some t) now = leb t now

unfoldable pub is_due : ℕ → OutboxRow → Bool
unfolding is_unlocked
is_due now r =
    not (is_some r.delivered_at) && leb r.available_at now && is_unlocked r.locked_until now

-- `ORDER BY available_at, created_at, id`
unfoldable pub comes_before : OutboxRow → OutboxRow → Bool
comes_before a b =
    if ltb a.available_at b.available_at
    then true
    else if ltb b.available_at a.available_at
    then false
    else if ltb a.created_at b.created_at
    then true
    else if ltb b.created_at a.created_at
    then false
    else is_le (compare a.id b.id)

abbrev pub lease_ms : ℕ
lease_ms = 60000

unfoldable pub entry_of : OutboxRow → Entry
entry_of r = record { id = r.id; payload = r.payload }

-- the rows that a sweep claims
unfoldable pub claimable : ℕ → ℕ → List OutboxRow → List OutboxRow
unfolding comes_before is_due
claimable limit now rows = take limit (sort_by comes_before (select_rows (is_due now) rows))

unfoldable pub lease : ℕ → List OutboxRow → OutboxRow → OutboxRow
unfolding has_row
lease now claimed r =
    if has_row r.id claimed then record r { locked_until = some (now + lease_ms) } else r

-- The claim is one statement, so it is atomic; the rows come back in the order of the claim.
unfoldable pub claim : ℕ → ℕ → Db → List Entry × Db
unfolding claimable lease entry_of
claim limit now db =
    let claimed = claimable limit now db.outbox in
    (map entry_of claimed, record db { outbox = map (lease now claimed) db.outbox })

unfoldable pub deliver_each : (String → Attempt) → List Entry → Db → ℕ × Db
unfolding deliver
deliver_each attempts [] db = (0, db)
deliver_each attempts (e ∷ es) db =
    let (done, db') = deliver e (attempts e.id) db in
    let (n, db'') = deliver_each attempts es db' in (if done then n + 1 else n, db'')

-- `attempts` says how the attempt of each row goes, and when.
unfoldable pub flush_outbox : ℕ → ℕ → (String → Attempt) → Tx ℕ
unfolding claim deliver_each
flush_outbox limit now attempts db =
    if ltb limit 1 || ltb 100 limit
    then (err out_of_range, db)
    else let (entries, claimed) = claim limit now db in
      let (n, after) = deliver_each attempts entries claimed in (ok n, after)
