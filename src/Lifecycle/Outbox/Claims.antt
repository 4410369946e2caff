-- ===== src/Lifecycle/Outbox/Claims.antt =====
-- What a sweep of the outbox claims and returns (`flushOutbox`).
use rsp_website.Prelude.{
  ℕ, ◌+◌, ◌≤◌, ◌<◌, ◌≡◌, refl, String, true, false, ◌&&◌, ◌||◌, List, [], ◌∷◌, map, arith, All,
  length, take, ltb, sort_by, select_rows,
}
use rsp_website.Prelude.Lists.{length-take-le, length-map, All-take}
use rsp_website.Prelude.Sorting.{All-sort_by}
use rsp_website.Prelude.Tables.{All-selected}
use rsp_website.Lifecycle.Store.{Db, OutboxRow}
use rsp_website.Lifecycle.Tx.{ok}
use rsp_website.Lifecycle.Outbox.{
  Attempt, Entry, has_row, is_unlocked, is_due, comes_before, claimable, lease, lease_ms, entry_of,
  claim, deliver, deliver_each, flush_outbox,
}

claimable-IsDue :
    (limit now : ℕ) (rows : List OutboxRow)
    → All (λ r. is_due now r ≡ true) (claimable limit now rows)
unfolding claimable
claimable-IsDue limit now rows =
    All-take (λ r. is_due now r ≡ true) limit (sort_by comes_before (select_rows (is_due now) rows))
      (All-sort_by (λ r. is_due now r ≡ true) comes_before (select_rows (is_due now) rows)
        (All-selected (is_due now) rows))

leased :
    (now later : ℕ) (claimed rows : List OutboxRow)
    → later < now + lease_ms
    → All (λ r. has_row r.id claimed && is_due later r ≡ false) (map (lease now claimed) rows)
unfolding lease is_due is_unlocked
leased now later claimed [] h = tt
leased now later claimed (r ∷ rows) h = (ground (arith, h), leased now later claimed rows h)

-- A claim takes at most as many rows as it may, each of them is due, and in the tables that it leaves
-- none of those that it has taken is due for another claim in the minute that follows.
pub claim-IsExclusive :
    (limit now later : ℕ) (db : Db)
    → later < now + lease_ms
    → (length (claim limit now db).0 ≤ limit)
      × All (λ r. is_due now r ≡ true) (claimable limit now db.outbox)
      × All
          (λ r. has_row r.id (claimable limit now db.outbox) && is_due later r ≡ false)
          (claim limit now db).1.outbox
unfolding claim claimable
claim-IsExclusive limit now later db h =
    let sorted = sort_by comes_before (select_rows (is_due now) db.outbox) in
    (
      ground (arith, length-take-le limit sorted, length-map entry_of (take limit sorted)),
      claimable-IsDue limit now db.outbox,
      leased now later (claimable limit now db.outbox) db.outbox h,
    )

deliver_each-le :
    (attempts : String → Attempt) (es : List Entry) (db : Db)
    → (deliver_each attempts es db).0 ≤ length es
unfolding deliver_each deliver
deliver_each-le attempts [] db = ground arith
deliver_each-le attempts (e ∷ es) db =
    let le = deliver_each-le attempts es (deliver e (attempts e.id) db).1 in ground (arith, le)

-- A sweep that may take between 1 and 100 rows returns how many rows it has delivered, and these are
-- not more than it may take.
pub flush_outbox_count :
    (limit now : ℕ) (attempts : String → Attempt) (db : Db)
    → 1 ≤ limit
    → limit ≤ 100
    → let (entries, claimed) = claim limit now db in
      let delivered = (deliver_each attempts entries claimed).0 in
      ((flush_outbox limit now attempts db).0 ≡ ok delivered) × (delivered ≤ limit)
unfolding flush_outbox
flush_outbox_count limit now attempts db low high =
    let in_range : (ltb limit 1 || ltb 100 limit) ≡ false = ground arith in
    let few : (deliver_each attempts (claim limit now db).0 (claim limit now db).1).0
        ≤ length (claim limit now db).0 =
      deliver_each-le attempts (claim limit now db).0 (claim limit now db).1 in
    let many : length (claim limit now db).0 ≤ limit =
      (claim-IsExclusive limit now now db (ground arith)).0 in
    (rw in_range refl, ground (arith, few, many))
