-- ===== src/Server/Sweeps/Deliveries.antt =====
-- A round of the outbox sweep that delivers anything leaves fewer rows to deliver (`flushOutbox` in
-- apps/auth/src/lifecycle/service.ts).
use rsp_website.Prelude.{
  ◌⊎◌, ℕ, ◌≤◌, ◌<◌, ◌≡◌, refl, ◌∙◌, String, Bool, true, false, not, ◌||◌, ◌&&◌, List, [], ◌∷◌,
  arith, All, map, ltb, eq_refl, length, is_some, Bool-cases, inl, inr, select_rows, some_of,
  sort_by,
}
use rsp_website.Prelude.Tables.{All-weaken, All-selected_as}
use rsp_website.Prelude.Lists.{All-take}
use rsp_website.Prelude.Sorting.{All-sort_by}
use rsp_website.Lifecycle.Store.{Db, OutboxRow}
use rsp_website.Lifecycle.Tx.{ok, err, out_of_range}
use rsp_website.Lifecycle.Outbox.{
  Attempt, Entry, is_accepted, is_pending, after_attempt, mark_delivered, mark_failed, deliver,
  deliver_each, is_due, comes_before, claimable, lease, entry_of, claim, flush_outbox,
}

abbrev pub is_undelivered : OutboxRow → Bool
is_undelivered r = not (is_some r.delivered_at)

-- how many rows are to be delivered
abbrev pub undelivered_count : List OutboxRow → ℕ
undelivered_count rows = length (select_rows is_undelivered rows)

-- An attempt never makes a row undelivered.
undelivered-attempt-le :
    (e : Entry) (a : Attempt) (rows : List OutboxRow)
    → undelivered_count (map (after_attempt e a) rows) ≤ undelivered_count rows
unfolding select_rows after_attempt mark_delivered mark_failed
undelivered-attempt-le e a [] = omega arith
undelivered-attempt-le e a (r ∷ rows) = ground (arith, undelivered-attempt-le e a rows)

-- An accepted attempt at a row that is there delivers it.
undelivered-accepted-lt :
    (e : Entry) (a : Attempt) (rows : List OutboxRow)
    → is_accepted a.outcome ≡ true
    → some_of (is_pending e.id) rows ≡ true
    → undelivered_count (map (after_attempt e a) rows) < undelivered_count rows
unfolding select_rows after_attempt mark_delivered mark_failed is_accepted
undelivered-accepted-lt e a [] done there = cc
undelivered-accepted-lt e a (r ∷ rows) done there =
    ground (arith, done, undelivered-accepted-lt e a rows done, undelivered-attempt-le e a rows)

-- A failed attempt leaves what is to be delivered so.
pending_failed :
    (id : String) (e : Entry) (a : Attempt) (rows : List OutboxRow)
    → is_accepted a.outcome ≡ false
    → some_of (is_pending id) (map (after_attempt e a) rows) ≡ some_of (is_pending id) rows
unfolding after_attempt mark_failed is_accepted
pending_failed id e a [] lost = refl
pending_failed id e a (r ∷ rows) lost = ground (arith, lost, pending_failed id e a rows lost)

pending_map :
    (f : OutboxRow → OutboxRow) (id : String) (rows : List OutboxRow)
    → ((r : OutboxRow) → is_pending id (f r) ≡ is_pending id r)
    → some_of (is_pending id) (map f rows) ≡ some_of (is_pending id) rows
pending_map f id [] same = refl
pending_map f id (r ∷ rows) same = ground (arith, same r, pending_map f id rows same)

undelivered-lease :
    (now : ℕ) (claimed rows : List OutboxRow)
    → undelivered_count (map (lease now claimed) rows) ≡ undelivered_count rows
unfolding select_rows lease
undelivered-lease now claimed [] = refl
undelivered-lease now claimed (r ∷ rows) = ground (arith, undelivered-lease now claimed rows)

-- Every undelivered row is one that an attempt at its ID may deliver.
undelivered_pending :
    (rows : List OutboxRow)
    → All (λ r. is_undelivered r && not (some_of (is_pending r.id) rows) ≡ false) rows
undelivered_pending [] = tt
undelivered_pending (x ∷ rows) = (
  ground (arith, eq_refl x.id),
  All-weaken (λ (r : OutboxRow). is_undelivered r && not (some_of (is_pending r.id) rows) ≡ false)
      (λ (r : OutboxRow). is_undelivered r && not (some_of (is_pending r.id) (x ∷ rows)) ≡ false)
      rows (λ r h. ground (arith, h)) (undelivered_pending rows),
)

claimable_pending :
    (limit now : ℕ) (rows : List OutboxRow)
    → All (λ r. some_of (is_pending r.id) rows ≡ true) (claimable limit now rows)
unfolding claimable is_due
claimable_pending limit now rows =
    let sorted = sort_by comes_before (select_rows (is_due now) rows) in
    All-take (λ r. some_of (is_pending r.id) rows ≡ true) limit sorted
      (All-sort_by (λ r. some_of (is_pending r.id) rows ≡ true) comes_before
        (select_rows (is_due now) rows)
        (All-selected_as
          (λ (r : OutboxRow). is_undelivered r && not (some_of (is_pending r.id) rows) ≡ false)
          (λ (r : OutboxRow). some_of (is_pending r.id) rows ≡ true) (is_due now) rows
          (λ r due h. ground (arith, due, h)) (undelivered_pending rows)))

All-entries :
    (P : String → Type 0) (rows : List OutboxRow)
    → All (λ (r : OutboxRow). P r.id) rows
    → All (λ (e : Entry). P e.id) (map entry_of rows)
unfolding entry_of
All-entries P [] h = tt
All-entries P (r ∷ rows) (q, h) = (q, All-entries P rows h)

deliver_each-le :
    (attempts : String → Attempt) (es : List Entry) (db : Db)
    → undelivered_count (deliver_each attempts es db).1.outbox ≤ undelivered_count db.outbox
unfolding deliver_each deliver
deliver_each-le attempts [] db = omega arith
deliver_each-le attempts (e ∷ es) db =
    let first = undelivered-attempt-le e (attempts e.id) db.outbox in
    let rest = deliver_each-le attempts es (deliver e (attempts e.id) db).1 in
    omega (arith, first, rest)

deliver_each_progress :
    (attempts : String → Attempt) (es : List Entry) (db : Db)
    → All (λ (e : Entry). some_of (is_pending e.id) db.outbox ≡ true) es
    → ((deliver_each attempts es db).0 ≡ 0)
      ⊎ (undelivered_count (deliver_each attempts es db).1.outbox < undelivered_count db.outbox)
unfolding deliver_each deliver
deliver_each_progress attempts [] db h = inl refl
deliver_each_progress attempts (e ∷ es) db (q, h) =
    elim (Bool-cases (is_accepted (attempts e.id).outcome)) [
      | inl done ↦ inr (
          let first = undelivered-accepted-lt e (attempts e.id) db.outbox done q in
          let rest = deliver_each-le attempts es (deliver e (attempts e.id) db).1 in
          omega (arith, first, rest))
      | inr lost ↦
          let mid : Db = (deliver e (attempts e.id) db).1 in
          let waiting : All (λ (x : Entry). some_of (is_pending x.id) mid.outbox ≡ true) es =
            All-weaken (λ (x : Entry). some_of (is_pending x.id) db.outbox ≡ true)
              (λ (x : Entry). some_of (is_pending x.id) mid.outbox ≡ true) es
              (λ x hx. pending_failed x.id e (attempts e.id) db.outbox lost ∙ hx) h in
          let first = undelivered-attempt-le e (attempts e.id) db.outbox in
          rw lost (elim (deliver_each_progress attempts es mid waiting) [
            | inl none_ ↦ inl none_
            | inr fewer ↦ inr (omega (arith, first, fewer))
          ])
    ]

-- A sweep of the outbox that returns more than 0 leaves fewer rows undelivered than there were.
pub flush_outbox_progress :
    (limit now : ℕ) (attempts : String → Attempt) (db : Db) (n : ℕ)
    → (flush_outbox limit now attempts db).0 ≡ ok n
    → 0 < n
    → undelivered_count (flush_outbox limit now attempts db).1.outbox < undelivered_count db.outbox
unfolding flush_outbox claim
flush_outbox_progress limit now attempts db n e pos =
    elim (Bool-cases (ltb limit 1 || ltb 100 limit)) [
      | inl bad ↦ let refused : err out_of_range ≡ ok n = rw bad at e in cc
      | inr good ↦
          let claimed = claimable limit now db.outbox in
          let leased : Db = (claim limit now db).1 in
          let waiting : All (λ (x : Entry). some_of (is_pending x.id) leased.outbox ≡ true)
              (claim limit now db).0 =
            All-entries (λ id. some_of (is_pending id) leased.outbox ≡ true) claimed
              (All-weaken (λ (r : OutboxRow). some_of (is_pending r.id) db.outbox ≡ true)
                (λ (r : OutboxRow). some_of (is_pending r.id) leased.outbox ≡ true) claimed
                (λ r h.
                  pending_map (lease now claimed) r.id db.outbox (λ x. unfold lease in ground arith)
                  ∙ h)
                (claimable_pending limit now db.outbox)) in
          let same : undelivered_count leased.outbox ≡ undelivered_count db.outbox =
            undelivered-lease now claimed db.outbox in
          rw good (elim (deliver_each_progress attempts (claim limit now db).0 leased waiting) [
            | inl nothing ↦
                let value : ok (deliver_each attempts (claim limit now db).0 leased).0 ≡ ok n =
                  rw good at e in
                absurd (ground (arith, value, nothing))
            | inr fewer ↦ omega (arith, fewer, same)
          ])
    ]
