-- ===== src/Outbox.antt =====
-- internal/outbox/publisher.go: the outbox table, the claim of the next due row, its publication in
-- one transaction, and the delay after a failure. The functions on the table are the SQL texts of
-- the file; `now()` is the time of the transaction. Times are microseconds.
pub mod Backoff
pub mod Publisher
pub mod Order
pub mod Runner
pub mod Stream
use eventrail_ingestion.Prelude.{
  Bool, List, Option, String, [], eqb, false, if◌then◌else◌, leb, ltb, none, not, some, suc, ℕ,
  ◌&&◌, ◌+◌, ◌||◌, ◌∷◌,
}

pub data OutboxStatus : Type 0 where
  pending published : OutboxStatus

-- A row of the table `outbox`.
pub record OutboxRow : Type 0 where
  pub id : ℕ
  pub event_id : String
  pub status : OutboxStatus
  pub attempt_count : ℕ
  pub next_attempt_at : ℕ
  pub published_at : Option ℕ
  pub last_error : Option String
  pub created_at : ℕ

-- The two tables that publication writes: the outbox, and the status history (newest first).
pub record Tables : Type 0 where
  pub outbox : List OutboxRow
  pub history : List (String × String)

pub is_due : ℕ → OutboxRow → Bool
is_due at r = elim r.status [ pending ↦ leb r.next_attempt_at at | published ↦ false ]

-- `ORDER BY next_attempt_at ASC, created_at ASC`.
pub comes_before : OutboxRow → OutboxRow → Bool
comes_before a b =
    ltb a.next_attempt_at b.next_attempt_at
    || (eqb a.next_attempt_at b.next_attempt_at && leb a.created_at b.created_at)

earlier : OutboxRow → Option OutboxRow → OutboxRow
unfolding comes_before
earlier r none = r
earlier r (some s) = if comes_before r s then r else s

-- A due row that is not among those that other transactions have locked.
pub is_claimable : (ℕ → Bool) → ℕ → OutboxRow → Bool
is_claimable locked at r = is_due at r && not (locked r.id)

-- `selectNextPendingOutboxSQL`: the first row in that order that is due and that no other
-- transaction has locked (`FOR UPDATE SKIP LOCKED`), if there is one.
pub next_pending : (ℕ → Bool) → ℕ → List OutboxRow → Option OutboxRow
unfolding is_due earlier is_claimable
next_pending locked at [] = none
next_pending locked at (r ∷ rs) =
    let rest = next_pending locked at rs in
    if is_claimable locked at r then some (earlier r rest) else rest

-- `UPDATE outbox SET … WHERE id = $1`, with the number of rows that it touched.
pub update_row : ℕ → (OutboxRow → OutboxRow) → List OutboxRow → List OutboxRow
update_row i f [] = []
update_row i f (r ∷ rs) = (if eqb r.id i then f r else r) ∷ update_row i f rs

pub rows_affected : ℕ → List OutboxRow → ℕ
rows_affected i [] = 0
rows_affected i (r ∷ rs) = if eqb r.id i then suc (rows_affected i rs) else rows_affected i rs

-- `markOutboxPublishedSQL`.
pub mark_published : ℕ → OutboxRow → OutboxRow
mark_published at r = record r { status = published; published_at = some at; last_error = none }

-- `rescheduleOutboxAfterFailureSQL`.
pub reschedule : ℕ → ℕ → String → OutboxRow → OutboxRow
reschedule at delay message r = record r {
  status = pending;
  attempt_count = r.attempt_count + 1;
  next_attempt_at = at + delay;
  last_error = some message;
  published_at = none;
}
