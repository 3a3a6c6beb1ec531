-- ===== src/Outbox/Publisher.antt =====
-- `PublishNextOutboxEvent`: one transaction over the tables. The database and the broker are
-- parameters: which statement fails, whether the commit does, and what the publication returns.
pub mod Laws
mod Tests
use eventrail_ingestion.Prelude.{
  Bool, List, Option, String, [], eqb, false, if◌then◌else◌, leb_ℤ, ltb_ℤ, none, not, pos, pos_part,
  some, true, ℕ, ℤ, ◌+◌, ◌∷◌,
}
use eventrail_ingestion.Errors.{Error, failed, new, nil, outbox_publish_failed, sentinel, wrap}
use eventrail_ingestion.Outbox.{
  OutboxRow, Tables, mark_published, next_pending, reschedule, rows_affected, update_row,
}
use eventrail_ingestion.Outbox.Backoff.{microseconds, outbox_backoff, sanitize_outbox_error}
use eventrail_ingestion.Outbox.Stream.{publish}
use eventrail_ingestion.Worker.Protocol.{moved}

-- What the database answers: errors of beginning, claiming, updating, inserting the status,
-- committing and rolling back; nil is success. Where a commit reports an error, `commit_applied` says
-- whether the server had committed all the same. `locked` are the rows that others have locked.
pub record Database : Type 0 where
  pub begin_error : Error
  pub claim_error : Error
  pub update_error : Error
  pub history_error : Error
  pub commit_error : Error
  pub commit_applied : Bool
  pub rollback_error : Error
  pub locked : ℕ → Bool

pub record PublishConfig : Type 0 where
  pub base_backoff : ℤ
  pub max_backoff : ℤ

-- `PublishNextOutboxResult`.
pub record PublishResult : Type 0 where
  pub found : Bool
  pub is_published : Bool
  pub outbox_id : ℕ
  pub event_id : String

abbrev pub no_result : PublishResult
no_result = record { found = false; is_published = false; outbox_id = 0; event_id = "" }

-- The result and error, the tables after the call, and the events that were handed to the broker.
pub record Outcome : Type 0 where
  pub result : PublishResult
  pub error : Error
  pub tables : Tables
  pub handed_over : List OutboxRow

-- A connection in a transaction: the tables that are committed, those that the transaction sees, and
-- what was handed to the broker meanwhile.
pub record Connection : Type 0 where
  pub durable : Tables
  pub working : Tables
  pub sent : List OutboxRow

abbrev Answer : Type 0
Answer = (PublishResult × Error) × Connection

abbrev stopped : Error → Connection → Answer
stopped e c = ((no_result, e), c)

-- The two statements that change the outbox, and the one that changes the history.
abbrev update_outbox : ℕ → (OutboxRow → OutboxRow) → Connection → Connection
update_outbox i f c = record c {
  working = record c.working { outbox = update_row i f c.working.outbox };
}

abbrev insert_history : String → Connection → Connection
insert_history event_id c = record c {
  working = record c.working { history = (event_id, "PUBLISHED") ∷ c.working.history };
}

-- `Commit`, and one that reports an error.
abbrev committed : Connection → Connection
committed c = record c { durable = c.working }

abbrev commit_failed : Database → Connection → Connection
commit_failed db c = if db.commit_applied then committed c else c

-- `validatePublishNextOutboxConfig`, for a pool and a function that are there.
validate : PublishConfig → Error
validate c =
    if leb_ℤ c.base_backoff (pos 0)
    then new "outbox publisher base backoff must be positive"
    else if ltb_ℤ c.max_backoff c.base_backoff
    then new "outbox publisher max backoff must be at least base backoff"
    else nil

-- The publication failed: the row is put back with a delay, and that is committed.
after_failure : Database → PublishConfig → ℕ → OutboxRow → Error → Connection → Answer
after_failure db config at r e c =
    let delay = outbox_backoff config.base_backoff config.max_backoff (r.attempt_count + 1) in
    let moved : Connection =
      update_outbox r.id (reschedule at (pos_part (microseconds delay)) (sanitize_outbox_error e))
        c in
    if failed db.update_error
    then stopped (wrap "reschedule outbox after publication failure: " db.update_error "") c
    else if not (eqb (rows_affected r.id c.working.outbox) 1)
    then stopped (new "reschedule outbox affected rows") moved
    else if failed db.commit_error
    then stopped (wrap "commit outbox failure state: " db.commit_error "") (commit_failed db moved)
    else (
      (
        record { found = true; is_published = false; outbox_id = r.id; event_id = r.event_id },
        wrap "" (sentinel outbox_publish_failed) ": outbox, event, attempt",
      ),
      committed moved,
    )

-- The publication succeeded: the row is marked, the history gets a line, and that is committed.
after_success : Database → ℕ → OutboxRow → Connection → Answer
after_success db at r c =
    let marked : Connection = update_outbox r.id (mark_published at) c in
    let told : Connection = insert_history r.event_id marked in
    if failed db.update_error
    then stopped (wrap "mark outbox published: " db.update_error "") c
    else if not (eqb (rows_affected r.id c.working.outbox) 1)
    then stopped (new "mark outbox published affected rows") marked
    else if failed db.history_error
    then stopped (wrap "insert status PUBLISHED: " db.history_error "") marked
    else if failed db.commit_error
    then stopped (wrap "commit published outbox: " db.commit_error "") (commit_failed db told)
    else (
      (record { found = true; is_published = true; outbox_id = r.id; event_id = r.event_id }, nil),
      committed told,
    )

publish_claimed :
    Database → PublishConfig → (OutboxRow → Error) → ℕ → Option OutboxRow → Connection → Answer
publish_claimed db config publish at none c =
    if failed db.rollback_error
    then stopped (wrap "rollback empty outbox transaction: " db.rollback_error "") c
    else stopped nil c
publish_claimed db config publish at (some r) c =
    let handed : Connection = record c { sent = r ∷ c.sent } in
    if failed (publish r)
    then after_failure db config at r (publish r) handed
    else after_success db at r handed

in_transaction : Database → PublishConfig → (OutboxRow → Error) → ℕ → Connection → Answer
in_transaction db config publish at c =
    if failed db.claim_error
    then stopped (wrap "claim next pending outbox event: " db.claim_error "") c
    else publish_claimed db config publish at (next_pending db.locked at c.working.outbox) c

-- The deferred `Rollback`: what was not committed is lost.
outcome : Answer → Outcome
outcome ((result, error), c) = record {
  result = result;
  error = error;
  tables = c.durable;
  handed_over = c.sent;
}

-- `PublishNextOutboxEvent`.
pub publish_next : Database → PublishConfig → (OutboxRow → Error) → ℕ → Tables → Outcome
unfolding outcome
publish_next db config publish at before =
    let opened : Connection = record { durable = before; working = before; sent = [] } in
    if failed (validate config)
    then outcome (stopped (validate config) opened)
    else if failed db.begin_error
    then outcome (stopped (wrap "begin publish outbox transaction: " db.begin_error "") opened)
    else outcome (in_transaction db config publish at opened)
