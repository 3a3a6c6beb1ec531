-- ===== src/Operations/Recording.antt =====
-- What the worker records: `InsertStatusHistory`, `insertDeliveryAttempt`, and the four `Record…`
-- operations, each in one transaction.
pub mod Laws
mod Tests
use eventrail_ingestion.Prelude.{
  List, Option, String, [], concat, if◌then◌else◌, negsuc, none, some, trim_space, ℕ, ℤ, ◌+◌, ◌==◌,
  ◌∷◌,
}
use eventrail_ingestion.Errors.{Error, error_text, nil}
use eventrail_ingestion.Go.Words.{add_int}
use eventrail_ingestion.Operations.{
  Details, DlqRow, Tables, detail_int, detail_text, either_error, positive_int4, references_event,
  status_open,
}
use eventrail_ingestion.Operations.Session.{
  Database, Tx, check, in_transaction, within, write, ◌>>=◌, ◌>>◌,
}
use eventrail_ingestion.Worker.{
  DeadLetterRecord, DeliveryAttemptRecord, ProcessingRecord, RetryingRecord,
}

unfoldable pub insert_history : ℕ → String → String → Details → Tables → Tables
insert_history at id status details t = record t {
  history =
      record {
        id = t.next_history_id;
        event_id = id;
        status = status;
        details = details;
        created_at = at;
      }
      ∷ t.history;
  next_history_id = t.next_history_id + 1;
}

unfoldable pub insert_status_history : Database → String → String → Details → Tx (Unit {0})
insert_status_history db event_id status details = do
  within "marshal status details: " (check (db.marshal_error details))
  within (concat ("insert status " ∷ status ∷ " for event " ∷ event_id ∷ ": " ∷ [])) (
      write db event_id (λ id t. references_event t.events id)
        (λ id. insert_history db.now id status details))

-- `errorString`: the trimmed text, unless it is empty.
pub error_string : Error → Option String
error_string nil = none
error_string e =
    let message = trim_space (error_text e) in if message == "" then none else some message

insert_attempt : String → String → DeliveryAttemptRecord → Tables → Tables
insert_attempt id outcome r t = record t {
  attempts =
      record {
        id = t.next_attempt_id;
        event_id = id;
        attempt_number = r.attempt_number;
        outcome = outcome;
        response_code = r.response_code;
        error = error_string r.error;
        started_at = r.started_at;
        completed_at = r.completed_at;
      }
      ∷ t.attempts;
  next_attempt_id = t.next_attempt_id + 1;
}

-- The constraints of a row with a positive number that refers to an event.
numbered_row : ℤ → String → Tables → Error
numbered_row n id t = either_error (positive_int4 n) (references_event t.events id)

insert_delivery_attempt : Database → DeliveryAttemptRecord → String → Tx (Unit {0})
insert_delivery_attempt db r outcome =
    within (concat ("insert delivery attempt for event " ∷ r.event_id ∷ ": " ∷ []))
      (write db r.event_id (numbered_row r.attempt_number) (λ id. insert_attempt id outcome r))

pub record_processing : Database → ProcessingRecord → Tx (Unit {0})
record_processing db r = in_transaction db (
    insert_status_history db r.event_id "PROCESSING"
      (("stream_id", detail_text r.stream_id) ∷ ("retry", detail_int r.retry_count) ∷ []))

-- `record.AttemptNumber - 1`.
retry_of : DeliveryAttemptRecord → ℤ
retry_of r = add_int r.attempt_number (negsuc 0)

pub record_delivered : Database → DeliveryAttemptRecord → Tx (Unit {0})
record_delivered db r = in_transaction db do
  insert_delivery_attempt db r "SUCCESS"
  insert_status_history db r.event_id "DELIVERED"
      (("stream_id", detail_text r.stream_id) ∷ ("retry", detail_int (retry_of r)) ∷ [])

pub record_retrying : Database → RetryingRecord → Tx (Unit {0})
record_retrying db r = in_transaction db do
  insert_delivery_attempt db r.attempt "FAILED"
  insert_status_history db r.attempt.event_id "RETRYING" (
      ("stream_id", detail_text r.attempt.stream_id)
      ∷ ("retry", detail_int (retry_of r.attempt))
      ∷ ("next_retry", detail_int r.next_retry)
      ∷ ("scheduled_at", detail_text (db.format_nano r.scheduled_at))
      ∷ [])

-- `ON CONFLICT (event_id) DO UPDATE`: the row of the event is replaced, or a row is added.
unfoldable pub upsert_dlq : DlqRow → List DlqRow → List DlqRow
upsert_dlq r [] = r ∷ []
upsert_dlq r (d ∷ ds) = if d.event_id == r.event_id then r ∷ ds else d ∷ upsert_dlq r ds

pub dead_letter_row : ℕ → String → String → DeliveryAttemptRecord → DlqRow
dead_letter_row at id original_stream_id r = record {
  event_id = id;
  original_stream_id = original_stream_id;
  attempt_count = r.attempt_number;
  last_error = error_string r.error;
  status = status_open;
  dead_lettered_at = at;
  redriven_at = none;
  updated_at = at;
}

pub stream_id_or : String → String → String
stream_id_or original_stream_id stream_id =
    let trimmed = trim_space original_stream_id in if trimmed == "" then stream_id else trimmed

put_dead_letter : ℕ → DeadLetterRecord → String → Tables → Tables
put_dead_letter at r id t = record t {
  dlq =
      upsert_dlq
        (dead_letter_row at id (stream_id_or r.original_stream_id r.attempt.stream_id) r.attempt)
        t.dlq;
}

store_dead_letter : Database → DeadLetterRecord → Tx (Unit {0})
store_dead_letter db r =
    within (concat ("upsert DLQ record for event " ∷ r.attempt.event_id ∷ ": " ∷ [])) (
      write db r.attempt.event_id (numbered_row r.attempt.attempt_number)
        (put_dead_letter db.now r))

pub record_dead_lettered : Database → DeadLetterRecord → Tx (Unit {0})
record_dead_lettered db r = in_transaction db do
  insert_delivery_attempt db r.attempt "FAILED"
  store_dead_letter db r
  insert_status_history db r.attempt.event_id "DEAD_LETTERED" (
      ("stream_id", detail_text r.attempt.stream_id)
      ∷ ("retry", detail_int (retry_of r.attempt))
      ∷ [])
