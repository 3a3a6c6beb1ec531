-- ===== src/Operations.antt =====
-- internal/operations/store.go and the tables of migrations/*.sql that it reads and writes. The rows
-- and their constraints stand here; the children have the statements and the operations.
pub mod Session
pub mod Recording
pub mod Redrive
pub mod Reading
pub mod Invariant
pub mod Runs
pub mod Samples
use eventrail_ingestion.Prelude.{
  List, Option, String, [], if◌then◌else◌, leb_ℤ, ltb_ℤ, none, pos, some, ℕ, ℤ, ◌==◌, ◌∷◌,
}
use eventrail_ingestion.Errors.{Error, new, nil}
use eventrail_ingestion.Outbox.{OutboxRow}

-- A value of a status's `details`.
pub data Detail : Type 0 where
  detail_text : String → Detail
  detail_int : ℤ → Detail

abbrev pub Details : Type 0
Details = List (String × Detail)

-- `EventMetadata`, a row of `events`. Times of rows are microseconds.
pub record EventMetadata : Type 0 where
  pub event_id : String
  pub event_type : String
  pub source : String
  pub payload : String
  pub created_at : ℕ

-- A row of `event_status_history`; `StatusHistoryEntry` leaves out the id and the event.
pub record HistoryRow : Type 0 where
  pub id : ℕ
  pub event_id : String
  pub status : String
  pub details : Details
  pub created_at : ℕ

-- A row of `delivery_attempts`; `DeliveryAttempt` leaves out the id and the event. The two times
-- come from the worker's clock.
pub record AttemptRow : Type 0 where
  pub id : ℕ
  pub event_id : String
  pub attempt_number : ℤ
  pub outcome : String
  pub response_code : Option ℤ
  pub error : Option String
  pub started_at : ℤ
  pub completed_at : ℤ

-- A row of `dlq_records`.
pub record DlqRow : Type 0 where
  pub event_id : String
  pub original_stream_id : String
  pub attempt_count : ℤ
  pub last_error : Option String
  pub status : String
  pub dead_lettered_at : ℕ
  pub redriven_at : Option ℕ
  pub updated_at : ℕ

-- The tables, with the next ids of the two `BIGSERIAL` columns.
pub record Tables : Type 0 where
  pub events : List EventMetadata
  pub outbox : List OutboxRow
  pub history : List HistoryRow
  pub attempts : List AttemptRow
  pub dlq : List DlqRow
  pub next_history_id : ℕ
  pub next_attempt_id : ℕ

abbrev pub status_open : String
status_open = "OPEN"

abbrev pub status_redriven : String
status_redriven = "REDRIVEN"

pub find_event : String → List EventMetadata → Option EventMetadata
find_event id [] = none
find_event id (r ∷ rs) = if r.event_id == id then some r else find_event id rs

pub find_dlq : String → List DlqRow → Option DlqRow
find_dlq id [] = none
find_dlq id (r ∷ rs) = if r.event_id == id then some r else find_dlq id rs

-- `REFERENCES events(id)`.
pub references_event : List EventMetadata → String → Error
references_event events id = elim (find_event id events) [
  | none ↦ new "violates foreign key constraint"
  | some r ↦ nil
]

-- A positive number that an `INTEGER` column holds.
pub positive_int4 : ℤ → Error
positive_int4 n =
    if leb_ℤ n (pos 0)
    then new "violates check constraint"
    else if ltb_ℤ (pos 2147483647) n
    then new "greater than maximum value for int4"
    else nil

-- The first error of the two.
pub either_error : Error → Error → Error
either_error nil e = e
either_error d e = d
