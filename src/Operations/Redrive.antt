-- ===== src/Operations/Redrive.antt =====
-- `fetchEvent` and `RedriveDLQ`: a dead-lettered event is handed to the stream again, in the
-- transaction that marks its record.
pub mod Laws
pub mod Tests
pub mod Safety
pub mod Twice
use eventrail_ingestion.Prelude.{
  List, String, [], concat, count_if, eqb, if◌then◌else◌, some, ℕ, ◌==◌, ◌∷◌,
}
use eventrail_ingestion.Errors.{
  Error, Sentinel, dlq_not_found, dlq_not_open, event_not_found, is_error, new, nil, no_rows,
  sentinel, wrap,
}
use eventrail_ingestion.Operations.{
  DlqRow, EventMetadata, detail_text, find_dlq, find_event, status_open, status_redriven,
}
use eventrail_ingestion.Operations.Recording.{insert_status_history}
use eventrail_ingestion.Operations.Session.{
  Database, Result, Tx, ask, cast, check, get_tables, modify, on_error, one_row, pure, transaction,
  within, ◌>>=◌, ◌>>◌,
}
use eventrail_ingestion.Worker.{Values, text}

pub not_found_or : Sentinel → String → Error → Error
not_found_or s context e = if is_error e no_rows then sentinel s else wrap context e ""

unfoldable pub fetch_event : Database → String → Tx EventMetadata
fetch_event db event_id =
    on_error (not_found_or event_not_found (concat ("fetch event " ∷ event_id ∷ ": " ∷ [])))
      do ask db; id ← cast db event_id; t ← get_tables; one_row (find_event id t.events)

pub record RedriveResult : Type 0 where
  pub event_id : String
  pub status : String
  pub stream_id : String

-- The values of the message.
pub redrive_values : Database → EventMetadata → Values
redrive_values db e =
    ("event_id", text e.event_id)
    ∷ ("event_type", text e.event_type)
    ∷ ("source", text e.source)
    ∷ ("payload", text e.payload)
    ∷ ("retry", text "0")
    ∷ ("created_at", text (db.format_time e.created_at))
    ∷ ("redrive", text "1")
    ∷ []

-- The stream takes the message and returns its id, or returns an error.
pub hand_over : (Values → Result String) → Values → Tx String
hand_over publish v s = (publish v, record s { handed_over = v ∷ s.handed_over })

-- `SELECT status … FOR UPDATE`.
pub lock_record : Database → String → Tx String
lock_record db event_id =
    on_error
      (not_found_or dlq_not_found (concat ("lock DLQ record for event " ∷ event_id ∷ ": " ∷ [])))
      do
        ask db
        id ← cast db event_id
        t ← get_tables
        row ← one_row (find_dlq id t.dlq)
        pure row.status

pub mark_redriven : ℕ → DlqRow → DlqRow
mark_redriven at r = record r { status = status_redriven; redriven_at = some at; updated_at = at }

-- `UPDATE dlq_records … WHERE event_id = $1`, and the rows that it touches.
unfoldable pub update_dlq : String → (DlqRow → DlqRow) → List DlqRow → List DlqRow
update_dlq id f [] = []
update_dlq id f (r ∷ rs) = (if r.event_id == id then f r else r) ∷ update_dlq id f rs

abbrev pub dlq_rows : String → List DlqRow → ℕ
dlq_rows id = count_if (λ r. r.event_id == id)

affected_one : ℕ → Error
affected_one n =
    if eqb n 1 then nil else new "mark DLQ record redriven for event affected other than 1 row"

mark_record : ℕ → String → Tx (Unit {0})
mark_record at id = do
  t ← get_tables
  modify λ t. record t { dlq = update_dlq id (mark_redriven at) t.dlq }
  check (affected_one (dlq_rows id t.dlq))

store_redriven : Database → String → Tx (Unit {0})
store_redriven db event_id = do
  id ←
      within (concat ("mark DLQ record redriven for event " ∷ event_id ∷ ": " ∷ []))
        (ask db >> cast db event_id)
  mark_record db.now id

pub require_open : String → Error
require_open status = if status == status_open then nil else sentinel dlq_not_open

-- After the publication: the record is marked, and the history gets a line.
pub finish_redrive : Database → String → String → Tx RedriveResult
finish_redrive db event_id stream_id = do
  store_redriven db event_id
  insert_status_history db event_id status_redriven (("stream_id", detail_text stream_id) ∷ [])
  pure (record { event_id = event_id; status = status_redriven; stream_id = stream_id })

publish_event : Database → (Values → Result String) → String → EventMetadata → Tx RedriveResult
publish_event db publish event_id event = do
  stream_id ←
      within (concat ("publish redrive event " ∷ event_id ∷ ": " ∷ []))
        (hand_over publish (redrive_values db event))
  finish_redrive db event_id stream_id

-- The statements between `BeginTx` and `Commit`.
redrive_body : Database → (Values → Result String) → String → Tx RedriveResult
redrive_body db publish event_id = do
  status ← lock_record db event_id
  check (require_open status)
  event ← fetch_event db event_id
  publish_event db publish event_id event

-- `RedriveDLQ`, of a store and a publisher that are there.
pub redrive_dlq : Database → (Values → Result String) → String → Tx RedriveResult
redrive_dlq db publish event_id =
    transaction db "begin redrive transaction: "
      (concat ("commit redrive event " ∷ event_id ∷ ": " ∷ [])) (redrive_body db publish event_id)
