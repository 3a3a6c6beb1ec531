-- ===== src/Operations/Reading.antt =====
-- The reading operations: `EventStatus`, `DLQDetail`, `ListDLQ` and `MetricsSummary`.
pub mod Laws
pub mod Unchanged
mod Tests
use eventrail_ingestion.Prelude.{
  Bool, List, Option, String, [], any, concat, count_if, eqb, eqb_ℤ, false, find, if◌then◌else◌,
  keep_if, last?, leb, length, ltb, ltb_ℤ, none, not, order_by, pos, pos_part, some, take, true, ℕ,
  ℤ, ◌&&◌, ◌==◌, ◌||◌, ◌∷◌,
}
use eventrail_ingestion.Errors.{Error, dlq_not_found, is_error, new, nil, no_rows, sentinel}
use eventrail_ingestion.Operations.{
  AttemptRow, DlqRow, EventMetadata, HistoryRow, Tables, find_event, status_open, status_redriven,
}
use eventrail_ingestion.Operations.Redrive.{fetch_event}
use eventrail_ingestion.Operations.Session.{
  Database, Tx, ask, cast, check, get_tables, on_error, one_row, pure, within, ◌>>=◌, ◌>>◌,
}
use eventrail_ingestion.Outbox.{OutboxRow, pending, published}

-- `fetchStatusHistory` reads the rows of the event `ORDER BY created_at ASC, id ASC`.
pub recorded_before : HistoryRow → HistoryRow → Bool
recorded_before a b =
    ltb a.created_at b.created_at || (eqb a.created_at b.created_at && leb a.id b.id)

pub history_of : String → List HistoryRow → List HistoryRow
history_of id rows = order_by recorded_before (keep_if (λ r. r.event_id == id) rows)

-- `fetchDeliveryAttempts` reads the rows of the event `ORDER BY started_at ASC, id ASC`.
pub started_before : AttemptRow → AttemptRow → Bool
started_before a b =
    ltb_ℤ a.started_at b.started_at || (eqb_ℤ a.started_at b.started_at && leb a.id b.id)

pub attempts_of : String → List AttemptRow → List AttemptRow
attempts_of id rows = order_by started_before (keep_if (λ r. r.event_id == id) rows)

-- A query of several rows: it may fail, and so may the reading of its rows.
pub query_rows : {A : Type 0} → Database → String → String → String → (String → Tables → A) → Tx A
query_rows db event_id fetching reading rows = do
  id ← within (concat (fetching ∷ event_id ∷ ": " ∷ [])) do ask db; cast db event_id
  within (concat (reading ∷ event_id ∷ ": " ∷ [])) (ask db)
  t ← get_tables
  pure (rows id t)

pub fetch_status_history : Database → String → Tx (List HistoryRow)
fetch_status_history db event_id =
    query_rows db event_id "fetch status history for event " "read status history for event "
      (λ id t. history_of id t.history)

pub fetch_delivery_attempts : Database → String → Tx (List AttemptRow)
fetch_delivery_attempts db event_id =
    query_rows db event_id "fetch delivery attempts for event " "read delivery attempts for event "
      (λ id t. attempts_of id t.attempts)

pub record EventStatus : Type 0 where
  pub event : EventMetadata
  pub current_status : String
  pub history : List HistoryRow
  pub delivery_attempts : List AttemptRow

last_status : Option HistoryRow → String
last_status none = ""
last_status (some r) = r.status

unfoldable pub current_status_of : List HistoryRow → String
unfolding last_status
current_status_of history = last_status (last? history)

pub event_status : Database → String → Tx EventStatus
event_status db event_id = do
  event ← fetch_event db event_id
  history ← fetch_status_history db event_id
  attempts ← fetch_delivery_attempts db event_id
  pure (record {
    event = event;
    current_status = current_status_of history;
    history = history;
    delivery_attempts = attempts;
  })

-- `DLQRecord`: the row of `dlq_records` joined with its event.
pub record DlqRecord : Type 0 where
  pub event_id : String
  pub event_type : String
  pub source : String
  pub attempt_count : ℤ
  pub last_error : Option String
  pub status : String
  pub dead_lettered_at : ℕ
  pub redriven_at : Option ℕ
  pub original_stream_id : String

dlq_record : DlqRow → EventMetadata → DlqRecord
dlq_record d e = record {
  event_id = d.event_id;
  event_type = e.event_type;
  source = e.source;
  attempt_count = d.attempt_count;
  last_error = d.last_error;
  status = d.status;
  dead_lettered_at = d.dead_lettered_at;
  redriven_at = d.redriven_at;
  original_stream_id = d.original_stream_id;
}

join_one : Option EventMetadata → DlqRow → List DlqRecord → List DlqRecord
join_one none d rest = rest
join_one (some e) d rest = dlq_record d e ∷ rest

-- `FROM dlq_records d JOIN events e ON e.id = d.event_id`.
pub join_events : List EventMetadata → List DlqRow → List DlqRecord
join_events events [] = []
join_events events (d ∷ ds) = join_one (find_event d.event_id events) d (join_events events ds)

pub record DlqDetail : Type 0 where
  pub event : EventMetadata
  pub dlq_entry : DlqRecord
  pub history : List HistoryRow
  pub delivery_attempts : List AttemptRow

pub not_found : Error → Error
not_found e = if is_error e no_rows then sentinel dlq_not_found else e

pub fetch_dlq_record : Database → String → Tx DlqRecord
fetch_dlq_record db event_id = on_error not_found do
  ask db
  id ← cast db event_id
  t ← get_tables
  one_row (find (λ r. r.event_id == id) (join_events t.events t.dlq))

pub dlq_detail : Database → String → Tx DlqDetail
dlq_detail db event_id = do
  entry ← fetch_dlq_record db event_id
  event ← fetch_event db event_id
  history ← fetch_status_history db event_id
  attempts ← fetch_delivery_attempts db event_id
  pure
      (record { event = event; dlq_entry = entry; history = history; delivery_attempts = attempts })

-- `ORDER BY d.dead_lettered_at DESC, d.event_id DESC`; `uuid_leb` is PostgreSQL's order on `uuid`.
pub listed_before : (String → String → Bool) → DlqRecord → DlqRecord → Bool
listed_before uuid_leb a b =
    ltb b.dead_lettered_at a.dead_lettered_at
    || (eqb a.dead_lettered_at b.dead_lettered_at && uuid_leb b.event_id a.event_id)

pub matching : (String → String → Bool) → String → Tables → List DlqRecord
matching uuid_leb status t =
    order_by (listed_before uuid_leb)
      (keep_if (λ r. r.status == status) (join_events t.events t.dlq))

unfoldable pub validate_list : String → ℤ → Error
validate_list status limit =
    if not (status == status_open) && not (status == status_redriven)
    then new "unsupported DLQ status"
    else if ltb_ℤ limit (pos 1) || ltb_ℤ (pos 200) limit
    then new "DLQ limit must be between 1 and 200"
    else nil

pub list_dlq : Database → (String → String → Bool) → String → ℤ → Tx (List DlqRecord)
list_dlq db uuid_leb status limit = do
  check (validate_list status limit)
  within "list DLQ records: " (ask db)
  within "read DLQ records: " (ask db)
  t ← get_tables
  pure (take (pos_part limit) (matching uuid_leb status t))

pub record MetricsSummary : Type 0 where
  pub total_events : ℕ
  pub pending_publication : ℕ
  pub delivered : ℕ
  pub retrying : ℕ
  pub open_dlq : ℕ
  pub redriven : ℕ

-- `DISTINCT ON (event_id) … ORDER BY event_id, created_at DESC, id DESC` keeps of each event the row
-- that no other row of the event follows.
follows : HistoryRow → HistoryRow → Bool
follows r s = s.event_id == r.event_id && not (recorded_before s r)

pub is_latest : List HistoryRow → HistoryRow → Bool
is_latest rows r = not (any (follows r) rows)

pub latest_with : List HistoryRow → String → ℕ
latest_with rows status = count_if (λ r. r.status == status && is_latest rows r) rows

is_pending : OutboxRow → Bool
is_pending r = elim r.status [ pending ↦ true | published ↦ false ]

pub summarise : Tables → MetricsSummary
summarise t = record {
  total_events = length t.events;
  pending_publication = count_if is_pending t.outbox;
  delivered = latest_with t.history "DELIVERED";
  retrying = latest_with t.history "RETRYING";
  open_dlq = count_if (λ r. r.status == status_open) t.dlq;
  redriven = count_if (λ r. r.status == status_redriven) t.dlq;
}

pub metrics_summary : Database → Tx MetricsSummary
metrics_summary db = do within "read metrics summary: " (ask db); t ← get_tables; pure (summarise t)
