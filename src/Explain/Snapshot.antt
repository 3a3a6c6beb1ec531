-- ===== src/Explain/Snapshot.antt =====
-- internal/httpapi/event_explain.go, explainRequestFromStore: the snapshot of an event, from what the
-- store tells of it.
pub mod Attempts
pub mod Statuses
pub mod Laws
pub mod Reads
mod Tests
use eventrail_ingestion.Prelude.{
  Bool, List, Option, String, [], eqb, eqb_ℤ, false, if◌then◌else◌, length, negsuc, none, pos, some,
  suc, true, ℕ, ℤ, ◌&&◌, ◌*◌, ◌+◌, ◌==◌, ◌||◌, ◌∷◌,
}
use eventrail_ingestion.Errors.{dlq_not_found, event_not_ready, is_error, sentinel}
use eventrail_ingestion.Explain.{
  Attempt, HistoryItem, RetryDetails, bound_explain_attempts, bound_explain_history, count_status,
  explain_attempt_outcome, explain_history, map_explain_status, retry_count_from_history,
  status_history_contains,
}
use eventrail_ingestion.Explain.SafeError.{safe_explain_error}
use eventrail_ingestion.Http.Triage.{DecodeData, destination_from_payload, safe_metadata}
use eventrail_ingestion.Operations.{
  AttemptRow, Detail, Details, HistoryRow, detail_int, detail_text,
}
use eventrail_ingestion.Operations.Reading.{DlqDetail, EventStatus, dlq_detail, event_status}
use eventrail_ingestion.Operations.Session.{
  Database, Result, Session, Tx, err, fail, ok, pure, ◌>>=◌,
}

-- `explainDeliveryAttempt`.
pub record AttemptItem : Type 0 where
  pub attempt_number : ℕ
  pub http_status : Option ℤ
  pub outcome : String
  pub error : Option String
  pub occurred_at : Option String

-- `explainRequest`.
pub record ExplainRequest : Type 0 where
  pub event_type : String
  pub business_event_type : Option String
  pub source : String
  pub destination : String
  pub current_status : String
  pub status_history : List HistoryItem
  pub delivery_attempts : List AttemptItem
  pub retry_count : ℤ
  pub entered_dlq : Bool
  pub redrive_count : ℕ
  pub delivered : Bool

-- `time.Time{}` in nanoseconds since 1970.
abbrev zero_time : ℤ
zero_time = negsuc 62135596799999999999

-- `formatOptionalTime`, of nanoseconds since 1970.
pub format_optional_time : (ℤ → String) → ℤ → Option String
format_optional_time format t = if eqb_ℤ t zero_time then none else some (format t)

-- The statuses of the history with their times.
pub history_pairs : (ℤ → String) → List HistoryRow → List (String × Option String)
history_pairs format [] = []
history_pairs format (r ∷ rs) =
    (r.status, format_optional_time format (pos (r.created_at * 1000))) ∷ history_pairs format rs

attempt_of : AttemptRow → Attempt
attempt_of a = record { outcome = a.outcome; response_code = a.response_code; error = a.error }

-- `explainDeliveryAttemptsFromStore`, from an index on.
pub attempt_items : (String → String) → (ℤ → String) → ℕ → List AttemptRow → List AttemptItem
attempt_items to_lower format index [] = []
attempt_items to_lower format index (a ∷ l) =
    record {
      attempt_number = suc index;
      http_status = a.response_code;
      outcome = explain_attempt_outcome to_lower (attempt_of a);
      error = safe_explain_error to_lower a.error;
      occurred_at = format_optional_time format a.completed_at;
    }
    ∷ attempt_items to_lower format (suc index) l

find_detail : String → Details → Option Detail
find_detail key [] = none
find_detail key ((k, d) ∷ l) = if k == key then some d else find_detail key l

-- A member that is an integer, or is not there; a text does not decode.
int_member : Option Detail → Option (Option ℤ)
int_member none = some none
int_member (some (detail_int n)) = some (some n)
int_member (some (detail_text t)) = none

both_members : Option (Option ℤ) → Option (Option ℤ) → RetryDetails
both_members (some a) (some b) = some (a, b)
both_members _ _ = none

-- `json.Unmarshal(entry.Details, &details)`.
pub retry_details : Details → RetryDetails
retry_details d =
    both_members (int_member (find_detail "retry" d)) (int_member (find_detail "next_retry" d))

pub retry_entries : List HistoryRow → List (String × RetryDetails)
retry_entries [] = []
retry_entries (r ∷ rs) = (r.status, retry_details r.details) ∷ retry_entries rs

abbrev pub is_some : {A : Type 0} → Option A → Bool
is_some none = false
is_some (some a) = true

was_redriven : Option DlqDetail → Bool
was_redriven none = false
was_redriven (some d) = is_some d.dlq_entry.redriven_at

pub redrives : List (String × Option String) → Option DlqDetail → ℕ
redrives pairs detail =
    let count = count_status pairs "REDRIVEN" in
    if eqb count 0 && was_redriven detail then 1 else count

-- The request, once the status is known and there is something to tell.
request_of :
    (String → String)
    → (ℤ → String)
    → DecodeData
    → EventStatus
    → Option DlqDetail
    → String
    → ExplainRequest
request_of to_lower format decode status detail current =
    let pairs = history_pairs format status.history in
    let destination = destination_from_payload decode status.event.payload in
    record {
      event_type = status.event.event_type;
      business_event_type = (safe_metadata decode status.event.payload).0;
      source = status.event.source;
      destination = if destination == "" then "Webhook destination" else destination;
      current_status = current;
      status_history = bound_explain_history (explain_history pairs);
      delivery_attempts =
          bound_explain_attempts (attempt_items to_lower format 0 status.delivery_attempts);
      retry_count = retry_count_from_history (retry_entries status.history);
      entered_dlq = is_some detail || status_history_contains pairs "DEAD_LETTERED";
      redrive_count = redrives pairs detail;
      delivered = current == "DELIVERED";
    }

if_known : Option String → (String → ExplainRequest) → Option ExplainRequest
if_known none f = none
if_known (some current) f = some (f current)

-- The snapshot, or none where the event is not ready: its status has no name, or there is neither a
-- status nor an attempt to tell of. `to_lower` is `strings.ToLower`.
pub snapshot :
    (String → String)
    → (ℤ → String)
    → DecodeData
    → EventStatus
    → Option DlqDetail
    → Option ExplainRequest
snapshot to_lower format decode status detail =
    let history = explain_history (history_pairs format status.history) in
    if eqb (length history) 0 && eqb (length status.delivery_attempts) 0
    then none
    else if_known (map_explain_status status.current_status)
        (request_of to_lower format decode status detail)

-- The record of a dead letter, which need not be there.
none_if_missing : {A : Type 0} → Result A × Session → Result (Option A) × Session
none_if_missing (ok a, s) = (ok (some a), s)
none_if_missing (err e, s) = if is_error e dlq_not_found then (ok none, s) else (err e, s)

or_absent : {A : Type 0} → Tx A → Tx (Option A)
unfolding none_if_missing
or_absent m s = none_if_missing (m s)

ready : Option ExplainRequest → Tx ExplainRequest
ready none = fail (sentinel event_not_ready)
ready (some r) = pure r

-- `explainRequestFromStore`.
pub explain_request_from_store :
    Database → (String → String) → DecodeData → String → Tx ExplainRequest
explain_request_from_store db to_lower decode event_id = do
  status ← event_status db event_id
  detail ← or_absent (dlq_detail db event_id)
  ready (snapshot to_lower db.format_nano decode status detail)
