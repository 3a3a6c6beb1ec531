-- ===== src/Http/Dlq.antt =====
-- internal/httpapi/operational_handlers.go: the handlers of event statuses, dead letters and metrics,
-- over the operations of the store.
pub mod Laws
pub mod Triaged
mod Tests
use eventrail_ingestion.Prelude.{
  Bool, List, Option, String, [], if◌then◌else◌, ltb_ℤ, map, none, not, pos, some, trim_space, ℕ, ℤ,
  ◌==◌, ◌||◌, ◌∷◌,
}
use eventrail_ingestion.Errors.{
  Error, Sentinel, dlq_not_found, dlq_not_open, event_not_found, is_error,
}
use eventrail_ingestion.Go.Decimal.{atoi}
use eventrail_ingestion.Http.{Reply, Request, bare, error_reply, json, not_allowed, require_method}
use eventrail_ingestion.Http.Paths.{
  split_slash, trim_prefix, trim_right_slash, trim_slash, trim_suffix,
}
use eventrail_ingestion.Http.Triage.{DecodeData, TriageRequest, triage_request}
use eventrail_ingestion.Operations.{AttemptRow, Details, HistoryRow, status_open, status_redriven}
use eventrail_ingestion.Operations.Reading.{
  DlqDetail, DlqRecord, EventStatus, MetricsSummary, dlq_detail, event_status, list_dlq,
  metrics_summary,
}
use eventrail_ingestion.Operations.Redrive.{RedriveResult, redrive_dlq}
use eventrail_ingestion.Operations.Session.{Database, Result, Session, err, ok}
use eventrail_ingestion.Worker.{Values}

pub record StatusHistoryResponse : Type 0 where
  pub status : String
  pub details : Details
  pub created_at : ℕ

pub record DeliveryAttemptResponse : Type 0 where
  pub attempt_number : ℤ
  pub outcome : String
  pub response_code : Option ℤ
  pub error : Option String
  pub started_at : ℤ
  pub completed_at : ℤ

pub record EventStatusResponse : Type 0 where
  pub event_id : String
  pub event_type : String
  pub source : String
  pub current_status : String
  pub history : List StatusHistoryResponse
  pub delivery_attempts : List DeliveryAttemptResponse

pub record DlqRecordResponse : Type 0 where
  pub event_id : String
  pub event_type : String
  pub source : String
  pub attempt_count : ℤ
  pub last_error : Option String
  pub status : String
  pub dead_lettered_at : ℕ
  pub redriven_at : Option ℕ

pub record DlqDetailResponse : Type 0 where
  pub dlq_entry : DlqRecordResponse
  pub history : List StatusHistoryResponse
  pub delivery_attempts : List DeliveryAttemptResponse

pub status_history_response : List HistoryRow → List StatusHistoryResponse
status_history_response [] = []
status_history_response (r ∷ rs) =
    record { status = r.status; details = r.details; created_at = r.created_at }
    ∷ status_history_response rs

pub delivery_attempt_response : List AttemptRow → List DeliveryAttemptResponse
delivery_attempt_response [] = []
delivery_attempt_response (a ∷ l) =
    record {
      attempt_number = a.attempt_number;
      outcome = a.outcome;
      response_code = a.response_code;
      error = a.error;
      started_at = a.started_at;
      completed_at = a.completed_at;
    }
    ∷ delivery_attempt_response l

pub event_status_response : EventStatus → EventStatusResponse
event_status_response s = record {
  event_id = s.event.event_id;
  event_type = s.event.event_type;
  source = s.event.source;
  current_status = s.current_status;
  history = status_history_response s.history;
  delivery_attempts = delivery_attempt_response s.delivery_attempts;
}

pub dlq_record_response : DlqRecord → DlqRecordResponse
dlq_record_response r = record {
  event_id = r.event_id;
  event_type = r.event_type;
  source = r.source;
  attempt_count = r.attempt_count;
  last_error = r.last_error;
  status = r.status;
  dead_lettered_at = r.dead_lettered_at;
  redriven_at = r.redriven_at;
}

-- A reply that a result decides, with the session after the call.
answer : {A B : Type 0} → (A → Reply B) → (Error → Reply B) → Result A × Session → Reply B × Session
answer good bad (ok a, s) = (good a, s)
answer good bad (err e, s) = (bad e, s)

-- 404 for the error that says so.
missing_or : {A : Type 0} → Sentinel → String → Error → Reply A
missing_or missing message e = if is_error e missing then bare 404 else error_reply 500 message

status_event_id : String → String
status_event_id path =
    trim_slash (trim_suffix "/status" (trim_prefix "/events/" (trim_right_slash path)))

-- `NewEventStatusHandler`.
pub event_status_handler : Database → Request → Session → Reply EventStatusResponse × Session
event_status_handler db r s =
    let event_id = status_event_id r.path in
    require_method "GET" r (not_allowed "GET", s)
      (if event_id == ""
        then (error_reply 400 "event id required", s)
        else answer (λ status. json 200 (event_status_response status))
            (missing_or event_not_found "failed to fetch event status")
            (event_status db event_id s))

-- `NewMetricsSummaryHandler`.
pub metrics_summary_handler : Database → Request → Session → Reply MetricsSummary × Session
metrics_summary_handler db r s =
    require_method "GET" r (not_allowed "GET", s)
      (answer (λ summary. json 200 summary) (λ e. error_reply 500 "failed to fetch metrics summary")
        (metrics_summary db s))

-- The status and the limit of a list, or the text of the refusal.
pub data ListQuery : Type 0 where
  asked_for : String → ℤ → ListQuery
  bad_query : String → ListQuery

with_limit : String → Option ℤ → ListQuery
with_limit status none = bad_query "limit must be between 1 and 200"
with_limit status (some limit) =
    if ltb_ℤ limit (pos 1) || ltb_ℤ (pos 200) limit
    then bad_query "limit must be between 1 and 200"
    else asked_for status limit

known_status : String → Bool
known_status status = status == status_open || status == status_redriven

pub list_query : Request → ListQuery
list_query r =
    let given = trim_space (r.query "status") in
    let status = if given == "" then status_open else given in
    let raw_limit = trim_space (r.query "limit") in
    if not (known_status status)
    then bad_query "invalid DLQ status"
    else if raw_limit == ""
    then asked_for status (pos 50)
    else with_limit status (atoi raw_limit)

list_asked :
    Database
    → (String → String → Bool)
    → ListQuery
    → Session
    → Reply (List DlqRecordResponse) × Session
list_asked db uuid_leb (asked_for status limit) s =
    answer (λ l. json 200 (map dlq_record_response l))
      (λ e. error_reply 500 "failed to list DLQ records") (list_dlq db uuid_leb status limit s)
list_asked db uuid_leb (bad_query message) s = (error_reply 400 message, s)

-- `handleDLQList`.
pub handle_dlq_list :
    Database
    → (String → String → Bool)
    → Request
    → Session
    → Reply (List DlqRecordResponse) × Session
handle_dlq_list db uuid_leb r s =
    require_method "GET" r (not_allowed "GET", s) (list_asked db uuid_leb (list_query r) s)

dlq_detail_response : DlqDetail → DlqDetailResponse
dlq_detail_response d = record {
  dlq_entry = dlq_record_response d.dlq_entry;
  history = status_history_response d.history;
  delivery_attempts = delivery_attempt_response d.delivery_attempts;
}

-- `handleDLQDetail`.
pub handle_dlq_detail : Database → String → Request → Session → Reply DlqDetailResponse × Session
handle_dlq_detail db event_id r s =
    require_method "GET" r (not_allowed "GET", s)
      (answer (λ detail. json 200 (dlq_detail_response detail))
        (missing_or dlq_not_found "failed to fetch DLQ record") (dlq_detail db event_id s))

redrive_refused : Error → Reply RedriveResult
redrive_refused e =
    if is_error e dlq_not_found
    then bare 404
    else if is_error e dlq_not_open
    then error_reply 409 "DLQ record is not open"
    else error_reply 503 "failed to redrive DLQ record"

-- `handleDLQRedrive`.
pub handle_dlq_redrive :
    Database → (Values → Result String) → String → Request → Session → Reply RedriveResult × Session
handle_dlq_redrive db publish event_id r s =
    require_method "POST" r (not_allowed "POST", s)
      (answer (λ result. json 202 result) redrive_refused (redrive_dlq db publish event_id s))

-- What the triage client returns: the response of the AI service, or an error.
triage_reply : {A : Type 0} → Result A → Reply A
triage_reply (ok a) = json 200 a
triage_reply (err e) = error_reply 503 "TRIAGE_UNAVAILABLE"

triage_with :
    {A : Type 0}
    → Database
    → DecodeData
    → Option (TriageRequest → Result A)
    → String
    → Session
    → Reply A × Session
triage_with db decode none event_id s = (error_reply 503 "AI triage service is not configured", s)
triage_with db decode (some client) event_id s =
    answer (λ detail. triage_reply (client (triage_request decode detail)))
      (missing_or dlq_not_found "failed to fetch DLQ record") (dlq_detail db event_id s)

-- `handleDLQTriage`; a client that is nil is `none`.
pub handle_dlq_triage :
    {A : Type 0}
    → Database
    → DecodeData
    → Option (TriageRequest → Result A)
    → String
    → Request
    → Session
    → Reply A × Session
handle_dlq_triage db decode client event_id r s =
    require_method "POST" r (not_allowed "POST", s) (triage_with db decode client event_id s)

-- Where `NewDLQHandler` sends a path.
pub data Route : Type 0 where
  list_route unknown_route : Route
  detail_route redrive_route triage_route : String → Route

action_route : String → String → Route
action_route event_id action =
    if action == "redrive"
    then redrive_route event_id
    else if action == "triage"
    then triage_route event_id
    else unknown_route

route_of_parts : List String → Route
route_of_parts (id ∷ []) = detail_route id
route_of_parts (id ∷ action ∷ []) = action_route id action
route_of_parts _ = unknown_route

pub dlq_route : String → Route
dlq_route path =
    let rest = trim_slash (trim_prefix "/dlq" path) in
    if rest == "" then list_route else route_of_parts (split_slash rest)

-- The reply of one of the routes, or 404.
pub data DlqReply (A : Type 0) : Type 0 where
  listed : Reply (List DlqRecordResponse) → DlqReply A
  detailed : Reply DlqDetailResponse → DlqReply A
  redriven : Reply RedriveResult → DlqReply A
  triaged : Reply A → DlqReply A
  no_route : DlqReply A

-- The store's operations, the stream and the AI service behind the handler.
pub record Backend (A : Type 0) : Type 0 where
  pub database : Database
  pub uuid_leb : String → String → Bool
  pub publish : Values → Result String
  pub decode : DecodeData
  pub triage_client : Option (TriageRequest → Result A)

tagged : {A B : Type 0} → (A → B) → A × Session → B × Session
tagged f (a, s) = (f a, s)

dispatch : {A : Type 0} → Backend A → Request → Route → Session → DlqReply A × Session
dispatch b r list_route s = tagged listed (handle_dlq_list b.database b.uuid_leb r s)
dispatch b r (detail_route id) s = tagged detailed (handle_dlq_detail b.database id r s)
dispatch b r (redrive_route id) s = tagged redriven (handle_dlq_redrive b.database b.publish id r s)
dispatch b r (triage_route id) s =
    tagged triaged (handle_dlq_triage b.database b.decode b.triage_client id r s)
dispatch b r unknown_route s = (no_route, s)

-- `NewDLQHandler`.
pub dlq_handler : {A : Type 0} → Backend A → Request → Session → DlqReply A × Session
dlq_handler b r s = dispatch b r (dlq_route r.path) s
