-- ===== src/Http/Triage.antt =====
-- internal/httpapi/operational_handlers.go: the request for a triage of a dead letter. The JSON coding
-- of a payload is a parameter: the members of its `data`, or none where it does not decode.
pub mod Laws
mod Tests
use eventrail_ingestion.Prelude.{
  List, Option, String, [], if◌then◌else◌, ltb_ℤ, none, pos, some, trim_space, ℤ, ◌==◌, ◌∷◌,
}
use eventrail_ingestion.Operations.{AttemptRow}
use eventrail_ingestion.Operations.Reading.{DlqDetail}
use eventrail_ingestion.Worker.{Value, Values, lookup, text}

pub record TriageRequest : Type 0 where
  pub event_type : String
  pub business_event_type : Option String
  pub source : String
  pub destination : String
  pub http_status : Option ℤ
  pub error : String
  pub attempt_count : ℤ
  pub schema_version : Option String

abbrev pub DecodeData : Type 0
DecodeData = String → Option Values

-- `stringValuePointer`.
string_value : Option Value → Option String
string_value (some (text raw)) =
    let clean = trim_space raw in if clean == "" then none else some clean
string_value _ = none

metadata_of : Option Values → Option String × Option String
metadata_of none = (none, none)
metadata_of (some members) = (
  string_value (lookup "business_event_type" members),
  string_value (lookup "schema_version" members),
)

-- `safeMetadataFromEventPayload`.
unfoldable pub safe_metadata : DecodeData → String → Option String × Option String
unfolding metadata_of string_value
safe_metadata decode payload = metadata_of (decode payload)

destination_of : Option String → String
destination_of none = ""
destination_of (some t) = if t == "invoice.paid" then "Receipt Service" else ""

-- `destinationFromEventPayload`.
unfoldable pub destination_from_payload : DecodeData → String → String
unfolding destination_of
destination_from_payload decode payload = destination_of (safe_metadata decode payload).0

some_or : {A : Type 0} → Option A → Option A → Option A
some_or none o = o
some_or (some a) o = some a

-- `latestResponseCode`: the newest code; attempts are in the order of the store, oldest first.
pub latest_response_code : List AttemptRow → Option ℤ
latest_response_code [] = none
latest_response_code (a ∷ l) = some_or (latest_response_code l) a.response_code

nonblank : Option String → Option String
nonblank none = none
nonblank (some s) = let clean = trim_space s in if clean == "" then none else some clean

latest_attempt_error : List AttemptRow → Option String
latest_attempt_error [] = none
latest_attempt_error (a ∷ l) = some_or (latest_attempt_error l) (nonblank a.error)

text_or : String → Option String → String
text_or s none = s
text_or s (some t) = t

-- `latestError`.
pub latest_error : DlqDetail → String
latest_error detail =
    text_or "Delivery failed" (
      some_or (latest_attempt_error detail.delivery_attempts)
        (nonblank detail.dlq_entry.last_error))

-- `triageRequestFromDLQDetail`.
pub triage_request : DecodeData → DlqDetail → TriageRequest
triage_request decode detail =
    let destination = destination_from_payload decode detail.event.payload in
    let metadata = safe_metadata decode detail.event.payload in
    record {
      event_type = detail.dlq_entry.event_type;
      business_event_type = metadata.0;
      source = detail.dlq_entry.source;
      destination = if destination == "" then "Webhook destination" else destination;
      http_status = latest_response_code detail.delivery_attempts;
      error = latest_error detail;
      attempt_count =
          if ltb_ℤ detail.dlq_entry.attempt_count (pos 1)
          then pos 1
          else detail.dlq_entry.attempt_count;
      schema_version = metadata.1;
    }
