-- ===== src/Explain/Snapshot/Tests.antt =====
-- The snapshot of a dead letter.
use eventrail_ingestion.Prelude.{String, [], false, none, pos, refl, some, true, ℤ, ◌∷◌, ◌≡◌}
use eventrail_ingestion.Delivery.{classify_http_status}
use eventrail_ingestion.Explain.{
  bound_explain_attempts, bound_explain_history, class_name, count_retries, count_status,
  explain_attempt_outcome, explain_history, keep_known, map_explain_status, named_or,
  outcome_of_code, retry_count_from_history, status_history_contains,
}
use eventrail_ingestion.Explain.SafeError.{safe_explain_error}
use eventrail_ingestion.Explain.Snapshot.{
  ExplainRequest, attempt_items, attempt_of, format_optional_time, history_pairs, if_known, is_some,
  redrives, request_of, retry_entries, snapshot, was_redriven,
}
use eventrail_ingestion.Explain.Snapshot.Laws.{IsAccepted, snapshot-IsAccepted}
use eventrail_ingestion.Http.Triage.{DecodeData, destination_from_payload, safe_metadata}
use eventrail_ingestion.Operations.Reading.{DlqDetail, EventStatus, current_status_of}
use eventrail_ingestion.Operations.Samples.{before_redrive, invoice}

abbrev lowered : String → String
lowered s = s

abbrev no_data : DecodeData
no_data payload = none

abbrev printed : ℤ → String
printed t = "time"

abbrev buried_status : EventStatus
buried_status = record {
  event = invoice;
  current_status = "DEAD_LETTERED";
  history = before_redrive.tables.history;
  delivery_attempts =
      record {
        id = 1;
        event_id = "e1";
        attempt_number = pos 3;
        outcome = "FAILED";
        response_code = some (pos 422);
        error = none;
        started_at = pos 60;
        completed_at = pos 61;
      }
      ∷ [];
}

abbrev buried_request : ExplainRequest
buried_request = record {
  event_type = "webhook";
  business_event_type = none;
  source = "billing";
  destination = "Webhook destination";
  current_status = "DEAD_LETTERED";
  status_history = record { status = "DEAD_LETTERED"; occurred_at = some "time" } ∷ [];
  delivery_attempts =
      record {
        attempt_number = 1;
        http_status = some (pos 422);
        outcome = "permanent_failure";
        error = none;
        occurred_at = some "time";
      }
      ∷ [];
  retry_count = pos 0;
  entered_dlq = true;
  redrive_count = 0;
  delivered = false;
}

pub snapshot_runs : snapshot lowered printed no_data buried_status none ≡ some buried_request
unfolding snapshot explain_history history_pairs keep_known map_explain_status if_known request_of
    bound_explain_history bound_explain_attempts retry_count_from_history status_history_contains
    redrives format_optional_time attempt_items count_retries count_status explain_attempt_outcome
    retry_entries was_redriven outcome_of_code attempt_of named_or class_name classify_http_status
    safe_metadata destination_from_payload safe_explain_error
snapshot_runs = refl

buried_recorded :
    status_history_contains (history_pairs printed buried_status.history) "REDRIVEN" ≡ true
    → is_some {A = DlqDetail} none ≡ true
unfolding status_history_contains history_pairs
buried_recorded h = h

buried_latest : buried_status.current_status ≡ current_status_of buried_status.history
unfolding current_status_of
buried_latest = refl

snapshot-IsAccepted_example : IsAccepted buried_request
snapshot-IsAccepted_example =
    snapshot-IsAccepted lowered printed no_data buried_status none buried_request buried_latest
      buried_recorded snapshot_runs
