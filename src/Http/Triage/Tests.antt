-- ===== src/Http/Triage/Tests.antt =====
-- The triage request of a dead letter that has no attempt.
use eventrail_ingestion.Prelude.{[], none, pos, refl, some, trim_space, ◌≡◌}
use eventrail_ingestion.Http.Triage.{
  DecodeData, TriageRequest, latest_attempt_error, latest_error, nonblank, some_or, text_or,
  triage_request,
}
use eventrail_ingestion.Operations.Reading.{DlqDetail}
use eventrail_ingestion.Operations.Samples.{invoice}

abbrev sparse : DlqDetail
sparse = record {
  event = invoice;
  dlq_entry = record {
    event_id = "e1";
    event_type = "webhook";
    source = "billing";
    attempt_count = pos 0;
    last_error = some "  ";
    status = "OPEN";
    dead_lettered_at = 70;
    redriven_at = none;
    original_stream_id = "7-0";
  };
  history = [];
  delivery_attempts = [];
}

abbrev undecodable : DecodeData
undecodable payload = none

sparse_error : TriageRequest.error (triage_request undecodable sparse) ≡ "Delivery failed"
unfolding triage_request latest_error latest_attempt_error nonblank some_or text_or trim_space
sparse_error = refl
