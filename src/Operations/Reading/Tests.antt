-- ===== src/Operations/Reading/Tests.antt =====
-- Reading the store with one dead letter.
use eventrail_ingestion.Prelude.{none, pos, some}
use eventrail_ingestion.Operations.Reading.{DlqRecord}

abbrev listed : DlqRecord
listed = record {
  event_id = "e1";
  event_type = "webhook";
  source = "billing";
  attempt_count = pos 3;
  last_error = some "rejected";
  status = "OPEN";
  dead_lettered_at = 70;
  redriven_at = none;
  original_stream_id = "7-0";
}
