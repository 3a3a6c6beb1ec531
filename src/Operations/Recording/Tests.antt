-- ===== src/Operations/Recording/Tests.antt =====
-- Recording a dead letter.
use eventrail_ingestion.Prelude.{refl, trim_space, ◌≡◌}
use eventrail_ingestion.Errors.{error_text}
use eventrail_ingestion.Go.Words.{add_int}
use eventrail_ingestion.Operations.{either_error, find_event, positive_int4, references_event}
use eventrail_ingestion.Operations.Recording.{
  dead_letter_row, error_string, insert_attempt, insert_delivery_attempt, insert_history,
  insert_status_history, numbered_row, put_dead_letter, record_dead_lettered, retry_of,
  store_dead_letter, stream_id_or, upsert_dlq,
}
use eventrail_ingestion.Operations.Samples.{buried_tables, empty, healthy, rejected}
use eventrail_ingestion.Operations.Session.{in_transaction, ok, transaction, write}

-- Recording the dead letter: begin, three statements, commit.
buried :
    record_dead_lettered healthy rejected empty
    ≡ (ok tt, record empty { tables = buried_tables; statements = 5 })
unfolding record_dead_lettered insert_delivery_attempt store_dead_letter insert_status_history
    insert_attempt put_dead_letter insert_history dead_letter_row numbered_row either_error
    positive_int4 references_event find_event write in_transaction transaction upsert_dlq
    stream_id_or error_string error_text trim_space retry_of add_int
buried = refl
