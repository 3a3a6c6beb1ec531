-- ===== src/Operations/Redrive/Tests.antt =====
-- A redrive, and another one of the same event.
use eventrail_ingestion.Prelude.{refl, ◌≡◌}
use eventrail_ingestion.Errors.{Error, new, wrap}
use eventrail_ingestion.Operations.{find_dlq, find_event, references_event}
use eventrail_ingestion.Operations.Recording.{insert_history, insert_status_history}
use eventrail_ingestion.Operations.Redrive.{
  affected_one, fetch_event, finish_redrive, hand_over, lock_record, mark_record, mark_redriven,
  publish_event, redrive_body, redrive_dlq, require_open, store_redriven, update_dlq,
}
use eventrail_ingestion.Operations.Redrive.Twice.{redrive_dlq_twice}
use eventrail_ingestion.Operations.Samples.{
  accepting, after_redrive, before_redrive, broken_commit, healthy, lost_commit, redriven,
}
use eventrail_ingestion.Operations.Session.{Session, err, ok, transaction, write}

redrive_runs : redrive_dlq healthy accepting "e1" before_redrive ≡ (ok redriven, after_redrive)
unfolding redrive_dlq redrive_body update_dlq mark_redriven lock_record require_open fetch_event
    publish_event hand_over finish_redrive store_redriven mark_record affected_one
    insert_status_history insert_history references_event find_event find_dlq write transaction
redrive_runs = refl

-- The commit fails after the message was handed over.
pub redrive_fails :
    redrive_dlq broken_commit accepting "e1" before_redrive
    ≡ (err (wrap "commit redrive event e1: " (new "connection lost") ""), lost_commit)
unfolding redrive_dlq redrive_body update_dlq mark_redriven lock_record require_open fetch_event
    publish_event hand_over finish_redrive store_redriven mark_record affected_one
    insert_status_history insert_history references_event find_event find_dlq write transaction
redrive_fails = refl

-- Another redrive of the event, after the one that succeeded.
redrive_dlq_twice_example :
    (e : Error) × (s'' : Session) × (redrive_dlq broken_commit accepting "e1" after_redrive
      ≡ (err e, s''))
    × (s''.handed_over ≡ after_redrive.handed_over)
    × (s''.tables ≡ after_redrive.tables)
redrive_dlq_twice_example =
    redrive_dlq_twice healthy broken_commit accepting accepting "e1" before_redrive after_redrive
      redriven refl redrive_runs
