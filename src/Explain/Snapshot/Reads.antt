-- ===== src/Explain/Snapshot/Reads.antt =====
-- Building the snapshot changes nothing in the store.
use eventrail_ingestion.Prelude.{Option, String, if_cases, none, some}
use eventrail_ingestion.Errors.{dlq_not_found, event_not_ready, is_error, sentinel}
use eventrail_ingestion.Explain.Snapshot.{
  ExplainRequest, explain_request_from_store, none_if_missing, or_absent, ready, snapshot,
}
use eventrail_ingestion.Http.Triage.{DecodeData}
use eventrail_ingestion.Operations.Reading.{dlq_detail, event_status}
use eventrail_ingestion.Operations.Reading.Unchanged.{
  Any, Reads, Same, dlq_detail-Reads, event_status-Reads, fail-Reads, pure-Reads, then-Reads,
}
use eventrail_ingestion.Operations.Session.{Database, Result, Session, Tx, err, ok}
use eventrail_ingestion.Operations.Session.Rules.{Ensures, done, stopped}

none_if_missing-Reads :
    {A : Type 0} {P : A → Type 0} (s : Session) (p : Result A × Session)
    → Ensures (λ a s'. P a × Same s s') (λ s'. Same s s') p
    → Ensures (λ o s'. Any o × Same s s') (λ s'. Same s s') (none_if_missing p)
unfolding none_if_missing
none_if_missing-Reads s _ (done h) = done (tt, h.1)
none_if_missing-Reads {A} s _ (stopped {e = e} {s = z} h) =
    if_cases (Ensures {A = Option A} (λ o s'. Any o × Same s s') (λ s'. Same s s'))
      (is_error e dlq_not_found) (ok none, z) (err e, z) (λ _. done (tt, h)) (λ _. stopped h)

or_absent-Reads : {A : Type 0} {P : A → Type 0} (m : Tx A) → Reads P m → Reads Any (or_absent m)
unfolding or_absent
or_absent-Reads {P} m h = record { run = λ s. none_if_missing-Reads {P = P} s (m s) (h.run s) }

ready-Reads : (o : Option ExplainRequest) → Reads Any (ready o)
unfolding ready
ready-Reads none = fail-Reads (sentinel event_not_ready)
ready-Reads (some r) = pure-Reads r tt

-- Building the snapshot reads only.
pub explain_request_from_store-Reads :
    (db : Database) (to_lower : String → String) (decode : DecodeData) (event_id : String)
    → Reads Any (explain_request_from_store db to_lower decode event_id)
unfolding explain_request_from_store
explain_request_from_store-Reads db to_lower decode event_id =
    then-Reads (event_status db event_id) _ (event_status-Reads db event_id) (λ status latest.
      then-Reads (or_absent (dlq_detail db event_id)) _
        (or_absent-Reads (dlq_detail db event_id) (dlq_detail-Reads db event_id))
        (λ detail _. ready-Reads (snapshot to_lower db.format_nano decode status detail)))
