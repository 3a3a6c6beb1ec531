-- ===== src/Operations/Recording/Laws.antt =====
-- The four `Record…` operations keep the invariant of the tables, hand nothing to the stream, and
-- change nothing when they return an error.
use eventrail_ingestion.Prelude.{String, [], concat, inl, refl, some, subst, sym, ℕ, ◌∙◌, ◌∷◌, ◌≡◌}
use eventrail_ingestion.Errors.{Error, failure, new, nil, sentinel, wrap}
use eventrail_ingestion.Operations.{Details, Tables, either_error, references_event}
use eventrail_ingestion.Operations.Invariant.{
  IsDlqRow, IsValid, upsert_dlq-All, upsert_dlq-IsDistinct,
}
use eventrail_ingestion.Operations.Recording.{
  dead_letter_row, insert_attempt, insert_delivery_attempt, insert_history, insert_status_history,
  numbered_row, put_dead_letter, record_dead_lettered, record_delivered, record_processing,
  record_retrying, store_dead_letter,
}
use eventrail_ingestion.Operations.Session.{
  Database, Result, Session, Tx, in_transaction, within, write, ◌>>◌,
}
use eventrail_ingestion.Operations.Session.Rules.{
  Ensures, asked, checking-Ensures, in_transaction-Ensures, on_error-Ensures, then-Ensures, weaken,
  write-Ensures,
}
use eventrail_ingestion.Worker.{
  DeadLetterRecord, DeliveryAttemptRecord, ProcessingRecord, RetryingRecord,
}

-- What a step of the operations keeps.
abbrev Keeps : Session → Unit {0} → Session → Type 0
Keeps s _ s' = IsValid s'.tables × (s'.handed_over ≡ s.handed_over)

abbrev Quiet : Session → Session → Type 0
Quiet s s' = s'.handed_over ≡ s.handed_over

insert_history-IsValid :
    (at : ℕ) (id status : String) (details : Details) (t : Tables)
    → references_event t.events id ≡ nil
    → IsValid t
    → IsValid (insert_history at id status details t)
unfolding insert_history
insert_history-IsValid at id status details t known v = record {
  history_refs = (known, v.history_refs);
  attempt_refs = v.attempt_refs;
  dlq_rows = v.dlq_rows;
  dlq_distinct = v.dlq_distinct;
}

both_nil : (d e : Error) → either_error d e ≡ nil → (d ≡ nil) × (e ≡ nil)
unfolding either_error
both_nil nil e h = (refl, h)
both_nil (new m) e h = cc
both_nil (sentinel x) e h = cc
both_nil (wrap b d a) e h = cc
both_nil (failure k c d) e h = cc

-- A step that writes valid tables.
write-Keeps :
    (context : String) (db : Database) (event_id : String) (constraint : String → Tables → Error)
    (change : String → Tables → Tables) (s : Session)
    → ((u : String) (t : Tables) → constraint u t ≡ nil → IsValid t → IsValid (change u t))
    → IsValid s.tables
    → Ensures (Keeps s) (Quiet s) (within context (write db event_id constraint change) s)
write-Keeps context db event_id constraint change s keep v =
    on_error-Ensures (write db event_id constraint change) (λ e. wrap context e "") s
      (weaken (write-Ensures db event_id constraint change s)
        (λ _ s' w. (subst IsValid (sym w.3) (keep w.0 s.tables w.2 v), w.4)) (λ s' q. q))

-- The line that `InsertStatusHistory` writes, for an event that is there.
pub insert_status_history-Ensures :
    (db : Database) (event_id status : String) (details : Details) (s : Session)
    → Ensures
        (λ _ s'.
          (u : String) × (db.uuid event_id ≡ some u)
          × (references_event s.tables.events u ≡ nil)
          × (s'.tables ≡ insert_history db.now u status details s.tables)
          × (s'.handed_over ≡ s.handed_over))
        (Quiet s)
        (insert_status_history db event_id status details s)
unfolding insert_status_history
insert_status_history-Ensures db event_id status details s =
    let writing : Tx (Unit {0}) =
      write db event_id (λ id t. references_event t.events id)
        (λ id. insert_history db.now id status details) in
    let context : String =
      concat ("insert status " ∷ status ∷ " for event " ∷ event_id ∷ ": " ∷ []) in
    checking-Ensures "marshal status details: " (db.marshal_error details) (within context writing)
      s refl
      (λ _.
        on_error-Ensures writing (λ e. wrap context e "") s
          (write-Ensures db event_id (λ id t. references_event t.events id)
            (λ id. insert_history db.now id status details) s))

insert_status_history-Keeps :
    (db : Database) (event_id status : String) (details : Details) (s : Session)
    → IsValid s.tables
    → Ensures (Keeps s) (Quiet s) (insert_status_history db event_id status details s)
insert_status_history-Keeps db event_id status details s v =
    weaken (insert_status_history-Ensures db event_id status details s)
      (λ _ s' w. (
        subst IsValid (sym w.3) (insert_history-IsValid db.now w.0 status details s.tables w.2 v),
        w.4,
      ))
      (λ s' q. q)

insert_delivery_attempt-Keeps :
    (db : Database) (r : DeliveryAttemptRecord) (outcome : String) (s : Session)
    → IsValid s.tables
    → Ensures (Keeps s) (Quiet s) (insert_delivery_attempt db r outcome s)
unfolding insert_delivery_attempt numbered_row insert_attempt
insert_delivery_attempt-Keeps db r outcome s v =
    write-Keeps (concat ("insert delivery attempt for event " ∷ r.event_id ∷ ": " ∷ [])) db
      r.event_id (numbered_row r.attempt_number) (λ id. insert_attempt id outcome r) s
      (λ u t good w.
        let (positive, known) = both_nil _ _ good in
        record {
          history_refs = w.history_refs;
          attempt_refs = ((known, positive), w.attempt_refs);
          dlq_rows = w.dlq_rows;
          dlq_distinct = w.dlq_distinct;
        })
      v

store_dead_letter-Keeps :
    (db : Database) (r : DeadLetterRecord) (s : Session)
    → IsValid s.tables
    → Ensures (Keeps s) (Quiet s) (store_dead_letter db r s)
unfolding store_dead_letter numbered_row put_dead_letter dead_letter_row
store_dead_letter-Keeps db r s v =
    write-Keeps (concat ("upsert DLQ record for event " ∷ r.attempt.event_id ∷ ": " ∷ [])) db
      r.attempt.event_id (numbered_row r.attempt.attempt_number) (put_dead_letter db.now r) s
      (λ u t good w.
        let (positive, known) = both_nil _ _ good in
        record {
          history_refs = w.history_refs;
          attempt_refs = w.attempt_refs;
          dlq_rows =
              upsert_dlq-All (IsDlqRow t.events) _ t.dlq (inl (refl, refl), known, positive)
                w.dlq_rows;
          dlq_distinct = upsert_dlq-IsDistinct _ t.dlq w.dlq_distinct;
        })
      v

-- One step after another.
andthen-Keeps :
    (m k : Tx (Unit {0})) (s : Session)
    → Ensures (Keeps s) (Quiet s) (m s)
    → ((s' : Session) → IsValid s'.tables → Ensures (Keeps s') (Quiet s') (k s'))
    → Ensures (Keeps s) (Quiet s) ((m >> k) s)
andthen-Keeps m k s h next =
    then-Ensures m (λ _. k) s h
      (λ _ s' q. weaken (next s' q.0) (λ _ s'' q'. (q'.0, q'.1 ∙ q.1)) (λ s'' e. e ∙ q.1))

abbrev Recorded : Session → Result (Unit {0}) × Session → Type 0
Recorded s =
    Ensures (λ _ s'. IsValid s'.tables × (s'.handed_over ≡ s.handed_over))
      (λ s'. (s'.handed_over ≡ s.handed_over) × (s'.tables ≡ s.tables))

recorded :
    (db : Database) (m : Tx (Unit {0})) (s : Session)
    → Ensures (Keeps (asked s)) (Quiet (asked s)) (m (asked s))
    → Recorded s (in_transaction db m s)
recorded db m s h = in_transaction-Ensures (λ _ t. IsValid t) db m s h

pub record_processing-Recorded :
    (db : Database) (r : ProcessingRecord) (s : Session)
    → IsValid s.tables
    → Recorded s (record_processing db r s)
unfolding record_processing
record_processing-Recorded db r s v =
    recorded db (insert_status_history db r.event_id "PROCESSING" _) s
      (insert_status_history-Keeps db r.event_id "PROCESSING" _ (asked s) v)

pub record_delivered-Recorded :
    (db : Database) (r : DeliveryAttemptRecord) (s : Session)
    → IsValid s.tables
    → Recorded s (record_delivered db r s)
unfolding record_delivered
record_delivered-Recorded db r s v = recorded db _ s (
    andthen-Keeps (insert_delivery_attempt db r "SUCCESS")
      (insert_status_history db r.event_id "DELIVERED" _) (asked s)
      (insert_delivery_attempt-Keeps db r "SUCCESS" (asked s) v)
      (λ s' v'. insert_status_history-Keeps db r.event_id "DELIVERED" _ s' v'))

pub record_retrying-Recorded :
    (db : Database) (r : RetryingRecord) (s : Session)
    → IsValid s.tables
    → Recorded s (record_retrying db r s)
unfolding record_retrying
record_retrying-Recorded db r s v = recorded db _ s (
    andthen-Keeps (insert_delivery_attempt db r.attempt "FAILED")
      (insert_status_history db r.attempt.event_id "RETRYING" _) (asked s)
      (insert_delivery_attempt-Keeps db r.attempt "FAILED" (asked s) v)
      (λ s' v'. insert_status_history-Keeps db r.attempt.event_id "RETRYING" _ s' v'))

pub record_dead_lettered-Recorded :
    (db : Database) (r : DeadLetterRecord) (s : Session)
    → IsValid s.tables
    → Recorded s (record_dead_lettered db r s)
unfolding record_dead_lettered
record_dead_lettered-Recorded db r s v = recorded db _ s (
    andthen-Keeps (insert_delivery_attempt db r.attempt "FAILED")
      (store_dead_letter db r >> insert_status_history db r.attempt.event_id "DEAD_LETTERED" _)
      (asked s) (insert_delivery_attempt-Keeps db r.attempt "FAILED" (asked s) v)
      (λ s' v'.
        andthen-Keeps (store_dead_letter db r)
          (insert_status_history db r.attempt.event_id "DEAD_LETTERED" _) s'
          (store_dead_letter-Keeps db r s' v')
          (λ s'' v''. insert_status_history-Keeps db r.attempt.event_id "DEAD_LETTERED" _ s'' v'')))
