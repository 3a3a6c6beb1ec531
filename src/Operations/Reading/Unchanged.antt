-- ===== src/Operations/Reading/Unchanged.antt =====
-- Calls that only read: whatever PostgreSQL answers they leave the tables and the stream as they are.
use eventrail_ingestion.Prelude.{
  Option, String, [], ap, concat, find, none, refl, some, ◌==◌, ◌∙◌, ◌∷◌, ◌≡◌,
}
use eventrail_ingestion.Errors.{Error, event_not_found}
use eventrail_ingestion.Operations.{Tables, find_event}
use eventrail_ingestion.Operations.Reading.{
  EventStatus, current_status_of, dlq_detail, event_status, fetch_delivery_attempts,
  fetch_dlq_record, fetch_status_history, join_events, not_found, query_rows,
}
use eventrail_ingestion.Operations.Redrive.{fetch_event, not_found_or}
use eventrail_ingestion.Operations.Session.{
  Database, Session, Tx, ask, cast, fail, get_tables, on_error, one_row, pure, ◌>>=◌,
}
use eventrail_ingestion.Operations.Session.Rules.{
  Ensures, ask_alone, done, on_error-Ensures, stopped, then-Ensures, valid_alone, weaken,
}

-- The tables and what was handed over.
abbrev pub Same : Session → Session → Type 0
Same s s' = (s'.tables ≡ s.tables) × (s'.handed_over ≡ s.handed_over)

-- A call that changes nothing and returns only values with a property.
pub record Reads {A : Type 0} (P : A → Type 0) (m : Tx A) : Type 0 where
  pub run : (s : Session) → Ensures (λ a s'. P a × Same s s') (λ s'. Same s s') (m s)

-- Any value.
abbrev pub Any : {A : Type 0} → A → Type 0
Any a = Unit {0}

module _ {A B : Type 0} {P : A → Type 0} {Q : B → Type 0} where
  pub then-Reads :
      (m : Tx A) (f : A → Tx B) → Reads P m → ((a : A) → P a → Reads Q (f a)) → Reads Q (m >>= f)
  then-Reads m f h k = record {
    run = λ s. then-Ensures m f s (h.run s) (λ a s' q.
        weaken (Reads.run (k a q.0) s') (λ b z r. (r.0, (r.1.0 ∙ q.1.0, r.1.1 ∙ q.1.1)))
          (λ z r. (r.0 ∙ q.1.0, r.1 ∙ q.1.1)));
  }

module _ {A : Type 0} {P : A → Type 0} where
  pub pure-Reads : (a : A) → P a → Reads P (pure a)
  pure-Reads a p = record { run = λ s. done (p, (refl, refl)) }

  pub fail-Reads : (e : Error) → Reads P (fail e)
  fail-Reads e = record { run = λ s. stopped (refl, refl) }

  pub on_error-Reads : (f : Error → Error) (m : Tx A) → Reads P m → Reads P (on_error f m)
  on_error-Reads f m h = record { run = λ s. on_error-Ensures m f s (h.run s) }

one_row-Reads : {A : Type 0} (o : Option A) → Reads Any (one_row o)
one_row-Reads none = record { run = λ s. stopped (refl, refl) }
one_row-Reads (some a) = record { run = λ s. done (tt, (refl, refl)) }

ask-Reads : (db : Database) → Reads Any (ask db)
ask-Reads db = record {
  run = λ s.
      weaken (ask_alone db s (refl, refl))
        (λ a s' q. (tt, (ap (λ (z : Session). z.tables) q, ap (λ (z : Session). z.handed_over) q)))
        (λ s' q. q);
}

get_tables-Reads : Reads Any get_tables
get_tables-Reads = record { run = λ s. done (tt, (refl, refl)) }

cast-Reads : (db : Database) (id : String) → Reads Any (cast db id)
cast-Reads db id = record {
  run = λ s. valid_alone (db.uuid id) s (λ u e. (tt, (refl, refl))) (refl, refl);
}

module _ {A B : Type 0} {Q : B → Type 0} where
  then-Any-Reads :
      (m : Tx A) (f : A → Tx B) → Reads Any m → ((a : A) → Reads Q (f a)) → Reads Q (m >>= f)
  then-Any-Reads m f h k = then-Reads m f h (λ a _. k a)

query_rows-Reads :
    {A : Type 0} (db : Database) (event_id fetching reading : String) (rows : String → Tables → A)
    → Reads Any (query_rows db event_id fetching reading rows)
unfolding query_rows
query_rows-Reads db event_id fetching reading rows =
    then-Any-Reads _ _
      (on_error-Reads _ _ (then-Any-Reads _ _ (ask-Reads db) (λ _. cast-Reads db event_id)))
      (λ id.
        then-Any-Reads _ _ (on_error-Reads _ _ (ask-Reads db))
          (λ _. then-Any-Reads _ _ get_tables-Reads (λ t. pure-Reads (rows id t) tt)))

fetch_event-Reads : (db : Database) (event_id : String) → Reads Any (fetch_event db event_id)
unfolding fetch_event
fetch_event-Reads db event_id =
    on_error-Reads (not_found_or event_not_found (concat ("fetch event " ∷ event_id ∷ ": " ∷ []))) _
      (then-Any-Reads _ _ (ask-Reads db) (λ _.
        then-Any-Reads _ _ (cast-Reads db event_id) (λ id.
          then-Any-Reads _ _ get_tables-Reads (λ t. one_row-Reads (find_event id t.events)))))

fetch_status_history-Reads :
    (db : Database) (event_id : String) → Reads Any (fetch_status_history db event_id)
unfolding fetch_status_history
fetch_status_history-Reads db event_id = query_rows-Reads db event_id _ _ _

fetch_delivery_attempts-Reads :
    (db : Database) (event_id : String) → Reads Any (fetch_delivery_attempts db event_id)
unfolding fetch_delivery_attempts
fetch_delivery_attempts-Reads db event_id = query_rows-Reads db event_id _ _ _

-- `EventStatus` reads, and the current status is that of the history.
pub event_status-Reads :
    (db : Database) (event_id : String)
    → Reads
        (λ e. EventStatus.current_status e ≡ current_status_of e.history)
        (event_status db event_id)
unfolding event_status
event_status-Reads db event_id = then-Any-Reads _ _ (fetch_event-Reads db event_id) (λ event.
    then-Any-Reads _ _ (fetch_status_history-Reads db event_id) (λ history.
      then-Any-Reads _ _ (fetch_delivery_attempts-Reads db event_id)
        (λ attempts. pure-Reads _ refl)))

fetch_dlq_record-Reads :
    (db : Database) (event_id : String) → Reads Any (fetch_dlq_record db event_id)
unfolding fetch_dlq_record
fetch_dlq_record-Reads db event_id = on_error-Reads not_found _ (
    then-Any-Reads _ _ (ask-Reads db) (λ _. then-Any-Reads _ _ (cast-Reads db event_id) (λ id.
      then-Any-Reads _ _ get_tables-Reads
        (λ t. one_row-Reads (find (λ r. r.event_id == id) (join_events t.events t.dlq))))))

-- `DLQDetail` reads.
pub dlq_detail-Reads :
    (db : Database) (event_id : String) → Reads (λ d. Unit {0}) (dlq_detail db event_id)
unfolding dlq_detail
dlq_detail-Reads db event_id = then-Any-Reads _ _ (fetch_dlq_record-Reads db event_id) (λ entry.
    then-Any-Reads _ _ (fetch_event-Reads db event_id) (λ event.
      then-Any-Reads _ _ (fetch_status_history-Reads db event_id) (λ history.
        then-Any-Reads _ _ (fetch_delivery_attempts-Reads db event_id)
          (λ attempts. pure-Reads _ tt))))
