-- ===== src/Operations/Runs.antt =====
-- The operations of `Store` that write, in any order, and what every sequence of them keeps.
mod Tests
use eventrail_ingestion.Prelude.{List, String, [], refl, some, subst, sym, ◌∷◌, ◌≡◌}
use eventrail_ingestion.Errors.{Error, nil}
use eventrail_ingestion.Operations.{EventMetadata, find_event, references_event}
use eventrail_ingestion.Operations.Invariant.{IsValid}
use eventrail_ingestion.Operations.Recording.{
  record_dead_lettered, record_delivered, record_processing, record_retrying,
}
use eventrail_ingestion.Operations.Recording.Laws.{
  record_dead_lettered-Recorded, record_delivered-Recorded, record_processing-Recorded,
  record_retrying-Recorded,
}
use eventrail_ingestion.Operations.Redrive.{redrive_dlq}
use eventrail_ingestion.Operations.Redrive.Laws.{redriven_tables-IsValid}
use eventrail_ingestion.Operations.Redrive.Safety.{redrive_dlq-IsSafe}
use eventrail_ingestion.Operations.Session.{Database, Result, Session, err, ok}
use eventrail_ingestion.Operations.Session.Rules.{Ensures, done, stopped}
use eventrail_ingestion.Worker.{
  DeadLetterRecord, DeliveryAttemptRecord, ProcessingRecord, RetryingRecord, Values,
}

-- A call: of the worker's `Recorder`, or of the redrive handler with its publisher.
pub data Operation : Type 0 where
  processing : ProcessingRecord → Operation
  delivered : DeliveryAttemptRecord → Operation
  retrying : RetryingRecord → Operation
  dead_lettered : DeadLetterRecord → Operation
  redrive : (Values → Result String) → String → Operation

-- Whether the call returned an error, and the session after it.
pub data Outcome : Type 0 where
  succeeded : Session → Outcome
  refused : Error → Session → Outcome

abbrev outcome : {A : Type 0} → Result A × Session → Outcome
outcome (ok a, s) = succeeded s
outcome (err e, s) = refused e s

abbrev pub session_of : Outcome → Session
session_of (succeeded s) = s
session_of (refused e s) = s

pub apply : Database → Operation → Session → Outcome
apply db (processing r) s = outcome (record_processing db r s)
apply db (delivered r) s = outcome (record_delivered db r s)
apply db (retrying r) s = outcome (record_retrying db r s)
apply db (dead_lettered r) s = outcome (record_dead_lettered db r s)
apply db (redrive publish event_id) s = outcome (redrive_dlq db publish event_id s)

-- Each call with what PostgreSQL answers during it.
pub apply_all : List (Database × Operation) → Session → Session
apply_all [] s = s
apply_all ((db, op) ∷ ops) s = apply_all ops (session_of (apply db op s))

-- What one call keeps of valid tables.
data Kept (before : Session) : Outcome → Type 0 where
  wrote : {s : Session} → IsValid s.tables → Kept before (succeeded s)
  stayed : {e : Error} {s : Session} → s.tables ≡ before.tables → Kept before (refused e s)

kept :
    {A : Type 0} {Q : A → Session → Type 0} {E : Session → Type 0} {p : Result A × Session}
    (before : Session)
    → Ensures Q E p
    → ((a : A) (s : Session) → Q a s → IsValid s.tables)
    → ((s : Session) → E s → s.tables ≡ before.tables)
    → Kept before (outcome p)
kept before (done q) good bad = wrote (good _ _ q)
kept before (stopped e) good bad = stayed (bad _ e)

found-references :
    (events : List EventMetadata) (id : String) (e : EventMetadata)
    → find_event id events ≡ some e
    → references_event events id ≡ nil
unfolding references_event
found-references events id e h = rw (references_event, h) refl

apply-Kept :
    (db : Database) (op : Operation) (s : Session) → IsValid s.tables → Kept s (apply db op s)
unfolding apply
apply-Kept db (processing r) s v =
    kept s (record_processing-Recorded db r s v) (λ _ s' q. q.0) (λ s' q. q.1)
apply-Kept db (delivered r) s v =
    kept s (record_delivered-Recorded db r s v) (λ _ s' q. q.0) (λ s' q. q.1)
apply-Kept db (retrying r) s v =
    kept s (record_retrying-Recorded db r s v) (λ _ s' q. q.0) (λ s' q. q.1)
apply-Kept db (dead_lettered r) s v =
    kept s (record_dead_lettered-Recorded db r s v) (λ _ s' q. q.0) (λ s' q. q.1)
apply-Kept db (redrive publish event_id) s v =
    kept s (redrive_dlq-IsSafe db publish event_id s)
      (λ result s' (id, e, r, valid, found, opened, known, taken, handed, one, same).
        subst IsValid (sym same) (
          redriven_tables-IsValid db id result.stream_id s.tables
            (found-references s.tables.events id e known) v))
      (λ s' q. q.1)

Kept-IsValid :
    (before : Session) (o : Outcome)
    → IsValid before.tables
    → Kept before o
    → IsValid (session_of o).tables
Kept-IsValid before _ v (wrote w) = w
Kept-IsValid before _ v (stayed same) = subst IsValid (sym same) v

Kept-unchanged :
    (before s : Session) (e : Error) (o : Outcome)
    → Kept before o
    → o ≡ refused e s
    → s.tables ≡ before.tables
Kept-unchanged before s e _ (wrote w) h = cc
Kept-unchanged before s e _ (stayed {s = t} same) h =
    let this : t ≡ s = cc in subst (λ (z : Session). z.tables ≡ before.tables) this same

-- Whatever the order of the calls and whatever PostgreSQL answers, valid tables stay valid: history,
-- attempts and dead-letter records belong to events that are there, numbers of attempts are positive,
-- no event has two dead-letter records, and a record is open without a time of redriving, or
-- redriven with one.
pub apply_all-IsValid :
    (ops : List (Database × Operation)) (s : Session)
    → IsValid s.tables
    → IsValid (apply_all ops s).tables
unfolding apply_all
apply_all-IsValid [] s v = v
apply_all-IsValid ((db, op) ∷ ops) s v =
    apply_all-IsValid ops (session_of (apply db op s))
      (Kept-IsValid s (apply db op s) v (apply-Kept db op s v))

-- A call that returns an error, wherever PostgreSQL failed, has changed no table.
pub apply-unchanged :
    (db : Database) (op : Operation) (s s' : Session) (e : Error)
    → IsValid s.tables
    → apply db op s ≡ refused e s'
    → s'.tables ≡ s.tables
apply-unchanged db op s s' e v h = Kept-unchanged s s' e (apply db op s) (apply-Kept db op s v) h
