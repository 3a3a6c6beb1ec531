-- ===== src/Ingestion.antt =====
-- internal/ingestion/store.go: events, their idempotency keys, and the transaction that stores an
-- event with its outbox row and its first two lines of history.
mod Tests
pub mod Laws
pub mod Idempotency
pub mod RequestHash
pub mod Outcomes
pub mod Invariant
use eventrail_ingestion.Prelude.{
  Bool, List, Option, String, [], any, false, if◌then◌else◌, none, some, trim_space, true, ◌&&◌,
  ◌==◌, ◌∷◌,
}
use eventrail_ingestion.Errors.{Error, failed, idempotency_conflict, new, nil, sentinel, wrap}

-- A row of the table `events`. A row from before the column was added has no hash.
pub record EventRow : Type 0 where
  pub id : String
  pub event_type : String
  pub source : String
  pub payload : String
  pub idempotency_key : Option String
  pub request_hash : Option String

pub record EventInput : Type 0 where
  pub event_type : String
  pub source : String
  pub payload : String

pub record PersistResult : Type 0 where
  pub event_id : String
  pub created : Bool

-- The tables that ingestion writes. The outbox is the list of event ids with a row; the history is
-- newest first.
pub record Store : Type 0 where
  pub events : List EventRow
  pub outbox : List String
  pub history : List (String × String)

-- The result and the error of a call, and the tables after it.
pub data Persisted : Type 0 where
  ok : PersistResult → Store → Persisted
  err : Error → Store → Persisted

abbrev pub store_of : Persisted → Store
store_of (ok r s) = s
store_of (err e s) = s

-- What the database answers: nil, or the error of beginning, inserting, looking up, inserting the
-- outbox row, inserting the two lines of history and committing. `new_id` is what
-- `uuid_generate_v4()` gives for the inserted event. Where the commit reports an error,
-- `commit_applied` says whether the server had committed all the same.
pub record Answers : Type 0 where
  pub new_id : String
  pub begin_error : Error
  pub insert_error : Error
  pub lookup_error : Error
  pub outbox_error : Error
  pub stored_error : Error
  pub pending_error : Error
  pub commit_error : Error
  pub commit_applied : Bool

same_key : Option String → String → Bool
same_key none k = false
same_key (some j) k = j == k

pub has_key : String → String → EventRow → Bool
has_key source key r = r.source == source && same_key r.idempotency_key key

-- `WHERE source = $1 AND idempotency_key = $2`: the unique index leaves one row at most.
pub find_event : String → String → List EventRow → Option EventRow
find_event source key [] = none
find_event source key (r ∷ rs) = if has_key source key r then some r else find_event source key rs

-- A connection in a transaction: the tables that are committed, and those that it sees.
pub record Connection : Type 0 where
  pub durable : Store
  pub working : Store

-- How the statements of a call end.
pub data Ended : Type 0 where
  finished : PersistResult → Connection → Ended
  aborted : Error → Connection → Ended

-- The rows of an event: `INSERT INTO events`, `INSERT INTO outbox`, `InsertStatusHistory`.
insert_event_row : EventRow → Connection → Connection
insert_event_row r c = record c { working = record c.working { events = r ∷ c.working.events } }

insert_outbox_row : String → Connection → Connection
insert_outbox_row i c = record c { working = record c.working { outbox = i ∷ c.working.outbox } }

insert_line : String → String → Connection → Connection
insert_line i status c = record c {
  working = record c.working { history = (i, status) ∷ c.working.history };
}

new_event : EventInput → Option String → String → String → EventRow
new_event req key hash i = record {
  id = i;
  event_type = req.event_type;
  source = req.source;
  payload = req.payload;
  idempotency_key = key;
  request_hash = some hash;
}

-- The primary key.
pub has_id : String → List EventRow → Bool
has_id i rows = any (λ r. r.id == i) rows

-- A statement that fails ends the call; what is left runs otherwise.
attempt : String → Error → Connection → Ended → Ended
attempt context nil c rest = rest
attempt context e c rest = aborted (wrap context e "") c

-- `Commit`.
finish : Answers → String → PersistResult → Connection → Ended
finish db context result c =
    if failed db.commit_error
    then aborted (wrap context db.commit_error "")
        (if db.commit_applied then record c { durable = c.working } else c)
    else finished result (record c { durable = c.working })

-- The rows of the outbox and the history, and the commit.
insert_outbox_for_event : Answers → String → Connection → Ended
insert_outbox_for_event db i c =
    let queued : Connection = insert_outbox_row i c in
    let told : Connection = insert_line i "STORED" queued in
    let all_told : Connection = insert_line i "PENDING_PUBLICATION" told in
    attempt "insert outbox row for event: " db.outbox_error c (
      attempt "insert status STORED for event: " db.stored_error queued (
        attempt "insert status PENDING_PUBLICATION for event: " db.pending_error told
          (finish db "commit new event: " (record { event_id = i; created = true }) all_told)))

insert_event : Answers → EventInput → Option String → String → Connection → Ended
insert_event db req key hash c =
    if has_id db.new_id c.working.events
    then aborted (new "insert event: duplicate key value violates unique constraint") c
    else insert_outbox_for_event db db.new_id
        (insert_event_row (new_event req key hash db.new_id) c)

conflict : String → Error
conflict reason = wrap "" (sentinel idempotency_conflict) reason

-- `validateExistingRequestHash`.
validate_existing_request_hash : Option String → String → Error
validate_existing_request_hash none incoming = conflict ": existing request hash is missing"
validate_existing_request_hash (some existing) incoming =
    if existing == incoming then nil else conflict ": existing request hash differs"

checked_event : Answers → EventRow → Connection → Error → Ended
checked_event db r c nil =
    finish db "commit existing idempotent event lookup: "
      (record { event_id = r.id; created = false }) c
checked_event db r c e = aborted (wrap "" e " for source and event") c

-- The event of an earlier request with the key, if its hash is the same.
existing_event : Answers → String → Connection → EventRow → Ended
existing_event db hash c r =
    attempt "lookup existing event for idempotency key: " db.lookup_error c
      (checked_event db r c (validate_existing_request_hash r.request_hash hash))

-- With a key: `ON CONFLICT DO NOTHING` inserts nothing where a row has the key.
insert_with_key : Answers → EventInput → String → String → Connection → Option EventRow → Ended
insert_with_key db req key hash c none = insert_event db req (some key) hash c
insert_with_key db req key hash c (some r) = existing_event db hash c r

persist_hashed : Answers → EventInput → String → String → Connection → Ended
persist_hashed db req key hash c = attempt "begin persist event transaction: " db.begin_error c (
    attempt "insert event: " db.insert_error c (
      if key == ""
      then insert_event db req none hash c
      else insert_with_key db req key hash c (find_event req.source key c.working.events)))

-- The deferred `Rollback`: what was not committed is lost.
outcome : Ended → Persisted
outcome (finished r c) = ok r c.durable
outcome (aborted e c) = err e c.durable

persist_with : Answers → EventInput → String → Store → Option String → Persisted
unfolding outcome
persist_with db req key before none = err (new "compute request hash") before
persist_with db req key before (some hash) =
    outcome
      (persist_hashed db req (trim_space key) hash (record { durable = before; working = before }))

-- `PersistEventWithOutbox`; `request_hash` is `computeRequestHash`, and `none` is its error.
module _ (request_hash : EventInput → Option String) where
  pub persist_event : Answers → EventInput → String → Store → Persisted
  unfolding persist_with
  persist_event db req idempotency_key before =
      persist_with db req idempotency_key before (request_hash req)
