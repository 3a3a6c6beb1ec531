-- ===== src/Ingestion/Outcomes.antt =====
-- The outcomes of a call of ingestion: one rule for all of them.
use eventrail_ingestion.Prelude.{
  Option, String, arith, eq_iff, false, if_cases, if◌then◌else◌, none, refl, some, trim_space, true,
  ◌==◌, ◌∷◌, ◌≡◌,
}
use eventrail_ingestion.Errors.{Error, failed, failure, new, nil, sentinel, wrap}
use eventrail_ingestion.Ingestion.{
  Answers, Ended, EventInput, EventRow, PersistResult, Persisted, Store, aborted, attempt,
  checked_event, conflict, err, existing_event, find_event, finish, has_id, insert_event,
  insert_event_row, insert_line, insert_outbox_for_event, insert_outbox_row, insert_with_key,
  new_event, ok, outcome, persist_event, persist_hashed, persist_with,
  validate_existing_request_hash,
}

-- The key of a request, without space around it; an empty one is none.
abbrev pub given_key : String → Option String
given_key key = if trim_space key == "" then none else some (trim_space key)

-- The tables with one more event, its outbox row, and the lines STORED and PENDING_PUBLICATION.
abbrev pub with_event : EventInput → Option String → String → String → Store → Store
with_event req key hash i s = record {
  events =
      record {
        id = i;
        event_type = req.event_type;
        source = req.source;
        payload = req.payload;
        idempotency_key = key;
        request_hash = some hash;
      }
      ∷ s.events;
  outbox = i ∷ s.outbox;
  history = (i, "PENDING_PUBLICATION") ∷ (i, "STORED") ∷ s.history;
}

-- No row has the id; and where a key is given, it is not empty and no row of the source has it.
abbrev pub IsFresh : String → EventInput → Option String → Store → Type 0
IsFresh i input none before = has_id i before.events ≡ false
IsFresh i input (some key) before =
    (has_id i before.events ≡ false)
    × ((key == "") ≡ false)
    × (find_event input.source key before.events ≡ none)

validated-hash :
    (o : Option String) (hash : String)
    → validate_existing_request_hash o hash ≡ nil
    → o ≡ some hash
unfolding validate_existing_request_hash conflict
validated-hash none hash h = cc
validated-hash (some old) hash h = ground (arith, eq_iff old hash)

-- What holds of every error that changes nothing, of every repetition, of every new event, and of a
-- new event whose commit reported an error although the server had committed, holds of a call.
module _ {κ} (request_hash : EventInput → Option String) (db : Answers) (input : EventInput)
    (key : String) (before : Store) (P : Persisted → Type κ)
    (refuses : (e : Error) → P (err e before))
    (repeats : (hash : String) (row : EventRow)
      → request_hash input ≡ some hash
      → (trim_space key == "") ≡ false
      → find_event input.source (trim_space key) before.events ≡ some row
      → row.request_hash ≡ some hash
      → P (ok (record { event_id = row.id; created = false }) before))
    (creates : (k : Option String) (hash : String)
      → given_key key ≡ k
      → request_hash input ≡ some hash
      → IsFresh db.new_id input k before
      → P (
          ok
            (record { event_id = db.new_id; created = true })
            (with_event input k hash db.new_id before)))
    (undecided : (e : Error) (k : Option String) (hash : String)
      → given_key key ≡ k
      → request_hash input ≡ some hash
      → IsFresh db.new_id input k before
      → failed db.commit_error ≡ true
      → db.commit_applied ≡ true
      → P (err e (with_event input k hash db.new_id before))) where
  attempt_cases :
      (context : String) (e : Error) (w : Store) (rest : Ended)
      → P (outcome rest)
      → P (outcome (attempt context e (record { durable = before; working = w }) rest))
  unfolding attempt outcome
  attempt_cases context nil w rest h = h
  attempt_cases context (new m) w rest h = refuses _
  attempt_cases context (sentinel m) w rest h = refuses _
  attempt_cases context (wrap b m a) w rest h = refuses _
  attempt_cases context (failure k c m) w rest h = refuses _

  finish_cases :
      (context : String) (r : PersistResult) (w : Store)
      → P (ok r w)
      → ((e : Error) → failed db.commit_error ≡ true → db.commit_applied ≡ true → P (err e w))
      → P (outcome (finish db context r (record { durable = before; working = w })))
  unfolding finish outcome
  finish_cases context r w good bad =
      if_cases (λ x. P (outcome x)) (failed db.commit_error) _ _
        (λ lost.
          if_cases (λ c. P (outcome (aborted (wrap context db.commit_error "") c)))
            db.commit_applied _ _ (λ applied. bad _ lost applied) (λ rolled_back. refuses _))
        (λ fine. good)

  insert_event_cases :
      (k : Option String) (hash : String)
      → given_key key ≡ k
      → request_hash input ≡ some hash
      → (has_id db.new_id before.events ≡ false → IsFresh db.new_id input k before)
      → P (outcome (insert_event db input k hash (record { durable = before; working = before })))
  unfolding insert_event insert_outbox_for_event insert_event_row insert_outbox_row insert_line
      new_event
  insert_event_cases k hash same hashed fresh =
      if_cases (λ x. P (outcome x)) (has_id db.new_id before.events) _ _
        (λ taken. unfold outcome in refuses _)
        (λ free. attempt_cases "insert outbox row for event: " db.outbox_error _ _ (
          attempt_cases "insert status STORED for event: " db.stored_error _ _ (
            attempt_cases "insert status PENDING_PUBLICATION for event: " db.pending_error _ _ (
              finish_cases "commit new event: " _ (with_event input k hash db.new_id before)
                (creates k hash same hashed (fresh free))
                (λ e lost applied. undecided e k hash same hashed (fresh free) lost applied)))))

  checked_event_cases :
      (r : EventRow) (hash : String) (e : Error)
      → (e ≡ nil → P (ok (record { event_id = r.id; created = false }) before))
      → P (outcome (checked_event db r (record { durable = before; working = before }) e))
  unfolding checked_event outcome
  checked_event_cases r hash nil same =
      finish_cases "commit existing idempotent event lookup: " _ before (same refl)
        (λ e lost applied. refuses e)
  checked_event_cases r hash (new m) same = refuses _
  checked_event_cases r hash (sentinel m) same = refuses _
  checked_event_cases r hash (wrap b m a) same = refuses _
  checked_event_cases r hash (failure k c m) same = refuses _

  insert_with_key_cases :
      (hash : String) (o : Option EventRow)
      → given_key key ≡ some (trim_space key)
      → request_hash input ≡ some hash
      → (trim_space key == "") ≡ false
      → find_event input.source (trim_space key) before.events ≡ o
      → P (
          outcome (
            insert_with_key db input
              (trim_space key)
              hash
              (record { durable = before; working = before })
              o))
  unfolding insert_with_key existing_event
  insert_with_key_cases hash none same hashed keyed found =
      insert_event_cases (some (trim_space key)) hash same hashed (λ free. (free, keyed, found))
  insert_with_key_cases hash (some r) same hashed keyed found =
      attempt_cases "lookup existing event for idempotency key: " db.lookup_error before _ (
        checked_event_cases r hash (validate_existing_request_hash r.request_hash hash)
          (λ valid. repeats hash r hashed keyed found (validated-hash r.request_hash hash valid)))

  persist_with_cases :
      (o : Option String) → request_hash input ≡ o → P (persist_with db input key before o)
  unfolding persist_with persist_hashed
  persist_with_cases none hashed = refuses _
  persist_with_cases (some hash) hashed =
      attempt_cases "begin persist event transaction: " db.begin_error before _ (
        attempt_cases "insert event: " db.insert_error before _ (
          if_cases (λ x. P (outcome x)) (trim_space key == "") _ _
            (λ empty. insert_event_cases none hash (rw empty refl) hashed (λ free. free))
            (λ keyed.
              insert_with_key_cases hash (find_event input.source (trim_space key) before.events)
                (rw keyed refl) hashed keyed refl)))

  pub persist_event_cases : P (persist_event request_hash db input key before)
  unfolding persist_event
  persist_event_cases = persist_with_cases (request_hash input) refl
