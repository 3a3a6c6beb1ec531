-- ===== src/Ingestion/Idempotency.antt =====
-- Requests that repeat an idempotency key.
use eventrail_ingestion.Prelude.{
  Option, String, ap, eq_refl, false, refl, some, subst, sym, trim_space, true, ◌==◌, ◌∙◌, ◌≡◌,
}
use eventrail_ingestion.Errors.{Error, idempotency_conflict, is_error, nil, wrap}
use eventrail_ingestion.Ingestion.{
  Answers, EventInput, EventRow, PersistResult, Persisted, Store, attempt, checked_event, conflict,
  err, existing_event, find_event, finish, has_key, insert_with_key, ok, outcome, persist_event,
  persist_hashed, persist_with, same_key, validate_existing_request_hash,
}
use eventrail_ingestion.Ingestion.Outcomes.{persist_event_cases, with_event}

abbrev pub all_well : Answers
all_well = record {
  new_id = "another";
  begin_error = nil;
  insert_error = nil;
  lookup_error = nil;
  outbox_error = nil;
  stored_error = nil;
  pending_error = nil;
  commit_error = nil;
  commit_applied = true;
}

-- The event that a key stands for, with the hash of its request.
abbrev Holds : String → String → String → String → Store → Type 0
Holds source key hash i s =
    (row : EventRow) × (find_event source key s.events ≡ some row)
    × (row.id ≡ i)
    × (row.request_hash ≡ some hash)

with_event-Holds :
    (req : EventInput) (key hash i : String) (before : Store)
    → Holds req.source key hash i (with_event req (some key) hash i before)
unfolding find_event has_key same_key
with_event-Holds req key hash i before = (
  record {
    id = i;
    event_type = req.event_type;
    source = req.source;
    payload = req.payload;
    idempotency_key = some key;
    request_hash = some hash;
  },
  rw (eq_refl, eq_refl) refl,
  refl,
  refl,
)

module _ (request_hash : EventInput → Option String) where
  persist_event-hashed :
      (db : Answers) (req : EventInput) (key hash : String) (before : Store)
      → request_hash req ≡ some hash
      → persist_event request_hash db req key before ≡ persist_with db req key before (some hash)
  unfolding persist_event
  persist_event-hashed db req key hash before hashed = rw hashed refl

  -- A keyed request that succeeded left an event with its hash under its key.
  persist_event-Holds :
      (db : Answers) (req : EventInput) (key hash : String) (before s : Store) (r : PersistResult)
      → request_hash req ≡ some hash
      → (trim_space key == "") ≡ false
      → persist_event request_hash db req key before ≡ ok r s
      → Holds req.source (trim_space key) hash r.event_id s
  persist_event-Holds db req key hash before s r hashed keyed =
      let Q : Persisted → Type 0 =
        λ p. p ≡ ok r s → Holds req.source (trim_space key) hash r.event_id s in
      persist_event_cases request_hash db req key before Q (λ e h. cc)
        (λ hash' row hashed' _ found stored_hash h.
          let tables : before ≡ s = cc in
          let result : record { event_id = row.id; created = false } ≡ r = cc in
          (
            row,
            subst (λ z. find_event req.source (trim_space key) z.events ≡ some row) tables found,
            ap (λ (x : PersistResult). x.event_id) result,
            stored_hash ∙ sym hashed' ∙ hashed,
          ))
        (λ k hash' given hashed' fresh h.
          let same_key' : k ≡ some (trim_space key) = sym given ∙ rw keyed refl in
          let same_hash : hash' ≡ hash = cc in
          let tables : with_event req k hash' db.new_id before ≡ s = cc in
          let result : record { event_id = db.new_id; created = true } ≡ r = cc in
          let this : with_event req (some (trim_space key)) hash db.new_id before ≡ s =
            (λ i. with_event req (sym same_key' i) (sym same_hash i) db.new_id before) ∙ tables in
          subst (Holds req.source (trim_space key) hash r.event_id) this (
            subst
              (λ i.
                Holds req.source (trim_space key) hash i
                  (with_event req (some (trim_space key)) hash db.new_id before))
              (ap (λ (x : PersistResult). x.event_id) result)
              (with_event-Holds req (trim_space key) hash db.new_id before)))
        (λ e k hash' _ _ _ _ _ h. cc)

  -- After a request with a key succeeded, a request from the same source with the key and the same
  -- hash, if no statement fails, gives the same event id, says that it created nothing, and leaves
  -- all tables as they are.
  pub persist_event_twice :
      (db : Answers) (req again : EventInput) (key hash : String) (before s : Store)
      (r : PersistResult)
      → request_hash req ≡ some hash
      → request_hash again ≡ some hash
      → again.source ≡ req.source
      → (trim_space key == "") ≡ false
      → persist_event request_hash db req key before ≡ ok r s
      → persist_event request_hash all_well again key s
        ≡ ok (record { event_id = r.event_id; created = false }) s
  unfolding persist_with persist_hashed attempt insert_with_key existing_event checked_event finish
      validate_existing_request_hash outcome
  persist_event_twice db req again key hash before s r hashed hashed' source keyed h =
      let (row, found, same, stored_hash) =
        persist_event-Holds db req key hash before s r hashed keyed h in
      rw
        (
          persist_event-hashed all_well again key hash s hashed',
          persist_with,
          persist_hashed,
          keyed,
          source,
          found,
          existing_event,
          stored_hash,
          validate_existing_request_hash,
          eq_refl,
          same,
        )
        refl

  -- Right after a request with a key succeeded, another request from the same source with the key, of
  -- another hash, to which no statement fails, is refused as a conflict, and leaves all tables as they
  -- are.
  pub persist_event-conflict :
      (db : Answers) (req other : EventInput) (key hash other_hash : String) (before s : Store)
      (r : PersistResult)
      → request_hash req ≡ some hash
      → request_hash other ≡ some other_hash
      → (hash == other_hash) ≡ false
      → other.source ≡ req.source
      → (trim_space key == "") ≡ false
      → persist_event request_hash db req key before ≡ ok r s
      → (e : Error) × (persist_event request_hash all_well other key s ≡ err e s)
        × (is_error e idempotency_conflict ≡ true)
  unfolding persist_with persist_hashed attempt insert_with_key existing_event checked_event finish
      validate_existing_request_hash outcome conflict is_error
  persist_event-conflict db req other key hash other_hash before s r hashed hashed' differs source
        keyed h =
      let (row, found, same, stored_hash) =
        persist_event-Holds db req key hash before s r hashed keyed h in
      (
        wrap "" (conflict ": existing request hash differs") " for source and event",
        rw
            (
              persist_event-hashed all_well other key other_hash s hashed',
              persist_with,
              persist_hashed,
              keyed,
              source,
              found,
              existing_event,
              stored_hash,
              validate_existing_request_hash,
              differs,
            )
            refl,
        refl,
      )
