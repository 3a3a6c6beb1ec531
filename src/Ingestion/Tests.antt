-- ===== src/Ingestion/Tests.antt =====
-- Ingestion on a small store.
use eventrail_ingestion.Prelude.{
  Option, String, [], concat, false, if◌then◌else◌, refl, some, trim_space, true, ◌==◌, ◌||◌, ◌∷◌,
  ◌≡◌,
}
use eventrail_ingestion.Errors.{Error, idempotency_conflict, is_error, new, nil, wrap}
use eventrail_ingestion.Ingestion.{
  Answers, EventInput, PersistResult, Store, attempt, err, find_event, finish, has_id, insert_event,
  insert_event_row, insert_line, insert_outbox_for_event, insert_outbox_row, insert_with_key,
  new_event, ok, outcome, persist_event, persist_hashed, persist_with,
}
use eventrail_ingestion.Ingestion.Idempotency.{all_well, persist_event-conflict}
use eventrail_ingestion.Ingestion.Invariant.{IsValid, submit_all, submit_all-IsValid}
use eventrail_ingestion.Ingestion.Laws.{IsWhole, persist_event-IsWhole}
use eventrail_ingestion.Ingestion.Outcomes.{with_event}
use eventrail_ingestion.Ingestion.RequestHash.{
  Codec, compute_request_hash, end_of_input, hash_bytes, hash_decoded, malformed, request_hash,
  value,
}
use eventrail_ingestion.Ingestion.RequestHash.Laws.{persist_event-same_value}

abbrev empty : Store
empty = record { events = []; outbox = []; history = [] }

abbrev order : EventInput
order = record { event_type = "invoice.paid"; source = "billing"; payload = "{}" }

abbrev healthy : Answers
healthy = record {
  new_id = "e1";
  begin_error = nil;
  insert_error = nil;
  lookup_error = nil;
  outbox_error = nil;
  stored_error = nil;
  pending_error = nil;
  commit_error = nil;
  commit_applied = false;
}

abbrev broken_history : Answers
broken_history = record healthy { pending_error = new "disk full" }

abbrev plain_hash : EventInput → Option String
plain_hash req = some req.payload

failed_history :
    persist_event plain_hash broken_history order " k " empty
    ≡ err (wrap "insert status PENDING_PUBLICATION for event: " (new "disk full") "") empty
unfolding persist_event persist_with persist_hashed attempt insert_with_key insert_event find_event
    trim_space has_id insert_outbox_for_event insert_event_row insert_outbox_row insert_line
    new_event finish outcome
failed_history = refl

persist_event-IsWhole_example : IsWhole plain_hash broken_history order " k " empty empty
persist_event-IsWhole_example =
    persist_event-IsWhole plain_hash broken_history order " k " empty _ empty failed_history

abbrev larger_order : EventInput
larger_order = record order { payload = "{\"n\":2}" }

abbrev first_result : PersistResult
first_result = record { event_id = "e1"; created = true }

-- The tables after the first request.
abbrev after_first : Store
after_first = record {
  events =
      record {
        id = "e1";
        event_type = "invoice.paid";
        source = "billing";
        payload = "{}";
        idempotency_key = some "k";
        request_hash = some "{}";
      }
      ∷ [];
  outbox = "e1" ∷ [];
  history = ("e1", "PENDING_PUBLICATION") ∷ ("e1", "STORED") ∷ [];
}

first_request : persist_event plain_hash healthy order " k " empty ≡ ok first_result after_first
unfolding persist_event persist_with persist_hashed attempt insert_with_key insert_event find_event
    trim_space has_id insert_outbox_for_event insert_event_row insert_outbox_row insert_line
    new_event finish outcome
first_request = refl

persist_event-conflict_example :
    (e : Error) × (persist_event plain_hash all_well larger_order " k " after_first
      ≡ err e after_first)
    × (is_error e idempotency_conflict ≡ true)
unfolding trim_space
persist_event-conflict_example =
    persist_event-conflict plain_hash healthy order larger_order " k " "{}" "{\"n\":2}" empty
      after_first first_result refl refl refl refl refl first_request

empty-IsValid : IsValid empty
empty-IsValid = record { distinct = tt; outbox_rows = refl; history_lines = refl }

submit_all-IsValid_example : IsValid (
    submit_all plain_hash
      (record { answers = healthy; input = order; key = " k " }
        ∷ record { answers = healthy; input = larger_order; key = " k " }
        ∷ record { answers = broken_history; input = order; key = "" }
        ∷ [])
      empty)
submit_all-IsValid_example =
    submit_all-IsValid plain_hash
      (record { answers = healthy; input = order; key = " k " }
        ∷ record { answers = healthy; input = larger_order; key = " k " }
        ∷ record { answers = broken_history; input = order; key = "" }
        ∷ [])
      empty empty-IsValid

-- A codec for the texts of one object in two layouts.
abbrev layouts : Codec String
layouts = record {
  decode = λ payload.
      (if payload == "{\"n\":1}" || payload == "{ \"n\": 1 }"
        then (value "n=1", end_of_input)
        else (malformed (new "other"), end_of_input));
  marshal = λ i. some (concat (i.event_type ∷ "|" ∷ i.source ∷ "|" ∷ i.payload ∷ []));
  sha256_hex = λ s. s;
}

abbrev compact : EventInput
compact = record order { payload = "{\"n\":1}" }

abbrev spaced : EventInput
spaced = record order { payload = "{ \"n\": 1 }" }

abbrev compact_bytes : String
compact_bytes = "invoice.paid|billing|n=1"

compact_request :
    persist_event (request_hash layouts) healthy compact "k" empty
    ≡ ok first_result (with_event compact (some "k") compact_bytes "e1" empty)
unfolding persist_event persist_with persist_hashed attempt insert_with_key insert_event find_event
    trim_space has_id insert_outbox_for_event insert_event_row insert_outbox_row insert_line
    new_event finish outcome request_hash compute_request_hash hash_decoded hash_bytes
compact_request = refl

persist_event-same_value_example :
    persist_event
      (request_hash layouts)
      all_well
      spaced
      "k"
      (with_event compact (some "k") compact_bytes "e1" empty)
    ≡ ok
        (record { event_id = "e1"; created = false })
        (with_event compact (some "k") compact_bytes "e1" empty)
unfolding trim_space
persist_event-same_value_example =
    persist_event-same_value layouts healthy compact spaced "k" compact_bytes "n=1" empty
      (with_event compact (some "k") compact_bytes "e1" empty) first_result (refl, refl)
      (refl, refl) refl refl refl refl compact_request
