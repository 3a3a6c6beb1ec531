-- ===== src/Http/Events.antt =====
-- internal/httpapi/json.go and event_handler.go: one JSON value in a bounded body, and the creation
-- of an event.
pub mod Laws
mod Tests
use eventrail_ingestion.Prelude.{
  Bool, List, String, if◌then◌else◌, length, ltb, take, trim_space, ℕ, ◌==◌, ◌||◌,
}
use eventrail_ingestion.Errors.{idempotency_conflict, is_error}
use eventrail_ingestion.Http.{Reply, Request, error_reply, json, not_allowed, require_method}
use eventrail_ingestion.Ingestion.{EventInput, Persisted, Store, err, ok}

abbrev pub max_json_request_body_bytes : ℕ
max_json_request_body_bytes = 1048576

-- What one call of a JSON decoder gives: a value, the end of the input, the error of the limit on
-- the body, or another error.
pub data JsonStep (A : Type 0) : Type 0 where
  value : A → JsonStep A
  end_of_input too_large malformed : JsonStep A

-- The results of a first call and of one after it, from the bytes that the limit lets through, and
-- whether it cut the body.
abbrev pub Decoder : Type 0 → Type 0
Decoder A = List ℕ → Bool → JsonStep A × JsonStep (Unit {0})

pub data DecodeResult (A : Type 0) : Type 0 where
  decoded : A → DecodeResult A
  body_too_large extra_json_value invalid_json : DecodeResult A

after_value : {A : Type 0} → A → JsonStep (Unit {0}) → DecodeResult A
after_value a (value x) = extra_json_value
after_value a end_of_input = decoded a
after_value a too_large = body_too_large
after_value a malformed = invalid_json

two_steps : {A : Type 0} → JsonStep A × JsonStep (Unit {0}) → DecodeResult A
two_steps (value a, next) = after_value a next
two_steps (end_of_input, next) = invalid_json
two_steps (too_large, next) = body_too_large
two_steps (malformed, next) = invalid_json

-- `decodeJSONRequest` behind its `http.MaxBytesReader`.
pub decode_json_request : {A : Type 0} → Decoder A → ℕ → List ℕ → DecodeResult A
decode_json_request decoder limit body =
    two_steps (decoder (take limit body) (ltb limit (length body)))

-- `isMissingJSONPayload`.
pub is_missing_json_payload : String → Bool
is_missing_json_payload payload =
    let trimmed = trim_space payload in trimmed == "" || trimmed == "null"

pub record CreateEventResponse : Type 0 where
  pub id : String
  pub created : Bool

persisted_reply : Persisted → Reply CreateEventResponse × Store
persisted_reply (ok result s) = (
  json (if result.created then 201 else 200)
      (record { id = result.event_id; created = result.created }),
  s,
)
persisted_reply (err e s) = (
  (if is_error e idempotency_conflict
      then error_reply 409 "idempotency key was already used for a different request"
      else error_reply 500 "failed to persist event"),
  s,
)

create_decoded :
    (EventInput → String → Store → Persisted)
    → Request
    → Store
    → DecodeResult EventInput
    → Reply CreateEventResponse × Store
create_decoded persist r s (decoded input) =
    if input.event_type == "" || input.source == "" || is_missing_json_payload input.payload
    then (error_reply 400 "event_type, source, and payload are required", s)
    else persisted_reply (persist input (r.header "Idempotency-Key") s)
create_decoded persist r s body_too_large = (error_reply 413 "request body too large", s)
create_decoded persist r s extra_json_value =
    (error_reply 400 "request body must contain exactly one JSON value", s)
create_decoded persist r s invalid_json = (error_reply 400 "invalid JSON body", s)

-- `NewCreateEventHandler`, with the tables that `persist` writes.
pub create_event_handler :
    Decoder EventInput
    → (EventInput → String → Store → Persisted)
    → Request
    → Store
    → Reply CreateEventResponse × Store
create_event_handler decoder persist r s =
    require_method "POST" r (not_allowed "POST", s)
      (create_decoded persist r s (decode_json_request decoder max_json_request_body_bytes r.body))
