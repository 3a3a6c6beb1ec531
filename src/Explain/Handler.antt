-- ===== src/Explain/Handler.antt =====
-- internal/httpapi/event_explain.go, NewEventExplainHandler: the handler of explanations, over the
-- store and the client of the AI service.
pub mod Laws
mod Tests
use eventrail_ingestion.Prelude.{
  Bool, List, Option, String, [], code, eqb, false, if◌then◌else◌, leb, none, some, suc, trim_space,
  true, zero, ℕ, ◌&&◌, ◌||◌, ◌∷◌,
}
use eventrail_ingestion.AiClient.{ExplainResponse, Explanation}
use eventrail_ingestion.Errors.{
  Error, ai_invalid_response, event_not_found, event_not_ready, failed, is_error,
}
use eventrail_ingestion.Explain.Snapshot.{ExplainRequest, explain_request_from_store}
use eventrail_ingestion.Http.{Reply, Request, bare, error_reply, json, not_allowed, require_method}
use eventrail_ingestion.Http.Paths.{trim_prefix, trim_right_slash, trim_slash, trim_suffix}
use eventrail_ingestion.Http.Triage.{DecodeData}
use eventrail_ingestion.Operations.Session.{Database, Result, Session, err, ok}

-- A class of characters, by their codes.
abbrev CharClass : Type 0
CharClass = ℕ → Bool

between : ℕ → ℕ → CharClass
between low high c = leb low c && leb c high

-- `[0-9a-f]` under `(?i)`.
hex_digit : CharClass
unfolding between
hex_digit c = between 48 57 c || between 97 102 c || between 65 70 c

dash : CharClass
dash c = eqb c 45

-- `[1-5]` and `[89ab]`.
version_digit : CharClass
unfolding between
version_digit c = between 49 53 c

variant_digit : CharClass
unfolding between
variant_digit c = between 56 57 c || between 97 98 c || between 65 66 c

hex_digits : ℕ → List CharClass → List CharClass
hex_digits zero rest = rest
hex_digits (suc n) rest = hex_digit ∷ hex_digits n rest

-- `uuidPattern`.
uuid_pattern : List CharClass
unfolding hex_digits
uuid_pattern = hex_digits 8 (
    dash
    ∷ hex_digits 4 (
        dash
        ∷ version_digit
        ∷ hex_digits 3 (dash ∷ variant_digit ∷ hex_digits 3 (dash ∷ hex_digits 12 []))))

-- The whole text is a character of each class, in order.
matches : List CharClass → String → Bool
matches [] String.[] = true
matches [] (String.◌∷◌ c s) = false
matches (k ∷ ks) String.[] = false
matches (k ∷ ks) (String.◌∷◌ c s) = k (code c) && matches ks s

-- `validEventID`.
unfoldable pub valid_event_id : String → Bool
unfolding matches uuid_pattern hex_digits hex_digit dash version_digit variant_digit
valid_event_id event_id = matches uuid_pattern (trim_space event_id)

pub explain_event_id : String → String
explain_event_id path =
    trim_slash (trim_suffix "/explain" (trim_prefix "/events/" (trim_right_slash path)))

not_built : Error → Reply ExplainResponse
not_built e =
    if is_error e event_not_found
    then bare 404
    else if is_error e event_not_ready
    then error_reply 409 "EVENT_NOT_READY_FOR_EXPLANATION"
    else error_reply 500 "failed to build event explanation snapshot"

explained : Explanation → Reply ExplainResponse
explained x =
    if is_error x.error ai_invalid_response
    then error_reply 502 "EXPLANATION_INVALID_RESPONSE"
    else if failed x.error
    then error_reply 503 "EXPLANATION_UNAVAILABLE"
    else json 200 x.response

-- The reply to the snapshot, with the session after the calls of the store.
reply_to :
    (ExplainRequest → Explanation)
    → Result ExplainRequest × Session
    → Reply ExplainResponse × Session
reply_to client (ok request, s) = (explained (client request), s)
reply_to client (err e, s) = (not_built e, s)

explain_with :
    Database
    → (String → String)
    → DecodeData
    → Option (ExplainRequest → Explanation)
    → String
    → Session
    → Reply ExplainResponse × Session
explain_with db to_lower decode none event_id s = (error_reply 503 "EXPLANATION_UNAVAILABLE", s)
explain_with db to_lower decode (some client) event_id s =
    if valid_event_id event_id
    then reply_to client (explain_request_from_store db to_lower decode event_id s)
    else (error_reply 400 "INVALID_EVENT_ID", s)

-- `NewEventExplainHandler`; a client that is nil is `none`.
pub event_explain_handler :
    Database
    → (String → String)
    → DecodeData
    → Option (ExplainRequest → Explanation)
    → Request
    → Session
    → Reply ExplainResponse × Session
event_explain_handler db to_lower decode client r s =
    require_method "POST" r (not_allowed "POST", s)
      (explain_with db to_lower decode client (explain_event_id r.path) s)
