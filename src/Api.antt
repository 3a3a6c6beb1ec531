-- ===== src/Api.antt =====
-- cmd/api/main.go: the handlers that are written there, of one event and of the cursor of a consumer
-- group, and the routes below /events/.
use eventrail_ingestion.Prelude.{
  Bool, List, String, [], false, if_cases, if◌then◌else◌, refl, trim_space, ◌==◌, ◌||◌, ◌∷◌, ◌≡◌,
}
use eventrail_ingestion.Errors.{Error, failed}
use eventrail_ingestion.Http.{Reply, Request, bare, error_reply, json, not_allowed, require_method}
use eventrail_ingestion.Http.Events.{
  DecodeResult, Decoder, body_too_large, decode_json_request, decoded, extra_json_value,
  invalid_json, max_json_request_body_bytes,
}
use eventrail_ingestion.Http.Paths.{trim_prefix, trim_right_slash}

pub record SetGroupCursorRequest : Type 0 where
  pub group : String
  pub start_id : String

consumer_group : String
consumer_group = "eventrail.cg"

-- The group and id of a call of XGROUP SETID on the stream.
abbrev pub SetId : Type 0
SetId = String × String

-- `set_id` is the error of the call. What is called stands beside the reply.
set_decoded : (SetId → Error) → DecodeResult SetGroupCursorRequest → List SetId × Reply (Unit {0})
set_decoded set_id (decoded req) =
    let given : String = trim_space req.group in
    let start_id : String = trim_space req.start_id in
    let args : SetId = (if given == "" then consumer_group else given, start_id) in
    if start_id == ""
    then ([], error_reply 400 "start_id is required")
    else if failed (set_id args)
    then (args ∷ [], error_reply 500 "failed to set group cursor")
    else (args ∷ [], bare 204)
set_decoded set_id body_too_large = ([], error_reply 413 "request body too large")
set_decoded set_id extra_json_value = ([], error_reply 400 "invalid JSON body")
set_decoded set_id invalid_json = ([], error_reply 400 "invalid JSON body")

pub set_group_cursor :
    Decoder SetGroupCursorRequest → (SetId → Error) → Request → List SetId × Reply (Unit {0})
set_group_cursor decoder set_id r =
    require_method "POST" r ([], bare 405)
      (set_decoded set_id (decode_json_request decoder max_json_request_body_bytes r.body))

-- `strings.HasSuffix`.
has_suffix : String → String → Bool
has_suffix suffix String.[] = suffix == ""
has_suffix suffix (String.◌∷◌ c s) = String.◌∷◌ c s == suffix || has_suffix suffix s

-- The handler that serves a path below /events/.
pub data EventRoute : Type 0 where
  explain_route status_route event_route : EventRoute

pub events_route : String → EventRoute
events_route path =
    if has_suffix "/explain" (trim_right_slash path)
    then explain_route
    else if has_suffix "/status" (trim_right_slash path)
    then status_route
    else event_route

pub record Event : Type 0 where
  pub id : String
  pub event_type : String
  pub source : String
  pub payload : String
  pub created_at : String

-- What the query of one event gives.
pub data Fetched : Type 0 where
  row : Event → Fetched
  no_row query_failed : Fetched

event_reply : Fetched → Reply Event
event_reply (row e) = json 200 e
event_reply no_row = bare 404
event_reply query_failed = error_reply 500 "failed to fetch event"

pub fetch_event : (String → Fetched) → Request → Reply Event
fetch_event select r =
    let id = trim_prefix "/events/" r.path in
    require_method "GET" r (not_allowed "GET")
      (if id == "" then error_reply 400 "event id required" else event_reply (select id))

-- A request that is answered 204 has set the cursor of exactly one group, to an id that is not empty.
abbrev SetsOne : (SetId → Error) → List SetId × Reply (Unit {0}) → Type 0
SetsOne set_id (calls, bare n) =
    n ≡ 204
    → (args : SetId) × (calls ≡ args ∷ [])
      × ((args.1 == "") ≡ false)
      × (failed (set_id args) ≡ false)
SetsOne set_id (calls, reply) = Unit

set_decoded-SetsOne :
    (set_id : SetId → Error) (body : DecodeResult SetGroupCursorRequest)
    → SetsOne set_id (set_decoded set_id body)
unfolding set_decoded
set_decoded-SetsOne set_id (decoded req) =
    let args : SetId = (
      if trim_space req.group == "" then consumer_group else trim_space req.group,
      trim_space req.start_id,
    ) in
    if_cases (SetsOne set_id) (trim_space req.start_id == "") _ _ (λ h. tt)
      (λ named.
        if_cases (SetsOne set_id) (failed (set_id args)) _ _ (λ h. tt)
          (λ set. (λ h. (args, refl, named, set))))
set_decoded-SetsOne set_id body_too_large = tt
set_decoded-SetsOne set_id extra_json_value = tt
set_decoded-SetsOne set_id invalid_json = tt

routes_run :
    (events_route "/events/7/status/" ≡ status_route) × (events_route "/events/7" ≡ event_route)
unfolding events_route has_suffix trim_right_slash
routes_run = (refl, refl)
