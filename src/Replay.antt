-- ===== src/Replay.antt =====
-- cmd/api/replay_handler.go and the replay types of cmd/api/main.go: stored events are handed to
-- the stream again, page by page. Times are instants, in nanoseconds since the year 0.
pub mod Laws
pub mod Paging
pub mod Following
pub mod Pages
mod Tests
use eventrail_ingestion.Prelude.{
  Bool, List, Option, String, [], eqb, false, if◌then◌else◌, keep_if, leb, ltb, negsuc, none, not,
  order_by, pos, some, take, trim_space, true, ℕ, ℤ, ◌&&◌, ◌+◌, ◌==◌, ◌||◌, ◌∷◌,
}
use eventrail_ingestion.Errors.{Error, failed}
use eventrail_ingestion.Http.{Reply, Request, bare, error_reply, json, require_method}
use eventrail_ingestion.Http.Events.{
  DecodeResult, Decoder, body_too_large, decode_json_request, decoded, extra_json_value,
  invalid_json, max_json_request_body_bytes,
}
use eventrail_ingestion.Ingestion.{err}
use eventrail_ingestion.Outbox.{published}

pub record ReplayCursor : Type 0 where
  pub created_at : String
  pub event_id : String

pub record ReplayRequest : Type 0 where
  pub from_time : String
  pub to_time : String
  pub source : String
  pub event_type : String
  pub limit : ℤ
  pub cursor : Option ReplayCursor

pub record ReplayResponse : Type 0 where
  pub published : ℕ
  pub has_more : Bool
  pub next_cursor : Option ReplayCursor

-- A row of the query.
pub record ReplayEvent : Type 0 where
  pub id : String
  pub event_type : String
  pub source : String
  pub payload : String
  pub created_at : ℕ

-- What the handler asks the table `events` for: its arguments, and the limit of the clause LIMIT.
pub record ReplayQuery : Type 0 where
  pub from_time : ℕ
  pub to_time : ℕ
  pub source : Option String
  pub event_type : Option String
  pub after : Option (ℕ × String)
  pub limit : ℕ

-- Go's package `time`: parsing and printing as RFC 3339, in seconds and in nanoseconds.
pub record Times : Type 0 where
  pub parse : String → Option ℕ
  pub seconds : ℕ → String
  pub nano : ℕ → String

-- The rows that the database gives, where `none` is a row that cannot be scanned, and what
-- `rows.Err` says at the end.
pub record Rows : Type 0 where
  pub scanned : List (Option ReplayEvent)
  pub err : Error

-- The values of one message, as `publish` gets them.
abbrev pub Values : Type 0
Values = List (String × String)

-- The functions that the handler is built from. `publish` answers whether Redis took the message.
pub record Services : Type 0 where
  pub times : Times
  pub decoder : Decoder ReplayRequest
  pub query_events : ReplayQuery → Option Rows
  pub publish : Values → Bool

pub values : Times → ReplayEvent → Values
values times e =
    ("event_id", e.id)
    ∷ ("event_type", e.event_type)
    ∷ ("source", e.source)
    ∷ ("payload", e.payload)
    ∷ ("retry", "0")
    ∷ ("created_at", times.seconds e.created_at)
    ∷ ("replay", "1")
    ∷ []

pub cursor_of : Times → ReplayEvent → ReplayCursor
cursor_of times e = record { created_at = times.nano e.created_at; event_id = e.id }

-- `limit`: 1000 unless it is positive, and at most 5000.
pub replay_limit : ℤ → ℕ
replay_limit (negsuc n) = 1000
replay_limit (pos n) = if eqb n 0 then 1000 else if ltb 5000 n then 5000 else n

-- A condition that is added only for a text that is not empty.
condition : String → Option String
condition s = if s == "" then none else some s

pub is_blank_cursor : Option ReplayCursor → Bool
is_blank_cursor none = false
is_blank_cursor (some c) = trim_space c.created_at == "" || trim_space c.event_id == ""

pub parse_cursor : Times → Option ReplayCursor → Option (Option (ℕ × String))
parse_cursor times none = some none
parse_cursor times (some c) = elim (times.parse c.created_at) [
  | none ↦ none
  | some t ↦ some (some (t, c.event_id))
]

-- The query of a request, or the text of the refusal.
pub data Checked : Type 0 where
  accepted : ReplayQuery → Checked
  refused : String → Checked

pub query_of : ReplayRequest → ℕ → ℕ → Option (ℕ × String) → ReplayQuery
query_of req from_t to_t after = record {
  from_time = from_t;
  to_time = to_t;
  source = condition req.source;
  event_type = condition req.event_type;
  after = after;
  limit = replay_limit req.limit + 1;
}

parse_times : Times → ReplayRequest → Checked
parse_times times req = elim (times.parse req.from_time) [
  | none ↦ refused "from must be RFC3339"
  | some from_t ↦ elim (times.parse req.to_time) [
    | none ↦ refused "to must be RFC3339"
    | some to_t ↦ elim (parse_cursor times req.cursor) [
      | none ↦ refused "cursor created_at must be RFC3339"
      | some after ↦ accepted (query_of req from_t to_t after)
    ]
  ]
]

pub check_request : Times → ReplayRequest → Checked
check_request times req =
    if req.from_time == "" || req.to_time == ""
    then refused "from and to are required (RFC3339)"
    else if is_blank_cursor req.cursor
    then refused "cursor created_at and event_id are required together"
    else parse_times times req

-- The messages that were handed over and taken, in their order, with the answer.
abbrev pub Outcome : Type 0
Outcome = List Values × Reply ReplayResponse

finish : Error → ℕ → Bool → Option ReplayCursor → Outcome
finish e n more c = if failed e then ([], error_reply 500 "failed to read events") else (
  [],
  json 200 (record { published = n; has_more = more; next_cursor = if more then c else none }),
)

-- The loop over the rows, with what was published before and the cursor after it.
pub replay_rows :
    Services → ℕ → Error → ℕ → Option ReplayCursor → List (Option ReplayEvent) → Outcome
replay_rows v limit e n c [] = finish e n false c
replay_rows v limit e n c (none ∷ rows) = ([], error_reply 500 "failed to read events")
replay_rows v limit e n c (some row ∷ rows) =
    let rest = replay_rows v limit e (n + 1) (some (cursor_of v.times row)) rows in
    if leb limit n
    then finish e n true c
    else if v.publish (values v.times row)
    then (values v.times row ∷ rest.0, rest.1)
    else ([], error_reply 503 "failed to publish replay event")

replay_found : Services → ℕ → Option Rows → Outcome
replay_found v limit none = ([], error_reply 500 "failed to query events")
replay_found v limit (some rows) = replay_rows v limit rows.err 0 none rows.scanned

replay_query : Services → ℕ → Checked → Outcome
replay_query v limit (refused m) = ([], error_reply 400 m)
replay_query v limit (accepted q) = replay_found v limit (v.query_events q)

pub replay_decoded : Services → DecodeResult ReplayRequest → Outcome
replay_decoded v (decoded req) = replay_query v (replay_limit req.limit) (check_request v.times req)
replay_decoded v body_too_large = ([], error_reply 413 "request body too large")
replay_decoded v extra_json_value = ([], error_reply 400 "invalid JSON body")
replay_decoded v invalid_json = ([], error_reply 400 "invalid JSON body")

-- `newReplayHandler`.
pub replay_handler : Services → Request → Outcome
replay_handler v r =
    require_method "POST" r ([], bare 405)
      (replay_decoded v (decode_json_request v.decoder max_json_request_body_bytes r.body))

-- What the text of the query asks for, row by row.
same_or_any : Option String → String → Bool
same_or_any none s = true
same_or_any (some t) s = s == t

module _ (uuid_leb : String → String → Bool) where
  -- `created_at > $n OR (created_at = $n AND id > $m::uuid)`.
  pub is_after : Option (ℕ × String) → ReplayEvent → Bool
  is_after none e = true
  is_after (some (t, i)) e = ltb t e.created_at || (eqb e.created_at t && not (uuid_leb e.id i))

  pub in_range : ReplayQuery → ReplayEvent → Bool
  in_range q e =
      leb q.from_time e.created_at
      && leb e.created_at q.to_time
      && same_or_any q.source e.source
      && same_or_any q.event_type e.event_type

  -- `ORDER BY created_at ASC, id ASC`.
  pub sorts_before : ReplayEvent → ReplayEvent → Bool
  sorts_before a b =
      ltb a.created_at b.created_at || (eqb a.created_at b.created_at && uuid_leb a.id b.id)

  pub ordered_events : ReplayQuery → List ReplayEvent → List ReplayEvent
  ordered_events q events =
      order_by sorts_before (keep_if (is_after q.after) (keep_if (in_range q) events))

  pub select_events : ReplayQuery → List ReplayEvent → List ReplayEvent
  select_events q events = take q.limit (ordered_events q events)
